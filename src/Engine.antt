-- ===== src/Engine.antt =====
-- The migration engine of backend/internal/job/engine.go. `ExecutePlan` changes the job that it holds
-- in place, so its actions run on that job beside the state of the service (`Run`). Whatever the
-- engine calls outside (platforms, disks, converter, clock) is an argument. The steps of a plan
-- are in Steps, the whole of `ExecutePlan` is in Execute, and the tasks of Proxmox are in External.
pub mod Steps
pub mod Disks
pub mod Execute
pub mod External
pub mod ExternalLaws
pub mod Failures
pub mod StepLaws
pub mod Completion
pub mod Outcome
pub mod Migrated
pub mod Calls
mod Examples
use drishti_server_migration.Base.{
  String, append, ℤ, Bool, true, false, Option, none, some, List, [], ◌∷◌, map, Error, wrap,
  Message, plain, of_error, while_handling, Result, ok, err, Eff, pure, throw, gets, modify,
  attempt, with_error, ◌>>=◌, ◌>>◌, on_part, if◌then◌else◌, ◌==◌,
}
use drishti_server_migration.Domain.{Plan, Job, Step, JobState, pending, failed, AuditEvent, Time}
use drishti_server_migration.Platform.{AdapterFactory}
use drishti_server_migration.Stores.{World, outside}
use drishti_server_migration.Stores.JobStore
use drishti_server_migration.Stores.JobStore.{JobBackend}

pub record Evidence : Type 0 where
  pub input_path : String
  pub output_path : String
  pub format : String
  pub size_bytes : ℤ
  pub sha256 : String
  pub duration : String
  pub reused : Bool

-- `Engine`, with what the source calls of the standard library: `time.Now`, `os.MkdirAll` and
-- `filepath.Join` of two elements.
pub record Engine (X : Type 0) : Type 0 where
  pub backend : Option (JobBackend X)
  pub factory : AdapterFactory X
  pub work_dir : String
  pub audit : Option (AuditEvent → Eff (World X) Unit)
  pub save_plan : Option (Plan → Eff (World X) Unit)
  pub convert : String → String → String → Eff X Evidence
  pub now : X → Time × X
  pub mkdir_all : String → Eff X Unit
  pub join_path : String → String → String

-- The actor of a request: `auth.Actor` of a context that carries a user id, or none.
abbrev pub actor : Option String → String
actor none = "unauthenticated"
actor (some id) = id

unfoldable pub request_actor : Option String → String
request_actor ctx = if actor ctx == "unauthenticated" then "system" else actor ctx

abbrev step_named : String → String → Step
step_named who name = record {
  id = "";
  name = name;
  actor = who;
  state = pending;
  started_at = none;
  finished_at = none;
  external_id = "";
  message = plain "";
}

unfoldable pub default_steps : String → List Step
default_steps who = map (step_named who) (
    "preflight" ∷ "source_poweroff" ∷ "export_disks" ∷ "convert_disks" ∷ "create_target_vm"
    ∷ "attach_disks" ∷ "isolated_boot" ∷ "validate" ∷ "cutover" ∷ [])

unfoldable pub new_job : Option String → Plan → Job
unfolding request_actor default_steps
new_job ctx plan = record {
  id = append "job-" plan.id;
  plan_id = plan.id;
  actor = request_actor ctx;
  state = pending;
  started_at = none;
  finished_at = none;
  idempotency_key = plan.id;
  steps = default_steps (request_actor ctx);
}

module _ {X : Type 0} (e : Engine X) where
  unfoldable pub write_audit : AuditEvent → Eff (World X) Unit
  write_audit event = elim e.audit [ none ↦ pure tt | some write ↦ write event ]

  unfoldable pub create : Option String → Plan → Eff (World X) Job
  create ctx plan = do
    with_error (wrap "persist new job" []) (JobStore.save e.backend (new_job ctx plan))
    pure (new_job ctx plan)

-- The state of the service, and the job that `ExecutePlan` changes in place.
pub record Run (X : Type 0) : Type 0 where
  pub world : World X
  pub value : Job

module _ {X A : Type 0} where
  unfoldable pub in_world : Eff (World X) A → Eff (Run X) A
  unfolding on_part
  in_world = on_part (λ r. r.world) (λ w r. record r { world = w })

  -- A call of an adapter, of the converter or of the operating system.
  unfoldable pub call : Eff X A → Eff (Run X) A
  unfolding in_world outside
  call m = in_world (outside m)

module _ {X : Type 0} where
  unfoldable pub edit : (Job → Job) → Eff (Run X) Unit
  unfolding modify
  edit f = modify (λ r. record r { value = f r.value })

module _ {X : Type 0} (e : Engine X) where
  unfoldable pub clock : Eff (Run X) Time
  unfolding call
  clock = call (λ x. let (t, x') = e.now x in (ok t, x'))

  unfoldable pub save_value : Eff (Run X) Unit
  unfolding in_world
  save_value r = in_world (JobStore.save e.backend r.value) r

  unfoldable pub audit_value : (Job → AuditEvent) → Eff (Run X) Unit
  unfolding in_world write_audit
  audit_value event r = in_world (write_audit e (event r.value)) r

  -- The job fails, is saved and the failure is audited; an error on the way is added to the cause.
  unfoldable pub fail : {A : Type 0} → Error → Eff (Run X) A
  fail cause = do
    timestamp ← clock
    edit (λ j. record j { state = failed; finished_at = some timestamp })
    with_error (while_handling cause "persist failed job") save_value
    with_error (while_handling cause "persist failure audit") (
        audit_value λ j. record {
          id = append "evt-" (append j.id "-fail");
          timestamp = timestamp;
          actor = "system";
          action = "job.fail";
          target = j.id;
          result = "failed";
          detail = of_error cause;
        })
    throw cause
