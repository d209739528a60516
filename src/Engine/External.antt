-- ===== src/Engine/External.antt =====
-- The tasks that Proxmox runs by itself: `StartExternal`, `FinishExternal` and `UpdateExternal` of
-- backend/internal/job/engine.go. An index into an empty list of steps panics.
use drishti_server_migration.Base.{
  String, append, Option, none, some, List, [], ◌∷◌, Error, panicked, Message, plain, of_error, ok,
  Eff, pure, throw, ◌>>=◌, ◌>>◌, if◌then◌else◌, ◌==◌,
}
use drishti_server_migration.Domain.{
  Plan, MigrationStrategy, pve_live, Job, Step, running, succeeded, failed, is_running, Time,
}
use drishti_server_migration.Stores.{World, outside}
use drishti_server_migration.Stores.JobStore
use drishti_server_migration.Engine.{Engine, request_actor, write_audit}

abbrev pub step_name_of : MigrationStrategy → String
step_name_of pve_live = "proxmox_live_migration"
step_name_of _ = "proxmox_remote_migration"

abbrev pub detail_of : MigrationStrategy → String
detail_of pve_live = "Live Proxmox remote migration started in lab mode; source deletion disabled."
detail_of _ = "Offline Proxmox remote migration started; source deletion disabled."

abbrev pub remote_step : String → Plan → String → Time → Step
remote_step who plan external_id now = record {
  id = "";
  name = step_name_of plan.strategy;
  actor = who;
  state = running;
  started_at = some now;
  finished_at = none;
  external_id = external_id;
  message = plain (append "Proxmox task " external_id);
}

abbrev pub external_job : String → Plan → String → Time → Job
external_job who plan external_id now = record {
  id = append "job-" plan.id;
  plan_id = plan.id;
  actor = who;
  state = running;
  started_at = some now;
  finished_at = none;
  idempotency_key = plan.id;
  steps = remote_step who plan external_id now ∷ [];
}

abbrev pub finished_message : String → Message
finished_message name =
    if name == "proxmox_live_migration"
    then plain "live migration completed; target is running and retained source must remain stopped"
    else plain "completed; source retained and target remains powered off"

-- The first step, with the outcome of the task.
abbrev pub finish_step : Option Error → Time → Step → Step
finish_step (some e) now s = record s {
  state = failed;
  message = of_error e;
  finished_at = some now;
}
finish_step none now s = record s {
  state = succeeded;
  message = finished_message s.name;
  finished_at = some now;
}

abbrev pub finish_job : Option Error → Time → Job → Step → List Step → Job
finish_job (some e) now j s ss = record j {
  state = failed;
  finished_at = some now;
  steps = finish_step (some e) now s ∷ ss;
}
finish_job none now j s ss = record j {
  state = succeeded;
  finished_at = some now;
  steps = finish_step none now s ∷ ss;
}

module _ {X : Type 0} (e : Engine X) where
  unfoldable pub world_clock : Eff (World X) Time
  unfolding outside
  world_clock = outside (λ x. let (t, x') = e.now x in (ok t, x'))

  unfoldable pub start_external : Option String → Plan → String → Eff (World X) Job
  start_external ctx plan external_id = do
    now ← world_clock
    let value = external_job (request_actor ctx) plan external_id now
    JobStore.save e.backend value
    write_audit e (record {
      id = append "evt-" (append plan.id "-remote");
      timestamp = now;
      actor = value.actor;
      action = "job.remote_migration";
      target = value.id;
      result = "running";
      detail = plain (detail_of plan.strategy);
    })
    pure value

  unfoldable pub finish_found : Option Error → Job → Time → List Step → Eff (World X) Unit
  finish_found task_error value now [] = throw (panicked "index out of range [0]")
  finish_found task_error value now (s ∷ ss) =
      JobStore.save e.backend (finish_job task_error now value s ss)

  unfoldable pub finish_external : String → Option Error → Eff (World X) Unit
  finish_external job_id task_error = do
    found ← JobStore.get e.backend job_id
    elim found [
      | none ↦ pure tt
      | some value ↦ do now ← world_clock; finish_found task_error value now value.steps
    ]

  unfoldable pub update_found : Message → Job → List Step → Eff (World X) Unit
  update_found message value [] = pure tt
  update_found message value (s ∷ ss) =
      if is_running value.state
      then JobStore.save e.backend (record value { steps = record s { message = message } ∷ ss })
      else pure tt

  unfoldable pub update_external : String → Message → Eff (World X) Unit
  update_external job_id message = do
    found ← JobStore.get e.backend job_id
    elim found [ none ↦ pure tt | some value ↦ update_found message value value.steps ]
