-- ===== src/Engine/Calls.antt =====
-- An engine whose adapters log their calls, and what an execution may call.
pub mod Steps
pub mod Runs
pub mod Whole
use drishti_server_migration.Base.{
  String, ℤ, pos, Bool, true, false, Option, none, some, List, [], ◌∷◌, Result, ok, err, Eff,
  on_part, ◌≡◌, ◌⊎◌,
}
use drishti_server_migration.Domain.{Plan, PowerState, on, off, Job, AuditEvent, Connection, Time}
use drishti_server_migration.Platform.{
  PowerOffApproval, AdapterFactory, SourceAdapter, TargetAdapter,
}
use drishti_server_migration.Platform.Traced.{
  Call, asks_power, powers_off, exports, creates, starts, stops, sets_network, traced_source,
  traced_target,
}
use drishti_server_migration.Stores.{World}
use drishti_server_migration.Stores.JobStore.{JobBackend}
use drishti_server_migration.Engine.{Engine, Evidence}

-- The last call is this one.
abbrev pub IsLast : Call → List Call → Type 0
IsLast c [] = ⊥
IsLast c (d ∷ log) = d ≡ c

-- A stop of the source names the plan and its machine, and follows at once on an answer that the
-- machine is off, or that it is on while the plan approves the stop.
abbrev pub IsApprovedStop : Plan → PowerOffApproval → List Call → Type 0
IsApprovedStop plan approval log =
    (approval.plan_id ≡ plan.id)
    × (approval.vmid ≡ plan.source_vm_id)
    × (approval.approved ≡ plan.source_power_off_approved)
    × (IsLast (asks_power plan.source_vm_id (ok off)) log
        ⊎ (IsLast (asks_power plan.source_vm_id (ok on)) log
            × (plan.source_power_off_approved ≡ true)))

-- What an execution of the plan may call, given the earlier calls.
abbrev pub IsAllowed : Plan → Call → List Call → Type 0
IsAllowed plan (exports id disk path) log = id ≡ plan.source_vm_id
IsAllowed plan (powers_off id approval) log =
    (id ≡ plan.source_vm_id) × IsApprovedStop plan approval log
IsAllowed plan (asks_power id answer) log = id ≡ plan.source_vm_id
IsAllowed plan (creates spec) log = spec.isolated_bridge ≡ "vmbr1"
IsAllowed plan (sets_network id bridge vlan isolated) log =
    (bridge ≡ "vmbr1") × (vlan ≡ pos 0) × (isolated ≡ true)
IsAllowed plan (starts id) log = IsLast (sets_network id "vmbr1" (pos 0) true) log
IsAllowed plan (stops id) log = ⊥
IsAllowed plan _ log = Unit

-- Every call of a log was allowed when it was made.
abbrev pub IsSafe : Plan → List Call → Type 0
IsSafe plan [] = Unit
IsSafe plan (c ∷ log) = IsAllowed plan c log × IsSafe plan log

abbrev pub traced_answer : {A B : Type 0} → (A → B) → Result A → Result B
traced_answer f (ok a) = ok (f a)
traced_answer f (err e) = err e

module _ {X : Type 0} where
  -- An action that logs nothing.
  abbrev pub unlogged : {A : Type 0} → Eff X A → Eff (X × List Call) A
  unlogged m (x, log) = let (r, x') = m x in (r, (x', log))

  abbrev without_log : World (X × List Call) → World X
  without_log w = record { jobs = w.jobs; plans = w.plans; events = w.events; ext = w.ext.0 }

  abbrev with_log : List Call → World X → World (X × List Call)
  with_log log w = record { jobs = w.jobs; plans = w.plans; events = w.events; ext = (w.ext, log) }

  abbrev pub unlogged_world : {A : Type 0} → Eff (World X) A → Eff (World (X × List Call)) A
  unlogged_world m w = let (r, w') = m (without_log w) in (r, with_log w.ext.1 w')

  abbrev traced_backend : Option (JobBackend X) → Option (JobBackend (X × List Call))
  traced_backend none = none
  traced_backend (some b) = some (record {
    save_job = λ j. unlogged (b.save_job j);
    get_job = λ id. unlogged (b.get_job id);
    list_jobs = unlogged b.list_jobs;
  })

  abbrev traced_writer :
      {A : Type 0} → Option (A → Eff (World X) Unit) → Option (A → Eff (World (X × List Call)) Unit)
  traced_writer none = none
  traced_writer (some write) = some (λ a. unlogged_world (write a))

  -- The adapters of the factory log; the stores, the converter, the clock and the disk do not.
  unfoldable pub traced_engine : Engine X → Engine (X × List Call)
  traced_engine e = record {
    backend = traced_backend e.backend;
    factory = record {
      source = λ c (x, log).
          let (r, x') = e.factory.source c x in (traced_answer traced_source r, (x', log));
      target = λ c (x, log).
          let (r, x') = e.factory.target c x in (traced_answer traced_target r, (x', log));
    };
    work_dir = e.work_dir;
    audit = traced_writer e.audit;
    save_plan = traced_writer e.save_plan;
    convert = λ input output format. unlogged (e.convert input output format);
    now = λ (x, log). let (t, x') = e.now x in (t, (x', log));
    mkdir_all = λ dir. unlogged (e.mkdir_all dir);
    join_path = e.join_path;
  }
