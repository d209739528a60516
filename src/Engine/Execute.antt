-- ===== src/Engine/Execute.antt =====
-- `ExecutePlan` of backend/internal/job/engine.go. An error return of the source also hands the job
-- back, which its only caller ignores; the model returns the error alone.
use drishti_server_migration.Base.{
  String, append, ℤ, Option, none, some, List, [], ◌∷◌, length, ltb, ℕ, zero, suc, if◌then◌else◌,
  panicked, wrap, Message, plain, joined, Arg, Result, ok, err, Eff, pure, throw, gets, attempt,
  with_error, ◌>>=◌, ◌>>◌,
}
use drishti_server_migration.Domain.{Plan, Job, Step, pending, running, Vm, TargetNode, Connection}
use drishti_server_migration.Platform.{SourceAdapter, TargetAdapter}
use drishti_server_migration.Stores.{World, outside}
use drishti_server_migration.Stores.JobStore
use drishti_server_migration.Engine.{
  Engine, Run, in_world, call, edit, clock, save_value, audit_value, fail, create,
}
use drishti_server_migration.Engine.Steps.{run_step, set_step_message, message_step}
use drishti_server_migration.Engine.Disks.{
  disk_works, power_off_source, create_target, export_disks, convert_disks, attach_disks,
  isolated_boot,
}

-- A change of the message of the step at an index.
unfoldable pub message_at : ℕ → Message → List Step → List Step
message_at i m [] = []
message_at zero m (s ∷ ss) = message_step m s ∷ ss
message_at (suc i) m (s ∷ ss) = s ∷ message_at i m ss

-- `return value, err` and `return cloneJob(value), nil`.
abbrev pub hand_back : {X : Type 0} → Result (Unit {0}) → Run X → Result Job × World X
hand_back (ok _) r = (ok r.value, r.world)
hand_back (err cause) r = (err cause, r.world)

module _ {X : Type 0} (e : Engine X) where
  -- The job becomes running, is saved, and the start is audited.
  unfoldable pub begin : Plan → Eff (Run X) Unit
  begin plan = do
    started ← clock e
    edit (λ j. record j { state = running; started_at = some started; finished_at = none })
    save_value e
    with_error (wrap "persist job start audit" []) (
        audit_value e λ j. record {
          id = append "evt-" plan.id;
          timestamp = started;
          actor = j.actor;
          action = "job.start";
          target = j.id;
          result = "running";
          detail = plain "Migration execution started.";
        })

  -- `if e.savePlan != nil { ... }`
  unfoldable pub persist_vmid : Option (Plan → Eff (World X) Unit) → Plan → Eff (Run X) Unit
  persist_vmid none plan = pure tt
  persist_vmid (some write) plan = in_world (write plan)

  -- `if err := ...; err != nil { return e.fail(...) }`
  unfoldable pub or_fail : {A : Type 0} → String → Result A → Eff (Run X) A
  or_fail context (ok a) = pure a
  or_fail context (err cause) = fail e (wrap context [] cause)

  -- The target's id: the plan's, or a reserved one, which the plan is saved with.
  unfoldable pub reserve_for : TargetAdapter X → Plan → TargetNode → Option ℤ → Eff (Run X) ℤ
  reserve_for tgt plan node (some vmid) = pure vmid
  reserve_for tgt plan node none = do
    reserved ← attempt (call (tgt.reserve_vmid node.id))
    vmid ← or_fail "reserve vmid" reserved
    saved ← attempt (persist_vmid e.save_plan (record plan { target_vmid = some vmid }))
    or_fail "persist target VMID" saved
    pure vmid

  unfoldable pub reserve : TargetAdapter X → Plan → TargetNode → Eff (Run X) ℤ
  unfolding reserve_for
  reserve tgt plan node = reserve_for tgt plan node plan.target_vmid

  unfoldable pub record_evidence : List (List Arg) → Eff (Run X) Unit
  record_evidence [] = pure tt
  record_evidence (l ∷ ls) = do
    edit (λ j.
        set_step_message j "convert_disks"
          (joined "completed; " "," "%s:%s:%d:%s:reused=%t" (l ∷ ls)))
    with_error (wrap "persist conversion evidence" []) (save_value e)

  -- A skipped conversion has no evidence.
  abbrev pub evidence_of : Option (List (List Arg)) → List (List Arg)
  evidence_of none = []
  evidence_of (some ls) = ls

  -- `value.Steps[7].Message = ...`, which panics when the job has no such step.
  unfoldable pub mark_waiting : Eff (Run X) Unit
  mark_waiting = do
    steps ← gets (λ r. r.value.steps)
    if ltb 7 (length steps)
        then edit (λ j. record j {
          state = pending;
          steps = message_at 7 (plain "Awaiting validation and operator cutover approval.") j.steps;
        })
        else throw (panicked "index out of range [7]")

  -- From the completed steps on.
  unfoldable pub finish : Plan → Eff (Run X) Unit
  finish plan = do
    mark_waiting
    save_value e
    timestamp ← clock e
    audit_value e λ j. record {
      id = append "evt-" (append plan.id "-wait");
      timestamp = timestamp;
      actor = "system";
      action = "job.waiting_validation";
      target = j.id;
      result = "pending";
      detail = plain "VM migrated to isolated target; awaiting validation and cutover approval.";
    }

  -- From the creation of the target on.
  unfoldable pub migrate : SourceAdapter X → TargetAdapter X → Plan → Vm → ℤ → Eff (Run X) Unit
  migrate src tgt plan vm vmid = do
    run_step e "create_target_vm" (create_target tgt plan vmid)
    job_dir ← gets (λ r. e.join_path e.work_dir r.value.id)
    made ← attempt (call (e.mkdir_all job_dir))
    or_fail "create job workspace" made
    let disks = disk_works e.join_path job_dir vm 0 plan.storage_maps
    run_step e "export_disks" (export_disks src plan disks)
    evidence ← run_step e "convert_disks" (convert_disks e.convert disks)
    record_evidence (evidence_of evidence)
    run_step e "attach_disks" (attach_disks tgt plan vmid disks)
    run_step e "isolated_boot" (isolated_boot tgt vmid)
    finish plan

  -- The body, from the job's start on.
  unfoldable pub body :
      SourceAdapter X → TargetAdapter X → Plan → Vm → TargetNode → Eff (Run X) Unit
  body src tgt plan vm node = do
    begin plan
    run_step e "source_poweroff" (power_off_source src plan)
    vmid ← reserve tgt plan node
    migrate src tgt plan vm vmid

  unfoldable pub adapters :
      Connection → Connection → Eff (World X) (SourceAdapter X × TargetAdapter X)
  adapters source target = do
    src ← with_error (wrap "source adapter" []) (outside (e.factory.source source))
    tgt ← with_error (wrap "target adapter" []) (outside (e.factory.target target))
    pure (src, tgt)

  -- The stored job, or a new one.
  unfoldable pub load : Option String → Plan → Eff (World X) Job
  load ctx plan = do
    found ← JobStore.get e.backend (append "job-" plan.id)
    elim found [ some value ↦ pure value | none ↦ create e ctx plan ]

  -- The body runs on the loaded job, which is returned as the body leaves it.
  unfoldable pub run_on : Job → Eff (Run X) Unit → Eff (World X) Job
  run_on value m w = let (o, r) = m (record { world = w; value = value }) in hand_back o r

  unfoldable pub execute_plan :
      Option String → Plan → Vm → TargetNode → Connection → Connection → Eff (World X) Job
  execute_plan ctx plan vm node source target = do
    value ← load ctx plan
    (src, tgt) ← adapters source target
    run_on value (body src tgt plan vm node)
