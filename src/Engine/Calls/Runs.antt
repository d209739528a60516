-- ===== src/Engine/Calls/Runs.antt =====
-- The calls of the body of an execution: every action of the engine keeps the log safe.
use drishti_server_migration.Base.{
  String, ℤ, Option, none, some, List, [], ◌∷◌, Error, Arg, Result, ok, err, Eff, pure, gets,
  modify, on_part, arith,
}
use drishti_server_migration.Base.Hoare.{Keeps, keeps_rules, Keeps-bind}
use drishti_server_migration.Domain.{Plan, Job, Step, Vm, TargetNode, AuditEvent}
use drishti_server_migration.Platform.{SourceAdapter, TargetAdapter}
use drishti_server_migration.Platform.Traced.{Call, traced_source, traced_target}
use drishti_server_migration.Stores.{World, outside}
use drishti_server_migration.Stores.JobStore
use drishti_server_migration.Engine.{
  Engine, Run, write_audit, create, in_world, call, edit, clock, save_value, audit_value, fail,
}
use drishti_server_migration.Engine.Steps.{settle, start, resume, run_step}
use drishti_server_migration.Engine.Disks.{DiskWork, convert_disks}
use drishti_server_migration.Engine.Execute.{
  begin, persist_vmid, or_fail, reserve_for, reserve, record_evidence, mark_waiting, finish,
  migrate, body,
}
use drishti_server_migration.Engine.Calls.{IsSafe, traced_engine}
use drishti_server_migration.Engine.Calls.Steps.{
  IsSafeLog, power_off_source-IsSafeLog, export_disks-IsSafeLog, convert_disks-IsSafeLog,
  create_target-IsSafeLog, attach_disks-IsSafeLog, isolated_boot-IsSafeLog, reserve_vmid-IsSafeLog,
  unlogged-IsSafeLog,
}

-- The log of the outside state of a service is safe.
pub record IsSafeWorld {X : Type 0} (plan : Plan) (w : World (X × List Call)) : Type 0 where
  pub safe : IsSafe plan w.ext.1

pub record IsSafeRun {X : Type 0} (plan : Plan) (r : Run (X × List Call)) : Type 0 where
  pub safe : IsSafe plan r.world.ext.1

module _ {X : Type 0} (e : Engine X) (plan : Plan) where
  save-IsSafeWorld :
      (j : Job) → Keeps (IsSafeWorld plan) (JobStore.save (traced_engine e).backend j)
  unfolding traced_engine JobStore.save outside on_part modify
  save-IsSafeWorld j = record { at = λ w h. record { safe = ground (arith, h.safe) } }

  pub get-IsSafeWorld :
      (id : String) → Keeps (IsSafeWorld plan) (JobStore.get (traced_engine e).backend id)
  unfolding traced_engine JobStore.get outside on_part gets
  get-IsSafeWorld id = record { at = λ w h. record { safe = ground (arith, h.safe) } }

  write_audit-IsSafeWorld :
      (event : AuditEvent) → Keeps (IsSafeWorld plan) (write_audit (traced_engine e) event)
  unfolding traced_engine write_audit pure
  write_audit-IsSafeWorld event = record { at = λ w h. record { safe = ground (arith, h.safe) } }

  pub create-IsSafeWorld :
      (ctx : Option String) (p : Plan) → Keeps (IsSafeWorld plan) (create (traced_engine e) ctx p)
  unfolding create
  create-IsSafeWorld ctx p = search (keeps_rules, save-IsSafeWorld) depth 9

  pub Keeps-in_world :
      {A : Type 0} (m : Eff (World (X × List Call)) A)
      → Keeps (IsSafeWorld plan) m
      → Keeps (IsSafeRun plan) (in_world m)
  unfolding in_world
  Keeps-in_world m k = record {
    at = λ r h. record { safe = (k.at r.world (record { safe = h.safe })).safe };
  }

  Keeps-call :
      {A : Type 0} (m : Eff (X × List Call) A)
      → Keeps (IsSafeLog plan) m
      → Keeps (IsSafeRun plan) (call m)
  unfolding call
  Keeps-call m k = record {
    at = λ r h. record { safe = (k.at r.world.ext (record { safe = h.safe })).safe };
  }

  Keeps-edit : (f : Job → Job) → Keeps (IsSafeRun {X = X} plan) (edit f)
  unfolding edit
  Keeps-edit f = record { at = λ r h. record { safe = h.safe } }

  Keeps-clock : Keeps (IsSafeRun plan) (clock (traced_engine e))
  unfolding clock traced_engine
  Keeps-clock = record { at = λ r h. record { safe = h.safe } }

  Keeps-save_value : Keeps (IsSafeRun plan) (save_value (traced_engine e))
  unfolding save_value
  Keeps-save_value = record { at = λ r h. (Keeps-in_world _ (save-IsSafeWorld r.value)).at r h }

  Keeps-audit_value :
      (event : Job → AuditEvent) → Keeps (IsSafeRun plan) (audit_value (traced_engine e) event)
  unfolding audit_value
  Keeps-audit_value event = record {
    at = λ r h. (Keeps-in_world _ (write_audit-IsSafeWorld (event r.value))).at r h;
  }

ruleset run_rules =
    (keeps_rules, Keeps-edit, Keeps-clock, Keeps-save_value, Keeps-audit_value, Keeps-call)

module _ {X : Type 0} (e : Engine X) (plan : Plan) where
  fail-IsSafeRun :
      {A : Type 0} (cause : Error) → Keeps (IsSafeRun plan) (fail (traced_engine e) {A = A} cause)
  unfolding fail
  fail-IsSafeRun cause = search run_rules depth 9

  module _ {A : Type 0} (name : String) where
    settle-IsSafeRun : (r : Result A) → Keeps (IsSafeRun plan) (settle (traced_engine e) name r)
    unfolding settle
    settle-IsSafeRun (ok a) = search run_rules depth 9
    settle-IsSafeRun (err c) = search (run_rules, fail-IsSafeRun) depth 9

    module _ (fn : Eff (X × List Call) A) (h : Keeps (IsSafeLog plan) fn) where
      start-IsSafeRun : Keeps (IsSafeRun plan) (start (traced_engine e) name fn)
      unfolding start
      start-IsSafeRun = search (run_rules, settle-IsSafeRun) depth 12

      resume-IsSafeRun :
          (o : Option Step) → Keeps (IsSafeRun plan) (resume (traced_engine e) name fn o)
      unfolding resume
      resume-IsSafeRun none = search run_rules
      resume-IsSafeRun (some s) = search (run_rules, start-IsSafeRun)

      -- A step that keeps the log safe.
      run_step-IsSafeRun : Keeps (IsSafeRun plan) (run_step (traced_engine e) name fn)
      unfolding run_step
      run_step-IsSafeRun = search (run_rules, resume-IsSafeRun)

  or_fail-IsSafeRun :
      {A : Type 0} (context : String) (r : Result A)
      → Keeps (IsSafeRun plan) (or_fail (traced_engine e) context r)
  unfolding or_fail
  or_fail-IsSafeRun context (ok a) = search run_rules
  or_fail-IsSafeRun context (err c) = search (run_rules, fail-IsSafeRun)

  begin-IsSafeRun : Keeps (IsSafeRun plan) (begin (traced_engine e) plan)
  unfolding begin
  begin-IsSafeRun = search run_rules depth 9

  save_plan-IsSafeRun :
      (p : Plan)
      → Keeps (IsSafeRun plan) (persist_vmid (traced_engine e) (traced_engine e).save_plan p)
  unfolding persist_vmid traced_engine in_world pure on_part
  save_plan-IsSafeRun p = record { at = λ r h. record { safe = ground (arith, h.safe) } }

  record_evidence-IsSafeRun :
      (ls : List (List Arg)) → Keeps (IsSafeRun plan) (record_evidence (traced_engine e) ls)
  unfolding record_evidence
  record_evidence-IsSafeRun [] = search run_rules
  record_evidence-IsSafeRun (l ∷ ls) = search run_rules depth 9

  finish-IsSafeRun : Keeps (IsSafeRun plan) (finish (traced_engine e) plan)
  unfolding finish mark_waiting
  finish-IsSafeRun = search run_rules depth 12

  module _ (tgt : TargetAdapter X) where
    reserve_for-IsSafeRun :
        (node : TargetNode) (v : Option ℤ)
        → Keeps (IsSafeRun plan) (reserve_for (traced_engine e) (traced_target tgt) plan node v)
    unfolding reserve_for
    reserve_for-IsSafeRun node (some v) = search run_rules
    reserve_for-IsSafeRun node none =
        Keeps-bind _ _ (search (run_rules, reserve_vmid-IsSafeLog)) λ r.
          Keeps-bind _ _ (or_fail-IsSafeRun _ r) λ v.
            Keeps-bind _ _ (search (run_rules, save_plan-IsSafeRun))
              λ s. Keeps-bind _ _ (or_fail-IsSafeRun _ s) λ _. search run_rules

  module _ (src : SourceAdapter X) (tgt : TargetAdapter X) where
    convert-IsSafeLog :
        (disks : List DiskWork)
        → Keeps (IsSafeLog plan) (convert_disks (traced_engine e).convert disks)
    unfolding traced_engine
    convert-IsSafeLog disks =
        convert_disks-IsSafeLog plan _ disks λ i o f. unlogged-IsSafeLog plan (e.convert i o f)

    mkdir-IsSafeLog : (dir : String) → Keeps (IsSafeLog plan) ((traced_engine e).mkdir_all dir)
    unfolding traced_engine
    mkdir-IsSafeLog dir = unlogged-IsSafeLog plan (e.mkdir_all dir)

    migrate-IsSafeRun :
        (vm : Vm) (vmid : ℤ)
        → Keeps
            (IsSafeRun plan)
            (migrate (traced_engine e) (traced_source src) (traced_target tgt) plan vm vmid)
    unfolding migrate
    migrate-IsSafeRun vm vmid =
        Keeps-bind _ _ (run_step-IsSafeRun _ _ (create_target-IsSafeLog tgt plan vmid)) λ _.
          Keeps-bind _ _ (search run_rules) λ dir.
            Keeps-bind _ _ (search (run_rules, mkdir-IsSafeLog)) λ made.
              Keeps-bind _ _ (or_fail-IsSafeRun _ made) λ _.
                Keeps-bind _ _ (run_step-IsSafeRun _ _ (export_disks-IsSafeLog src plan _)) λ _.
                  Keeps-bind _ _ (run_step-IsSafeRun _ _ (convert-IsSafeLog _)) λ ls.
                    Keeps-bind _ _ (record_evidence-IsSafeRun _) λ _.
                      Keeps-bind _ _
                        (run_step-IsSafeRun _ _ (attach_disks-IsSafeLog tgt plan vmid _))
                        λ _.
                          Keeps-bind _ _
                            (run_step-IsSafeRun _ _ (isolated_boot-IsSafeLog tgt plan vmid))
                            λ _. finish-IsSafeRun

    pub body-IsSafeRun :
        (vm : Vm) (node : TargetNode)
        → Keeps
            (IsSafeRun plan)
            (body (traced_engine e) (traced_source src) (traced_target tgt) plan vm node)
    unfolding body reserve
    body-IsSafeRun vm node = Keeps-bind _ _ begin-IsSafeRun λ _.
        Keeps-bind _ _ (run_step-IsSafeRun _ _ (power_off_source-IsSafeLog src plan)) λ _.
          Keeps-bind _ _ (reserve_for-IsSafeRun tgt node plan.target_vmid)
            λ vmid. migrate-IsSafeRun vm vmid
