-- ===== src/Cutover/Rollbacks.antt =====
-- The order and the outcome of a rollback, for any adapters and any answers of theirs.
use drishti_server_migration.Base.{
  pos, Bool, true, false, List, ◌∷◌, Option, Result, ok, err, Error, ◌>>=◌, ◌≡◌, ◌↔◌, ◌⊎◌, arith,
}
use drishti_server_migration.Domain.{Plan, off}
use drishti_server_migration.Platform.{SourceAdapter, TargetAdapter}
use drishti_server_migration.Platform.Traced.{
  Call, asks_power, stops, sets_network, traced_source, traced_target,
}
use drishti_server_migration.Cutover.{RollbackResult, or_zero, confirm_source, rollback}

abbrev pub did_roll_back : Result (RollbackResult × Option Error) → Bool
did_roll_back (ok (r, e)) = r.success
did_roll_back (err e) = false

abbrev pub needs_manual_action : Result (RollbackResult × Option Error) → Bool
needs_manual_action (ok (r, e)) = r.manual_action_required
needs_manual_action (err e) = false

module _ {X : Type 0} (src : SourceAdapter X) (tgt : TargetAdapter X) (plan : Plan) where
  -- A rollback succeeds exactly when the target is isolated on vmbr1, then stops, and then the source
  -- answers that it is off; and it then always asks for a manual start of the source.
  pub rollback_iff :
      (x : X)
      → let (r, _) = rollback src tgt plan x in
        let isolated = tgt.set_network (or_zero plan.target_vmid) "vmbr1" (pos 0) true x in
        let stopped = tgt.stop_vm (or_zero plan.target_vmid) isolated.1 in
        ((did_roll_back r ≡ true) ↔ (
          (isolated.0 ≡ ok tt)
          × (stopped.0 ≡ ok tt)
          × ((src.power_state plan.source_vm_id stopped.1).0 ≡ ok off)))
        × (needs_manual_action r ≡ did_roll_back r)
  unfolding rollback confirm_source ◌>>=◌
  rollback_iff x = ground arith

  abbrev isolates : Call
  isolates = sets_network (or_zero plan.target_vmid) "vmbr1" (pos 0) true

  abbrev stops_target : Call
  stops_target = stops (or_zero plan.target_vmid)

  -- A rollback isolates the target first, stops it only then, and asks for the source's power state
  -- only after both; it makes no other call, so it never starts, stops or exports the source.
  pub rollback_trace :
      (x : X) (log : List Call)
      → let (r, (_, calls)) = rollback (traced_source src) (traced_target tgt) plan (x, log) in
        let isolated = tgt.set_network (or_zero plan.target_vmid) "vmbr1" (pos 0) true x in
        let stopped = tgt.stop_vm (or_zero plan.target_vmid) isolated.1 in
        ((calls ≡ isolates ∷ log) × (did_roll_back r ≡ false))
        ⊎ ((calls ≡ stops_target ∷ isolates ∷ log)
            × (isolated.0 ≡ ok tt)
            × (did_roll_back r ≡ false))
        ⊎ ((calls
              ≡ asks_power plan.source_vm_id (src.power_state plan.source_vm_id stopped.1).0
                ∷ stops_target
                ∷ isolates
                ∷ log)
            × (isolated.0 ≡ ok tt)
            × (stopped.0 ≡ ok tt))
  unfolding rollback confirm_source ◌>>=◌ traced_source traced_target
  rollback_trace x log = ground arith
