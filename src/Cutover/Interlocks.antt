-- ===== src/Cutover/Interlocks.antt =====
-- The interlocks of a cutover, for any adapters and any answers of theirs.
use drishti_server_migration.Base.{
  String, ℤ, Bool, true, false, List, ◌∷◌, Option, Result, ok, err, ◌>>=◌, ◌≡◌, ◌↔◌, ◌⊎◌, arith,
  Error,
}
use drishti_server_migration.Domain.{Plan, Vm, off, Time}
use drishti_server_migration.Platform.{SourceAdapter, TargetAdapter}
use drishti_server_migration.Platform.Traced.{
  Call, asks_power, sets_network, traced_source, traced_target,
}
use drishti_server_migration.Remediation.{GuestFacts}
use drishti_server_migration.Validation
use drishti_server_migration.Cutover.{CutoverResult, or_zero, move_target, cutover}

abbrev pub did_cut_over : Result (CutoverResult × Option Error) → Bool
did_cut_over (ok (r, e)) = r.success
did_cut_over (err e) = false

-- The clock of a logged state.
abbrev pub traced_clock : {X : Type 0} → (X → Time × X) → X × List Call → Time × (X × List Call)
traced_clock now (x, log) = let (t, x') = now x in (t, (x', log))

module _ {X : Type 0} (now : X → Time × X) (src : SourceAdapter X) (tgt : TargetAdapter X)
    (plan : Plan) (vm : Vm) (facts : GuestFacts) (v : Validation.Result) (bridge : String)
    (vlan : ℤ) where
  -- A cutover succeeds exactly when the source answers that it is off, the validation passed, and
  -- the target accepts the move to the given production bridge and VLAN.
  pub cutover_iff :
      (x : X)
      → (did_cut_over (cutover now src tgt plan vm facts v bridge vlan x).0 ≡ true) ↔ (
          ((src.power_state plan.source_vm_id x).0 ≡ ok off)
          × (v.passed ≡ true)
          × ((tgt.set_network
                (or_zero plan.target_vmid)
                bridge
                vlan
                false
                (src.power_state plan.source_vm_id x).1).0
              ≡ ok tt))
  unfolding cutover move_target ◌>>=◌
  cutover_iff x = ground arith

  -- The only call that can change a platform is the one move to the production network, and it is
  -- made only after the source answered that it is off and the validation passed. Any other cutover
  -- asks the source for its power state, calls nothing else, and reports no success.
  pub cutover_trace :
      (x : X) (log : List Call)
      → let (r, (_, calls)) =
          cutover
            (traced_clock now)
            (traced_source src)
            (traced_target tgt)
            plan
            vm
            facts
            v
            bridge
            vlan
            (x, log) in
        let answer = (src.power_state plan.source_vm_id x).0 in
        ((calls ≡ asks_power plan.source_vm_id answer ∷ log) × (did_cut_over r ≡ false))
        ⊎ ((calls
              ≡ sets_network (or_zero plan.target_vmid) bridge vlan false
                ∷ asks_power plan.source_vm_id (ok off)
                ∷ log)
            × (answer ≡ ok off)
            × (v.passed ≡ true))
  unfolding cutover move_target ◌>>=◌ traced_source traced_target
  cutover_trace x log = ground arith
