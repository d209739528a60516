-- ===== src/Cutover/Examples.antt =====
-- A cutover and a rollback on a platform that answers every call with success.
use drishti_server_migration.Base.{pos, true, false, [], ◌∷◌, Result as Outcome, ok, ◌≡◌, refl, ◌⊎◌}
use drishti_server_migration.Domain.{on, off}
use drishti_server_migration.Fixtures.{vm, plan, tick, calm_source, calm_target}
use drishti_server_migration.Platform.Traced.{
  asks_power, stops, sets_network, traced_source, traced_target,
}
use drishti_server_migration.Remediation.{GuestFacts, collect_facts}
use drishti_server_migration.Validation
use drishti_server_migration.Validation.{Result}
use drishti_server_migration.Cutover.{cutover, rollback}
use drishti_server_migration.Cutover.Interlocks.{
  did_cut_over, traced_clock, cutover_iff, cutover_trace,
}
use drishti_server_migration.Cutover.Rollbacks.{did_roll_back, rollback_iff, rollback_trace}

abbrev done : Outcome (Unit {0})
done = ok tt

abbrev facts : GuestFacts
facts = collect_facts vm

abbrev valid : Result
valid = Validation.run (Validation.default vm) vm on facts

valid_passes : valid.passed ≡ true
unfolding Validation.run collect_facts
valid_passes = refl

cutover_iff_example :
    did_cut_over (cutover tick calm_source calm_target plan vm facts valid "vmbr0" (pos 10) 5).0
    ≡ true
cutover_iff_example =
    (cutover_iff tick calm_source calm_target plan vm facts valid "vmbr0" (pos 10) 5).1
      (refl, valid_passes, refl)

cutover_trace_example :
    let (r, (_, calls)) =
      cutover
        (traced_clock tick)
        (traced_source calm_source)
        (traced_target calm_target)
        plan
        vm
        facts
        valid
        "vmbr0"
        (pos 10)
        (5, []) in
    ((calls ≡ asks_power "vm-1" (ok off) ∷ []) × (did_cut_over r ≡ false))
    ⊎ ((calls ≡ sets_network (pos 0) "vmbr0" (pos 10) false ∷ asks_power "vm-1" (ok off) ∷ [])
        × (ok off ≡ ok off)
        × (valid.passed ≡ true))
cutover_trace_example =
    cutover_trace tick calm_source calm_target plan vm facts valid "vmbr0" (pos 10) 5 []

rollback_iff_example : did_roll_back (rollback calm_source calm_target plan 5).0 ≡ true
rollback_iff_example = (rollback_iff calm_source calm_target plan 5).0.1 (refl, refl, refl)

rollback_trace_example :
    let (r, (_, calls)) =
      rollback (traced_source calm_source) (traced_target calm_target) plan (5, []) in
    let isolates = sets_network (pos 0) "vmbr1" (pos 0) true in
    ((calls ≡ isolates ∷ []) × (did_roll_back r ≡ false))
    ⊎ ((calls ≡ stops (pos 0) ∷ isolates ∷ []) × (done ≡ ok tt) × (did_roll_back r ≡ false))
    ⊎ ((calls ≡ asks_power "vm-1" (ok off) ∷ stops (pos 0) ∷ isolates ∷ [])
        × (done ≡ ok tt)
        × (done ≡ ok tt))
rollback_trace_example = rollback_trace calm_source calm_target plan 5 []
