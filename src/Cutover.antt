-- ===== src/Cutover.antt =====
-- The cutover and the rollback of backend/internal/cutover/cutover.go. Both return a result beside
-- the error, so the model returns the two, and the state that the adapters leave.
pub mod Interlocks
pub mod Rollbacks
mod Examples
use drishti_server_migration.Base.{
  String, ℤ, pos, ℕ, ◌+◌, ◌*◌, ◌^◌, Bool, true, false, not, List, [], ◌∷◌, ◌++◌, Option, none, some,
  Error, new_error, Message, plain, sprintf, of_error, int, Result, ok, err, Eff, pure, attempt,
  ◌>>=◌, if◌then◌else◌,
}
use drishti_server_migration.Domain.{Plan, Vm, PowerState, is_off, Time}
use drishti_server_migration.Platform.{SourceAdapter, TargetAdapter}
use drishti_server_migration.Remediation.{GuestFacts}
use drishti_server_migration.Validation

pub record CutoverResult : Type 0 where
  pub success : Bool
  pub steps : List Message
  pub warning : Message
  pub retention_deadline : Time

pub record RollbackResult : Type 0 where
  pub success : Bool
  pub manual_action_required : Bool
  pub steps : List Message
  pub warning : Message

-- `time.Now()` reads the clock of the outside state and cannot fail.
abbrev pub read_clock : {X : Type 0} → (X → Time × X) → Eff X Time
read_clock now x = let (t, x') = now x in (ok t, x')

-- 14 * 24 * time.Hour, in nanoseconds.
abbrev pub retention : ℕ
retention = 14 * 24 * 3600 * 1000000000

-- `vmid := 0; if plan.TargetVMID != nil { vmid = *plan.TargetVMID }`
abbrev pub or_zero : Option ℤ → ℤ
or_zero none = pos 0
or_zero (some v) = v

abbrev refuse_cutover : List Message → Message → Error → CutoverResult × Option Error
refuse_cutover steps warning e =
    (record { success = false; steps = steps; warning = warning; retention_deadline = 0 }, some e)

abbrev confirmed_off : Message
confirmed_off = plain "Confirmed source VM is powered off."

abbrev confirmed_valid : Message
confirmed_valid = plain "Confirmed target validation passed."

abbrev finish_cutover : Time → CutoverResult × Option Error
finish_cutover started =
    let deadline = started + retention in
    (
      record {
        success = true;
        steps =
            confirmed_off
            ∷ confirmed_valid
            ∷ plain "Target moved to production network."
            ∷ plain "Production health checks passed (gateway, DNS, TCP ports)."
            ∷ sprintf "Source retention window started. Source cleanup eligible after %s."
                (int (pos deadline) ∷ [])
            ∷ [];
        warning = plain "";
        retention_deadline = deadline;
      },
      none,
    )

module _ {X : Type 0} (now : X → Time × X) where
  -- From the move to the production network on.
  pub move_target : TargetAdapter X → ℤ → String → ℤ → Eff X (CutoverResult × Option Error)
  move_target tgt vmid bridge vlan = do
    moved ← attempt (tgt.set_network vmid bridge vlan false)
    elim moved [
      | err e ↦ pure (refuse_cutover (confirmed_off ∷ confirmed_valid ∷ []) (of_error e) e)
      | ok _ ↦ do started ← read_clock now; pure (finish_cutover started)
    ]

  -- The `vm` and the `facts` of the source's signature are not read by its body.
  pub cutover :
      SourceAdapter X
      → TargetAdapter X
      → Plan
      → Vm
      → GuestFacts
      → Validation.Result
      → String
      → ℤ
      → Eff X (CutoverResult × Option Error)
  cutover src tgt plan vm facts validation bridge vlan = do
    asked ← attempt (src.power_state plan.source_vm_id)
    elim asked [
      | err e ↦ pure (refuse_cutover [] (of_error e) e)
      | ok state ↦
          if not (is_off state)
          then pure (
              refuse_cutover []
                (plain
                  "Source VM is still powered on. Cutover refused to prevent duplicate identity.")
                (new_error "source not powered off"))
          else if not validation.passed
          then pure (
              refuse_cutover [] (plain "Target validation did not pass. Cutover refused.")
                (new_error "validation not passed"))
          else move_target tgt (or_zero plan.target_vmid) bridge vlan
    ]

abbrev refuse_rollback : List Message → Message → Error → RollbackResult × Option Error
refuse_rollback steps warning e = (
  record { success = false; manual_action_required = false; steps = steps; warning = warning },
  some e,
)

abbrev isolated_step : List Message
isolated_step = plain "Target isolated to validation network." ∷ []

abbrev stopped_steps : List Message
stopped_steps =
    isolated_step
    ++ plain "Target powered off."
      ∷ plain "Confirmed no duplicate production identity exists (target isolated and off)."
      ∷ []

abbrev manual_warning : Message
manual_warning =
    plain
      "Manual action required: an authorized VMware operator must power on the retained source and validate its health."

abbrev rolled_back_result : RollbackResult × Option Error
rolled_back_result = (
  record {
    success = true;
    manual_action_required = true;
    steps =
        stopped_steps
        ++ plain "Confirmed retained source VM remains registered and powered off."
          ∷ manual_warning
          ∷ [];
    warning = manual_warning;
  },
  none,
)

module _ {X : Type 0} where
  -- The third step: the retained source must be off.
  pub confirm_source : SourceAdapter X → Plan → Eff X (RollbackResult × Option Error)
  confirm_source src plan = do
    asked ← attempt (src.power_state plan.source_vm_id)
    elim asked [
      | err e ↦ pure (refuse_rollback stopped_steps (of_error e) e)
      | ok state ↦
          if not (is_off state)
          then pure (
              refuse_rollback stopped_steps
                (plain "Retained source is not confirmed powered off; manual rollback refused.")
                (new_error "source not powered off"))
          else pure rolled_back_result
    ]

  pub rollback : SourceAdapter X → TargetAdapter X → Plan → Eff X (RollbackResult × Option Error)
  rollback src tgt plan = do
    isolated ← attempt (tgt.set_network (or_zero plan.target_vmid) "vmbr1" (pos 0) true)
    elim isolated [
      | err e ↦ pure (refuse_rollback [] (of_error e) e)
      | ok _ ↦ do
        stopped ← attempt (tgt.stop_vm (or_zero plan.target_vmid))
        elim stopped [
          | err e ↦ pure (refuse_rollback isolated_step (of_error e) e)
          | ok _ ↦ confirm_source src plan
        ]
    ]
