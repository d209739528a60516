-- ===== src/Stores/PlanStore.antt =====
-- `PlanStore` of backend/internal/api/inventory.go: a database, or a map in memory. The snapshot of
-- all plans is listed in the map's order; the source then sorts it by creation time.
use drishti_server_migration.Base.{
  String, Bool, not, ◌&&◌, Option, none, some, List, Error, new_error, Eff, pure, throw, gets,
  modify, ◌>>=◌, ◌>>◌, if◌then◌else◌,
}
use drishti_server_migration.Base.Dict.{lookup, insert, erase}
use drishti_server_migration.Domain.{Plan, approved, is_preflight, AuditEvent}
use drishti_server_migration.Stores.{World, outside}
use drishti_server_migration.Stores.AuditStore.{AuditBackend, append_context}

-- `approve_plan` is there when the backend also implements `planApprovalBackend`.
pub record PlanBackend (X : Type 0) : Type 0 where
  pub list_plans : Eff X (List Plan)
  pub get_plan : String → Eff X (Option Plan)
  pub put_plan : Plan → Eff X Unit
  pub delete_plan : String → Eff X Unit
  pub approve_plan : Option (String → Bool → AuditEvent → Eff X (Option Plan))

abbrev pub approval_of :
    {X : Type 0}
    → Option (PlanBackend X)
    → Option (String → Bool → AuditEvent → Eff X (Option Plan))
approval_of none = none
approval_of (some backend) = backend.approve_plan

abbrev pub not_preflighted : Error
not_preflighted = new_error "plan requires a passing preflight before approval"

-- The plan as an approval writes it.
abbrev pub approve : Bool → AuditEvent → Plan → Plan
approve power_off event plan = record plan {
  status = approved;
  source_power_off_approved = power_off;
  updated_at = event.timestamp;
}

abbrev pub is_approvable : Plan → Bool
is_approvable plan = is_preflight plan.status && plan.preflight_passed

module _ {X : Type 0} where
  unfoldable pub get_context : Option (PlanBackend X) → String → Eff (World X) (Option Plan)
  unfolding outside gets
  get_context (some backend) id = outside (backend.get_plan id)
  get_context none id = gets (λ w. lookup id w.plans)

  unfoldable pub put_context : Option (PlanBackend X) → Plan → Eff (World X) Unit
  unfolding outside modify
  put_context (some backend) plan = outside (backend.put_plan plan)
  put_context none plan = modify (λ w. record w { plans = insert plan.id plan w.plans })

  unfoldable pub delete_context : Option (PlanBackend X) → String → Eff (World X) Unit
  unfolding outside modify
  delete_context (some backend) id = outside (backend.delete_plan id)
  delete_context none id = modify (λ w. record w { plans = erase id w.plans })

  -- The serialized path of `ApproveContext`, for a backend with no approval of its own.
  unfoldable pub approve_found :
      Option (PlanBackend X)
      → Option (AuditBackend X)
      → Bool
      → AuditEvent
      → Option Plan
      → Eff (World X) (Option Plan)
  approve_found plans audit power_off event none = pure none
  approve_found plans audit power_off event (some plan) =
      if not (is_approvable plan) then throw not_preflighted else do
        put_context plans (approve power_off event plan)
        append_context audit event
        pure (some (approve power_off event plan))

  unfoldable pub approve_context :
      Option (PlanBackend X)
      → Option (AuditBackend X)
      → String
      → Bool
      → AuditEvent
      → Eff (World X) (Option Plan)
  approve_context plans audit id power_off event = elim (approval_of plans) [
    | some transaction ↦ outside (transaction id power_off event)
    | none ↦ do found ← get_context plans id; approve_found plans audit power_off event found
  ]
