-- ===== src/Stores/AuditStore.antt =====
-- `AuditStore` of backend/internal/api/audit.go: a database, or a list in memory.
use drishti_server_migration.Base.{Option, none, some, List, [], ◌∷◌, ◌++◌, Eff, gets, modify}
use drishti_server_migration.Domain.{AuditEvent}
use drishti_server_migration.Stores.{World, outside}

pub record AuditBackend (X : Type 0) : Type 0 where
  pub append_audit : AuditEvent → Eff X Unit
  pub list_audit : Eff X (List AuditEvent)

module _ {X : Type 0} where
  unfoldable pub append_context : Option (AuditBackend X) → AuditEvent → Eff (World X) Unit
  unfolding outside modify
  append_context (some backend) e = outside (backend.append_audit e)
  append_context none e = modify (λ w. record w { events = w.events ++ e ∷ [] })

  unfoldable pub all_context : Option (AuditBackend X) → Eff (World X) (List AuditEvent)
  unfolding outside gets
  all_context (some backend) = outside backend.list_audit
  all_context none = gets (λ w. w.events)
