-- ===== src/Stores.antt =====
-- The state of the service: the memory of the three stores (jobs, plans, audit events), which mock
-- mode uses, and the outside state `X`: the platforms, the database, the disks and the clock.
pub mod JobStore
pub mod PlanStore
pub mod AuditStore
use drishti_server_migration.Base.{String, List, Eff, on_part}
use drishti_server_migration.Base.Dict.{Dict}
use drishti_server_migration.Domain.{Plan, Job, AuditEvent}

pub record World (X : Type 0) : Type 0 where
  pub jobs : Dict Job
  pub plans : Dict Plan
  pub events : List AuditEvent
  pub ext : X

module _ {X A : Type 0} where
  -- An action on the outside state.
  unfoldable pub outside : Eff X A → Eff (World X) A
  unfolding on_part
  outside = on_part (λ w. w.ext) (λ x w. record w { ext = x })
