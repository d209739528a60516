-- ===== src/Domain/Jobs.antt =====
-- Jobs, steps and audit events: lines 303 to 347 of backend/internal/domain/models.go, with the
-- step and the job of backend/internal/job/engine.go, which embeds the domain's job.
use drishti_server_migration.Base.{String, Bool, true, false, Option, List, Message}
use drishti_server_migration.Domain.Inventory.{Time}

pub data JobState : Type 0 where
  pending running succeeded failed cancelled rollback_prepared rolled_back : JobState

abbrev pub is_succeeded : JobState → Bool
is_succeeded succeeded = true
is_succeeded _ = false

abbrev pub is_running : JobState → Bool
is_running running = true
is_running _ = false

pub record Step : Type 0 where
  pub id : String
  pub name : String
  pub actor : String
  pub state : JobState
  pub started_at : Option Time
  pub finished_at : Option Time
  pub external_id : String
  pub message : Message

pub record Job : Type 0 where
  pub id : String
  pub plan_id : String
  pub actor : String
  pub state : JobState
  pub started_at : Option Time
  pub finished_at : Option Time
  pub idempotency_key : String
  pub steps : List Step

pub record AuditEvent : Type 0 where
  pub id : String
  pub timestamp : Time
  pub actor : String
  pub action : String
  pub target : String
  pub result : String
  pub detail : Message
