-- ===== src/Api.antt =====
-- The handlers of backend/internal/api: what a request answers, and what it does to the service. A
-- handler runs on the state of the service and may return early, with its reply (`Serve`). The
-- decoder of request bodies, the clock and the ids that the clock gives are arguments.
pub mod Adapters
pub mod Plans
pub mod Approvals
pub mod Executions
pub mod Finishing
pub mod Gates
pub mod Locks
mod Examples
use drishti_server_migration.Base.{
  ℕ, String, append, Bool, true, false, Option, none, some, List, [], ◌∷◌, Error, new_error, wrap,
  Message, plain, of_error, Result, ok, err, Eff, ◌==◌, if◌then◌else◌, find,
}
use drishti_server_migration.Domain.{Plan, Job, Connection, PreflightCheck, AuditEvent, Time}
use drishti_server_migration.Platform.{AdapterFactory, SourceAdapter, TargetAdapter}
use drishti_server_migration.Stores.{World, outside}
use drishti_server_migration.Stores.PlanStore.{PlanBackend, get_context, put_context}
use drishti_server_migration.Stores.AuditStore.{AuditBackend, append_context}
use drishti_server_migration.Engine.{actor}

-- The body of a reply: the canonical error, or the value that the handler writes.
pub data Body : Type 0 where
  failure : Message → String → Message → Body
  plan_body : Plan → Body
  plans_body : List Plan → Body
  job_body : Job → Body
  jobs_body : List Job → Body
  preflight_body : String → Bool → List PreflightCheck → List Message → Body
  validation_body : Bool → List (String × String × String) → Body
  cutover_body : Bool → List Message → Time → Body
  rollback_body : Bool → Bool → List Message → Message → Body
  empty_body : Body

pub record Reply : Type 0 where
  pub status : ℕ
  pub body : Body

-- A handler goes on with a value, or has written its reply and returned.
pub data Outcome (A : Type 0) : Type 0 where
  went_on : A → Outcome A
  replied : Reply → Outcome A

abbrev pub Serve : Type 0 → Type 0 → Type 0
Serve X A = World X → Outcome A × World X

module _ {X A B : Type 0} where
  abbrev pub next : (A → Serve X B) → Outcome A → Serve X B
  next f (went_on a) w = f a w
  next f (replied r) w = (replied r, w)

  infixl 5 ◌>>=◌ ◌>>◌
  abbrev pub ◌>>=◌ : Serve X A → (A → Serve X B) → Serve X B
  ◌>>=◌ m f w = let (o, w') = m w in next f o w'

  abbrev pub ◌>>◌ : Serve X A → Serve X B → Serve X B
  m >> n = m >>= λ _. n

module _ {X A : Type 0} where
  abbrev pub proceed : A → Serve X A
  proceed a w = (went_on a, w)

  -- `writeErr` and `return`
  abbrev pub reply_error : ℕ → Message → String → Message → Serve X A
  reply_error status message code detail w =
      (replied (record { status = status; body = failure message code detail }), w)

  -- `writeJSON` and `return`
  abbrev pub reply : ℕ → Body → Serve X A
  reply status body w = (replied (record { status = status; body = body }), w)

  -- `if err != nil { writeErr(...); return }`
  abbrev pub or_reply : (Error → Serve X A) → Result A → Serve X A
  or_reply f (ok a) = proceed a
  or_reply f (err e) = f e

  abbrev pub try : (Error → Serve X A) → Eff (World X) A → Serve X A
  try f m w = let (r, w') = m w in or_reply f r w'

  -- A call whose error the handler keeps as a value.
  abbrev pub observe : Eff X A → Serve X (Result A)
  observe m w = let (r, x) = m w.ext in (went_on r, record w { ext = x })

  abbrev pub plan_store_error : Error → Serve X A
  plan_store_error _ =
      reply_error 503 (plain "plan store unavailable") "store_unavailable" (plain "")

  abbrev pub job_store_error : Error → Serve X A
  job_store_error _ = reply_error 503 (plain "job store unavailable") "store_unavailable" (plain "")

  abbrev pub audit_store_error : Error → Serve X A
  audit_store_error _ =
      reply_error 503 (plain "audit store unavailable") "store_unavailable" (plain "")

  -- `if !ok { writeErr(404) }`
  abbrev pub or_missing : String → Option A → Serve X A
  or_missing message (some a) = proceed a
  or_missing message none = reply_error 404 (plain message) "not_found" (plain "")

-- `Handlers`, with the clock, `newID` and `normalizeID`.
pub record Handlers (X : Type 0) : Type 0 where
  pub connections : List Connection
  pub plans : Option (PlanBackend X)
  pub audit : Option (AuditBackend X)
  pub now : X → Time × X
  pub new_id : X → String × X
  pub normalize_id : String → String

module _ {X : Type 0} (h : Handlers X) where
  unfoldable pub time_now : Serve X Time
  time_now w = let (t, x) = h.now w.ext in (went_on t, record w { ext = x })

  unfoldable pub fresh_id : Serve X String
  fresh_id w = let (id, x) = h.new_id w.ext in (went_on id, record w { ext = x })

  -- The audit event of a handler: `AppendContext(AuditEvent{ID: "evt-" + newID(), ...})`.
  unfoldable pub event_of : Option String → String → String → String → Message → Serve X AuditEvent
  unfolding time_now fresh_id
  event_of ctx action target result detail = do
    id ← fresh_id
    timestamp ← time_now
    proceed (record {
      id = append "evt-" id;
      timestamp = timestamp;
      actor = actor ctx;
      action = action;
      target = target;
      result = result;
      detail = detail;
    })

  unfoldable pub audit_event : Option String → String → String → String → Message → Serve X Unit
  unfolding event_of append_context
  audit_event ctx action target result detail = do
    event ← event_of ctx action target result detail
    try audit_store_error (append_context h.audit event)

  -- `GetContext` of the id in the path, with its two errors.
  unfoldable pub stored_plan : String → Serve X Plan
  unfolding get_context
  stored_plan id = do
    found ← try plan_store_error (get_context h.plans id)
    or_missing "plan not found" found

  -- `mock.Provider.Connection`
  unfoldable pub connection : String → Option Connection
  connection id = find (λ c. c.id == id) h.connections
