-- ===== src/Api/Approvals.antt =====
-- The handlers `runPreflight` and `approvePlan` of backend/internal/api/migration.go, and the parts
-- that all its handlers use. The real Proxmox path is an interface (`Probe`) here.
use drishti_server_migration.Base.{
  ℤ, String, append, Bool, not, Option, none, some, List, [], ◌∷◌, Error, new_error, Message, plain,
  of_error, Result, ok, err, Eff, is_empty, any, if◌then◌else◌,
}
use drishti_server_migration.Domain.{
  Plan, preflight, Connection, Vm, TargetNode, StorageMap, Disk, qcow2, PreflightCheck, is_fail,
}
use drishti_server_migration.Platform.{AdapterFactory}
use drishti_server_migration.Stores.{World, outside}
use drishti_server_migration.Stores.PlanStore.{put_context, approve_context, is_approvable}
use drishti_server_migration.Preflight
use drishti_server_migration.Engine.{Engine}
use drishti_server_migration.Api.Adapters.{adapters_of}
use drishti_server_migration.Api.{
  Serve, ◌>>=◌, ◌>>◌, proceed, reply, reply_error, try, or_reply, or_missing, plan_store_error,
  Handlers, audit_event, event_of, stored_plan, connection, preflight_body, plan_body,
}

pub record RemoteMigration : Type 0 where
  pub upid : String
  pub source_node : String
  pub target_node : String
  pub source_vmid : ℤ
  pub target_vmid : ℤ

-- What the handlers call of `proxmox.Probe`. A wait reports its progress by a callback.
pub record Probe (X : Type 0) : Type 0 where
  pub remote_preflight : Plan → Connection → Connection → Eff X (List PreflightCheck)
  pub start_remote_migration : Plan → Connection → Connection → Eff X RemoteMigration
  pub wait_remote_migration :
      Connection → RemoteMigration → (Message → Eff (World X) Unit) → Eff (World X) Unit
  pub verify_remote_migration : Connection → Connection → RemoteMigration → Eff X Unit

pub record MigrationHandlers (X : Type 0) : Type 0 where
  pub handlers : Handlers X
  pub engine : Engine X
  pub factory : Option (AdapterFactory X)
  pub execution_disabled : Bool
  pub execution_locked : Bool
  pub real : Option (Probe X)

abbrev pub bool_text : Bool → String
bool_text b = if b then "pass" else "blocked"

abbrev default_storage : TargetNode → String
default_storage node = elim node.storage [ [] ↦ "" | s ∷ ss ↦ s.id ]

abbrev pub map_disks : String → List Disk → List StorageMap
map_disks id [] = []
map_disks id (d ∷ ds) =
    record { source_disk_id = d.id; target_storage_id = id; target_format = qcow2 }
    ∷ map_disks id ds

abbrev pub auto_storage_maps : Vm → TargetNode → List StorageMap
auto_storage_maps vm node = map_disks (default_storage node) vm.disks

abbrev pub not_found : String → Error
not_found name = new_error (append name " not found")

abbrev pub with_target : {A : Type 0} → A → Option A → Result (A × A)
with_target s none = err (not_found "target connection")
with_target s (some t) = ok (s, t)

abbrev pub with_source : {A : Type 0} → Option A → Option A → Result (A × A)
with_source none t = err (not_found "source connection")
with_source (some s) t = with_target s t

-- The messages of the checks that fail, in order.
abbrev pub blocked_of : List PreflightCheck → List Message
blocked_of [] = []
blocked_of (c ∷ cs) =
    let rest = blocked_of cs in if is_fail c.status then c.message ∷ rest else rest

abbrev pub preflighted : Bool → Plan → Plan
preflighted passed plan = record plan { status = preflight; preflight_passed = passed }

module _ {X : Type 0} where
  abbrev pub bad_request : {A : Type 0} → Error → Serve X A
  bad_request e = reply_error 400 (of_error e) "bad_request" (plain "")

  abbrev pub adapter_unavailable : {A : Type 0} → Error → Serve X A
  adapter_unavailable e =
      reply_error 503 (plain "platform adapter unavailable") "adapter_unavailable" (of_error e)

module _ {X : Type 0} (m : MigrationHandlers X) where
  unfoldable pub resolve_source_target : Plan → Result (Connection × Connection)
  unfolding connection
  resolve_source_target plan =
      with_source (connection m.handlers plan.source_conn_id)
        (connection m.handlers plan.target_conn_id)

  -- A plan with no storage map gets one per disk, and is stored with them.
  unfoldable pub mapped : Plan → Vm → TargetNode → Serve X Plan
  unfolding put_context
  mapped plan vm node =
      let full = record plan { storage_maps = auto_storage_maps vm node } in
      if is_empty plan.storage_maps
      then try plan_store_error (put_context m.handlers.plans full) >> proceed full
      else proceed plan

  -- The real preflight, which writes no audit event.
  unfoldable pub preflight_real : Probe X → Plan → Connection → Connection → Serve X Unit
  unfolding put_context outside
  preflight_real real plan source target = do
    checks ←
        try (λ e. reply_error 502 (plain "real preflight failed") "preflight_failed" (of_error e))
          (outside (real.remote_preflight plan source target))
    let passed = not (any (λ c. is_fail c.status) checks)
    try plan_store_error (put_context m.handlers.plans (preflighted passed plan))
    reply 200 (preflight_body plan.id passed checks (blocked_of checks))

  unfoldable pub preflight_adapters : Option String → Plan → Connection → Connection → Serve X Unit
  unfolding put_context outside adapters_of mapped audit_event
  preflight_adapters ctx plan source target = do
    (src, tgt) ← try adapter_unavailable (adapters_of m.factory source target)
    vm ← try bad_request (outside (src.vm plan.source_vm_id))
    node ← try bad_request (outside (tgt.node plan.target_node_id))
    full ← mapped plan vm node
    let result = Preflight.run full vm node
    try plan_store_error (put_context m.handlers.plans (preflighted result.pass full))
    audit_event m.handlers ctx "plan.preflight" plan.id (bool_text result.pass)
        (plain "Preflight checks ran.")
    reply 200 (preflight_body plan.id result.pass result.checks result.blocked)

  unfoldable pub preflight_with :
      Option String → Option (Probe X) → Plan → Connection → Connection → Serve X Unit
  preflight_with ctx none plan source target = preflight_adapters ctx plan source target
  preflight_with ctx (some real) plan source target = preflight_real real plan source target

  unfoldable pub run_preflight : Option String → String → Serve X Unit
  unfolding stored_plan preflight_with resolve_source_target
  run_preflight ctx path = do
    plan ← stored_plan m.handlers (m.handlers.normalize_id path)
    (source, target) ← or_reply bad_request (resolve_source_target plan)
    preflight_with ctx m.real plan source target

  abbrev pub approval_detail : Bool → String
  approval_detail power_off =
      if power_off
      then "Migration plan and source power-off for the named source VM were explicitly approved."
      else "Migration plan approved; source power-off was not authorized."

  -- The approval of a plan, with the decoded body: whether the stop of the source is approved. A
  -- request with no body decodes to `false`.
  unfoldable pub approve_decoded : Option String → Plan → Bool → Serve X Unit
  unfolding event_of approve_context
  approve_decoded ctx plan power_off = do
    event ←
        event_of m.handlers ctx "plan.approve" plan.id "approved"
          (plain (approval_detail power_off))
    found ←
        try (λ e. reply_error 409 (of_error e) "preflight_required" (plain ""))
          (approve_context m.handlers.plans m.handlers.audit plan.id power_off event)
    approved ← or_missing "plan not found" found
    reply 200 (plan_body approved)

  unfoldable pub approve_plan : Option String → String → Result Bool → Serve X Unit
  unfolding stored_plan approve_decoded
  approve_plan ctx path decoded = do
    plan ← stored_plan m.handlers (m.handlers.normalize_id path)
    if is_approvable plan
        then or_reply
            (λ e. reply_error 400 (plain "invalid approval request") "bad_request" (of_error e))
            decoded
          >>= approve_decoded ctx plan
        else reply_error 409 (plain "plan requires a passing preflight before approval")
            "preflight_required" (plain "")
