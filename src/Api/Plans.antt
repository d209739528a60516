-- ===== src/Api/Plans.antt =====
-- The handlers of plans and of the audit trail: backend/internal/api/inventory.go, and `listAudit` of
-- backend/internal/api/audit.go. `decodeJSON` gives the decoded body or its error.
use drishti_server_migration.Base.{
  ℤ, pos, String, append, Bool, false, ◌||◌, Option, none, some, List, Message, plain, of_error,
  Result, ok, err, leb_ℤ, any, ◌==◌, if◌then◌else◌,
}
use drishti_server_migration.Domain.{
  Time, Plan, draft, is_draft, Firmware, bios, uefi, DiskFormat, raw, qcow2, MigrationStrategy,
  cold, pve_live, StorageMap, NetworkMap,
}
use drishti_server_migration.Stores.PlanStore.{put_context, delete_context}
use drishti_server_migration.Engine.{actor}
use drishti_server_migration.Api.{
  Serve, ◌>>=◌, ◌>>◌, proceed, reply, reply_error, try, plan_store_error, Handlers, time_now,
  fresh_id, audit_event, stored_plan, plan_body, empty_body,
}

pub record CreatePlanInput : Type 0 where
  pub name : String
  pub source_vm_id : String
  pub source_conn_id : String
  pub target_node_id : String
  pub target_conn_id : String
  pub target_vm_name : String
  pub cpu : ℤ
  pub memory_mb : ℤ
  pub firmware : String
  pub disk_format : String
  pub strategy : String
  pub storage_maps : List StorageMap
  pub network_maps : List NetworkMap

abbrev pub lacks_ids : CreatePlanInput → Bool
lacks_ids input =
    input.source_vm_id == ""
    || (input.source_conn_id == "" || (input.target_node_id == "" || input.target_conn_id == ""))

-- An empty name, and a size that is not positive, get a default.
abbrev pub name_of : CreatePlanInput → String
name_of input = if input.name == "" then append "plan-" input.source_vm_id else input.name

abbrev pub firmware_of : String → Firmware
firmware_of name = if name == "uefi" then uefi else bios

abbrev pub at_least : ℤ → ℤ → ℤ
at_least least value = if leb_ℤ value (pos 0) then least else value

-- The strategy, where it is one that is implemented.
abbrev pub strategy_of : String → Option MigrationStrategy
strategy_of name =
    if name == "" || name == "cold"
    then some cold
    else if name == "pve-live"
    then some pve_live
    else none

abbrev pub format_of : String → DiskFormat
format_of name = if name == "qcow2" then qcow2 else raw

abbrev pub is_bad_storage : StorageMap → Bool
is_bad_storage m = m.source_disk_id == "" || m.target_storage_id == ""

abbrev pub is_bad_network : NetworkMap → Bool
is_bad_network m = m.source_nic_id == "" || m.target_bridge == ""

abbrev pub ids_required : Message
ids_required =
    plain "source_vm_id, source_connection_id, target_node_id and target_connection_id are required"

abbrev pub bad_request : {X A : Type 0} → Message → Serve X A
bad_request message = reply_error 400 message "bad_request" (plain "")

-- The plan of an accepted body, with its id and its two readings of the clock.
abbrev pub plan_from :
    Option String → CreatePlanInput → MigrationStrategy → String → Time → Time → Plan
plan_from ctx input strategy id created updated = record {
  id = append "plan-" id;
  name = name_of input;
  source_vm_id = input.source_vm_id;
  source_conn_id = input.source_conn_id;
  target_node_id = input.target_node_id;
  target_conn_id = input.target_conn_id;
  target_vm_name = input.target_vm_name;
  target_vmid = none;
  cpu = at_least (pos 1) input.cpu;
  memory_mb = at_least (pos 512) input.memory_mb;
  firmware = firmware_of input.firmware;
  storage_maps = input.storage_maps;
  network_maps = input.network_maps;
  status = draft;
  preflight_passed = false;
  source_power_off_approved = false;
  disk_format = format_of input.disk_format;
  strategy = strategy;
  created_at = created;
  updated_at = updated;
  created_by = actor ctx;
}

module _ {X : Type 0} (h : Handlers X) where
  unfoldable pub draft_plan : Option String → CreatePlanInput → MigrationStrategy → Serve X Plan
  unfolding fresh_id time_now
  draft_plan ctx input strategy = do
    id ← fresh_id h
    created ← time_now h
    updated ← time_now h
    proceed (plan_from ctx input strategy id created updated)

  -- The checks of the maps, and the storing of the plan.
  unfoldable pub store_draft : Option String → Plan → Serve X Unit
  unfolding audit_event put_context
  store_draft ctx plan =
      if any is_bad_storage plan.storage_maps
      then bad_request (plain "every storage mapping requires source_disk_id and target_storage_id")
      else if any is_bad_network plan.network_maps
      then bad_request (plain "every network mapping requires source_nic_id and target_bridge")
      else do
        try plan_store_error (put_context h.plans plan)
        audit_event h ctx "plan.create" plan.id "draft"
            (plain "Migration plan created from drag-and-drop; no migration executed.")
        reply 201 (plan_body plan)

  -- A body with the required ids. The clock is read before the strategy is refused, which is not
  -- seen.
  unfoldable pub create_checked :
      Option String → CreatePlanInput → Option MigrationStrategy → Serve X Unit
  unfolding draft_plan store_draft
  create_checked ctx input none =
      draft_plan ctx input cold
      >> bad_request
          (plain "strategy must be cold or pve-live; warm migration is not implemented yet")
  create_checked ctx input (some strategy) = draft_plan ctx input strategy >>= store_draft ctx

  unfoldable pub create_plan : Option String → Result CreatePlanInput → Serve X Unit
  unfolding create_checked
  create_plan ctx (err e) =
      reply_error 400 (plain "invalid request body") "bad_request" (of_error e)
  create_plan ctx (ok input) =
      if lacks_ids input
      then bad_request ids_required
      else create_checked ctx input (strategy_of input.strategy)

  unfoldable pub get_plan : String → Serve X Unit
  unfolding stored_plan
  get_plan path = do plan ← stored_plan h (h.normalize_id path); reply 200 (plan_body plan)

  unfoldable pub delete_plan : String → Serve X Unit
  unfolding stored_plan delete_context
  delete_plan path = do
    plan ← stored_plan h (h.normalize_id path)
    if is_draft plan.status
        then try plan_store_error (delete_context h.plans (h.normalize_id path))
          >> reply 204 empty_body
        else reply_error 409 (plain "only draft plans can be removed") "conflict" (plain "")
