-- ===== src/Api/Examples.antt =====
-- Requests to a service in mock mode: memory stores, and platforms that answer with success.
use drishti_server_migration.Base.{
  arith, ℕ, suc, pos, true, false, none, some, [], ◌∷◌, ok, ◌≡◌, ◌⊎◌, refl,
}
use drishti_server_migration.Base.Dict.{lookup, insert}
use drishti_server_migration.Domain.{approved, Plan, preflight}
use drishti_server_migration.Fixtures.{plan, tick, calm_engine}
use drishti_server_migration.Stores.{World}
use drishti_server_migration.Api.{Handlers}
use drishti_server_migration.Api.Locks.{status_of, installed, unlocked_iff, unconfigured_refuses}
use drishti_server_migration.Api.Plans.{CreatePlanInput, create_plan, delete_plan}
use drishti_server_migration.Api.Approvals.{Probe, MigrationHandlers, RemoteMigration, approve_plan}
use drishti_server_migration.Api.Executions.{
  mock, lab, configure_lab_execution, enable_lab_remote_migration, execute_migration,
}
use drishti_server_migration.Api.Finishing.{cutover_job, rollback_job}
use drishti_server_migration.Api.Gates.{
  IsFreshAt, approval, unapproved-execute_migration, unchecked-approve_plan, approve_plan-records,
  delete_plan_iff, create_plan-is_fresh,
}

abbrev handlers : Handlers ℕ
handlers = record {
  connections = [];
  plans = none;
  audit = none;
  now = tick;
  new_id = λ t. ("20261126", suc t);
  normalize_id = λ id. id;
}

abbrev remote : RemoteMigration
remote = record {
  upid = "UPID:pve1";
  source_node = "pve1";
  target_node = "pve2";
  source_vmid = pos 100;
  target_vmid = pos 101;
}

abbrev probe : Probe ℕ
probe = record {
  remote_preflight = λ plan source target t. (ok [], t);
  start_remote_migration = λ plan source target t. (ok remote, t);
  wait_remote_migration = λ source result progress w. (ok tt, w);
  verify_remote_migration = λ source target result t. (ok tt, t);
}

abbrev service : MigrationHandlers ℕ
service = record {
  handlers = handlers;
  engine = calm_engine;
  factory = some calm_engine.factory;
  execution_disabled = true;
  execution_locked = true;
  real = none;
}

-- The plan after its preflight.
abbrev checked : Plan
checked = record plan { status = preflight; preflight_passed = true }

abbrev holding : Plan → World ℕ
holding p = record { jobs = []; plans = ("plan-1", p) ∷ []; events = []; ext = 5 }

abbrev request : CreatePlanInput
request = record {
  name = "";
  source_vm_id = "vm-1";
  source_conn_id = "src";
  target_node_id = "pve1";
  target_conn_id = "tgt";
  target_vm_name = "web";
  cpu = pos 0;
  memory_mb = pos 4096;
  firmware = "uefi";
  disk_format = "qcow2";
  strategy = "";
  storage_maps = [];
  network_maps = [];
}

unlocked_iff_example :
    (enable_lab_remote_migration probe false
      (configure_lab_execution lab true true service)).execution_disabled
    ≡ false
unlocked_iff_example = (unlocked_iff lab true true false probe service).1 (refl, refl, refl)

abbrev open_service : MigrationHandlers ℕ
open_service = record service { execution_disabled = false }

unconfigured_refuses_example :
    let shut = installed mock true true probe true open_service in
    let w = holding plan in
    let e = execute_migration shut none "plan-1" w in
    let c = cutover_job shut none "plan-1" w in
    let r = rollback_job shut none "plan-1" w in
    ((status_of e.0 ≡ 501) × (e.1 ≡ w))
    × ((status_of c.0 ≡ 501) × (c.1 ≡ w))
    × ((status_of r.0 ≡ 501) × (r.1 ≡ w))
unconfigured_refuses_example =
    unconfigured_refuses mock true true true probe open_service none "plan-1" (holding plan)
      (λ (is_lab, on_both, rest). ground (arith, is_lab))

unapproved-execute_migration_example :
    let (o, w') = execute_migration open_service none "plan-1" (holding checked) in
    (w' ≡ holding checked) × ((status_of o ≡ 404) ⊎ (status_of o ≡ 409) ⊎ (status_of o ≡ 501))
unfolding lookup
unapproved-execute_migration_example =
    unapproved-execute_migration open_service refl none "plan-1" (holding checked) refl

unchecked-approve_plan_example :
    let (o, w') = approve_plan service none "plan-1" (ok true) (holding plan) in
    (w' ≡ holding plan) × ((status_of o ≡ 404) ⊎ (status_of o ≡ 409))
unfolding lookup
unchecked-approve_plan_example =
    unchecked-approve_plan service refl none "plan-1" (ok true) (holding plan) refl

approve_plan-records_example :
    let (o, w') = approve_plan service (some "bob") "plan-1" (ok true) (holding checked) in
    let event = approval service (some "bob") checked true (holding checked) in
    (status_of o ≡ 200)
    × (w'.events ≡ event ∷ [])
    × (w'.plans
        ≡ insert "plan-1"
            (record checked {
              status = approved;
              source_power_off_approved = true;
              updated_at = event.timestamp;
            })
            (("plan-1", checked) ∷ []))
    × (w'.jobs ≡ [])
unfolding lookup
approve_plan-records_example =
    approve_plan-records service refl (some "bob") "plan-1" true checked (holding checked) refl refl
      refl refl refl

delete_plan_iff_example : status_of (delete_plan handlers "plan-1" (holding plan)).0 ≡ 204
unfolding lookup
delete_plan_iff_example = (delete_plan_iff handlers refl "plan-1" (holding plan)).0.1 refl

create_plan-is_fresh_example :
    IsFreshAt (holding plan) (create_plan handlers (some "alice") (ok request) (holding plan))
create_plan-is_fresh_example =
    create_plan-is_fresh handlers refl refl (some "alice") (ok request) (holding plan)
