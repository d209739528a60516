-- ===== src/Engine/Examples.antt =====
-- An execution of a plan on platforms that answer every call with success.
use drishti_server_migration.Base.{
  ℕ, false, [], ◌∷◌, none, some, Result, ok, err, Eff, plain, new_error, wrap, of_error, ◌==◌, ◌≡◌,
  refl,
}
use drishti_server_migration.Base.Hoare.{Keeps}
use drishti_server_migration.Domain.{Job, failed, Connection, PlatformKind, source, unknown}
use drishti_server_migration.Fixtures.{vm, node, plan, calm_source, calm_target, calm_engine}
use drishti_server_migration.Stores.{World, outside}
use drishti_server_migration.Engine.{Run, new_job}
use drishti_server_migration.Engine.Execute.{body, execute_plan}
use drishti_server_migration.Engine.StepLaws.{OnValue, IsDone}
use drishti_server_migration.Engine.Calls.{IsSafe, traced_engine}
use drishti_server_migration.Engine.Calls.Whole.{execute_plan-IsSafe}
use drishti_server_migration.Engine.External.{
  external_job, remote_step, finish_external, update_external,
}
use drishti_server_migration.Engine.Failures.{failure_of, run_step-failure}
use drishti_server_migration.Engine.ExternalLaws.{
  state_of, IsEnded, finish_external-is_final, update_external-keeps_states,
}
use drishti_server_migration.Engine.Migrated.{IsMigrated, execute_plan-IsMigrated, body-IsDone}
use drishti_server_migration.Base.{
  attempt, for_each, gets, modify, on_part, pure, throw, with_error, ◌>>=◌,
}
use drishti_server_migration.Base.Dict.{lookup, insert}
use drishti_server_migration.Stores.JobStore
use drishti_server_migration.Engine.{
  create, clock, edit, save_value, audit_value, call, default_steps, in_world, request_actor,
  write_audit,
}
use drishti_server_migration.Engine.Steps.{
  run_step, resume, start, settle, find_step, set_step_message, update_step,
}
use drishti_server_migration.Engine.Disks.{
  attach_disk, attach_disks, convert_disks, create_target, disk_size, disk_works, export_disk,
  export_disks, isolated_boot, power_off_source, stop_source, verify_off,
}
use drishti_server_migration.Engine.Execute.{
  load, adapters, run_on, begin, finish, mark_waiting, message_at, migrate, or_fail, persist_vmid,
  record_evidence, reserve, reserve_for,
}

abbrev did_return : Result Job → Job
did_return (ok j) = j
did_return (err e) = new_job none plan

abbrev empty_world : World ℕ
empty_world = record { jobs = []; plans = []; events = []; ext = 5 }

abbrev connection : Connection
connection = record {
  id = "src";
  name = "src";
  kind = PlatformKind.vmware;
  role = source;
  endpoint = "";
  insecure_tls = false;
  status = unknown;
  secret_ref = "";
  created_at = 0;
  updated_at = 0;
}

returns : execute_plan calm_engine none plan vm node connection connection empty_world ≡ (
  ok (did_return (execute_plan calm_engine none plan vm node connection connection empty_world).0),
  (execute_plan calm_engine none plan vm node connection connection empty_world).1,
)
unfolding execute_plan ◌>>=◌ load JobStore.get lookup create JobStore.save adapters run_on body
    begin clock edit save_value audit_value run_step resume insert attempt for_each gets modify
    on_part pure throw with_error attach_disk attach_disks convert_disks create_target disk_size
    disk_works export_disk export_disks isolated_boot power_off_source stop_source verify_off finish
    mark_waiting message_at migrate or_fail persist_vmid record_evidence reserve reserve_for
    find_step set_step_message start settle update_step call default_steps in_world new_job
    request_actor write_audit outside
returns = refl

execute_plan-IsMigrated_example :
    IsMigrated
      (did_return (execute_plan calm_engine none plan vm node connection connection empty_world).0)
execute_plan-IsMigrated_example =
    execute_plan-IsMigrated calm_engine none plan vm node connection connection empty_world
      (execute_plan calm_engine none plan vm node connection connection empty_world).1
      (did_return (execute_plan calm_engine none plan vm node connection connection empty_world).0)
      returns

body-IsDone_example :
    Keeps
      (OnValue (IsDone "source_poweroff"))
      (body calm_engine calm_source calm_target plan vm node)
body-IsDone_example = body-IsDone calm_engine calm_source calm_target plan vm "source_poweroff" node

execute_plan-IsSafe_example :
    IsSafe plan
      (execute_plan
        (traced_engine calm_engine)
        none
        plan
        vm
        node
        connection
        connection
        (record { jobs = []; plans = []; events = []; ext = (5, []) })).1.ext.1
execute_plan-IsSafe_example =
    execute_plan-IsSafe calm_engine none plan vm node connection connection
      (record { jobs = []; plans = []; events = []; ext = (5, []) }) tt

abbrev remote_job : Job
remote_job = external_job "alice" plan "UPID:pve1" 1

abbrev remote_world : World ℕ
remote_world = record { jobs = ("job-plan-1", remote_job) ∷ []; plans = []; events = []; ext = 5 }

finish_external-is_final_example :
    let (r, w') = finish_external calm_engine "job-plan-1" none remote_world in
    (r ≡ ok tt)
    × ((ended : Job) × ((lookup "job-plan-1" w'.jobs ≡ some ended)
          × IsEnded none 5 remote_job (remote_step "alice" plan "UPID:pve1" 1) [] ended))
    × (update_external calm_engine "job-plan-1" (plain "100%") w' ≡ (ok tt, w'))
unfolding lookup
finish_external-is_final_example =
    finish_external-is_final calm_engine refl none (plain "100%") remote_job
      (remote_step "alice" plan "UPID:pve1" 1) [] remote_world refl refl

update_external-keeps_states_example :
    let w' = (update_external calm_engine "job-plan-1" (plain "40%") remote_world).1 in
    (state_of (lookup "job-plan-1" w'.jobs) ≡ state_of (lookup "job-plan-1" remote_world.jobs))
    × ((("job-plan-1" == "job-plan-1") ≡ false)
        → lookup "job-plan-1" w'.jobs ≡ lookup "job-plan-1" remote_world.jobs)
unfolding lookup
update_external-keeps_states_example =
    update_external-keeps_states calm_engine refl (plain "40%") remote_job "job-plan-1" remote_world
      refl

abbrev remote_run : Run ℕ
remote_run = record { world = remote_world; value = remote_job }

-- A step whose function finds the platform down.
abbrev down : Eff ℕ (Unit {0})
down t = (err (new_error "platform is down"), t)

run_step-failure_example :
    let cause = new_error "platform is down" in
    let (o, r') = run_step calm_engine "proxmox_remote_migration" down remote_run in
    (o ≡ err (wrap "proxmox_remote_migration" [] cause))
    × (r'.value.state ≡ failed)
    × (failure_of (find_step "proxmox_remote_migration" r'.value.steps) ≡ some (of_error cause))
    × (lookup "job-plan-1" r'.world.jobs ≡ some r'.value)
unfolding find_step
run_step-failure_example =
    run_step-failure calm_engine refl refl "proxmox_remote_migration" (new_error "platform is down")
      down (remote_step "alice" plan "UPID:pve1" 1) remote_run refl refl refl
