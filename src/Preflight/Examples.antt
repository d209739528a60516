-- ===== src/Preflight/Examples.antt =====
-- The preflight at a machine, a node and a plan that pass.
use drishti_server_migration.Base.{◌≡◌, refl, true}
use drishti_server_migration.Fixtures.{vm, node, plan}
use drishti_server_migration.Preflight.{run, add, note, add_storage}
use drishti_server_migration.Preflight.Checks.{
  check_power_state, check_capacity, free_memory_mb, check_storage_available,
  check_unsupported_features, check_snapshots, check_node_online,
}
use drishti_server_migration.Preflight.Verdict.{IsMigratable, failures, pass-run_iff, blocked-run}

migrates : (run plan vm node).pass ≡ true
unfolding run add note add_storage check_power_state check_capacity free_memory_mb
    check_storage_available check_unsupported_features check_snapshots check_node_online
migrates = refl

pass-run_iff_example : IsMigratable plan vm node
pass-run_iff_example = (pass-run_iff plan vm node).0 migrates

blocked-run_example : (run plan vm node).blocked ≡ failures (run plan vm node).checks
blocked-run_example = blocked-run plan vm node
