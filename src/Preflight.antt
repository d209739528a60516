-- ===== src/Preflight.antt =====
-- The preflight checks of backend/internal/preflight/engine.go: one function per check, and `run`,
-- which appends the checks and the blocking messages in the source's order. The proofs are below.
pub mod Checks
pub mod Verdict
mod Examples
use Checks.{
  PreflightCheck, check_power_state, check_capacity, check_storage_available,
  check_unsupported_features, check_firmware, check_tools_status, check_snapshots,
  check_node_online,
}
use drishti_server_migration.Base.{
  String, Bool, List, [], ◌∷◌, ◌++◌, Message, is_empty, if◌then◌else◌,
}
use drishti_server_migration.Domain.{Plan, StorageMap, Vm, TargetNode, is_fail}

pub record Result : Type 0 where
  pub plan_id : String
  pub pass : Bool
  pub checks : List PreflightCheck
  pub blocked : List Message

-- `checks = append(checks, c); if c.Status == CheckFail { blocked = append(blocked, c.Message) }`
pub record Report : Type 0 where
  pub checks : List PreflightCheck
  pub blocked : List Message

unfoldable pub add : PreflightCheck → Report → Report
add c r = record {
  checks = r.checks ++ c ∷ [];
  blocked = if is_fail c.status then r.blocked ++ c.message ∷ [] else r.blocked;
}

-- A check that never blocks is only appended.
unfoldable pub note : PreflightCheck → Report → Report
note c r = record { checks = r.checks ++ c ∷ []; blocked = r.blocked }

-- The loop over the storage maps.
pub add_storage : Vm → TargetNode → List StorageMap → Report → Report
add_storage vm node [] r = r
add_storage vm node (m ∷ ms) r = add_storage vm node ms (add (check_storage_available m vm node) r)

pub run : Plan → Vm → TargetNode → Result
run plan vm node =
    let r0 : Report = record { checks = []; blocked = [] } in
    let r1 = add (check_power_state vm) r0 in
    let r2 = add (check_capacity vm node) r1 in
    let r3 = add_storage vm node plan.storage_maps r2 in
    let r4 = add (check_unsupported_features vm) r3 in
    let r5 = note (check_firmware vm plan) r4 in
    let r6 = note (check_tools_status vm) r5 in
    let r7 = add (check_snapshots vm) r6 in
    let r8 = add (check_node_online node) r7 in
    record {
      plan_id = plan.id;
      pass = is_empty r8.blocked;
      checks = r8.checks;
      blocked = r8.blocked;
    }
