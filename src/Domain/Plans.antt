-- ===== src/Domain/Plans.antt =====
-- Plans and preflight checks: lines 216 to 301 of backend/internal/domain/models.go.
use drishti_server_migration.Base.{ℤ, String, Bool, true, false, Option, List, Message}
use drishti_server_migration.Domain.Inventory.{Time, Firmware, DiskFormat}

pub data MigrationStrategy : Type 0 where
  cold pve_live warm : MigrationStrategy
  other_strategy : String → MigrationStrategy

pub data PlanStatus : Type 0 where
  draft preflight approved rejected archived : PlanStatus

abbrev pub is_draft : PlanStatus → Bool
is_draft draft = true
is_draft _ = false

abbrev pub is_preflight : PlanStatus → Bool
is_preflight preflight = true
is_preflight _ = false

abbrev pub is_approved : PlanStatus → Bool
is_approved approved = true
is_approved _ = false

pub record StorageMap : Type 0 where
  pub source_disk_id : String
  pub target_storage_id : String
  pub target_format : DiskFormat

pub record NetworkMap : Type 0 where
  pub source_nic_id : String
  pub target_bridge : String
  pub vlan_id : ℤ

pub record Plan : Type 0 where
  pub id : String
  pub name : String
  pub source_vm_id : String
  pub source_conn_id : String
  pub target_node_id : String
  pub target_conn_id : String
  pub target_vm_name : String
  pub target_vmid : Option ℤ
  pub cpu : ℤ
  pub memory_mb : ℤ
  pub firmware : Firmware
  pub storage_maps : List StorageMap
  pub network_maps : List NetworkMap
  pub status : PlanStatus
  pub preflight_passed : Bool
  pub source_power_off_approved : Bool
  pub disk_format : DiskFormat
  pub strategy : MigrationStrategy
  pub created_at : Time
  pub updated_at : Time
  pub created_by : String

pub data Severity : Type 0 where
  info warning error : Severity

pub data CheckStatus : Type 0 where
  pass fail warn skipped : CheckStatus

abbrev pub is_fail : CheckStatus → Bool
is_fail fail = true
is_fail _ = false

pub record PreflightCheck : Type 0 where
  pub id : String
  pub code : String
  pub severity : Severity
  pub status : CheckStatus
  pub message : Message
  pub detail : Message
