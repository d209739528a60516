-- ===== src/Platform.antt =====
-- The adapter interfaces of backend/internal/platform/adapters.go. The platforms, their network and
-- the disks are a state `X` that the program does not own; an adapter is a record of actions on it.
pub mod Traced
use drishti_server_migration.Base.{String, ℤ, Bool, Eff}
use drishti_server_migration.Domain.{
  Connection, PlatformKind, InventoryRoot, Vm, PowerState, TargetNode, Firmware, DiskFormat,
}

pub record PowerOffApproval : Type 0 where
  pub plan_id : String
  pub vmid : String
  pub approved : Bool

pub record ExportResult : Type 0 where
  pub path : String
  pub size_bytes : ℤ
  pub format : DiskFormat
  pub sha256 : String
  pub duration : String

pub record CreateVmSpec : Type 0 where
  pub name : String
  pub node_id : String
  pub vmid : ℤ
  pub cpu : ℤ
  pub memory_mb : ℤ
  pub firmware : Firmware
  pub idempotency_key : String
  pub isolated_bridge : String
  pub storage_id : String

pub record AttachDiskSpec : Type 0 where
  pub path : String
  pub format : DiskFormat
  pub size_bytes : ℤ
  pub boot : Bool
  pub controller : String
  pub storage_id : String
  pub device_index : ℤ
  pub idempotency_key : String

pub record SourceAdapter (X : Type 0) : Type 0 where
  pub kind : PlatformKind
  pub inventory : Eff X InventoryRoot
  pub vm : String → Eff X Vm
  pub export_disk : String → String → String → Eff X ExportResult
  pub power_off : String → PowerOffApproval → Eff X Unit
  pub power_state : String → Eff X PowerState

pub record TargetAdapter (X : Type 0) : Type 0 where
  pub kind : PlatformKind
  pub inventory : Eff X InventoryRoot
  pub node : String → Eff X TargetNode
  pub reserve_vmid : String → Eff X ℤ
  pub create_vm : CreateVmSpec → Eff X ℤ
  pub attach_disk : ℤ → AttachDiskSpec → Eff X Unit
  pub start_vm : ℤ → Eff X Unit
  pub stop_vm : ℤ → Eff X Unit
  pub set_network : ℤ → String → ℤ → Bool → Eff X Unit
  pub vm_state : ℤ → Eff X PowerState

pub record AdapterFactory (X : Type 0) : Type 0 where
  pub source : Connection → Eff X (SourceAdapter X)
  pub target : Connection → Eff X (TargetAdapter X)
