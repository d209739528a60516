-- ===== src/Mock.antt =====
-- The mock platforms of backend/internal/platform/mockplatform/adapters.go. The generated inventory, the
-- file system, SHA-256 and the clock are arguments.
pub mod Platforms
pub mod Targets
pub mod Machines
pub mod Refinement
pub mod Boots
mod Examples
use drishti_server_migration.Base.{ℤ, String, Bool, Option, List, Result, Eff}
use drishti_server_migration.Base.Dict.{Dict}
use drishti_server_migration.Domain.{Connection, PowerState, Disk, InventoryRoot, Time}
use drishti_server_migration.Platform.{AttachDiskSpec}

pub record MockSource : Type 0 where
  pub conn : Connection
  pub power : Dict PowerState
  pub disks : Dict (List Disk)

pub record MockVm : Type 0 where
  pub id : ℤ
  pub name : String
  pub node_id : String
  pub state : PowerState
  pub disks : List AttachDiskSpec
  pub bridge : String
  pub vlan : ℤ
  pub isolated : Bool
  pub created_at : Time

pub record MockTarget : Type 0 where
  pub conn : Connection
  pub vms : List (ℤ × MockVm)
  pub next_id : ℤ

-- `MockFactory`, with the outside state: the files and the clock.
pub record MockWorld (X : Type 0) : Type 0 where
  pub sources : Dict MockSource
  pub targets : Dict MockTarget
  pub ext : X

-- What the adapters call. `int_text` is `%d`.
pub record MockOutside (X : Type 0) : Type 0 where
  pub inventory : String → Option InventoryRoot
  pub int_text : ℤ → String
  pub byte_length : String → ℤ
  pub sha256_hex : String → String
  pub dir_of : String → String
  pub mkdir_all : String → Eff X (Unit {0})
  pub write_file : String → String → Eff X (Unit {0})
  pub since_text : Time → Time → String
  pub now : X → Time × X
