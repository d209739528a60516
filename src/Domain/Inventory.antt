-- ===== src/Domain/Inventory.antt =====
-- Connections and inventories: lines 1 to 214 of backend/internal/domain/models.go.
use drishti_server_migration.Base.{ℕ, ℤ, String, Bool, true, false, List, ◌==◌}

abbrev pub Time : Type 0
Time = ℕ

pub data PlatformKind : Type 0 where
  vmware proxmox hyperv : PlatformKind
  other_kind : String → PlatformKind

pub data Role : Type 0 where
  source target : Role
  other_role : String → Role

pub data ConnStatus : Type 0 where
  unknown connected errored : ConnStatus

pub record Connection : Type 0 where
  pub id : String
  pub name : String
  pub kind : PlatformKind
  pub role : Role
  pub endpoint : String
  pub insecure_tls : Bool
  pub status : ConnStatus
  pub secret_ref : String
  pub created_at : Time
  pub updated_at : Time

pub data PowerState : Type 0 where
  on off suspended : PowerState
  other_power : String → PowerState

abbrev pub is_on : PowerState → Bool
is_on on = true
is_on _ = false

abbrev pub is_off : PowerState → Bool
is_off off = true
is_off _ = false

-- The text of a power state, as `%s` prints it.
abbrev pub power_text : PowerState → String
power_text on = "on"
power_text off = "off"
power_text suspended = "suspended"
power_text (other_power s) = s

pub data Firmware : Type 0 where
  bios uefi : Firmware
  other_firmware : String → Firmware

-- `==` on the texts.
abbrev pub firmware_eq : Firmware → Firmware → Bool
firmware_eq bios bios = true
firmware_eq uefi uefi = true
firmware_eq (other_firmware s) (other_firmware t) = s == t
firmware_eq _ _ = false

abbrev pub firmware_text : Firmware → String
firmware_text bios = "bios"
firmware_text uefi = "uefi"
firmware_text (other_firmware s) = s

pub data GuestFamily : Type 0 where
  linux windows other : GuestFamily

pub data DiskFormat : Type 0 where
  vmdk raw qcow2 : DiskFormat
  other_format : String → DiskFormat

abbrev pub format_text : DiskFormat → String
format_text vmdk = "vmdk"
format_text raw = "raw"
format_text qcow2 = "qcow2"
format_text (other_format s) = s

pub record Disk : Type 0 where
  pub id : String
  pub label : String
  pub capacity_bytes : ℤ
  pub format : DiskFormat
  pub controller : String
  pub thin : Bool
  pub datastore_id : String

pub record Nic : Type 0 where
  pub id : String
  pub label : String
  pub mac_address : String
  pub network_id : String
  pub connected : Bool
  pub model : String

pub record Snapshot : Type 0 where
  pub id : String
  pub name : String
  pub description : String
  pub created_at : Time
  pub current : Bool

pub record Vm : Type 0 where
  pub id : String
  pub name : String
  pub host_id : String
  pub power_state : PowerState
  pub cpus : ℤ
  pub memory_mb : ℤ
  pub firmware : Firmware
  pub guest_os : String
  pub guest_family : GuestFamily
  pub tools_status : String
  pub disks : List Disk
  pub nics : List Nic
  pub snapshots : List Snapshot
  pub datastore_ids : List String
  pub network_ids : List String
  pub notes : String

pub record Host : Type 0 where
  pub id : String
  pub name : String
  pub power_state : String
  pub cpu_total_mhz : ℤ
  pub cpu_used_mhz : ℤ
  pub memory_total_mb : ℤ
  pub memory_used_mb : ℤ
  pub vms : List Vm

pub record Cluster : Type 0 where
  pub id : String
  pub name : String
  pub hosts : List Host

pub record Datacenter : Type 0 where
  pub id : String
  pub name : String
  pub clusters : List Cluster

pub record TargetStorage : Type 0 where
  pub id : String
  pub name : String
  pub type : String
  pub content_types : List String
  pub capacity_bytes : ℤ
  pub free_bytes : ℤ
  pub shared : Bool

pub record Bridge : Type 0 where
  pub id : String
  pub name : String
  pub vlan_aware : Bool
  pub ports : List String

pub record TargetVm : Type 0 where
  pub id : ℤ
  pub name : String
  pub node_id : String
  pub status : PowerState
  pub cpus : ℤ
  pub memory_mb : ℤ

pub record TargetNode : Type 0 where
  pub id : String
  pub name : String
  pub online : Bool
  pub cpu_total_mhz : ℤ
  pub cpu_used_mhz : ℤ
  pub memory_total_mb : ℤ
  pub memory_used_mb : ℤ
  pub storage : List TargetStorage
  pub bridges : List Bridge
  pub vlan_aware : Bool
  pub next_vmid : ℤ
  pub vms : List TargetVm

pub record InventoryRoot : Type 0 where
  pub connection_id : String
  pub generated_at : Time
  pub datacenters : List Datacenter
  pub nodes : List TargetNode
