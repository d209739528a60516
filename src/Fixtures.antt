-- ===== src/Fixtures.antt =====
-- Inputs that the modules of examples share: a powered-off Linux machine with one disk, a node with
-- room for it, and a plan that maps the disk.
use drishti_server_migration.Base.{ℕ, suc, pos, true, false, [], ◌∷◌, none, ok, append}
use drishti_server_migration.Domain.{
  Plan, StorageMap, Vm, Disk, TargetNode, TargetStorage, InventoryRoot, Time, on, off, bios, linux,
  vmdk, qcow2, cold, draft, PlatformKind, proxmox,
}
use drishti_server_migration.Engine.{Engine, Evidence}
use drishti_server_migration.Platform.{SourceAdapter, TargetAdapter, ExportResult}

abbrev pub disk : Disk
disk = record {
  id = "d1";
  label = "Hard disk 1";
  capacity_bytes = pos 40000;
  format = vmdk;
  controller = "scsi";
  thin = true;
  datastore_id = "ds1";
}

abbrev pub vm : Vm
vm = record {
  id = "vm-1";
  name = "web";
  host_id = "h1";
  power_state = off;
  cpus = pos 2;
  memory_mb = pos 4096;
  firmware = bios;
  guest_os = "Debian";
  guest_family = linux;
  tools_status = "toolsOk";
  disks = disk ∷ [];
  nics = [];
  snapshots = [];
  datastore_ids = [];
  network_ids = [];
  notes = "";
}

abbrev pub store : TargetStorage
store = record {
  id = "local-lvm";
  name = "local-lvm";
  type = "lvm";
  content_types = "images" ∷ [];
  capacity_bytes = pos 100000;
  free_bytes = pos 50000;
  shared = false;
}

abbrev pub node : TargetNode
node = record {
  id = "pve1";
  name = "pve1";
  online = true;
  cpu_total_mhz = pos 20000;
  cpu_used_mhz = pos 100;
  memory_total_mb = pos 16384;
  memory_used_mb = pos 1024;
  storage = store ∷ [];
  bridges = [];
  vlan_aware = true;
  next_vmid = pos 100;
  vms = [];
}

abbrev pub storage_map : StorageMap
storage_map = record {
  source_disk_id = "d1";
  target_storage_id = "local-lvm";
  target_format = qcow2;
}

abbrev pub plan : Plan
plan = record {
  id = "plan-1";
  name = "web";
  source_vm_id = "vm-1";
  source_conn_id = "src";
  target_node_id = "pve1";
  target_conn_id = "tgt";
  target_vm_name = "web";
  target_vmid = none;
  cpu = pos 2;
  memory_mb = pos 4096;
  firmware = bios;
  storage_maps = storage_map ∷ [];
  network_maps = [];
  status = draft;
  preflight_passed = false;
  source_power_off_approved = false;
  disk_format = qcow2;
  strategy = cold;
  created_at = 0;
  updated_at = 0;
  created_by = "alice";
}

abbrev empty_inventory : InventoryRoot
empty_inventory = record { connection_id = "src"; generated_at = 0; datacenters = []; nodes = [] }

abbrev exported : ExportResult
exported = record {
  path = "/w/d1.vmdk";
  size_bytes = pos 40000;
  format = vmdk;
  sha256 = "ab";
  duration = "1s";
}

-- A platform whose state is a clock, and which answers every call with success: the source is off,
-- and the target runs.
abbrev pub tick : ℕ → Time × ℕ
tick t = (t, suc t)

abbrev pub calm_source : SourceAdapter ℕ
calm_source = record {
  kind = PlatformKind.vmware;
  inventory = λ t. (ok empty_inventory, t);
  vm = λ id t. (ok vm, t);
  export_disk = λ id disk path t. (ok exported, suc t);
  power_off = λ id approval t. (ok tt, suc t);
  power_state = λ id t. (ok off, t);
}

abbrev pub calm_target : TargetAdapter ℕ
calm_target = record {
  kind = proxmox;
  inventory = λ t. (ok empty_inventory, t);
  node = λ id t. (ok node, t);
  reserve_vmid = λ id t. (ok (pos 101), suc t);
  create_vm = λ spec t. (ok spec.vmid, suc t);
  attach_disk = λ id spec t. (ok tt, suc t);
  start_vm = λ id t. (ok tt, suc t);
  stop_vm = λ id t. (ok tt, suc t);
  set_network = λ id bridge vlan isolated t. (ok tt, suc t);
  vm_state = λ id t. (ok on, t);
}

abbrev converted : Evidence
converted = record {
  input_path = "/w/d1.vmdk";
  output_path = "/w/d1.qcow2";
  format = "qcow2";
  size_bytes = pos 40000;
  sha256 = "ab";
  duration = "1s";
  reused = false;
}

-- An engine on these platforms.
abbrev pub calm_engine : Engine ℕ
calm_engine = record {
  backend = none;
  factory = record {
    source = λ connection t. (ok calm_source, t);
    target = λ connection t. (ok calm_target, t);
  };
  work_dir = "/w";
  audit = none;
  save_plan = none;
  convert = λ input output format t. (ok converted, t);
  now = tick;
  mkdir_all = λ dir t. (ok tt, t);
  join_path = λ dir name. append dir (append "/" name);
}
