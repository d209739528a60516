-- ===== src/Mock/Examples.antt =====
-- A machine with one disk on an empty mock target.
use drishti_server_migration.Base.{pos, true, false, some, [], ◌∷◌, all, is_ok, ◌≡◌}
use drishti_server_migration.Domain.{bios, qcow2, on}
use drishti_server_migration.Platform.{CreateVmSpec, AttachDiskSpec}
use drishti_server_migration.Domain.{Connection, proxmox, target, connected}
use drishti_server_migration.Mock.{MockTarget}
use drishti_server_migration.Mock.Machines.{Guest, view, run_ops}
use drishti_server_migration.Mock.Boots.{boot, run_ops-boot}

abbrev spec : CreateVmSpec
spec = record {
  name = "web";
  node_id = "pve1";
  vmid = pos 101;
  cpu = pos 2;
  memory_mb = pos 4096;
  firmware = bios;
  idempotency_key = "plan-1";
  isolated_bridge = "vmbr-isolated";
  storage_id = "local-lvm";
}

abbrev disk : AttachDiskSpec
disk = record {
  path = "/w/d1.qcow2";
  format = qcow2;
  size_bytes = pos 40000;
  boot = true;
  controller = "scsi";
  storage_id = "local-lvm";
  device_index = pos 0;
  idempotency_key = "d1";
}

abbrev lab : Connection
lab = record {
  id = "tgt";
  name = "tgt";
  kind = proxmox;
  role = target;
  endpoint = "https://b";
  insecure_tls = false;
  status = connected;
  secret_ref = "";
  created_at = 0;
  updated_at = 0;
}

abbrev empty_target : MockTarget
empty_target = record { conn = lab; vms = []; next_id = pos 100 }

run_ops-boot_example :
    let (answers, after) =
      run_ops (boot spec 0 (disk ∷ disk ∷ []) "vmbr-isolated" (pos 0)) empty_target in
    (guest : Guest) × ((guest.name ≡ "web")
      × (guest.state ≡ on)
      × (guest.bridge ≡ "vmbr-isolated")
      × (guest.isolated ≡ true)
      × (all is_ok answers ≡ true)
      × (view after (pos 101) ≡ some guest))
run_ops-boot_example = run_ops-boot spec 0 (disk ∷ disk ∷ []) "vmbr-isolated" (pos 0) empty_target
