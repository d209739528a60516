-- ===== src/Preflight/Checks.antt =====
-- The single checks of backend/internal/preflight/engine.go, lines 90 to 193.
use drishti_server_migration.Base.{
  String, append, ℤ, pos, Bool, true, false, not, ◌&&◌, [], ◌∷◌, Option, none, some, Message, plain,
  sprintf, str, int, find, length, is_empty, sub_int64, ltb_ℤ, if◌then◌else◌, ◌==◌,
}
use drishti_server_migration.Domain.{
  Plan, StorageMap, Vm, Disk, DiskFormat, raw, TargetNode, TargetStorage, on, off, power_text,
  firmware_eq, firmware_text, Severity, info, warning, error, CheckStatus, pass, fail, warn,
}
pub use drishti_server_migration.Domain.{PreflightCheck}

-- The literals of the source set no `ID` and no `Detail`.
abbrev pub check : String → Severity → CheckStatus → Message → PreflightCheck
check code severity status message = record {
  id = "";
  code = code;
  severity = severity;
  status = status;
  message = message;
  detail = plain "";
}

unfoldable pub check_power_state : Vm → PreflightCheck
check_power_state vm = elim vm.power_state [
  | off ↦
      check "POWER_STATE" info pass (plain "Source VM is powered off and ready for cold migration.")
  | on ↦ check "POWER_STATE" warning warn (
      sprintf
        "VM %s is powered on. Execution requires separate approval to power off this exact source VM."
        (str vm.name ∷ []))
  | other ↦ check "POWER_STATE" error fail (
      sprintf "VM %s is %s. Cold migration cannot proceed from this power state."
        (str vm.name ∷ str (power_text other) ∷ []))
]

unfoldable pub free_memory_mb : TargetNode → ℤ
free_memory_mb node = sub_int64 node.memory_total_mb node.memory_used_mb

unfoldable pub check_capacity : Vm → TargetNode → PreflightCheck
check_capacity vm node =
    if ltb_ℤ (free_memory_mb node) vm.memory_mb
    then check "CAPACITY" error fail (
        sprintf "Target node has %d MB free memory but VM needs %d MB."
          (int (free_memory_mb node) ∷ int vm.memory_mb ∷ []))
    else check "CAPACITY" info pass (
        sprintf "Target node has sufficient CPU and %d MB free memory."
          (int (free_memory_mb node) ∷ []))

-- Go's zero value, which stands when no disk has the mapped id.
abbrev pub zero_disk : Disk
zero_disk = record {
  id = "";
  label = "";
  capacity_bytes = pos 0;
  format = DiskFormat.other_format "";
  controller = "";
  thin = false;
  datastore_id = "";
}

abbrev pub or_zero_disk : Option Disk → Disk
or_zero_disk none = zero_disk
or_zero_disk (some d) = d

-- The first loop: the disk of the map, or the zero value.
abbrev pub mapped_disk : StorageMap → Vm → Disk
mapped_disk sm vm = or_zero_disk (find (λ d. d.id == sm.source_disk_id) vm.disks)

-- The second loop: the first storage with the mapped id decides.
abbrev pub storage_verdict : StorageMap → Disk → TargetNode → Option TargetStorage → PreflightCheck
storage_verdict sm disk node none = check (append "STORAGE_" sm.source_disk_id) error fail (
    sprintf "Target storage %s not found on node %s."
      (str sm.target_storage_id ∷ str node.name ∷ []))
storage_verdict sm disk node (some s) =
    if ltb_ℤ s.free_bytes disk.capacity_bytes
    then check (append "STORAGE_" sm.source_disk_id) error fail (
        sprintf "Storage %s has %d bytes free but disk %s needs %d."
          (str s.name ∷ int s.free_bytes ∷ str disk.id ∷ int disk.capacity_bytes ∷ []))
    else check (append "STORAGE_" sm.source_disk_id) info pass (
        sprintf "Disk %s (%d bytes) fits in storage %s (%d bytes free)."
          (str disk.id ∷ int disk.capacity_bytes ∷ str s.name ∷ int s.free_bytes ∷ []))

unfoldable pub check_storage_available : StorageMap → Vm → TargetNode → PreflightCheck
check_storage_available sm vm node =
    storage_verdict sm (mapped_disk sm vm) node
      (find (λ s. s.id == sm.target_storage_id) node.storage)

abbrev pub is_raw : DiskFormat → Bool
is_raw raw = true
is_raw _ = false

abbrev pub unsupported_verdict : Option Disk → PreflightCheck
unsupported_verdict (some d) =
    check "UNSUPPORTED" error fail
      (sprintf "Disk %s uses raw/RDM format which is not supported in the MVP." (str d.id ∷ []))
unsupported_verdict none =
    check "UNSUPPORTED" info pass
      (plain "No unsupported features detected (no RDM, passthrough, or encryption).")

unfoldable pub check_unsupported_features : Vm → PreflightCheck
check_unsupported_features vm = unsupported_verdict (find (λ d. is_raw d.format) vm.disks)

unfoldable pub check_firmware : Vm → Plan → PreflightCheck
check_firmware vm plan =
    if not (firmware_eq vm.firmware plan.firmware)
    then check "FIRMWARE" warning warn (
        sprintf "Plan firmware %s differs from source %s. Review carefully."
          (str (firmware_text plan.firmware) ∷ str (firmware_text vm.firmware) ∷ []))
    else check "FIRMWARE" info pass
        (sprintf "Firmware %s preserved." (str (firmware_text vm.firmware) ∷ []))

unfoldable pub check_tools_status : Vm → PreflightCheck
check_tools_status vm =
    if not (vm.tools_status == "toolsOk") && not (vm.tools_status == "toolsOld")
    then check "VMWARE_TOOLS" warning warn (
        sprintf "VMware Tools status is %s. Quiesced snapshots may be unavailable."
          (str vm.tools_status ∷ []))
    else check "VMWARE_TOOLS" info pass (plain "VMware Tools running.")

unfoldable pub check_snapshots : Vm → PreflightCheck
check_snapshots vm =
    if not (is_empty vm.snapshots)
    then check "SNAPSHOTS" error fail (
        sprintf
          "VM has %d snapshot(s). Consolidate them manually before export; DRISHTI never removes or consolidates VMware snapshots."
          (int (pos (length vm.snapshots)) ∷ []))
    else check "SNAPSHOTS" info pass (plain "No snapshots; disk export is straightforward.")

unfoldable pub check_node_online : TargetNode → PreflightCheck
check_node_online node =
    if not node.online
    then check "NODE_ONLINE" error fail (sprintf "Target node %s is offline." (str node.name ∷ []))
    else check "NODE_ONLINE" info pass (sprintf "Target node %s is online." (str node.name ∷ []))
