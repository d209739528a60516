-- ===== src/Engine/Disks.antt =====
-- The functions of the steps of a plan: lines 187 to 308 of backend/internal/job/engine.go.
use drishti_server_migration.Base.{
  ℕ, zero, suc, String, append, ℤ, pos, Bool, true, false, not, ◌&&◌, List, [], ◌∷◌, Error,
  new_error, errorf, wrap, str, int, bool, Arg, Eff, pure, throw, with_error, for_each, ◌>>=◌, ◌>>◌,
  if◌then◌else◌, ◌==◌,
}
use drishti_server_migration.Domain.{
  Plan, StorageMap, Vm, Disk, PowerState, is_on, is_off, power_text, format_text,
}
use drishti_server_migration.Platform.{SourceAdapter, TargetAdapter}
use drishti_server_migration.Engine.{Evidence}

pub record DiskWork : Type 0 where
  pub index : ℤ
  pub storage_map : StorageMap
  pub export_path : String
  pub converted_path : String
  pub size_bytes : ℤ

-- The inner loop has no `break`: the last disk with the id counts.
unfoldable pub disk_size : String → List Disk → ℤ → ℤ
disk_size id [] size = size
disk_size id (d ∷ ds) size = disk_size id ds (if d.id == id then d.capacity_bytes else size)

module _ (join : String → String → String) (job_dir : String) (vm : Vm) where
  unfoldable pub disk_works : ℕ → List StorageMap → List DiskWork
  disk_works i [] = []
  disk_works i (m ∷ ms) =
      record {
        index = pos i;
        storage_map = m;
        export_path = join job_dir (append m.source_disk_id ".vmdk");
        converted_path =
            join job_dir (append m.source_disk_id (append "." (format_text m.target_format)));
        size_bytes = disk_size m.source_disk_id vm.disks (pos 0);
      }
      ∷ disk_works (suc i) ms

abbrev pub boots : ℤ → Bool
boots (pos zero) = true
boots _ = false

abbrev pub first_storage : List StorageMap → String
first_storage [] = ""
first_storage (m ∷ ms) = m.target_storage_id

abbrev pub disk_error : DiskWork → Error → Error
disk_error d = wrap "disk %s" (str d.storage_map.source_disk_id ∷ [])

module _ {X : Type 0} where
  -- The second read of the power state: the source must be off now.
  unfoldable pub verify_off : SourceAdapter X → Plan → Eff X Unit
  verify_off src plan = do
    after ← with_error (wrap "verify source power state" []) (src.power_state plan.source_vm_id)
    if is_off after then pure tt else throw (new_error "source VM did not reach powered-off state")

  -- What follows the first read of the power state.
  unfoldable pub stop_source : SourceAdapter X → Plan → PowerState → Eff X Unit
  stop_source src plan state =
      if is_on state && not plan.source_power_off_approved
      then throw (new_error "running source requires explicit source power-off approval")
      else if not (is_on state) && not (is_off state)
      then throw (
          errorf "source power state %q is not safe for cold migration"
            (str (power_text state) ∷ []))
      else src.power_off plan.source_vm_id (record {
        plan_id = plan.id;
        vmid = plan.source_vm_id;
        approved = plan.source_power_off_approved;
      })
        >> verify_off src plan

  -- The source must be off, or on with the approval to stop it; and off after the call.
  unfoldable pub power_off_source : SourceAdapter X → Plan → Eff X Unit
  power_off_source src plan = do
    state ← with_error (wrap "read source power state" []) (src.power_state plan.source_vm_id)
    stop_source src plan state

  unfoldable pub create_target : TargetAdapter X → Plan → ℤ → Eff X Unit
  create_target tgt plan vmid = do
    tgt.create_vm (record {
      name = plan.target_vm_name;
      node_id = plan.target_node_id;
      vmid = vmid;
      cpu = plan.cpu;
      memory_mb = plan.memory_mb;
      firmware = plan.firmware;
      idempotency_key = plan.id;
      isolated_bridge = "vmbr1";
      storage_id = first_storage plan.storage_maps;
    })
    pure tt

  unfoldable pub export_disk : SourceAdapter X → Plan → DiskWork → Eff X Unit
  export_disk src plan d = do
    with_error (disk_error d)
        (src.export_disk plan.source_vm_id d.storage_map.source_disk_id d.export_path)
    pure tt

  unfoldable pub export_disks : SourceAdapter X → Plan → List DiskWork → Eff X Unit
  unfolding for_each
  export_disks src plan disks = for_each disks (export_disk src plan)

  -- The evidence of each disk, in order: the arguments of its line.
  unfoldable pub convert_disks :
      (String → String → String → Eff X Evidence) → List DiskWork → Eff X (List (List Arg))
  convert_disks convert [] = pure []
  convert_disks convert (d ∷ ds) = do
    r ←
        with_error (disk_error d)
          (convert d.export_path d.converted_path (format_text d.storage_map.target_format))
    rest ← convert_disks convert ds
    pure (
        (str d.storage_map.source_disk_id
          ∷ str r.format
          ∷ int r.size_bytes
          ∷ str r.sha256
          ∷ bool r.reused
          ∷ [])
        ∷ rest)

  unfoldable pub attach_disk : TargetAdapter X → Plan → ℤ → DiskWork → Eff X Unit
  attach_disk tgt plan vmid d = with_error (disk_error d) (
      tgt.attach_disk vmid (record {
        path = d.converted_path;
        format = d.storage_map.target_format;
        size_bytes = d.size_bytes;
        boot = boots d.index;
        controller = "virtio-scsi";
        storage_id = d.storage_map.target_storage_id;
        device_index = d.index;
        idempotency_key = append plan.id (append ":" d.storage_map.source_disk_id);
      }))

  unfoldable pub attach_disks : TargetAdapter X → Plan → ℤ → List DiskWork → Eff X Unit
  unfolding for_each
  attach_disks tgt plan vmid disks = for_each disks (attach_disk tgt plan vmid)

  -- The target is isolated on vmbr1 before it starts.
  unfoldable pub isolated_boot : TargetAdapter X → ℤ → Eff X Unit
  isolated_boot tgt vmid = do tgt.set_network vmid "vmbr1" (pos 0) true; tgt.start_vm vmid
