-- ===== src/Proxmox/Remote.antt =====
-- `RemotePreflight` of backend/internal/platform/proxmox/migration.go.
use drishti_server_migration.Base.{
  String, Bool, true, false, not, ◌&&◌, ◌||◌, Option, none, some, List, [], ◌∷◌, ◌++◌, map,
  is_empty, str, wrap, Message, plain, sprintf, joined, ok, err, Eff, pure, from_result, with_error,
  ◌>>=◌, ◌>>◌, ◌==◌, if◌then◌else◌,
}
use text.Mathlib.Text.{starts_with}
use drishti_server_migration.Domain.{
  Plan, Connection, PlatformKind, proxmox, Vm, is_on, is_off, power_text, TargetNode, InventoryRoot,
  StorageMap, NetworkMap, MigrationStrategy, PreflightCheck, pass, fail, warn, info, warning, error,
  is_fail,
}
use drishti_server_migration.Domain
use drishti_server_migration.Proxmox.{RemoteApi}
use drishti_server_migration.Proxmox.Maps.{
  normalized_strategy, is_live, is_cold, strategy_text, parse_qemu_vmid, find_source_vm,
  find_target_node, valid_storage_maps, valid_network_maps, uniform_target_storage,
  uniform_target_bridge,
}

-- `add` and `warn` of `RemotePreflight`
abbrev pub add_check : String → String → Bool → Message → PreflightCheck
add_check id message passed detail = record {
  id = id;
  code = id;
  severity = if passed then info else error;
  status = if passed then pass else fail;
  message = plain message;
  detail = detail;
}

abbrev pub warning_check : String → String → String → PreflightCheck
warning_check id message detail = record {
  id = id;
  code = id;
  severity = warning;
  status = warn;
  message = plain message;
  detail = plain detail;
}

abbrev pub is_proxmox : PlatformKind → Bool
is_proxmox proxmox = true
is_proxmox _ = false

abbrev pub is_source_role : Domain.Role → Bool
is_source_role Domain.source = true
is_source_role _ = false

abbrev pub is_target_role : Domain.Role → Bool
is_target_role Domain.target = true
is_target_role _ = false

abbrev pub is_lab_scope : Connection → Connection → Bool
is_lab_scope src tgt =
    is_proxmox src.kind
    && (is_proxmox tgt.kind && (is_source_role src.role && is_target_role tgt.role))

abbrev pub is_implemented : MigrationStrategy → Bool
is_implemented strategy = is_cold strategy || is_live strategy

abbrev pub is_blocked_key : String → Bool
is_blocked_key key =
    starts_with key "hostpci" || (starts_with key "usb" || (key == "ivshmem" || key == "args"))

abbrev pub blocked_keys : List String → List String
blocked_keys [] = []
blocked_keys (k ∷ ks) = let rest = blocked_keys ks in if is_blocked_key k then k ∷ rest else rest

abbrev current_state : Vm → Message
current_state vm = sprintf "Current state: %s" (str (power_text vm.power_state) ∷ [])

module _ {X : Type 0} (api : RemoteApi X) where
  abbrev pub normalize_compare : String → String
  normalize_compare endpoint = elim (api.normalize_endpoint endpoint) [
    | ok value ↦ value
    | err e ↦ endpoint
  ]

  abbrev pub scope_checks : Plan → Connection → Connection → List PreflightCheck
  scope_checks plan src tgt =
      let strategy = normalized_strategy plan.strategy in
      add_check "migration_strategy" "Migration strategy is implemented" (is_implemented strategy)
        (plain (strategy_text strategy))
      ∷ add_check "lab_mode_scope" "Both connections are Proxmox VE with source/target roles"
          (is_lab_scope src tgt) (plain "Remote migration supports Proxmox QEMU guests only.")
      ∷ add_check "separate_endpoints" "Source and target endpoints are different"
          (not (normalize_compare src.endpoint == normalize_compare tgt.endpoint))
          (plain "Source and destination must not be the same API endpoint.")
      ∷ []

  -- Whether the guest can move while it runs, with a text.
  unfoldable pub live_migration_compatible : Connection → String → String → Eff X (Bool × Message)
  unfolding parse_qemu_vmid
  live_migration_compatible src node vm_id = do
    vmid ← from_result (parse_qemu_vmid api.atoi vm_id)
    from_result (api.open_client src)
    keys ← api.config_keys src node vmid
    let blocked = blocked_keys keys
    pure (
        if is_empty blocked
        then (true, plain "No PCI/USB passthrough or custom QEMU arguments detected.")
        else (
          false,
          joined "Unsupported devices/options: " ", " "%s"
              (map (λ k. str k ∷ []) (api.sort_strings blocked)),
        ))

  abbrev pub live_checks : Vm → Bool × Message → List PreflightCheck
  live_checks vm (compatible, detail) =
      add_check "source_powered_on" "Source VM is running for live migration" (is_on vm.power_state)
        (current_state vm)
      ∷ add_check "live_migratable_devices" "VM has no unsupported passthrough devices" compatible
          detail
      ∷ warning_check "live_source_retention"
          "Live migration retains a stopped source definition for rollback"
          "The destination becomes active after migration. Never start the retained source on the same production network."
      ∷ []

  abbrev pub cold_checks : Vm → List PreflightCheck
  cold_checks vm =
      add_check "source_powered_off" "Source VM is powered off" (is_off vm.power_state)
        (current_state vm)
      ∷ []

  -- The checks of the machine's state, for a live strategy or a cold one.
  unfoldable pub power_checks : Bool → Plan → Connection → Vm → String → Eff X (List PreflightCheck)
  unfolding live_migration_compatible
  power_checks true plan src vm node =
      with_error (wrap "live migration compatibility: %w" [])
        (live_migration_compatible src node plan.source_vm_id)
      >>= λ found. pure (live_checks vm found)
  power_checks false plan src vm node = pure (cold_checks vm)

  abbrev pub target_checks : Plan → Vm → Option TargetNode → List PreflightCheck
  target_checks plan vm none =
      add_check "target_node_online" "Target node exists and is online" false
        (plain plan.target_node_id)
      ∷ []
  target_checks plan vm (some node) =
      add_check "target_node_online" "Target node exists and is online" node.online
        (plain plan.target_node_id)
      ∷ add_check "storage_mapped" "Every source disk has a valid target storage mapping"
          (valid_storage_maps vm node plan.storage_maps)
          (plain "Mappings must reference image-capable storage visible on the target node.")
      ∷ add_check "network_mapped" "Every source NIC has a valid target bridge mapping"
          (valid_network_maps vm node plan.network_maps)
          (plain "Mappings must reference bridges visible on the target node.")
      ∷ add_check "uniform_target_storage"
          "Storage mapping is compatible with Proxmox remote migration"
          (uniform_target_storage api.sort_strings plan.storage_maps)
          (plain "This lab implementation requires all disks to use one target storage.")
      ∷ add_check "uniform_target_bridge"
          "Network mapping is compatible with Proxmox remote migration"
          (uniform_target_bridge api.sort_strings plan.network_maps)
          (plain "This lab implementation requires all NICs to use one target bridge.")
      ∷ []

  abbrev exists_check : Plan → Bool → PreflightCheck
  exists_check plan found =
      add_check "source_vm_exists" "Source QEMU VM exists" found (plain plan.source_vm_id)

  -- What follows the search of the machine.
  unfoldable pub guest_checks :
      Plan → Connection → InventoryRoot → Option (Vm × String) → Eff X (List PreflightCheck)
  unfolding power_checks
  guest_checks plan src targets none = pure (exists_check plan false ∷ [])
  guest_checks plan src targets (some (vm, node)) = do
    powers ← power_checks (is_live (normalized_strategy plan.strategy)) plan src vm node
    pure (
        exists_check plan true
        ∷ (powers ++ target_checks plan vm (find_target_node targets plan.target_node_id)))

  unfoldable pub remote_preflight : Plan → Connection → Connection → Eff X (List PreflightCheck)
  unfolding guest_checks
  remote_preflight plan src tgt = do
    sources ← with_error (wrap "source inventory: %w" []) (api.inventory src)
    targets ← with_error (wrap "target inventory: %w" []) (api.inventory tgt)
    rest ← guest_checks plan src targets (find_source_vm sources plan.source_vm_id)
    pure (scope_checks plan src tgt ++ rest)
