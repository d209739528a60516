-- ===== src/Proxmox/Maps.antt =====
-- The searches and checks of backend/internal/platform/proxmox/migration.go that call nothing.
use drishti_server_migration.Base.{
  ℤ, pos, String, Bool, true, false, ◌&&◌, Option, none, some, List, [], ◌∷◌, map, any, all, find,
  length, Error, errorf, str, Result, ok, err, ltb_ℤ, ◌==◌, if◌then◌else◌, leb,
}
use Prim.Native.String.{len, slice}
use text.Mathlib.Text.{starts_with}
use drishti_server_migration.Domain.{
  Vm, Host, Cluster, Datacenter, InventoryRoot, TargetNode, StorageMap, NetworkMap,
  MigrationStrategy, cold, pve_live, warm, other_strategy,
}

abbrev pub normalized_strategy : MigrationStrategy → MigrationStrategy
normalized_strategy (other_strategy s) = if s == "" then cold else other_strategy s
normalized_strategy strategy = strategy

abbrev pub is_live : MigrationStrategy → Bool
is_live pve_live = true
is_live _ = false

abbrev pub is_cold : MigrationStrategy → Bool
is_cold cold = true
is_cold _ = false

abbrev pub strategy_text : MigrationStrategy → String
strategy_text cold = "cold"
strategy_text pve_live = "pve-live"
strategy_text warm = "warm"
strategy_text (other_strategy s) = s

-- `strings.TrimPrefix`
abbrev trim_prefix : String → String → String
trim_prefix s prefix = if starts_with s prefix then slice s (len prefix) (len s) else s

abbrev bad_vmid : String → Error
bad_vmid id = errorf "invalid QEMU VM ID %q" (str id ∷ [])

abbrev checked_vmid : String → Option ℤ → Result ℤ
checked_vmid id none = err (bad_vmid id)
checked_vmid id (some n) = if ltb_ℤ n (pos 100) then err (bad_vmid id) else ok n

unfoldable pub parse_qemu_vmid : (String → Option ℤ) → String → Result ℤ
parse_qemu_vmid atoi id = checked_vmid id (atoi (trim_prefix id "qemu-"))

-- The loops of `findSourceVM`, from the inside out. A machine is found with the id of its host.
unfoldable pub find_on_host : String → String → List Vm → Option (Vm × String)
find_on_host id host [] = none
find_on_host id host (vm ∷ vms) =
    let rest = find_on_host id host vms in if vm.id == id then some (vm, host) else rest

abbrev pub or_else : Option (Vm × String) → Option (Vm × String) → Option (Vm × String)
or_else (some found) rest = some found
or_else none rest = rest

unfoldable pub find_on_hosts : String → List Host → Option (Vm × String)
unfolding find_on_host
find_on_hosts id [] = none
find_on_hosts id (h ∷ hs) = or_else (find_on_host id h.id h.vms) (find_on_hosts id hs)

unfoldable pub find_in_clusters : String → List Cluster → Option (Vm × String)
unfolding find_on_hosts
find_in_clusters id [] = none
find_in_clusters id (c ∷ cs) = or_else (find_on_hosts id c.hosts) (find_in_clusters id cs)

unfoldable pub find_in_datacenters : String → List Datacenter → Option (Vm × String)
unfolding find_in_clusters
find_in_datacenters id [] = none
find_in_datacenters id (d ∷ ds) =
    or_else (find_in_clusters id d.clusters) (find_in_datacenters id ds)

unfoldable pub find_source_vm : InventoryRoot → String → Option (Vm × String)
unfolding find_in_datacenters
find_source_vm inv id = find_in_datacenters id inv.datacenters

unfoldable pub find_target_node : InventoryRoot → String → Option TargetNode
find_target_node inv id = find (λ n. n.id == id) inv.nodes

abbrev same_length {ℓ κ} : {A : Type ℓ} {B : Type κ} → List A → List B → Bool
same_length xs ys = leb (length xs) (length ys) && leb (length ys) (length xs)

-- `valid` and `seen` are the sets that the source fills first.
unfoldable pub valid_storage_maps : Vm → TargetNode → List StorageMap → Bool
valid_storage_maps vm node maps =
    same_length maps vm.disks
    && (all (λ m. any (λ s. s.id == m.target_storage_id) node.storage) maps
        && all (λ d. any (λ m. m.source_disk_id == d.id) maps) vm.disks)

unfoldable pub valid_network_maps : Vm → TargetNode → List NetworkMap → Bool
valid_network_maps vm node maps =
    same_length maps vm.nics
    && (all (λ m. any (λ b. b.name == m.target_bridge) node.bridges) maps
        && all (λ n. any (λ m. m.source_nic_id == n.id) maps) vm.nics)

-- The last of a list that starts with `first`.
abbrev pub last_of : String → List String → String
last_of first [] = first
last_of first (x ∷ xs) = last_of x xs

-- `values[0] == values[len(values)-1]`
abbrev pub ends_agree : List String → Bool
ends_agree [] = true
ends_agree (x ∷ xs) = x == last_of x xs

module _ (sort_strings : List String → List String) where
  unfoldable pub uniform_target_storage : List StorageMap → Bool
  uniform_target_storage [] = false
  uniform_target_storage (m ∷ ms) =
      ends_agree (sort_strings (map (λ m. m.target_storage_id) (m ∷ ms)))

  unfoldable pub uniform_target_bridge : List NetworkMap → Bool
  uniform_target_bridge [] = true
  uniform_target_bridge (m ∷ ms) = ends_agree (sort_strings (map (λ m. m.target_bridge) (m ∷ ms)))
