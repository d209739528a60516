-- ===== src/Proxmox/Located.antt =====
-- What the searches and the checks of the maps find, in terms of the items of an inventory.
use mathlib.Core.List.{Memᴰ}
use mathlib.Core.Path.{subst}
use drishti_server_migration.Base.{
  ◌⊎◌, String, Bool, true, Option, none, some, List, [], ◌∷◌, any, all, All, find, length, ◌==◌,
  eq_iff, ◌≡◌, refl, arith, Bool-cases, inl, inr,
}
use drishti_server_migration.Domain.{
  Vm, Host, Cluster, Datacenter, InventoryRoot, TargetNode, StorageMap, NetworkMap,
}
use drishti_server_migration.Proxmox.Maps.{
  find_on_host, find_on_hosts, find_in_clusters, find_in_datacenters, find_source_vm, or_else,
  find_target_node, valid_storage_maps, valid_network_maps,
}

-- An item of the list with the property.
abbrev pub Some {ℓ κ} : {A : Type ℓ} → (A → Type κ) → List A → Type (ℓ ⊔ κ)
Some {A} P xs = (x : A) × (Memᴰ x xs × P x)

module _ {ℓ} {A : Type ℓ} where
  Some-tail {κ} : {P : A → Type κ} (x : A) (xs : List A) → Some P xs → Some P (x ∷ xs)
  Some-tail x xs (y, (there, p)) = (y, (Memᴰ.tail there, p))

  any-Some {κ} :
      {P : A → Type κ} (test : A → Bool) (xs : List A)
      → ((x : A) → test x ≡ true → P x)
      → any test xs ≡ true
      → Some P xs
  any-Some test [] good h = ground (arith, h)
  any-Some test (x ∷ xs) good h = elim (Bool-cases (test x)) [
    | inl here ↦ (x, (Memᴰ.head refl, good x here))
    | inr not_here ↦ Some-tail x xs (any-Some test xs good (ground (arith, h, not_here)))
  ]

  all-All {κ} :
      {P : A → Type κ} (test : A → Bool) (xs : List A)
      → ((x : A) → test x ≡ true → P x)
      → all test xs ≡ true
      → All P xs
  all-All test [] good h = tt
  all-All test (x ∷ xs) good h =
      (good x (ground (arith, h)), all-All test xs good (ground (arith, h)))

  find-Some {κ} :
      {P : A → Type κ} (test : A → Bool) (xs : List A) (found : A)
      → ((x : A) → test x ≡ true → P x)
      → find test xs ≡ some found
      → Memᴰ found xs × P found
  find-Some test [] found good h = ground (arith, h)
  find-Some {P} test (x ∷ xs) found good h = elim (Bool-cases (test x)) [
    | inl here ↦
        let same : x ≡ found = ground (arith, h, here) in
        subst (λ y. Memᴰ y (x ∷ xs) × P y) same (Memᴰ.head refl, good x here)
    | inr not_here ↦
        let (there, p) = find-Some test xs found good (ground (arith, h, not_here)) in
        (Memᴰ.tail there, p)
  ]

-- As many maps as disks, each to a storage of the node, and one for every disk.
abbrev pub IsStorageMapped : Vm → TargetNode → List StorageMap → Type 0
IsStorageMapped vm node maps =
    (length maps ≡ length vm.disks)
    × All (λ m. Some (λ s. s.id ≡ m.target_storage_id) node.storage) maps
    × All (λ d. Some (λ m. m.source_disk_id ≡ d.id) maps) vm.disks

-- As many maps as network cards, each to a bridge of the node, and one for every card.
abbrev pub IsNetworkMapped : Vm → TargetNode → List NetworkMap → Type 0
IsNetworkMapped vm node maps =
    (length maps ≡ length vm.nics)
    × All (λ m. Some (λ b. b.name ≡ m.target_bridge) node.bridges) maps
    × All (λ n. Some (λ m. m.source_nic_id ≡ n.id) maps) vm.nics

pub valid_storage_maps-IsStorageMapped :
    (vm : Vm) (node : TargetNode) (maps : List StorageMap)
    → valid_storage_maps vm node maps ≡ true
    → IsStorageMapped vm node maps
unfolding valid_storage_maps
valid_storage_maps-IsStorageMapped vm node maps h = (
  ground (arith, h),
  all-All _ maps (λ m. any-Some _ node.storage λ s. (eq_iff s.id m.target_storage_id).0)
      (ground (arith, h)),
  all-All _ vm.disks (λ d. any-Some _ maps λ m. (eq_iff m.source_disk_id d.id).0)
      (ground (arith, h)),
)

pub valid_network_maps-IsNetworkMapped :
    (vm : Vm) (node : TargetNode) (maps : List NetworkMap)
    → valid_network_maps vm node maps ≡ true
    → IsNetworkMapped vm node maps
unfolding valid_network_maps
valid_network_maps-IsNetworkMapped vm node maps h = (
  ground (arith, h),
  all-All _ maps (λ m. any-Some _ node.bridges λ b. (eq_iff b.name m.target_bridge).0)
      (ground (arith, h)),
  all-All _ vm.nics (λ n. any-Some _ maps λ m. (eq_iff m.source_nic_id n.id).0) (ground (arith, h)),
)

pub find_target_node-is_listed :
    (inv : InventoryRoot) (id : String) (node : TargetNode)
    → find_target_node inv id ≡ some node
    → Memᴰ node inv.nodes × (node.id ≡ id)
unfolding find_target_node
find_target_node-is_listed inv id node h = find-Some _ inv.nodes node (λ n. (eq_iff n.id id).0) h

-- The machine and the id of its host, where the host has the machine.
abbrev IsOn : String → Vm × String → Host → Type 0
IsOn id (vm, at) h = (vm.id ≡ id) × (h.id ≡ at) × Memᴰ vm h.vms

find_on_host-listed :
    (id host : String) (vms : List Vm) (found : Vm × String)
    → find_on_host id host vms ≡ some found
    → (found.0.id ≡ id) × (host ≡ found.1) × Memᴰ found.0 vms
unfolding find_on_host
find_on_host-listed id host [] found h = ground (arith, h)
find_on_host-listed id host (v ∷ vs) found h = elim (Bool-cases (v.id == id)) [
  | inl here ↦
      let same : (v, host) ≡ found = ground (arith, h, here) in
      subst (λ f. (f.0.id ≡ id) × (host ≡ f.1) × Memᴰ f.0 (v ∷ vs)) same
        ((eq_iff v.id id).0 here, refl, Memᴰ.head refl)
  | inr not_here ↦
      let (named, at, there) = find_on_host-listed id host vs found (ground (arith, h, not_here)) in
      (named, at, Memᴰ.tail there)
]

or_else-finds :
    (a b : Option (Vm × String)) (found : Vm × String)
    → or_else a b ≡ some found
    → (a ≡ some found) ⊎ (b ≡ some found)
or_else-finds (some x) b found h = inl h
or_else-finds none b found h = inr h

find_on_hosts-listed :
    (id : String) (hs : List Host) (found : Vm × String)
    → find_on_hosts id hs ≡ some found
    → Some (IsOn id found) hs
unfolding find_on_hosts
find_on_hosts-listed id [] found h = ground (arith, h)
find_on_hosts-listed id (x ∷ hs) found h =
    elim (or_else-finds (find_on_host id x.id x.vms) (find_on_hosts id hs) found h) [
      | inl here ↦ (x, (Memᴰ.head refl, find_on_host-listed id x.id x.vms found here))
      | inr later ↦ Some-tail x hs (find_on_hosts-listed id hs found later)
    ]

find_in_clusters-listed :
    (id : String) (cs : List Cluster) (found : Vm × String)
    → find_in_clusters id cs ≡ some found
    → Some (λ c. Some (IsOn id found) c.hosts) cs
unfolding find_in_clusters
find_in_clusters-listed id [] found h = ground (arith, h)
find_in_clusters-listed id (c ∷ cs) found h =
    elim (or_else-finds (find_on_hosts id c.hosts) (find_in_clusters id cs) found h) [
      | inl here ↦ (c, (Memᴰ.head refl, find_on_hosts-listed id c.hosts found here))
      | inr later ↦ Some-tail c cs (find_in_clusters-listed id cs found later)
    ]

find_in_datacenters-listed :
    (id : String) (ds : List Datacenter) (found : Vm × String)
    → find_in_datacenters id ds ≡ some found
    → Some (λ d. Some (λ c. Some (IsOn id found) c.hosts) d.clusters) ds
unfolding find_in_datacenters
find_in_datacenters-listed id [] found h = ground (arith, h)
find_in_datacenters-listed id (d ∷ ds) found h =
    elim (or_else-finds (find_in_clusters id d.clusters) (find_in_datacenters id ds) found h) [
      | inl here ↦ (d, (Memᴰ.head refl, find_in_clusters-listed id d.clusters found here))
      | inr later ↦ Some-tail d ds (find_in_datacenters-listed id ds found later)
    ]

-- The machine has the id, and stands on a host of the inventory, with the id of that host.
abbrev pub IsGuest : InventoryRoot → String → Vm → String → Type 0
IsGuest inv id vm host =
    Some (λ d. Some (λ c. Some (IsOn id (vm, host)) c.hosts) d.clusters) inv.datacenters

pub find_source_vm-IsGuest :
    (inv : InventoryRoot) (id : String) (vm : Vm) (host : String)
    → find_source_vm inv id ≡ some (vm, host)
    → IsGuest inv id vm host
unfolding find_source_vm
find_source_vm-IsGuest inv id vm host h = find_in_datacenters-listed id inv.datacenters (vm, host) h
