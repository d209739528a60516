-- ===== src/Mock/Platforms.antt =====
-- The adapters of backend/internal/platform/mockplatform/adapters.go, as instances of the interfaces. An
-- adapter holds a pointer into its factory, so its actions run on the entry of its connection.
use drishti_server_migration.Base.{
  ℤ, pos, String, append, Bool, false, not, ◌&&◌, ◌||◌, Option, none, some, List, [], ◌∷◌, ◌++◌,
  find, str, int, Error, errorf, wrap, Result, ok, err, Eff, pure, throw, gets, modify, from_result,
  with_error, on_part, leb_ℤ, ◌+◌, sub_ℕ, pos_part, neg_part, ◌>>=◌, ◌>>◌, ◌==◌, if◌then◌else◌,
}
use drishti_server_migration.Base.Dict.{Dict, lookup, insert}
use drishti_server_migration.Domain.{
  Connection, PowerState, off, Disk, Vm, Host, Cluster, Datacenter, InventoryRoot, Time,
}
use drishti_server_migration.Platform.{PowerOffApproval, ExportResult}
use drishti_server_migration.Mock.{MockSource, MockVm, MockTarget, MockWorld, MockOutside}

abbrev pub vm_missing : String → Error
vm_missing id = errorf "vm %q not found" (str id ∷ [])

abbrev pub target_missing : ℤ → Error
target_missing id = errorf "target vm %d not found" (int id ∷ [])

-- The machines of an inventory, in the order of the nested loops.
unfoldable pub host_vms : List Host → List Vm
host_vms [] = []
host_vms (h ∷ hs) = h.vms ++ host_vms hs

unfoldable pub cluster_vms : List Cluster → List Vm
unfolding host_vms
cluster_vms [] = []
cluster_vms (c ∷ cs) = host_vms c.hosts ++ cluster_vms cs

unfoldable pub all_vms : List Datacenter → List Vm
unfolding cluster_vms
all_vms [] = []
all_vms (d ∷ ds) = cluster_vms d.clusters ++ all_vms ds

-- The maps that `NewMockSource` fills.
unfoldable pub powers_of : List Vm → Dict PowerState → Dict PowerState
powers_of [] power = power
powers_of (vm ∷ vms) power = powers_of vms (insert vm.id vm.power_state power)

unfoldable pub disks_of : List Vm → Dict (List Disk) → Dict (List Disk)
disks_of [] disks = disks
disks_of (vm ∷ vms) disks = disks_of vms (insert vm.id vm.disks disks)

abbrev pub same_ℤ : ℤ → ℤ → Bool
same_ℤ a b = leb_ℤ a b && leb_ℤ b a

-- A map with integer keys.
unfoldable pub vm_at : ℤ → List (ℤ × MockVm) → Option MockVm
vm_at id [] = none
vm_at id ((k, vm) ∷ vms) = let rest = vm_at id vms in if same_ℤ k id then some vm else rest

unfoldable pub put_vm : ℤ → MockVm → List (ℤ × MockVm) → List (ℤ × MockVm)
put_vm id new [] = (id, new) ∷ []
put_vm id new ((k, vm) ∷ vms) =
    let rest = put_vm id new vms in if same_ℤ k id then (k, new) ∷ vms else (k, vm) ∷ rest

-- The loop of `CreateVM`, which looks for an entry with this name and this id; a map has one entry for
-- an id.
unfoldable pub existing : String → ℤ → List (ℤ × MockVm) → Bool
unfolding vm_at
existing name id vms = elim (vm_at id vms) [ none ↦ false | some vm ↦ vm.name == name ]

-- `a + 1` where it does not overflow
abbrev pub next_ℤ : ℤ → ℤ
next_ℤ a = sub_ℕ (1 + pos_part a) (neg_part a)

abbrev pub found_or : {A : Type 0} → Error → Option A → Result A
found_or e none = err e
found_or e (some a) = ok a

module _ {X : Type 0} (o : MockOutside X) where
  abbrev vms_in : Option InventoryRoot → List Vm
  vms_in none = []
  vms_in (some root) = all_vms root.datacenters

  unfoldable pub inv : String → Result InventoryRoot
  inv id = found_or (errorf "inventory not found for connection %q" (str id ∷ [])) (o.inventory id)

  unfoldable pub new_mock_source : Connection → MockSource
  unfolding all_vms powers_of disks_of
  new_mock_source conn =
      let vms = vms_in (o.inventory conn.id) in
      record { conn = conn; power = powers_of vms []; disks = disks_of vms [] }

  abbrev pub new_mock_target : Connection → MockTarget
  new_mock_target conn = record { conn = conn; vms = []; next_id = pos 100 }

  abbrev or_new_source : Connection → Option MockSource → MockSource
  or_new_source conn none = new_mock_source conn
  or_new_source conn (some s) = s

  abbrev or_new_target : Connection → Option MockTarget → MockTarget
  or_new_target conn none = new_mock_target conn
  or_new_target conn (some t) = t

  -- The adapter that the factory has for a connection, made on first use.
  abbrev pub source_of : Connection → MockWorld X → MockSource
  source_of conn w = or_new_source conn (lookup conn.id w.sources)

  abbrev pub target_of : Connection → MockWorld X → MockTarget
  target_of conn w = or_new_target conn (lookup conn.id w.targets)

  unfoldable pub on_source : {A : Type 0} → Connection → Eff MockSource A → Eff (MockWorld X) A
  unfolding on_part
  on_source conn m =
      on_part (source_of conn) (λ s w. record w { sources = insert conn.id s w.sources }) m

  unfoldable pub on_target : {A : Type 0} → Connection → Eff MockTarget A → Eff (MockWorld X) A
  unfolding on_part
  on_target conn m =
      on_part (target_of conn) (λ t w. record w { targets = insert conn.id t w.targets }) m

  -- The outside state.
  unfoldable pub outside_mock : {A : Type 0} → Eff X A → Eff (MockWorld X) A
  unfolding on_part
  outside_mock m = on_part (λ w. w.ext) (λ x w. record w { ext = x }) m

  unfoldable pub clock : Eff (MockWorld X) Time
  clock w = let (t, x) = o.now w.ext in (ok t, record w { ext = x })

  unfoldable pub source_vm : Connection → String → Result Vm
  unfolding inv all_vms
  source_vm conn id = elim (inv conn.id) [
    | err e ↦ err e
    | ok root ↦ found_or (vm_missing id) (find (λ vm. vm.id == id) (all_vms root.datacenters))
  ]

  abbrev disk_missing : String → String → Error
  disk_missing disk vm = errorf "disk %q not found on vm %q" (str disk ∷ str vm ∷ [])

  abbrev payload_of : String → Disk → String
  payload_of vm disk =
      append "mock-export-"
        (append vm (append "-" (append disk.id (append "-" (o.int_text disk.capacity_bytes)))))

  unfoldable pub write_export :
      Connection → String → String → String → Eff (MockWorld X) ExportResult
  unfolding on_source outside_mock clock
  write_export conn vm_id disk_id dest = do
    start ← clock
    known ← on_source conn (gets (λ s. lookup vm_id s.disks))
    disks ← from_result (found_or (errorf "vm %q not found for export" (str vm_id ∷ [])) known)
    disk ← from_result (found_or (disk_missing disk_id vm_id) (find (λ d. d.id == disk_id) disks))
    with_error (wrap "create export dir: %w" []) (outside_mock (o.mkdir_all (o.dir_of dest)))
    let payload = payload_of vm_id disk
    with_error (wrap "write export: %w" []) (outside_mock (o.write_file dest payload))
    stop ← clock
    pure (record {
      path = dest;
      size_bytes = o.byte_length payload;
      format = disk.format;
      sha256 = o.sha256_hex payload;
      duration = o.since_text start stop;
    })

abbrev pub approval_required : Error
approval_required = errorf "explicit source power-off approval for this plan and VM is required" []

-- The stop of a machine whose state is known.
unfoldable pub power_off_known : String → PowerOffApproval → PowerState → Eff MockSource (Unit {0})
power_off_known vm_id approval off = pure tt
power_off_known vm_id approval power =
    if not approval.approved || (approval.plan_id == "" || not (approval.vmid == vm_id))
    then throw approval_required
    else modify (λ s. record s { power = insert vm_id PowerState.off s.power })

unfoldable pub power_off : String → PowerOffApproval → Eff MockSource (Unit {0})
unfolding power_off_known
power_off vm_id approval = do
  known ← gets (λ s. lookup vm_id s.power)
  power ← from_result (found_or (vm_missing vm_id) known)
  power_off_known vm_id approval power

unfoldable pub power_state : String → Eff MockSource PowerState
power_state vm_id = do
  known ← gets (λ s. lookup vm_id s.power)
  from_result (found_or (vm_missing vm_id) known)
