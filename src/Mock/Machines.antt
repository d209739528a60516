-- ===== src/Mock/Machines.antt =====
-- The mock target keeps a registry of machines: what each operation does to it, by the id alone.
use drishti_server_migration.Base.{
  ℤ, String, Bool, true, false, Option, none, some, List, [], ◌∷◌, Result, ok, err, Eff, pure, ◌>>◌,
  ◌==◌, if◌then◌else◌, ◌≡◌, arith,
}
use drishti_server_migration.Domain.{PowerState, on, off, Time}
use drishti_server_migration.Platform.{CreateVmSpec, AttachDiskSpec}
use drishti_server_migration.Mock.{MockVm, MockTarget}
use drishti_server_migration.Mock.Platforms.{vm_at, put_vm, same_ℤ, target_missing}
use drishti_server_migration.Mock.Targets.{
  create_vm, attach_vm_disk, start_vm, stop_vm, set_network,
}

same_ℤ-transports : (a b c : ℤ) → same_ℤ a b ≡ true → same_ℤ a c ≡ same_ℤ b c
same_ℤ-transports a b c h = ground (arith, h)

pub vm_at-put_vm :
    (id j : ℤ) (new : MockVm) (vms : List (ℤ × MockVm))
    → vm_at j (put_vm id new vms) ≡ (if same_ℤ id j then some new else vm_at j vms)
unfolding vm_at put_vm
vm_at-put_vm id j new [] = ground arith
vm_at-put_vm id j new ((k, vm) ∷ vms) =
    ground (arith, vm_at-put_vm id j new vms, same_ℤ-transports k id j)

-- What the registry tells of a machine.
pub record Guest : Type 0 where
  pub name : String
  pub state : PowerState
  pub bridge : String
  pub isolated : Bool

abbrev pub Registry : Type 0
Registry = ℤ → Option Guest

abbrev pub guest_of : MockVm → Guest
guest_of vm = record {
  name = vm.name;
  state = vm.state;
  bridge = vm.bridge;
  isolated = vm.isolated;
}

abbrev pub guest_in : Option MockVm → Option Guest
guest_in none = none
guest_in (some vm) = some (guest_of vm)

abbrev pub view : MockTarget → Registry
view t id = guest_in (vm_at id t.vms)

abbrev pub set_guest : ℤ → Guest → Registry → Registry
set_guest id guest registry j = if same_ℤ id j then some guest else registry j

-- The operations of the target that change its machines.
pub data MachineOp : Type 0 where
  created : CreateVmSpec → Time → MachineOp
  attached : ℤ → AttachDiskSpec → MachineOp
  started stopped : ℤ → MachineOp
  networked : ℤ → String → ℤ → Bool → MachineOp

unfoldable pub run_op : MachineOp → Eff MockTarget (Unit {0})
unfolding create_vm attach_vm_disk start_vm stop_vm set_network
run_op (created spec now) = create_vm spec now >> pure tt
run_op (attached id disk) = attach_vm_disk id disk
run_op (started id) = start_vm id
run_op (stopped id) = stop_vm id
run_op (networked id bridge vlan isolated) = set_network id bridge vlan isolated

-- The specification: a change of the guest with an id, if there is one.
abbrev pub changed_guest :
    ℤ → (Guest → Guest) → Option Guest → Registry → Result (Unit {0}) × Registry
changed_guest id f none registry = (err (target_missing id), registry)
changed_guest id f (some guest) registry = (ok tt, set_guest id (f guest) registry)

abbrev pub is_named : String → Option Guest → Bool
is_named name none = false
is_named name (some guest) = guest.name == name

abbrev pub fresh_guest : CreateVmSpec → Guest
fresh_guest spec = record {
  name = spec.name;
  state = off;
  bridge = spec.isolated_bridge;
  isolated = true;
}

abbrev pub spec_op : MachineOp → Registry → Result (Unit {0}) × Registry
spec_op (created spec now) registry = (
  ok tt,
  if is_named spec.name (registry spec.vmid)
      then registry
      else set_guest spec.vmid (fresh_guest spec) registry,
)
spec_op (attached id disk) registry = changed_guest id (λ g. g) (registry id) registry
spec_op (started id) registry =
    changed_guest id (λ g. record g { state = on }) (registry id) registry
spec_op (stopped id) registry =
    changed_guest id (λ g. record g { state = off }) (registry id) registry
spec_op (networked id bridge vlan isolated) registry =
    changed_guest id (λ g. record g { bridge = bridge; isolated = isolated }) (registry id) registry

-- The answers of any number of operations, and the state they lead to.
unfoldable pub run_ops : List MachineOp → MockTarget → List (Result (Unit {0})) × MockTarget
unfolding run_op
run_ops [] t = ([], t)
run_ops (op ∷ ops) t = let (r, t') = run_op op t in let (rs, t'') = run_ops ops t' in (r ∷ rs, t'')

abbrev pub spec_ops : List MachineOp → Registry → List (Result (Unit {0})) × Registry
spec_ops [] registry = ([], registry)
spec_ops (op ∷ ops) registry =
    let (r, after) = spec_op op registry in let (rs, last) = spec_ops ops after in (r ∷ rs, last)
