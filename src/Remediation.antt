-- ===== src/Remediation.antt =====
-- Guest facts and the network restore plan of backend/internal/remediation/remediation.go.
mod Examples
use drishti_server_migration.Base.{
  String, ℤ, pos, Bool, true, false, not, List, [], ◌∷◌, map, is_empty, if◌then◌else◌, ◌≡◌, ◌↔◌,
  arith,
}
use drishti_server_migration.Domain.{Vm, Nic, GuestFamily, linux, windows, other}

pub record NetInterface : Type 0 where
  pub name : String
  pub mac : String
  pub ip_address : String
  pub netmask : String
  pub gateway : String
  pub dhcp : Bool
  pub network_id : String
  pub vlan_id : ℤ

pub record GuestFacts : Type 0 where
  pub vmid : String
  pub hostname : String
  pub interfaces : List NetInterface
  pub dns : List String
  pub gateways : List String
  pub routes : List String
  pub services : List String
  pub virtio_ready : Bool
  pub qemu_agent : Bool

abbrev pub is_linux : GuestFamily → Bool
is_linux linux = true
is_linux _ = false

abbrev pub family_services : GuestFamily → List String
family_services windows = "Requires VirtIO driver injection (Phase 7)" ∷ []
family_services _ = []

-- The fields that the source leaves out are Go's zero values.
abbrev pub interface_of : Nic → NetInterface
interface_of nic = record {
  name = nic.label;
  mac = nic.mac_address;
  ip_address = "";
  netmask = "";
  gateway = "";
  dhcp = false;
  network_id = nic.network_id;
  vlan_id = pos 0;
}

unfoldable pub collect_facts : Vm → GuestFacts
collect_facts vm = record {
  vmid = vm.id;
  hostname = vm.name;
  interfaces = map interface_of vm.nics;
  dns = [];
  gateways = [];
  routes = [];
  services = family_services vm.guest_family;
  virtio_ready = is_linux vm.guest_family;
  qemu_agent = is_linux vm.guest_family;
}

pub record RestoreNetworkPlan : Type 0 where
  pub safe : Bool
  pub steps : List String
  pub warning : String

abbrev refuse : String → RestoreNetworkPlan
refuse warning = record { safe = false; steps = []; warning = warning }

unfoldable pub plan_restore : GuestFacts → Bool → Bool → RestoreNetworkPlan
plan_restore facts source_off validation_passed =
    if not source_off
    then refuse
        "Source VM is not confirmed powered off. Refusing to restore production network to avoid duplicate identity."
    else if not validation_passed
    then refuse "Target validation has not passed. Network restore blocked."
    else if not facts.virtio_ready
    then refuse "VirtIO drivers not ready. Manual remediation required before cutover."
    else record {
      safe = true;
      steps =
          "Source confirmed powered off." ∷ "Target validation passed."
          ∷ "Attaching target to approved production network."
          ∷ "Restoring static IP configuration from encrypted guest facts."
          ∷ "Verifying gateway, DNS, and required TCP ports." ∷ [];
      warning = "";
    }

-- A network restore is safe exactly when the source is confirmed off, the validation passed and the
-- drivers of the guest are ready, and exactly then has steps.
pub safe-plan_restore_iff :
    (facts : GuestFacts) (source_off validation_passed : Bool)
    → let restore = plan_restore facts source_off validation_passed in
      ((restore.safe ≡ true)
        ↔ ((source_off ≡ true) × (validation_passed ≡ true) × (facts.virtio_ready ≡ true)))
      × (restore.safe ≡ not (is_empty restore.steps))
unfolding plan_restore
safe-plan_restore_iff facts source_off validation_passed = ground arith
