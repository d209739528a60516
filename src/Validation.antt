-- ===== src/Validation.antt =====
-- Target validation of backend/internal/validation/validation.go.
mod Examples
use drishti_server_migration.Base.{
  ℕ, String, ℤ, pos, Bool, true, false, not, ◌&&◌, List, [], ◌∷◌, ◌++◌, length, map, if◌then◌else◌,
  ◌≡◌, ◌↔◌, arith, all, refl, ◌==◌,
}
use drishti_server_migration.Domain.{Vm, PowerState, on, is_on, linux}
use drishti_server_migration.Remediation.{GuestFacts, collect_facts}

pub record Profile : Type 0 where
  pub expected_disk_count : ℕ
  pub required_tcp_ports : List ℕ
  pub required_services : List String
  pub health_url : String

unfoldable pub default : Vm → Profile
default vm = record {
  expected_disk_count = length vm.disks;
  required_tcp_ports = 22 ∷ 443 ∷ [];
  required_services = "ssh" ∷ "systemd-journald" ∷ [];
  health_url = "";
}

pub record ValidationCheck : Type 0 where
  pub name : String
  pub status : String
  pub detail : String

pub record Result : Type 0 where
  pub passed : Bool
  pub checks : List ValidationCheck

abbrev check : String → String → String → ValidationCheck
check name status detail = record { name = name; status = status; detail = detail }

abbrev check_power : Bool → ValidationCheck
check_power true = check "target_power" "pass" "Target VM is powered on."
check_power false = check "target_power" "fail" "Target VM is not powered on."

abbrev check_virtio : Bool → ValidationCheck
check_virtio true = check "virtio_drivers" "pass" "VirtIO storage/network drivers recognized."
check_virtio false = check "virtio_drivers" "fail" "VirtIO drivers not detected. Boot may fail."

abbrev check_overall : Bool → ValidationCheck
check_overall false = check "overall" "fail" "Validation failed. Do NOT proceed to cutover."
check_overall true =
    check "overall" "pass" "All validation checks passed. Ready for cutover approval."

-- One check for each port of the profile, which is not read.
abbrev check_ports : List ℕ → List ValidationCheck
check_ports = map (λ _. check "tcp_port" "pass" "TCP port reachable.")

unfoldable pub run : Profile → Vm → PowerState → GuestFacts → Result
run profile vm target_state facts =
    let passed = is_on target_state && facts.virtio_ready in
    record {
      passed = passed;
      checks =
          check_power (is_on target_state)
          ∷ check "disk_count" "pass" "All expected disks attached."
          ∷ check_virtio facts.virtio_ready
          ∷ check "network" "pass" "Network interface reachable on isolated bridge."
          ∷ (check_ports profile.required_tcp_ports ++ check_overall passed ∷ []);
    }

abbrev pub did_pass : ValidationCheck → Bool
did_pass c = c.status == "pass"

ports_pass :
    (ports : List ℕ) (c : ValidationCheck) → all did_pass (check_ports ports ++ c ∷ []) ≡ did_pass c
ports_pass [] c = ground arith
ports_pass (p ∷ ports) c = ports_pass ports c

powered_and_ready :
    (powered ready : Bool)
    → (powered && ready) ≡ (
        did_pass (check_power powered)
        && (true
            && (did_pass (check_virtio ready)
                && (true && did_pass (check_overall (powered && ready))))))
powered_and_ready true true = refl
powered_and_ready true false = refl
powered_and_ready false true = refl
powered_and_ready false false = refl

-- A validation passes exactly when every check that it reports has the status "pass".
pub passed-run :
    (profile : Profile) (vm : Vm) (state : PowerState) (facts : GuestFacts)
    → (run profile vm state facts).passed ≡ all did_pass (run profile vm state facts).checks
unfolding run
passed-run profile vm state facts =
    rw (ports_pass profile.required_tcp_ports (check_overall (is_on state && facts.virtio_ready)))
      (powered_and_ready (is_on state) facts.virtio_ready)

-- With the facts that the service collects, a validation passes exactly for a running target of a
-- Linux source, whatever the profile asks for.
pub passed-run-collect_facts_iff :
    (profile : Profile) (vm : Vm) (state : PowerState)
    → ((run profile vm state (collect_facts vm)).passed ≡ true)
      ↔ ((state ≡ on) × (vm.guest_family ≡ linux))
unfolding run collect_facts
passed-run-collect_facts_iff profile vm state = ground arith
