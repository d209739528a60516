-- ===== src/Mock/Boots.antt =====
-- The isolated boot of a machine on the mock target, by the calls that the job engine makes.
use drishti_server_migration.Base.{
  ℤ, String, true, Option, none, some, List, [], ◌∷◌, all, is_ok, Result, eq_iff, ◌≡◌, ◌∙◌, ap,
  refl, arith, inl, inr, Bool-cases,
}
use drishti_server_migration.Domain.{on, Time}
use drishti_server_migration.Platform.{CreateVmSpec, AttachDiskSpec}
use drishti_server_migration.Mock.{MockTarget}
use drishti_server_migration.Mock.Platforms.{same_ℤ}
use drishti_server_migration.Mock.Machines.{
  Guest, Registry, view, set_guest, MachineOp, created, attached, started, networked, changed_guest,
  is_named, fresh_guest, spec_op, run_ops, spec_ops,
}
use drishti_server_migration.Mock.Refinement.{run_ops-refines}

-- `CreateVM`, then `AttachDisk` for each disk, then `SetNetwork` and `StartVM`.
abbrev pub attach_then : ℤ → List AttachDiskSpec → List MachineOp → List MachineOp
attach_then id [] rest = rest
attach_then id (d ∷ ds) rest = attached id d ∷ attach_then id ds rest

abbrev pub boot : CreateVmSpec → Time → List AttachDiskSpec → String → ℤ → List MachineOp
boot spec now disks bridge vlan =
    created spec now
    ∷ attach_then spec.vmid disks (networked spec.vmid bridge vlan true ∷ started spec.vmid ∷ [])

-- Every operation was answered without an error, and the registry has the guest.
abbrev pub IsAnswered : ℤ → Guest → List (Result (Unit {0})) × Registry → Type 0
IsAnswered id guest (answers, registry) = (all is_ok answers ≡ true) × (registry id ≡ some guest)

same_ℤ-refl : (id : ℤ) → same_ℤ id id ≡ true
same_ℤ-refl id = ground arith

set_guest_self :
    (id : ℤ) (guest : Guest) (registry : Registry) → set_guest id guest registry id ≡ some guest
set_guest_self id guest registry = rw (same_ℤ-refl id) refl

changed-IsAnswered :
    (id : ℤ) (f : Guest → Guest) (ops : List MachineOp) (old last : Guest) (registry : Registry)
    → registry id ≡ some old
    → ((after : Registry) → after id ≡ some (f old) → IsAnswered id last (spec_ops ops after))
    → let (r, after) = changed_guest id f (registry id) registry in
      let (rs, end) = spec_ops ops after in IsAnswered id last (r ∷ rs, end)
changed-IsAnswered id f ops old last registry there go =
    rw there (go (set_guest id (f old) registry) (set_guest_self id (f old) registry))

abbrev booted : Guest → String → Guest
booted guest bridge = record guest { state = on; bridge = bridge; isolated = true }

finish-IsAnswered :
    (id vlan : ℤ) (bridge : String) (guest : Guest) (registry : Registry)
    → registry id ≡ some guest
    → IsAnswered id
        (booted guest bridge)
        (spec_ops (networked id bridge vlan true ∷ started id ∷ []) registry)
finish-IsAnswered id vlan bridge guest registry there =
    changed-IsAnswered id (λ g. record g { bridge = bridge; isolated = true }) (started id ∷ [])
      guest (booted guest bridge) registry there
      λ after networked_there.
        changed-IsAnswered id (λ g. record g { state = on }) [] _ (booted guest bridge) after
          networked_there λ end h. (refl, h)

attached-IsAnswered :
    (id vlan : ℤ) (bridge : String) (disks : List AttachDiskSpec) (guest : Guest)
    (registry : Registry)
    → registry id ≡ some guest
    → IsAnswered id
        (booted guest bridge)
        (spec_ops (attach_then id disks (networked id bridge vlan true ∷ started id ∷ [])) registry)
attached-IsAnswered id vlan bridge [] guest registry there =
    finish-IsAnswered id vlan bridge guest registry there
attached-IsAnswered id vlan bridge (d ∷ ds) guest registry there =
    changed-IsAnswered id (λ g. g)
      (attach_then id ds (networked id bridge vlan true ∷ started id ∷ [])) guest
      (booted guest bridge) registry there
      λ after h. attached-IsAnswered id vlan bridge ds guest after h

-- A machine of the name, which was there or has been made.
HasNamed : (spec : CreateVmSpec) (registry : Registry) → Type 0
HasNamed spec registry =
    (guest : Guest) × ((registry spec.vmid ≡ some guest) × (guest.name ≡ spec.name))

named_there :
    (name : String) (o : Option Guest)
    → is_named name o ≡ true
    → (guest : Guest) × ((o ≡ some guest) × (guest.name ≡ name))
named_there name none h = ground (arith, h)
named_there name (some guest) h = (guest, (refl, ground (arith, h, eq_iff guest.name name)))

created-HasNamed :
    (spec : CreateVmSpec) (now : Time) (registry : Registry)
    → HasNamed spec (spec_op (created spec now) registry).1
unfolding HasNamed
created-HasNamed spec now registry = elim (Bool-cases (is_named spec.name (registry spec.vmid))) [
  | inl named ↦ rw named (named_there spec.name (registry spec.vmid) named)
  | inr unnamed ↦
      rw unnamed (fresh_guest spec, (set_guest_self spec.vmid (fresh_guest spec) registry, refl))
]

spec_ops-boot :
    (spec : CreateVmSpec) (now : Time) (disks : List AttachDiskSpec) (bridge : String) (vlan : ℤ)
    (registry : Registry)
    → (guest : Guest) × ((guest.name ≡ spec.name)
        × (guest.state ≡ on)
        × (guest.bridge ≡ bridge)
        × (guest.isolated ≡ true)
        × IsAnswered spec.vmid guest (spec_ops (boot spec now disks bridge vlan) registry))
unfolding HasNamed
spec_ops-boot spec now disks bridge vlan registry =
    let (guest, (there, name)) = created-HasNamed spec now registry in
    (
      booted guest bridge,
      (name, refl, refl, refl, attached-IsAnswered spec.vmid vlan bridge disks guest _ there),
    )

-- On the mock target, whatever it already has, the calls of an isolated boot (the creation of a machine,
-- any number of disks, the move to the bridge in isolation, the start) are all answered without an error,
-- and afterwards the machine with that id has that name, runs, and is isolated on that bridge.
pub run_ops-boot :
    (spec : CreateVmSpec) (now : Time) (disks : List AttachDiskSpec) (bridge : String) (vlan : ℤ)
    (t : MockTarget)
    → let (answers, after) = run_ops (boot spec now disks bridge vlan) t in
      (guest : Guest) × ((guest.name ≡ spec.name)
        × (guest.state ≡ on)
        × (guest.bridge ≡ bridge)
        × (guest.isolated ≡ true)
        × (all is_ok answers ≡ true)
        × (view after spec.vmid ≡ some guest))
run_ops-boot spec now disks bridge vlan t =
    let (guest, (name, state, on_bridge, isolated, (answered, there))) =
      spec_ops-boot spec now disks bridge vlan (view t) in
    let (answers, registry) = run_ops-refines (boot spec now disks bridge vlan) t in
    (
      guest,
      (
        name,
        state,
        on_bridge,
        isolated,
        ap (all is_ok) answers ∙ answered,
        ap (λ r. r spec.vmid) registry ∙ there,
      ),
    )
