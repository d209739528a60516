-- ===== src/Mock/Refinement.antt =====
-- The mock target refines the registry of its machines.
use drishti_server_migration.Base.{
  ℤ, String, Bool, true, false, Option, none, some, List, [], ◌∷◌, Result, pure, gets, modify,
  from_result, ◌>>=◌, ◌>>◌, if◌then◌else◌, ◌==◌, ◌≡◌, ◌∙◌, ap, sym, refl, inl, inr, Option-cases,
}
use drishti_server_migration.Platform.{CreateVmSpec}
use drishti_server_migration.Domain.{Time}
use drishti_server_migration.Mock.{MockVm, MockTarget}
use drishti_server_migration.Mock.Platforms.{vm_at, put_vm, existing, same_ℤ}
use drishti_server_migration.Mock.Targets.{
  new_vm, create_vm, change_vm, attach_vm_disk, start_vm, stop_vm, set_network,
}
use drishti_server_migration.Mock.Machines.{
  vm_at-put_vm, Guest, Registry, guest_of, guest_in, view, set_guest, MachineOp, created, attached,
  started, stopped, networked, run_op, changed_guest, is_named, spec_op, run_ops, spec_ops,
}

guest_in-if :
    (b : Bool) (new : MockVm) (o : Option MockVm)
    → guest_in (if b then some new else o) ≡ (if b then some (guest_of new) else guest_in o)
guest_in-if true new o = refl
guest_in-if false new o = refl

view-put_vm :
    (id : ℤ) (new : MockVm) (t : MockTarget)
    → view (record t { vms = put_vm id new t.vms }) ≡ set_guest id (guest_of new) (view t)
view-put_vm id new t = λ i j.
    (ap guest_in (vm_at-put_vm id j new t.vms) ∙ guest_in-if (same_ℤ id j) new (vm_at j t.vms)) i

-- The answer and the registry of an operation are those of the specification.
abbrev IsRefined : Result (Unit {0}) × MockTarget → Result (Unit {0}) × Registry → Type 0
IsRefined (r, t) (r', registry) = (r ≡ r') × (view t ≡ registry)

change_vm-IsRefined :
    (id : ℤ) (f : MockVm → MockVm) (g : Guest → Guest) (t : MockTarget)
    → ((vm : MockVm) → guest_of (f vm) ≡ g (guest_of vm))
    → IsRefined (change_vm id f t) (changed_guest id g (view t id) (view t))
unfolding change_vm gets from_result modify ◌>>=◌
change_vm-IsRefined id f g t same = elim (Option-cases (vm_at id t.vms)) [
  | inl absent ↦ rw absent (refl, refl)
  | inr (vm, there) ↦
      rw there (refl, view-put_vm id (f vm) t ∙ ap (λ guest. set_guest id guest (view t)) (same vm))
]

create_by :
    (spec : CreateVmSpec) (now : Time) (t : MockTarget) (b : Bool)
    → existing spec.name spec.vmid t.vms ≡ b
    → is_named spec.name (view t spec.vmid) ≡ b
    → IsRefined ((create_vm spec now >> pure tt) t) (spec_op (created spec now) (view t))
unfolding create_vm pure ◌>>=◌
create_by spec now t true e n = rw (e, n) (refl, refl)
create_by spec now t false e n = rw (e, n) (refl, view-put_vm spec.vmid (new_vm spec now) t)

existing-is_named :
    (name : String) (o : Option MockVm)
    → elim o [ none ↦ false | some vm ↦ vm.name == name ] ≡ is_named name (guest_in o)
existing-is_named name none = refl
existing-is_named name (some vm) = refl

create_vm-IsRefined :
    (spec : CreateVmSpec) (now : Time) (t : MockTarget)
    → IsRefined ((create_vm spec now >> pure tt) t) (spec_op (created spec now) (view t))
unfolding existing
create_vm-IsRefined spec now t =
    create_by spec now t _ refl (sym (existing-is_named spec.name (vm_at spec.vmid t.vms)))

run_op-IsRefined : (op : MachineOp) (t : MockTarget) → IsRefined (run_op op t) (spec_op op (view t))
unfolding run_op attach_vm_disk start_vm stop_vm set_network
run_op-IsRefined (created spec now) t = create_vm-IsRefined spec now t
run_op-IsRefined (attached id disk) t = change_vm-IsRefined id _ _ t (λ vm. refl)
run_op-IsRefined (started id) t = change_vm-IsRefined id _ _ t (λ vm. refl)
run_op-IsRefined (stopped id) t = change_vm-IsRefined id _ _ t (λ vm. refl)
run_op-IsRefined (networked id bridge vlan isolated) t = change_vm-IsRefined id _ _ t (λ vm. refl)

pub run_ops-refines :
    (ops : List MachineOp) (t : MockTarget)
    → ((run_ops ops t).0 ≡ (spec_ops ops (view t)).0)
      × (view (run_ops ops t).1 ≡ (spec_ops ops (view t)).1)
unfolding run_ops
run_ops-refines [] t = (refl, refl)
run_ops-refines (op ∷ ops) t =
    let (r, v) = run_op-IsRefined op t in
    let (rs, vs) = run_ops-refines ops (run_op op t).1 in
    (
      (λ i. r i ∷ (rs ∙ ap (λ registry. (spec_ops ops registry).0) v) i),
      vs ∙ ap (λ registry. (spec_ops ops registry).1) v,
    )
