-- ===== src/Mock/Targets.antt =====
-- `MockTarget` and `MockFactory` of backend/internal/platform/mockplatform/adapters.go.
use drishti_server_migration.Base.{
  ℤ, String, Bool, true, [], ◌∷◌, ◌++◌, find, str, errorf, Result, ok, err, Eff, pure, gets, modify,
  from_result, ◌>>=◌, ◌==◌, if◌then◌else◌,
}
use drishti_server_migration.Base.Dict.{insert}
use drishti_server_migration.Domain.{Connection, PowerState, on, off, TargetNode, Time}
use drishti_server_migration.Platform.{
  CreateVmSpec, AttachDiskSpec, SourceAdapter, TargetAdapter, AdapterFactory,
}
use drishti_server_migration.Mock.{MockVm, MockTarget, MockWorld, MockOutside}
use drishti_server_migration.Mock.Platforms.{
  vm_at, put_vm, existing, next_ℤ, found_or, target_missing, inv, source_of, target_of, on_source,
  on_target, clock, source_vm, write_export, power_off, power_state,
}

unfoldable pub reserve_vmid : Eff MockTarget ℤ
reserve_vmid t = (ok (next_ℤ t.next_id), record t { next_id = next_ℤ t.next_id })

abbrev pub new_vm : CreateVmSpec → Time → MockVm
new_vm spec now = record {
  id = spec.vmid;
  name = spec.name;
  node_id = spec.node_id;
  state = off;
  disks = [];
  bridge = spec.isolated_bridge;
  vlan = ℤ.pos 0;
  isolated = true;
  created_at = now;
}

-- `CreateVM`, at a time.
unfoldable pub create_vm : CreateVmSpec → Time → Eff MockTarget ℤ
unfolding existing put_vm
create_vm spec now t =
    if existing spec.name spec.vmid t.vms
    then (ok spec.vmid, t)
    else (ok spec.vmid, record t { vms = put_vm spec.vmid (new_vm spec now) t.vms })

-- `vm, ok := t.vms[vmid]; if !ok { return ... }`, and then a change of the machine.
unfoldable pub change_vm : ℤ → (MockVm → MockVm) → Eff MockTarget (Unit {0})
unfolding vm_at put_vm
change_vm id f = do
  known ← gets (λ t. vm_at id t.vms)
  vm ← from_result (found_or (target_missing id) known)
  modify (λ t. record t { vms = put_vm id (f vm) t.vms })

unfoldable pub attach_vm_disk : ℤ → AttachDiskSpec → Eff MockTarget (Unit {0})
unfolding change_vm
attach_vm_disk id disk = change_vm id (λ vm. record vm { disks = vm.disks ++ (disk ∷ []) })

unfoldable pub start_vm : ℤ → Eff MockTarget (Unit {0})
unfolding change_vm
start_vm id = change_vm id (λ vm. record vm { state = on })

unfoldable pub stop_vm : ℤ → Eff MockTarget (Unit {0})
unfolding change_vm
stop_vm id = change_vm id (λ vm. record vm { state = off })

unfoldable pub set_network : ℤ → String → ℤ → Bool → Eff MockTarget (Unit {0})
unfolding change_vm
set_network id bridge vlan isolated =
    change_vm id (λ vm. record vm { bridge = bridge; vlan = vlan; isolated = isolated })

unfoldable pub vm_state : ℤ → Eff MockTarget PowerState
unfolding vm_at
vm_state id = do
  known ← gets (λ t. vm_at id t.vms)
  vm ← from_result (found_or (target_missing id) known)
  pure vm.state

module _ {X : Type 0} (o : MockOutside X) where
  unfoldable pub target_node : Connection → String → Result TargetNode
  unfolding inv
  target_node conn id = elim (inv o conn.id) [
    | err e ↦ err e
    | ok root ↦
        found_or (errorf "node %q not found" (str id ∷ [])) (find (λ n. n.id == id) root.nodes)
  ]

  -- The clock is read first, whether or not a machine is made.
  unfoldable pub create_at : Connection → CreateVmSpec → Eff (MockWorld X) ℤ
  unfolding on_target create_vm clock
  create_at conn spec = do now ← clock o; on_target o conn (create_vm spec now)

  unfoldable pub mock_source_adapter : Connection → SourceAdapter (MockWorld X)
  unfolding inv source_vm write_export on_source power_off power_state
  mock_source_adapter conn = record {
    kind = conn.kind;
    inventory = from_result (inv o conn.id);
    vm = λ id. from_result (source_vm o conn id);
    export_disk = write_export o conn;
    power_off = λ id approval. on_source o conn (power_off id approval);
    power_state = λ id. on_source o conn (power_state id);
  }

  unfoldable pub mock_target_adapter : Connection → TargetAdapter (MockWorld X)
  unfolding inv target_node on_target reserve_vmid create_at attach_vm_disk start_vm stop_vm
      set_network vm_state
  mock_target_adapter conn = record {
    kind = conn.kind;
    inventory = from_result (inv o conn.id);
    node = λ id. from_result (target_node conn id);
    reserve_vmid = λ node. on_target o conn reserve_vmid;
    create_vm = create_at conn;
    attach_disk = λ id disk. on_target o conn (attach_vm_disk id disk);
    start_vm = λ id. on_target o conn (start_vm id);
    stop_vm = λ id. on_target o conn (stop_vm id);
    set_network = λ id bridge vlan isolated. on_target o conn (set_network id bridge vlan isolated);
    vm_state = λ id. on_target o conn (vm_state id);
  }

  -- `MockFactory`: an adapter is made on its first use, with what the connection then is.
  unfoldable pub mock_factory : AdapterFactory (MockWorld X)
  unfolding mock_source_adapter mock_target_adapter
  mock_factory = record {
    source = λ conn w.
        let s = source_of o conn w in
        (ok (mock_source_adapter s.conn), record w { sources = insert conn.id s w.sources });
    target = λ conn w.
        let t = target_of o conn w in
        (ok (mock_target_adapter t.conn), record w { targets = insert conn.id t w.targets });
  }
