-- ===== src/Proxmox/Checked.antt =====
-- What a passed remote preflight has seen.
use mathlib.Core.List.{Memᴰ}
use drishti_server_migration.Base.{
  String, false, Option, none, some, List, ok, pure, with_error, ◌≡◌, ap, refl, arith,
}
use drishti_server_migration.Base.Hoare.{bind_returned, with_error-returned}
use drishti_server_migration.Domain.{
  Plan, Connection, Vm, TargetNode, InventoryRoot, PreflightCheck,
}
use drishti_server_migration.Proxmox.{RemoteApi}
use drishti_server_migration.Proxmox.Maps.{
  normalized_strategy, is_live, find_source_vm, find_target_node,
}
use drishti_server_migration.Proxmox.Located.{
  IsGuest, find_target_node-is_listed, find_source_vm-IsGuest,
}
use drishti_server_migration.Proxmox.Remote.{
  scope_checks, target_checks, guest_checks, remote_preflight,
}
use drishti_server_migration.Proxmox.Conditions.{
  has_failed, none_failed-++, after_first, returned_checks, IsInScope, IsPlaced, IsPowered,
  normalized_strategy-IsPowered, scope_checks-IsInScope, target_checks-IsPlaced,
  power_checks-IsPowered,
}

module _ {X : Type 0} (api : RemoteApi X) where
  -- What a plan's endpoints and machine are, where the preflight passes.
  pub record IsReady (plan : Plan) (src tgt : Connection) (sources targets : InventoryRoot)
      : Type 0 where
    pub vm : Vm
    pub host : String
    pub node : TargetNode
    pub scope : IsInScope api plan src tgt
    pub found : IsGuest sources plan.source_vm_id vm host
    pub powered : IsPowered api plan.strategy src plan.source_vm_id vm host
    pub target : Memᴰ node targets.nodes
    pub named : node.id ≡ plan.target_node_id
    pub placed : IsPlaced api plan vm node

  abbrev IsGuestReady : Plan → Connection → InventoryRoot → Option (Vm × String) → Type 0
  IsGuestReady plan src targets o =
      (vm : Vm) × (host : String) × (node : TargetNode) × ((o ≡ some (vm, host))
        × IsPowered api plan.strategy src plan.source_vm_id vm host
        × (find_target_node targets plan.target_node_id ≡ some node)
        × IsPlaced api plan vm node)

  guest_checks-IsGuestReady :
      (plan : Plan) (src : Connection) (targets : InventoryRoot) (o : Option (Vm × String))
      (cs : List PreflightCheck) (x y : X)
      → guest_checks api plan src targets o x ≡ (ok cs, y)
      → has_failed cs ≡ false
      → IsGuestReady plan src targets o
  unfolding guest_checks pure
  guest_checks-IsGuestReady plan src targets none cs x y h good = ground (arith, h, good)
  guest_checks-IsGuestReady plan src targets (some (vm, host)) cs x y h good =
      let (powers, (ran, last)) = bind_returned _ _ x y cs h in
      let targeted = target_checks api plan vm (find_target_node targets plan.target_node_id) in
      let (good_powers, good_target) =
        none_failed-++ powers targeted (after_first _ _ cs _ y last good) in
      let (node, (found, placed)) =
        target_checks-IsPlaced api plan vm (find_target_node targets plan.target_node_id)
          good_target in
      (
        vm,
        host,
        node,
        (
          refl,
          normalized_strategy-IsPowered api plan.strategy src plan.source_vm_id vm host (
              power_checks-IsPowered api (is_live (normalized_strategy plan.strategy)) plan src vm
                host powers x _ ran good_powers),
          found,
          placed,
        ),
      )

  -- A preflight that returned checks of which none failed has read an inventory of the source and then
  -- one of the target, for which the plan is ready.
  pub remote_preflight-IsReady :
      (plan : Plan) (src tgt : Connection) (cs : List PreflightCheck) (x y : X)
      → remote_preflight api plan src tgt x ≡ (ok cs, y)
      → has_failed cs ≡ false
      → (sources : InventoryRoot) × (targets : InventoryRoot) × (((api.inventory src x).0
            ≡ ok sources)
          × ((api.inventory tgt (api.inventory src x).1).0 ≡ ok targets)
          × IsReady plan src tgt sources targets)
  unfolding remote_preflight pure with_error
  remote_preflight-IsReady plan src tgt cs x y h good =
      let (sources, (read_sources, h1)) = bind_returned _ _ x y cs h in
      let (targets, (read_targets, h2)) = bind_returned _ _ _ y cs h1 in
      let (rest, (ran, last)) = bind_returned _ _ _ y cs h2 in
      let scope = scope_checks api plan src tgt in
      let (good_scope, good_rest) =
        none_failed-++ scope rest (returned_checks _ cs _ y last good) in
      let (vm, host, node, (found, powered, on_node, placed)) =
        guest_checks-IsGuestReady plan src targets (find_source_vm sources plan.source_vm_id) rest _
          _ ran good_rest in
      (
        sources,
        targets,
        (
          with_error-returned _ (api.inventory src) x sources (ap (λ p. p.0) read_sources),
          with_error-returned _ (api.inventory tgt) _ targets (ap (λ p. p.0) read_targets),
          record {
            vm = vm;
            host = host;
            node = node;
            scope = scope_checks-IsInScope api plan src tgt good_scope;
            found = find_source_vm-IsGuest sources plan.source_vm_id vm host found;
            powered = powered;
            target = (find_target_node-is_listed targets plan.target_node_id node on_node).0;
            named = (find_target_node-is_listed targets plan.target_node_id node on_node).1;
            placed = placed;
          },
        ),
      )
