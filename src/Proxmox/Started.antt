-- ===== src/Proxmox/Started.antt =====
-- What a start of a remote migration asks of the platforms, and what it needs.
use mathlib.Core.Path.{subst}
use drishti_server_migration.Base.{
  ℤ, pos, leb_ℤ, String, Bool, true, false, Option, none, some, List, [], ◌∷◌, ok, Eff, pure, throw,
  from_result, with_error, wrap, ◌>>◌, ◌≡◌, ap, refl, arith,
}
use drishti_server_migration.Base.Hoare.{
  Keeps, Keeps-pure, Keeps-throw, Keeps-from_result, Keeps-with_error, Keeps-bind, Keeps-if,
  Keeps-bind_returned, bind_returned,
}
use drishti_server_migration.Domain.{
  Plan, Connection, Vm, NetworkMap, InventoryRoot, PreflightCheck,
}
use drishti_server_migration.Api.Approvals.{RemoteMigration}
use drishti_server_migration.Proxmox.{RemoteApi, MigrateForm}
use drishti_server_migration.Proxmox.Maps.{parse_qemu_vmid, find_source_vm}
use drishti_server_migration.Proxmox.Located.{find_source_vm-IsGuest}
use drishti_server_migration.Proxmox.Remote.{
  live_migration_compatible, power_checks, guest_checks, remote_preflight,
}
use drishti_server_migration.Proxmox.Start.{
  reject_failed, reserve_vmid, build_remote_endpoint, form_of, start_found, start_remote_migration,
}
use drishti_server_migration.Proxmox.Planned.{
  IsEndpoint, IsSourceNode, IsTargetNumber, IsPlanned, form_of-IsRetaining, form_of-fields,
  returned_by_result, build_remote_endpoint-IsEndpoint, reserve_vmid-IsTargetNumber,
}
use drishti_server_migration.Proxmox.Conditions.{has_failed}
use drishti_server_migration.Proxmox.Checked.{IsReady, remote_preflight-IsReady}

-- A property of the platforms that no question changes.
pub record IsUnasked {X : Type 0} (api : RemoteApi X) (I : X → Type 0) : Type 0 where
  pub inventory : (c : Connection) → Keeps I (api.inventory c)
  pub config_keys :
      (c : Connection) (node : String) (vmid : ℤ) → Keeps I (api.config_keys c node vmid)
  pub next_vmid : (c : Connection) → Keeps I (api.read_next_vmid c)
  pub fingerprint : (host port : String) → Keeps I (api.tls_fingerprint host port)

module _ {X : Type 0} (api : RemoteApi X) where
  found_failed : (cs : List PreflightCheck) → reject_failed api cs ≡ ok tt → has_failed cs ≡ false
  found_failed [] h = refl
  found_failed (c ∷ cs) h = ground (arith, h, found_failed cs)

  start_found-HasBridge :
      (plan : Plan) (src tgt : Connection) (requested : ℤ) (o : Option (Vm × String))
      (result : RemoteMigration) (x y : X)
      → start_found api plan src tgt requested o x ≡ (ok result, y)
      → (n : NetworkMap) × (ns : List NetworkMap) × (plan.network_maps ≡ n ∷ ns)
  unfolding start_found throw
  start_found-HasBridge plan src tgt requested none result x y h = ground (arith, h)
  start_found-HasBridge plan src tgt requested (some (vm, node)) result x y h =
      let (source_vmid, (_, h1)) = bind_returned _ _ x y result h in
      let (target_vmid, (_, h2)) = bind_returned _ _ _ y result h1 in
      let (endpoint, (_, h3)) = bind_returned _ _ _ y result h2 in
      let (form, (made, h4)) = bind_returned _ _ _ y result h3 in
      let retaining =
        form_of-IsRetaining api plan endpoint target_vmid plan.storage_maps plan.network_maps form
          refl refl (returned_by_result api _ form _ _ made) in
      (retaining.bridge.0, retaining.bridge.1, retaining.bridge.2.0)

  -- A migration that was started was ready: the preflight has read an inventory of the source and then
  -- one of the target; the strategy is cold or live; the connections are Proxmox, a source and a target,
  -- with different endpoints; the plan's machine stands on a host of the source, off for a cold migration,
  -- and for a live one on and with a configuration, read from the source, with no device that is passed
  -- through and no arguments of its own; the plan's node is a node of the target, and online; the plan
  -- maps every disk to a storage of that node and every network card to a bridge of it, with as many maps
  -- as there are; and the plan has a network map.
  pub start_remote_migration-IsReady :
      (plan : Plan) (src tgt : Connection) (requested : ℤ) (result : RemoteMigration) (x y : X)
      → start_remote_migration api plan src tgt requested x ≡ (ok result, y)
      → ((sources : InventoryRoot) × (targets : InventoryRoot) × (((api.inventory src x).0
              ≡ ok sources)
            × ((api.inventory tgt (api.inventory src x).1).0 ≡ ok targets)
            × IsReady api plan src tgt sources targets))
        × ((n : NetworkMap) × (ns : List NetworkMap) × (plan.network_maps ≡ n ∷ ns))
  unfolding start_remote_migration
  start_remote_migration-IsReady plan src tgt requested result x y h =
      let (checks, (ran, h1)) = bind_returned _ _ x y result h in
      let (_, (accepted, h2)) = bind_returned _ _ _ y result h1 in
      let (sources, (_, h3)) = bind_returned _ _ _ y result h2 in
      (
        remote_preflight-IsReady api plan src tgt checks x _ ran
            (found_failed checks (returned_by_result api _ tt _ _ accepted)),
        start_found-HasBridge plan src tgt requested _ result _ y h3,
      )

module _ {X : Type 0} (api : RemoteApi X) (I : X → Type 0) (asked : IsUnasked api I) where
  live_migration_compatible-Keeps :
      (src : Connection) (node id : String) → Keeps I (live_migration_compatible api src node id)
  unfolding live_migration_compatible
  live_migration_compatible-Keeps src node id = Keeps-bind _ _ (Keeps-from_result _) λ vmid.
      Keeps-bind _ _ (Keeps-from_result _)
        λ _. Keeps-bind _ _ (asked.config_keys src node vmid) λ keys. Keeps-pure _

  power_checks-Keeps :
      (live : Bool) (plan : Plan) (src : Connection) (vm : Vm) (node : String)
      → Keeps I (power_checks api live plan src vm node)
  unfolding power_checks
  power_checks-Keeps true plan src vm node =
      Keeps-bind _ _
        (Keeps-with_error _ _ (live_migration_compatible-Keeps src node plan.source_vm_id))
        λ _. Keeps-pure _
  power_checks-Keeps false plan src vm node = Keeps-pure _

  guest_checks-Keeps :
      (plan : Plan) (src : Connection) (targets : InventoryRoot) (o : Option (Vm × String))
      → Keeps I (guest_checks api plan src targets o)
  unfolding guest_checks
  guest_checks-Keeps plan src targets none = Keeps-pure _
  guest_checks-Keeps plan src targets (some (vm, node)) =
      Keeps-bind _ _ (power_checks-Keeps _ plan src vm node) λ _. Keeps-pure _

  remote_preflight-Keeps :
      (plan : Plan) (src tgt : Connection) → Keeps I (remote_preflight api plan src tgt)
  unfolding remote_preflight
  remote_preflight-Keeps plan src tgt =
      Keeps-bind _ _ (Keeps-with_error _ _ (asked.inventory src)) λ sources.
        Keeps-bind _ _ (Keeps-with_error _ _ (asked.inventory tgt)) λ targets.
          Keeps-bind _ _
            (guest_checks-Keeps plan src targets (find_source_vm sources plan.source_vm_id))
            λ _. Keeps-pure _

  reserve_vmid-Keeps : (tgt : Connection) (requested : ℤ) → Keeps I (reserve_vmid api tgt requested)
  unfolding reserve_vmid
  reserve_vmid-Keeps tgt requested =
      Keeps-if (leb_ℤ requested (pos 0)) reserve_next (pure requested)
        (λ _.
          Keeps-bind (from_result (api.open_client tgt)) _ (Keeps-from_result _)
            λ _. Keeps-with_error _ _ (asked.next_vmid tgt))
        λ _. Keeps-pure requested
    where
      reserve_next : Eff X ℤ
      reserve_next =
          from_result (api.open_client tgt)
          >> with_error (wrap "reserve target VMID: %w" []) (api.read_next_vmid tgt)

  build_remote_endpoint-Keeps : (tgt : Connection) → Keeps I (build_remote_endpoint api tgt)
  unfolding build_remote_endpoint
  build_remote_endpoint-Keeps tgt = Keeps-bind _ _ (Keeps-from_result _) λ (host, port).
      Keeps-bind _ _ (Keeps-from_result _)
        λ (id, secret). Keeps-bind _ _ (asked.fingerprint host port) λ _. Keeps-pure _

  -- The machine of a start, where there is one, stands on a node that the source has named.
  abbrev IsFoundOn : Plan → Connection → Option (Vm × String) → Type 0
  IsFoundOn plan src none = Unit
  IsFoundOn plan src (some (vm, node)) = IsSourceNode api plan src node

  found_on :
      (plan : Plan) (src : Connection) (inv : InventoryRoot) (before : X) (o : Option (Vm × String))
      → (api.inventory src before).0 ≡ ok inv
      → find_source_vm inv plan.source_vm_id ≡ o
      → IsFoundOn plan src o
  found_on plan src inv before none read h = tt
  found_on plan src inv before (some (vm, node)) read h =
      (before, inv, vm, (read, find_source_vm-IsGuest inv plan.source_vm_id vm node h))

  module _ (plan : Plan) (src tgt : Connection) (requested : ℤ)
      (posted : (c : Connection) (node : String) (vmid : ℤ) (form : MigrateForm)
        → IsPlanned api plan src tgt requested c node vmid form
        → Keeps I (api.post_migrate c node vmid form)) where
    post_planned :
        (node : String) (source_vmid target_vmid : ℤ) (endpoint : String) (form : MigrateForm)
        → IsSourceNode api plan src node
        → parse_qemu_vmid api.atoi plan.source_vm_id ≡ ok source_vmid
        → IsTargetNumber api tgt requested target_vmid
        → IsEndpoint api tgt endpoint
        → form_of api plan endpoint target_vmid plan.storage_maps plan.network_maps ≡ ok form
        → Keeps I (api.post_migrate src node source_vmid form)
    post_planned node source_vmid target_vmid endpoint form on_node number new_number reached made =
        let (text, new) =
          form_of-fields api plan endpoint target_vmid plan.storage_maps plan.network_maps form
            made in
        posted src node source_vmid form (record {
          at_source = refl;
          on_node = on_node;
          number = number;
          destination = subst (IsEndpoint api tgt) text reached;
          new_number = subst (IsTargetNumber api tgt requested) new new_number;
          retaining =
              form_of-IsRetaining api plan endpoint target_vmid plan.storage_maps plan.network_maps
                form refl refl made;
        })

    start_found-Keeps :
        (o : Option (Vm × String))
        → IsFoundOn plan src o
        → Keeps I (start_found api plan src tgt requested o)
    unfolding start_found
    start_found-Keeps none on_node = Keeps-throw _
    start_found-Keeps (some (vm, node)) on_node =
        Keeps-bind_returned _ _ (Keeps-from_result _) λ source_vmid s0 number.
          Keeps-bind_returned _ _ (reserve_vmid-Keeps tgt requested) λ target_vmid s1 reserved.
            Keeps-bind_returned _ _ (build_remote_endpoint-Keeps tgt) λ endpoint s2 built.
              Keeps-bind_returned _ _ (Keeps-from_result _) λ form s3 made.
                Keeps-bind _ _ (Keeps-from_result _) λ _.
                  Keeps-bind _ _
                    (Keeps-with_error _ _ (
                      post_planned node source_vmid target_vmid endpoint form on_node
                        (returned_by_result api _ source_vmid s0 _ number)
                        (reserve_vmid-IsTargetNumber api tgt requested target_vmid s1 _ reserved)
                        (build_remote_endpoint-IsEndpoint api tgt endpoint s2 _ built)
                        (returned_by_result api _ form s3 _ made)))
                    λ upid. Keeps-from_result _

    -- Let a property of the platforms be changed by none of the questions that a start asks, and by no
    -- request that is sent to the source, for the plan's machine under its number on the node where an
    -- inventory of the source has it; whose target is the target's endpoint with its credentials and
    -- fingerprint, under the number that was asked for or that the target gave; and that leaves the
    -- source in place, moves the guest as the plan's strategy says, and names the storage and the bridge
    -- of the plan's first maps. Then a start changes it in no way: it sends no other request, and never
    -- one that deletes the source.
    pub start_remote_migration-Keeps :
        (x : X) → I x → I (start_remote_migration api plan src tgt requested x).1
    unfolding start_remote_migration
    start_remote_migration-Keeps =
        (Keeps-bind _ _ (remote_preflight-Keeps plan src tgt) λ checks.
          Keeps-bind _ _ (Keeps-from_result _) λ _.
            Keeps-bind_returned _ _ (asked.inventory src) λ sources s read.
              start_found-Keeps (find_source_vm sources plan.source_vm_id)
                (found_on plan src sources s _ (ap (λ p. p.0) read) refl)).at
