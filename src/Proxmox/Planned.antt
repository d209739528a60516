-- ===== src/Proxmox/Planned.antt =====
-- The requests that a start of a remote migration may send, and how its parts make one.
use drishti_server_migration.Base.{
  ℤ, pos, leb_ℤ, String, append, true, false, Option, none, some, List, [], ◌∷◌, Result, ok, err,
  pure, from_result, with_error, wrap, if◌then◌else◌, ◌>>◌, ◌==◌, ◌≡◌, ◌⊎◌, inl, inr, ap, sym, ◌∙◌,
  refl, arith, Bool-cases,
}
use drishti_server_migration.Base.Hoare.{bind_returned, with_error-returned}
use drishti_server_migration.Domain.{Plan, Connection, Vm, StorageMap, NetworkMap, InventoryRoot}
use drishti_server_migration.Proxmox.{RemoteApi, MigrateForm}
use drishti_server_migration.Proxmox.Maps.{normalized_strategy, is_live, parse_qemu_vmid}
use drishti_server_migration.Proxmox.Located.{IsGuest}
use drishti_server_migration.Proxmox.Remote.{normalize_compare}
use drishti_server_migration.Proxmox.Start.{
  reserve_vmid, endpoint_of, endpoint_text, build_remote_endpoint, form_of,
}
use drishti_server_migration.Proxmox.Conditions.{compared}

-- A request that keeps the source, moves the guest as the plan says, and uses the plan's first maps.
pub record IsRetaining (plan : Plan) (form : MigrateForm) : Type 0 where
  pub no_delete : form.delete ≡ false
  pub online : form.online ≡ is_live (normalized_strategy plan.strategy)
  pub storage :
      (m : StorageMap) × (ms : List StorageMap) × ((plan.storage_maps ≡ m ∷ ms)
        × (form.target_storage ≡ m.target_storage_id))
  pub bridge :
      (n : NetworkMap) × (ns : List NetworkMap) × ((plan.network_maps ≡ n ∷ ns)
        × (form.target_bridge ≡ n.target_bridge))

module _ {X : Type 0} (api : RemoteApi X) where
  -- The endpoint of the target, with its credentials, as the form names it: its host, its port or the
  -- standard one, and the fingerprint that the host has shown.
  pub record IsEndpoint (tgt : Connection) (text : String) : Type 0 where
    pub host : String
    pub port : String
    pub id : String
    pub secret : String
    pub fingerprint : String
    pub before : X
    pub parsed :
        api.parse_url (compared (api.normalize_endpoint tgt.endpoint) tgt.endpoint)
        ≡ some (host, port)
    pub credentials : api.credentials tgt.secret_ref ≡ ok (id, secret)
    pub shown :
        (api.tls_fingerprint host (if port == "" then "8006" else port) before).0 ≡ ok fingerprint
    pub written :
        append "host=" (
          append host (
            append ",port=" (
              append (if port == "" then "8006" else port) (
                append ",apitoken=PVEAPIToken="
                  (append id (append "=" (append secret (append ",fingerprint=" fingerprint))))))))
        ≡ text

  -- The source has given an inventory in which the plan's machine stands on the node.
  abbrev pub IsSourceNode : Plan → Connection → String → Type 0
  IsSourceNode plan src node =
      (before : X) × (inv : InventoryRoot) × (vm : Vm) × (((api.inventory src before).0 ≡ ok inv)
        × IsGuest inv plan.source_vm_id vm node)

  -- The number of the new machine is the one that was asked for, or, where that is not positive, one
  -- that the target has given.
  abbrev pub IsTargetNumber : Connection → ℤ → ℤ → Type 0
  IsTargetNumber tgt requested vmid =
      ((leb_ℤ requested (pos 0) ≡ false) × (vmid ≡ requested))
      ⊎ ((leb_ℤ requested (pos 0) ≡ true)
          × ((before : X) × ((api.read_next_vmid tgt before).0 ≡ ok vmid)))

  -- A request to the source to migrate the plan's machine from its node to the target, in which the
  -- form is a retaining one.
  pub record IsPlanned (plan : Plan) (src tgt : Connection) (requested : ℤ) (c : Connection)
      (node : String) (vmid : ℤ) (form : MigrateForm) : Type 0 where
    pub at_source : c ≡ src
    pub on_node : IsSourceNode plan src node
    pub number : parse_qemu_vmid api.atoi plan.source_vm_id ≡ ok vmid
    pub destination : IsEndpoint tgt form.target_endpoint
    pub new_number : IsTargetNumber tgt requested form.target_vmid
    pub retaining : IsRetaining plan form

module _ {X : Type 0} (api : RemoteApi X) where
  pub form_of-IsRetaining :
      (plan : Plan) (endpoint : String) (vmid : ℤ) (ms : List StorageMap) (ns : List NetworkMap)
      (form : MigrateForm)
      → plan.storage_maps ≡ ms
      → plan.network_maps ≡ ns
      → form_of api plan endpoint vmid ms ns ≡ ok form
      → IsRetaining plan form
  form_of-IsRetaining plan endpoint vmid [] ns form hm hn h = ground (arith, h)
  form_of-IsRetaining plan endpoint vmid (m ∷ ms) [] form hm hn h = ground (arith, h)
  form_of-IsRetaining plan endpoint vmid (m ∷ ms) (n ∷ ns) form hm hn h = record {
    no_delete = ground (arith, h);
    online = ground (arith, h);
    storage = (m, ms, (hm, ground (arith, h)));
    bridge = (n, ns, (hn, ground (arith, h)));
  }

  pub form_of-fields :
      (plan : Plan) (endpoint : String) (vmid : ℤ) (ms : List StorageMap) (ns : List NetworkMap)
      (form : MigrateForm)
      → form_of api plan endpoint vmid ms ns ≡ ok form
      → (endpoint ≡ form.target_endpoint) × (vmid ≡ form.target_vmid)
  form_of-fields plan endpoint vmid [] ns form h = ground (arith, h)
  form_of-fields plan endpoint vmid (m ∷ ms) [] form h = ground (arith, h)
  form_of-fields plan endpoint vmid (m ∷ ms) (n ∷ ns) form h =
      (ground (arith, h), ground (arith, h))

  pub returned_by_result :
      {A : Type 0} (r : Result A) (a : A) (x y : X) → from_result r x ≡ (ok a, y) → r ≡ ok a
  unfolding from_result
  returned_by_result r a x y h = ap (λ p. p.0) h

  endpoint_parts :
      (o : Option (String × String)) (host port : String)
      → endpoint_of api o ≡ ok (host, port)
      → (given : String) × ((o ≡ some (host, given))
          × ((if given == "" then "8006" else given) ≡ port))
  endpoint_parts none host port h = ground (arith, h)
  endpoint_parts (some (a, given)) host port h = elim (Bool-cases (a == "")) [
    | inl empty ↦ ground (arith, h, empty)
    | inr named ↦
        let same : a ≡ host = ground (arith, h, named) in
        (given, (ap (λ n. some (n, given)) same, ground (arith, h, named)))
  ]

  normalize_compare-compared :
      (e : String) → normalize_compare api e ≡ compared (api.normalize_endpoint e) e
  normalize_compare-compared e = by_result (api.normalize_endpoint e)
    where
      by_result : (r : Result String) → elim r [ ok value ↦ value | err x ↦ e ] ≡ compared r e
      by_result (ok value) = refl
      by_result (err x) = refl

  endpoint_read :
      (tgt : Connection) (text host given port id secret fingerprint : String) (before : X)
      → api.parse_url (normalize_compare api tgt.endpoint) ≡ some (host, given)
      → (if given == "" then "8006" else given) ≡ port
      → api.credentials tgt.secret_ref ≡ ok (id, secret)
      → (api.tls_fingerprint host port before).0 ≡ ok fingerprint
      → endpoint_text api host port id secret fingerprint ≡ text
      → IsEndpoint api tgt text
  endpoint_read tgt text host given port id secret fingerprint before parsed same known shown
        written =
      record {
        host = host;
        port = given;
        id = id;
        secret = secret;
        fingerprint = fingerprint;
        before = before;
        parsed = ap api.parse_url (sym (normalize_compare-compared tgt.endpoint)) ∙ parsed;
        credentials = known;
        shown = ap (λ p. (api.tls_fingerprint host p before).0) same ∙ shown;
        written = ap (λ p. endpoint_text api host p id secret fingerprint) same ∙ written;
      }

  returned_text : (p q : String) (x y : X) → pure p x ≡ (ok q, y) → p ≡ q
  unfolding pure
  returned_text p q x y h = ground (arith, h)

  pub build_remote_endpoint-IsEndpoint :
      (tgt : Connection) (text : String) (x y : X)
      → build_remote_endpoint api tgt x ≡ (ok text, y)
      → IsEndpoint api tgt text
  unfolding build_remote_endpoint
  build_remote_endpoint-IsEndpoint tgt text x y h =
      let (place, (parsed, h1)) = bind_returned _ _ x y text h in
      let (keys, (known, h2)) = bind_returned _ _ _ y text h1 in
      let (fingerprint, (shown, last)) = bind_returned _ _ _ y text h2 in
      let place_of = endpoint_of api (api.parse_url (normalize_compare api tgt.endpoint)) in
      let (given, (parts, same)) =
        endpoint_parts (api.parse_url (normalize_compare api tgt.endpoint)) place.0 place.1
          (returned_by_result place_of place x _ parsed) in
      endpoint_read tgt text place.0 given place.1 keys.0 keys.1 fingerprint _ parts same
        (returned_by_result (api.credentials tgt.secret_ref) keys _ _ known) (ap (λ p. p.0) shown)
        (returned_text _ text _ y last)

  asked_target :
      (tgt : Connection) (vmid : ℤ) (x y : X)
      → (from_result (api.open_client tgt)
            >> with_error (wrap "reserve target VMID: %w" []) (api.read_next_vmid tgt))
          x
        ≡ (ok vmid, y)
      → (before : X) × ((api.read_next_vmid tgt before).0 ≡ ok vmid)
  asked_target tgt vmid x y h =
      let (_, (_, h1)) = bind_returned _ _ x y vmid h in
      (_, with_error-returned _ (api.read_next_vmid tgt) _ vmid (ap (λ p. p.0) h1))

  pub reserve_vmid-IsTargetNumber :
      (tgt : Connection) (requested vmid : ℤ) (x y : X)
      → reserve_vmid api tgt requested x ≡ (ok vmid, y)
      → IsTargetNumber api tgt requested vmid
  unfolding reserve_vmid pure
  reserve_vmid-IsTargetNumber tgt requested vmid x y h =
      elim (Bool-cases (leb_ℤ requested (pos 0))) [
        | inl unasked ↦ inr (unasked, asked_target tgt vmid x y (ground (arith, h, unasked)))
        | inr asked ↦ inl (asked, ground (arith, h, asked))
      ]
