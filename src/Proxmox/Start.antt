-- ===== src/Proxmox/Start.antt =====
-- `StartRemoteMigration` of backend/internal/platform/proxmox/migration.go.
use drishti_server_migration.Base.{
  ℤ, pos, String, append, false, Option, none, some, List, [], ◌∷◌, find, str, Error, errorf,
  new_error, wrap, panicked, Message, plain, Result, ok, err, Eff, pure, throw, from_result,
  with_error, ◌>>=◌, ◌>>◌, leb_ℤ, ◌==◌, if◌then◌else◌,
}
use drishti_server_migration.Domain.{
  Plan, Connection, Vm, StorageMap, NetworkMap, PreflightCheck, is_fail,
}
use drishti_server_migration.Api.Approvals.{RemoteMigration}
use drishti_server_migration.Proxmox.{RemoteApi, MigrateForm}
use drishti_server_migration.Proxmox.Maps.{
  normalized_strategy, is_live, parse_qemu_vmid, find_source_vm,
}
use drishti_server_migration.Proxmox.Remote.{normalize_compare, remote_preflight}

-- `fmt.Errorf("preflight failed: %s", check.Message)`, whose text is the message's.
abbrev refused : Message → Error
refused (plain text) = errorf "preflight failed: %s" (str text ∷ [])
refused _ = new_error "preflight failed: %s"

module _ {X : Type 0} (api : RemoteApi X) where
  -- The first check that failed is the error.
  abbrev pub reject_failed : List PreflightCheck → Result (Unit {0})
  reject_failed checks = elim (find (λ c. is_fail c.status) checks) [
    | some c ↦ err (refused c.message)
    | none ↦ ok tt
  ]

  unfoldable pub reserve_vmid : Connection → ℤ → Eff X ℤ
  reserve_vmid tgt requested =
      if leb_ℤ requested (pos 0)
      then (from_result (api.open_client tgt)
          >> with_error (wrap "reserve target VMID: %w" []) (api.read_next_vmid tgt))
      else pure requested

  abbrev port_of : String → String
  port_of port = if port == "" then "8006" else port

  abbrev pub endpoint_text : String → String → String → String → String → String
  endpoint_text host port id secret fingerprint = append "host=" (
      append host (
        append ",port=" (
          append port (
            append ",apitoken=PVEAPIToken="
              (append id (append "=" (append secret (append ",fingerprint=" fingerprint))))))))

  abbrev pub endpoint_of : Option (String × String) → Result (String × String)
  endpoint_of none = err (new_error "invalid target endpoint")
  endpoint_of (some (host, port)) =
      if host == "" then err (new_error "invalid target endpoint") else ok (host, port_of port)

  unfoldable pub build_remote_endpoint : Connection → Eff X String
  build_remote_endpoint tgt = do
    (host, port) ← from_result (endpoint_of (api.parse_url (normalize_compare api tgt.endpoint)))
    (id, secret) ← from_result (api.credentials tgt.secret_ref)
    fingerprint ← api.tls_fingerprint host port
    pure (endpoint_text host port id secret fingerprint)

  -- The form, from the first storage map and the first network map: an index out of range panics.
  abbrev pub form_of : Plan → String → ℤ → List StorageMap → List NetworkMap → Result MigrateForm
  form_of plan endpoint vmid [] ns = err (panicked "index out of range")
  form_of plan endpoint vmid (m ∷ ms) [] = err (panicked "index out of range")
  form_of plan endpoint vmid (m ∷ ms) (n ∷ ns) = ok (record {
    target_endpoint = endpoint;
    target_vmid = vmid;
    target_storage = m.target_storage_id;
    target_bridge = n.target_bridge;
    online = is_live (normalized_strategy plan.strategy);
    delete = false;
  })

  abbrev started_result : Plan → String → ℤ → ℤ → String → Result RemoteMigration
  started_result plan node source_vmid target_vmid upid =
      if upid == ""
      then err (new_error "Proxmox did not return a migration task ID")
      else ok (record {
        upid = upid;
        source_node = node;
        target_node = plan.target_node_id;
        source_vmid = source_vmid;
        target_vmid = target_vmid;
      })

  unfoldable pub start_found :
      Plan → Connection → Connection → ℤ → Option (Vm × String) → Eff X RemoteMigration
  unfolding reserve_vmid build_remote_endpoint parse_qemu_vmid
  start_found plan src tgt requested none = throw (new_error "source VM not found")
  start_found plan src tgt requested (some (vm, node)) = do
    source_vmid ← from_result (parse_qemu_vmid api.atoi plan.source_vm_id)
    target_vmid ← reserve_vmid tgt requested
    endpoint ← build_remote_endpoint tgt
    form ← from_result (form_of plan endpoint target_vmid plan.storage_maps plan.network_maps)
    from_result (api.open_client src)
    upid ←
        with_error (wrap "start remote migration: %w" [])
          (api.post_migrate src node source_vmid form)
    from_result (started_result plan node source_vmid target_vmid upid)

  unfoldable pub start_remote_migration : Plan → Connection → Connection → ℤ → Eff X RemoteMigration
  unfolding remote_preflight start_found
  start_remote_migration plan src tgt requested = do
    checks ← remote_preflight api plan src tgt
    from_result (reject_failed checks)
    sources ← api.inventory src
    start_found plan src tgt requested (find_source_vm sources plan.source_vm_id)
