-- ===== src/Connections/Requests.antt =====
-- `createConnection` and `deleteConnection` of backend/internal/api/connections.go. A body that does not
-- decode is `none`.
use drishti_server_migration.Base.{
  ℕ, String, append, Bool, true, false, ◌||◌, Option, none, some, Result, ok, err, Eff, pure,
  on_part, ◌==◌, if◌then◌else◌,
}
use drishti_server_migration.Domain.{
  Connection, PlatformKind, vmware, proxmox, hyperv, other_kind, Role, source, target, other_role,
  unknown,
}
use drishti_server_migration.Connections.{Login, ConnState, CreateInput, ConnOutside}
use drishti_server_migration.Connections.Registry.{
  kind_text, role_text, add_connection, remove_connection, put_credentials, delete_credentials,
}

abbrev pub kind_of : String → PlatformKind
kind_of name =
    if name == "vmware"
    then vmware
    else if name == "proxmox"
    then proxmox
    else if name == "hyperv"
    then hyperv
    else other_kind name

abbrev pub role_of : String → Role
role_of name =
    if name == "source" then source else if name == "target" then target else other_role name

-- The status of a reply, and the connection that it shows.
pub record ConnReply : Type 0 where
  pub status : ℕ
  pub shown : Option Connection

abbrev pub ConnHandler : Type 0 → Type 0
ConnHandler X = ConnState X → ConnReply × ConnState X

module _ {X : Type 0} where
  abbrev pub reply_with : ℕ → Option Connection → ConnHandler X
  reply_with status shown s = (record { status = status; shown = shown }, s)

  abbrev pub after_result : {A : Type 0} → ℕ → (A → ConnHandler X) → Result A → ConnHandler X
  after_result status go (ok a) = go a
  after_result status go (err e) = reply_with status none

  -- `if err != nil { writeErr(status, ...); return }`
  abbrev pub or_status :
      {A : Type 0} → ℕ → Eff (ConnState X) A → (A → ConnHandler X) → ConnHandler X
  or_status status m go s = let (r, s') = m s in after_result status go r s'

module _ {X : Type 0} (o : ConnOutside X) where
  unfoldable pub outside_conn : {A : Type 0} → Eff X A → Eff (ConnState X) A
  unfolding on_part
  outside_conn m = on_part (λ s. s.ext) (λ x s. record s { ext = x }) m

  abbrev pub lacks_credentials : CreateInput → Bool
  lacks_credentials input = input.username == "" || input.password == ""

  -- The connection that the handler builds, with the fields it leaves empty.
  abbrev pub candidate : CreateInput → Connection
  candidate input = record {
    id = "";
    name = input.name;
    kind = kind_of input.kind;
    role = role_of input.role;
    endpoint = input.endpoint;
    insecure_tls = input.insecure_tls;
    status = unknown;
    secret_ref = input.secret_ref;
    created_at = o.zero_time;
    updated_at = o.zero_time;
  }

  -- The connection that the Proxmox probe gets.
  abbrev pub probed : CreateInput → Connection
  probed input = record (candidate input) { name = ""; kind = proxmox; role = other_role "" }

  abbrev pub probe_with :
      CreateInput → ConnHandler X → Option (Connection → Eff X String) → ConnHandler X
  probe_with input go none = reply_with 400 none
  probe_with input go (some probe) =
      if input.secret_ref == ""
      then reply_with 400 none
      else or_status 502 (outside_conn (probe (probed input))) λ _. go

  -- Outside mock mode the platform is asked first.
  abbrev pub probe_kind : CreateInput → ConnHandler X → PlatformKind → ConnHandler X
  probe_kind input go vmware =
      if lacks_credentials input
      then reply_with 400 none
      else or_status 502 (outside_conn (o.probe_vmware input)) λ _. go
  probe_kind input go proxmox = probe_with input go o.probe_proxmox
  probe_kind input go _ = reply_with 400 none

  abbrev pub keeps_login : PlatformKind → Bool
  keeps_login vmware = o.real_mode
  keeps_login _ = false

  abbrev pub created_event : Connection → Eff X (Unit {0})
  created_event c = o.append_event "connection.create" c.id "connected" (
      append "Platform connection registered: " (
        append (kind_text c.kind)
          (append " " (append (role_text c.role) (append " " (o.sanitize_log c.endpoint))))))

  abbrev pub deleted_event : String → Eff X (Unit {0})
  deleted_event id =
      o.append_event "connection.delete" id "deleted" "Platform connection removed from registry."

  -- An event is written, and then the reply.
  abbrev pub audited : Eff X (Unit {0}) → ℕ → Option Connection → ConnHandler X
  audited event status shown = or_status 503 (outside_conn event) λ _. reply_with status shown

  abbrev pub login_of : CreateInput → Login
  login_of input = record { username = input.username; password = input.password }

  -- What follows the registration: the credentials of a VMware connection, and the audit event.
  unfoldable pub finish_create : CreateInput → Connection → ConnHandler X
  unfolding put_credentials outside_conn
  finish_create input c =
      or_status 503
        (if keeps_login c.kind then put_credentials o c.id (login_of input) else pure tt)
        λ _. audited (created_event c) 201 (some c)

  unfoldable pub register : CreateInput → ConnHandler X
  unfolding add_connection finish_create
  register input = or_status 409 (add_connection o (candidate input)) (finish_create input)

  unfoldable pub create_connection : Option CreateInput → ConnHandler X
  unfolding register
  create_connection none = reply_with 400 none
  create_connection (some input) =
      if input.kind == "" || (input.role == "" || input.endpoint == "")
      then reply_with 400 none
      else if o.real_mode
      then probe_kind input (register input) (kind_of input.kind)
      else register input

  unfoldable pub finish_delete : String → Bool → ConnHandler X
  unfolding delete_credentials outside_conn
  finish_delete id false = reply_with 404 none
  finish_delete id true =
      or_status 503 (delete_credentials o id) λ _. audited (deleted_event id) 204 none

  unfoldable pub delete_connection : String → ConnHandler X
  unfolding finish_delete remove_connection
  delete_connection path =
      let id = o.normalize_id path in or_status 404 (remove_connection o id) (finish_delete id)
