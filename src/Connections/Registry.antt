-- ===== src/Connections/Registry.antt =====
-- `Add`, `Remove` and `Connection` of backend/internal/mock/inventory.go, and the store of credentials
-- of backend/internal/credential/memory.go.
use drishti_server_migration.Base.{
  ℕ, ◌+◌, String, append, Bool, true, false, ◌&&◌, ◌||◌, Option, none, some, List, [], ◌∷◌, ◌++◌,
  find, errorf, new_error, str, Result, ok, err, Eff, pure, throw, gets, modify, from_result, ◌>>=◌,
  ◌>>◌, leb, ◌==◌, if◌then◌else◌,
}
use drishti_server_migration.Base.Dict.{insert, erase}
use drishti_server_migration.Domain.{
  Connection, PlatformKind, vmware, proxmox, hyperv, other_kind, Role, source, target, other_role,
  connected, Time,
}
use drishti_server_migration.Connections.{Login, ConnState, ConnOutside}

abbrev pub kind_text : PlatformKind → String
kind_text vmware = "vmware"
kind_text proxmox = "proxmox"
kind_text hyperv = "hyperv"
kind_text (other_kind k) = k

abbrev pub role_text : Role → String
role_text source = "source"
role_text target = "target"
role_text (other_role r) = r

abbrev is_supported_kind : PlatformKind → Bool
is_supported_kind (other_kind k) = false
is_supported_kind _ = true

abbrev is_supported_role : Role → Bool
is_supported_role (other_role r) = false
is_supported_role _ = true

-- The loop of `sanitize`: lower case letters, digits, dots and dashes.
unfoldable pub sanitized : List ℕ → List ℕ
sanitized [] = []
sanitized (r ∷ rs) =
    let rest = sanitized rs in
    if (leb 97 r && leb r 122) || (leb 48 r && leb r 57)
    then r ∷ rest
    else if leb 65 r && leb r 90
    then (r + 32) ∷ rest
    else if (leb r 46 && leb 46 r) || (leb r 45 && leb 45 r)
    then r ∷ rest
    else rest

unfoldable pub find_connection : String → List Connection → Option Connection
find_connection id cs = find (λ c. c.id == id) cs

-- `Remove`: the connections without the first one that has the id.
unfoldable pub without_connection : String → List Connection → List Connection
without_connection id [] = []
without_connection id (c ∷ cs) =
    let rest = without_connection id cs in if c.id == id then cs else c ∷ rest

abbrev pub is_present : Option Connection → Bool
is_present none = false
is_present (some c) = true

module _ {X : Type 0} (o : ConnOutside X) where
  unfoldable pub slugify : String → String → String
  unfolding sanitized
  slugify kind endpoint =
      let name = o.text_of (sanitized (o.runes endpoint)) in
      if name == "" then append "conn-" kind else append "conn-" (append kind (append "-" name))

  -- The checks of `Add` before its search.
  unfoldable pub check_new : Connection → Result (Unit {0})
  check_new c =
      if is_supported_kind c.kind
      then if is_supported_role c.role
        then if c.endpoint == "" then err (new_error "endpoint is required") else ok tt
        else err
            (errorf "unsupported role %q (supported: source, target)" (str (role_text c.role) ∷ []))
      else err (
          errorf "unsupported platform kind %q (supported: vmware, proxmox, hyperv)"
            (str (kind_text c.kind) ∷ []))

  abbrev named : Connection → String
  named c =
      if c.name == "" then append (kind_text c.kind) (append " " (role_text c.role)) else c.name

  abbrev time_or : Time → Time → Time
  time_or t now = if o.is_zero t then now else t

  abbrev pub registered : Connection → String → Time → Connection
  registered c id now = record c {
    id = id;
    name = named c;
    status = connected;
    created_at = time_or c.created_at now;
    updated_at = time_or c.updated_at now;
  }

  unfoldable pub conn_clock : Eff (ConnState X) Time
  conn_clock s = let (t, x) = o.now s.ext in (ok t, record s { ext = x })

  -- The last step of `Add`, which takes the lock anew.
  unfoldable pub append_connection : Connection → Eff (ConnState X) (Unit {0})
  append_connection c = modify (λ s. record s { connections = s.connections ++ (c ∷ []) })

  -- What follows the search for the id.
  unfoldable pub add_unless : Connection → String → Option Connection → Eff (ConnState X) Connection
  unfolding conn_clock append_connection
  add_unless c id (some old) = throw (
      errorf "a connection for %s (%s) already exists"
        (str c.endpoint ∷ str (kind_text c.kind) ∷ []))
  add_unless c id none = do
    now ← conn_clock
    append_connection (registered c id now)
    pure (registered c id now)

  unfoldable pub add_connection : Connection → Eff (ConnState X) Connection
  unfolding check_new slugify find_connection add_unless
  add_connection c = do
    from_result (check_new c)
    let id = slugify (kind_text c.kind) c.endpoint
    found ← gets (λ s. find_connection id s.connections)
    add_unless c id found

  unfoldable pub remove_connection : String → Eff (ConnState X) Bool
  unfolding find_connection without_connection
  remove_connection id s =
      if is_present (find_connection id s.connections)
      then (ok true, record s { connections = without_connection id s.connections })
      else (ok false, s)

  unfoldable pub put_credentials : String → Login → Eff (ConnState X) (Unit {0})
  put_credentials id value = modify (λ s. record s { credentials = insert id value s.credentials })

  unfoldable pub delete_credentials : String → Eff (ConnState X) (Unit {0})
  delete_credentials id = modify (λ s. record s { credentials = erase id s.credentials })
