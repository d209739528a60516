-- ===== src/Auth/Users.antt =====
-- `MemoryUserStore` of backend/internal/auth/memory_user_store.go, with the checks of a record of
-- backend/internal/auth/user_store.go. A loop over the map takes its entries in the map's order.
use drishti_server_migration.Base.{
  ℕ, ◌+◌, String, Bool, true, false, not, ◌&&◌, ◌||◌, Option, none, some, List, [], ◌∷◌, any,
  is_empty, Error, new_error, Result, ok, err, Eff, pure, throw, gets, modify, on_part, ◌>>=◌, ◌>>◌,
  leb, ◌==◌, if◌then◌else◌,
}
use drishti_server_migration.Base.Dict.{Dict, lookup, insert}
use drishti_server_migration.Domain.{AuditEvent, Time}
use drishti_server_migration.Access.{
  Role, viewer, planner, operator, approver, platform_admin, auditor, unknown_role,
}
use drishti_server_migration.Auth.{UserRecord, Credential, Accounts, Security}

abbrev pub user_not_found : Error
user_not_found = new_error "user not found"

abbrev pub username_exists : Error
username_exists = new_error "username already exists"

abbrev pub self_deactivate : Error
self_deactivate = new_error "administrators cannot deactivate themselves"

abbrev pub last_platform_admin : Error
last_platform_admin = new_error "the last active platform administrator cannot be deactivated"

abbrev pub invalid_user : Error
invalid_user = new_error "invalid user"

abbrev pub role_name : Role → String
role_name viewer = "viewer"
role_name planner = "planner"
role_name operator = "operator"
role_name approver = "approver"
role_name platform_admin = "platform_admin"
role_name auditor = "auditor"
role_name (unknown_role name) = name

abbrev pub valid_role : Role → Bool
valid_role (unknown_role name) = false
valid_role _ = true

unfoldable pub has_role : Role → List Role → Bool
has_role wanted roles = any (λ r. role_name r == role_name wanted) roles

-- The loop of `validateRoles`, with the roles seen so far.
unfoldable pub roles_from : List Role → List Role → Bool
unfolding has_role
roles_from seen [] = true
roles_from seen (r ∷ rs) =
    let rest = roles_from (r ∷ seen) rs in
    if not (valid_role r) || has_role r seen then false else rest

unfoldable pub valid_roles : List Role → Bool
unfolding roles_from
valid_roles roles = not (is_empty roles) && roles_from [] roles

-- `FindUserByID` and the loops that search a user by id: the first entry with the id.
unfoldable pub find_entry : String → Dict UserRecord → Option (String × UserRecord)
find_entry id [] = none
find_entry id ((name, u) ∷ users) =
    let rest = find_entry id users in if u.id == id then some (name, u) else rest

abbrev pub is_active_admin : UserRecord → Bool
is_active_admin u = u.active && has_role platform_admin u.roles

unfoldable pub count_where : (UserRecord → Bool) → Dict UserRecord → ℕ
count_where p [] = 0
count_where p ((name, u) ∷ users) = (if p u then 1 else 0) + count_where p users

module _ {X : Type 0} (s : Security X) where
  abbrev pub or_username : String → String → String
  or_username username name = if name == "" then username else name

  -- `RecordsFromCredentials`, one record
  abbrev pub record_from : Credential → Time → UserRecord
  record_from c now = record {
    id = s.trim c.id;
    username = s.normalize_username c.username;
    name = or_username (s.normalize_username c.username) (s.trim c.name);
    roles = c.roles;
    active = true;
    password_hash = c.password_hash;
    created_at = now;
    updated_at = now;
  }

  unfoldable pub valid_user : UserRecord → Bool
  unfolding valid_roles
  valid_user u =
      not (s.trim u.id == "" || (s.normalize_username u.username == "" || s.trim u.name == ""))
      && (valid_roles u.roles && s.is_hash u.password_hash)

  unfoldable pub records_each : List Credential → Time → Result (List UserRecord)
  unfolding valid_user
  records_each [] now = ok []
  records_each (c ∷ cs) now =
      let rest = records_each cs now in
      if not (valid_user (record_from c now))
      then err invalid_user
      else elim rest [ err e ↦ err e | ok us ↦ ok (record_from c now ∷ us) ]

  unfoldable pub records_from_credentials : List Credential → Time → Result (List UserRecord)
  unfolding records_each
  records_from_credentials cs now = if is_empty cs then err invalid_user else records_each cs now

  -- `s.audit(ctx, event)` where there is a writer.
  unfoldable pub write_event : AuditEvent → Eff (Accounts X) (Unit {0})
  unfolding on_part
  write_event event = elim s.audit [
    | none ↦ pure tt
    | some write ↦ on_part (λ a. a.ext) (λ x a. record a { ext = x }) (write event)
  ]

  unfoldable pub write_events : List AuditEvent → Eff (Accounts X) (Unit {0})
  write_events [] = pure tt
  write_events (e ∷ es) = write_event e >> write_events es

  unfoldable pub store_user : String → UserRecord → Eff (Accounts X) (Unit {0})
  unfolding modify
  store_user name u = modify (λ a. record a { users = insert name u a.users })

  -- The loop of `BootstrapUsers`; what it stored before an error stays.
  unfoldable pub bootstrap_each : List UserRecord → Eff (Accounts X) Bool
  unfolding store_user
  bootstrap_each [] = pure true
  bootstrap_each (u ∷ us) = do
    let name = s.normalize_username u.username
    found ← gets (λ a. lookup name a.users)
    if not (valid_user u) then throw invalid_user else elim found [
      | some old ↦ throw username_exists
      | none ↦ store_user name (record u { username = name }) >> bootstrap_each us
    ]

  unfoldable pub bootstrap_users : List UserRecord → Eff (Accounts X) Bool
  unfolding bootstrap_each
  bootstrap_users us = do
    users ← gets (λ a. a.users)
    if is_empty users then bootstrap_each us else pure false

  unfoldable pub find_user_by_username : String → Eff (Accounts X) (Option UserRecord)
  find_user_by_username username = gets (λ a. lookup (s.normalize_username username) a.users)

  abbrev record_of : Option (String × UserRecord) → Option UserRecord
  record_of none = none
  record_of (some (name, u)) = some u

  unfoldable pub find_user_by_id : String → Eff (Accounts X) (Option UserRecord)
  unfolding find_entry
  find_user_by_id id = gets (λ a. record_of (find_entry id a.users))

  -- What follows the search of the name.
  unfoldable pub create_named :
      UserRecord → List AuditEvent → Option UserRecord → Eff (Accounts X) (Unit {0})
  unfolding write_events store_user
  create_named u events (some old) = throw username_exists
  create_named u events none =
      let name = s.normalize_username u.username in
      write_events events >> store_user name (record u { username = name })

  unfoldable pub create_user : UserRecord → List AuditEvent → Eff (Accounts X) (Unit {0})
  unfolding create_named
  create_user u events =
      if valid_user u
      then (gets (λ a. lookup (s.normalize_username u.username) a.users) >>= create_named u events)
      else throw invalid_user

  abbrev pub deactivated : AuditEvent → UserRecord → UserRecord
  deactivated event u = record u { active = false; updated_at = event.timestamp }

  -- An active target, with the number of active administrators.
  unfoldable pub deactivate_counted :
      String → AuditEvent → String → UserRecord → ℕ → Eff (Accounts X) UserRecord
  unfolding write_event store_user
  deactivate_counted actor event name target admins =
      if target.id == actor
      then throw self_deactivate
      else if is_active_admin target && leb admins 1
      then throw last_platform_admin
      else if not target.active
      then pure target
      else (write_event event
          >> store_user name (deactivated event target)
          >> pure (deactivated event target))

  unfoldable pub deactivate_found :
      String → AuditEvent → Option (String × UserRecord) → ℕ → Eff (Accounts X) UserRecord
  unfolding deactivate_counted
  deactivate_found actor event none admins = throw user_not_found
  deactivate_found actor event (some (name, target)) admins =
      if name == "" then throw user_not_found else deactivate_counted actor event name target admins

  unfoldable pub deactivate_user : String → String → AuditEvent → Eff (Accounts X) UserRecord
  unfolding deactivate_found find_entry
  deactivate_user id actor event = do
    users ← gets (λ a. a.users)
    deactivate_found actor event (find_entry id users) (count_where is_active_admin users)

  unfoldable pub update_stored :
      String → AuditEvent → Option (String × UserRecord) → Eff (Accounts X) (Unit {0})
  unfolding write_event store_user
  update_stored hash event none = throw user_not_found
  update_stored hash event (some (name, u)) =
      write_event event
      >> store_user name (record u { password_hash = hash; updated_at = event.timestamp })

  unfoldable pub update_password : String → String → AuditEvent → Eff (Accounts X) (Unit {0})
  unfolding update_stored find_entry
  update_password id hash event = gets (λ a. find_entry id a.users) >>= update_stored hash event
