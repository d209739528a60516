-- ===== src/Auth/Handlers.antt =====
-- User administration: the handlers of backend/internal/auth/user_handlers.go. A body that does not
-- decode is `none`; the user in the request's context is an argument.
use drishti_server_migration.Base.{
  ℕ, String, append, Bool, true, false, not, ◌&&◌, ◌||◌, Option, none, some, List, [], ◌∷◌, all,
  map, Error, errorf, wrap, sprintf, str, plain, Eff, pure, on_part, ◌>>=◌, ltb, leb, ◌==◌,
  if◌then◌else◌,
}
use drishti_server_migration.Base.Dict.{values}
use drishti_server_migration.Domain.{AuditEvent, Time}
use drishti_server_migration.Access.{Role, User}
use drishti_server_migration.Auth.{UserRecord, Accounts, Security, public_user}
use drishti_server_migration.Auth.Users.{
  role_name, valid_roles, create_user, deactivate_user, update_password, find_user_by_id,
}
use drishti_server_migration.Auth.Sessions.{clock, token, invalidate_user_sessions}
use drishti_server_migration.Auth.Requests.{
  no_body, users_body, user_body, cleared, Handler, answer, refuse, handle,
}

pub record CreateUserRequest : Type 0 where
  pub username : String
  pub roles : List Role
  pub password : String

-- `strings.Join(names, ", ")`
abbrev pub role_names : List Role → String
role_names [] = ""
role_names (r ∷ []) = role_name r
role_names (r ∷ rs) = append (role_name r) (append ", " (role_names rs))

-- `Actor(ctx)`
abbrev pub actor_of : Option User → String
actor_of none = "unauthenticated"
actor_of (some user) = user.id

-- a-z, 0-9, and the three marks
abbrev pub is_username_char : ℕ → Bool
is_username_char c =
    (leb 97 c && leb c 122)
    || ((leb 48 c && leb c 57)
        || (leb c 46 && leb 46 c || (leb c 95 && leb 95 c || leb c 45 && leb 45 c)))

-- `errors.Is` with one of the sentinel errors of the user store, by its text
abbrev pub is_error : String → Error → Bool
is_error text (errorf t args) = t == text
is_error text (wrap t args e) = is_error text e
is_error text _ = false

module _ {X : Type 0} (s : Security X) where
  unfoldable pub valid_username : String → Bool
  valid_username value =
      let name = s.normalize_username value in
      if ltb (s.byte_length name) 3 || ltb 64 (s.byte_length name)
      then false
      else all is_username_char (s.runes name)

  unfoldable pub valid_password : String → Bool
  valid_password password =
      s.is_utf8 password && not (ltb (s.byte_length password) 12 || ltb 72 (s.byte_length password))

  unfoldable pub valid_create : CreateUserRequest → Bool
  unfolding valid_username valid_password valid_roles
  valid_create input =
      valid_username input.username && (valid_roles input.roles && valid_password input.password)

  unfoldable pub new_identity : String → Eff (Accounts X) String
  unfolding token
  new_identity prefix = do value ← token s; pure (append prefix value)

  unfoldable pub hashed : String → Eff (Accounts X) String
  unfolding on_part
  hashed password = on_part (λ a. a.ext) (λ x a. record a { ext = x }) (s.hash_password password)

  unfoldable pub list_users_handler : Handler X
  list_users_handler a =
      answer 200 (users_body (map public_user (s.sort_records (values a.users)))) a

  abbrev new_record : CreateUserRequest → String → String → Time → UserRecord
  new_record input hash id now =
      let name = s.normalize_username input.username in
      record {
        id = id;
        username = name;
        name = name;
        roles = input.roles;
        active = true;
        password_hash = hash;
        created_at = now;
        updated_at = now;
      }

  abbrev create_events :
      CreateUserRequest → String → String → String → String → Time → List AuditEvent
  create_events input actor id create_id roles_id now =
      record {
        id = create_id;
        timestamp = now;
        actor = actor;
        action = "user.create";
        target = id;
        result = "created";
        detail = sprintf "Created user %s." (str (s.normalize_username input.username) ∷ []);
      }
      ∷ record {
        id = roles_id;
        timestamp = now;
        actor = actor;
        action = "user.roles.assign";
        target = id;
        result = "assigned";
        detail = sprintf "Assigned roles: %s." (str (role_names input.roles) ∷ []);
      }
      ∷ []

  -- The hash, the three ids and the time of a new user; any error answers 500.
  unfoldable pub draw_identity :
      String → Eff (Accounts X) (String × String × String × String × Time)
  unfolding hashed new_identity clock
  draw_identity password = do
    hash ← hashed password
    id ← new_identity "user-"
    create_id ← new_identity "evt-"
    roles_id ← new_identity "evt-"
    now ← clock s
    pure (hash, id, create_id, roles_id, now)

  abbrev creation_failed : Error → Handler X
  creation_failed e =
      if is_error "username already exists" e
      then refuse 409 "username already exists" "conflict"
      else refuse 503 "user store unavailable" "store_unavailable"

  unfoldable pub create_drawn :
      Option User → CreateUserRequest → (String × String × String × String × Time) → Handler X
  unfolding create_user
  create_drawn ctx input (hash, id, create_id, roles_id, now) =
      let user = new_record input hash id now in
      let events = create_events input (actor_of ctx) id create_id roles_id now in
      handle (create_user s user events) creation_failed
        λ _. answer 201 (user_body (public_user user))

  unfoldable pub create_user_handler : Option User → Option CreateUserRequest → Handler X
  unfolding valid_create draw_identity create_drawn
  create_user_handler ctx none = refuse 400 "invalid request" ""
  create_user_handler ctx (some input) =
      if valid_create input
      then handle (draw_identity input.password) (λ _. refuse 500 "user creation failed" "")
          (create_drawn ctx input)
      else refuse 400 "invalid request" ""

  abbrev deactivation_event : String → String → String → Time → AuditEvent
  deactivation_event event_id actor target now = record {
    id = event_id;
    timestamp = now;
    actor = actor;
    action = "user.deactivate";
    target = target;
    result = "deactivated";
    detail = plain "User login disabled and active sessions invalidated.";
  }

  abbrev pub error_text : Error → String
  error_text (errorf t args) = t
  error_text (wrap t args e) = error_text e
  error_text _ = ""

  abbrev pub deactivation_failed : Error → Handler X
  deactivation_failed e =
      if is_error "user not found" e
      then refuse 404 "user not found" "not_found"
      else if is_error "administrators cannot deactivate themselves" e
          || is_error "the last active platform administrator cannot be deactivated" e
      then refuse 409 (error_text e) "protected_admin"
      else refuse 503 "user store unavailable" "store_unavailable"

  -- An id for the event, and its time.
  unfoldable pub draw_event : Eff (Accounts X) (String × Time)
  unfolding new_identity clock
  draw_event = do event_id ← new_identity "evt-"; now ← clock s; pure (event_id, now)

  unfoldable pub deactivate_drawn : Option User → String → (String × Time) → Handler X
  unfolding deactivate_user invalidate_user_sessions
  deactivate_drawn ctx target (event_id, now) =
      let event = deactivation_event event_id (actor_of ctx) target now in
      handle (deactivate_user s target (actor_of ctx) event) deactivation_failed λ u.
        handle (invalidate_user_sessions s u.id) deactivation_failed
          λ _. answer 200 (user_body (public_user u))

  unfoldable pub deactivate_user_handler : Option User → String → Handler X
  unfolding draw_event deactivate_drawn
  deactivate_user_handler ctx path_id =
      handle draw_event (λ _. refuse 500 "user deactivation failed" "")
        (deactivate_drawn ctx (s.trim path_id))

  abbrev password_event : String → String → Time → AuditEvent
  password_event event_id user now = record {
    id = event_id;
    timestamp = now;
    actor = user;
    action = "user.password_change";
    target = user;
    result = "changed";
    detail = plain "Password changed; active sessions invalidated.";
  }

  abbrev store_unavailable : Error → Handler X
  store_unavailable e = refuse 503 "user store unavailable" "store_unavailable"

  -- The new hash, with the id and the time of the event.
  unfoldable pub draw_password : String → Eff (Accounts X) (String × String × Time)
  unfolding hashed draw_event
  draw_password new_password = do
    hash ← hashed new_password
    drawn ← draw_event
    pure (hash, drawn.0, drawn.1)

  unfoldable pub change_drawn : String → (String × String × Time) → Handler X
  unfolding update_password invalidate_user_sessions
  change_drawn id (hash, event_id, now) =
      handle (update_password s id hash (password_event event_id id now)) store_unavailable λ _.
        handle (invalidate_user_sessions s id) store_unavailable
          λ _ a. (record { status = 204; body = no_body; cookie = cleared }, a)

  unfoldable pub change_found : String → String → String → Option UserRecord → Handler X
  unfolding draw_password change_drawn
  change_found id current new none = refuse 401 "invalid credentials" ""
  change_found id current new (some u) =
      if not u.active || not (s.verifies u.password_hash current)
      then refuse 401 "invalid credentials" ""
      else handle (draw_password new) (λ _. refuse 500 "password change failed" "")
          (change_drawn id)

  abbrev change_for : Option User → String → String → Handler X
  change_for none current new = refuse 401 "invalid credentials" ""
  change_for (some user) current new =
      handle (find_user_by_id s user.id) store_unavailable (change_found user.id current new)

  unfoldable pub change_password_handler : Option User → Option (String × String) → Handler X
  unfolding change_found find_user_by_id valid_password
  change_password_handler ctx none = refuse 400 "invalid request" ""
  change_password_handler ctx (some (current, new)) =
      if valid_password new then change_for ctx current new else refuse 400 "invalid request" ""
