-- ===== src/Auth/Examples.antt =====
-- Two administrators, of whom one logs in and turns the other off.
use drishti_server_migration.Base.{
  ℕ, suc, ◌+◌, false, String, append, ltb, true, none, some, [], ◌∷◌, ok, err, ◌≡◌, refl, plain,
  ◌==◌, if◌then◌else◌, ◌⊎◌, arith, ◌>>=◌,
}
use drishti_server_migration.Base.Dict.{IsMap, lookup, insert}
use drishti_server_migration.Domain.{AuditEvent}
use drishti_server_migration.Access.{platform_admin, manage_users}
use drishti_server_migration.Auth.{UserRecord, Accounts, Security, session_user}
use drishti_server_migration.Auth.Users.{
  has_role, find_entry, count_where, write_event, store_user, deactivate_counted, deactivate_found,
  deactivate_user, find_user_by_username,
}
use drishti_server_migration.Auth.Admins.{IsStaffed}
use drishti_server_migration.Auth.Changes.{
  deactivation, password_changed, apply_changes, apply_changes-IsStaffed,
}
use drishti_server_migration.Auth.Sessions.{
  invalid_credentials, login, login_found, open_session, token, clock, lookup_session,
  invalidate_user_sessions,
}
use drishti_server_migration.Auth.Handlers.{
  deactivate_user_handler, deactivate_drawn, draw_event, new_identity,
}
use drishti_server_migration.Auth.Requests.{AuthRequest, answer, no_body, require}
use drishti_server_migration.Auth.Lifetimes.{login-lookup_session}
use drishti_server_migration.Auth.Guards.{require-guards, IsLetIn, IsTurnedAway}
use drishti_server_migration.Auth.Lockout.{is_held_by, deactivate_user_handler-locks_out}

-- The clock is the outside state, and the first token drawn is the session's.
abbrev security : Security ℕ
security = record {
  normalize_username = λ n. n;
  trim = λ n. n;
  is_hash = λ h. true;
  verifies = λ hash password. hash == password;
  hash_password = λ password t. (ok password, t);
  is_utf8 = λ text. true;
  byte_length = λ text. 12;
  runes = λ text. [];
  sort_records = λ us. us;
  token_key = λ raw. append "#" raw;
  random_token = λ t. (ok (if ltb t 1 then "raw" else "csrf"), suc t);
  now = λ t. (t, suc t);
  ttl = 10;
  audit = none;
}

abbrev admin : String → UserRecord
admin name = record {
  id = append "user-" name;
  username = name;
  name = name;
  roles = platform_admin ∷ [];
  active = true;
  password_hash = append "hash-" name;
  created_at = 0;
  updated_at = 0;
}

abbrev accounts : Accounts ℕ
accounts = record {
  users = ("ann", admin "ann") ∷ ("bob", admin "bob") ∷ [];
  sessions = [];
  ext = 0;
}

abbrev request : AuthRequest
request = record { method = "POST"; cookie = some "raw"; csrf_header = "csrf" }

abbrev logged_in : Accounts ℕ
logged_in = record accounts {
  sessions =
      ("#raw", record { user = session_user (admin "bob"); csrf_token = "csrf"; expires_at = 12 })
      ∷ [];
  ext = 3;
}

logged_in_lem :
    login security "bob" "hash-bob" accounts
    ≡ (ok ("raw", "csrf", session_user (admin "bob")), logged_in)
unfolding login login_found open_session token clock find_user_by_username insert lookup ◌>>=◌
logged_in_lem = refl

login-lookup_session_example :
    (u : UserRecord) × (t : ℕ) × (x : ℕ) × ((t ≡ x)
      × (logged_in.ext ≡ suc x)
      × (lookup "bob" accounts.users ≡ some u)
      × (u.active ≡ true)
      × ((u.password_hash == "hash-bob") ≡ true)
      × (session_user (admin "bob") ≡ session_user u)
      × ((lookup_session security "raw" logged_in).0
          ≡ ok (
              if ltb 3 (t + 10)
              then some (record { user = session_user u; csrf_token = "csrf"; expires_at = t + 10 })
              else none)))
login-lookup_session_example =
    login-lookup_session security "bob" "hash-bob" "raw" "csrf" (session_user (admin "bob"))
      accounts logged_in logged_in logged_in_lem refl

require-guards_example :
    let out = require security (some manage_users) request (λ u. answer 200 no_body) logged_in in
    IsLetIn security (some manage_users) request (λ u. answer 200 no_body) logged_in out
    ⊎ IsTurnedAway security request logged_in out
require-guards_example =
    require-guards security (some manage_users) request (λ u. answer 200 no_body) logged_in

answered :
    (deactivate_user_handler security
      (some (session_user (admin "ann")))
      "user-bob"
      logged_in).0.status
    ≡ 200
unfolding deactivate_user_handler deactivate_drawn draw_event new_identity token clock
    deactivate_user deactivate_found deactivate_counted find_entry count_where has_role write_event
    store_user insert invalidate_user_sessions ◌>>=◌
answered = refl

found_bob : find_entry "user-bob" logged_in.users ≡ some ("bob", admin "bob")
unfolding find_entry
found_bob = refl

distinct : IsMap accounts.users
unfolding lookup
distinct = (refl, (refl, tt))

deactivate_user_handler-locks_out_example :
    let b =
      (deactivate_user_handler security
        (some (session_user (admin "ann")))
        "user-bob"
        logged_in).1 in
    (login security "bob" "hash-bob" b ≡ (err invalid_credentials, b))
    × (is_held_by "user-bob" (lookup_session security "raw" b).0 ≡ false)
deactivate_user_handler-locks_out_example =
    deactivate_user_handler-locks_out security (some (session_user (admin "ann"))) "user-bob" "bob"
      "bob" "hash-bob" "raw" (admin "bob") logged_in distinct found_bob refl answered

staffed : IsStaffed accounts
unfolding count_where has_role
staffed = record { keys = distinct; admins = ground arith }

abbrev event : AuditEvent
event = record {
  id = "evt-1";
  timestamp = 1;
  actor = "user-ann";
  action = "user.deactivate";
  target = "user-bob";
  result = "deactivated";
  detail = plain "";
}

apply_changes-IsStaffed_example :
    IsStaffed
      (apply_changes security
        (deactivation "user-bob" "user-ann" event
          ∷ deactivation "user-ann" "user-bob" event
          ∷ password_changed "user-ann" "new" event
          ∷ [])
        accounts).1
apply_changes-IsStaffed_example =
    apply_changes-IsStaffed security
      (deactivation "user-bob" "user-ann" event
        ∷ deactivation "user-ann" "user-bob" event
        ∷ password_changed "user-ann" "new" event
        ∷ [])
      accounts staffed
