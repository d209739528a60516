-- ===== src/Auth/Sessions.antt =====
-- Logins and server-side sessions: `Login`, `lookup`, `delete`, `invalidateUserSessions` and
-- `authenticate` of backend/internal/auth/service.go. Only a hash of a session's token is stored. The
-- comparison with a fixed hash for a missing user, which is for its time only, is left out.
use drishti_server_migration.Base.{
  String, not, ◌&&◌, Option, none, some, [], ◌∷◌, Error, new_error, wrap, ok, Eff, pure, throw,
  gets, modify, with_error, on_part, ◌>>=◌, ◌>>◌, ltb, ◌+◌, ◌==◌, if◌then◌else◌,
}
use drishti_server_migration.Base.Dict.{Dict, lookup, insert, erase}
use drishti_server_migration.Domain.{Time}
use drishti_server_migration.Access.{User}
use drishti_server_migration.Auth.{UserRecord, Session, Accounts, Security, session_user}
use drishti_server_migration.Auth.Users.{find_user_by_username}

abbrev pub invalid_credentials : Error
invalid_credentials = new_error "invalid credentials"

-- `for key, sess := range s.sessions { if sess.User.ID == id { delete(...) } }`
unfoldable pub without_user : String → Dict Session → Dict Session
without_user id [] = []
without_user id ((key, sess) ∷ rest) =
    let others = without_user id rest in if sess.user.id == id then others else (key, sess) ∷ others

module _ {X : Type 0} (s : Security X) where
  unfoldable pub clock : Eff (Accounts X) Time
  clock a = let (t, x) = s.now a.ext in (ok t, record a { ext = x })

  unfoldable pub token : Eff (Accounts X) String
  unfolding on_part
  token = on_part (λ a. a.ext) (λ x a. record a { ext = x }) s.random_token

  abbrev pub login_session : UserRecord → String → Time → Session
  login_session u csrf t = record {
    user = session_user u;
    csrf_token = csrf;
    expires_at = t + s.ttl;
  }

  -- What follows the password check.
  unfoldable pub open_session : UserRecord → Eff (Accounts X) (String × String × User)
  unfolding token clock with_error modify
  open_session u = do
    raw ← with_error (wrap "generate session token: %w" []) token
    csrf ← with_error (wrap "generate CSRF token: %w" []) token
    t ← clock
    let opened = login_session u csrf t
    modify (λ a. record a { sessions = insert (s.token_key raw) opened a.sessions })
    pure (raw, csrf, session_user u)

  unfoldable pub login_found :
      String → Option UserRecord → Eff (Accounts X) (String × String × User)
  unfolding open_session
  login_found password none = throw invalid_credentials
  login_found password (some u) =
      if u.active && s.verifies u.password_hash password
      then open_session u
      else throw invalid_credentials

  unfoldable pub login : String → String → Eff (Accounts X) (String × String × User)
  unfolding login_found find_user_by_username
  login username password =
      with_error (wrap "lookup user: %w" []) (find_user_by_username s username)
      >>= login_found password

  unfoldable pub forget : String → Eff (Accounts X) (Unit {0})
  unfolding modify
  forget key = modify (λ a. record a { sessions = erase key a.sessions })

  -- A session that was found is checked against the clock, and deleted when it has expired.
  unfoldable pub check_expiry : String → Option Session → Eff (Accounts X) (Option Session)
  unfolding clock forget
  check_expiry key none = pure none
  check_expiry key (some sess) = do
    t ← clock
    if not (ltb t sess.expires_at) then forget key >> pure none else pure (some sess)

  unfoldable pub lookup_session : String → Eff (Accounts X) (Option Session)
  unfolding check_expiry
  lookup_session raw =
      gets (λ a. lookup (s.token_key raw) a.sessions) >>= check_expiry (s.token_key raw)

  unfoldable pub delete_session : String → Eff (Accounts X) (Unit {0})
  unfolding forget
  delete_session raw = forget (s.token_key raw)

  unfoldable pub invalidate_user_sessions : String → Eff (Accounts X) (Unit {0})
  unfolding modify without_user
  invalidate_user_sessions id = modify (λ a. record a { sessions = without_user id a.sessions })

  -- The session of a request, by its cookie.
  unfoldable pub authenticate : Option String → Eff (Accounts X) (Option Session)
  unfolding lookup_session
  authenticate none = pure none
  authenticate (some raw) = if raw == "" then pure none else lookup_session raw
