-- ===== src/Auth/Lifetimes.antt =====
-- The life of a session: what a login opens, and what a request with its token meets.
use drishti_server_migration.Base.{
  ◌+◌, ◌<◌, String, true, ◌&&◌, Option, none, some, ok, pure, throw, gets, modify, with_error,
  ◌>>=◌, ◌>>◌, ltb, if◌then◌else◌, ◌≡◌, ◌∙◌, ap, refl, arith, Bool-cases, inl, inr,
}
use drishti_server_migration.Base.Dict.{lookup, insert, lookup-insert_self}
use drishti_server_migration.Base.Triples.{Triple, triple_bind, Ensures-later, returned}
use drishti_server_migration.Domain.{Time}
use drishti_server_migration.Access.{User}
use drishti_server_migration.Auth.{UserRecord, Session, Accounts, Security, session_user}
use drishti_server_migration.Auth.Users.{find_user_by_username}
use drishti_server_migration.Auth.Sessions.{
  forget, clock, login_session, open_session, login_found, login, check_expiry, lookup_session,
}

module _ {X : Type 0} (s : Security X) where
  -- The session is stored under the hash of the token, and the clock is before its expiry.
  abbrev pub IsLive : String → Session → Accounts X → Type 0
  IsLive raw sess a =
      (lookup (s.token_key raw) a.sessions ≡ some sess) × ((s.now a.ext).0 < sess.expires_at)

  check_expiry-is_live :
      (key : String) (o : Option Session) (sess : Session) (a : Accounts X)
      → (check_expiry s key o a).0 ≡ ok (some sess)
      → (o ≡ some sess) × ((s.now a.ext).0 < sess.expires_at)
  unfolding check_expiry clock ◌>>=◌ pure throw
  check_expiry-is_live key none sess a h = ground (arith, h)
  check_expiry-is_live key (some old) sess a h = ground (arith, h)

  pub lookup_session-IsLive :
      (raw : String) (sess : Session) (a : Accounts X)
      → (lookup_session s raw a).0 ≡ ok (some sess)
      → IsLive raw sess a
  unfolding lookup_session ◌>>=◌ gets
  lookup_session-IsLive raw sess a h =
      check_expiry-is_live (s.token_key raw) (lookup (s.token_key raw) a.sessions) sess a h

  -- What a login that returned has checked and stored.
  pub record IsLogin (username password raw csrf : String) (user : User) (a a' : Accounts X)
      : Type 0 where
    pub account : UserRecord
    pub opened : Time
    pub outside : X
    pub read : opened ≡ (s.now outside).0
    pub left : a'.ext ≡ (s.now outside).1
    pub found : lookup (s.normalize_username username) a.users ≡ some account
    pub active : account.active ≡ true
    pub verified : s.verifies account.password_hash password ≡ true
    pub identity : user ≡ session_user account
    pub stored : lookup (s.token_key raw) a'.sessions ≡ some (login_session s account csrf opened)

  abbrev IsOpened : UserRecord → (String × String × User) → Accounts X → Type 0
  IsOpened u (raw, csrf, user) a =
      (user ≡ session_user u)
      × ((t : Time) × (x : X) × ((t ≡ (s.now x).0)
            × (a.ext ≡ (s.now x).1)
            × (lookup (s.token_key raw) a.sessions ≡ some (login_session s u csrf t))))

  store-IsOpened :
      (u : UserRecord) (raw csrf : String) (t : Time)
      → Triple
          (λ a. (x : X) × ((t ≡ (s.now x).0) × (a.ext ≡ (s.now x).1)))
          (modify (λ a. record a {
            sessions = insert (s.token_key raw) (login_session s u csrf t) a.sessions;
          })
            >> pure (raw, csrf, session_user u))
          (IsOpened u)
          (λ _. Unit)
  unfolding modify pure ◌>>=◌
  store-IsOpened u raw csrf t = record {
    at = λ a h.
        let (x, (read, left)) = h in
        (
          refl,
          (
            t,
            x,
            (
              read,
              left,
              lookup-insert_self (s.token_key raw) (login_session s u csrf t) a.sessions,
            ),
          ),
        );
  }

  clock-reads :
      Triple
        (λ _. Unit)
        (clock s)
        (λ t a. (x : X) × ((t ≡ (s.now x).0) × (a.ext ≡ (s.now x).1)))
        (λ _. Unit)
  unfolding clock
  clock-reads = record { at = λ a h. (a.ext, (refl, refl)) }

  open_session-opens :
      (u : UserRecord) → Triple (λ _. Unit) (open_session s u) (IsOpened u) (λ _. Unit)
  unfolding open_session
  open_session-opens u =
      Ensures-later _ _ λ raw.
        Ensures-later _ _ λ csrf. triple_bind _ _ clock-reads λ t. store-IsOpened u raw csrf t

  login_found-IsLogin :
      (username password raw csrf : String) (user : User) (o : Option UserRecord)
      (a a' : Accounts X)
      → lookup (s.normalize_username username) a.users ≡ o
      → login_found s password o a ≡ (ok (raw, csrf, user), a')
      → IsLogin username password raw csrf user a a'
  unfolding login_found throw
  login_found-IsLogin username password raw csrf user none a a' found h = ground (arith, h)
  login_found-IsLogin username password raw csrf user (some u) a a' found h =
      elim (Bool-cases (u.active && s.verifies u.password_hash password)) [
        | inl good ↦
            let ran : open_session s u a ≡ (ok (raw, csrf, user), a') = ground (arith, h, good) in
            let (identity, (t, x, (read, left, stored))) = returned (open_session-opens u) tt ran in
            record {
              account = u;
              opened = t;
              outside = x;
              read = read;
              left = left;
              found = found;
              active = ground (arith, good);
              verified = ground (arith, good);
              identity = identity;
              stored = stored;
            }
        | inr bad ↦ ground (arith, h, bad)
      ]

  -- A login that returns was made by an active account with that name and password, and stores a
  -- session of its identity that expires a session's lifetime after it was opened.
  login-IsLogin :
      (username password raw csrf : String) (user : User) (a a' : Accounts X)
      → login s username password a ≡ (ok (raw, csrf, user), a')
      → IsLogin username password raw csrf user a a'
  unfolding login find_user_by_username with_error gets ◌>>=◌
  login-IsLogin username password raw csrf user a a' h =
      login_found-IsLogin username password raw csrf user _ a a' refl h

  check_expiry-decides :
      (key : String) (sess : Session) (b : Accounts X)
      → (check_expiry s key (some sess) b).0
        ≡ ok (if ltb (s.now b.ext).0 sess.expires_at then some sess else none)
  unfolding check_expiry clock ◌>>=◌ pure modify forget
  check_expiry-decides key sess b = ground arith

  lookup_session-decides :
      (raw : String) (sess : Session) (b : Accounts X)
      → lookup (s.token_key raw) b.sessions ≡ some sess
      → (lookup_session s raw b).0
        ≡ ok (if ltb (s.now b.ext).0 sess.expires_at then some sess else none)
  unfolding lookup_session gets ◌>>=◌
  lookup_session-decides raw sess b h = rw h (check_expiry-decides (s.token_key raw) sess b)

  -- The token of a login, looked up while the stored sessions are those the login left, gives the
  -- session of the account that logged in, with the CSRF token of the login, until a session's lifetime
  -- after the time of the login, and nothing from then on. The time of the login is its last reading of
  -- the clock, after which nothing outside changed.
  pub login-lookup_session :
      (username password raw csrf : String) (user : User) (a a' b : Accounts X)
      → login s username password a ≡ (ok (raw, csrf, user), a')
      → b.sessions ≡ a'.sessions
      → (u : UserRecord) × (t : Time) × (x : X) × ((t ≡ (s.now x).0)
          × (a'.ext ≡ (s.now x).1)
          × (lookup (s.normalize_username username) a.users ≡ some u)
          × (u.active ≡ true)
          × (s.verifies u.password_hash password ≡ true)
          × (user ≡ session_user u)
          × ((lookup_session s raw b).0
              ≡ ok (
                  if ltb (s.now b.ext).0 (t + s.ttl)
                  then some
                      (record { user = session_user u; csrf_token = csrf; expires_at = t + s.ttl })
                  else none)))
  login-lookup_session username password raw csrf user a a' b h same =
      let r : IsLogin username password raw csrf user a a' =
        login-IsLogin username password raw csrf user a a' h in
      (
        r.account,
        r.opened,
        r.outside,
        (
          r.read,
          r.left,
          r.found,
          r.active,
          r.verified,
          r.identity,
          lookup_session-decides raw _ b (ap (lookup (s.token_key raw)) same ∙ r.stored),
        ),
      )
