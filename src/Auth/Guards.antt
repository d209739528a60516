-- ===== src/Auth/Guards.antt =====
-- What stands between a request and its handler: a live session, the CSRF token and a permission.
use drishti_server_migration.Base.{
  ◌<◌, ◌≤◌, ap, ◌∙◌, String, true, false, not, ◌&&◌, Option, none, some, Result, ok, pure, gets,
  modify, ◌>>=◌, ltb, ◌==◌, eq_iff, ◌≡◌, ◌⊎◌, refl, arith, Bool-cases, inl, inr,
}
use drishti_server_migration.Base.Dict.{lookup, erase}
use drishti_server_migration.Access.{Action, User, can}
use drishti_server_migration.Auth.{Session, Accounts, Security}
use drishti_server_migration.Auth.Sessions.{
  clock, forget, check_expiry, lookup_session, authenticate,
}
use drishti_server_migration.Auth.Lifetimes.{IsLive}
use drishti_server_migration.Auth.Requests.{
  AuthReply, AuthRequest, Handler, is_safe_method, permitted, by_session, unauthorized,
  check_request, require,
}

module _ {X : Type 0} (s : Security X) where
  -- The users are as they were, and the sessions too, or one that `D` describes, with its key, has been
  -- deleted.
  abbrev pub IsKept : (String → Session → Type 0) → Accounts X → Accounts X → Type 0
  IsKept D a b =
      (b.users ≡ a.users)
      × ((b.sessions ≡ a.sessions)
          ⊎ ((key : String) × (sess : Session) × (D key sess
                × (b.sessions ≡ erase key a.sessions))))

  -- Either no session, or one that `P` describes, with users and sessions as they were.
  abbrev IsLookup :
      (Session → Type 0)
      → (String → Session → Type 0)
      → Accounts X
      → Result (Option Session) × Accounts X
      → Type 0
  IsLookup P D a (r, b) =
      ((r ≡ ok none) × IsKept D a b)
      ⊎ ((sess : Session) × ((r ≡ ok (some sess))
            × P sess
            × (b.users ≡ a.users)
            × (b.sessions ≡ a.sessions)))

  -- The session that the cookie names is stored under that key, and the clock has reached its expiry.
  abbrev pub IsOver : Option String → Accounts X → String → Session → Type 0
  IsOver cookie a key sess =
      (raw : String) × ((cookie ≡ some raw)
        × (key ≡ s.token_key raw)
        × (lookup key a.sessions ≡ some sess)
        × (sess.expires_at ≤ (s.now a.ext).0))

  expired :
      (key : String) (sess : Session) (a : Accounts X)
      → ltb (s.now a.ext).0 sess.expires_at ≡ false
      → ((check_expiry s key (some sess) a).0 ≡ ok none)
        × (((check_expiry s key (some sess) a).1.users ≡ a.users)
            × ((check_expiry s key (some sess) a).1.sessions ≡ erase key a.sessions))
  unfolding check_expiry clock forget ◌>>=◌ pure modify
  expired key sess a late = ground (arith, late)

  unexpired :
      (key : String) (sess : Session) (a : Accounts X)
      → ltb (s.now a.ext).0 sess.expires_at ≡ true
      → ((check_expiry s key (some sess) a).0 ≡ ok (some sess))
        × (((check_expiry s key (some sess) a).1.users ≡ a.users)
            × ((check_expiry s key (some sess) a).1.sessions ≡ a.sessions))
  unfolding check_expiry clock forget ◌>>=◌ pure modify
  unexpired key sess a soon = ground (arith, soon)

  check_expiry-IsLookup :
      (key : String) (o : Option Session) (a : Accounts X)
      → IsLookup
          (λ sess. (o ≡ some sess) × ((s.now a.ext).0 < sess.expires_at))
          (λ k sess. (k ≡ key) × (o ≡ some sess) × (sess.expires_at ≤ (s.now a.ext).0))
          a
          (check_expiry s key o a)
  unfolding check_expiry pure
  check_expiry-IsLookup key none a = inl (refl, (refl, inl refl))
  check_expiry-IsLookup key (some sess) a =
      elim (Bool-cases (ltb (s.now a.ext).0 sess.expires_at)) [
        | inl soon ↦
            let (r, (u, t)) = unexpired key sess a soon in
            inr (sess, (r, (refl, ground (arith, soon)), u, t))
        | inr late ↦
            let (r, (u, t)) = expired key sess a late in
            inl (r, (u, inr (key, sess, ((refl, refl, ground (arith, late)), t))))
      ]

  authenticate-IsLookup :
      (cookie : Option String) (a : Accounts X)
      → IsLookup
          (λ sess. (raw : String) × ((cookie ≡ some raw) × IsLive s raw sess a))
          (IsOver cookie a)
          a
          (authenticate s cookie a)
  unfolding authenticate lookup_session pure gets ◌>>=◌
  authenticate-IsLookup none a = inl (refl, (refl, inl refl))
  authenticate-IsLookup (some raw) a = elim (Bool-cases (raw == "")) [
    | inl empty ↦ rw empty (inl (refl, (refl, inl refl)))
    | inr given ↦
        rw given
          (elim (check_expiry-IsLookup (s.token_key raw) (lookup (s.token_key raw) a.sessions) a) [
            | inl (r, (u, inl same)) ↦ inl (r, (u, inl same))
            | inl (r, (u, inr (key, sess, ((k, stored, late), t)))) ↦ inl (
              r,
              (
                u,
                inr (
                  key,
                  sess,
                  ((raw, (refl, k, ap (λ k. lookup k a.sessions) k ∙ stored, late)), t),
                ),
              ),
            )
            | inr (sess, (r, live, u, t)) ↦ inr (sess, (r, (raw, (refl, live)), u, t))
          ])
  ]

  -- The request has what its handler needs, and the handler answers it.
  pub record IsLetIn (action : Option Action) (req : AuthRequest) (next : User → Handler X)
      (a : Accounts X) (out : AuthReply × Accounts X) : Type 0 where
    pub raw : String
    pub sess : Session
    pub after : Accounts X
    pub cookie : req.cookie ≡ some raw
    pub live : IsLive s raw sess a
    pub csrf :
        (req.method ≡ "GET")
        ⊎ (req.method ≡ "HEAD")
        ⊎ (req.method ≡ "OPTIONS")
        ⊎ (req.csrf_header ≡ sess.csrf_token)
    pub permission :
        (action ≡ none) ⊎ ((act : Action) × ((action ≡ some act) × (can sess.user act ≡ true)))
    pub users : after.users ≡ a.users
    pub sessions : after.sessions ≡ a.sessions
    pub runs : out ≡ next sess.user after

  -- The request is refused, and at most the expired session of its cookie is deleted.
  pub record IsTurnedAway (req : AuthRequest) (a : Accounts X) (out : AuthReply × Accounts X)
      : Type 0 where
    pub status : (out.0.status ≡ 401) ⊎ (out.0.status ≡ 403)
    pub kept : IsKept (IsOver req.cookie a) a out.1

  genuine_csrf :
      (req : AuthRequest) (sess : Session)
      → (not (is_safe_method req.method) && not (req.csrf_header == sess.csrf_token)) ≡ false
      → (req.method ≡ "GET")
        ⊎ (req.method ≡ "HEAD")
        ⊎ (req.method ≡ "OPTIONS")
        ⊎ (req.csrf_header ≡ sess.csrf_token)
  genuine_csrf req sess h = ground (
    arith,
    h,
    eq_iff req.csrf_header sess.csrf_token,
    eq_iff req.method "GET",
    eq_iff req.method "HEAD",
    eq_iff req.method "OPTIONS",
  )

  may_act :
      (action : Option Action) (user : User)
      → permitted s action user ≡ true
      → (action ≡ none) ⊎ ((act : Action) × ((action ≡ some act) × (can user act ≡ true)))
  may_act none user h = inl refl
  may_act (some act) user h = inr (act, (refl, h))

  checked :
      (action : Option Action) (req : AuthRequest) (next : User → Handler X) (raw : String)
      (sess : Session) (a b : Accounts X)
      → req.cookie ≡ some raw
      → IsLive s raw sess a
      → b.users ≡ a.users
      → b.sessions ≡ a.sessions
      → IsLetIn action req next a (check_request s action req next sess b)
        ⊎ IsTurnedAway req a (check_request s action req next sess b)
  unfolding check_request
  checked action req next raw sess a b cookie live users sessions =
      elim (Bool-cases
        (not (is_safe_method req.method) && not (req.csrf_header == sess.csrf_token))) [
          | inl forged ↦
              rw forged (inr (record { status = inr refl; kept = (users, inl sessions) }))
          | inr genuine ↦ rw genuine (elim (Bool-cases (permitted s action sess.user)) [
            | inl may ↦ rw may (
                inl (record {
                  raw = raw;
                  sess = sess;
                  after = b;
                  cookie = cookie;
                  live = live;
                  csrf = genuine_csrf req sess genuine;
                  permission = may_act action sess.user may;
                  users = users;
                  sessions = sessions;
                  runs = refl;
                }))
            | inr may_not ↦
                rw may_not (inr (record { status = inr refl; kept = (users, inl sessions) }))
          ])
        ]

  require_found :
      (action : Option Action) (req : AuthRequest) (next : User → Handler X)
      (r : Result (Option Session)) (a b : Accounts X)
      → IsLookup
          (λ sess. (raw : String) × ((req.cookie ≡ some raw) × IsLive s raw sess a))
          (IsOver req.cookie a)
          a
          (r, b)
      → let out = by_session s (unauthorized s) (check_request s action req next) (r, b) in
        IsLetIn action req next a out ⊎ IsTurnedAway req a out
  require_found action req next r a b (inl (none_found, kept)) =
      rw none_found (inr (record { status = inl refl; kept = kept }))
  require_found action req next r a b
        (inr (sess, (found, (raw, (cookie, live)), users, sessions))) =
      rw found (checked action req next raw sess a b cookie live users sessions)

  -- A guarded handler runs, and its reply is the request's, only where the cookie names a live session,
  -- the method is a safe one or the CSRF header is the session's token, and the session's user has the
  -- permission that the route asks for; it runs for that user, with the users and the sessions as they
  -- were. Any other request is answered 401 or 403, and keeps the users and the sessions, except that the
  -- session that its own cookie names may be deleted when it has expired.
  pub require-guards :
      (action : Option Action) (req : AuthRequest) (next : User → Handler X) (a : Accounts X)
      → IsLetIn action req next a (require s action req next a)
        ⊎ IsTurnedAway req a (require s action req next a)
  unfolding require
  require-guards action req next a =
      let (r, b) = authenticate s req.cookie a in
      require_found action req next r a b (authenticate-IsLookup req.cookie a)
