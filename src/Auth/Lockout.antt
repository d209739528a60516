-- ===== src/Auth/Lockout.antt =====
-- Sessions: what a login opens, what a session still needs, and what a deactivation closes.
use drishti_server_migration.Base.{
  ℕ, String, Bool, false, not, ◌&&◌, Option, none, some, [], ◌∷◌, Error, Result, ok, err, Eff, pure,
  throw, gets, modify, with_error, ◌>>=◌, ◌>>◌, leb, ◌==◌, eq_iff, ◌≡◌, ◌∙◌, ap, sym, refl, arith,
}
use drishti_server_migration.Base.Dict.{Dict, lookup, IsMap, lookup-insert_self}
use drishti_server_migration.Base.Hoare.{Keeps, Keeps-bind, Keeps-pure, after_if}
use drishti_server_migration.Base.Triples.{
  After, Triple, triple_bind, triple_weaken, Ensures-later, returned, triple-Keeps,
}
use drishti_server_migration.Domain.{AuditEvent, Time}
use drishti_server_migration.Access.{User}
use drishti_server_migration.Auth.{UserRecord, Session, Accounts, Security}
use drishti_server_migration.Auth.Users.{
  is_active_admin, count_where, find_entry, write_event, store_user, deactivated,
  deactivate_counted, deactivate_found, deactivate_user, find_user_by_username,
}
use drishti_server_migration.Auth.Admins.{lookup-find_entry}
use drishti_server_migration.Auth.Requests.{AuthReply, Handler, resume, handle}
use drishti_server_migration.Auth.Handlers.{
  draw_event, actor_of, deactivation_failed, deactivate_drawn, deactivate_user_handler,
}
use drishti_server_migration.Auth.Lifetimes.{lookup_session-IsLive}
use drishti_server_migration.Auth.Sessions.{
  invalid_credentials, without_user, clock, token, login_found, login, lookup_session,
  invalidate_user_sessions,
}

find_entry-is_named :
    (id name : String) (u : UserRecord) (users : Dict UserRecord)
    → find_entry id users ≡ some (name, u)
    → u.id ≡ id
unfolding find_entry
find_entry-is_named id name u [] h = ground (arith, h)
find_entry-is_named id name u ((n, v) ∷ users) h =
    ground (arith, h, eq_iff v.id id, find_entry-is_named id name u users)

lookup-without_user :
    (id key : String) (sess : Session) (d : Dict Session)
    → lookup key (without_user id d) ≡ some sess
    → (sess.user.id == id) ≡ false
unfolding lookup without_user
lookup-without_user id key sess [] h = ground (arith, h)
lookup-without_user id key sess ((k, v) ∷ d) h =
    ground (arith, h, lookup-without_user id key sess d)

-- What the store has done for the target of a deactivation that returned `u`.
abbrev IsOff : {X : Type 0} → String → String → UserRecord → Accounts X → Type 0
IsOff id name u a = (u.id ≡ id) × (u.active ≡ false) × (lookup name a.users ≡ some u)

-- The session that a lookup gave is one of the user.
abbrev pub is_held_by : String → Result (Option Session) → Bool
is_held_by id (ok (some sess)) = sess.user.id == id
is_held_by id _ = false

module _ {X : Type 0} (s : Security X) where
  store_user-stores :
      (name : String) (u : UserRecord) (a : Accounts X)
      → lookup name (store_user s name u a).1.users ≡ some u
  unfolding store_user modify
  store_user-stores name u a = lookup-insert_self name u a.users

  store_user-Stores :
      (name : String) (u : UserRecord)
      → Triple (λ _. Unit) (store_user s name u) (λ _ a. lookup name a.users ≡ some u) (λ _. Unit)
  unfolding store_user modify
  store_user-Stores name u = record { at = λ a h. store_user-stores name u a }

  store_deactivated :
      (event : AuditEvent) (name : String) (u : UserRecord)
      → Triple
          (λ _. Unit)
          (write_event s event >> store_user s name u >> pure u)
          (λ v a. (v ≡ u) × (lookup name a.users ≡ some u))
          (λ _. Unit)
  unfolding pure
  store_deactivated event name u =
      triple_bind {Q = λ _ a. lookup name a.users ≡ some u} _ _
        (Ensures-later _ _ λ _. store_user-Stores name u) λ _. record { at = λ a h. (refl, h) }

  deactivate_found-IsOff :
      (id actor : String) (event : AuditEvent) (name : String) (u : UserRecord) (admins : ℕ)
      (a : Accounts X)
      → find_entry id a.users ≡ some (name, u)
      → IsMap a.users
      → After (IsOff id name) (λ _. Unit) (deactivate_found s actor event (some (name, u)) admins a)
  unfolding deactivate_found deactivate_counted throw pure
  deactivate_found-IsOff id actor event name u admins a found m =
      let named = find_entry-is_named id name u a.users found in
      after_if (After (IsOff id name) (λ _. Unit)) (name == "") _ _ a (λ _. tt)
        λ _.
          after_if (After (IsOff id name) (λ _. Unit)) (u.id == actor) _ _ a (λ _. tt)
            λ _.
              after_if (After (IsOff id name) (λ _. Unit)) (is_active_admin u && leb admins 1) _ _ a
                (λ _. tt)
                λ _.
                  after_if (After (IsOff id name) (λ _. Unit)) (not u.active) _ _ a
                    (λ off.
                      (named, ground (arith, off), lookup-find_entry id name u a.users m found))
                    λ _. (off_after named).at a tt
    where
      off_after :
          u.id ≡ id
          → Triple
              (λ _. Unit)
              (write_event s event
                >> store_user s name (deactivated s event u)
                >> pure (deactivated s event u))
              (IsOff id name)
              (λ _. Unit)
      off_after named =
          triple_weaken _ (λ _ h. h)
            (λ v a h. (ap (λ w. w.id) h.0 ∙ named, ap (λ w. w.active) h.0, h.1 ∙ ap some (sym h.0)))
            (λ _ h. h) (store_deactivated event name (deactivated s event u))

  -- The users are a map in which the id is that of `u`, stored under `name`.
  abbrev IsTarget : String → String → UserRecord → Accounts X → Type 0
  IsTarget id name u a = IsMap a.users × (find_entry id a.users ≡ some (name, u))

  -- A deactivation that returned a user has found it by the id, and stored it as inactive.
  deactivate_user-IsOff :
      (id actor : String) (event : AuditEvent) (name : String) (u : UserRecord)
      → Triple (IsTarget id name u) (deactivate_user s id actor event) (IsOff id name) (λ _. Unit)
  unfolding deactivate_user gets ◌>>=◌
  deactivate_user-IsOff id actor event name u = record {
    at = λ a h. rw h.1 (
        deactivate_found-IsOff id actor event name u (count_where is_active_admin a.users) a h.1
          h.0);
  }

  login_found-refuses :
      (password : String) (u : UserRecord) (a : Accounts X)
      → u.active ≡ false
      → login_found s password (some u) a ≡ (err invalid_credentials, a)
  unfolding login_found throw
  login_found-refuses password u a off = ground (arith, off)

  login-refuses :
      (typed password : String) (u : UserRecord) (a : Accounts X)
      → lookup (s.normalize_username typed) a.users ≡ some u
      → u.active ≡ false
      → login s typed password a ≡ (err invalid_credentials, a)
  unfolding login find_user_by_username with_error gets ◌>>=◌
  login-refuses typed password u a there off = rw there (login_found-refuses password u a off)

  forgotten :
      (id raw : String) (r : Result (Option Session)) (a : Accounts X)
      → (lookup_session s raw (invalidate_user_sessions s id a).1).0 ≡ r
      → is_held_by id r ≡ false
  unfolding invalidate_user_sessions modify
  forgotten id raw (ok (some sess)) a h =
      lookup-without_user id (s.token_key raw) sess a.sessions
        (lookup_session-IsLive s raw sess _ h).0
  forgotten id raw (ok none) a h = refl
  forgotten id raw (err e) a h = refl

module _ {X A : Type 0} (P : AuthReply × Accounts X → Type 0) where
  resume_cases :
      (fail : Error → Handler X) (go : A → Handler X) (r : Result A) (a : Accounts X)
      → ((e : Error) → r ≡ err e → P (fail e a))
      → ((x : A) → r ≡ ok x → P (go x a))
      → P (resume fail go r a)
  resume_cases fail go (ok x) a kf kg = kg x refl
  resume_cases fail go (err e) a kf kg = kf e refl

  -- A property of the reply, from the failures and from what a triple says of the success.
  handle_cases :
      {I : Accounts X → Type 0} {Q : A → Accounts X → Type 0} (m : Eff (Accounts X) A)
      (fail : Error → Handler X) (go : A → Handler X) (a : Accounts X)
      → Triple I m Q (λ _. Unit)
      → I a
      → ((e : Error) (b : Accounts X) → P (fail e b))
      → ((x : A) (b : Accounts X) → Q x b → P (go x b))
      → P (handle m fail go a)
  handle_cases m fail go a t h kf kg =
      let (r, b) = m a in
      resume_cases fail go r b (λ e _. kf e b)
        λ x good. kg x b (returned t h (ap (λ z. (z, b)) good))

module _ {X : Type 0} (s : Security X) where
  draw_event-Keeps :
      (id name : String) (u : UserRecord) → Keeps (IsTarget s id name u) (draw_event s)
  unfolding draw_event
  draw_event-Keeps id name u =
      Keeps-bind _ _ (Keeps-bind _ _ (token-keeps id name u) (λ _. Keeps-pure _))
        λ _. Keeps-bind _ _ (clock-keeps id name u) (λ _. Keeps-pure _)
    where
      token-keeps : (id name : String) (u : UserRecord) → Keeps (IsTarget s id name u) (token s)
      token-keeps id name u = record { at = λ a h. h }

      clock-keeps : (id name : String) (u : UserRecord) → Keeps (IsTarget s id name u) (clock s)
      clock-keeps id name u = record { at = λ a h. h }

  -- Where the answer is 200, nobody is let in under the name, or by a token, as the target.
  abbrev IsClosed : String → String → String → String → AuthReply × Accounts X → Type 0
  IsClosed id typed password raw (reply, a) =
      reply.status ≡ 200
      → (login s typed password a ≡ (err invalid_credentials, a))
        × (is_held_by id (lookup_session s raw a).0 ≡ false)

  closes :
      (id typed password raw : String) (u : UserRecord) (a : Accounts X)
      → u.active ≡ false
      → lookup (s.normalize_username typed) a.users ≡ some u
      → let b = (invalidate_user_sessions s id a).1 in
        (login s typed password b ≡ (err invalid_credentials, b))
        × (is_held_by id (lookup_session s raw b).0 ≡ false)
  unfolding invalidate_user_sessions modify
  closes id typed password raw u a off there =
      (login-refuses s typed password u _ there off, forgotten s id raw _ a refl)

  failure_differs : (e : Error) (b : Accounts X) → (deactivation_failed s e b).0.status ≡ 200 → ⊥
  failure_differs e b h = ground (arith, h)

  deactivate_drawn-IsClosed :
      (ctx : Option User) (id name typed password raw : String) (u : UserRecord)
      (drawn : String × Time) (a : Accounts X)
      → IsTarget s id name u a
      → s.normalize_username typed ≡ name
      → IsClosed id typed password raw (deactivate_drawn s ctx id drawn a)
  unfolding deactivate_drawn
  deactivate_drawn-IsClosed ctx id name typed password raw u (event_id, now) a target same =
      handle_cases (IsClosed id typed password raw) _ _ _ a
        (deactivate_user-IsOff s id (actor_of ctx) _ name u) target
        (λ e b h. elim (failure_differs e b h) [ ])
        λ v b off h.
          rw (sym off.0)
            (closes v.id typed password raw v b off.1 (ap (λ n. lookup n b.users) same ∙ off.2))

  draw_event-IsTarget :
      (id name : String) (u : UserRecord)
      → Triple (IsTarget s id name u) (draw_event s) (λ _. IsTarget s id name u) (λ _. Unit)
  draw_event-IsTarget id name u =
      triple_weaken _ (λ _ h. h) (λ _ _ h. h) (λ _ _. tt)
        (triple-Keeps _ (draw_event-Keeps id name u))

  -- Among users with distinct names, let `u`, stored under `name`, be the user with the trimmed id of the
  -- path. If the deactivation answers 200, then no login under that name succeeds afterwards, whatever
  -- the password, and no token gives a session of the user.
  pub deactivate_user_handler-locks_out :
      (ctx : Option User) (path_id name typed password raw : String) (u : UserRecord)
      (a : Accounts X)
      → IsMap a.users
      → find_entry (s.trim path_id) a.users ≡ some (name, u)
      → s.normalize_username typed ≡ name
      → (deactivate_user_handler s ctx path_id a).0.status ≡ 200
      → let b = (deactivate_user_handler s ctx path_id a).1 in
        (login s typed password b ≡ (err invalid_credentials, b))
        × (is_held_by (s.trim path_id) (lookup_session s raw b).0 ≡ false)
  unfolding deactivate_user_handler
  deactivate_user_handler-locks_out ctx path_id name typed password raw u a m found same =
      handle_cases (IsClosed (s.trim path_id) typed password raw) _ _ _ a
        (draw_event-IsTarget (s.trim path_id) name u) (m, found) (λ e b h. ground (arith, h))
        λ drawn b target.
          deactivate_drawn-IsClosed ctx _ name typed password raw u drawn b target same
