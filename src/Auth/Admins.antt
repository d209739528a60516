-- ===== src/Auth/Admins.antt =====
-- No operation of the user store takes away the last active administrator.
use drishti_server_migration.Base.{
  ℕ, ◌+◌, ◌≤◌, String, Bool, not, ◌&&◌, Option, none, some, List, [], ◌∷◌, pure, throw, gets,
  modify, on_part, ◌>>=◌, ◌>>◌, leb, ◌==◌, eq_iff, if◌then◌else◌, ◌≡◌, ◌∙◌, ap, refl, arith,
}
use drishti_server_migration.Base.Dict.{Dict, lookup, insert, IsMap, insert-IsMap}
use drishti_server_migration.Base.Hoare.{
  Keeps, keeps_rules, Keeps-bind, then_reaches, after_if, then_pure,
}
use drishti_server_migration.Domain.{AuditEvent}
use drishti_server_migration.Auth.{UserRecord, Accounts, Security}
use drishti_server_migration.Auth.Users.{
  is_active_admin, count_where, find_entry, valid_user, write_event, write_events, store_user,
  create_named, create_user, deactivated, deactivate_counted, deactivate_found, deactivate_user,
  update_stored, update_password,
}

abbrev one_if : Bool → ℕ
one_if b = if b then 1 else 0

count-insert_new :
    (p : UserRecord → Bool) (name : String) (u : UserRecord) (users : Dict UserRecord)
    → lookup name users ≡ none
    → count_where p (insert name u users) ≡ count_where p users + one_if (p u)
unfolding count_where insert lookup
count-insert_new p name u [] h = ground arith
count-insert_new p name u ((n, v) ∷ users) h = ground (arith, h, count-insert_new p name u users)

count-insert_old :
    (p : UserRecord → Bool) (name : String) (u old : UserRecord) (users : Dict UserRecord)
    → lookup name users ≡ some old
    → count_where p (insert name u users) + one_if (p old) ≡ count_where p users + one_if (p u)
unfolding count_where insert lookup
count-insert_old p name u old [] h = ground (arith, h)
count-insert_old p name u old ((n, v) ∷ users) h =
    ground (arith, h, count-insert_old p name u old users)

pub lookup-find_entry :
    (id name : String) (u : UserRecord) (users : Dict UserRecord)
    → IsMap users
    → find_entry id users ≡ some (name, u)
    → lookup name users ≡ some u
unfolding find_entry lookup
lookup-find_entry id name u [] m h = ground (arith, h)
lookup-find_entry id name u ((n, v) ∷ users) m h =
    ground (arith, h, m.0, eq_iff n name, lookup-find_entry id name u users m.1)

-- The users are a map, and some active user is a platform administrator.
pub record IsStaffed {X : Type 0} (a : Accounts X) : Type 0 where
  pub keys : IsMap a.users
  pub admins : 1 ≤ count_where is_active_admin a.users

module _ {X : Type 0} (s : Security X) where
  write_event-users :
      (event : AuditEvent) (a : Accounts X) → (write_event s event a).1.users ≡ a.users
  unfolding write_event on_part pure
  write_event-users event a = ground arith

  write_event-IsStaffed : (event : AuditEvent) → Keeps IsStaffed (write_event s event)
  write_event-IsStaffed event = record {
    at = λ a h. record {
      keys = rw (write_event-users event a) h.keys;
      admins = rw (write_event-users event a) h.admins;
    };
  }

  store_new :
      (name : String) (u : UserRecord) (a : Accounts X)
      → lookup name a.users ≡ none
      → IsStaffed a
      → IsStaffed (store_user s name u a).1
  unfolding store_user modify
  store_new name u a absent h = record {
    keys = insert-IsMap name u a.users h.keys;
    admins = ground (arith, h.admins, count-insert_new is_active_admin name u a.users absent);
  }

  -- A stored user is replaced, by one that is an active administrator if the old one was, or while
  -- there is another one.
  store_old :
      (name : String) (u old : UserRecord) (a : Accounts X)
      → lookup name a.users ≡ some old
      → 1 + one_if (is_active_admin old)
        ≤ count_where is_active_admin a.users + one_if (is_active_admin u)
      → IsStaffed a
      → IsStaffed (store_user s name u a).1
  unfolding store_user modify
  store_old name u old a there enough h = record {
    keys = insert-IsMap name u a.users h.keys;
    admins = ground (arith, enough, count-insert_old is_active_admin name u old a.users there);
  }

  -- Staffed, with the users as they were.
  record IsSame (users : Dict UserRecord) (a : Accounts X) : Type 0 where
    staffed : IsStaffed a
    same : a.users ≡ users

  write_event-IsSame :
      (users : Dict UserRecord) (event : AuditEvent) → Keeps (IsSame users) (write_event s event)
  write_event-IsSame users event = record {
    at = λ a h. record {
      staffed = (write_event-IsStaffed event).at a h.staffed;
      same = write_event-users event a ∙ h.same;
    };
  }

  write_events-IsSame :
      (users : Dict UserRecord) (events : List AuditEvent)
      → Keeps (IsSame users) (write_events s events)
  unfolding write_events
  write_events-IsSame users [] = search keeps_rules
  write_events-IsSame users (e ∷ es) =
      Keeps-bind _ _ (write_event-IsSame users e) λ _. write_events-IsSame users es

  -- An event is written, and then a stored user replaced.
  write_then_store :
      (event : AuditEvent) (name : String) (u old : UserRecord) (a : Accounts X)
      → lookup name a.users ≡ some old
      → 1 + one_if (is_active_admin old)
        ≤ count_where is_active_admin a.users + one_if (is_active_admin u)
      → IsStaffed a
      → IsStaffed ((write_event s event >> store_user s name u) a).1
  write_then_store event name u old a there enough h =
      then_reaches (λ _ k. k.staffed) _ _ (write_event-IsSame a.users event)
        (λ _ t k.
          store_old name u old t (ap (lookup name) k.same ∙ there) (rw k.same enough) k.staffed)
        a (record { staffed = h; same = refl })

  deactivate_found-IsStaffed :
      (id actor : String) (event : AuditEvent) (o : Option (String × UserRecord)) (a : Accounts X)
      → find_entry id a.users ≡ o
      → IsStaffed a
      → IsStaffed (deactivate_found s actor event o (count_where is_active_admin a.users) a).1
  unfolding deactivate_found deactivate_counted throw pure
  deactivate_found-IsStaffed id actor event none a found h = h
  deactivate_found-IsStaffed id actor event (some (name, u)) a found h =
      after_if (λ r. IsStaffed r.1) (name == "") _ _ a (λ _. h)
        λ _.
          after_if (λ r. IsStaffed r.1) (u.id == actor) _ _ a (λ _. h)
            λ _.
              after_if (λ r. IsStaffed r.1)
                (is_active_admin u && leb (count_where is_active_admin a.users) 1) _ _ a (λ _. h)
                λ more.
                  after_if (λ r. IsStaffed r.1) (not u.active) _ _ a (λ _. h)
                    λ _.
                      rw
                        (then_pure
                          (write_event s event >> store_user s name (deactivated s event u))
                          (deactivated s event u) a)
                        (write_then_store event name (deactivated s event u) u a
                          (lookup-find_entry id name u a.users h.keys found)
                          (ground (arith, more, h.admins)) h)

  create_named-IsStaffed :
      (u : UserRecord) (events : List AuditEvent) (o : Option UserRecord) (a : Accounts X)
      → lookup (s.normalize_username u.username) a.users ≡ o
      → IsStaffed a
      → IsStaffed (create_named s u events o a).1
  unfolding create_named throw
  create_named-IsStaffed u events (some old) a found h = h
  create_named-IsStaffed u events none a found h =
      then_reaches (λ _ k. k.staffed) _ _ (write_events-IsSame a.users events)
        (λ _ t k. store_new _ _ t (ap (lookup _) k.same ∙ found) k.staffed) a
        (record { staffed = h; same = refl })

  update_stored-IsStaffed :
      (id hash : String) (event : AuditEvent) (o : Option (String × UserRecord)) (a : Accounts X)
      → find_entry id a.users ≡ o
      → IsStaffed a
      → IsStaffed (update_stored s hash event o a).1
  unfolding update_stored throw
  update_stored-IsStaffed id hash event none a found h = h
  update_stored-IsStaffed id hash event (some (name, u)) a found h =
      write_then_store event name (record u { password_hash = hash; updated_at = event.timestamp })
        u a (lookup-find_entry id name u a.users h.keys found) (ground (arith, h.admins)) h

  pub create_user-IsStaffed :
      (u : UserRecord) (events : List AuditEvent) → Keeps IsStaffed (create_user s u events)
  unfolding create_user throw gets ◌>>=◌
  create_user-IsStaffed u events = record {
    at = λ a h.
        after_if (λ r. IsStaffed r.1) (valid_user s u) _ _ a
          (λ _. create_named-IsStaffed u events _ a refl h) (λ _. h);
  }

  pub deactivate_user-IsStaffed :
      (id actor : String) (event : AuditEvent) → Keeps IsStaffed (deactivate_user s id actor event)
  unfolding deactivate_user gets ◌>>=◌
  deactivate_user-IsStaffed id actor event = record {
    at = λ a h. deactivate_found-IsStaffed id actor event _ a refl h;
  }

  pub update_password-IsStaffed :
      (id hash : String) (event : AuditEvent) → Keeps IsStaffed (update_password s id hash event)
  unfolding update_password gets ◌>>=◌
  update_password-IsStaffed id hash event = record {
    at = λ a h. update_stored-IsStaffed id hash event _ a refl h;
  }
