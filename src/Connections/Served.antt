-- ===== src/Connections/Served.antt =====
-- Every request leaves the registry of connections consistent.
use drishti_server_migration.Base.{
  ℕ, String, Bool, true, false, ◌||◌, Option, none, some, Result, ok, err, Eff, pure, throw, gets,
  modify, from_result, on_part, ◌>>=◌, ◌>>◌, ◌==◌, if◌then◌else◌, ◌≡◌, refl,
}
use drishti_server_migration.Base.Triples.{After, Triple}
use drishti_server_migration.Domain.{Connection, PlatformKind, vmware, proxmox, hyperv, other_kind}
use drishti_server_migration.Connections.{Login, ConnState, CreateInput, ConnOutside}
use drishti_server_migration.Connections.Registry.{
  kind_text, find_connection, check_new, slugify, registered, conn_clock, append_connection,
  add_unless, add_connection, remove_connection, put_credentials, delete_credentials, is_present,
}
use drishti_server_migration.Connections.Requests.{
  ConnHandler, after_result, or_status, outside_conn, candidate, kind_of, finish_create, register,
  create_connection, finish_delete, delete_connection, probe_kind, probe_with, probed, keeps_login,
  lacks_credentials, audited, created_event, deleted_event, login_of, reply_with,
}
use drishti_server_migration.Connections.Consistent.{
  IsConsistent, without-IsUnique, append-IsUnique, present-append_self, append-IsKnown,
  insert-IsKnown, erase-IsKnown,
}

module _ {X A : Type 0} where
  after_result-IsConsistent :
      {Q : A → ConnState X → Type 0} (status : ℕ) (go : A → ConnHandler X) (r : Result A)
      (s : ConnState X)
      → After Q IsConsistent (r, s)
      → ((a : A) (t : ConnState X) → Q a t → IsConsistent (go a t).1)
      → IsConsistent (after_result status go r s).1
  after_result-IsConsistent status go (ok a) s h k = k a s h
  after_result-IsConsistent status go (err e) s h k = h

  or_status-IsConsistent :
      {I : ConnState X → Type 0} {Q : A → ConnState X → Type 0} (status : ℕ)
      (m : Eff (ConnState X) A) (go : A → ConnHandler X) (s : ConnState X)
      → Triple I m Q IsConsistent
      → I s
      → ((a : A) (t : ConnState X) → Q a t → IsConsistent (go a t).1)
      → IsConsistent (or_status status m go s).1
  or_status-IsConsistent status m go s t h k =
      let (r, s') = m s in after_result-IsConsistent status go r s' (t.at s h) k

module _ {X : Type 0} (o : ConnOutside X) where
  -- Consistent, with a connection of this id.
  record IsRegistered (id : String) (s : ConnState X) : Type 0 where
    consistent : IsConsistent s
    present : is_present (find_connection id s.connections) ≡ true

  outside_conn-IsConsistent :
      {A : Type 0} (m : Eff X A)
      → Triple IsConsistent (outside_conn o m) (λ _. IsConsistent) IsConsistent
  unfolding outside_conn on_part
  outside_conn-IsConsistent m = record {
    at = λ s h.
        let (r, x) = m s.ext in
        either r (record s { ext = x }) (record { unique = h.unique; known = h.known });
  }
    where
      either :
          {A : Type 0} (r : Result A) (s : ConnState X)
          → IsConsistent s
          → After (λ _. IsConsistent) IsConsistent (r, s)
      either (ok a) s h = h
      either (err e) s h = h

  add_unless-IsRegistered :
      (c : Connection) (id : String) (found : Option Connection) (s : ConnState X)
      → find_connection id s.connections ≡ found
      → IsConsistent s
      → After (λ c'. IsRegistered c'.id) IsConsistent (add_unless o c id found s)
  unfolding add_unless conn_clock append_connection throw pure modify ◌>>=◌
  add_unless-IsRegistered c id (some old) s h k = k
  add_unless-IsRegistered c id none s h k =
      let now = (o.now s.ext).0 in
      record {
        consistent = record {
          unique = append-IsUnique s.connections (registered o c id now) h k.unique;
          known = append-IsKnown s.connections (registered o c id now) s.credentials k.known;
        };
        present = present-append_self s.connections (registered o c id now);
      }

  add_checked-IsRegistered :
      (c : Connection) (r : Result (Unit {0})) (s : ConnState X)
      → IsConsistent s
      → After
          (λ c'. IsRegistered c'.id)
          IsConsistent
          ((from_result r
              >> (gets
                    (λ t. find_connection (slugify o (kind_text c.kind) c.endpoint) t.connections)
                  >>= add_unless o c (slugify o (kind_text c.kind) c.endpoint)))
            s)
  unfolding from_result gets ◌>>=◌
  add_checked-IsRegistered c (ok u) s k =
      add_unless-IsRegistered c (slugify o (kind_text c.kind) c.endpoint) _ s refl k
  add_checked-IsRegistered c (err e) s k = k

  add_connection-IsRegistered :
      (c : Connection)
      → Triple IsConsistent (add_connection o c) (λ c'. IsRegistered c'.id) IsConsistent
  unfolding add_connection
  add_connection-IsRegistered c = record {
    at = λ s k. add_checked-IsRegistered c (check_new o c) s k;
  }

  put_if-IsConsistent :
      (b : Bool) (id : String) (login : Login)
      → Triple
          (IsRegistered id)
          (if b then put_credentials o id login else pure tt)
          (λ _. IsConsistent)
          IsConsistent
  unfolding put_credentials pure modify
  put_if-IsConsistent true id login = record {
    at = λ s h. record {
      unique = h.consistent.unique;
      known = insert-IsKnown id login s.connections s.credentials h.present h.consistent.known;
    };
  }
  put_if-IsConsistent false id login = record { at = λ s h. h.consistent }

  audited-IsConsistent :
      (event : Eff X (Unit {0})) (status : ℕ) (shown : Option Connection) (s : ConnState X)
      → IsConsistent s
      → IsConsistent (audited o event status shown s).1
  audited-IsConsistent event status shown s h =
      or_status-IsConsistent 503 (outside_conn o event) _ s (outside_conn-IsConsistent event) h
        λ _ t k. k

  finish_create-IsConsistent :
      (input : CreateInput) (c : Connection) (s : ConnState X)
      → IsRegistered c.id s
      → IsConsistent (finish_create o input c s).1
  unfolding finish_create
  finish_create-IsConsistent input c s h =
      or_status-IsConsistent 503 _ (λ _. audited o (created_event o c) 201 (some c)) s
        (put_if-IsConsistent (keeps_login o c.kind) c.id (login_of o input)) h
        λ _ t k. audited-IsConsistent (created_event o c) 201 (some c) t k

  register-IsConsistent :
      (input : CreateInput) (s : ConnState X) → IsConsistent s → IsConsistent (register o input s).1
  unfolding register
  register-IsConsistent input s h =
      or_status-IsConsistent 409 (add_connection o (candidate o input)) (finish_create o input) s
        (add_connection-IsRegistered (candidate o input)) h
        λ c t k. finish_create-IsConsistent input c t k

  asked-IsConsistent :
      {A : Type 0} (m : Eff X A) (input : CreateInput) (s : ConnState X)
      → IsConsistent s
      → IsConsistent (or_status 502 (outside_conn o m) (λ _. register o input) s).1
  asked-IsConsistent m input s h =
      or_status-IsConsistent 502 (outside_conn o m) (λ _. register o input) s
        (outside_conn-IsConsistent m) h λ _ t k. register-IsConsistent input t k

  -- One of two handlers.
  chosen-IsConsistent :
      (b : Bool) (m n : ConnHandler X) (s : ConnState X)
      → IsConsistent (m s).1
      → IsConsistent (n s).1
      → IsConsistent ((if b then m else n) s).1
  chosen-IsConsistent true m n s hm hn = hm
  chosen-IsConsistent false m n s hm hn = hn

  probe_with-IsConsistent :
      (input : CreateInput) (p : Option (Connection → Eff X String)) (s : ConnState X)
      → IsConsistent s
      → IsConsistent (probe_with o input (register o input) p s).1
  probe_with-IsConsistent input none s h = h
  probe_with-IsConsistent input (some probe) s h =
      chosen-IsConsistent (input.secret_ref == "") (reply_with 400 none) _ s h
        (asked-IsConsistent (probe (probed o input)) input s h)

  probe_kind-IsConsistent :
      (input : CreateInput) (kind : PlatformKind) (s : ConnState X)
      → IsConsistent s
      → IsConsistent (probe_kind o input (register o input) kind s).1
  probe_kind-IsConsistent input vmware s h =
      chosen-IsConsistent (lacks_credentials o input) (reply_with 400 none) _ s h
        (asked-IsConsistent (o.probe_vmware input) input s h)
  probe_kind-IsConsistent input proxmox s h = probe_with-IsConsistent input o.probe_proxmox s h
  probe_kind-IsConsistent input hyperv s h = h
  probe_kind-IsConsistent input (other_kind k) s h = h

  pub create_connection-IsConsistent :
      (body : Option CreateInput) (s : ConnState X)
      → IsConsistent s
      → IsConsistent (create_connection o body s).1
  unfolding create_connection
  create_connection-IsConsistent none s h = h
  create_connection-IsConsistent (some input) s h =
      chosen-IsConsistent (input.kind == "" || (input.role == "" || input.endpoint == ""))
        (reply_with 400 none) _ s h
        (chosen-IsConsistent o.real_mode
          (probe_kind o input (register o input) (kind_of input.kind)) _ s
          (probe_kind-IsConsistent input (kind_of input.kind) s h)
          (register-IsConsistent input s h))

  delete_by :
      (id : String) (b : Bool) (s : ConnState X)
      → is_present (find_connection id s.connections) ≡ b
      → IsConsistent s
      → IsConsistent (or_status 404 (remove_connection o id) (finish_delete o id) s).1
  unfolding remove_connection finish_delete delete_credentials modify
  delete_by id false s absent h = rw absent h
  delete_by id true s there h = rw there (
      audited-IsConsistent (deleted_event o id) 204 none _ (record {
        unique = without-IsUnique id s.connections h.unique;
        known = erase-IsKnown id s.connections s.credentials h.known;
      }))

  pub delete_connection-IsConsistent :
      (path : String) (s : ConnState X)
      → IsConsistent s
      → IsConsistent (delete_connection o path s).1
  unfolding delete_connection
  delete_connection-IsConsistent path s h = delete_by (o.normalize_id path) _ s refl h
