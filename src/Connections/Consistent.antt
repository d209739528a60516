-- ===== src/Connections/Consistent.antt =====
-- The registry stays consistent: no two connections share an id, and every stored credential is of a
-- registered connection.
use drishti_server_migration.Base.{
  String, true, false, none, List, [], ◌∷◌, ◌++◌, ◌==◌, eq_iff, ◌≡◌, refl, ◌∙◌, ap, arith, inl, inr,
  Bool-cases,
}
use drishti_server_migration.Base.Dict.{Dict, insert, erase}
use drishti_server_migration.Domain.{Connection}
use drishti_server_migration.Connections.{Login, ConnState}
use drishti_server_migration.Connections.Registry.{find_connection, without_connection, is_present}

abbrev pub IsUnique : List Connection → Type 0
IsUnique [] = Unit {0}
IsUnique (c ∷ cs) = (find_connection c.id cs ≡ none) × IsUnique cs

abbrev pub IsKnown : List Connection → Dict Login → Type 0
IsKnown cs [] = Unit {0}
IsKnown cs ((key, login) ∷ d) = (is_present (find_connection key cs) ≡ true) × IsKnown cs d

pub record IsConsistent {X : Type 0} (s : ConnState X) : Type 0 where
  pub unique : IsUnique s.connections
  pub known : IsKnown s.connections s.credentials

find-without :
    (id j : String) (cs : List Connection)
    → (j == id) ≡ false
    → find_connection j (without_connection id cs) ≡ find_connection j cs
unfolding find_connection without_connection
find-without id j [] h = refl
find-without id j (c ∷ cs) h =
    ground (arith, h, find-without id j cs h, eq_iff c.id id, eq_iff c.id j, eq_iff j id)

none-without :
    (id j : String) (cs : List Connection)
    → find_connection j cs ≡ none
    → find_connection j (without_connection id cs) ≡ none
unfolding find_connection without_connection
none-without id j [] h = refl
none-without id j (c ∷ cs) h = ground (arith, h, none-without id j cs)

pub without-IsUnique :
    (id : String) (cs : List Connection) → IsUnique cs → IsUnique (without_connection id cs)
unfolding without_connection
without-IsUnique id [] h = tt
without-IsUnique id (c ∷ cs) h = elim (Bool-cases (c.id == id)) [
  | inl same ↦ rw same h.1
  | inr other ↦ rw other (none-without id c.id cs h.0, without-IsUnique id cs h.1)
]

none-append :
    (j : String) (cs : List Connection) (c : Connection)
    → find_connection j cs ≡ none
    → (c.id == j) ≡ false
    → find_connection j (cs ++ (c ∷ [])) ≡ none
unfolding find_connection
none-append j [] c h k = ground (arith, h, k)
none-append j (d ∷ cs) c h k = ground (arith, h, k, none-append j cs c)

pub append-IsUnique :
    (cs : List Connection) (c : Connection)
    → find_connection c.id cs ≡ none
    → IsUnique cs
    → IsUnique (cs ++ (c ∷ []))
unfolding find_connection
append-IsUnique [] c h u = (refl, tt)
append-IsUnique (d ∷ cs) c h u = (
  none-append d.id cs c u.0 (ground (arith, h, eq_iff d.id c.id, eq_iff c.id d.id)),
  append-IsUnique cs c (ground (arith, h)) u.1,
)

present-append :
    (j : String) (cs : List Connection) (c : Connection)
    → is_present (find_connection j cs) ≡ true
    → is_present (find_connection j (cs ++ (c ∷ []))) ≡ true
unfolding find_connection
present-append j [] c h = ground (arith, h)
present-append j (d ∷ cs) c h = ground (arith, h, present-append j cs c)

pub present-append_self :
    (cs : List Connection) (c : Connection)
    → is_present (find_connection c.id (cs ++ (c ∷ []))) ≡ true
unfolding find_connection
present-append_self [] c = ground (arith, eq_iff c.id c.id)
present-append_self (d ∷ cs) c = ground (arith, present-append_self cs c)

pub append-IsKnown :
    (cs : List Connection) (c : Connection) (d : Dict Login)
    → IsKnown cs d
    → IsKnown (cs ++ (c ∷ [])) d
append-IsKnown cs c [] h = tt
append-IsKnown cs c ((key, login) ∷ d) h = (present-append key cs c h.0, append-IsKnown cs c d h.1)

pub insert-IsKnown :
    (id : String) (login : Login) (cs : List Connection) (d : Dict Login)
    → is_present (find_connection id cs) ≡ true
    → IsKnown cs d
    → IsKnown cs (insert id login d)
unfolding insert
insert-IsKnown id login cs [] p h = (p, tt)
insert-IsKnown id login cs ((key, old) ∷ d) p h = elim (Bool-cases (key == id)) [
  | inl same ↦ rw same h
  | inr other ↦ rw other (h.0, insert-IsKnown id login cs d p h.1)
]

pub erase-IsKnown :
    (id : String) (cs : List Connection) (d : Dict Login)
    → IsKnown cs d
    → IsKnown (without_connection id cs) (erase id d)
unfolding erase
erase-IsKnown id cs [] h = tt
erase-IsKnown id cs ((key, old) ∷ d) h = elim (Bool-cases (key == id)) [
  | inl same ↦ rw same (erase-IsKnown id cs d h.1)
  | inr other ↦
      rw other (ap is_present (find-without id key cs other) ∙ h.0, erase-IsKnown id cs d h.1)
]
