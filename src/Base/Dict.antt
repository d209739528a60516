-- ===== src/Base/Dict.antt =====
-- A Go map with string keys, as an association list with at most one entry that counts for a key.
use mathlib.Core.Path.{◌≡◌, refl}
use mathlib.Core.Logic.{inl, inr}
use mathlib.Core.Option.{Option, none, some}
use mathlib.Core.List.{List, [], ◌∷◌}
use native.Mathlib.Omega.{arith}
use Prim.Native.String.{String}
use text.Mathlib.Text.{◌==◌}
use text.Mathlib.TextEquality.{eq_iff}
use drishti_server_migration.Base.Tests.{if◌then◌else◌, Bool-cases}

abbrev pub Dict {ℓ} : Type ℓ → Type ℓ
Dict V = List (String × V)

module _ {ℓ} {V : Type ℓ} where
  -- `v, ok := m[k]`
  unfoldable pub lookup : String → Dict V → Option V
  lookup wanted [] = none
  lookup wanted ((key, value) ∷ entries) =
      if key == wanted then some value else lookup wanted entries

  -- `m[k] = v`
  unfoldable pub insert : String → V → Dict V → Dict V
  insert wanted new [] = (wanted, new) ∷ []
  insert wanted new ((key, old) ∷ entries) =
      if key == wanted then (key, new) ∷ entries else (key, old) ∷ insert wanted new entries

  -- `delete(m, k)`
  unfoldable pub erase : String → Dict V → Dict V
  erase unwanted [] = []
  erase unwanted ((key, value) ∷ entries) =
      let others = erase unwanted entries in
      if key == unwanted then others else (key, value) ∷ others

  unfoldable pub values : Dict V → List V
  values [] = []
  values ((key, value) ∷ entries) = value ∷ values entries

  pub lookup-erase :
      (gone key : String) (entries : Dict V)
      → lookup key (erase gone entries) ≡ (if gone == key then none else lookup key entries)
  unfolding erase lookup
  lookup-erase gone key [] = ground arith
  lookup-erase gone key ((first, value) ∷ entries) =
      ground
        (arith, lookup-erase gone key entries, eq_iff first gone, eq_iff first key, eq_iff gone key)

  pub lookup-insert :
      (added key : String) (new : V) (entries : Dict V)
      → lookup key (insert added new entries)
        ≡ (if added == key then some new else lookup key entries)
  unfolding insert lookup
  lookup-insert added key new [] = refl
  lookup-insert added key new ((first, old) ∷ entries) = ground (
    arith,
    lookup-insert added key new entries,
    eq_iff first added,
    eq_iff first key,
    eq_iff added key,
  )

  -- What was stored last is found.
  pub lookup-insert_self :
      (key : String) (new : V) (entries : Dict V) → lookup key (insert key new entries) ≡ some new
  lookup-insert_self key new entries =
      ground (arith, eq_iff key key, lookup-insert key key new entries)

  -- No key has two entries.
  abbrev pub IsMap : Dict V → Type ℓ
  IsMap [] = Unit {ℓ}
  IsMap ((key, value) ∷ entries) = (lookup key entries ≡ none) × IsMap entries

  pub insert-IsMap :
      (key : String) (new : V) (entries : Dict V) → IsMap entries → IsMap (insert key new entries)
  unfolding insert lookup
  insert-IsMap key new [] h = (refl, tt)
  insert-IsMap key new ((first, old) ∷ entries) h = elim (Bool-cases (first == key)) [
    | inl same ↦ rw same h
    | inr ne ↦ rw ne (
      ground
          (arith, h.0, ne, eq_iff first key, eq_iff key first, lookup-insert key first new entries),
      insert-IsMap key new entries h.1,
    )
  ]
