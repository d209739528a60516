-- ===== src/Base/Effects.antt =====
-- Methods that change a state and may return an error. What was changed before the error stays
-- changed, so the state comes back beside either outcome.
use mathlib.Core.List.{List, [], ◌∷◌}
use drishti_server_migration.Base.Errors.{Error, Result, ok, err}

-- The error of a failed call, replaced by `f` of it.
abbrev pub map_error {ℓ} : {A : Type ℓ} → (Error → Error) → Result A → Result A
map_error f (ok a) = ok a
map_error f (err e) = err (f e)

abbrev pub Eff {ℓ} : Type ℓ → Type ℓ → Type ℓ
Eff S A = S → Result A × S

module _ {ℓ} {S A : Type ℓ} where
  unfoldable pub pure : A → Eff S A
  pure a s = (ok a, s)

  unfoldable pub throw : Error → Eff S A
  throw e s = (err e, s)

  unfoldable pub gets : (S → A) → Eff S A
  gets f s = (ok (f s), s)

  -- `v, err := call()`, with the error kept as a value.
  unfoldable pub attempt : Eff S A → Eff S (Result A)
  attempt m s = let (r, s') = m s in (ok r, s')

  unfoldable pub from_result : Result A → Eff S A
  from_result r s = (r, s)

  unfoldable pub with_error : (Error → Error) → Eff S A → Eff S A
  with_error f m s = let (r, s') = m s in (map_error f r, s')

module _ {ℓ} {S : Type ℓ} where
  unfoldable pub modify : (S → S) → Eff S (Unit {ℓ})
  modify f s = (ok tt, f s)

module _ {ℓ} {S A B : Type ℓ} where
  abbrev pub continue_with : (A → Eff S B) → Result A → S → Result B × S
  continue_with f (ok a) s = f a s
  continue_with f (err e) s = (err e, s)

  infixl 5 ◌>>=◌ ◌>>◌
  unfoldable pub ◌>>=◌ : Eff S A → (A → Eff S B) → Eff S B
  unfolding pure throw gets attempt from_result with_error modify
  ◌>>=◌ m f s = let (r, s') = m s in continue_with f r s'

  abbrev pub ◌>>◌ : Eff S A → Eff S B → Eff S B
  m >> n = m >>= λ _. n

-- An action on a part of the state: `get` reads the part and `put` writes it back.
module _ {ℓ} {S T A : Type ℓ} where
  unfoldable pub on_part : (S → T) → (T → S → S) → Eff T A → Eff S A
  on_part get put m s = let (r, t) = m (get s) in (r, put t s)

-- `for _, x := range xs { if err := body(x); err != nil { return err } }`
module _ {ℓ} {S A : Type ℓ} where
  unfoldable pub for_each : List A → (A → Eff S (Unit {ℓ})) → Eff S (Unit {ℓ})
  unfolding ◌>>=◌
  for_each [] body = pure tt
  for_each (x ∷ xs) body = body x >> for_each xs body
