-- ===== src/Base/Hoare.antt =====
-- Rules for what an action keeps or ensures, one for each way to build an action.
use mathlib.Core.Path.{ap, ◌≡◌, refl}
use mathlib.Core.Bool.{Bool, true, false}
use mathlib.Core.List.{List, [], ◌∷◌}
use native.Mathlib.Omega.{arith}
use drishti_server_migration.Base.Tests.{if◌then◌else◌}
use drishti_server_migration.Base.Errors.{Error, Result, ok, err}
use drishti_server_migration.Base.Effects.{
  map_error, Eff, pure, throw, gets, attempt, from_result, with_error, modify, ◌>>=◌, ◌>>◌,
  continue_with, for_each,
}

-- The action keeps the invariant, whether it returns or fails.
pub record Keeps {ℓ} {S A : Type ℓ} (I : S → Type ℓ) (m : Eff S A) : Type ℓ where
  pub at : (s : S) → I s → I (m s).1

module _ {ℓ} {S A : Type ℓ} {I : S → Type ℓ} where
  pub Keeps-pure : (a : A) → Keeps I (pure a)
  unfolding pure
  Keeps-pure a = record { at = λ s h. h }

  pub Keeps-throw : (e : Error) → Keeps I (throw {A = A} e)
  unfolding throw
  Keeps-throw e = record { at = λ s h. h }

  pub Keeps-gets : (f : S → A) → Keeps I (gets f)
  unfolding gets
  Keeps-gets f = record { at = λ s h. h }

  pub Keeps-attempt : (m : Eff S A) → Keeps I m → Keeps I (attempt m)
  unfolding attempt
  Keeps-attempt m k = record { at = λ s h. k.at s h }

  pub Keeps-from_result : (r : Result A) → Keeps I (from_result r)
  unfolding from_result
  Keeps-from_result r = record { at = λ s h. h }

  pub Keeps-with_error : (f : Error → Error) (m : Eff S A) → Keeps I m → Keeps I (with_error f m)
  unfolding with_error
  Keeps-with_error f m k = record { at = λ s h. k.at s h }

  pub Keeps-if :
      (b : Bool) (m n : Eff S A)
      → (b ≡ true → Keeps I m)
      → (b ≡ false → Keeps I n)
      → Keeps I (if b then m else n)
  Keeps-if true m n km kn = km refl
  Keeps-if false m n km kn = kn refl

module _ {ℓ} {S : Type ℓ} {I : S → Type ℓ} where
  pub Keeps-modify : (f : S → S) → ((s : S) → I s → I (f s)) → Keeps I (modify f)
  unfolding modify
  Keeps-modify f k = record { at = k }

module _ {ℓ} {S A B : Type ℓ} {I : S → Type ℓ} where
  Keeps-continue :
      (r : Result A) (f : A → Eff S B) → ((a : A) → Keeps I (f a)) → Keeps I (from_result r >>= f)
  unfolding ◌>>=◌
  Keeps-continue (ok a) f kf = kf a
  Keeps-continue (err e) f kf = Keeps-throw e

  pub Keeps-bind :
      (m : Eff S A) (f : A → Eff S B) → Keeps I m → ((a : A) → Keeps I (f a)) → Keeps I (m >>= f)
  unfolding ◌>>=◌
  Keeps-bind m f km kf = record {
    at = λ s h. let (r, s') = m s in (Keeps-continue r f kf).at s' (km.at s h);
  }

module _ {ℓ} {S A : Type ℓ} (P : Result A × S → Type ℓ) where
  -- A property of the outcome of a conditional, at one state.
  pub after_if :
      (b : Bool) (m n : Eff S A) (s : S)
      → (b ≡ true → P (m s))
      → (b ≡ false → P (n s))
      → P ((if b then m else n) s)
  after_if true m n s hm hn = hm refl
  after_if false m n s hm hn = hn refl

module _ {ℓ} {S A B : Type ℓ} where
  continue_pure : (r : Result A) (b : B) (s : S) → (continue_with (λ _. pure b) r s).1 ≡ s
  unfolding pure
  continue_pure (ok a) b s = refl
  continue_pure (err e) b s = refl

  -- A last `pure` leaves the state as it is.
  pub then_pure : (m : Eff S A) (b : B) (s : S) → ((m >> pure b) s).1 ≡ (m s).1
  unfolding ◌>>=◌ pure
  then_pure m b s = let (r, s') = m s in continue_pure r b s'

module _ {ℓ} {S A B : Type ℓ} {J I : S → Type ℓ} (weaken : (s : S) → J s → I s) where
  then_continue :
      (r : Result A) (s : S) (f : A → Eff S B)
      → ((a : A) (t : S) → J t → I (f a t).1)
      → J s
      → I (((λ t. (r, t)) >>= f) s).1
  unfolding ◌>>=◌
  then_continue (ok a) s f kf h = kf a s h
  then_continue (err e) s f kf h = weaken s h

  -- A first action that keeps `J`, and a rest that leads from `J` to `I`.
  pub then_reaches :
      (m : Eff S A) (f : A → Eff S B)
      → Keeps J m
      → ((a : A) (t : S) → J t → I (f a t).1)
      → (s : S) → J s
      → I ((m >>= f) s).1
  unfolding ◌>>=◌
  then_reaches m f km kf s h = let (r, s') = m s in then_continue r s' f kf (km.at s h)

module _ {ℓ} {S A B : Type ℓ} where
  continued :
      (r : Result A) (s t : S) (f : A → Eff S B) (b : B)
      → continue_with f r s ≡ (ok b, t)
      → (a : A) × (◌≡◌ {A = Result A × S} (r, s) (ok a, s) × (f a s ≡ (ok b, t)))
  continued (ok a) s t f b h = (a, (refl, h))
  continued (err e) s t f b h = ground (arith, h)

  -- What returned has returned from its first action.
  pub bind_returned :
      (m : Eff S A) (f : A → Eff S B) (s t : S) (b : B)
      → (m >>= f) s ≡ (ok b, t)
      → (a : A) × ((m s ≡ (ok a, (m s).1)) × (f a (m s).1 ≡ (ok b, t)))
  unfolding ◌>>=◌
  bind_returned m f s t b h = let (r, s') = m s in continued r s' t f b h

module _ {ℓ} {A : Type ℓ} where
  unmapped : (f : Error → Error) (r : Result A) (a : A) → map_error f r ≡ ok a → r ≡ ok a
  unmapped f (ok x) a h = h
  unmapped f (err e) a h = ground (arith, h)

module _ {ℓ} {S A : Type ℓ} where
  pub with_error-returned :
      (f : Error → Error) (m : Eff S A) (s : S) (a : A)
      → (with_error f m s).0 ≡ ok a
      → (m s).0 ≡ ok a
  unfolding with_error
  with_error-returned f m s a h = unmapped f (m s).0 a h

  -- The same, with the state.
  pub wrapped_pair :
      (f : Error → Error) (m : Eff S A) (s : S) (a : A) (t : S)
      → with_error f m s ≡ (ok a, t)
      → m s ≡ (ok a, t)
  unfolding with_error
  wrapped_pair f m s a t h =
      λ i. (with_error-returned f m s a (ap (λ p. p.0) h) i, (ap (λ p. p.1) h) i)

module _ {ℓ} {S A : Type ℓ} {I : S → Type ℓ} where
  pub Keeps-for_each :
      (xs : List A) (body : A → Eff S (Unit {ℓ}))
      → ((x : A) → Keeps I (body x))
      → Keeps I (for_each xs body)
  unfolding for_each
  Keeps-for_each [] body k = Keeps-pure tt
  Keeps-for_each (x ∷ xs) body k =
      Keeps-bind (body x) (λ _. for_each xs body) (k x) (λ _. Keeps-for_each xs body k)

module _ {ℓ} {S A B : Type ℓ} {I : S → Type ℓ} where
  Keeps-continue_with :
      (r : Result A) (f : A → Eff S B)
      → ((a : A) → r ≡ ok a → Keeps I (f a))
      → Keeps I (from_result r >>= f)
  unfolding ◌>>=◌
  Keeps-continue_with (ok a) f kf = kf a refl
  Keeps-continue_with (err e) f kf = Keeps-throw e

  -- The rest keeps the invariant at what the first action can return.
  pub Keeps-bind_returned :
      (m : Eff S A) (f : A → Eff S B)
      → Keeps I m
      → ((a : A) (s : S) → m s ≡ (ok a, (m s).1) → Keeps I (f a))
      → Keeps I (m >>= f)
  unfolding ◌>>=◌
  Keeps-bind_returned m f km kf = record {
    at = λ s h.
        let (r, s') = m s in
        (Keeps-continue_with r f λ a good. kf a s (λ i. (good i, s'))).at s' (km.at s h);
  }

pub ruleset keeps_rules = (
  Keeps-pure, Keeps-throw, Keeps-gets, Keeps-attempt, Keeps-from_result, Keeps-with_error, Keeps-if,
  Keeps-modify, Keeps-bind, Keeps-for_each,
)
