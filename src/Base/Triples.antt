-- ===== src/Base/Triples.antt =====
-- Pre- and postconditions of actions: one condition for a return and one for a failure.
use mathlib.Core.Path.{◌≡◌, subst}
use mathlib.Core.Bool.{Bool, true, false}
use drishti_server_migration.Base.Tests.{if◌then◌else◌}
use drishti_server_migration.Base.Errors.{Error, Result, ok, err}
use drishti_server_migration.Base.Effects.{Eff, throw, ◌>>=◌}
use drishti_server_migration.Base.Hoare.{Keeps}

abbrev pub After {ℓ} : {S A : Type ℓ} → (A → S → Type ℓ) → (S → Type ℓ) → Result A × S → Type ℓ
After Q E (ok a, s) = Q a s
After Q E (err e, s) = E s

pub record Triple {ℓ} {S A : Type ℓ} (P : S → Type ℓ) (m : Eff S A) (Q : A → S → Type ℓ)
    (E : S → Type ℓ) : Type ℓ where
  pub at : (s : S) → P s → After Q E (m s)

-- The state satisfies `Q` whenever the action returns.
abbrev pub Ensures {ℓ} : {S A : Type ℓ} → (S → Type ℓ) → Eff S A → Type ℓ
Ensures Q m = Triple (λ _. Unit) m (λ _. Q) (λ _. Unit)

module _ {ℓ} {S A B : Type ℓ} {Q : A → S → Type ℓ} {R : B → S → Type ℓ} {E : S → Type ℓ} where
  triple_continue :
      (r : Result A) (s : S) (f : A → Eff S B)
      → ((a : A) → Triple (Q a) (f a) R E)
      → After Q E (r, s)
      → After R E (((λ t. (r, t)) >>= f) s)
  unfolding ◌>>=◌
  triple_continue (ok a) s f kf h = (kf a).at s h
  triple_continue (err e) s f kf h = h

  pub triple_bind :
      {P : S → Type ℓ} (m : Eff S A) (f : A → Eff S B)
      → Triple P m Q E
      → ((a : A) → Triple (Q a) (f a) R E)
      → Triple P (m >>= f) R E
  unfolding ◌>>=◌
  triple_bind m f km kf = record {
    at = λ s h. let (r, s') = m s in triple_continue r s' f kf (km.at s h);
  }

module _ {ℓ} {S A : Type ℓ} where
  after_weaken :
      {Q Q' : A → S → Type ℓ} {E E' : S → Type ℓ} (r : Result A) (s : S)
      → ((a : A) (s : S) → Q a s → Q' a s)
      → ((s : S) → E s → E' s)
      → After Q E (r, s)
      → After Q' E' (r, s)
  after_weaken (ok a) s q e h = q a s h
  after_weaken (err x) s q e h = e s h

  pub triple_weaken :
      {P P' : S → Type ℓ} {Q Q' : A → S → Type ℓ} {E E' : S → Type ℓ} (m : Eff S A)
      → ((s : S) → P' s → P s)
      → ((a : A) (s : S) → Q a s → Q' a s)
      → ((s : S) → E s → E' s)
      → Triple P m Q E
      → Triple P' m Q' E'
  triple_weaken m p q e k = record {
    at = λ s h. let (r, s') = m s in after_weaken r s' q e (k.at s (p s h));
  }

  after_of_state : (I : S → Type ℓ) (r : Result A) (s : S) → I s → After (λ _. I) I (r, s)
  after_of_state I (ok a) s h = h
  after_of_state I (err e) s h = h

  pub triple-Keeps : {I : S → Type ℓ} (m : Eff S A) → Keeps I m → Triple I m (λ _. I) I
  triple-Keeps m k = record { at = λ s h. let (r, s') = m s in after_of_state _ r s' (k.at s h) }

module _ {ℓ} {S A : Type ℓ} where
  anything : (r : Result A) (s : S) → After {S = S} (λ _ _. Unit {ℓ}) (λ _. Unit {ℓ}) (r, s)
  anything (ok a) s = tt
  anything (err e) s = tt

module _ {ℓ} {S A B : Type ℓ} {R : B → S → Type ℓ} where
  -- What the rest ensures, whatever `m` does.
  pub Ensures-later :
      (m : Eff S A) (f : A → Eff S B)
      → ((a : A) → Triple (λ _. Unit {ℓ}) (f a) R (λ _. Unit {ℓ}))
      → Triple (λ _. Unit {ℓ}) (m >>= f) R (λ _. Unit {ℓ})
  Ensures-later m f kf =
      triple_bind m f (record { at = λ s h. let (r, s') = m s in anything r s' }) kf

module _ {ℓ} {S A B : Type ℓ} {Q : S → Type ℓ} where
  -- What `m` ensures and the rest keeps.
  pub Ensures-here :
      (m : Eff S A) (f : A → Eff S B)
      → Ensures Q m
      → ((a : A) → Keeps Q (f a))
      → Ensures Q (m >>= f)
  Ensures-here m f km kf =
      triple_bind m f km
        λ a. triple_weaken (f a) (λ s h. h) (λ b s h. h) (λ s h. tt) (triple-Keeps (f a) (kf a))

  -- A first action that keeps the precondition.
  pub triple_keep :
      {R : B → S → Type ℓ} (m : Eff S A) (f : A → Eff S B)
      → Keeps Q m
      → ((a : A) → Triple Q (f a) R (λ _. Unit {ℓ}))
      → Triple Q (m >>= f) R (λ _. Unit {ℓ})
  triple_keep m f km kf =
      triple_bind m f (triple_weaken m (λ s h. h) (λ a s h. h) (λ s h. tt) (triple-Keeps m km)) kf

module _ {ℓ} {S A : Type ℓ} where
  pub Ensures-throw : {Q : S → Type ℓ} (x : Error) → Ensures {A = A} Q (throw x)
  unfolding throw
  Ensures-throw x = record { at = λ s h. tt }

  pub Ensures-if :
      {Q : S → Type ℓ} (b : Bool) (m n : Eff S A)
      → Ensures Q m
      → Ensures Q n
      → Ensures Q (if b then m else n)
  Ensures-if true m n km kn = km
  Ensures-if false m n km kn = kn

module _ {ℓ} {S A : Type ℓ} {Q : A → S → Type ℓ} {E : S → Type ℓ} where
  -- The postcondition at a known return.
  pub returned :
      {P : S → Type ℓ} {m : Eff S A} {s s' : S} {a : A}
      → Triple P m Q E
      → P s
      → m s ≡ (ok a, s')
      → Q a s'
  returned {s} t p e = subst (After Q E) e (t.at s p)
