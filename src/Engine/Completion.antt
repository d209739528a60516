-- ===== src/Engine/Completion.antt =====
-- A step that runs and returns is completed.
use drishti_server_migration.Base.{
  String, Bool, true, false, Option, none, some, List, [], ◌∷◌, Error, Result, ok, err, Eff, pure,
  throw, ◌>>=◌, ◌≡◌, refl, arith, eq_iff, Bool-cases, inl, inr,
}
use drishti_server_migration.Base.Hoare.{Keeps}
use drishti_server_migration.Base.Triples.{
  After, Triple, Ensures, triple_bind, triple_keep, triple_weaken, triple-Keeps, Ensures-later,
  Ensures-throw,
}
use drishti_server_migration.Domain.{Job, Step, is_succeeded, Time}
use drishti_server_migration.Engine.{Engine, Run, edit, fail}
use drishti_server_migration.Engine.Steps.{
  update_step, find_step, edit_step, start_step, complete_step, settle, start, resume, run_step,
}
use drishti_server_migration.Engine.StepLaws.{OnValue, IsDone, value_rules}

abbrev is_there : Option Step → Bool
is_there none = false
is_there (some s) = true

-- The job has a step with the name.
abbrev HasStep : String → Job → Type 0
HasStep name j = is_there (find_step name j.steps) ≡ true

abbrev pub map_step : (Step → Step) → Option Step → Option Step
map_step f none = none
map_step f (some s) = some (f s)

pub find_step-update_step_self :
    (name : String) (f : Step → Step) (ss : List Step)
    → ((s : Step) → (f s).name ≡ s.name)
    → find_step name (update_step name f ss) ≡ map_step f (find_step name ss)
unfolding find_step update_step
find_step-update_step_self name f [] h = refl
find_step-update_step_self name f (s ∷ ss) h =
    ground (arith, h s, eq_iff s.name name, find_step-update_step_self name f ss h)

module _ {X : Type 0} (e : Engine X) (name : String) where
  edit_step-HasStep :
      (f : Step → Step)
      → ((s : Step) → (f s).name ≡ s.name)
      → (j : Job) → HasStep name j
      → HasStep name (edit_step name f j)
  edit_step-HasStep f h j has = ground (arith, find_step-update_step_self name f j.steps h)

  complete-IsDone :
      (t : Time)
      → Triple
          (OnValue {X = X} (HasStep name))
          (edit (edit_step name (complete_step t)))
          (λ _. OnValue (IsDone name))
          (λ _. Unit)
  unfolding edit
  complete-IsDone t = record {
    at = λ r h. record {
      holds = ground (
        arith,
        h.holds,
        find_step-update_step_self name (complete_step t) r.value.steps (λ s. refl),
      );
    };
  }

  fail-Ensures :
      {A : Type 0} {Q : Run X → Type 0} (cause : Error) → Ensures Q (fail e {A = A} cause)
  unfolding fail
  fail-Ensures cause =
      Ensures-later _ _ λ t.
        Ensures-later _ _ λ _. Ensures-later _ _ λ _. Ensures-later _ _ λ _. Ensures-throw cause

  keep_then :
      {A : Type 0} (m : Eff (Run X) A)
      → Keeps (OnValue (IsDone name)) m
      → Triple (OnValue (IsDone name)) m (λ _. OnValue (IsDone name)) (λ _. Unit)
  keep_then m k = triple_weaken m (λ s h. h) (λ a s h. h) (λ s h. tt) (triple-Keeps m k)

  settle-completes :
      {A : Type 0} (r : Result A)
      → Triple (OnValue (HasStep name)) (settle e name r) (λ _. OnValue (IsDone name)) (λ _. Unit)
  unfolding settle
  settle-completes (ok a) =
      triple_keep _ _ (search value_rules)
        λ t. triple_bind _ _ (complete-IsDone t) λ _. keep_then _ (search value_rules)
  settle-completes (err c) =
      triple_weaken _ (λ s h. tt) (λ a s h. h) (λ s h. tt)
        (Ensures-later _ _ λ t. Ensures-later _ _ λ _. fail-Ensures _)

  start-completes :
      {A : Type 0} (fn : Eff X A)
      → Triple (OnValue (HasStep name)) (start e name fn) (λ _. OnValue (IsDone name)) (λ _. Unit)
  unfolding start
  start-completes fn = triple_keep _ _ (search value_rules) λ t.
      triple_keep _ _ (search (value_rules, edit_step-HasStep (start_step t) (λ s. refl))) λ _.
        triple_keep _ _ (search value_rules)
          λ _. triple_keep _ _ (search value_rules) λ r. settle-completes r

  resume-completes :
      {A : Type 0} (fn : Eff X A) (r : Run X) (o : Option Step)
      → find_step name r.value.steps ≡ o
      → After (λ _. OnValue (IsDone name)) (λ _. Unit) (resume e name fn o r)
  unfolding resume
  resume-completes fn r none found = unfold throw in tt
  resume-completes fn r (some s) found = elim (Bool-cases (is_succeeded s.state)) [
    | inl done ↦ rw done (unfold pure in record { holds = ground (arith, found, done) })
    | inr more ↦ rw more ((start-completes fn).at r (record { holds = ground (arith, found) }))
  ]

  -- Whenever `run_step` returns, its step is completed.
  pub run_step-completes :
      {A : Type 0} (fn : Eff X A) → Ensures (OnValue (IsDone name)) (run_step e name fn)
  unfolding run_step ◌>>=◌
  run_step-completes fn = record { at = λ r _. resume-completes fn r _ refl }
