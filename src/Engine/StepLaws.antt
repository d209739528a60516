-- ===== src/Engine/StepLaws.antt =====
-- What the actions of the engine do to the steps of the job.
use drishti_server_migration.Base.{
  String, Bool, true, false, Option, none, some, List, [], ◌∷◌, Error, Result, ok, err, Eff, pure,
  throw, ◌>>=◌, ◌≡◌, refl, arith, eq_iff, ◌==◌, if◌then◌else◌, Bool-cases, inl, inr,
}
use drishti_server_migration.Base.Hoare.{Keeps, Keeps-pure, Keeps-throw, Keeps-bind, keeps_rules}
use drishti_server_migration.Domain.{Job, Step, is_succeeded, AuditEvent}
use drishti_server_migration.Stores.{World}
use drishti_server_migration.Engine.{
  Engine, Run, in_world, call, edit, clock, save_value, audit_value, fail,
}
use drishti_server_migration.Engine.Steps.{
  update_step, find_step, edit_step, settle, start, resume, run_step,
}

-- The step with the name has completed.
abbrev did_succeed : Option Step → Bool
did_succeed none = false
did_succeed (some s) = is_succeeded s.state

abbrev pub is_done : String → Job → Bool
is_done name j = did_succeed (find_step name j.steps)

-- A change that keeps the names of steps is seen at its own name only.
pub find_step-update_step :
    (name other : String) (f : Step → Step) (ss : List Step)
    → ((s : Step) → (f s).name ≡ s.name)
    → find_step other (update_step name f ss)
      ≡ (if name == other then find_step other (update_step name f ss) else find_step other ss)
unfolding find_step update_step
find_step-update_step name other f [] h = ground arith
find_step-update_step name other f (s ∷ ss) h = ground (
  arith,
  h s,
  eq_iff name other,
  eq_iff s.name name,
  eq_iff s.name other,
  find_step-update_step name other f ss h,
)

-- A predicate on the job that the run holds.
pub record OnValue {X : Type 0} (P : Job → Type 0) (r : Run X) : Type 0 where
  pub holds : P r.value

module _ {X A : Type 0} {P : Job → Type 0} where
  pub Keeps-in_world : (m : Eff (World X) A) → Keeps (OnValue P) (in_world m)
  unfolding in_world
  Keeps-in_world m = record { at = λ r h. record { holds = h.holds } }

  pub Keeps-call : (m : Eff X A) → Keeps (OnValue P) (call m)
  unfolding call
  Keeps-call m = record { at = λ r h. record { holds = h.holds } }

module _ {X : Type 0} {P : Job → Type 0} where
  pub Keeps-edit :
      (f : Job → Job) → ((j : Job) → P j → P (f j)) → Keeps (OnValue {X = X} P) (edit f)
  unfolding edit
  Keeps-edit f h = record { at = λ r p. record { holds = h r.value p.holds } }

  pub Keeps-clock : (e : Engine X) → Keeps (OnValue P) (clock e)
  unfolding clock
  Keeps-clock e = record { at = λ r h. record { holds = h.holds } }

  pub Keeps-save_value : (e : Engine X) → Keeps (OnValue P) (save_value e)
  unfolding save_value
  Keeps-save_value e = record { at = λ r h. record { holds = h.holds } }

  pub Keeps-audit_value :
      (e : Engine X) (event : Job → AuditEvent) → Keeps (OnValue P) (audit_value e event)
  unfolding audit_value
  Keeps-audit_value e event = record { at = λ r h. record { holds = h.holds } }

pub ruleset value_rules = (
  keeps_rules, Keeps-in_world, Keeps-call, Keeps-edit, Keeps-clock, Keeps-save_value,
  Keeps-audit_value,
)

-- The step with the name is done.
abbrev pub IsDone : String → Job → Type 0
IsDone name j = is_done name j ≡ true

module _ {X : Type 0} (e : Engine X) (name : String) where
  pub fail-IsDone :
      {A : Type 0} (cause : Error) → Keeps (OnValue (IsDone name)) (fail e {A = A} cause)
  unfolding fail
  fail-IsDone cause = search value_rules depth 9

  -- A change of another step.
  edit_step-IsDone :
      (other : String) (f : Step → Step)
      → ((s : Step) → (f s).name ≡ s.name)
      → (other == name) ≡ false
      → Keeps (OnValue {X = X} (IsDone name)) (edit (edit_step other f))
  edit_step-IsDone other f h ne =
      Keeps-edit (edit_step other f)
        λ j d. ground (arith, find_step-update_step other name f j.steps h)

  settle-IsDone :
      {A : Type 0} (other : String) (r : Result A)
      → (other == name) ≡ false
      → Keeps (OnValue (IsDone name)) (settle e other r)
  unfolding settle
  settle-IsDone other (ok a) ne = search (value_rules, edit_step-IsDone) depth 9
  settle-IsDone other (err c) ne = search (value_rules, fail-IsDone, edit_step-IsDone) depth 9

  start-IsDone :
      {A : Type 0} (other : String) (fn : Eff X A)
      → (other == name) ≡ false
      → Keeps (OnValue (IsDone name)) (start e other fn)
  unfolding start
  start-IsDone other fn ne = search (value_rules, settle-IsDone, edit_step-IsDone) depth 9

  resume-IsDone :
      {A : Type 0} (other : String) (fn : Eff X A) (r : Run X) (o : Option Step)
      → find_step other r.value.steps ≡ o
      → OnValue (IsDone name) r
      → OnValue (IsDone name) (resume e other fn o r).1
  unfolding resume
  resume-IsDone other fn r none found h = unfold throw in h
  resume-IsDone other fn r (some s) found h = elim (Bool-cases (is_succeeded s.state)) [
    | inl done ↦ rw done (unfold pure in h)
    | inr more ↦
        rw more
          ((start-IsDone other fn (ground (arith, found, more, h.holds, eq_iff other name))).at r h)
  ]

  -- A completed step stays completed.
  pub run_step-IsDone :
      {A : Type 0} (other : String) (fn : Eff X A)
      → Keeps (OnValue (IsDone name)) (run_step e other fn)
  unfolding run_step ◌>>=◌
  run_step-IsDone other fn = record { at = λ r h. resume-IsDone other fn r _ refl h }
