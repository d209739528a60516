-- ===== src/Engine/Outcome.antt =====
-- What an execution leaves in the job: nothing completed is undone, and a returned job has
-- completed every step that the engine runs.
use drishti_server_migration.Base.{
  ℕ, zero, suc, String, ℤ, Option, none, some, List, [], ◌∷◌, Arg, Message, Result, ok, err, Eff,
  ◌≡◌, refl, arith,
}
use drishti_server_migration.Base.Hoare.{Keeps, Keeps-bind}
use drishti_server_migration.Base.Triples.{Ensures}
use drishti_server_migration.Domain.{Plan, Job, Step, pending, TargetNode}
use drishti_server_migration.Platform.{TargetAdapter}
use drishti_server_migration.Stores.{World}
use drishti_server_migration.Engine.{Engine, edit}
use drishti_server_migration.Engine.Steps.{find_step, update_step, set_step_message, message_step}
use drishti_server_migration.Engine.Execute.{
  message_at, begin, persist_vmid, or_fail, reserve_for, reserve, record_evidence, mark_waiting,
  finish,
}
use drishti_server_migration.Engine.StepLaws.{
  OnValue, IsDone, is_done, find_step-update_step, Keeps-edit, fail-IsDone, run_step-IsDone,
  value_rules,
}

module _ (name : String) where
  pub message_at-IsDone :
      (i : ℕ) (m : Message) (j : Job) (ss : List Step)
      → IsDone name (record j { steps = ss })
      → IsDone name (record j { steps = message_at i m ss })
  unfolding message_at find_step
  message_at-IsDone i m j [] h = h
  message_at-IsDone zero m j (s ∷ ss) h = ground arith
  message_at-IsDone (suc i) m j (s ∷ ss) h = ground (arith, message_at-IsDone i m j ss)

  pub set_step_message-IsDone :
      (other : String) (m : Message) (j : Job) (ss : List Step)
      → IsDone name (record j { steps = ss })
      → IsDone name (record j { steps = update_step other (message_step m) ss })
  unfolding update_step find_step
  set_step_message-IsDone other m j [] h = h
  set_step_message-IsDone other m j (s ∷ ss) h =
      ground (arith, set_step_message-IsDone other m j ss)

module _ {X : Type 0} (e : Engine X) (name : String) where
  pub begin-IsDone : (plan : Plan) → Keeps (OnValue (IsDone name)) (begin e plan)
  unfolding begin
  begin-IsDone plan = search value_rules depth 9

  pub or_fail-IsDone :
      {A : Type 0} (context : String) (r : Result A)
      → Keeps (OnValue (IsDone name)) (or_fail e context r)
  unfolding or_fail
  or_fail-IsDone context (ok a) = search value_rules
  or_fail-IsDone context (err c) = search fail-IsDone

  pub persist_vmid-IsDone :
      (w : Option (Plan → Eff (World X) Unit)) (plan : Plan)
      → Keeps (OnValue (IsDone name)) (persist_vmid e w plan)
  unfolding persist_vmid
  persist_vmid-IsDone none plan = search value_rules
  persist_vmid-IsDone (some w) plan = search value_rules

  pub reserve_for-IsDone :
      (tgt : TargetAdapter X) (plan : Plan) (node : TargetNode) (v : Option ℤ)
      → Keeps (OnValue (IsDone name)) (reserve_for e tgt plan node v)
  unfolding reserve_for
  reserve_for-IsDone tgt plan node (some v) = search value_rules
  reserve_for-IsDone tgt plan node none =
      search (value_rules, or_fail-IsDone, persist_vmid-IsDone) depth 12

  pub reserve-IsDone :
      (tgt : TargetAdapter X) (plan : Plan) (node : TargetNode)
      → Keeps (OnValue (IsDone name)) (reserve e tgt plan node)
  unfolding reserve
  reserve-IsDone tgt plan node = reserve_for-IsDone tgt plan node plan.target_vmid

  pub record_evidence-IsDone :
      (ls : List (List Arg)) → Keeps (OnValue (IsDone name)) (record_evidence e ls)
  unfolding record_evidence set_step_message
  record_evidence-IsDone [] = search value_rules
  record_evidence-IsDone (l ∷ ls) =
      Keeps-bind _ _ (Keeps-edit _ λ j h. set_step_message-IsDone name _ _ j j.steps h)
        λ _. search value_rules

  pub mark_waiting-IsDone : Keeps (OnValue (IsDone name)) (mark_waiting e)
  unfolding mark_waiting
  mark_waiting-IsDone =
      search (value_rules, λ (m : Message) (j : Job). message_at-IsDone name 7 m j j.steps) depth 9

  pub finish-IsDone : (plan : Plan) → Keeps (OnValue (IsDone name)) (finish e plan)
  unfolding finish
  finish-IsDone plan = search (value_rules, mark_waiting-IsDone) depth 9

pub ruleset done_rules = (
  value_rules, begin-IsDone, or_fail-IsDone, reserve-IsDone, record_evidence-IsDone, finish-IsDone,
  run_step-IsDone,
)

pub becomes_pending :
    {X : Type 0} (f : List Step → List Step)
    → Ensures
        (OnValue {X = X} (λ j. j.state ≡ pending))
        (edit (λ j. record j { state = pending; steps = f j.steps }))
unfolding edit
becomes_pending f = record { at = λ r _. record { holds = refl } }
