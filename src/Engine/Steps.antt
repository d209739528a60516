-- ===== src/Engine/Steps.antt =====
-- `runStep`, `setStepMessage` and `defaultSteps`: a step is found by its name, runs once, and is
-- skipped when an earlier execution has completed it.
use drishti_server_migration.Base.{
  String, Option, none, some, List, [], ◌∷◌, Error, errorf, wrap, str, Message, plain, of_error,
  Result, ok, err, Eff, pure, throw, gets, attempt, with_error, ◌>>=◌, ◌>>◌, if◌then◌else◌, ◌==◌,
}
use drishti_server_migration.Domain.{Job, Step, running, succeeded, failed, is_succeeded, Time}
use drishti_server_migration.Engine.{Engine, Run, call, edit, clock, save_value, fail}

-- A change of the first step with the name.
unfoldable pub update_step : String → (Step → Step) → List Step → List Step
update_step name f [] = []
update_step name f (s ∷ ss) = if s.name == name then f s ∷ ss else s ∷ update_step name f ss

unfoldable pub find_step : String → List Step → Option Step
find_step name [] = none
find_step name (s ∷ ss) = if s.name == name then some s else find_step name ss

abbrev pub edit_step : String → (Step → Step) → Job → Job
edit_step name f j = record j { steps = update_step name f j.steps }

abbrev pub start_step : Time → Step → Step
start_step t s = record s {
  state = running;
  started_at = some t;
  finished_at = none;
  message = plain "running";
}

abbrev pub fail_step : Time → Error → Step → Step
fail_step t e s = record s { state = failed; message = of_error e; finished_at = some t }

abbrev pub complete_step : Time → Step → Step
complete_step t s = record s {
  state = succeeded;
  finished_at = some t;
  message = plain "completed";
}

abbrev pub message_step : Message → Step → Step
message_step m s = record s { message = m }

unfoldable pub set_step_message : Job → String → Message → Job
unfolding update_step
set_step_message value name message = edit_step name (message_step message) value

module _ {X : Type 0} (e : Engine X) {A : Type 0} where
  -- From the return of the step's function on.
  unfoldable pub settle : String → Result A → Eff (Run X) (Option A)
  settle name (err cause) = do
    finished ← clock e
    edit (edit_step name (fail_step finished cause))
    fail e (wrap name [] cause)
  settle name (ok a) = do
    finished ← clock e
    edit (edit_step name (complete_step finished))
    with_error (wrap "persist completed step %q" (str name ∷ [])) (save_value e)
    pure (some a)

  unfoldable pub start : String → Eff X A → Eff (Run X) (Option A)
  start name fn = do
    started ← clock e
    edit (edit_step name (start_step started))
    with_error (wrap "persist running step %q" (str name ∷ [])) (save_value e)
    result ← attempt (call fn)
    settle name result

  -- What follows the search of the step.
  unfoldable pub resume : String → Eff X A → Option Step → Eff (Run X) (Option A)
  resume name fn none = throw (errorf "job step %q not found" (str name ∷ []))
  resume name fn (some s) = if is_succeeded s.state then pure none else start name fn

  -- `runStep`; the result of the function is `none` when the step was skipped.
  unfoldable pub run_step : String → Eff X A → Eff (Run X) (Option A)
  run_step name fn = do found ← gets (λ r. find_step name r.value.steps); resume name fn found
