-- ===== src/Engine/Failures.antt =====
-- The failure of a step, with the memory stores: what `runStep` and `fail` leave.
use drishti_server_migration.Base.{
  String, false, Option, none, some, List, [], Error, wrap, err, Eff, pure, throw, gets, modify,
  attempt, with_error, on_part, ◌>>=◌, ◌≡◌, ◌∙◌, ap, sym, Message, of_error, refl, arith,
}
use drishti_server_migration.Base.Dict.{lookup, insert, lookup-insert_self}
use drishti_server_migration.Domain.{Job, Step, failed, is_succeeded, Time}
use drishti_server_migration.Stores.{outside}
use drishti_server_migration.Stores.JobStore
use drishti_server_migration.Engine.{
  Engine, Run, in_world, call, edit, clock, save_value, audit_value, write_audit, fail,
}
use drishti_server_migration.Engine.Completion.{find_step-update_step_self}
use drishti_server_migration.Engine.Steps.{
  update_step, find_step, edit_step, start_step, fail_step, settle, start, resume, run_step,
}

-- The step failed, with this message.
abbrev pub failure_of : Option Step → Option Message
failure_of none = none
failure_of (some s) = elim s.state [ failed ↦ some s.message | _ ↦ none ]

module _ {X : Type 0} (e : Engine X) (memory : e.backend ≡ none) (quiet : e.audit ≡ none) where
  -- The job as the failure of a step leaves it.
  abbrev failed_job : String → Error → Time → Time → Job → Job
  failed_job name cause t u j = record j {
    state = failed;
    finished_at = some u;
    steps = update_step name (fail_step t cause) j.steps;
  }

  settle-failure :
      {A : Type 0} (name : String) (cause : Error) (r : Run X)
      → let (t, x) = e.now r.world.ext in
        let (u, y) = e.now x in
        let (o, r') = settle e {A = A} name (err cause) r in
        (o ≡ err (wrap name [] cause))
        × (r'.value ≡ failed_job name cause t u r.value)
        × (lookup r.value.id r'.world.jobs ≡ some (failed_job name cause t u r.value))
  unfolding settle fail clock edit save_value audit_value write_audit call in_world outside on_part
      JobStore.save ◌>>=◌ pure throw modify with_error
  settle-failure name cause r =
      let (t, x) = e.now r.world.ext in
      let (u, y) = e.now x in
      ground (
        arith,
        memory,
        quiet,
        lookup-insert_self r.value.id (failed_job name cause t u r.value) r.world.jobs,
      )

  -- The run when the function of a step returns.
  abbrev after_function : {A : Type 0} → String → Eff X A → Run X → Run X
  after_function name fn r =
      let (t, x) = e.now r.world.ext in
      let started = edit_step name (start_step t) r.value in
      record {
        world = record r.world { jobs = insert r.value.id started r.world.jobs; ext = (fn x).1 };
        value = started;
      }

  run_step-settle :
      {A : Type 0} (name : String) (cause : Error) (fn : Eff X A) (s : Step) (r : Run X)
      → find_step name r.value.steps ≡ some s
      → is_succeeded s.state ≡ false
      → (fn (e.now r.world.ext).1).0 ≡ err cause
      → run_step e name fn r ≡ settle e name (err cause) (after_function name fn r)
  unfolding run_step resume start clock edit save_value call in_world outside on_part JobStore.save
      ◌>>=◌ pure throw gets attempt modify with_error
  run_step-settle name cause fn s r found more failure =
      ground (arith, memory, found, more, failure)

  failed_twice :
      (name : String) (cause : Error) (t u : Time) (s : Step) (ss : List Step)
      → find_step name ss ≡ some s
      → failure_of (
          find_step name
            (update_step name (fail_step u cause) (update_step name (start_step t) ss)))
        ≡ some (of_error cause)
  failed_twice name cause t u s ss found = ground (
    arith,
    found,
    find_step-update_step_self name (start_step t) ss (λ _. refl),
    find_step-update_step_self name (fail_step u cause) (update_step name (start_step t) ss)
        (λ _. refl),
  )

  -- With the memory store and no audit writer: when the function of a step that is not completed
  -- fails, the step returns the error under its name, the step and the job are failed, the step
  -- with the error as its message, and so they are stored.
  pub run_step-failure :
      {A : Type 0} (name : String) (cause : Error) (fn : Eff X A) (s : Step) (r : Run X)
      → find_step name r.value.steps ≡ some s
      → is_succeeded s.state ≡ false
      → (fn (e.now r.world.ext).1).0 ≡ err cause
      → let (o, r') = run_step e name fn r in
        (o ≡ err (wrap name [] cause))
        × (r'.value.state ≡ failed)
        × (failure_of (find_step name r'.value.steps) ≡ some (of_error cause))
        × (lookup r.value.id r'.world.jobs ≡ some r'.value)
  run_step-failure {A} name cause fn s r found more failure =
      let r2 = after_function name fn r in
      let (t, x) = e.now r.world.ext in
      let (u, y) = e.now r2.world.ext in
      let (o, same, stored) = settle-failure {A = A} name cause r2 in
      rw (run_step-settle name cause fn s r found more failure) (
        o,
        ap (λ j. j.state) same,
        ap (λ j. failure_of (find_step name j.steps)) same
            ∙ failed_twice name cause t u s r.value.steps found,
        stored ∙ ap some (sym same),
      )
