-- ===== src/Engine/ExternalLaws.antt =====
-- The jobs of Proxmox tasks in the memory store: how they end, and that a late report changes
-- nothing.
use drishti_server_migration.Base.{
  String, false, Option, none, some, List, [], ◌∷◌, Error, Message, of_error, plain, if◌then◌else◌,
  ap, Bool-cases, inl, inr, ok, pure, throw, gets, modify, on_part, ◌>>=◌, ◌≡◌, refl, arith, ◌==◌,
  eq_iff,
}
use drishti_server_migration.Base.Dict.{lookup, lookup-insert, lookup-insert_self}
use drishti_server_migration.Domain.{Job, Step, JobState, succeeded, failed, Time}
use drishti_server_migration.Stores.{World, outside}
use drishti_server_migration.Stores.JobStore
use drishti_server_migration.Engine.{Engine}
use drishti_server_migration.Engine.External.{
  finish_job, finish_step, finished_message, world_clock, finish_found, finish_external,
  update_found, update_external,
}

-- The state of a stored job.
abbrev pub state_of : Option Job → Option JobState
state_of none = none
state_of (some j) = some j.state

-- A job whose task has ended at a time: it and its first step have succeeded, with a message for the
-- kind of the migration, or failed with the error as the step's message; all else of the job and of its
-- other steps is as it was.
abbrev pub IsEnded : Option Error → Time → Job → Step → List Step → Job → Type 0
IsEnded none now j s ss ended = ended ≡ record j {
  state = succeeded;
  finished_at = some now;
  steps =
      record s {
        state = succeeded;
        message = plain (
            if s.name == "proxmox_live_migration"
            then "live migration completed; target is running and retained source must remain stopped"
            else "completed; source retained and target remains powered off");
        finished_at = some now;
      }
      ∷ ss;
}
IsEnded (some x) now j s ss ended = ended ≡ record j {
  state = failed;
  finished_at = some now;
  steps = record s { state = failed; message = of_error x; finished_at = some now } ∷ ss;
}

finished_message_lem :
    (name : String)
    → finished_message name
      ≡ plain (
          if name == "proxmox_live_migration"
          then "live migration completed; target is running and retained source must remain stopped"
          else "completed; source retained and target remains powered off")
finished_message_lem name = elim (Bool-cases (name == "proxmox_live_migration")) [
  | inl live ↦ rw live refl
  | inr cold ↦ rw cold refl
]

module _ {X : Type 0} (e : Engine X) (memory : e.backend ≡ none) where
  -- With the memory store, and a stored job that has a step: the end of a task without an error is
  -- stored as the success of its job and of its first step, and the end with an error as their failure
  -- with that error, each at the time of the clock, with all else of the job as it was; a progress
  -- report that comes later changes nothing.
  pub finish_external-is_final :
      (task_error : Option Error) (message : Message) (j : Job) (s : Step) (ss : List Step)
      (w : World X)
      → lookup j.id w.jobs ≡ some j
      → j.steps ≡ s ∷ ss
      → let (r, w') = finish_external e j.id task_error w in
        (r ≡ ok tt)
        × ((ended : Job) × ((lookup j.id w'.jobs ≡ some ended)
              × IsEnded task_error (e.now w.ext).0 j s ss ended))
        × (update_external e j.id message w' ≡ (ok tt, w'))
  unfolding finish_external finish_found update_external update_found world_clock outside on_part
      JobStore.get JobStore.save ◌>>=◌ pure throw gets modify
  finish_external-is_final none message j s ss w found steps =
      let ended = finish_job none (e.now w.ext).0 j s ss in
      let stored = lookup-insert_self j.id ended w.jobs in
      (
        ground (arith, memory, found, steps),
        (
          ended,
          (
            ground (arith, memory, found, steps, stored),
            ap
                (λ m. record ended {
                  steps = record (finish_step none (e.now w.ext).0 s) { message = m } ∷ ss;
                })
                (finished_message_lem s.name),
          ),
        ),
        ground (arith, memory, found, steps, stored),
      )
  finish_external-is_final (some x) message j s ss w found steps =
      let ended = finish_job (some x) (e.now w.ext).0 j s ss in
      let stored = lookup-insert_self j.id ended w.jobs in
      (
        ground (arith, memory, found, steps),
        (ended, (ground (arith, memory, found, steps, stored), refl)),
        ground (arith, memory, found, steps, stored),
      )

  update_found-keeps_states :
      (message : Message) (j : Job) (steps : List Step) (other : String) (w : World X)
      → lookup j.id w.jobs ≡ some j
      → let w' = (update_found e message j steps w).1 in
        (state_of (lookup other w'.jobs) ≡ state_of (lookup other w.jobs))
        × (((j.id == other) ≡ false) → lookup other w'.jobs ≡ lookup other w.jobs)
  unfolding update_found outside on_part JobStore.save ◌>>=◌ pure modify
  update_found-keeps_states message j [] other w found = (refl, λ _. refl)
  update_found-keeps_states message j (s ∷ ss) other w found =
      let reported = record j { steps = record s { message = message } ∷ ss } in
      ground (arith, memory, found, lookup-insert j.id other reported w.jobs, eq_iff j.id other)

  -- With the memory store, and a stored job: a progress report changes the state of no stored job,
  -- and no job but the one it names.
  pub update_external-keeps_states :
      (message : Message) (j : Job) (other : String) (w : World X)
      → lookup j.id w.jobs ≡ some j
      → let w' = (update_external e j.id message w).1 in
        (state_of (lookup other w'.jobs) ≡ state_of (lookup other w.jobs))
        × (((j.id == other) ≡ false) → lookup other w'.jobs ≡ lookup other w.jobs)
  unfolding update_external outside on_part JobStore.get ◌>>=◌ pure gets
  update_external-keeps_states message j other w found =
      ground (arith, memory, found, update_found-keeps_states message j j.steps other w found)
