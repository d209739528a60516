-- ===== src/Engine/Migrated.antt =====
-- An execution that returns has completed the six steps that the engine runs, and waits.
use drishti_server_migration.Base.{String, ℤ, Option, Result, ok, err, Eff, ◌≡◌}
use drishti_server_migration.Base.Hoare.{Keeps}
use drishti_server_migration.Base.Triples.{
  After, Triple, Ensures, Ensures-later, Ensures-here, Ensures-if, Ensures-throw, returned,
}
use drishti_server_migration.Domain.{Plan, Job, pending, Vm, TargetNode, Connection}
use drishti_server_migration.Platform.{SourceAdapter, TargetAdapter}
use drishti_server_migration.Stores.{World}
use drishti_server_migration.Engine.{Engine, Run}
use drishti_server_migration.Engine.Execute.{
  mark_waiting, finish, migrate, body, hand_back, run_on, execute_plan,
}
use drishti_server_migration.Engine.StepLaws.{OnValue, IsDone, value_rules}
use drishti_server_migration.Engine.Completion.{run_step-completes}
use drishti_server_migration.Engine.Outcome.{becomes_pending, done_rules}

-- The job of a migrated machine: every step that the engine runs is completed, and the job waits
-- for the validation and the cutover.
pub record IsMigrated (j : Job) : Type 0 where
  pub powered_off : IsDone "source_poweroff" j
  pub created : IsDone "create_target_vm" j
  pub exported : IsDone "export_disks" j
  pub converted : IsDone "convert_disks" j
  pub attached : IsDone "attach_disks" j
  pub booted : IsDone "isolated_boot" j
  pub waits : j.state ≡ pending

module _ {X : Type 0} (e : Engine X) (src : SourceAdapter X) (tgt : TargetAdapter X) (plan : Plan)
    (vm : Vm) where
  pub finish_pending : Ensures (OnValue (λ j. j.state ≡ pending)) (finish e plan)
  unfolding finish mark_waiting
  finish_pending =
      Ensures-here _ _
        (Ensures-later _ _ λ steps. Ensures-if _ _ _ (becomes_pending _) (Ensures-throw _))
        (λ _. search value_rules depth 9)

  pub migrate-IsDone :
      (name : String) (vmid : ℤ) → Keeps (OnValue (IsDone name)) (migrate e src tgt plan vm vmid)
  unfolding migrate
  migrate-IsDone name vmid = search done_rules depth 14

  -- An execution never undoes a completed step, whether it returns or fails.
  pub body-IsDone :
      (name : String) (node : TargetNode)
      → Keeps (OnValue (IsDone name)) (body e src tgt plan vm node)
  unfolding body
  body-IsDone name node = search (done_rules, migrate-IsDone) depth 9

  module _ (vmid : ℤ) where
    migrate_creates : Ensures (OnValue (IsDone "create_target_vm")) (migrate e src tgt plan vm vmid)
    unfolding migrate
    migrate_creates = Ensures-here _ _ (run_step-completes e _ _) (λ _. search done_rules depth 14)

    migrate_exports : Ensures (OnValue (IsDone "export_disks")) (migrate e src tgt plan vm vmid)
    unfolding migrate
    migrate_exports = Ensures-later _ _ λ _. Ensures-later _ _ λ _. Ensures-later _ _ λ _.
        Ensures-later _ _
          λ _. Ensures-here _ _ (run_step-completes e _ _) (λ _. search done_rules depth 14)

    migrate_converts : Ensures (OnValue (IsDone "convert_disks")) (migrate e src tgt plan vm vmid)
    unfolding migrate
    migrate_converts = Ensures-later _ _ λ _. Ensures-later _ _ λ _. Ensures-later _ _ λ _.
        Ensures-later _ _ λ _.
          Ensures-later _ _
            λ _. Ensures-here _ _ (run_step-completes e _ _) (λ _. search done_rules depth 14)

    migrate_attaches : Ensures (OnValue (IsDone "attach_disks")) (migrate e src tgt plan vm vmid)
    unfolding migrate
    migrate_attaches = Ensures-later _ _ λ _. Ensures-later _ _ λ _. Ensures-later _ _ λ _.
        Ensures-later _ _ λ _. Ensures-later _ _ λ _. Ensures-later _ _ λ _.
          Ensures-later _ _
            λ _. Ensures-here _ _ (run_step-completes e _ _) (λ _. search done_rules depth 14)

    migrate_boots : Ensures (OnValue (IsDone "isolated_boot")) (migrate e src tgt plan vm vmid)
    unfolding migrate
    migrate_boots = Ensures-later _ _ λ _. Ensures-later _ _ λ _. Ensures-later _ _ λ _.
        Ensures-later _ _ λ _. Ensures-later _ _ λ _. Ensures-later _ _ λ _. Ensures-later _ _ λ _.
          Ensures-later _ _
            λ _. Ensures-here _ _ (run_step-completes e _ _) (λ _. search done_rules depth 14)

    migrate_waits : Ensures (OnValue (λ j. j.state ≡ pending)) (migrate e src tgt plan vm vmid)
    unfolding migrate
    migrate_waits = Ensures-later _ _ λ _. Ensures-later _ _ λ _. Ensures-later _ _ λ _.
        Ensures-later _ _ λ _. Ensures-later _ _ λ _.
          Ensures-later _ _
            λ _. Ensures-later _ _ λ _. Ensures-later _ _ λ _. Ensures-later _ _ λ _. finish_pending

  module _ (node : TargetNode) where
    body_stops_source : Ensures (OnValue (IsDone "source_poweroff")) (body e src tgt plan vm node)
    unfolding body
    body_stops_source =
        Ensures-later _ _ λ _.
          Ensures-here _ _ (run_step-completes e _ _) (λ _. search (done_rules, migrate-IsDone))

    -- What the migration ensures, the body does.
    body-Ensures :
        {P : Job → Type 0}
        → ((vmid : ℤ) → Ensures (OnValue P) (migrate e src tgt plan vm vmid))
        → Ensures (OnValue P) (body e src tgt plan vm node)
    unfolding body
    body-Ensures h = Ensures-later _ _ λ _. Ensures-later _ _ λ _. Ensures-later _ _ h

    all_of :
        (o : Result Unit) (r : Run X)
        → After (λ _. OnValue (IsDone "source_poweroff")) (λ _. Unit) (o, r)
        → After (λ _. OnValue (IsDone "create_target_vm")) (λ _. Unit) (o, r)
        → After (λ _. OnValue (IsDone "export_disks")) (λ _. Unit) (o, r)
        → After (λ _. OnValue (IsDone "convert_disks")) (λ _. Unit) (o, r)
        → After (λ _. OnValue (IsDone "attach_disks")) (λ _. Unit) (o, r)
        → After (λ _. OnValue (IsDone "isolated_boot")) (λ _. Unit) (o, r)
        → After (λ _. OnValue (λ j. j.state ≡ pending)) (λ _. Unit) (o, r)
        → After (λ _. OnValue IsMigrated) (λ _. Unit) (o, r)
    all_of (err x) r p c d k a b w = tt
    all_of (ok u) r p c d k a b w = record {
      holds = record {
        powered_off = p.holds;
        created = c.holds;
        exported = d.holds;
        converted = k.holds;
        attached = a.holds;
        booted = b.holds;
        waits = w.holds;
      };
    }

    body_migrates : Ensures (OnValue IsMigrated) (body e src tgt plan vm node)
    body_migrates = record {
      at = λ r h.
          let (o, r') = body e src tgt plan vm node r in
          all_of o r' (body_stops_source.at r h) ((body-Ensures migrate_creates).at r h)
            ((body-Ensures migrate_exports).at r h) ((body-Ensures migrate_converts).at r h)
            ((body-Ensures migrate_attaches).at r h) ((body-Ensures migrate_boots).at r h)
            ((body-Ensures migrate_waits).at r h);
    }

hand_back-Ensures :
    {X : Type 0} (P : Job → Type 0) (o : Result Unit) (r : Run X)
    → After (λ _. OnValue P) (λ _. Unit) (o, r)
    → After (λ j _. P j) (λ _. Unit) (hand_back o r)
hand_back-Ensures P (ok u) r h = h.holds
hand_back-Ensures P (err x) r h = tt

-- What the body ensures of its job, `run_on` ensures of the job that it returns.
run_on-Ensures :
    {X : Type 0} {P : Job → Type 0} (e : Engine X) (value : Job) (m : Eff (Run X) Unit)
    → Ensures (OnValue P) m
    → Triple (λ _. Unit) (run_on e value m) (λ j _. P j) (λ _. Unit)
unfolding run_on
run_on-Ensures e value m h = record {
  at = λ w _.
      let (o, r) = m (record { world = w; value = value }) in
      hand_back-Ensures _ o r (h.at (record { world = w; value = value }) tt);
}

-- Whenever `execute_plan` returns a job, the job is migrated: on any platform and any stores,
-- whatever earlier executions had completed.
pub execute_plan-IsMigrated :
    {X : Type 0} (e : Engine X) (ctx : Option String) (plan : Plan) (vm : Vm) (node : TargetNode)
    (source target : Connection) (w w' : World X) (j : Job)
    → execute_plan e ctx plan vm node source target w ≡ (ok j, w')
    → IsMigrated j
unfolding execute_plan
execute_plan-IsMigrated e ctx plan vm node source target w w' j h =
    returned
      (Ensures-later _ _ λ value. Ensures-later _ _ λ (src, tgt).
        run_on-Ensures e value (body e src tgt plan vm node) (body_migrates e src tgt plan vm node))
      tt h
