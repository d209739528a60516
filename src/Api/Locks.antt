-- ===== src/Api/Locks.antt =====
-- The interlock of execution: when it opens, and what a locked service does.
use drishti_server_migration.Base.{
  ℕ, String, Bool, true, false, Option, ◌≡◌, ◌↔◌, refl, arith, Bool-cases, inl, inr,
}
use drishti_server_migration.Stores.{World}
use drishti_server_migration.Api.{Outcome, went_on, replied}
use drishti_server_migration.Api.Approvals.{Probe, MigrationHandlers}
use drishti_server_migration.Api.Executions.{
  RunMode, lab, is_lab, configure_lab_execution, enable_lab_remote_migration, execute_migration,
}
use drishti_server_migration.Api.Finishing.{cutover_job, rollback_job}

lab_iff : (mode : RunMode) → (is_lab mode ≡ true) ↔ (mode ≡ lab)
lab_iff mode = ground arith

-- Execution is unlocked exactly in lab mode with both interlocks enabled, and the later installation
-- of the real Proxmox path changes nothing about it, whatever it asks for.
pub unlocked_iff :
    {X : Type 0} (mode : RunMode) (lab_enabled mutation_enabled enable : Bool) (real : Probe X)
    (m : MigrationHandlers X)
    → ((enable_lab_remote_migration real enable
          (configure_lab_execution mode lab_enabled mutation_enabled m)).execution_disabled
        ≡ false)
      ↔ ((mode ≡ lab) × (lab_enabled ≡ true) × (mutation_enabled ≡ true))
unfolding configure_lab_execution enable_lab_remote_migration
unlocked_iff mode lab_enabled mutation_enabled enable real m = ground (arith, lab_iff mode)

-- The status of the reply, and 0 where there is none.
abbrev pub status_of : {A : Type 0} → Outcome A → ℕ
status_of (replied r) = r.status
status_of (went_on a) = 0

module _ {X : Type 0} (m : MigrationHandlers X) where
  locked_refuses :
      (ctx : Option String) (path : String) (w : World X)
      → m.execution_disabled ≡ true
      → let e = execute_migration m ctx path w in
        let c = cutover_job m ctx path w in
        let r = rollback_job m ctx path w in
        ((status_of e.0 ≡ 501) × (e.1 ≡ w))
        × ((status_of c.0 ≡ 501) × (c.1 ≡ w))
        × ((status_of r.0 ≡ 501) × (r.1 ≡ w))
  unfolding execute_migration cutover_job rollback_job
  locked_refuses ctx path w locked = rw locked ((refl, refl), (refl, refl), (refl, refl))

-- A service as it is configured, and as the later installation of the real Proxmox path leaves it.
abbrev pub installed :
    {X : Type 0}
    → RunMode
    → Bool
    → Bool
    → Probe X
    → Bool
    → MigrationHandlers X
    → MigrationHandlers X
installed mode lab_enabled mutation_enabled real enable m =
    enable_lab_remote_migration real enable
      (configure_lab_execution mode lab_enabled mutation_enabled m)

-- Unless a service is configured in lab mode with both interlocks enabled, it answers 501 to every
-- execution, cutover and rollback, and its state, with all platforms, stays as it was; the
-- installation of the real Proxmox path does not change that, whatever it asks for.
pub unconfigured_refuses :
    {X : Type 0} (mode : RunMode) (lab_enabled mutation_enabled enable : Bool) (real : Probe X)
    (m : MigrationHandlers X) (ctx : Option String) (path : String) (w : World X)
    → ¬ ((mode ≡ lab) × (lab_enabled ≡ true) × (mutation_enabled ≡ true))
    → let service = installed mode lab_enabled mutation_enabled real enable m in
      let e = execute_migration service ctx path w in
      let c = cutover_job service ctx path w in
      let r = rollback_job service ctx path w in
      ((status_of e.0 ≡ 501) × (e.1 ≡ w))
      × ((status_of c.0 ≡ 501) × (c.1 ≡ w))
      × ((status_of r.0 ≡ 501) × (r.1 ≡ w))
unconfigured_refuses mode lab_enabled mutation_enabled enable real m ctx path w closed =
    let service = installed mode lab_enabled mutation_enabled real enable m in
    elim (Bool-cases service.execution_disabled) [
      | inl locked ↦ locked_refuses service ctx path w locked
      | inr opened ↦
          absurd (closed ((unlocked_iff mode lab_enabled mutation_enabled enable real m).0 opened))
    ]
