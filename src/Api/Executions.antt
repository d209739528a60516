-- ===== src/Api/Executions.antt =====
-- The handler `executeMigration` of backend/internal/api/migration.go, the lock of the mutating
-- handlers, and the watch that follows a task of Proxmox after the reply.
use drishti_server_migration.Base.{
  String, Bool, true, false, not, ◌&&◌, Option, none, some, Error, plain, of_error, Result, ok, err,
  Eff, throw, if◌then◌else◌,
}
use drishti_server_migration.Domain.{Plan, is_approved, Connection}
use drishti_server_migration.Stores.{World, outside}
use drishti_server_migration.Stores.PlanStore.{put_context}
use drishti_server_migration.Engine.Execute.{execute_plan}
use drishti_server_migration.Engine.External.{start_external, finish_external, update_external}
use drishti_server_migration.Api.Adapters.{adapters_of}
use drishti_server_migration.Api.Approvals.{
  RemoteMigration, Probe, MigrationHandlers, bad_request, adapter_unavailable,
  resolve_source_target, mapped,
}
use drishti_server_migration.Api.{
  Serve, ◌>>=◌, ◌>>◌, reply, reply_error, try, or_reply, plan_store_error, job_store_error,
  stored_plan, job_body,
}

-- `RunMode` of backend/internal/config/config.go.
pub data RunMode : Type 0 where
  mock lab live production : RunMode

abbrev pub is_lab : RunMode → Bool
is_lab lab = true
is_lab _ = false

module _ {X : Type 0} where
  abbrev pub disable_execution : MigrationHandlers X → MigrationHandlers X
  disable_execution m = record m { execution_disabled = true; execution_locked = true }

  -- `ConfigureLabExecution`
  unfoldable pub configure_lab_execution :
      RunMode → Bool → Bool → MigrationHandlers X → MigrationHandlers X
  configure_lab_execution mode lab_enabled mutation_enabled m = record m {
    execution_disabled = not (is_lab mode && (lab_enabled && mutation_enabled));
    execution_locked = true;
  }

  -- `EnableLabRemoteMigration`
  unfoldable pub enable_lab_remote_migration :
      Probe X → Bool → MigrationHandlers X → MigrationHandlers X
  enable_lab_remote_migration real enable m = record m {
    real = some real;
    execution_disabled = if m.execution_locked then m.execution_disabled else not enable;
  }

  -- `writeExecutionDisabled`
  abbrev pub execution_is_disabled : {A : Type 0} → Serve X A
  execution_is_disabled =
      reply_error 501 (plain "migration execution is disabled") "execution_disabled" (
        plain
          "Execution, cutover, and rollback are available only in explicitly enabled lab mode; this runtime remains locked.")

  -- The interlock that the mutating handlers start with.
  abbrev pub unlocked : {A : Type 0} → MigrationHandlers X → Serve X A → Serve X A
  unlocked m serve = if m.execution_disabled then execution_is_disabled else serve

  abbrev pub source_lookup_failed : {A : Type 0} → Error → Serve X A
  source_lookup_failed e =
      reply_error 502 (plain "source VM lookup failed") "source_lookup_failed" (of_error e)

  abbrev target_lookup_failed : {A : Type 0} → Error → Serve X A
  target_lookup_failed e =
      reply_error 502 (plain "target node lookup failed") "target_lookup_failed" (of_error e)

module _ {X : Type 0} (m : MigrationHandlers X) where
  unfoldable pub execute_real :
      Option String → Probe X → Plan → Connection → Connection → Serve X Unit
  unfolding outside put_context start_external
  execute_real ctx real plan source target = do
    result ←
        try
          (λ e. reply_error 409 (plain "remote migration refused") "migration_refused" (of_error e))
          (outside (real.start_remote_migration plan source target))
    let placed = record plan { target_vmid = some result.target_vmid }
    try plan_store_error (put_context m.handlers.plans placed)
    started ← try job_store_error (start_external m.engine ctx placed result.upid)
    reply 202 (job_body started)

  unfoldable pub execute_adapters : Option String → Plan → Connection → Connection → Serve X Unit
  unfolding adapters_of outside mapped execute_plan
  execute_adapters ctx plan source target = do
    (src, tgt) ← try adapter_unavailable (adapters_of m.factory source target)
    vm ← try source_lookup_failed (outside (src.vm plan.source_vm_id))
    node ← try target_lookup_failed (outside (tgt.node plan.target_node_id))
    full ← mapped m plan vm node
    done ←
        try (λ e. reply_error 500 (of_error e) "execution_failed" (plain ""))
          (execute_plan m.engine ctx full vm node source target)
    reply 200 (job_body done)

  unfoldable pub execute_with :
      Option String → Option (Probe X) → Plan → Connection → Connection → Serve X Unit
  execute_with ctx none plan source target = execute_adapters ctx plan source target
  execute_with ctx (some real) plan source target = execute_real ctx real plan source target

  unfoldable pub execute_stored : Option String → Plan → Serve X Unit
  unfolding resolve_source_target execute_with
  execute_stored ctx plan =
      if is_approved plan.status
      then (or_reply bad_request (resolve_source_target m plan) >>= λ (source, target).
          execute_with ctx m.real plan source target)
      else reply_error 409 (plain "plan must be approved before execution") "conflict" (plain "")

  unfoldable pub execute_migration : Option String → String → Serve X Unit
  unfolding stored_plan execute_stored
  execute_migration ctx path =
      unlocked m (stored_plan m.handlers (m.handlers.normalize_id path) >>= execute_stored ctx)

  -- The outcome of the task, as an error or none.
  abbrev pub error_of : Result (Unit {0}) → Option Error
  error_of (ok u) = none
  error_of (err e) = some e

  abbrev verified :
      Probe X → Connection → Connection → RemoteMigration → Result (Unit {0}) → Eff (World X) Unit
  verified real source target result (ok u) =
      outside (real.verify_remote_migration source target result)
  verified real source target result (err e) = throw e

  -- The background task of `executeMigration`: it waits, verifies, and records the end of the job.
  -- The errors of `UpdateExternal` and `FinishExternal` are dropped.
  abbrev ignored : Eff (World X) Unit → Eff (World X) Unit
  ignored act w = let (r, w') = act w in (ok tt, w')

  unfoldable pub watch :
      Probe X → Connection → Connection → RemoteMigration → String → Eff (World X) Unit
  unfolding outside finish_external update_external
  watch real source target result job_id w =
      let (waited, w1) =
        real.wait_remote_migration source result
          (λ message. ignored (update_external m.engine job_id message)) w in
      let (outcome, w2) = verified real source target result waited w1 in
      ignored (finish_external m.engine job_id (error_of outcome)) w2
