-- ===== src/Api/Finishing.antt =====
-- The handlers of a job after its execution: `listJobs`, `getJob`, `validateJob`, `cutoverJob` and
-- `rollbackJob` of backend/internal/api/migration.go. They drop the error of `resolveSourceTarget`,
-- so that the adapters of empty connections are asked for then.
use drishti_server_migration.Base.{
  ℕ, pos, String, false, Option, none, some, map, Error, Message, plain, of_error, Result, ok, err,
}
use drishti_server_migration.Domain.{
  Plan, Connection, other_kind, other_role, unknown, Job, succeeded, rollback_prepared, PowerState,
  other_power, Vm,
}
use drishti_server_migration.Platform.{SourceAdapter, TargetAdapter}
use drishti_server_migration.Stores.{outside}
use drishti_server_migration.Stores.JobStore
use drishti_server_migration.Remediation.{collect_facts}
use drishti_server_migration.Validation
use drishti_server_migration.Validation.{ValidationCheck}
use drishti_server_migration.Cutover.{or_zero, cutover, rollback}
use drishti_server_migration.Api.Adapters.{adapters_of}
use drishti_server_migration.Api.Approvals.{
  MigrationHandlers, adapter_unavailable, bool_text, resolve_source_target,
}
use drishti_server_migration.Api.Executions.{unlocked, source_lookup_failed}
use drishti_server_migration.Api.{
  Serve, ◌>>=◌, ◌>>◌, proceed, reply, reply_error, try, observe, or_missing, job_store_error,
  time_now, audit_event, stored_plan, job_body, jobs_body, validation_body, cutover_body,
  rollback_body,
}

-- `domain.Connection{}`, and a state that is not known.
abbrev pub no_connection : Connection
no_connection = record {
  id = "";
  name = "";
  kind = other_kind "";
  role = other_role "";
  endpoint = "";
  insecure_tls = false;
  status = unknown;
  secret_ref = "";
  created_at = 0;
  updated_at = 0;
}

abbrev pub or_empty : Result (Connection × Connection) → Connection × Connection
or_empty (ok p) = p
or_empty (err e) = (no_connection, no_connection)

-- `state, _ := tgtAdapter.VMState(...)`: adapters answer an empty state beside an error.
abbrev pub or_unknown : Result PowerState → PowerState
or_unknown (ok s) = s
or_unknown (err e) = other_power ""

abbrev pub check_json : ValidationCheck → String × String × String
check_json c = (c.name, c.status, c.detail)

-- The result of a cutover or of a rollback, or the error beside it with the warning.
abbrev pub or_warning :
    {X A : Type 0} → ℕ → String → (A → Message) → Result (A × Option Error) → Serve X A
or_warning status code warning (ok (a, none)) = proceed a
or_warning status code warning (ok (a, some e)) = reply_error status (warning a) code (plain "")
or_warning status code warning (err e) = reply_error status (of_error e) code (plain "")

module _ {X : Type 0} (m : MigrationHandlers X) where
  unfoldable pub list_jobs : Serve X Unit
  unfolding JobStore.list
  list_jobs = do
    jobs ← try job_store_error (JobStore.list m.engine.backend)
    reply 200 (jobs_body jobs)

  unfoldable pub stored_job : String → Serve X Job
  unfolding JobStore.get
  stored_job id = do
    found ← try job_store_error (JobStore.get m.engine.backend id)
    or_missing "job not found" found

  unfoldable pub get_job : String → Serve X Unit
  unfolding stored_job
  get_job path = do j ← stored_job (m.handlers.normalize_id path); reply 200 (job_body j)

  -- The job, its plan and the adapters: the start of each handler below.
  unfoldable pub job_adapters : String → Serve X (Job × Plan × SourceAdapter X × TargetAdapter X)
  unfolding stored_job stored_plan resolve_source_target adapters_of
  job_adapters path = do
    j ← stored_job (m.handlers.normalize_id path)
    plan ← stored_plan m.handlers j.plan_id
    let (source, target) = or_empty (resolve_source_target m plan)
    (src, tgt) ← try adapter_unavailable (adapters_of m.factory source target)
    proceed (j, plan, src, tgt)

  -- The source machine, and the validation of the target now.
  unfoldable pub validated :
      Plan → SourceAdapter X → TargetAdapter X → Serve X (Vm × Validation.Result)
  unfolding outside
  validated plan src tgt = do
    vm ← try source_lookup_failed (outside (src.vm plan.source_vm_id))
    asked ← observe (tgt.vm_state (or_zero plan.target_vmid))
    proceed (vm, Validation.run (Validation.default vm) vm (or_unknown asked) (collect_facts vm))

  unfoldable pub validate_job : Option String → String → Serve X Unit
  unfolding job_adapters validated audit_event
  validate_job ctx path = do
    (j, plan, src, tgt) ← job_adapters path
    (vm, result) ← validated plan src tgt
    audit_event m.handlers ctx "job.validate" j.id (bool_text result.passed)
        (plain "Validation ran.")
    reply 200 (validation_body result.passed (map check_json result.checks))

  -- The end of a job: it gets a state and a time, and is saved.
  unfoldable pub end_job : (Job → Job) → Job → Serve X Unit
  unfolding time_now JobStore.save
  end_job ended j = do
    finished ← time_now m.handlers
    try job_store_error
        (JobStore.save m.engine.backend (ended (record j { finished_at = some finished })))

  unfoldable pub cutover_job : Option String → String → Serve X Unit
  unfolding job_adapters validated end_job audit_event
  cutover_job ctx path = unlocked m (do
    (j, plan, src, tgt) ← job_adapters path
    (vm, result) ← validated plan src tgt
    answer ←
        observe (cutover m.engine.now src tgt plan vm (collect_facts vm) result "vmbr0" (pos 10))
    done ← or_warning 409 "cutover_refused" (λ r. r.warning) answer
    end_job (λ j'. record j' { state = succeeded }) j
    audit_event m.handlers ctx "job.cutover" j.id "succeeded" (plain "Cutover completed.")
    reply 200 (cutover_body done.success done.steps done.retention_deadline))

  unfoldable pub rollback_job : Option String → String → Serve X Unit
  unfolding job_adapters end_job audit_event
  rollback_job ctx path = unlocked m (do
    (j, plan, src, tgt) ← job_adapters path
    answer ← observe (rollback src tgt plan)
    done ← or_warning 500 "rollback_failed" (λ r. r.warning) answer
    end_job (λ j'. record j' { state = rollback_prepared }) j
    audit_event m.handlers ctx "job.rollback" j.id "target_isolated" (
        plain
          "Target isolated and stopped; an authorized VMware operator must start and validate the retained source manually.")
    reply 200 (rollback_body done.success done.manual_action_required done.steps done.warning))
