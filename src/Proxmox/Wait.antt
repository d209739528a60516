-- ===== src/Proxmox/Wait.antt =====
-- `WaitRemoteMigration` and `VerifyRemoteMigration` of
-- backend/internal/platform/proxmox/migration.go.
use drishti_server_migration.Base.{
  ℕ, zero, suc, String, Option, none, some, List, [], ◌∷◌, str, Error, errorf, wrap, Message, plain,
  Result, ok, err, Eff, pure, attempt, from_result, with_error, ◌>>=◌, ◌>>◌, ◌==◌, if◌then◌else◌,
}
use drishti_server_migration.Domain.{Connection}
use drishti_server_migration.Stores.{World, outside}
use drishti_server_migration.Api.Approvals.{RemoteMigration}
use drishti_server_migration.Proxmox.{RemoteApi, TaskStatus}

module _ {X : Type 0} (api : RemoteApi X) where
  -- The task's outcome, once its status is stopped.
  abbrev pub task_outcome : TaskStatus → Result (Unit {0})
  task_outcome status =
      if status.exit_status == "OK"
      then ok tt
      else err (errorf "Proxmox migration task failed: %s" (str status.exit_status ∷ []))

  -- The latest line of the log with a percentage; a log that cannot be read has none. The lines come
  -- in the log's order.
  abbrev pub latest : Option String → List String → Option String
  latest found [] = found
  latest found (l ∷ ls) =
      latest (if api.has_percent (api.clean_line l) then some (api.clean_line l) else found) ls

  abbrev read_lines : Result (List String) → Option String
  read_lines (ok lines) = latest none lines
  read_lines (err e) = none

  unfoldable pub read_task_progress : Connection → RemoteMigration → Eff X (Option String)
  read_task_progress src result = do
    lines ← attempt (api.task_log src result.source_node result.upid)
    pure (read_lines lines)

  -- One round of the loop of `WaitRemoteMigration`: the outcome of a stopped task, or none after the
  -- progress was reported and the ticker has ticked.
  abbrev pub report : (Message → Eff (World X) Unit) → Option String → Eff (World X) Unit
  report progress none = pure tt
  report progress (some line) = attempt (progress (plain line)) >> pure tt

  -- `select`: the context is done, or the ticker ticks.
  unfoldable pub ticking : Eff (World X) (Option Error)
  ticking w = let (done, x) = api.tick w.ext in (ok done, record w { ext = x })

  abbrev pub ticked : Option Error → Eff (World X) (Option (Result (Unit {0})))
  ticked none = pure none
  ticked (some e) = pure (some (err e))

  abbrev pub polled : Result TaskStatus → Option (Result (Unit {0}))
  polled (err e) = some (err (wrap "poll migration task: %w" [] e))
  polled (ok status) = if status.status == "stopped" then some (task_outcome status) else none

  unfoldable pub go_on :
      Connection
      → RemoteMigration
      → (Message → Eff (World X) Unit)
      → Option (Result (Unit {0}))
      → Eff (World X) (Option (Result (Unit {0})))
  unfolding read_task_progress outside ticking
  go_on src result progress (some outcome) = pure (some outcome)
  go_on src result progress none = do
    current ← outside (read_task_progress src result)
    report progress current
    done ← ticking
    ticked done

  unfoldable pub poll :
      Connection
      → RemoteMigration
      → (Message → Eff (World X) Unit)
      → Eff (World X) (Option (Result (Unit {0})))
  unfolding go_on
  poll src result progress = do
    status ← attempt (outside (api.task_status src result.source_node result.upid))
    go_on src result progress (polled status)

  -- `return` with an outcome, or the next round.
  abbrev pub unless_done :
      Eff (World X) (Option (Result (Unit {0})))
      → Option (Result (Unit {0}))
      → Eff (World X) (Option (Result (Unit {0})))
  unless_done next none = next
  unless_done next (some outcome) = pure (some outcome)

  -- The loop, on fuel: none where the fuel runs out.
  unfoldable pub wait_rounds :
      ℕ
      → Connection
      → RemoteMigration
      → (Message → Eff (World X) Unit)
      → Eff (World X) (Option (Result (Unit {0})))
  unfolding poll
  wait_rounds zero src result progress = pure none
  wait_rounds (suc n) src result progress =
      poll src result progress >>= unless_done (wait_rounds n src result progress)

  unfoldable pub wait_remote_migration :
      ℕ
      → Connection
      → RemoteMigration
      → (Message → Eff (World X) Unit)
      → Eff (World X) (Option (Result (Unit {0})))
  unfolding wait_rounds
  wait_remote_migration fuel src result progress =
      from_result (api.open_client src) >> wait_rounds fuel src result progress

  abbrev pub stopped_or : String → String → Result (Unit {0})
  stopped_or format status =
      if status == "stopped" then ok tt else err (errorf format (str status ∷ []))

  -- The two questions, source first.
  unfoldable pub verify_statuses : Connection → Connection → RemoteMigration → Eff X (Unit {0})
  verify_statuses src tgt result = do
    source_status ←
        with_error (wrap "source retention verification failed: %w" [])
          (api.guest_status src result.source_node result.source_vmid)
    from_result (stopped_or "source VM was not retained in stopped state (state=%s)" source_status)
    target_status ←
        with_error (wrap "target verification failed: %w" [])
          (api.guest_status tgt result.target_node result.target_vmid)
    from_result (stopped_or "target VM is not isolated in stopped state (state=%s)" target_status)

  unfoldable pub verify_remote_migration :
      Connection → Connection → RemoteMigration → Eff X (Unit {0})
  unfolding verify_statuses
  verify_remote_migration src tgt result = do
    from_result (api.open_client src)
    from_result (api.open_client tgt)
    verify_statuses src tgt result
