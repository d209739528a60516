-- ===== src/Proxmox/Waiting.antt =====
-- The wait for a task ends, and what a verified migration has left.
use drishti_server_migration.Base.{
  ℕ, zero, suc, continue_with, map_error, is_ok, ap, ◌-◌, ◌≤◌, String, true, Option, none, some,
  Error, Message, plain, Result, ok, err, Eff, pure, attempt, from_result, on_part, with_error,
  ◌>>=◌, ◌>>◌, ◌==◌, eq_iff, ◌≡◌, ◌⊎◌, ◌↔◌, refl, arith, inl, inr,
}
use drishti_server_migration.Base.Triples.{After, Triple, triple_bind}
use drishti_server_migration.Domain.{Connection}
use drishti_server_migration.Stores.{World, outside}
use drishti_server_migration.Api.Approvals.{RemoteMigration}
use drishti_server_migration.Proxmox.{RemoteApi, TaskStatus}
use drishti_server_migration.Proxmox.Wait.{
  read_task_progress, ticking, ticked, task_outcome, report, polled, stopped_or, unless_done, go_on,
  poll, wait_rounds, wait_remote_migration, verify_statuses, verify_remote_migration,
}

-- A task with some ticks left: reading it costs none, each tick one, and then it has stopped.
pub record IsTicking {X : Type 0} (api : RemoteApi X) (src : Connection) (result : RemoteMigration)
    (left : X → ℕ) : Type 0 where
  pub stops :
      (x : X) (status : TaskStatus)
      → (api.task_status src result.source_node result.upid x).0 ≡ ok status
      → left x ≡ 0
      → (status.status == "stopped") ≡ true
  pub status_free : (x : X) → left (api.task_status src result.source_node result.upid x).1 ≤ left x
  pub log_free : (x : X) → left (api.task_log src result.source_node result.upid x).1 ≤ left x
  pub tick_counts : (x : X) → left (api.tick x).1 ≤ left x - 1

module _ {X : Type 0} (api : RemoteApi X) (src : Connection) (result : RemoteMigration)
    (progress : Message → Eff (World X) Unit) (left : X → ℕ)
    (ticking_task : IsTicking api src result left)
    (silent : (m : Message) (w : World X) → (progress m w).1.ext ≡ w.ext) where
  -- At most `n` ticks are left.
  abbrev Left : ℕ → World X → Type 0
  Left n w = left w.ext ≤ n

  -- There is an outcome, or there is none and a tick was used.
  abbrev IsRound : ℕ → Option (Result (Unit {0})) → World X → Type 0
  IsRound n o w = ((r : Result Unit) × (o ≡ some r)) ⊎ ((o ≡ none) × (suc (left w.ext) ≤ n))

  abbrev Sure :
      {A : Type 0} → (World X → Type 0) → Eff (World X) A → (A → World X → Type 0) → Type 0
  Sure P m Q = Triple P m Q (λ _. ⊥)

  read-Sure : (n : ℕ) → Sure (Left n) (outside (read_task_progress api src result)) (λ _. Left n)
  unfolding outside on_part read_task_progress attempt pure ◌>>=◌
  read-Sure n = record { at = λ w h. ground (arith, h, ticking_task.log_free w.ext) }

  report-Sure :
      (n : ℕ) (line : Option String) → Sure (Left n) (report api progress line) (λ _. Left n)
  unfolding pure attempt ◌>>=◌
  report-Sure n none = record { at = λ w h. h }
  report-Sure n (some line) = record { at = λ w h. ground (arith, h, silent (plain line) w) }

  ticking-Sure : (n : ℕ) → 1 ≤ n → Sure (Left n) (ticking api) (λ _ w. suc (left w.ext) ≤ n)
  unfolding ticking
  ticking-Sure n more = record {
    at = λ w h. ground (arith, h, more, ticking_task.tick_counts w.ext);
  }

  ticked-Sure :
      (n : ℕ) (done : Option Error) → Sure (λ w. suc (left w.ext) ≤ n) (ticked api done) (IsRound n)
  unfolding pure
  ticked-Sure n none = record { at = λ w h. inr (refl, h) }
  ticked-Sure n (some e) = record { at = λ w h. inl (err e, refl) }

  -- With an outcome already, or with a tick left.
  go_on-Sure :
      (n : ℕ) (o : Option (Result (Unit {0})))
      → ((r : Result Unit) × (o ≡ some r)) ⊎ (1 ≤ n)
      → Sure (Left n) (go_on api src result progress o) (IsRound n)
  unfolding go_on pure
  go_on-Sure n (some r) h = record { at = λ w k. inl (r, refl) }
  go_on-Sure n none (inl (r, h)) = ground (arith, h)
  go_on-Sure n none (inr more) = triple_bind _ _ (read-Sure n) λ line.
      triple_bind _ _ (report-Sure n line)
        λ _. triple_bind _ _ (ticking-Sure n more) λ done. ticked-Sure n done

  polled_at :
      (n : ℕ) (r : Result TaskStatus)
      → (n ≡ 0 → (status : TaskStatus) → r ≡ ok status → (status.status == "stopped") ≡ true)
      → ((o : Result Unit) × (polled api r ≡ some o)) ⊎ (1 ≤ n)
  polled_at (suc n) r h = inr (ground arith)
  polled_at zero (err e) h = inl (_, refl)
  polled_at zero (ok status) h = inl (task_outcome api status, rw (h refl status refl) refl)

  asked-Sure :
      (n : ℕ)
      → Sure
          (Left n)
          (attempt (outside (api.task_status src result.source_node result.upid)))
          (λ r w. Left n w × (((o : Result Unit) × (polled api r ≡ some o)) ⊎ (1 ≤ n)))
  unfolding attempt outside on_part
  asked-Sure n = record {
    at = λ w h. (
      ground (arith, h, ticking_task.status_free w.ext),
      polled_at n _ λ z status got. ticking_task.stops w.ext status got (ground (arith, h, z)),
    );
  }

  poll-Sure : (n : ℕ) → Sure (Left n) (poll api src result progress) (IsRound n)
  unfolding poll
  poll-Sure n =
      triple_bind _ _ (asked-Sure n)
        λ r. record { at = λ w h. (go_on-Sure n (polled api r) h.1).at w h.0 }

  abbrev IsEnd : Option (Result (Unit {0})) → World X → Type 0
  IsEnd o w = (r : Result Unit) × (o ≡ some r)

  unless_done-Sure :
      (n : ℕ) (next : Eff (World X) (Option (Result (Unit {0})))) (o : Option (Result (Unit {0})))
      → Sure (λ w. suc (left w.ext) ≤ n) next IsEnd
      → Sure (IsRound n o) (unless_done api next o) IsEnd
  unfolding pure
  unless_done-Sure n next (some r) k = record { at = λ w h. (r, refl) }
  unless_done-Sure n next none k = record { at = λ w h. k.at w (ground (arith, h)) }

  rounds-Sure : (n : ℕ) → Sure (Left n) (wait_rounds api (suc n) src result progress) IsEnd
  unfolding wait_rounds
  rounds-Sure zero =
      triple_bind _ _ (poll-Sure zero)
        λ o. unless_done-Sure zero _ o (record { at = λ w h. ground (arith, h) })
  rounds-Sure (suc n) = triple_bind _ _ (poll-Sure (suc n)) λ o.
      unless_done-Sure (suc n) _ o (record { at = λ w h. (rounds-Sure n).at w (ground (arith, h)) })

  sure_ends :
      (m : Eff (World X) (Option (Result (Unit {0})))) (P : World X → Type 0) (w : World X)
      → Sure P m IsEnd
      → P w
      → (r : Result Unit) × ((m w).0 ≡ ok (some r))
  sure_ends m P w k h = let (o, v) = m w in ended o v (k.at w h)
    where
      ended :
          (o : Result (Option (Result (Unit {0})))) (v : World X)
          → After IsEnd (λ _. ⊥) (o, v)
          → (r : Result Unit) × (o ≡ ok (some r))
      ended (ok o) v (r, e) = (r, ap ok e)
      ended (err e) v h = elim h [ ]

  -- A task that has `n` ticks of the poll loop left, whose status is read without using one up, and
  -- that reports to a callback that leaves the platforms alone, is waited for in n + 1 rounds at most:
  -- with a client for the source, the wait ends with an outcome.
  pub wait_remote_migration-ends :
      (n : ℕ) (w : World X)
      → api.open_client src ≡ ok tt
      → left w.ext ≤ n
      → (r : Result Unit) × ((wait_remote_migration api (suc n) src result progress w).0
          ≡ ok (some r))
  unfolding wait_remote_migration from_result ◌>>=◌
  wait_remote_migration-ends n w opened h =
      rw opened
        (sure_ends (wait_rounds api (suc n) src result progress) (Left n) w (rounds-Sure n) h)

module _ {X : Type 0} (api : RemoteApi X) (src tgt : Connection) (result : RemoteMigration) where
  -- What the platforms answer to the two questions of the verification, in their order.
  abbrev pub source_answer : X → Result String × X
  source_answer x = api.guest_status src result.source_node result.source_vmid x

  abbrev pub target_answer : X → Result String × X
  target_answer x = api.guest_status tgt result.target_node result.target_vmid (source_answer x).1

  -- One question: it is answered `stopped`, and the rest succeeds.
  stopped_step :
      (f : Error → Error) (format : String) (r : Result String) (y : X) (rest : Eff X (Unit {0}))
      → (is_ok
            (continue_with (λ s. from_result (stopped_or api format s) >> rest) (map_error f r) y).0
          ≡ true)
        ↔ ((r ≡ ok "stopped") × (is_ok (rest y).0 ≡ true))
  unfolding from_result ◌>>=◌
  stopped_step f format (err e) y rest = ground arith
  stopped_step f format (ok s) y rest = ground (arith, eq_iff s "stopped")

  stopped_last :
      (f : Error → Error) (format : String) (r : Result String) (y : X)
      → (is_ok (continue_with (λ s. from_result (stopped_or api format s)) (map_error f r) y).0
          ≡ true)
        ↔ (r ≡ ok "stopped")
  unfolding from_result
  stopped_last f format (err e) y = ground arith
  stopped_last f format (ok s) y = ground (arith, eq_iff s "stopped")

  verify_statuses_iff :
      (x : X)
      → (is_ok (verify_statuses api src tgt result x).0 ≡ true)
        ↔ (((source_answer x).0 ≡ ok "stopped") × ((target_answer x).0 ≡ ok "stopped"))
  unfolding verify_statuses with_error ◌>>=◌
  verify_statuses_iff x =
      let (first, first_back) = stopped_step _ _ (source_answer x).0 (source_answer x).1 _ in
      let (last, last_back) = stopped_last _ _ (target_answer x).0 (target_answer x).1 in
      (λ h. ((first h).0, last (first h).1), λ h. first_back (h.0, last_back h.1))

  -- With a client for either platform, the verification of a migration succeeds exactly if the source
  -- guest and then the target guest are both reported as stopped, whatever the plan's strategy.
  pub verify_remote_migration_iff :
      (x : X)
      → api.open_client src ≡ ok tt
      → api.open_client tgt ≡ ok tt
      → (is_ok (verify_remote_migration api src tgt result x).0 ≡ true)
        ↔ (((source_answer x).0 ≡ ok "stopped") × ((target_answer x).0 ≡ ok "stopped"))
  unfolding verify_remote_migration from_result ◌>>=◌
  verify_remote_migration_iff x os ot = rw (os, ot) (verify_statuses_iff x)
