-- ===== src/Api/Gates.antt =====
-- The gates of a plan's life in the memory stores: what each handler needs before it changes
-- anything.
use drishti_server_migration.Base.{
  String, Bool, true, false, not, ◌&&◌, Option, none, some, [], ◌∷◌, ◌++◌, Result, ok, plain, ap,
  ◌∙◌, ◌>>=◌, pure, throw, gets, modify, refl, err, ◌≡◌, ◌↔◌, ◌⊎◌, arith, if◌then◌else◌, append,
}
use drishti_server_migration.Base.Dict.{Dict, lookup, insert, erase}
use drishti_server_migration.Domain.{
  MigrationStrategy, Plan, approved, is_preflight, is_draft, is_approved, AuditEvent,
}
use drishti_server_migration.Stores.{World}
use drishti_server_migration.Stores.PlanStore.{
  get_context, put_context, is_approvable, approve_found, approve_context,
}
use drishti_server_migration.Stores.AuditStore.{append_context}
use drishti_server_migration.Engine.{actor}
use drishti_server_migration.Api.{
  fresh_id, time_now, Outcome, went_on, replied, Handlers, plan_body,
}
use drishti_server_migration.Api.Locks.{status_of}
use drishti_server_migration.Api.Plans.{
  CreatePlanInput, lacks_ids, ids_required, bad_request, strategy_of, plan_from, draft_plan,
  store_draft, create_checked, create_plan, delete_plan,
}
use drishti_server_migration.Api.Approvals.{MigrationHandlers, approve_plan}
use drishti_server_migration.Api.Executions.{execute_migration}

-- A stored plan that passes the test.
abbrev pub has : (Plan → Bool) → Option Plan → Bool
has test none = false
has test (some p) = test p

abbrev pub all_of : (Plan → Bool) → Option Plan → Bool
all_of test none = true
all_of test (some p) = test p

-- The plan of a reply.
abbrev pub plan_of : {A : Type 0} → Outcome A → Option Plan
plan_of (replied r) = elim r.body [ plan_body p ↦ some p | _ ↦ none ]
plan_of (went_on a) = none

abbrev pub stored_with : Option Plan → Dict Plan → Dict Plan
stored_with none plans = plans
stored_with (some p) plans = insert p.id p plans

-- A draft that nothing has checked or approved.
abbrev pub is_fresh : Plan → Bool
is_fresh p = is_draft p.status && (not p.preflight_passed && not p.source_power_off_approved)

module _ {X : Type 0} (m : MigrationHandlers X) where
  -- The audit event of an approval.
  abbrev pub approval : Option String → Plan → Bool → World X → AuditEvent
  approval ctx plan power_off w = record {
    id = append "evt-" (m.handlers.new_id w.ext).0;
    timestamp = (m.handlers.now (m.handlers.new_id w.ext).1).0;
    actor = actor ctx;
    action = "plan.approve";
    target = plan.id;
    result = "approved";
    detail = plain (
        if power_off
        then "Migration plan and source power-off for the named source VM were explicitly approved."
        else "Migration plan approved; source power-off was not authorized.");
  }

module _ {X : Type 0} (m : MigrationHandlers X) (memory : m.handlers.plans ≡ none) where
  -- With the memory store of plans: an execution of a plan that is not stored as approved answers
  -- 404, 409 or 501, and leaves the state of the service, with all platforms, as it was.
  pub unapproved-execute_migration :
      (ctx : Option String) (path : String) (w : World X)
      → has (λ p. is_approved p.status) (lookup (m.handlers.normalize_id path) w.plans) ≡ false
      → let (o, w') = execute_migration m ctx path w in
        (w' ≡ w) × ((status_of o ≡ 404) ⊎ (status_of o ≡ 409) ⊎ (status_of o ≡ 501))
  unfolding execute_migration
  unapproved-execute_migration ctx path w h = ground (arith, h, memory)

  -- With the memory store of plans: an approval of a plan that is not stored with a passed
  -- preflight answers 404 or 409, and leaves the state of the service as it was.
  pub unchecked-approve_plan :
      (ctx : Option String) (path : String) (decoded : Result Bool) (w : World X)
      → has is_approvable (lookup (m.handlers.normalize_id path) w.plans) ≡ false
      → let (o, w') = approve_plan m ctx path decoded w in
        (w' ≡ w) × ((status_of o ≡ 404) ⊎ (status_of o ≡ 409))
  unfolding approve_plan
  unchecked-approve_plan ctx path decoded w h = ground (arith, h, memory)

  -- With the memory stores of plans and audit events, and a plan that is stored under its id: an
  -- approval of a plan with a passed preflight answers 200, stores the plan as approved, with the stop
  -- of the source approved exactly if the request asks for it, the time of the approval, and all else
  -- as it was, and adds one audit event, which names the plan, who approved it and whether the stop was
  -- approved. No job is changed.
  pub approve_plan-records :
      (ctx : Option String) (path : String) (power_off : Bool) (plan : Plan) (w : World X)
      → m.handlers.audit ≡ none
      → lookup plan.id w.plans ≡ some plan
      → m.handlers.normalize_id path ≡ plan.id
      → is_preflight plan.status ≡ true
      → plan.preflight_passed ≡ true
      → let (o, w') = approve_plan m ctx path (ok power_off) w in
        (status_of o ≡ 200)
        × (w'.events ≡ w.events ++ approval m ctx plan power_off w ∷ [])
        × (w'.plans
            ≡ insert plan.id
                (record plan {
                  status = approved;
                  source_power_off_approved = power_off;
                  updated_at = (approval m ctx plan power_off w).timestamp;
                })
                w.plans)
        × (w'.jobs ≡ w.jobs)
  unfolding approve_plan approve_context approve_found get_context put_context append_context ◌>>=◌
      pure throw gets modify
  approve_plan-records ctx path power_off plan w audit found key h passed =
      ground (arith, memory, audit, found, ap (λ k. lookup k w.plans) key ∙ found, h, passed)

-- The reply and the state after a request: at most the plan of the reply is stored, that plan is
-- fresh, and no job is started.
abbrev pub IsFreshAt : {X A : Type 0} → World X → Outcome A × World X → Type 0
IsFreshAt w (o, w') =
    (w'.plans ≡ stored_with (plan_of o) w.plans)
    × (all_of is_fresh (plan_of o) ≡ true)
    × (w'.jobs ≡ w.jobs)

module _ {X : Type 0} (h : Handlers X) (memory : h.plans ≡ none) where
  -- With the memory store of plans: a deletion answers 204 exactly when the plan is stored as a
  -- draft; then the plan is gone and every other plan stays. Nothing else changes, and nothing at all
  -- if the deletion answers otherwise: the plans, the jobs, the audit events and the outside.
  pub delete_plan_iff :
      (path : String) (w : World X)
      → let id = h.normalize_id path in
        let (o, w') = delete_plan h path w in
        let draft_there = has (λ p. is_draft p.status) (lookup id w.plans) in
        ((status_of o ≡ 204) ↔ (draft_there ≡ true))
        × (w'.plans ≡ (if draft_there then erase id w.plans else w.plans))
        × (w'.jobs ≡ w.jobs)
        × (w'.events ≡ w.events)
        × (w'.ext ≡ w.ext)
  unfolding delete_plan
  delete_plan_iff path w = ground (arith, memory)

  module _ (audit : h.audit ≡ none) where
    store_draft-is_fresh :
        (ctx : Option String) (plan : Plan) (w : World X)
        → is_fresh plan ≡ true
        → IsFreshAt w (store_draft h ctx plan w)
    unfolding store_draft
    store_draft-is_fresh ctx plan w fresh = ground (arith, memory, audit, fresh)

    create_checked-is_fresh :
        (ctx : Option String) (input : CreatePlanInput) (o : Option MigrationStrategy) (w : World X)
        → IsFreshAt w (create_checked h ctx input o w)
    unfolding create_checked draft_plan fresh_id time_now
    create_checked-is_fresh ctx input none w = (refl, refl, refl)
    create_checked-is_fresh ctx input (some s) w =
        let (id, x) = h.new_id w.ext in
        let (created, y) = h.now x in
        let (updated, z) = h.now y in
        store_draft-is_fresh ctx (plan_from ctx input s id created updated) (record w { ext = z })
          refl

    accepted-is_fresh :
        (b : Bool) (ctx : Option String) (input : CreatePlanInput) (w : World X)
        → IsFreshAt w (
            (if b
                then bad_request ids_required
                else create_checked h ctx input (strategy_of input.strategy))
              w)
    accepted-is_fresh true ctx input w = (refl, refl, refl)
    accepted-is_fresh false ctx input w =
        create_checked-is_fresh ctx input (strategy_of input.strategy) w

    -- With the memory stores of plans and audit events: the creation of a plan stores at most the
    -- plan of its reply, which is a draft with no passed preflight and no approved stop of the
    -- source, and starts no job.
    pub create_plan-is_fresh :
        (ctx : Option String) (decoded : Result CreatePlanInput) (w : World X)
        → IsFreshAt w (create_plan h ctx decoded w)
    unfolding create_plan
    create_plan-is_fresh ctx (err e) w = (refl, refl, refl)
    create_plan-is_fresh ctx (ok input) w = accepted-is_fresh (lacks_ids input) ctx input w
