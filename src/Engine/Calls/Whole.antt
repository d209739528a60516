-- ===== src/Engine/Calls/Whole.antt =====
-- The calls of a whole execution: the stored job is loaded, the adapters are made, the body runs.
use drishti_server_migration.Base.{
  String, Option, none, some, List, Error, Result, ok, err, with_error, on_part, map_error, ◌≡◌,
  refl, pure,
}
use drishti_server_migration.Base.Hoare.{Keeps, keeps_rules, Keeps-bind}
use drishti_server_migration.Base.Triples.{After, Triple, triple_bind, triple-Keeps}
use drishti_server_migration.Domain.{Plan, Job, Vm, TargetNode, Connection}
use drishti_server_migration.Platform.{SourceAdapter, TargetAdapter}
use drishti_server_migration.Platform.Traced.{Call, traced_source, traced_target}
use drishti_server_migration.Stores.{World, outside}
use drishti_server_migration.Engine.{Engine, Run, create}
use drishti_server_migration.Engine.Execute.{body, hand_back, run_on, load, adapters, execute_plan}
use drishti_server_migration.Engine.Calls.{IsSafe, traced_answer, traced_engine}
use drishti_server_migration.Engine.Calls.Runs.{
  IsSafeWorld, IsSafeRun, get-IsSafeWorld, create-IsSafeWorld, body-IsSafeRun,
}

-- The log is safe, and the value is traced.
record IsTraced {X V W : Type 0} (plan : Plan) (trace : V → W) (value : W)
    (w : World (X × List Call)) : Type 0 where
  world : IsSafeWorld plan w
  plain : V
  same : value ≡ trace plain

module _ {X V W : Type 0} (plan : Plan) (trace : V → W) where
  after-IsTraced :
      (g : Error → Error) (r : Result V) (w : World (X × List Call))
      → IsSafeWorld plan w
      → After (IsTraced plan trace) (IsSafeWorld plan) (map_error g (traced_answer trace r), w)
  after-IsTraced g (ok a) w h = record { world = h; plain = a; same = refl }
  after-IsTraced g (err e) w h = h

abbrev traced_pair :
    {X : Type 0}
    → SourceAdapter X × TargetAdapter X
    → SourceAdapter (X × List Call) × TargetAdapter (X × List Call)
traced_pair (src, tgt) = (traced_source src, traced_target tgt)

module _ {X : Type 0} (e : Engine X) (plan : Plan) where
  source-IsTraced :
      (g : Error → Error) (c : Connection)
      → Triple
          (IsSafeWorld plan)
          (with_error g (outside ((traced_engine e).factory.source c)))
          (IsTraced plan traced_source)
          (IsSafeWorld plan)
  unfolding traced_engine with_error outside on_part
  source-IsTraced g c = record {
    at = λ w h.
        after-IsTraced plan traced_source g (e.factory.source c w.ext.0).0 _
          (record { safe = h.safe });
  }

  target-IsTraced :
      (g : Error → Error) (c : Connection)
      → Triple
          (IsSafeWorld plan)
          (with_error g (outside ((traced_engine e).factory.target c)))
          (IsTraced plan traced_target)
          (IsSafeWorld plan)
  unfolding traced_engine with_error outside on_part
  target-IsTraced g c = record {
    at = λ w h.
        after-IsTraced plan traced_target g (e.factory.target c w.ext.0).0 _
          (record { safe = h.safe });
  }

  adapters-IsTraced :
      (c d : Connection)
      → Triple
          (IsSafeWorld plan)
          (adapters (traced_engine e) c d)
          (IsTraced plan traced_pair)
          (IsSafeWorld plan)
  unfolding adapters pure
  adapters-IsTraced c d = triple_bind _ _ (source-IsTraced _ c) λ s. record {
    at = λ w h.
        (triple_bind _ _ (target-IsTraced _ d) λ t. record {
          at = λ w' k. record {
            world = k.world;
            plain = (h.plain, k.plain);
            same = cc (h.same, k.same);
          };
        }).at
          w h.world;
  }

  loaded-IsSafeWorld :
      (ctx : Option String) (found : Option Job)
      → Keeps
          (IsSafeWorld plan)
          (elim found [ some value ↦ pure value | none ↦ create (traced_engine e) ctx plan ])
  loaded-IsSafeWorld ctx none = create-IsSafeWorld e plan ctx plan
  loaded-IsSafeWorld ctx (some j) = search keeps_rules

  load-IsSafeWorld :
      (ctx : Option String) → Keeps (IsSafeWorld plan) (load (traced_engine e) ctx plan)
  unfolding load
  load-IsSafeWorld ctx =
      Keeps-bind _ _ (get-IsSafeWorld e plan _) λ found. loaded-IsSafeWorld ctx found

  world_of_run :
      (o : Result (Unit {0})) (r : Run (X × List Call))
      → IsSafeRun plan r
      → After (λ _. IsSafeWorld plan) (IsSafeWorld plan) (hand_back o r)
  world_of_run (ok u) r h = record { safe = h.safe }
  world_of_run (err x) r h = record { safe = h.safe }

  run_on_traced :
      (j : Job) (src : SourceAdapter X) (tgt : TargetAdapter X) (vm : Vm) (node : TargetNode)
      → Triple
          (IsSafeWorld plan)
          (run_on
            (traced_engine e)
            j
            (body (traced_engine e) (traced_source src) (traced_target tgt) plan vm node))
          (λ _. IsSafeWorld plan)
          (IsSafeWorld plan)
  unfolding run_on
  run_on_traced j src tgt vm node = record {
    at = λ w h.
        let r : Run (X × List Call) = record { world = w; value = j } in
        let m = body (traced_engine e) (traced_source src) (traced_target tgt) plan vm node in
        world_of_run (m r).0 (m r).1
          ((body-IsSafeRun e plan src tgt vm node).at r (record { safe = h.safe }));
  }

either_way :
    {X A : Type 0} {plan : Plan} (r : Result A) (w : World (X × List Call))
    → After (λ _. IsSafeWorld plan) (IsSafeWorld plan) (r, w)
    → IsSafeWorld plan w
either_way (ok a) w h = h
either_way (err x) w h = h

module _ {X : Type 0} (e : Engine X) (ctx : Option String) (plan : Plan) (vm : Vm)
    (node : TargetNode) (source target : Connection) where
  run_on_pair :
      (j : Job) (w : World (X × List Call))
      (p : SourceAdapter (X × List Call) × TargetAdapter (X × List Call))
      → IsTraced plan traced_pair p w
      → After
          (λ _. IsSafeWorld plan)
          (IsSafeWorld plan)
          (run_on (traced_engine e) j (body (traced_engine e) p.0 p.1 plan vm node) w)
  run_on_pair j w p h =
      rw h.same ((run_on_traced e plan j h.plain.0 h.plain.1 vm node).at w h.world)

  execute_plan_keeps :
      Triple
        (IsSafeWorld plan)
        (execute_plan (traced_engine e) ctx plan vm node source target)
        (λ _. IsSafeWorld plan)
        (IsSafeWorld plan)
  unfolding execute_plan
  execute_plan_keeps = triple_bind _ _ (triple-Keeps _ (load-IsSafeWorld e plan ctx)) λ j.
      triple_bind _ _ (adapters-IsTraced e plan source target)
        λ (src, tgt). record { at = λ w h. run_on_pair j w (src, tgt) h }

  -- After earlier calls that were allowed, whatever the platforms and the stores answer, and
  -- whether it returns or fails, an execution makes only allowed calls: it stops the source only
  -- with the plan's own approval and right after an answer that permits it, exports only the plan's
  -- machine, moves the target only to the isolated bridge and starts it only right after that, and
  -- never stops the target.
  pub execute_plan-IsSafe :
      (w : World (X × List Call))
      → IsSafe plan w.ext.1
      → IsSafe plan (execute_plan (traced_engine e) ctx plan vm node source target w).1.ext.1
  execute_plan-IsSafe w h =
      let m = execute_plan (traced_engine e) ctx plan vm node source target in
      (either_way (m w).0 (m w).1 (execute_plan_keeps.at w (record { safe = h }))).safe
