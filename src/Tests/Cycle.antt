-- ===== src/Tests/Cycle.antt =====
-- memory/reflexion.py, `learn`, at a concrete input: two failures of a log become a rule that is served.
use smart_router.Prelude.{ℕ, true, none, List, [], ◌∷◌, map, filter_by, String, ◌≡◌, refl}
use smart_router.Prelude.Dict.{get, put, put_last, values}
use smart_router.Prelude.Exec.{Ensures, ◌>>=◌}
use smart_router.Routing.World.{FailureRecord}
use smart_router.Tools.Json.{get_field}
use smart_router.Memory.Lifecycle.{evaluate}
use smart_router.Memory.Store
use smart_router.Memory.Store.{next_rule_id, invalidate_for_model, add}
use smart_router.Memory.Gate.{judge_cluster}
use smart_router.Memory.Clusters.{same_bucket, cluster_failures}
use smart_router.Memory.Critic.{synthesize}
use smart_router.Memory.Learning.{ask, change, run_loop}
use smart_router.Memory.Recent.{start_recent}
use smart_router.Memory.Reflexion.{refresh}
use smart_router.Memory.Failures
use smart_router.Memory.Failures.{FailureLog, is_left}
use smart_router.Memory.Replay.{GoldenCase, run_replay, verdict}
use smart_router.Memory.Reflexion.Tenants.{Isolates}
use smart_router.Memory.Reflexion.Learn.{Reflected, Learner, learn}
use smart_router.Memory.Reflexion.Learn.Trusted.{IsTrusted, learn-IsTrusted}
use smart_router.Tests.Samples.{nat_float}
use smart_router.Tests.Learning.{store}
use smart_router.Tests.Failing.{disk}
use smart_router.Tests.Distilling.{learning, geometry, failure}
use smart_router.Tests.Serving.{ranking, config, embedder}
use smart_router.Tests.Keeping.{successes}

abbrev learner : Learner ℕ (List (FailureRecord ℕ)) ℕ
learner = record {
  enabled = true;
  config = config;
  replay_golden_sample = 40;
  loop = learning;
  geometry = geometry;
  similarity_threshold = 1;
  disk = disk;
  embedder = embedder;
}

abbrev before : Reflected ℕ (List (FailureRecord ℕ)) (List GoldenCase) ℕ
before = record {
  log = record {
    max_records = 5;
    file = none;
    records = record (failure "r0") { tenant_id = "other" } ∷ failure "r1" ∷ failure "r2" ∷ [];
    write_errors = 0;
  };
  golden = successes;
  store = store;
  serving = record { retrievers = []; versions = [] };
  outside = 0;
}

abbrev left_in : Reflected ℕ (List (FailureRecord ℕ)) (List GoldenCase) ℕ → List String
left_in s = map (λ (r : FailureRecord ℕ). r.request_id) s.log.records

-- the failure of another tenant, which is alone, goes on waiting
run_left : left_in (learn learner "m2" none before).1 ≡ ("r0" ∷ [])
unfolding learn ◌>>=◌ run_loop change cluster_failures put same_bucket get judge_cluster ask
    synthesize get_field run_replay values start_recent put_last Store.promoted next_rule_id
    invalidate_for_model verdict add evaluate Failures.remove refresh
run_left = refl

learn-IsTrusted_example :
    Ensures
      (λ summary s'.
        Isolates (IsTrusted store.policy "m2" (values store.rules)) ranking config s'.serving
        × (s'.log.records
            ≡ filter_by (is_left summary.loop.consumed_request_ids) before.log.records))
      (learn learner "m2" none before)
learn-IsTrusted_example = learn-IsTrusted ranking learner "m2" none before
