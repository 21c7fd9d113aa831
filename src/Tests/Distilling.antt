-- ===== src/Tests/Distilling.antt =====
-- memory/loop.py, memory/critic.py and the clusters of memory/failures.py at concrete inputs: a cluster of
-- two failures becomes a rule.
use smart_router.Prelude.{
  ℕ, suc, List, Bool, true, false, none, some, [], ◌∷◌, map, String, ◌≡◌, refl,
}
use smart_router.Prelude.Dict.{get, put, values, string_eq}
use smart_router.Prelude.Exec.{ok, ◌>>=◌, Ends, Ensures}
use smart_router.Prelude.Strings.{codes}
use smart_router.Schemas.Message.{Message, FailureCategory}
use smart_router.Schemas.Rule.{RouterRule, is_servable}
use smart_router.Routing.World.{FailureRecord}
use smart_router.Tools.Json.{Json, Fields, get_field}
use smart_router.Tools.Proposal.{Runtime}
use smart_router.Memory.Lifecycle.{evaluate}
use smart_router.Memory.Store
use smart_router.Memory.Store.{next_rule_id, invalidate_for_model, add}
use smart_router.Memory.Gate.{FailureCluster, judge_cluster, not_rule_shaped}
use smart_router.Memory.Clusters.{Geometry, same_bucket, cluster_failures}
use smart_router.Memory.Clusters.Uniform.{IsClustering, cluster_failures-IsClustering}
use smart_router.Memory.Hygiene.{Hygiene}
use smart_router.Memory.Critic.{Critic, critic_prompt, synthesize}
use smart_router.Memory.Critic.Blind.{critic_prompt-uncorrected}
use smart_router.Memory.Critic.Screened.{IsScreened, synthesize-Screens}
use smart_router.Memory.Replay.{run_replay, verdict}
use smart_router.Memory.Learning.{LoopWorld, LearningLoop, LoopReport, ask, change, run_loop}
use smart_router.Memory.Learning.Fair.{Holds}
use smart_router.Memory.Learning.Served.{run_loop-Holds}
use smart_router.Tests.Samples.{nat_float}
use smart_router.Tests.Learning.{store}

abbrev pub failure : String → FailureRecord ℕ
failure id = record {
  request_id = id;
  tenant_id = "acme";
  query = codes "when";
  query_fingerprint = id;
  category = FailureCategory.silent_semantic;
  verifier_id = "judge";
  detail = Message.fixed "";
  rejected_output = codes "now";
  vector = [];
  preventable_by_construction = false;
  model = "m2";
  frontier_output = none;
}

abbrev cluster : FailureCluster ℕ
cluster = record {
  category = FailureCategory.silent_semantic;
  tenant_id = "acme";
  records = failure "r1" ∷ failure "r2" ∷ [];
}

abbrev reply : Json ℕ
reply = Json.object (
    Fields.field "trigger_condition" (Json.text (codes "dates")) (
      Fields.field "causal_invariant" (Json.text (codes "absolute"))
        (Fields.field "deduction_guideline" (Json.text (codes "resolve")) Fields.end)))

abbrev runtime : Runtime ℕ
runtime = record {
  loads = λ t. some reply;
  name_of = λ t. "";
  show = λ j. "";
  is_zero = λ n. false;
}

abbrev hygiene : Hygiene ℕ
hygiene = record {
  max_ngram_overlap = 0;
  ngram_n = 3;
  max_source_similarity = 0;
  patterns = record { find_tokens = λ t. t ∷ []; find_literal = λ t. none; scrub = λ t. t };
  dot = λ v w. 0;
}

-- the outside counts the calls of the models
abbrev critic : Critic ℕ ℕ
critic = record {
  complete = λ lines n. (
    ok (record {
      text = [];
      model = "frontier";
      prompt_tokens = 1;
      cached_prompt_tokens = 0;
      completion_tokens = 1;
      latency_ms = 0;
      finish_reason = "stop";
      logprobs = none;
    }),
    suc n,
  );
  leak_ground_truth = false;
  hygiene = hygiene;
  max_examples = 5;
  runtime = runtime;
  encode = none;
  now = λ n. (ok 7, n);
}

abbrev pub learning : LearningLoop ℕ ℕ
learning = record {
  critic = critic;
  harness = record {
    replay = λ q rules n. (ok true, suc n);
    golden = record { query = codes "who"; tenant_id = "acme" } ∷ [];
    min_resolution_rate = 1;
    regression_z = 1;
    min_regression_tolerance = 0;
  };
  gate = record { min_distinct_queries = 2; max_preventable_share = 0; excluded = not_rule_shaped };
  format_id = λ n. "RULE-003";
}

abbrev world : LoopWorld ℕ ℕ
world = record { store = store; outside = 0 }

abbrev served : RouterRule ℕ → String × Bool
served r = (r.rule_id, is_servable r)

-- the two rules with evidence of another model are not served any more, the new one is
run_served :
    map served (values (run_loop learning "m2" (cluster ∷ []) world).1.store.rules)
    ≡ (("RULE-001", false) ∷ ("RULE-002", false) ∷ ("RULE-003", true) ∷ [])
unfolding run_loop values ◌>>=◌ change judge_cluster ask synthesize get_field run_replay
    Store.promoted next_rule_id invalidate_for_model verdict add put evaluate
run_served = refl

run_loop-Holds_example :
    Ends
      (λ (_ : LoopReport ℕ) w'. Holds store.policy "m2" (values store.rules) w'.store)
      (λ w'. Holds store.policy "m2" (values store.rules) w'.store)
      (run_loop learning "m2" (cluster ∷ []) world)
run_loop-Holds_example = run_loop-Holds learning "m2" (cluster ∷ []) world

-- the frontier corrected the first failure
abbrev corrected_cluster : FailureCluster ℕ
corrected_cluster = record cluster {
  records = record (failure "r1") { frontier_output = some (codes "later") } ∷ failure "r2" ∷ [];
}

critic_prompt-uncorrected_example :
    critic_prompt critic cluster ≡ critic_prompt critic corrected_cluster
critic_prompt-uncorrected_example = critic_prompt-uncorrected critic corrected_cluster refl

synthesize-Screens_example :
    Ensures
      (λ out _. IsScreened hygiene (failure "r1") out)
      (synthesize critic cluster "RULE-003" 0)
synthesize-Screens_example =
    synthesize-Screens critic cluster (failure "r1") "RULE-003" (failure "r2" ∷ []) 0 refl

-- vectors that are all alike
abbrev pub geometry : Geometry ℕ
geometry = record { dot = λ v w. 1; mean = λ vs. []; norm = λ v. 1; divide = λ v x. v; tiny = 0 }

abbrev logged : List (FailureRecord ℕ)
logged = record (failure "r0") { tenant_id = "other" } ∷ failure "r1" ∷ failure "r2" ∷ []

abbrev summary : FailureCluster ℕ → String × List String
summary c = (c.tenant_id, map (λ (r : FailureRecord ℕ). r.request_id) c.records)

run_clusters :
    map summary (cluster_failures geometry 1 none logged)
    ≡ (("acme", "r1" ∷ "r2" ∷ []) ∷ ("other", "r0" ∷ []) ∷ [])
unfolding cluster_failures put get same_bucket
run_clusters = refl

cluster_failures-IsClustering_example :
    IsClustering geometry 1 (some "acme") logged (cluster_failures geometry 1 (some "acme") logged)
cluster_failures-IsClustering_example =
    cluster_failures-IsClustering geometry 1 (some "acme") logged
