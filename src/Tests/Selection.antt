-- ===== src/Tests/Selection.antt =====
-- memory/retrieval.py and memory/gate.py at concrete inputs: three scored rules, and clusters of failures.
use smart_router.Prelude.{ℕ, true, false, none, some, [], ◌∷◌, String, ◌≡◌, refl}
use smart_router.Prelude.Strings.{codes}
use smart_router.Schemas.Message.{Message, FailureCategory}
use smart_router.Memory.Retrieval.{RuleRetriever, retrieve_rules}
use smart_router.Memory.Retrieval.Budget.{IsAccounted, retrieve_rules-IsAccounted}
use smart_router.Routing.World.{FailureRecord}
use smart_router.Memory.Gate.{
  FailureCluster, SuppressionGate, not_rule_shaped, judge_cluster, fingerprints, preventable_share,
}
use smart_router.Tests.Samples.{nat_float}
use smart_router.Tests.Learning.{rule, other}

-- two rules that fit the budget alone, and one below the floor
abbrev retriever : RuleRetriever ℕ
retriever = record {
  search = some (λ v k.
      record { item = rule; score = 9 }
      ∷ record { item = other; score = 8 }
      ∷ record { item = rule; score = 1 }
      ∷ []);
  k = 4;
  max_tokens = 15;
  min_similarity = 5;
}

retrieve_rules-IsAccounted_example : IsAccounted retriever 3 (retrieve_rules retriever [])
retrieve_rules-IsAccounted_example = retrieve_rules-IsAccounted retriever []

abbrev failure : String → FailureRecord ℕ
failure q = record {
  request_id = "r1";
  tenant_id = "acme";
  query = codes q;
  query_fingerprint = q;
  category = FailureCategory.silent_semantic;
  verifier_id = "v";
  detail = Message.fixed "";
  rejected_output = [];
  vector = [];
  preventable_by_construction = false;
  model = "small/default";
  frontier_output = none;
}

abbrev gate : SuppressionGate ℕ
gate = record { min_distinct_queries = 2; max_preventable_share = 0; excluded = not_rule_shaped }

abbrev varied : FailureCluster ℕ
varied = record {
  category = FailureCategory.silent_semantic;
  tenant_id = "acme";
  records = failure "a" ∷ failure "b" ∷ failure "a" ∷ [];
}

run_admitted : (judge_cluster gate varied).0 ≡ true
unfolding judge_cluster fingerprints preventable_share
run_admitted = refl
