-- ===== src/Tests/Learning.antt =====
-- memory/ at concrete inputs: a store of two rules.
use smart_router.Prelude.{ℕ, true, false, none, some, List, [], ◌∷◌, ◌≡◌, refl, All, arith}
use smart_router.Prelude.Dict.{get, put, IsMap, string_eq, values}
use smart_router.Prelude.Strings.{codes}
use smart_router.Schemas.Message.{Message, FailureCategory}
use smart_router.Schemas.Rule.{
  RouterRule, RuleProvenance, promoted, shadow, retired, global_scope, is_servable,
}
use smart_router.Memory.Lifecycle.{LifecyclePolicy, evaluate, score, misfires}
use smart_router.Memory.Lifecycle.Promotion.{evaluate-MayServe, MayServe}
use smart_router.Memory.Store
use smart_router.Memory.Store.{
  RuleStore, StoreFile, save, start, load, index_rules, invalidate_for_model, record_outcome,
  reconcile, pull, add,
}
use smart_router.Memory.Store.Evidence.{
  Operation, adding, outcome, reconciling, invalidating, pulling, perform, perform_all, AllHonest,
  perform_all-AllHonest,
}
use smart_router.Memory.Store.Service.{Serves, invalidate-Serves}
use smart_router.Memory.Store.Withdrawal.{pull-unserved}
use smart_router.Memory.Store.Indexed.{HasIndex, perform_all-HasIndex}
use smart_router.Memory.Store.Index.{Keyed, IsIndex}
use smart_router.Tests.Samples.{nat_float}

abbrev pub provenance : RuleProvenance
provenance = record {
  query_fingerprints = "q1" ∷ [];
  failure_category = FailureCategory.silent_semantic;
  frontier_trace_ids = [];
  verifier_trace_ids = [];
  authored_by = "critic";
  created_at = 0;
  cluster_size = 5;
}

abbrev pub rule : RouterRule ℕ
rule = record {
  rule_id = "RULE-001";
  tenant_id = "acme";
  trigger_condition = codes "Weekday";
  causal_invariant = codes "five days";
  deduction_guideline = codes "not every day";
  provenance = provenance;
  state = promoted;
  application_count = 3;
  success_count = 2;
  false_trigger_count = 0;
  wilson_lower_bound = 0;
  validated_against_model = some "m1";
  token_cost = 10;
  human_reviewed = true;
  quarantine_reason = none;
}

-- the same trigger, synthesised again with less evidence
abbrev again : RouterRule ℕ
again = record rule {
  rule_id = "RULE-003";
  trigger_condition = codes " weekday ";
  state = shadow;
  application_count = 1;
  success_count = 1;
}

abbrev pub other : RouterRule ℕ
other = record rule {
  rule_id = "RULE-002";
  tenant_id = global_scope;
  trigger_condition = codes "Digest";
}

abbrev pub policy : LifecyclePolicy ℕ
policy = record {
  z = 2;
  promote_lower_bound = 0;
  demote_lower_bound = 0;
  min_trials_to_demote = 5;
  max_false_trigger_rate = 1;
  require_human_review_for_global = true;
}

abbrev pub store : RuleStore ℕ
store = record {
  has_path = true;
  file = none;
  policy = policy;
  rules = ("RULE-001", rule) ∷ ("RULE-002", other) ∷ [];
  issued = 2;
}

store-IsIndex : IsIndex store.rules
unfolding IsMap get Keyed
store-IsIndex = record { unique = (refl, (refl, tt)); keyed = (refl, (refl, tt)) }

-- a corrupted file leaves no memory, and a saved one all of it
run_corrupted : (start true (some StoreFile.corrupted) policy).rules ≡ []
unfolding start load
run_corrupted = refl

run_saved : (start true (save store).file policy).rules ≡ store.rules
unfolding start load save index_rules values get put
run_saved = refl

abbrev operations : List (Operation ℕ)
operations =
    adding again
    ∷ outcome "RULE-001" true true
    ∷ reconciling none
    ∷ invalidating "m2"
    ∷ pulling "RULE-002" (Message.fixed "harm")
    ∷ []

perform_all-AllHonest_example : AllHonest (perform_all operations store)
unfolding values
perform_all-AllHonest_example =
    perform_all-AllHonest operations store (omega arith, (tt, (tt, (tt, (tt, tt)))))
      (omega arith, (omega arith, tt))

invalidate-Serves_example :
    All (Serves "acme" "m2") (Store.promoted (some "acme") (invalidate_for_model "m2" store).0)
invalidate-Serves_example = invalidate-Serves "acme" "m2" store

abbrev pulled : RouterRule ℕ
pulled = record rule {
  state = retired;
  quarantine_reason = some (Message.fixed "harm");
  application_count = 4;
  success_count = 3;
}

pull-unserved_example : is_servable pulled ≡ false
unfolding pull perform_all perform record_outcome get put score
pull-unserved_example =
    pull-unserved "RULE-001" (Message.fixed "harm") (outcome "RULE-001" true true ∷ []) store pulled
      (tt, tt) refl

evaluate-MayServe_example :
    (misfires policy rule ≡ false) × MayServe policy rule (score policy rule none) promoted
unfolding evaluate
evaluate-MayServe_example = evaluate-MayServe policy rule none refl

perform_all-HasIndex_example : HasIndex (perform_all operations store)
perform_all-HasIndex_example = perform_all-HasIndex operations store store-IsIndex
