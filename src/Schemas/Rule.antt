-- ===== src/Schemas/Rule.antt =====
-- schemas/rule.py
use smart_router.Prelude.{ℕ, Bool, true, false, Option, List, String, ◌++◌, ◌∷◌}
use smart_router.Prelude.Strings.{codes}
use smart_router.Schemas.Message.{Text, FailureCategory, Message}

pub data RuleState : Type 0 where
  proposed shadow promoted demoted retired quarantined : RuleState

pub record RuleProvenance : Type 0 where
  pub query_fingerprints : List String
  pub failure_category : FailureCategory
  pub frontier_trace_ids : List String
  pub verifier_trace_ids : List String
  pub authored_by : String
  pub created_at : ℕ
  pub cluster_size : ℕ

pub record RouterRule (F : Type 0) : Type 0 where
  pub rule_id : String
  pub tenant_id : String
  pub trigger_condition : Text
  pub causal_invariant : Text
  pub deduction_guideline : Text
  pub provenance : RuleProvenance
  pub state : RuleState
  pub application_count : ℕ
  pub success_count : ℕ
  pub false_trigger_count : ℕ
  pub wilson_lower_bound : F
  pub validated_against_model : Option String
  pub token_cost : ℕ
  pub human_reviewed : Bool
  pub quarantine_reason : Option (Message F)

abbrev pub global_scope : String
global_scope = "GLOBAL"

abbrev pub is_promoted_state : RuleState → Bool
is_promoted_state RuleState.promoted = true
is_promoted_state _ = false

-- `a is b` on rule states
abbrev pub state_eq : RuleState → RuleState → Bool
state_eq RuleState.proposed RuleState.proposed = true
state_eq RuleState.shadow RuleState.shadow = true
state_eq RuleState.promoted RuleState.promoted = true
state_eq RuleState.demoted RuleState.demoted = true
state_eq RuleState.retired RuleState.retired = true
state_eq RuleState.quarantined RuleState.quarantined = true
state_eq _ _ = false

module _ {F : Type 0} where
  abbrev pub is_servable : RouterRule F → Bool
  is_servable r = is_promoted_state r.state

  -- the property `trigger_text`: the condition, a blank, the invariant
  abbrev pub trigger_text : RouterRule F → Text
  trigger_text r = r.trigger_condition ++ (b' ' ∷ r.causal_invariant)

  unfoldable pub render : RouterRule F → Text
  render r =
      codes "- "
      ++ codes r.rule_id
      ++ codes "\n  TRIGGER: "
      ++ r.trigger_condition
      ++ codes "\n  INVARIANT: "
      ++ r.causal_invariant
      ++ codes "\n  DEDUCTION: "
      ++ r.deduction_guideline
