-- ===== src/Schemas/Routing.antt =====
-- schemas/routing.py
use smart_router.Prelude.{ℕ, Option, List, String}
use smart_router.Schemas.Message.{RiskClass}

pub data RouteTier : Type 0 where
  cache small frontier : RouteTier

pub data RouteReason : Type 0 where
  cache_hit policy_forced predicted_hard optimistic verifier_escalation : RouteReason

pub record RoutingDecision (F : Type 0) : Type 0 where
  pub request_id : String
  pub tenant_id : String
  pub tier : RouteTier
  pub reason : RouteReason
  pub selected_model : String
  pub risk_class : RiskClass
  pub p_small_succeeds : Option F
  pub threshold_used : Option F
  pub cost_of_being_wrong_usd : Option F
  pub snapshot_version : Option String
  pub injected_rule_ids : List String
  pub injected_token_count : ℕ
  pub decision_latency_ms : F
