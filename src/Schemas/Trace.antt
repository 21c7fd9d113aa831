-- ===== src/Schemas/Trace.antt =====
-- schemas/trace.py
use smart_router.Prelude.{
  ℕ, zero, suc, Bool, false, Option, none, some, List, [], ◌∷◌, Float, String, ◌+◌, ◌++◌,
}
use smart_router.Schemas.Message.{Text, Message}
use smart_router.Schemas.Verification.{VerifierResult, VerificationOutcome}
use smart_router.Schemas.Routing.{RouteTier, RoutingDecision}

pub record ModelCall (F : Type 0) : Type 0 where
  pub model : String
  pub tier : RouteTier
  pub prompt_tokens : ℕ
  pub cached_prompt_tokens : ℕ
  pub completion_tokens : ℕ
  pub cost_usd : F
  pub latency_ms : F

pub record RequestTrace (F : Type 0) : Type 0 where
  pub request_id : String
  pub tenant_id : String
  pub session_id : Option String
  pub query : Text
  pub decision : RoutingDecision F
  pub calls : List (ModelCall F)
  pub verification : Option (VerificationOutcome F)
  pub escalated : Bool
  pub small_retried : Bool
  pub final_output : Option (Message F)
  pub committed : Bool
  pub tool_name : Option String
  pub tool_committed : Bool
  pub tool_attempts : ℕ
  pub tool_failure : Option (Message F)
  pub tool_dry_run : Bool
  pub surfaced_to_human : Bool

module _ {F : Type 0} where
  -- `RequestTrace(request_id=…, tenant_id=…, session_id=…, query=…, decision=…)`
  abbrev pub new_trace : String → String → Option String → Text → RoutingDecision F → RequestTrace F
  new_trace rid tenant session q d = record {
    request_id = rid;
    tenant_id = tenant;
    session_id = session;
    query = q;
    decision = d;
    calls = [];
    verification = none;
    escalated = false;
    small_retried = false;
    final_output = none;
    committed = false;
    tool_name = none;
    tool_committed = false;
    tool_attempts = 0;
    tool_failure = none;
    tool_dry_run = false;
    surfaced_to_human = false;
  }

  -- `trace.calls.append(call)`
  abbrev pub add_call : RequestTrace F → ModelCall F → RequestTrace F
  add_call t c = record t { calls = t.calls ++ (c ∷ []) }

module _ {F : Type 0} ⦃f : Float F⦄ where
  -- `sum(...)` starts at zero and adds from the left
  unfoldable pub sum_by {ℓ} : {A : Type ℓ} → (A → F) → F → List A → F
  sum_by g acc [] = acc
  sum_by g acc (x ∷ xs) = sum_by g (f.add_f acc (g x)) xs

  unfoldable pub outcome_cost_usd : VerificationOutcome F → F
  unfolding sum_by
  outcome_cost_usd o = sum_by (λ (r : VerifierResult F). r.cost_usd) f.zero_f o.results

  unfoldable pub total_cost_usd : RequestTrace F → F
  unfolding sum_by outcome_cost_usd
  total_cost_usd t =
      f.add_f (sum_by (λ (c : ModelCall F). c.cost_usd) f.zero_f t.calls)
        (elim t.verification [ none ↦ f.zero_f | some o ↦ outcome_cost_usd o ])

  -- the sum of the calls' token counts; the ratio is 0 where no prompt token was sent
  unfoldable pub sum_tokens : (ModelCall F → ℕ) → List (ModelCall F) → ℕ
  sum_tokens g [] = 0
  sum_tokens g (c ∷ cs) = g c + sum_tokens g cs

  unfoldable pub cache_hit_ratio : RequestTrace F → F
  unfolding sum_tokens
  cache_hit_ratio t = elim (sum_tokens (λ c. c.prompt_tokens) t.calls) [
    | zero ↦ f.zero_f
    | suc n ↦
        f.div_f (f.of_nat (sum_tokens (λ c. c.cached_prompt_tokens) t.calls)) (f.of_nat (suc n))
  ]
