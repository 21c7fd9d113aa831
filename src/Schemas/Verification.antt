-- ===== src/Schemas/Verification.antt =====
-- schemas/verification.py: verifier results, the failure taxonomy and the outcome of a ladder run.
use smart_router.Prelude.{
  Bool, true, false, Option, none, some, List, [], ◌∷◌, any, String, not, ◌&&◌,
}
use smart_router.Schemas.Message.{Message, FailureCategory}

pub data VerifierClass : Type 0 where
  free cheap expensive : VerifierClass

-- `TRANSIENT_CATEGORIES`
abbrev pub is_transient : FailureCategory → Bool
is_transient FailureCategory.timeout = true
is_transient FailureCategory.provider_fault = true
is_transient FailureCategory.tool_transient = true
is_transient _ = false

-- `TERMINAL_CATEGORIES`
abbrev pub is_terminal : FailureCategory → Bool
is_terminal FailureCategory.tool_auth = true
is_terminal FailureCategory.approval_required = true
is_terminal _ = false

pub record VerifierResult (F : Type 0) : Type 0 where
  pub verifier_id : String
  pub verifier_class : VerifierClass
  pub passed : Bool
  pub category : Option FailureCategory
  pub detail : Option (Message F)
  pub cost_usd : F
  pub latency_ms : F
  pub preventable_by_construction : Bool

pub record VerificationOutcome (F : Type 0) : Type 0 where
  pub request_id : String
  pub results : List (VerifierResult F)
  pub escalate : Bool
  pub retry_small : Bool
  pub first_failure : Option FailureCategory

abbrev pub is_expensive : VerifierClass → Bool
is_expensive VerifierClass.expensive = true
is_expensive _ = false

module _ {F : Type 0} where
  abbrev pub empty_outcome : String → VerificationOutcome F
  empty_outcome rid = record {
    request_id = rid;
    results = [];
    escalate = false;
    retry_small = false;
    first_failure = none;
  }

  -- the property `passed`
  unfoldable pub outcome_passed : VerificationOutcome F → Bool
  outcome_passed o = not o.escalate && not o.retry_small

  unfoldable pub judged : VerificationOutcome F → Bool
  judged o = any (λ r. is_expensive r.verifier_class) o.results

  -- `next((r for r in results if not r.passed), None)`
  abbrev pub first_failing : List (VerifierResult F) → Option (VerifierResult F)
  first_failing [] = none
  first_failing (r ∷ rs) =
      let rest = first_failing rs in elim r.passed [ true ↦ rest | false ↦ some r ]
