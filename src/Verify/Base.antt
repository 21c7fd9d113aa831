-- ===== src/Verify/Base.antt =====
-- verify/base.py: what a verifier sees, and the protocol of a verifier. `tool_schema` and
-- `metadata`, which nothing reads, are left out.
use smart_router.Prelude.{Bool, Option, List}
use smart_router.Prelude.Exec.{Exec}
use smart_router.Schemas.Message.{Text, RiskClass}
use smart_router.Schemas.Verification.{VerifierResult}
use smart_router.Gateway.Base.{ModelResponse}

pub record VerificationContext (F : Type 0) : Type 0 where
  pub query : Text
  pub response : ModelResponse F
  pub risk_class : RiskClass
  pub grounding : List Text

-- `available` is a method that a verifier may lack.
pub record Verifier (W F : Type 0) : Type 0 where
  pub available : Option (VerificationContext F → Bool)
  pub check : VerificationContext F → Exec W (VerifierResult F)
