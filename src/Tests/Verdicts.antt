-- ===== src/Tests/Verdicts.antt =====
-- verify/ and prompt.py at concrete inputs: a ladder with a free verifier and a judge, and the prompts of
-- two turns.
use smart_router.Prelude.{
  ℕ, ◌+◌, true, false, none, some, List, [], ◌∷◌, String, ◌≡◌, refl, length, take,
}
use smart_router.Prelude.Exec.{ok, Ensures}
use smart_router.Prelude.Strings.{codes}
use smart_router.Schemas.Message.{FailureCategory, RiskClass}
use smart_router.Schemas.Verification.{VerifierClass, VerifierResult}
use smart_router.Gateway.Base.{ModelResponse}
use smart_router.Verify.Base.{Verifier, VerificationContext}
use smart_router.Verify.Ladder
use smart_router.Verify.Ladder.{VerifierLadder, JudgeSampler, irreversible_only}
use smart_router.Verify.Ladder.Outcome.{Concluded, run-Concluded}
use smart_router.Verify.Ladder.Judge.{JudgedIfPassed, run-JudgedIfPassed}
use smart_router.Prompt.{PromptMessage, Injectable, Hash, assemble, prefix_chain}
use smart_router.Prompt.Prefix.{prefix_chain-assemble}
use smart_router.Tests.Samples.{nat_float}

abbrev pub response : ModelResponse ℕ
response = record {
  text = codes "{}";
  model = "small/default";
  prompt_tokens = 8;
  cached_prompt_tokens = 4;
  completion_tokens = 2;
  latency_ms = 1;
  finish_reason = "stop";
  logprobs = none;
}

abbrev pub context : VerificationContext ℕ
context = record {
  query = codes "send it";
  response = response;
  risk_class = RiskClass.irreversible_write;
  grounding = [];
}

abbrev passing : VerifierClass → VerifierResult ℕ
passing c = record {
  verifier_id = "v";
  verifier_class = c;
  passed = true;
  category = none;
  detail = none;
  cost_usd = 0;
  latency_ms = 1;
  preventable_by_construction = false;
}

abbrev failing : VerifierResult ℕ
failing = record (passing VerifierClass.free) {
  passed = false;
  category = some FailureCategory.truncation;
}

-- each check is counted in the state
abbrev verifier : VerifierResult ℕ → Verifier ℕ ℕ
verifier r = record { available = none; check = λ ctx n. (ok r, n + 1) }

abbrev pub sampler : JudgeSampler ℕ ℕ
sampler = record {
  random_rate = 0;
  always_judge = irreversible_only;
  cost_of_being_wrong_threshold_usd = none;
  random = λ n. (1, n);
}

abbrev pub judge : Verifier ℕ ℕ
judge = verifier (passing VerifierClass.expensive)

abbrev pub ladder : VerifierLadder ℕ ℕ
ladder = record {
  free = verifier (passing VerifierClass.free) ∷ [];
  cheap = [];
  judge = some judge;
  sampler = sampler;
}

-- a ladder whose free verifier fails
abbrev strict : VerifierLadder ℕ ℕ
strict = record ladder { free = verifier failing ∷ [] }

run-Concluded_example :
    Ensures (Concluded "r1") (Ladder.run strict "r1" context RiskClass.irreversible_write none 0)
run-Concluded_example = run-Concluded strict "r1" context RiskClass.irreversible_write none 0

run-JudgedIfPassed_example :
    Ensures JudgedIfPassed (Ladder.run ladder "r1" context RiskClass.irreversible_write none 0)
run-JudgedIfPassed_example =
    run-JudgedIfPassed ladder judge "r1" context RiskClass.irreversible_write none 0 refl
      (λ ctx w. refl) refl

-- a hash that keeps what it is given
abbrev hash : Hash (List String)
hash = record { initial = []; update = λ m s. m.role ∷ s; hexdigest = λ s. "digest" }

abbrev turn : PromptMessage
turn = record { role = "user"; content = codes "hello" }

abbrev reply : PromptMessage
reply = record { role = "assistant"; content = codes "hi" }

abbrev injected : Injectable
injected = record { rule_id = "RULE-001"; rendered = codes "- RULE-001" }

prefix_chain-assemble_example :
    take
      (length (assemble (codes "S") none none (turn ∷ []) (injected ∷ []) (codes "one")).prefix)
      (prefix_chain hash (assemble (codes "S") none none (turn ∷ reply ∷ []) [] (codes "two")))
    ≡ prefix_chain hash (assemble (codes "S") none none (turn ∷ []) (injected ∷ []) (codes "one"))
prefix_chain-assemble_example =
    prefix_chain-assemble hash (codes "S") none none (turn ∷ []) (reply ∷ []) (injected ∷ []) []
      (codes "one") (codes "two")
