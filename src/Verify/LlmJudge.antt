-- ===== src/Verify/LlmJudge.antt =====
-- verify/expensive.py, `LLMJudge`: another model audits the answer.
use smart_router.Prelude.{
  Bool, true, false, Option, none, some, List, [], ◌∷◌, ◌++◌, Float, if◌then◌else◌,
}
use smart_router.Prelude.Exec.{Exec, Exception, pure, raise, ◌>>=◌}
use smart_router.Prelude.Strings.{codes, upper, text_eq}
use smart_router.Schemas.Message.{Text, FailureCategory, Message, or_else}
use smart_router.Schemas.Verification.{VerifierClass, VerifierResult}
use smart_router.Gateway.Base.{ModelResponse}
use smart_router.Prompt.{PromptMessage}
use smart_router.Tools.Json.{Json, Items, Fields, get_field}
use smart_router.Tools.Value.{is_true, iterate}
use smart_router.Tools.Proposal.{Runtime}
use smart_router.Verify.Base.{VerificationContext}
use smart_router.Verify.Timing.{Clock, read, elapsed_ms}

-- `system` is `JUDGE_SYSTEM`
pub record LlmJudge (W F : Type 0) : Type 0 where
  pub complete : List PromptMessage → Exec W (ModelResponse F)
  pub cost_usd : F
  pub system : Text

module _ {F : Type 0} where
  abbrev pub judge_messages : Text → VerificationContext F → List PromptMessage
  judge_messages system ctx =
      record { role = "system"; content = system }
      ∷ record {
        role = "user";
        content =
            codes "USER REQUEST:\n"
            ++ (ctx.query ++ (codes "\n\nPROPOSED ACTION:\n" ++ ctx.response.text));
      }
      ∷ []

  -- `str(j)`
  abbrev pub text_of : Runtime F → Json F → Text
  text_of rt (Json.text t) = t
  text_of rt j = codes (rt.show j)

  -- `"; ".join(str(f) for f in findings)`
  unfoldable pub join_findings : Runtime F → Items F → Text
  join_findings rt Items.nil = []
  join_findings rt (Items.cons x Items.nil) = text_of rt x
  join_findings rt (Items.cons x (Items.cons y ys)) =
      text_of rt x ++ (codes "; " ++ join_findings rt (Items.cons y ys))

module _ {F : Type 0} ⦃f : Float F⦄ where
  abbrev pub judge_result :
      Bool → Option FailureCategory → Option (Message F) → F → F → VerifierResult F
  judge_result passed c d cost ms = record {
    verifier_id = "expensive.judge";
    verifier_class = VerifierClass.expensive;
    passed = passed;
    category = c;
    detail = d;
    cost_usd = cost;
    latency_ms = ms;
    preventable_by_construction = false;
  }

  abbrev pub unparseable : F → F → VerifierResult F
  unparseable =
      judge_result true none
        (some (Message.fixed "judge response unparseable; treated as no-finding"))

  -- `payload.get("findings") or []`
  unfoldable pub findings_of : Fields F → Json F
  findings_of d = elim (get_field "findings" d) [
    | none ↦ Json.array Items.nil
    | some j ↦ if is_true j then j else Json.array Items.nil
  ]

  -- `str(payload.get("verdict", "")).upper() == "FAIL"`
  unfoldable pub is_failing : Runtime F → Fields F → Bool
  is_failing rt d = elim (get_field "verdict" d) [
    | none ↦ false
    | some v ↦ text_eq (upper (text_of rt v)) (codes "FAIL")
  ]

  -- the detail of a failing verdict
  unfoldable pub finding_detail : Runtime F → Items F → Message F
  unfolding join_findings
  finding_detail rt xs =
      or_else (some (Message.plain (join_findings rt xs))) (Message.fixed "judge returned FAIL")

module _ {W F : Type 0} ⦃f : Float F⦄ where
  -- a failing verdict; findings that cannot be run through raise
  unfoldable pub report_failure : Runtime F → Fields F → F → F → Exec W (VerifierResult F)
  unfolding findings_of finding_detail
  report_failure rt d cost ms = elim (iterate (findings_of d)) [
    | none ↦ raise (Exception.type_error "not iterable")
    | some xs ↦ pure (
        judge_result false (some FailureCategory.silent_semantic) (some (finding_detail rt xs)) cost
          ms)
  ]

  -- what is no object has no `get`, and counts as unparseable
  unfoldable pub read_verdict : Runtime F → Option (Json F) → F → F → Exec W (VerifierResult F)
  unfolding is_failing report_failure
  read_verdict rt (some (Json.object d)) cost ms =
      if is_failing rt d
      then report_failure rt d cost ms
      else pure (judge_result true none none cost ms)
  read_verdict rt _ cost ms = pure (unparseable cost ms)

  unfoldable pub check_by_judge :
      Clock W F → Runtime F → LlmJudge W F → VerificationContext F → Exec W (VerifierResult F)
  unfolding read_verdict
  check_by_judge clock rt j ctx = do
    t0 ← read clock
    resp ← j.complete (judge_messages j.system ctx)
    ms ← elapsed_ms clock t0
    read_verdict rt (rt.loads resp.text) j.cost_usd ms
