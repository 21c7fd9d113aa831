-- ===== src/Verify/Free.antt =====
-- verify/free.py: the deterministic verifiers.
pub mod Agreement
use smart_router.Prelude.{
  ℕ, Bool, true, false, Option, none, some, List, [], ◌∷◌, String, Float, length, take, ltb,
  if◌then◌else◌,
}
use smart_router.Prelude.Exec.{Exec, Result, ok, raised, pure, from_result, ◌>>=◌}
use smart_router.Prelude.Strings.{codes, lower, strip, contains, is_empty, split_at, join_with}
use smart_router.Schemas.Message.{Text, FailureCategory, Message}
use smart_router.Schemas.Verification.{VerifierClass, VerifierResult}
use smart_router.Gateway.Base.{ModelResponse, truncated}
use smart_router.Tools.Json.{Json, Fields, get_field, object}
use smart_router.Tools.Registry.{ToolRegistry}
use smart_router.Tools.Proposal.{
  Runtime, ToolProposal, argument_object, envelope_proposal, validate,
}
use smart_router.Verify.Base.{Verifier, VerificationContext}
use smart_router.Verify.Timing.{Clock, read, elapsed_ms}

abbrev pub refusal_markers : List Text
refusal_markers =
    codes "i cannot"
    ∷ codes "i can't"
    ∷ codes "i'm unable"
    ∷ codes "i am unable"
    ∷ codes "as an ai"
    ∷ codes "i won't"
    ∷ codes "i will not"
    ∷ []

-- the first of the markers in the text
unfoldable pub find_marker : List Text → Text → Option Text
find_marker [] t = none
find_marker (m ∷ ms) t = let rest = find_marker ms t in if contains m t then some m else rest

-- `seg for seg in segments[1::2]`
unfoldable pub odd_segments : List Text → List Text
odd_segments [] = []
odd_segments (s ∷ []) = []
odd_segments (s ∷ t ∷ ts) = t ∷ odd_segments ts

-- the quoted spans that are long enough to be checked
unfoldable pub long_quotes : ℕ → List Text → List Text
long_quotes n [] = []
long_quotes n (q ∷ qs) =
    let rest = long_quotes n qs in if ltb (length (strip q)) n then rest else q ∷ rest

-- the first quote that the source does not have
unfoldable pub find_ungrounded : Text → List Text → Option Text
find_ungrounded haystack [] = none
find_ungrounded haystack (q ∷ qs) =
    let rest = find_ungrounded haystack qs in
    if contains (lower (strip q)) haystack then rest else some q

-- `"\n".join(ctx.grounding).lower()`
unfoldable pub haystack_of : List Text → Text
haystack_of grounding = lower (join_with 10 grounding)

-- the spans between quotes, as `text.split('"')[1::2]` has them
unfoldable pub quotes_of : ℕ → Text → List Text
unfolding odd_segments long_quotes
quotes_of n t = long_quotes n (odd_segments (split_at b'"' t))

module _ {F : Type 0} ⦃f : Float F⦄ where
  -- `_fail`
  abbrev pub fail : String → FailureCategory → Message F → F → Bool → VerifierResult F
  fail vid c d ms preventable = record {
    verifier_id = vid;
    verifier_class = VerifierClass.free;
    passed = false;
    category = some c;
    detail = some d;
    cost_usd = f.zero_f;
    latency_ms = ms;
    preventable_by_construction = preventable;
  }

  -- `_ok`
  abbrev pub pass : String → F → VerifierResult F
  pass vid ms = record {
    verifier_id = vid;
    verifier_class = VerifierClass.free;
    passed = true;
    category = none;
    detail = none;
    cost_usd = f.zero_f;
    latency_ms = ms;
    preventable_by_construction = false;
  }

  -- the result for what `validate` of tools/commit.py reports
  abbrev pub tool_call_result : Option (FailureCategory × Message F) → F → VerifierResult F
  tool_call_result none ms = pass "free.tool_call" ms
  tool_call_result (some (c, d)) ms = fail "free.tool_call" c d ms true

  -- the result but for its time, or the exception of the schema check
  abbrev pub tool_call_report :
      Result (Option (FailureCategory × Message F)) → Result (F → VerifierResult F)
  tool_call_report (ok v) = ok (tool_call_result v)
  tool_call_report (raised e) = raised e

  -- the call of an envelope
  unfoldable pub check_envelope :
      Runtime F
      → (Fields F → Fields F → Result (Option (Message F)))
      → ToolRegistry F
      → Text
      → Json F
      → Option (Json F)
      → Result (F → VerifierResult F)
  check_envelope rt check_schema registry raw name arguments =
      elim (argument_object rt.is_zero arguments) [
        | none ↦ ok (λ ms.
            fail "free.tool_call" FailureCategory.tool_arg_invalid
              (Message.fixed "arguments is not an object") ms true)
        | some args ↦ tool_call_report (
            validate check_schema
              (envelope_proposal rt.name_of rt.show registry raw none name args))
      ]

  -- the payload: what is no envelope passes
  unfoldable pub check_payload :
      Runtime F
      → (Fields F → Fields F → Result (Option (Message F)))
      → ToolRegistry F
      → Text
      → Option (Json F)
      → Result (F → VerifierResult F)
  unfolding check_envelope
  check_payload rt check_schema registry raw (some (Json.object d)) = elim (get_field "tool" d) [
    | none ↦ ok (pass "free.tool_call")
    | some name ↦ check_envelope rt check_schema registry raw name (get_field "arguments" d)
  ]
  check_payload rt check_schema registry raw _ = ok (pass "free.tool_call")

module _ {W F : Type 0} ⦃f : Float F⦄ (clock : Clock W F) where
  unfoldable pub check_truncation : VerificationContext F → Exec W (VerifierResult F)
  unfolding truncated
  check_truncation ctx = do
    t0 ← read clock
    ms ← elapsed_ms clock t0
    pure (
        if truncated ctx.response
        then fail "free.truncation" FailureCategory.truncation
            (Message.fixed "finish_reason=length") ms false
        else if is_empty (strip ctx.response.text)
        then fail "free.truncation" FailureCategory.truncation (Message.fixed "empty completion") ms
            false
        else pass "free.truncation" ms)

  unfoldable pub check_refusal : VerificationContext F → Exec W (VerifierResult F)
  unfolding find_marker
  check_refusal ctx = do
    t0 ← read clock
    ms ← elapsed_ms clock t0
    pure (elim (find_marker refusal_markers (lower ctx.response.text)) [
      | none ↦ pass "free.refusal" ms
      | some m ↦ fail "free.refusal" FailureCategory.refusal (Message.matched m) ms false
    ])

  -- `decode_error` is `exc.msg` of the exception that `json.loads` raises
  unfoldable pub check_json :
      Runtime F → (Text → Text) → VerificationContext F → Exec W (VerifierResult F)
  check_json rt decode_error ctx = do
    t0 ← read clock
    ms ← elapsed_ms clock t0
    pure (elim (rt.loads ctx.response.text) [
      | none ↦
          fail "free.json_schema" FailureCategory.schema_violation
            (Message.invalid_json (decode_error ctx.response.text)) ms true
      | some _ ↦ pass "free.json_schema" ms
    ])

  unfoldable pub check_tool_call :
      Runtime F
      → (Fields F → Fields F → Result (Option (Message F)))
      → ToolRegistry F
      → VerificationContext F
      → Exec W (VerifierResult F)
  unfolding check_payload
  check_tool_call rt check_schema registry ctx = do
    t0 ← read clock
    verdict ←
        from_result
          (check_payload rt check_schema registry ctx.response.text (rt.loads ctx.response.text))
    ms ← elapsed_ms clock t0
    pure (verdict ms)

  unfoldable pub check_grounding : ℕ → VerificationContext F → Exec W (VerifierResult F)
  unfolding find_ungrounded quotes_of haystack_of
  check_grounding min_quote_len ctx = do
    t0 ← read clock
    ms ← elapsed_ms clock t0
    pure (elim ctx.grounding [
      | [] ↦ pass "free.grounding" ms
      | g ∷ gs ↦
          elim (find_ungrounded (haystack_of (g ∷ gs))
            (quotes_of min_quote_len ctx.response.text)) [
              | none ↦ pass "free.grounding" ms
              | some q ↦
                  fail "free.grounding" FailureCategory.ungrounded_claim
                    (Message.ungrounded (take 60 q)) ms false
            ]
    ])

-- the class attributes: none of these verifiers has a method `available`
abbrev pub always_available :
    {W F : Type 0} → (VerificationContext F → Exec W (VerifierResult F)) → Verifier W F
always_available check = record { available = none; check = check }
