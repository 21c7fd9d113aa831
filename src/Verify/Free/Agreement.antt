-- ===== src/Verify/Free/Agreement.antt =====
-- verify/free.py, `ToolCallVerifier`, against `propose` and `validate` of tools/commit.py: the ladder
-- and the commit gate judge the same call alike.
use smart_router.Prelude.{
  true, false, Option, none, some, String, ◌≡◌, ◌⊎◌, refl, subst, inl, inr, Float,
}
use smart_router.Prelude.Exec.{Result, ok, raised, pure, from_result, ◌>>=◌}
use smart_router.Schemas.Message.{Text, FailureCategory, Message}
use smart_router.Schemas.Verification.{VerifierResult}
use smart_router.Tools.Json.{Json, Fields, get_field}
use smart_router.Tools.Registry.{ToolRegistry}
use smart_router.Tools.Proposal.{
  Runtime, ToolProposal, argument_object, envelope_proposal, propose, validate,
}
use smart_router.Verify.Base.{VerificationContext}
use smart_router.Verify.Timing.{Clock, elapsed_ms}
use smart_router.Verify.Free.{
  check_envelope, check_payload, check_tool_call, tool_call_report, pass, fail,
}

module _ {F : Type 0} where
  -- the outcome says what `validate` reports, or is the same exception
  abbrev pub Reports :
      Result (Option (FailureCategory × Message F)) → Result (VerifierResult F) → Type 0
  Reports (ok none) (ok r) = r.passed ≡ true
  Reports (ok (some (c, d))) (ok r) =
      (r.passed ≡ false)
      × (r.category ≡ some c)
      × (r.detail ≡ some d)
      × (r.preventable_by_construction ≡ true)
  Reports (raised x) (raised y) = x ≡ y
  Reports v r = ⊥

  -- without a proposal there is a result, which passes or is about the arguments
  abbrev pub PassesOrArguments : Result (VerifierResult F) → Type 0
  PassesOrArguments (ok r) =
      (r.passed ≡ true)
      ⊎ ((r.passed ≡ false) × (r.category ≡ some FailureCategory.tool_arg_invalid))
  PassesOrArguments (raised x) = ⊥

  -- what the verifier does, given what `propose` makes of the same text
  abbrev pub Agrees :
      (Fields F → Fields F → Result (Option (Message F)))
      → Option (ToolProposal F)
      → Result (VerifierResult F)
      → Type 0
  Agrees check_schema none r = PassesOrArguments r
  Agrees check_schema (some p) r = Reports (validate check_schema p) r

  -- a result with its time
  abbrev timed : F → Result (F → VerifierResult F) → Result (VerifierResult F)
  timed ms (ok k) = ok (k ms)
  timed ms (raised x) = raised x

module _ {F : Type 0} ⦃f : Float F⦄ (rt : Runtime F)
    (check_schema : Fields F → Fields F → Result (Option (Message F))) (registry : ToolRegistry F)
    (rid : Option String) where
  report-Reports :
      (v : Result (Option (FailureCategory × Message F))) (ms : F)
      → Reports v (timed ms (tool_call_report v))
  report-Reports (ok none) ms = refl
  report-Reports (ok (some (c, d))) ms = (refl, refl, refl, refl)
  report-Reports (raised x) ms = refl

  -- `validate` does not read the identifier of the request
  validate-same :
      (raw : Text) (name : Json F) (args : Fields F)
      → validate check_schema (envelope_proposal rt.name_of rt.show registry raw none name args)
        ≡ validate check_schema (envelope_proposal rt.name_of rt.show registry raw rid name args)
  unfolding validate envelope_proposal
  validate-same raw (Json.text t) args = refl
  validate-same raw Json.null args = refl
  validate-same raw (Json.boolean b) args = refl
  validate-same raw (Json.integer n) args = refl
  validate-same raw (Json.float x) args = refl
  validate-same raw (Json.array xs) args = refl
  validate-same raw (Json.object d) args = refl

  -- the proposal of an envelope, if its arguments are an object
  abbrev enveloped : Text → Json F → Option (Fields F) → Option (ToolProposal F)
  enveloped raw name none = none
  enveloped raw name (some args) =
      some (envelope_proposal rt.name_of rt.show registry raw rid name args)

  -- `check_envelope` on such arguments
  abbrev checked : Text → Json F → Option (Fields F) → Result (F → VerifierResult F)
  checked raw name none = ok (λ ms.
      fail "free.tool_call" FailureCategory.tool_arg_invalid
        (Message.fixed "arguments is not an object") ms true)
  checked raw name (some args) =
      tool_call_report
        (validate check_schema (envelope_proposal rt.name_of rt.show registry raw none name args))

  envelope-Agrees :
      (raw : Text) (name : Json F) (arguments : Option (Fields F)) (ms : F)
      → Agrees check_schema (enveloped raw name arguments) (timed ms (checked raw name arguments))
  envelope-Agrees raw name none ms = inr (refl, refl)
  envelope-Agrees raw name (some args) ms =
      let v =
        validate check_schema (envelope_proposal rt.name_of rt.show registry raw none name args) in
      subst (λ v'. Reports v' (timed ms (tool_call_report v))) (validate-same raw name args)
        (report-Reports v ms)

  -- `propose` from the payload
  abbrev proposed : Text → Option (Json F) → Option (ToolProposal F)
  proposed raw j = propose (record rt { loads = λ _. j }) registry rid raw

  abbrev tool_proposed : Text → Fields F → Option (Json F) → Option (ToolProposal F)
  tool_proposed raw d none = none
  tool_proposed raw d (some name) =
      enveloped raw name (argument_object rt.is_zero (get_field "arguments" d))

  abbrev tool_checked : Text → Fields F → Option (Json F) → Result (F → VerifierResult F)
  tool_checked raw d none = ok (pass "free.tool_call")
  tool_checked raw d (some name) =
      checked raw name (argument_object rt.is_zero (get_field "arguments" d))

  tool-Agrees :
      (raw : Text) (d : Fields F) (tool : Option (Json F)) (ms : F)
      → Agrees check_schema (tool_proposed raw d tool) (timed ms (tool_checked raw d tool))
  tool-Agrees raw d none ms = inl refl
  tool-Agrees raw d (some name) ms =
      envelope-Agrees raw name (argument_object rt.is_zero (get_field "arguments" d)) ms

  payload-Agrees :
      (raw : Text) (j : Option (Json F)) (ms : F)
      → Agrees check_schema
          (proposed raw j)
          (timed ms (check_payload rt check_schema registry raw j))
  unfolding propose check_payload check_envelope
  payload-Agrees raw none ms = inl refl
  payload-Agrees raw (some (Json.object d)) ms = tool-Agrees raw d (get_field "tool" d) ms
  payload-Agrees raw (some j) ms = inl refl

module _ {W F : Type 0} ⦃f : Float F⦄ (clock : Clock W F) (rt : Runtime F)
    (check_schema : Fields F → Fields F → Result (Option (Message F)))
    (registry : ToolRegistry F) where
  -- The tool call verifier and the commit gate judge a text alike. If `propose` makes a proposal of it,
  -- the verifier passes where `validate` finds nothing, fails with the same category and detail where
  -- it reports a failure, and raises the same exception where it raises. If `propose` makes none,
  -- the verifier returns, and passes or finds the arguments invalid.
  pub check_tool_call-Agrees :
      (rid : Option String) (ctx : VerificationContext F) (w : W)
      → Agrees check_schema
          (propose rt registry rid ctx.response.text)
          (check_tool_call clock rt check_schema registry ctx w).0
  unfolding check_tool_call elapsed_ms ◌>>=◌ propose
  check_tool_call-Agrees rid ctx w =
      let text = ctx.response.text in
      let now = clock w in
      let ms = f.mul_f (f.sub_f (clock now.1).0 now.0) (f.of_nat 1000) in
      subst (Agrees check_schema (propose rt registry rid text))
        (with_time (check_payload rt check_schema registry text (rt.loads text)))
        (payload-Agrees rt check_schema registry rid text (rt.loads text) ms)
    where
      with_time :
          (v : Result (F → VerifierResult F))
          → timed (f.mul_f (f.sub_f (clock (clock w).1).0 (clock w).0) (f.of_nat 1000)) v
            ≡ ((from_result v >>= (λ k. elapsed_ms clock (clock w).0 >>= (λ ms. pure (k ms))))
                (clock w).1).0
      with_time (ok k) = refl
      with_time (raised x) = refl
