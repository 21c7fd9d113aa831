-- ===== src/Verify/Cheap.antt =====
-- verify/cheap.py: the verifiers that measure how certain a model is.
use smart_router.Prelude.{
  ℕ, Bool, true, false, Option, none, some, List, [], ◌∷◌, String, Float, length, filter_by,
  if◌then◌else◌,
}
use smart_router.Prelude.Exec.{Exec, pure, ◌>>=◌}
use smart_router.Prelude.Strings.{strip, text_eq}
use smart_router.Schemas.Message.{Text, FailureCategory, Message}
use smart_router.Schemas.Verification.{VerifierClass, VerifierResult}
use smart_router.Verify.Base.{Verifier, VerificationContext}
use smart_router.Verify.Timing.{Clock, read, elapsed_ms}

-- the agreement that `SelfConsistencyVerifier` asks for; `sampler` calls the small model
pub record SelfConsistency (W F : Type 0) : Type 0 where
  pub sampler : VerificationContext F → Exec W (List Text)
  pub min_agreement : F
  pub cost_per_sample_usd : F

-- how many samples are the answer, but for blanks at the ends
unfoldable pub count_agreeing : Text → List Text → ℕ
unfolding strip
count_agreeing answer samples = length (filter_by (λ s. text_eq (strip s) (strip answer)) samples)

module _ {F : Type 0} where
  -- `ctx.response.logprobs or []`
  abbrev pub logprobs_of : VerificationContext F → List F
  logprobs_of ctx = elim ctx.response.logprobs [ none ↦ [] | some xs ↦ xs ]

  -- `LogprobVerifier.available`
  unfoldable pub has_logprobs : VerificationContext F → Bool
  has_logprobs ctx = elim (logprobs_of ctx) [ [] ↦ false | _ ∷ _ ↦ true ]

module _ {F : Type 0} ⦃f : Float F⦄ where
  abbrev pub sum_f : List F → F
  sum_f [] = f.zero_f
  sum_f (x ∷ xs) = f.add_f x (sum_f xs)

  -- `statistics.mean`
  unfoldable pub mean : List F → F
  mean xs = f.div_f (sum_f xs) (f.of_nat (length xs))

  abbrev pub cheap_result : String → Bool → Option (Message F) → F → F → VerifierResult F
  cheap_result vid passed d cost ms = record {
    verifier_id = vid;
    verifier_class = VerifierClass.cheap;
    passed = passed;
    category = if passed then none else some FailureCategory.silent_semantic;
    detail = d;
    cost_usd = cost;
    latency_ms = ms;
    preventable_by_construction = false;
  }

  unfoldable pub judge_logprobs : F → List F → F → VerifierResult F
  unfolding mean
  judge_logprobs bound [] ms =
      cheap_result "cheap.logprob" true (some (Message.fixed "logprobs unavailable; check skipped"))
        f.zero_f ms
  judge_logprobs bound (x ∷ xs) ms =
      let avg = mean (x ∷ xs) in
      if f.lt_f avg bound
      then cheap_result "cheap.logprob" false (some (Message.low_logprob avg bound)) f.zero_f ms
      else cheap_result "cheap.logprob" true (some (Message.mean_logprob avg)) f.zero_f ms

  unfoldable pub judge_samples : F → F → Text → List Text → F → VerifierResult F
  unfolding count_agreeing
  judge_samples bound price answer [] ms =
      cheap_result "cheap.self_consistency" true (some (Message.fixed "no samples")) f.zero_f ms
  judge_samples bound price answer (s ∷ ss) ms =
      let agree = count_agreeing answer (s ∷ ss) in
      let n = length (s ∷ ss) in
      let cost = f.mul_f price (f.of_nat n) in
      if f.lt_f (f.div_f (f.of_nat agree) (f.of_nat n)) bound
      then cheap_result "cheap.self_consistency" false (some (Message.low_agreement agree n bound))
          cost ms
      else cheap_result "cheap.self_consistency" true (some (Message.agreement agree n)) cost ms

module _ {W F : Type 0} ⦃f : Float F⦄ (clock : Clock W F) where
  unfoldable pub check_logprob : F → VerificationContext F → Exec W (VerifierResult F)
  unfolding judge_logprobs
  check_logprob min_mean_logprob ctx = do
    t0 ← read clock
    ms ← elapsed_ms clock t0
    pure (judge_logprobs min_mean_logprob (logprobs_of ctx) ms)

  unfoldable pub check_consistency :
      SelfConsistency W F → VerificationContext F → Exec W (VerifierResult F)
  unfolding judge_samples
  check_consistency v ctx = do
    t0 ← read clock
    samples ← v.sampler ctx
    ms ← elapsed_ms clock t0
    pure (judge_samples v.min_agreement v.cost_per_sample_usd ctx.response.text samples ms)

  -- the two, as the ladder takes them
  abbrev pub logprob_verifier : F → Verifier W F
  logprob_verifier bound = record { available = some has_logprobs; check = check_logprob bound }
