-- ===== src/Verify/Ladder.antt =====
-- verify/ladder.py, and `JudgeSampler` of verify/expensive.py.
pub mod Outcome
pub mod Judge
use smart_router.Prelude.{
  ℕ, Bool, true, false, Option, none, some, List, [], ◌∷◌, ◌++◌, Float, String, length, filter_by,
  is_some, if◌then◌else◌, ◌-◌,
}
use smart_router.Prelude.Exec.{Exec, pure, ◌>>=◌}
use smart_router.Schemas.Message.{FailureCategory, RiskClass, JudgeReason, Message}
use smart_router.Schemas.Verification.{
  VerifierResult, VerificationOutcome, is_transient, empty_outcome, judged, first_failing,
}
use smart_router.Verify.Base.{Verifier, VerificationContext}

-- `random` is `self._rng.random()`; `always_judge` is the set's membership test.
pub record JudgeSampler (W F : Type 0) : Type 0 where
  pub random_rate : F
  pub always_judge : RiskClass → Bool
  pub cost_of_being_wrong_threshold_usd : Option F
  pub random : W → F × W

-- the default of `always_judge`
abbrev pub irreversible_only : RiskClass → Bool
irreversible_only RiskClass.irreversible_write = true
irreversible_only _ = false

pub record VerifierLadder (W F : Type 0) : Type 0 where
  pub free : List (Verifier W F)
  pub cheap : List (Verifier W F)
  pub judge : Option (Verifier W F)
  pub sampler : JudgeSampler W F

abbrev pub category_is_transient : Option FailureCategory → Bool
category_is_transient none = false
category_is_transient (some c) = is_transient c

module _ {F : Type 0} where
  -- `outcome.results.append(result)`
  abbrev pub add_result : VerificationOutcome F → VerifierResult F → VerificationOutcome F
  add_result o r = record o { results = o.results ++ (r ∷ []) }

  -- `_finish`
  pub finish : VerificationOutcome F → VerifierResult F → VerificationOutcome F
  finish o r =
      if category_is_transient r.category
      then record o { first_failure = r.category; retry_small = true }
      else record o { first_failure = r.category; escalate = true }

  -- `f"[{reason}] {result.detail or ''}".strip()`
  abbrev pub judge_detail : JudgeReason F → Option (Message F) → Message F
  judge_detail reason none = Message.judge_silent reason
  judge_detail reason (some d) = Message.judge_found reason d

  -- `threshold is not None and cost is not None and cost >= threshold`
  abbrev pub reached : ⦃f : Float F⦄ → Option F → Option F → Option F
  reached ⦃f⦄ (some t) (some c) = if f.le_f t c then some c else none
  reached _ _ = none

module _ {W F : Type 0} ⦃f : Float F⦄ where
  draw : JudgeSampler W F → Exec W (Bool × JudgeReason F)
  draw s w =
      let (x, w') = s.random w in
      if f.lt_f x s.random_rate
      then pure (true, JudgeReason.random_sample) w'
      else pure (false, JudgeReason.not_sampled) w'

  pub should_judge : JudgeSampler W F → RiskClass → Option F → Exec W (Bool × JudgeReason F)
  unfolding draw
  should_judge s risk cost =
      if s.always_judge risk
      then pure (true, JudgeReason.by_risk_class risk)
      else elim (reached s.cost_of_being_wrong_threshold_usd cost) [
        | some c ↦ pure (true, JudgeReason.by_cost c)
        | none ↦ draw s
      ]

module _ {W F : Type 0} where
  -- `available is not None and not available(ctx)`
  pub is_skipped : Verifier W F → VerificationContext F → Bool
  is_skipped v ctx = elim v.available [ none ↦ false | some a ↦ if a ctx then false else true ]

  -- one tier: `true` where a verifier failed, which ends the run
  pub run_tier :
      List (Verifier W F)
      → VerificationContext F
      → VerificationOutcome F
      → Exec W (Bool × VerificationOutcome F)
  unfolding finish
  run_tier [] ctx o = pure (false, o)
  run_tier (v ∷ vs) ctx o = elim (is_skipped v ctx) [
    | true ↦ run_tier vs ctx o
    | false ↦ do
      r ← v.check ctx
      elim r.passed [
        | true ↦ run_tier vs ctx (add_result o r)
        | false ↦ pure (true, finish (add_result o r) r)
      ]
  ]

module _ {W F : Type 0} ⦃f : Float F⦄ where
  run_judge :
      VerifierLadder W F
      → VerificationContext F
      → RiskClass
      → Option F
      → VerificationOutcome F
      → Exec W (VerificationOutcome F)
  unfolding should_judge finish
  run_judge l ctx risk cost o = elim l.judge [
    | none ↦ pure o
    | some j ↦ do
      (should, reason) ← should_judge l.sampler risk cost
      if should
          then (do
            found ← j.check ctx
            let r = record found { detail = some (judge_detail reason found.detail) }
            if r.passed then pure (add_result o r) else pure (finish (add_result o r) r))
          else pure o
  ]

  pub run :
      VerifierLadder W F
      → String
      → VerificationContext F
      → RiskClass
      → Option F
      → Exec W (VerificationOutcome F)
  unfolding run_tier run_judge
  run l rid ctx risk cost = do
    (stopped, o) ← run_tier l.free ctx (empty_outcome rid)
    if stopped then pure o else do
      (stopped', o') ← run_tier l.cheap ctx o
      if stopped' then pure o' else run_judge l ctx risk cost o'

-- the counts of `decomposition`
pub record Decomposition : Type 0 where
  pub detected : ℕ
  pub preventable_by_construction : ℕ
  pub residue : ℕ
  pub judged_count : ℕ

module _ {F : Type 0} where
  abbrev pub is_preventable : VerificationOutcome F → Bool
  is_preventable o = elim (first_failing o.results) [
    | none ↦ false
    | some r ↦ r.preventable_by_construction
  ]

  pub decomposition : List (VerificationOutcome F) → Decomposition
  unfolding judged
  decomposition os =
      let detected = filter_by (λ o. is_some o.first_failure) os in
      let preventable = length (filter_by is_preventable detected) in
      record {
        detected = length detected;
        preventable_by_construction = preventable;
        residue = length detected - preventable;
        judged_count = length (filter_by judged os);
      }
