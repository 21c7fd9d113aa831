-- ===== src/Verify/Ladder/Judge.antt =====
-- verify/ladder.py, the judge gate: when the judge is asked, and when it makes no difference.
use smart_router.Prelude.{
  Bool, true, false, Option, none, some, List, [], ◌∷◌, ◌++◌, ◌≡◌, refl, ◌∙◌, Float, String,
  Bool-cases, Option-cases, inl, inr, arith, any, if◌then◌else◌,
}
use smart_router.Prelude.Exec.{
  Exec, pure, Result, ok, raised, NoClaim, Ensures, Ends-bind, Ends-if, continue_with, ◌>>=◌,
}
use smart_router.Schemas.Message.{RiskClass}
use smart_router.Schemas.Verification.{
  VerifierResult, VerificationOutcome, empty_outcome, outcome_passed, judged, VerifierClass,
  is_expensive,
}
use smart_router.Verify.Base.{Verifier, VerificationContext}
use smart_router.Verify.Ladder.{
  JudgeSampler, VerifierLadder, add_result, category_is_transient, finish, judge_detail, run_tier,
  run_judge, run, should_judge, draw, reached,
}
use smart_router.Verify.Ladder.Outcome.{
  IsOpen, IsStopped, Verdict, TierEnd, run_tier-Verdict, empty_outcome-IsOpen,
}

module _ {W F : Type 0} where
  abbrev without_judge : VerifierLadder W F → VerifierLadder W F
  without_judge l = record l { judge = none }

  -- where the first run ends in a failing outcome, the second is the same run
  abbrev SameFailure :
      Result (VerificationOutcome F) × W → Result (VerificationOutcome F) × W → Type 0
  SameFailure r2 = Ensures (λ o w. outcome_passed o ≡ false → r2 ≡ (ok o, w))

  SameFailure-bind :
      {A : Type 0} (P : A → W → Type 0) (m : Exec W A) (g h : A → Exec W (VerificationOutcome F))
      (w : W)
      → Ensures P (m w)
      → ((a : A) (w' : W) → P a w' → SameFailure (h a w') (g a w'))
      → SameFailure ((m >>= h) w) ((m >>= g) w)
  unfolding ◌>>=◌
  SameFailure-bind {A} P m g h w e k = split (m w) e
    where
      split :
          (r : Result A × W)
          → Ensures P r
          → SameFailure (continue_with h r.0 r.1) (continue_with g r.0 r.1)
      split (ok a, w') p = k a w' p
      split (raised x, w') p = tt

  SameFailure-if :
      (rid : String) (b : Bool) (o : VerificationOutcome F) (w : W)
      (m n : Exec W (VerificationOutcome F))
      → Verdict rid b o
      → (IsOpen rid o → SameFailure (n w) (m w))
      → SameFailure ((if b then pure o else n) w) ((if b then pure o else m) w)
  SameFailure-if rid true o w m n v k = λ _. refl
  SameFailure-if rid false o w m n v k = k v

module _ {W F : Type 0} where
  abbrev pub IsJudge : Verifier W F → Type 0
  IsJudge j =
      (ctx : VerificationContext F) (w : W)
      → Ensures (λ r _. r.verifier_class ≡ VerifierClass.expensive) (j.check ctx w)

  -- a sampler that always asks the judge
  abbrev pub Forces : ⦃f : Float F⦄ → JudgeSampler W F → RiskClass → Option F → Type 0
  Forces s risk cost = (w : W) → Ensures (λ x _. x.0 ≡ true) (should_judge s risk cost w)

  abbrev pub JudgedIfPassed : VerificationOutcome F → W → Type 0
  JudgedIfPassed o w = outcome_passed o ≡ true → judged o ≡ true

module _ {F : Type 0} where
  open-passes : (rid : String) (o : VerificationOutcome F) → IsOpen rid o → outcome_passed o ≡ true
  unfolding outcome_passed
  open-passes rid o h = ground (arith, h.no_escalation, h.no_retry)

  stopped-fails :
      (rid : String) (o : VerificationOutcome F) → IsStopped rid o → outcome_passed o ≡ false
  unfolding outcome_passed
  stopped-fails rid o h = ground (arith, h.escalation, h.retry)

  any-last :
      (rs : List (VerifierResult F)) (r : VerifierResult F)
      → is_expensive r.verifier_class ≡ true
      → any (λ (x : VerifierResult F). is_expensive x.verifier_class) (rs ++ (r ∷ [])) ≡ true
  any-last [] r h = rw h
  any-last (x ∷ rs) r h = rw (any-last rs r h) (ground arith)

  judged-add :
      (o : VerificationOutcome F) (r : VerifierResult F)
      → r.verifier_class ≡ VerifierClass.expensive
      → judged (add_result o r) ≡ true
  unfolding judged
  judged-add o r h = any-last o.results r (rw h)

  judged-finish :
      (o : VerificationOutcome F) (r : VerifierResult F) → judged (finish o r) ≡ judged o
  unfolding judged finish
  judged-finish o r = elim (Bool-cases (category_is_transient r.category)) [
    | inl t ↦ rw (t, finish)
    | inr t ↦ rw (t, finish)
  ]

module _ {W F : Type 0} ⦃f : Float F⦄ where
  -- The judge never changes a run that a free or cheap verifier fails: a run of the ladder with no
  -- judge that ends in a failing outcome is, outcome and state, the run with the judge, so the
  -- judge is not called, and no random number is drawn.
  run-without_judge :
      (l : VerifierLadder W F) (rid : String) (ctx : VerificationContext F) (risk : RiskClass)
      (cost : Option F) (w : W)
      → Ensures
          (λ o w'. outcome_passed o ≡ false → run l rid ctx risk cost w ≡ (ok o, w'))
          (run (without_judge l) rid ctx risk cost w)
  unfolding run run_judge
  run-without_judge l rid ctx risk cost w =
      SameFailure-bind (TierEnd rid) (run_tier l.free ctx (empty_outcome rid)) _ _ w
        (run_tier-Verdict rid l.free ctx (empty_outcome rid) w (empty_outcome-IsOpen rid))
        λ r w' v. SameFailure-if rid r.0 r.1 w' _ _ v λ h.
          SameFailure-bind (TierEnd rid) (run_tier l.cheap ctx r.1) _ _ w'
            (run_tier-Verdict rid l.cheap ctx r.1 w' h)
            λ r' w'' v'.
              SameFailure-if rid r'.0 r'.1 w'' _ _ v'
                λ h'. λ failed. absurd (ground (arith, open-passes rid r'.1 h'))

  judge-JudgedIfPassed :
      (l : VerifierLadder W F) (j : Verifier W F) (ctx : VerificationContext F) (risk : RiskClass)
      (cost : Option F) (o : VerificationOutcome F) (w : W)
      → l.judge ≡ some j
      → IsJudge j
      → Forces l.sampler risk cost
      → Ensures JudgedIfPassed (run_judge l ctx risk cost o w)
  unfolding run_judge
  judge-JudgedIfPassed l j ctx risk cost o w e cls forced =
      rw (e, run_judge)
        (Ends-bind (λ s w'. s.0 ≡ true) JudgedIfPassed NoClaim (should_judge l.sampler risk cost) _
          w (forced w)
          λ s w' sampled.
            Ends-if JudgedIfPassed NoClaim s.0 _ _ w'
              (λ _.
                Ends-bind (λ r _. r.verifier_class ≡ VerifierClass.expensive) JudgedIfPassed NoClaim
                  (j.check ctx) _ w' (cls ctx w')
                  λ found w'' c.
                    let r = record found { detail = some (judge_detail s.1 found.detail) } in
                    Ends-if JudgedIfPassed NoClaim r.passed _ _ w'' (λ _ _. judged-add o r c)
                      (λ _ _. judged-finish (add_result o r) r ∙ judged-add o r c))
              (λ unsampled. absurd (ground (arith, sampled, unsampled))))

  skip-stopped :
      (rid : String) (b : Bool) (o : VerificationOutcome F) (w : W)
      (m : Exec W (VerificationOutcome F))
      → Verdict rid b o
      → (IsOpen rid o → Ensures JudgedIfPassed (m w))
      → Ensures JudgedIfPassed ((if b then pure o else m) w)
  skip-stopped rid true o w m v k = λ p. absurd (ground (arith, stopped-fails rid o v))
  skip-stopped rid false o w m v k = k v

  -- every random number is below the rate
  pub rate-Forces :
      (s : JudgeSampler W F) (risk : RiskClass) (cost : Option F)
      → ((w : W) → f.lt_f (s.random w).0 s.random_rate ≡ true)
      → Forces s risk cost
  unfolding should_judge draw
  rate-Forces s risk cost below w = elim (Bool-cases (s.always_judge risk)) [
    | inl always ↦ rw (always, should_judge) refl
    | inr sometimes ↦ elim (Option-cases (reached s.cost_of_being_wrong_threshold_usd cost)) [
      | inl cheap ↦ rw (sometimes, cheap, should_judge, draw, below w) refl
      | inr (c, dear) ↦ rw (sometimes, dear, should_judge) refl
    ]
  ]

  -- the judge is asked by every run that the free and cheap verifiers do not fail
  pub run-JudgedIfForced :
      (l : VerifierLadder W F) (j : Verifier W F) (rid : String) (ctx : VerificationContext F)
      (risk : RiskClass) (cost : Option F) (w : W)
      → l.judge ≡ some j
      → IsJudge j
      → Forces l.sampler risk cost
      → Ensures JudgedIfPassed (run l rid ctx risk cost w)
  unfolding run
  run-JudgedIfForced l j rid ctx risk cost w e cls forced =
      Ends-bind (TierEnd rid) JudgedIfPassed NoClaim (run_tier l.free ctx (empty_outcome rid)) _ w
        (run_tier-Verdict rid l.free ctx (empty_outcome rid) w (empty_outcome-IsOpen rid))
        λ r w' v. skip-stopped rid r.0 r.1 w' _ v λ h.
          Ends-bind (TierEnd rid) JudgedIfPassed NoClaim (run_tier l.cheap ctx r.1) _ w'
            (run_tier-Verdict rid l.cheap ctx r.1 w' h)
            λ r' w'' v'.
              skip-stopped rid r'.0 r'.1 w'' _ v'
                λ h'. judge-JudgedIfPassed l j ctx risk cost r'.1 w'' e cls forced

  -- On a risk class that is always judged, by a judge whose results are of the expensive class, no
  -- run returns an outcome that passed and was not judged, whatever the random numbers are.
  pub run-JudgedIfPassed :
      (l : VerifierLadder W F) (j : Verifier W F) (rid : String) (ctx : VerificationContext F)
      (risk : RiskClass) (cost : Option F) (w : W)
      → l.judge ≡ some j
      → IsJudge j
      → l.sampler.always_judge risk ≡ true
      → Ensures JudgedIfPassed (run l rid ctx risk cost w)
  unfolding should_judge
  run-JudgedIfPassed l j rid ctx risk cost w e cls always =
      run-JudgedIfForced l j rid ctx risk cost w e cls (λ w'. rw (always, should_judge) refl)
