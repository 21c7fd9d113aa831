-- ===== src/Verify/Ladder/Outcome.antt =====
-- verify/ladder.py, `VerifierLadder.run`: what the outcome of a run says of the results in it.
use smart_router.Prelude.{
  Bool, true, false, not, Option, none, some, List, [], ◌∷◌, ◌++◌, ◌≡◌, refl, ◌⊎◌, inl, inr, Float,
  String, All, All-append, Bool-cases, if◌then◌else◌,
}
use smart_router.Prelude.Exec.{Exec, pure, NoClaim, Ensures, Ensures-after, Ends-bind, Ends-if}
use smart_router.Schemas.Message.{RiskClass}
use smart_router.Schemas.Verification.{VerifierResult, VerificationOutcome, empty_outcome}
use smart_router.Verify.Base.{Verifier, VerificationContext}
use smart_router.Verify.Ladder.{
  VerifierLadder, is_skipped, add_result, category_is_transient, finish, judge_detail, run_tier,
  run_judge, run, should_judge,
}

module _ {F : Type 0} where
  abbrev pub Passes : VerifierResult F → Type 0
  Passes r = r.passed ≡ true

  -- no verifier has failed
  pub record IsOpen (rid : String) (o : VerificationOutcome F) : Type 0 where
    pub request : o.request_id ≡ rid
    pub all_pass : All Passes o.results
    pub no_escalation : o.escalate ≡ false
    pub no_retry : o.retry_small ≡ false
    pub no_failure : o.first_failure ≡ none

  -- the last result is the first failure, and its category alone chooses the flag
  pub record IsStopped (rid : String) (o : VerificationOutcome F) : Type 0 where
    pub request : o.request_id ≡ rid
    pub before : List (VerifierResult F)
    pub failing : VerifierResult F
    pub shape : o.results ≡ before ++ (failing ∷ [])
    pub all_pass : All Passes before
    pub fails : failing.passed ≡ false
    pub category : o.first_failure ≡ failing.category
    pub retry : o.retry_small ≡ category_is_transient failing.category
    pub escalation : o.escalate ≡ not (category_is_transient failing.category)

  abbrev pub Verdict : String → Bool → VerificationOutcome F → Type 0
  Verdict rid true o = IsStopped rid o
  Verdict rid false o = IsOpen rid o

  add_result-IsOpen :
      {rid : String} (o : VerificationOutcome F) (r : VerifierResult F)
      → IsOpen rid o
      → r.passed ≡ true
      → IsOpen rid (add_result o r)
  add_result-IsOpen o r h p = record {
    request = h.request;
    all_pass = All-append Passes o.results (r ∷ []) h.all_pass (p, tt);
    no_escalation = h.no_escalation;
    no_retry = h.no_retry;
    no_failure = h.no_failure;
  }

  finish-IsStopped :
      {rid : String} (o : VerificationOutcome F) (r : VerifierResult F)
      → IsOpen rid o
      → r.passed ≡ false
      → IsStopped rid (finish (add_result o r) r)
  unfolding finish
  finish-IsStopped o r h p = elim (Bool-cases (category_is_transient r.category)) [
    | inl t ↦
        rw (t, finish)
          (record {
            request = h.request;
            before = o.results;
            failing = r;
            shape = refl;
            all_pass = h.all_pass;
            fails = p;
            category = refl;
            retry = rw t;
            escalation = rw t h.no_escalation;
          })
    | inr t ↦
        rw (t, finish)
          (record {
            request = h.request;
            before = o.results;
            failing = r;
            shape = refl;
            all_pass = h.all_pass;
            fails = p;
            category = refl;
            retry = rw t h.no_retry;
            escalation = rw t;
          })
  ]

  pub empty_outcome-IsOpen : (rid : String) → IsOpen rid (empty_outcome rid)
  empty_outcome-IsOpen rid = record {
    request = refl;
    all_pass = tt;
    no_escalation = refl;
    no_retry = refl;
    no_failure = refl;
  }

  abbrev pub TierEnd : {W : Type 0} → String → Bool × VerificationOutcome F → W → Type 0
  TierEnd rid r w = Verdict rid r.0 r.1

module _ {W F : Type 0} where
  pub run_tier-Verdict :
      (rid : String) (vs : List (Verifier W F)) (ctx : VerificationContext F)
      (o : VerificationOutcome F) (w : W)
      → IsOpen rid o
      → Ensures (TierEnd rid) (run_tier vs ctx o w)
  unfolding run_tier
  run_tier-Verdict rid [] ctx o w h = h
  run_tier-Verdict rid (v ∷ vs) ctx o w h = elim (Bool-cases (is_skipped v ctx)) [
    | inl skip ↦ rw (skip, run_tier) (run_tier-Verdict rid vs ctx o w h)
    | inr go ↦
        rw (go, run_tier)
          (Ensures-after (TierEnd rid) (v.check ctx) _ w λ r w'. elim (Bool-cases r.passed) [
            | inl p ↦
                rw p (run_tier-Verdict rid vs ctx (add_result o r) w' (add_result-IsOpen o r h p))
            | inr p ↦ rw p (finish-IsStopped o r h p)
          ])
  ]

module _ {W F : Type 0} ⦃f : Float F⦄ where
  abbrev pub Concluded : String → VerificationOutcome F → W → Type 0
  Concluded rid o w = IsOpen rid o ⊎ IsStopped rid o

  run_judge-Concluded :
      (rid : String) (j : Option (Verifier W F)) (l : VerifierLadder W F)
      (ctx : VerificationContext F) (risk : RiskClass) (cost : Option F) (o : VerificationOutcome F)
      (w : W)
      → IsOpen rid o
      → Ensures (Concluded rid) (run_judge (record l { judge = j }) ctx risk cost o w)
  unfolding run_judge
  run_judge-Concluded rid none l ctx risk cost o w h = inl h
  run_judge-Concluded rid (some j) l ctx risk cost o w h =
      Ensures-after (Concluded rid) (should_judge l.sampler risk cost) _ w λ s w'.
        Ends-if (Concluded rid) NoClaim s.0 _ _ w'
          (λ _. Ensures-after (Concluded rid) (j.check ctx) _ w' λ found w''.
            let r = record found { detail = some (judge_detail s.1 found.detail) } in
            Ends-if (Concluded rid) NoClaim r.passed _ _ w'' (λ p. inl (add_result-IsOpen o r h p))
              (λ p. inr (finish-IsStopped o r h p)))
          (λ _. inl h)

  stopped-Concluded :
      (rid : String) (b : Bool) (o : VerificationOutcome F) (w : W)
      (m : Exec W (VerificationOutcome F))
      → Verdict rid b o
      → (IsOpen rid o → Ensures (Concluded rid) (m w))
      → Ensures (Concluded rid) ((if b then pure o else m) w)
  stopped-Concluded rid true o w m v k = inr v
  stopped-Concluded rid false o w m v k = k v

  -- A run that returns has either no failing result, and then neither flag and no first failure;
  -- or its last result is the only failing one, and then the first failure is its category, and
  -- exactly one of the flags is set: `retry_small` if the category is transient, `escalate` if not.
  pub run-Concluded :
      (l : VerifierLadder W F) (rid : String) (ctx : VerificationContext F) (risk : RiskClass)
      (cost : Option F) (w : W)
      → Ensures (Concluded rid) (run l rid ctx risk cost w)
  unfolding run
  run-Concluded l rid ctx risk cost w =
      Ends-bind (TierEnd rid) (Concluded rid) NoClaim (run_tier l.free ctx (empty_outcome rid)) _ w
        (run_tier-Verdict rid l.free ctx (empty_outcome rid) w (empty_outcome-IsOpen rid))
        λ r w' v. stopped-Concluded rid r.0 r.1 w' _ v λ h.
          Ends-bind (TierEnd rid) (Concluded rid) NoClaim (run_tier l.cheap ctx r.1) _ w'
            (run_tier-Verdict rid l.cheap ctx r.1 w' h)
            λ r' w'' v'.
              stopped-Concluded rid r'.0 r'.1 w'' _ v'
                λ h'. run_judge-Concluded rid l.judge l ctx risk cost r'.1 w'' h'
