-- ===== src/Memory/Replay.antt =====
-- memory/replay.py: a candidate rule is tried on the failures that it comes from, on a set of golden
-- cases, and beside the rules that it would be served with.
use smart_router.Prelude.{
  ℕ, zero, suc, ◌+◌, Bool, true, false, List, [], ◌∷◌, ◌++◌, String, Float, if◌then◌else◌,
}
use smart_router.Prelude.Exec.{Exec, pure, ◌>>=◌}
use smart_router.Schemas.Message.{Text}
use smart_router.Schemas.Rule.{RouterRule}

-- `intent`, which nothing reads, is left out
pub record GoldenCase : Type 0 where
  pub query : Text
  pub tenant_id : String

-- `failures`, which nothing fills, is left out
pub record ReplayReport : Type 0 where
  pub rule_id : String
  pub validated_against_model : String
  pub resolution_passed : ℕ
  pub resolution_total : ℕ
  pub regression_baseline_passed : ℕ
  pub regression_with_rule_passed : ℕ
  pub regression_total : ℕ
  pub set_level_passed : ℕ
  pub set_level_total : ℕ

-- `replay` asks the small model
pub record ReplayHarness (W F : Type 0) : Type 0 where
  pub replay : Text → List (RouterRule F) → Exec W Bool
  pub golden : List GoldenCase
  pub min_resolution_rate : F
  pub regression_z : F
  pub min_regression_tolerance : F

-- the details of a verdict
pub data ReplayReason (F : Type 0) : Type 0 where
  nothing_to_replay : ReplayReason F
  low_resolution : F → ReplayReason F
  regressed : ℕ → ℕ → F → ReplayReason F
  conflicts : F → ReplayReason F
  resolved : F → ℕ → ℕ → ReplayReason F

-- `if passed: n += 1`
abbrev pub count_if : Bool → ℕ → ℕ
count_if passed n = if passed then n + 1 else n

abbrev pub new_report : String → String → ReplayReport
new_report id model = record {
  rule_id = id;
  validated_against_model = model;
  resolution_passed = 0;
  resolution_total = 0;
  regression_baseline_passed = 0;
  regression_with_rule_passed = 0;
  regression_total = 0;
  set_level_passed = 0;
  set_level_total = 0;
}

module _ {W F : Type 0} where
  -- the failing queries with the rule alone
  unfoldable pub resolve :
      ReplayHarness W F → RouterRule F → List Text → ReplayReport → Exec W ReplayReport
  resolve h rule [] report = pure report
  resolve h rule (q ∷ qs) report = do
    passed ← h.replay q (rule ∷ [])
    resolve h rule qs (record report {
      resolution_total = report.resolution_total + 1;
      resolution_passed = count_if passed report.resolution_passed;
    })

  -- the golden cases without the rule and with it
  unfoldable pub regress :
      ReplayHarness W F → RouterRule F → List GoldenCase → ReplayReport → Exec W ReplayReport
  regress h rule [] report = pure report
  regress h rule (c ∷ cs) report = do
    before ← h.replay c.query []
    after ← h.replay c.query (rule ∷ [])
    regress h rule cs (record report {
      regression_total = report.regression_total + 1;
      regression_baseline_passed = count_if before report.regression_baseline_passed;
      regression_with_rule_passed = count_if after report.regression_with_rule_passed;
    })

  -- the failing queries with all the rules
  unfoldable pub combine :
      ReplayHarness W F → List (RouterRule F) → List Text → ReplayReport → Exec W ReplayReport
  combine h rules [] report = pure report
  combine h rules (q ∷ qs) report = do
    passed ← h.replay q rules
    combine h rules qs (record report {
      set_level_total = report.set_level_total + 1;
      set_level_passed = count_if passed report.set_level_passed;
    })

  -- only if there are rules beside it
  unfoldable pub set_level :
      ReplayHarness W F
      → RouterRule F
      → List (RouterRule F)
      → List Text
      → ReplayReport
      → Exec W ReplayReport
  unfolding combine
  set_level h rule [] qs report = pure report
  set_level h rule (r ∷ rs) qs report = combine h ((r ∷ rs) ++ (rule ∷ [])) qs report

  -- `ReplayHarness.run`
  unfoldable pub run_replay :
      ReplayHarness W F
      → RouterRule F
      → List Text
      → String
      → List (RouterRule F)
      → Exec W ReplayReport
  unfolding resolve regress set_level
  run_replay h rule qs model beside = do
    fixed ← resolve h rule qs (new_report rule.rule_id model)
    kept ← regress h rule h.golden fixed
    set_level h rule beside qs kept

module _ {F : Type 0} ⦃f : Float F⦄ where
  -- `a / b if b else 0.0`
  abbrev pub rate : ℕ → ℕ → F
  rate a zero = f.zero_f
  rate a (suc b) = f.div_f (f.of_nat a) (f.of_nat (suc b))

  -- `max(a, b)`
  abbrev pub max_f : F → F → F
  max_f a b = if f.lt_f a b then b else a

module _ {W F : Type 0} ⦃f : Float F⦄ where
  -- `_noise_band`
  unfoldable pub noise_band : ReplayHarness W F → ℕ → F → F
  noise_band h zero p = f.zero_f
  noise_band h (suc n) p =
      let cases = f.of_nat (suc n) in
      let variance = max_f (f.mul_f p (f.sub_f f.one_f p)) f.zero_f in
      max_f (f.mul_f h.regression_z (f.sqrt_f (f.mul_f variance cases)))
        (f.mul_f h.min_regression_tolerance cases)

  -- whether the golden cases got worse by more than noise; the difference may be negative
  unfoldable pub has_regressed : ReplayHarness W F → ReplayReport → Bool
  unfolding noise_band
  has_regressed h report = elim report.regression_total [
    | zero ↦ false
    | suc n ↦
        f.lt_f (f.of_diff report.regression_with_rule_passed report.regression_baseline_passed)
          (f.sub_f f.zero_f (noise_band h (suc n) (rate report.regression_baseline_passed (suc n))))
  ]

  -- whether the rule fails beside the others
  unfoldable pub has_conflict : ReplayHarness W F → ReplayReport → Bool
  has_conflict h report = elim report.set_level_total [
    | zero ↦ false
    | suc n ↦ f.lt_f (rate report.set_level_passed (suc n)) h.min_resolution_rate
  ]

  -- `ReplayHarness.verdict`
  unfoldable pub verdict : ReplayHarness W F → ReplayReport → Bool × ReplayReason F
  unfolding has_regressed has_conflict noise_band
  verdict h report =
      let resolution = rate report.resolution_passed report.resolution_total in
      let band =
        noise_band h report.regression_total
          (rate report.regression_baseline_passed report.regression_total) in
      elim report.resolution_total [
        | zero ↦ (false, ReplayReason.nothing_to_replay)
        | suc n ↦
            if f.lt_f resolution h.min_resolution_rate
            then (false, ReplayReason.low_resolution resolution)
            else if has_regressed h report
            then (
              false,
              ReplayReason.regressed report.regression_with_rule_passed
                  report.regression_baseline_passed band,
            )
            else if has_conflict h report
            then (
              false,
              ReplayReason.conflicts (rate report.set_level_passed report.set_level_total),
            )
            else (
              true,
              ReplayReason.resolved resolution report.regression_with_rule_passed
                  report.regression_baseline_passed,
            )
      ]
