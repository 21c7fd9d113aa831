-- ===== src/Routing/Threshold.antt =====
-- routing/threshold.py: how likely the small model must be to succeed.
use smart_router.Prelude.{Float, if◌then◌else◌}

pub record CostModel (F : Type 0) : Type 0 where
  pub cost_slm_usd : F
  pub cost_frontier_usd : F
  pub cost_verification_usd : F

module _ {F : Type 0} ⦃f : Float F⦄ where
  -- `min(1.0, x)`
  abbrev at_most_one : F → F
  at_most_one x = if f.lt_f x f.one_f then x else f.one_f

  unfoldable pub max_acceptable_failure_prob : CostModel F → F → F
  max_acceptable_failure_prob m cost_of_being_wrong =
      let attempt_overhead = f.add_f m.cost_slm_usd m.cost_verification_usd in
      let denominator =
        f.add_f (f.add_f attempt_overhead m.cost_frontier_usd) cost_of_being_wrong in
      let numerator = f.sub_f m.cost_frontier_usd attempt_overhead in
      if f.le_f denominator f.zero_f
      then f.zero_f
      else if f.le_f numerator f.zero_f
      then f.zero_f
      else at_most_one (f.div_f numerator denominator)

  unfoldable pub min_success_prob : CostModel F → F → F
  unfolding max_acceptable_failure_prob
  min_success_prob m cost_of_being_wrong =
      f.sub_f f.one_f (max_acceptable_failure_prob m cost_of_being_wrong)

  unfoldable pub expected_cost : CostModel F → F → F → F
  expected_cost m p_fail cost_of_being_wrong =
      f.add_f (f.add_f m.cost_slm_usd m.cost_verification_usd)
        (f.mul_f p_fail (f.add_f m.cost_frontier_usd cost_of_being_wrong))
