-- ===== src/Memory/Lifecycle.antt =====
-- memory/lifecycle.py: the score of a rule and its state transitions.
pub mod Promotion
use smart_router.Prelude.{
  ℕ, zero, suc, ◌+◌, ◌*◌, Bool, true, false, not, ◌&&◌, Option, none, some, String, ◌==◌, Float,
  ltb, leb, if◌then◌else◌,
}
use smart_router.Schemas.Message.{Message}
use smart_router.Schemas.Rule.{
  RouterRule, RuleState, proposed, shadow, promoted, demoted, retired, quarantined, global_scope,
}

module _ {F : Type 0} ⦃f : Float F⦄ where
  -- `max(0.0, x)`
  abbrev pub at_least_zero : F → F
  at_least_zero x = if f.lt_f f.zero_f x then x else f.zero_f

  unfoldable pub wilson_lower_bound : F → ℕ → ℕ → F
  wilson_lower_bound z successes zero = f.zero_f
  wilson_lower_bound z successes (suc n) =
      let trials = f.of_nat (suc n) in
      let p = f.div_f (f.of_nat successes) trials in
      let zz = f.mul_f z z in
      let denom = f.add_f f.one_f (f.div_f zz trials) in
      let centre = f.add_f p (f.div_f zz (f.of_nat (2 * suc n))) in
      let spread = f.add_f (f.mul_f p (f.sub_f f.one_f p)) (f.div_f zz (f.of_nat (4 * suc n))) in
      let margin = f.mul_f z (f.sqrt_f (f.div_f spread trials)) in
      at_least_zero (f.div_f (f.sub_f centre margin) denom)

pub record LabelBiasEstimate : Type 0 where
  pub audited : ℕ
  pub verifier_passed : ℕ
  pub actually_correct : ℕ

-- `z` is the constant `Z_95`.
pub record LifecyclePolicy (F : Type 0) : Type 0 where
  pub z : F
  pub promote_lower_bound : F
  pub demote_lower_bound : F
  pub min_trials_to_demote : ℕ
  pub max_false_trigger_rate : F
  pub require_human_review_for_global : Bool

abbrev pub is_quarantined : RuleState → Bool
is_quarantined quarantined = true
is_quarantined _ = false

-- the reasons of `evaluate`
pub data TransitionReason (F : Type 0) : Type 0 where
  stays_quarantined : Option (Message F) → TransitionReason F
  false_triggers : F → TransitionReason F
  below_bound : F → TransitionReason F
  awaits_review : TransitionReason F
  bound_reached : F → TransitionReason F
  decayed : F → TransitionReason F
  unchanged : TransitionReason F

module _ {F : Type 0} ⦃f : Float F⦄ where
  unfoldable pub bias : LabelBiasEstimate → F
  bias b = elim b.verifier_passed [
    | zero ↦ f.zero_f
    | suc n ↦ f.div_f (f.of_diff (suc n) b.actually_correct) (f.of_nat (suc n))
  ]

  unfoldable pub corrected : LabelBiasEstimate → F → F
  unfolding bias
  corrected b lb = at_least_zero (f.mul_f lb (f.sub_f f.one_f (bias b)))

  unfoldable pub score : LifecyclePolicy F → RouterRule F → Option LabelBiasEstimate → F
  unfolding wilson_lower_bound corrected
  score p r b =
      let lb = wilson_lower_bound p.z r.success_count r.application_count in
      elim b [ none ↦ lb | some e ↦ corrected e lb ]

  unfoldable pub false_trigger_rate : RouterRule F → F
  false_trigger_rate r = elim (r.application_count + r.false_trigger_count) [
    | zero ↦ f.zero_f
    | suc n ↦ f.div_f (f.of_nat r.false_trigger_count) (f.of_nat (suc n))
  ]

  -- `ftr > self.max_false_trigger_rate and rule.application_count > 0`
  unfoldable pub misfires : LifecyclePolicy F → RouterRule F → Bool
  unfolding false_trigger_rate
  misfires p r = f.lt_f p.max_false_trigger_rate (false_trigger_rate r) && ltb 0 r.application_count

  unfoldable pub lacks_review : LifecyclePolicy F → RouterRule F → Bool
  lacks_review p r =
      p.require_human_review_for_global && ((r.tenant_id == global_scope) && not r.human_reviewed)

  unfoldable pub try_promote : LifecyclePolicy F → RouterRule F → F → RuleState × TransitionReason F
  unfolding lacks_review
  try_promote p r lb =
      if f.lt_f lb p.promote_lower_bound
      then (shadow, TransitionReason.below_bound lb)
      else if lacks_review p r
      then (shadow, TransitionReason.awaits_review)
      else (promoted, TransitionReason.bound_reached lb)

  unfoldable pub keep_promoted :
      LifecyclePolicy F → RouterRule F → F → RuleState × TransitionReason F
  keep_promoted p r lb =
      if leb p.min_trials_to_demote r.application_count && f.lt_f lb p.demote_lower_bound
      then (demoted, TransitionReason.decayed lb)
      else (promoted, TransitionReason.bound_reached lb)

  -- the transition of a rule that does not misfire
  unfoldable pub transition :
      LifecyclePolicy F → RouterRule F → F → RuleState → RuleState × TransitionReason F
  unfolding try_promote keep_promoted
  transition p r lb proposed = try_promote p r lb
  transition p r lb shadow = try_promote p r lb
  transition p r lb promoted = keep_promoted p r lb
  transition p r lb demoted = (demoted, TransitionReason.unchanged)
  transition p r lb retired = (retired, TransitionReason.unchanged)
  transition p r lb quarantined =
      (quarantined, TransitionReason.stays_quarantined r.quarantine_reason)

  unfoldable pub evaluate :
      LifecyclePolicy F → RouterRule F → Option LabelBiasEstimate → RuleState × TransitionReason F
  unfolding transition misfires score
  evaluate p r b =
      if is_quarantined r.state
      then (quarantined, TransitionReason.stays_quarantined r.quarantine_reason)
      else if misfires p r
      then (demoted, TransitionReason.false_triggers (false_trigger_rate r))
      else transition p r (score p r b) r.state
