-- ===== src/Memory/Lifecycle/Promotion.antt =====
-- memory/lifecycle.py, `LifecyclePolicy.evaluate`: what a rule must have to be served.
use smart_router.Prelude.{
  ◌<◌, true, false, Option, ◌≡◌, ◌⊎◌, inl, inr, Float, arith, Bool-cases, eq_iff,
}
use smart_router.Schemas.Rule.{
  RouterRule, RuleState, proposed, shadow, promoted, demoted, retired, quarantined, global_scope,
}
use smart_router.Memory.Lifecycle.{
  LifecyclePolicy, LabelBiasEstimate, score, misfires, lacks_review, try_promote, keep_promoted,
  transition, evaluate,
}

module _ {F : Type 0} ⦃f : Float F⦄ (p : LifecyclePolicy F) where
  -- what a candidate needs: the lower bound, and a review if it is for every tenant
  pub record Earned (r : RouterRule F) (lb : F) : Type 0 where
    pub bound : f.lt_f lb p.promote_lower_bound ≡ false
    pub reviewed :
        p.require_human_review_for_global ≡ true
        → r.tenant_id ≡ global_scope
        → r.human_reviewed ≡ true

  -- what a served rule needs: too few trials to judge, or a bound that has not decayed
  abbrev pub Upheld : RouterRule F → F → Type 0
  Upheld r lb =
      (r.application_count < p.min_trials_to_demote) ⊎ (f.lt_f lb p.demote_lower_bound ≡ false)

  abbrev pub MayServe : RouterRule F → F → RuleState → Type 0
  MayServe r lb proposed = Earned r lb
  MayServe r lb shadow = Earned r lb
  MayServe r lb promoted = Upheld r lb
  MayServe r lb _ = ⊥

  try_promote-Earned : (r : RouterRule F) (lb : F) → (try_promote p r lb).0 ≡ promoted → Earned r lb
  unfolding try_promote lacks_review
  try_promote-Earned r lb h = record {
    bound = ground arith;
    reviewed = λ needed global. ground (arith, eq_iff r.tenant_id global_scope);
  }

  keep_promoted-Upheld :
      (r : RouterRule F) (lb : F) → (keep_promoted p r lb).0 ≡ promoted → Upheld r lb
  unfolding keep_promoted
  keep_promoted-Upheld r lb h = elim (Bool-cases (f.lt_f lb p.demote_lower_bound)) [
    | inl low ↦ inl (ground arith)
    | inr high ↦ inr high
  ]

  transition-MayServe :
      (r : RouterRule F) (lb : F) (s : RuleState)
      → (transition p r lb s).0 ≡ promoted
      → MayServe r lb s
  unfolding transition
  transition-MayServe r lb proposed h = try_promote-Earned r lb h
  transition-MayServe r lb shadow h = try_promote-Earned r lb h
  transition-MayServe r lb promoted h = keep_promoted-Upheld r lb h
  transition-MayServe r lb demoted h = cc h
  transition-MayServe r lb retired h = cc h
  transition-MayServe r lb quarantined h = cc h

  -- A rule leaves `evaluate` as promoted only if it does not misfire, and either it was a candidate
  -- that reaches the promotion bound and, if it is for every tenant, has its required review; or it
  -- was promoted, and has too few trials to be judged or has not decayed. A demoted, retired or
  -- quarantined rule never does.
  pub evaluate-MayServe :
      (r : RouterRule F) (b : Option LabelBiasEstimate)
      → (evaluate p r b).0 ≡ promoted
      → (misfires p r ≡ false) × MayServe r (score p r b) r.state
  unfolding evaluate
  evaluate-MayServe r b h = elim (Bool-cases (misfires p r)) [
    | inl bad ↦ absurd (ground arith)
    | inr good ↦ (good, transition-MayServe r (score p r b) r.state (ground arith))
  ]
