-- ===== src/Routing/Policy/Forced.antt =====
-- routing/policy.py, `PolicyGate.evaluate`: which requests are kept from the small model.
use smart_router.Prelude.{
  Bool, true, false, ◌&&◌, ◌||◌, List, [], ◌∷◌, String, ◌≡◌, refl, sym, ◌∙◌, ap, any, ◌==◌, inl,
  inr, is_some, Bool-cases, Option-cases, if◌then◌else◌,
}
use smart_router.Prelude.Strings.{contains, lower}
use smart_router.Schemas.Message.{Text, RiskClass}
use smart_router.Routing.Policy.{
  PolicyGate, PolicyDecision, PolicyReason, classify_risk, first_marker, is_irreversible_write,
  evaluate,
}

first_marker-any :
    (ms : List Text) (t : Text) → is_some (first_marker ms t) ≡ any (λ m. contains m t) ms
unfolding first_marker
first_marker-any [] t = refl
first_marker-any (m ∷ ms) t = elim (Bool-cases (contains m t)) [
  | inl h ↦ rw h refl
  | inr h ↦ rw h (first_marker-any ms t)
]

module _ {F : Type 0} where
  -- the four constraints
  abbrev pub is_constrained : PolicyGate F → Text → String → Bool → Bool
  is_constrained g query tenant override =
      override
      || (any (λ t. t == tenant) g.frontier_only_tenants
          || (any (λ m. contains m (lower query)) g.sensitive_markers
              || (g.frontier_on_irreversible_intent
                  && is_irreversible_write (classify_risk query))))

  by_intent :
      (g : PolicyGate F) (risk : RiskClass)
      → let wanted = g.frontier_on_irreversible_intent && is_irreversible_write risk in
        let d : PolicyDecision F =
          if wanted
          then record {
            force_frontier = true;
            risk_class = risk;
            cost_of_being_wrong_usd = g.cost_of_being_wrong risk;
            reason = PolicyReason.irreversible;
          }
          else record {
            force_frontier = false;
            risk_class = risk;
            cost_of_being_wrong_usd = g.cost_of_being_wrong risk;
            reason = PolicyReason.no_constraint;
          } in
        (d.force_frontier ≡ wanted)
        × (d.risk_class ≡ risk)
        × (d.cost_of_being_wrong_usd ≡ g.cost_of_being_wrong risk)
  by_intent g risk =
      elim (Bool-cases (g.frontier_on_irreversible_intent && is_irreversible_write risk)) [
        | inl h ↦ rw h (refl, refl, refl)
        | inr h ↦ rw h (refl, refl, refl)
      ]

  -- A request is forced to the frontier exactly when one of the four constraints holds: an explicit
  -- override, a tenant of the frontier only, a sensitive marker in the lowered query, or
  -- irreversible intent where the gate asks for it. In each case the decision carries the risk class
  -- of the query and the cost that the gate has for it.
  pub evaluate-force :
      (g : PolicyGate F) (query : Text) (tenant : String) (override : Bool)
      → ((evaluate g query tenant override).force_frontier ≡ is_constrained g query tenant override)
        × ((evaluate g query tenant override).risk_class ≡ classify_risk query)
        × ((evaluate g query tenant override).cost_of_being_wrong_usd
            ≡ g.cost_of_being_wrong (classify_risk query))
  unfolding evaluate
  evaluate-force g query tenant true = (refl, refl, refl)
  evaluate-force g query tenant false =
      elim (Bool-cases (any (λ t. t == tenant) g.frontier_only_tenants)) [
        | inl only ↦ rw (only, evaluate) (refl, refl, refl)
        | inr free ↦ elim (Option-cases (first_marker g.sensitive_markers (lower query))) [
          | inr (m, e) ↦
              let found : any (λ k. contains k (lower query)) g.sensitive_markers ≡ true =
                sym (first_marker-any g.sensitive_markers (lower query)) ∙ ap is_some e in
              rw (free, e, found, evaluate) (refl, refl, refl)
          | inl e ↦
              let clean : any (λ k. contains k (lower query)) g.sensitive_markers ≡ false =
                sym (first_marker-any g.sensitive_markers (lower query)) ∙ ap is_some e in
              rw (free, e, clean, evaluate) (by_intent g (classify_risk query))
        ]
      ]
