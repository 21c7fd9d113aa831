-- ===== src/Memory/Store/Service.antt =====
-- memory/store.py: which rules the store gives out to be served, after `invalidate_for_model`
-- and after `pull`.
use smart_router.Prelude.{
  Bool, true, false, ◌&&◌, none, some, List, [], ◌∷◌, String, ◌≡◌, ◌⊎◌, inl, inr, sym, subst, ◌==◌,
  eq_iff, All, filter_by, Bool-cases, Option-cases, arith,
}
use smart_router.Prelude.Dict.{values, string_eq}
use smart_router.Schemas.Rule.{RouterRule, is_servable, global_scope}
use smart_router.Memory.Store
use smart_router.Memory.Store.{
  RuleStore, in_scope, save, is_stale, demote_stale, map_rules, count_outcome, record_outcome,
  settle, changes, reconcile, stale_ids, save_if, invalidate_for_model, retire, pull,
}
use smart_router.Memory.Store.Evidence.{save_if-rules, All-map_rules}

pub scope_cases :
    (tenant t : String) → in_scope (some tenant) t ≡ true → (t ≡ tenant) ⊎ (t ≡ global_scope)
unfolding in_scope
scope_cases tenant t h = elim (Bool-cases (t == tenant)) [
  | inl same ↦ inl (ground (arith, eq_iff t tenant))
  | inr other ↦ inr (ground (arith, eq_iff t global_scope))
]

module _ {F : Type 0} where
  -- what is kept of a filter's elements
  filter_by-All :
      (P Q : RouterRule F → Type 0) (t : RouterRule F → Bool) (rs : List (RouterRule F))
      → ((r : RouterRule F) → t r ≡ true → P r → Q r)
      → All P rs
      → All Q (filter_by t rs)
  filter_by-All P Q t [] k a = tt
  filter_by-All P Q t (r ∷ rs) k a = elim (Bool-cases (t r)) [
    | inl kept ↦ rw kept (k r kept a.0, filter_by-All P Q t rs k a.1)
    | inr dropped ↦ rw dropped (filter_by-All P Q t rs k a.1)
  ]

  -- the evidence of a rule is of the live model, or of none that is named
  abbrev pub IsCurrent : String → RouterRule F → Type 0
  IsCurrent live r = (r.validated_against_model ≡ none) ⊎ (r.validated_against_model ≡ some live)

  pub record Serves (tenant live : String) (r : RouterRule F) : Type 0 where
    pub state : is_servable r ≡ true
    pub scope : (r.tenant_id ≡ tenant) ⊎ (r.tenant_id ≡ global_scope)
    pub current : IsCurrent live r

  -- a rule that may be served after the demotion is current
  abbrev CurrentIfServed : String → RouterRule F → Type 0
  CurrentIfServed live r = is_servable r ≡ true → IsCurrent live r

  fresh_cases :
      (live : String) (r : RouterRule F) → is_stale live r ≡ false → CurrentIfServed live r
  unfolding is_stale
  fresh_cases live r h s = elim (Option-cases r.validated_against_model) [
    | inl unnamed ↦ inl unnamed
    | inr (m, e) ↦ inr (ground (arith, eq_iff m live))
  ]

  abbrev AnyRule : RouterRule F → Type 0
  AnyRule r = Unit

  demote_stale-Current :
      (live : String) (r : RouterRule F) → AnyRule r → CurrentIfServed live (demote_stale live r)
  unfolding demote_stale
  demote_stale-Current live r u = elim (Bool-cases (is_stale live r)) [
    | inl stale ↦ rw stale (λ s. cc s)
    | inr fresh ↦ rw fresh (fresh_cases live r fresh)
  ]

  All-true : (rs : List (RouterRule F)) → All AnyRule rs
  All-true [] = tt
  All-true (r ∷ rs) = (tt, All-true rs)

  invalidated-Current :
      (live : String) (s : RuleStore F)
      → All (CurrentIfServed live) (values (invalidate_for_model live s).0.rules)
  unfolding invalidate_for_model
  invalidated-Current live s =
      subst (λ d. All (CurrentIfServed live) (values d))
        (sym (
          save_if-rules (stale_ids live (values s.rules))
            (record s { rules = map_rules (demote_stale live) s.rules })))
        (All-map_rules AnyRule (CurrentIfServed live) (demote_stale live) s.rules
          (demote_stale-Current live) (All-true (values s.rules)))

  -- After `invalidate_for_model(live)`, each rule that `promoted(tenant)` gives out is in the
  -- promoted state, is of that tenant or of every tenant, and carries evidence of the live model
  -- or names no model.
  pub invalidate-Serves :
      (tenant live : String) (s : RuleStore F)
      → All (Serves tenant live) (Store.promoted (some tenant) (invalidate_for_model live s).0)
  unfolding Store.promoted
  invalidate-Serves tenant live s =
      filter_by-All (CurrentIfServed live) (Serves tenant live)
        (λ r. is_servable r && in_scope (some tenant) r.tenant_id)
        (values (invalidate_for_model live s).0.rules)
        (λ r kept current. record {
          state = ground arith;
          scope = scope_cases tenant r.tenant_id (ground arith);
          current = current (ground arith);
        })
        (invalidated-Current live s)
