-- ===== src/Memory/Learning/Fair.antt =====
-- memory/loop.py: which rules may be served after a step of the loop on the store.
use smart_router.Prelude.{
  ℕ, true, false, none, some, List, [], ◌∷◌, String, ◌≡◌, ◌⊎◌, inl, inr, refl, ◌∙◌, Float, All,
  Bool-cases, Option-cases, subst, sym, arith,
}
use smart_router.Prelude.Dict.{put, values, string_eq}
use smart_router.Schemas.Rule.{
  RouterRule, RuleState, shadow, promoted, quarantined, is_promoted_state, is_servable,
}
use smart_router.Memory.Lifecycle.{LifecyclePolicy, score, misfires, false_trigger_rate, evaluate}
use smart_router.Memory.Lifecycle.Promotion
use smart_router.Memory.Lifecycle.Promotion.{MayServe, evaluate-MayServe}
use smart_router.Memory.Store.{
  RuleStore, add, save, save_if, to_store, find_same, merge, is_stale, demote_stale, stale_ids,
  map_rules, invalidate_for_model, next_rule_id,
}
use smart_router.Memory.Store.Evidence.{All-put, All-map_rules}
use smart_router.Memory.Replay.{ReplayReport}
use smart_router.Memory.Learning.{LoopReport, with_evidence, scored_rule, decide, admit}

-- membership
abbrev pub In : {A : Type 0} → A → List A → Type 0
In a [] = ⊥
In a (x ∷ xs) = (x ≡ a) ⊎ In a xs

All-In : {A : Type 0} (P : A → Type 0) (xs : List A) → ((a : A) → In a xs → P a) → All P xs
All-In P [] h = tt
All-In P (x ∷ xs) h = (h x (inl refl), All-In P xs (λ a i. h a (inr i)))

module _ {F : Type 0} ⦃f : Float F⦄ (p : LifecyclePolicy F) (live : String)
    (start : List (RouterRule F)) where
  -- what a rule that the run promotes has: evidence of the live model that reaches the promotion
  -- bound, no excess of false triggers, and its review if it is for every tenant
  pub record HasEarned (r : RouterRule F) : Type 0 where
    pub validated : r.validated_against_model ≡ some live
    pub quiet : misfires p r ≡ false
    pub earned : Promotion.Earned p r (score p r none)

  -- a rule that was there before, with no evidence of another model
  abbrev pub WasKept : RouterRule F → Type 0
  WasKept r = In r start × (is_stale live r ≡ false)

  abbrev pub IsFair : RouterRule F → Type 0
  IsFair r = is_servable r ≡ true → WasKept r ⊎ HasEarned r

  pub record Holds (s : RuleStore F) : Type 0 where
    pub policy : s.policy ≡ p
    pub fair : All IsFair (values s.rules)

  shadow-IsFair : (r : RouterRule F) → r.state ≡ shadow → IsFair r
  shadow-IsFair r e h = absurd (cc (e, h))

  demoted-IsFair : (r : RouterRule F) → In r start → IsFair (demote_stale live r)
  unfolding demote_stale
  demoted-IsFair r i = elim (Bool-cases (is_stale live r)) [
    | inl stale ↦ rw stale (λ h. absurd (cc h))
    | inr fresh ↦ rw fresh (λ h. inl (i, fresh))
  ]

module _ {F : Type 0} where
  save-same : (s : RuleStore F) → ((save s).rules ≡ s.rules) × ((save s).policy ≡ s.policy)
  unfolding save
  save-same s = ground arith

  save_if-same :
      (ids : List String) (s : RuleStore F)
      → ((save_if ids s).rules ≡ s.rules) × ((save_if ids s).policy ≡ s.policy)
  unfolding save_if
  save_if-same [] s = (refl, refl)
  save_if-same (x ∷ xs) s = save-same s

  to_store-state :
      (r : RouterRule F) (rs : List (RouterRule F))
      → ((to_store r rs).state ≡ r.state)
        × ((to_store r rs).validated_against_model ≡ r.validated_against_model)
  unfolding to_store merge
  to_store-state r rs = elim (Option-cases (find_same r rs)) [
    | inl new ↦ rw (new, to_store) (refl, refl)
    | inr (old, found) ↦ rw (found, to_store) (refl, refl)
  ]

promoted_only : (s : RuleState) → is_promoted_state s ≡ true → s ≡ promoted
promoted_only promoted h = refl
promoted_only RuleState.proposed h = absurd (cc h)
promoted_only shadow h = absurd (cc h)
promoted_only RuleState.demoted h = absurd (cc h)
promoted_only RuleState.retired h = absurd (cc h)
promoted_only quarantined h = absurd (cc h)

module _ {F : Type 0} ⦃f : Float F⦄ (p : LifecyclePolicy F) (live : String)
    (start : List (RouterRule F)) where
  -- the rule that `decide` stores
  decided-IsFair :
      (r : RouterRule F)
      → r.state ≡ shadow
      → r.validated_against_model ≡ some live
      → IsFair p live start (record r {
        wilson_lower_bound = score p r none;
        state = (evaluate p (record r { wilson_lower_bound = score p r none }) none).0;
      })
  unfolding score misfires false_trigger_rate
  decided-IsFair r e v h =
      let scored : RouterRule F = record r { wilson_lower_bound = score p r none } in
      let m = evaluate-MayServe p scored none (promoted_only (evaluate p scored none).0 h) in
      let a : Promotion.Earned p scored (score p scored none) =
        subst (λ t. MayServe p scored (score p scored none) t) e m.1 in
      inr (record {
        validated = v;
        quiet = m.0;
        earned = record { bound = a.bound; reviewed = a.reviewed };
      })

module _ {F : Type 0} ⦃f : Float F⦄ (p : LifecyclePolicy F) (live : String)
    (start : List (RouterRule F)) where
  put-Holds :
      (k : String) (r : RouterRule F) (s : RuleStore F)
      → IsFair p live start r
      → Holds p live start s
      → Holds p live start (save (record s { rules = put k r s.rules }))
  put-Holds k r s i h =
      let same = save-same (record s { rules = put k r s.rules }) in
      record {
        policy = same.1 ∙ h.policy;
        fair =
            subst (λ d. All (IsFair p live start) (values d)) (sym same.0)
              (All-put (IsFair p live start) k r s.rules i h.fair);
      }

  -- what `add` stores has the state that it was given
  pub add-Holds :
      (r : RouterRule F) (s : RuleStore F)
      → is_servable r ≡ false
      → Holds p live start s
      → Holds p live start (add r s).0
  unfolding add
  add-Holds r s idle h =
      let r' = to_store r (values s.rules) in
      let same = to_store-state r (values s.rules) in
      put-Holds r'.rule_id r' s (λ served. absurd (cc (served, same.0, idle))) h

  decide-Holds :
      (report : LoopReport F) (s : RuleStore F) (r : RouterRule F)
      → r.state ≡ shadow
      → r.validated_against_model ≡ some live
      → Holds p live start s
      → Holds p live start (decide report s r).0
  unfolding decide scored_rule
  decide-Holds report s r e v h =
      let scored : RouterRule F = record r { wilson_lower_bound = score s.policy r none } in
      let decided : RouterRule F = record scored { state = (evaluate s.policy scored none).0 } in
      put-Holds r.rule_id decided s
        (subst (λ q. IsFair q live start decided) h.policy
          (decided-IsFair s.policy live start r e v))
        h

  pub admit-Holds :
      (replay : ReplayReport) (r : RouterRule F) (report : LoopReport F) (s : RuleStore F)
      → Holds p live start s
      → Holds p live start (admit live replay r report s).0
  unfolding admit with_evidence add
  admit-Holds replay r report s h =
      let seen = with_evidence live replay r in
      let same = to_store-state seen (values s.rules) in
      decide-Holds report (add seen s).0 (add seen s).1 same.0 same.1 (add-Holds seen s refl h)

  pub next_rule_id-Holds :
      (format : ℕ → String) (s : RuleStore F)
      → Holds p live start s
      → Holds p live start (next_rule_id format s).0
  unfolding next_rule_id
  next_rule_id-Holds format s h = record { policy = h.policy; fair = h.fair }

module _ {F : Type 0} ⦃f : Float F⦄ where
  -- the rules with evidence of another model are not served any more
  pub invalidate-Holds :
      (live : String) (s : RuleStore F)
      → Holds s.policy live (values s.rules) (invalidate_for_model live s).0
  unfolding invalidate_for_model
  invalidate-Holds live s =
      let start = values s.rules in
      let s' : RuleStore F = record s { rules = map_rules (demote_stale live) s.rules } in
      let same = save_if-same (stale_ids live start) s' in
      record {
        policy = same.1;
        fair =
            subst (λ d. All (IsFair s.policy live start) (values d)) (sym same.0)
              (All-map_rules (λ r. In r start) (IsFair s.policy live start) (demote_stale live)
                s.rules (demoted-IsFair s.policy live start)
                (All-In (λ r. In r start) start (λ a i. i)));
      }
