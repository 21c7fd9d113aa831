-- ===== src/Memory/Store/Withdrawal.antt =====
-- memory/store.py: a rule that was pulled is not served again unless it is added again.
use smart_router.Prelude.{
  Bool, true, false, Option, none, some, List, [], ◌∷◌, String, ◌≡◌, inl, inr, refl, sym, subst,
  ◌==◌, eq_iff, eq_refl, Float, All, Bool-cases, Option-cases, if◌then◌else◌,
}
use smart_router.Prelude.Dict.{Dict, get, put, get-put, values, string_eq}
use smart_router.Schemas.Message.{Message}
use smart_router.Schemas.Rule.{
  RouterRule, RuleState, proposed, shadow, promoted, demoted, retired, quarantined, is_servable,
  is_promoted_state,
}
use smart_router.Memory.Lifecycle.{
  LifecyclePolicy, LabelBiasEstimate, TransitionReason, evaluate, transition, misfires, score,
  is_quarantined,
}
use smart_router.Memory.Store.{
  RuleStore, save, is_stale, demote_stale, map_rules, count_outcome, record_outcome, settle,
  changes, reconcile, stale_ids, save_if, invalidate_for_model, retire, pull,
}
use smart_router.Memory.Store.Evidence.{
  Operation, adding, outcome, reconciling, invalidating, pulling, perform, perform_all, save-rules,
  save_if-rules,
}

-- a state from which no transition leads back to service
abbrev pub IsOut : RuleState → Type 0
IsOut demoted = Unit
IsOut retired = Unit
IsOut quarantined = Unit
IsOut _ = ⊥

out_unserved : (s : RuleState) → IsOut s → is_promoted_state s ≡ false
out_unserved demoted h = refl
out_unserved retired h = refl
out_unserved quarantined h = refl
out_unserved proposed h = absurd h
out_unserved shadow h = absurd h
out_unserved promoted h = absurd h

module _ {F : Type 0} where
  -- the rule of an identifier, if there is one, is out of service
  abbrev pub OutIfSome : Option (RouterRule F) → Type 0
  OutIfSome none = Unit
  OutIfSome (some r) = IsOut r.state

  abbrev pub IsWithdrawn : String → RuleStore F → Type 0
  IsWithdrawn id s = OutIfSome (get id s.rules)

  IsWithdrawn-saved : (id : String) (s : RuleStore F) → IsWithdrawn id s → IsWithdrawn id (save s)
  IsWithdrawn-saved id s h = subst (λ d. OutIfSome (get id d)) (sym (save-rules s)) h

  IsWithdrawn-saved_if {ℓ} :
      {A : Type ℓ} (xs : List A) (id : String) (s : RuleStore F)
      → IsWithdrawn id s
      → IsWithdrawn id (save_if xs s)
  IsWithdrawn-saved_if xs id s h = subst (λ d. OutIfSome (get id d)) (sym (save_if-rules xs s)) h

  OutIfSome-if :
      (b : Bool) (r : RouterRule F) (o : Option (RouterRule F))
      → (b ≡ true → IsOut r.state)
      → OutIfSome o
      → OutIfSome (if b then some r else o)
  OutIfSome-if true r o k h = k refl
  OutIfSome-if false r o k h = h

  withdrawn_put :
      (id k : String) (r : RouterRule F) (d : Dict String (RouterRule F))
      → ((k == id) ≡ true → IsOut r.state)
      → OutIfSome (get id d)
      → OutIfSome (get id (put k r d))
  withdrawn_put id k r d new h =
      subst OutIfSome (sym (get-put k id r d)) (OutIfSome-if (k == id) r (get id d) new h)

  withdrawn_map :
      (id : String) (g : RouterRule F → RouterRule F) (d : Dict String (RouterRule F))
      → ((r : RouterRule F) → IsOut r.state → IsOut (g r).state)
      → OutIfSome (get id d)
      → OutIfSome (get id (map_rules g d))
  unfolding get map_rules
  withdrawn_map id g [] k h = tt
  withdrawn_map id g ((j, r) ∷ d) k h = elim (Bool-cases (j == id)) [
    | inl same ↦ rw (same, get) (k r (rw (same, get) at h))
    | inr other ↦ rw (other, get) (withdrawn_map id g d k (rw (other, get) at h))
  ]

  demote_stale-IsOut :
      (live : String) (r : RouterRule F) → IsOut r.state → IsOut (demote_stale live r).state
  unfolding demote_stale is_stale
  demote_stale-IsOut live r h = rw (out_unserved r.state h) h

  count_outcome-state :
      (succeeded triggered : Bool) (r : RouterRule F)
      → (count_outcome succeeded triggered r).state ≡ r.state
  unfolding count_outcome
  count_outcome-state succeeded true r = refl
  count_outcome-state succeeded false r = refl

module _ {F : Type 0} ⦃f : Float F⦄ where
  transition-IsOut :
      (p : LifecyclePolicy F) (r : RouterRule F) (lb : F) (s : RuleState)
      → IsOut s
      → IsOut (transition p r lb s).0
  unfolding transition
  transition-IsOut p r lb demoted h = tt
  transition-IsOut p r lb retired h = tt
  transition-IsOut p r lb quarantined h = tt
  transition-IsOut p r lb proposed h = absurd h
  transition-IsOut p r lb shadow h = absurd h
  transition-IsOut p r lb promoted h = absurd h

  IsOut-if :
      (b : Bool) (x y : RuleState × TransitionReason F)
      → IsOut x.0
      → IsOut y.0
      → IsOut (if b then x else y).0
  IsOut-if true x y hx hy = hx
  IsOut-if false x y hx hy = hy

  settle-IsOut :
      (p : LifecyclePolicy F) (b : Option LabelBiasEstimate) (r : RouterRule F)
      → IsOut r.state
      → IsOut (settle p b r).state
  unfolding settle evaluate
  settle-IsOut p b r h =
      IsOut-if (is_quarantined r.state) _ _ tt
        (IsOut-if (misfires p r) _ _ tt (transition-IsOut p r (score p r b) r.state h))

  outcome-IsWithdrawn :
      (id k : String) (succeeded triggered : Bool) (s : RuleStore F)
      → IsWithdrawn id s
      → IsWithdrawn id (record_outcome k succeeded triggered s)
  unfolding record_outcome
  outcome-IsWithdrawn id k succeeded triggered s h = elim (Option-cases (get k s.rules)) [
    | inl missing ↦ rw (missing, record_outcome) h
    | inr (r, e) ↦
        let r' = count_outcome succeeded triggered r in
        let scored : RouterRule F = record r' { wilson_lower_bound = score s.policy r' none } in
        rw (e, record_outcome)
          (IsWithdrawn-saved id (record s { rules = put k scored s.rules })
            (withdrawn_put id k scored s.rules
              (λ same.
                subst IsOut (sym (count_outcome-state succeeded triggered r))
                  (out_at id k r s.rules same e h))
              h))
  ]
    where
      out_at :
          (id k : String) (r : RouterRule F) (d : Dict String (RouterRule F))
          → (k == id) ≡ true
          → get k d ≡ some r
          → OutIfSome (get id d)
          → IsOut r.state
      out_at id k r d same e h =
          let same_key : k ≡ id = (eq_iff k id).0 same in
          subst OutIfSome (subst (λ x. get x d ≡ some r) same_key e) h

  pull-IsWithdrawn :
      (id k : String) (reason : Message F) (s : RuleStore F)
      → IsWithdrawn id s
      → IsWithdrawn id (pull k reason s)
  unfolding pull retire
  pull-IsWithdrawn id k reason s h = elim (Option-cases (get k s.rules)) [
    | inl missing ↦ rw (missing, pull) h
    | inr (r, e) ↦
        rw (e, pull)
          (IsWithdrawn-saved id (record s { rules = put k (retire reason r) s.rules })
            (withdrawn_put id k (retire reason r) s.rules (λ _. tt) h))
  ]

  -- `pull` itself takes its rule out of service
  pull-withdraws :
      (id : String) (reason : Message F) (s : RuleStore F) → IsWithdrawn id (pull id reason s)
  unfolding pull retire
  pull-withdraws id reason s = elim (Option-cases (get id s.rules)) [
    | inl missing ↦ rw (missing, pull) (rw missing tt)
    | inr (r, e) ↦
        rw (e, pull)
          (IsWithdrawn-saved id (record s { rules = put id (retire reason r) s.rules })
            (subst OutIfSome (sym (get-put id id (retire reason r) s.rules)) (rw (eq_refl id) tt)))
  ]

  -- every operation but `add`
  abbrev pub AddsNone : Operation F → Type 0
  AddsNone (adding r) = ⊥
  AddsNone _ = Unit

  perform-IsWithdrawn :
      (o : Operation F) (id : String) (s : RuleStore F)
      → AddsNone o
      → IsWithdrawn id s
      → IsWithdrawn id (perform o s)
  unfolding perform reconcile invalidate_for_model
  perform-IsWithdrawn (adding r) id s a h = absurd a
  perform-IsWithdrawn (outcome k succeeded triggered) id s a h =
      outcome-IsWithdrawn id k succeeded triggered s h
  perform-IsWithdrawn (reconciling b) id s a h =
      IsWithdrawn-saved_if (changes s.policy b (values s.rules)) id
        (record s { rules = map_rules (settle s.policy b) s.rules })
        (withdrawn_map id (settle s.policy b) s.rules (settle-IsOut s.policy b) h)
  perform-IsWithdrawn (invalidating live) id s a h =
      IsWithdrawn-saved_if (stale_ids live (values s.rules)) id
        (record s { rules = map_rules (demote_stale live) s.rules })
        (withdrawn_map id (demote_stale live) s.rules (demote_stale-IsOut live) h)
  perform-IsWithdrawn (pulling k reason) id s a h = pull-IsWithdrawn id k reason s h

  perform_all-IsWithdrawn :
      (os : List (Operation F)) (id : String) (s : RuleStore F)
      → All AddsNone os
      → IsWithdrawn id s
      → IsWithdrawn id (perform_all os s)
  unfolding perform_all
  perform_all-IsWithdrawn [] id s a h = h
  perform_all-IsWithdrawn (o ∷ os) id s a h =
      perform_all-IsWithdrawn os id (perform o s) a.1 (perform-IsWithdrawn o id s a.0 h)

  -- After `pull(id)`, whatever calls of `record_outcome`, `reconcile`, `invalidate_for_model` and `pull`
  -- follow, with no `add` among them, the rule that the store has under `id` is not servable.
  pub pull-unserved :
      (id : String) (reason : Message F) (os : List (Operation F)) (s : RuleStore F)
      (r : RouterRule F)
      → All AddsNone os
      → get id (perform_all os (pull id reason s)).rules ≡ some r
      → is_servable r ≡ false
  pull-unserved id reason os s r a e = out_unserved r.state (
      subst OutIfSome e
        (perform_all-IsWithdrawn os id (pull id reason s) a (pull-withdraws id reason s)))
