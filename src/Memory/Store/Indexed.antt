-- ===== src/Memory/Store/Indexed.antt =====
-- memory/store.py: the dictionary of the rules, over any sequence of the store's operations.
use smart_router.Prelude.{
  Bool, none, List, [], ◌∷◌, String, refl, sym, ◌∙◌, subst, Float, Option-cases, inl, inr,
}
use smart_router.Prelude.Dict.{get, put, values, string_eq}
use smart_router.Schemas.Message.{Message}
use smart_router.Schemas.Rule.{RouterRule}
use smart_router.Memory.Lifecycle.{score}
use smart_router.Memory.Store.{
  RuleStore, save, to_store, add, map_rules, demote_stale, stale_ids, save_if, count_outcome,
  record_outcome, settle, changes, reconcile, invalidate_for_model, retire, pull,
}
use smart_router.Memory.Store.Evidence.{
  Operation, adding, outcome, reconciling, invalidating, pulling, perform, perform_all, save-rules,
  save_if-rules,
}
use smart_router.Memory.Store.Index.{
  IsIndex, put-IsIndex, get-Keyed, map_rules-IsIndex, demote_stale-id, count_outcome-id,
}

module _ {F : Type 0} where
  abbrev pub HasIndex : RuleStore F → Type 0
  HasIndex s = IsIndex s.rules

  HasIndex-save : (s : RuleStore F) → HasIndex s → HasIndex (save s)
  HasIndex-save s h = subst IsIndex (sym (save-rules s)) h

  HasIndex-save_if {ℓ} :
      {A : Type ℓ} (xs : List A) (s : RuleStore F) → HasIndex s → HasIndex (save_if xs s)
  HasIndex-save_if xs s h = subst IsIndex (sym (save_if-rules xs s)) h

  pull-HasIndex :
      (id : String) (reason : Message F) (s : RuleStore F)
      → HasIndex s
      → HasIndex (pull id reason s)
  unfolding pull retire
  pull-HasIndex id reason s h = elim (Option-cases (get id s.rules)) [
    | inl missing ↦ rw (missing, pull) h
    | inr (r, e) ↦
        rw (e, pull)
          (HasIndex-save (record s { rules = put id (retire reason r) s.rules })
            (put-IsIndex id (retire reason r) s.rules (get-Keyed id r s.rules h.keyed e) h))
  ]

module _ {F : Type 0} ⦃f : Float F⦄ where
  outcome-HasIndex :
      (id : String) (succeeded triggered : Bool) (s : RuleStore F)
      → HasIndex s
      → HasIndex (record_outcome id succeeded triggered s)
  unfolding record_outcome
  outcome-HasIndex id succeeded triggered s h = elim (Option-cases (get id s.rules)) [
    | inl missing ↦ rw (missing, record_outcome) h
    | inr (r, e) ↦
        let r' = count_outcome succeeded triggered r in
        let scored : RouterRule F = record r' { wilson_lower_bound = score s.policy r' none } in
        rw (e, record_outcome)
          (HasIndex-save (record s { rules = put id scored s.rules })
            (put-IsIndex id scored s.rules
              (count_outcome-id succeeded triggered r ∙ get-Keyed id r s.rules h.keyed e) h))
  ]

  perform-HasIndex : (o : Operation F) (s : RuleStore F) → HasIndex s → HasIndex (perform o s)
  unfolding perform add reconcile invalidate_for_model settle
  perform-HasIndex (adding r) s h =
      let r' = to_store r (values s.rules) in
      HasIndex-save (record s { rules = put r'.rule_id r' s.rules })
        (put-IsIndex r'.rule_id r' s.rules refl h)
  perform-HasIndex (outcome id succeeded triggered) s h =
      outcome-HasIndex id succeeded triggered s h
  perform-HasIndex (reconciling b) s h =
      HasIndex-save_if (changes s.policy b (values s.rules))
        (record s { rules = map_rules (settle s.policy b) s.rules })
        (map_rules-IsIndex (settle s.policy b) s.rules (λ r. refl) h)
  perform-HasIndex (invalidating live) s h =
      HasIndex-save_if (stale_ids live (values s.rules))
        (record s { rules = map_rules (demote_stale live) s.rules })
        (map_rules-IsIndex (demote_stale live) s.rules (demote_stale-id live) h)
  perform-HasIndex (pulling id reason) s h = pull-HasIndex id reason s h

  -- Whatever calls of `add`, `record_outcome`, `reconcile`, `invalidate_for_model` and `pull` are made
  -- on a store whose rules stand once each under their own identifiers, in any order: at the end
  -- they still do.
  pub perform_all-HasIndex :
      (os : List (Operation F)) (s : RuleStore F) → HasIndex s → HasIndex (perform_all os s)
  unfolding perform_all
  perform_all-HasIndex [] s h = h
  perform_all-HasIndex (o ∷ os) s h = perform_all-HasIndex os (perform o s) (perform-HasIndex o s h)
