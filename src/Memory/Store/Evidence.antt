-- ===== src/Memory/Store/Evidence.antt =====
-- memory/store.py: the counts of a rule, over any sequence of the store's operations.
use smart_router.Prelude.{
  ◌≤◌, Bool, true, false, Option, none, some, List, [], ◌∷◌, String, ◌≡◌, refl, ◌==◌, Float, All,
  Bool-cases, Option-cases, subst, sym, some-injective, inl, inr, arith,
}
use smart_router.Prelude.Dict.{Dict, get, put, values, string_eq}
use smart_router.Schemas.Message.{Message}
use smart_router.Schemas.Rule.{RouterRule}
use smart_router.Memory.Lifecycle.{LabelBiasEstimate, score}
use smart_router.Memory.Store.{
  RuleStore, save, same_trigger, is_stale, find_same, merge, to_store, add, count_outcome,
  record_outcome, map_rules, demote_stale, stale_ids, save_if, invalidate_for_model, retire, pull,
  settle, changes, reconcile,
}

-- the calls that change the rules of a store
pub data Operation (F : Type 0) : Type 0 where
  adding : RouterRule F → Operation F
  outcome : String → Bool → Bool → Operation F
  reconciling : Option LabelBiasEstimate → Operation F
  invalidating : String → Operation F
  pulling : String → Message F → Operation F

module _ {F : Type 0} ⦃f : Float F⦄ where
  unfoldable pub perform : Operation F → RuleStore F → RuleStore F
  unfolding add record_outcome reconcile invalidate_for_model pull
  perform (adding r) s = (add r s).0
  perform (outcome id succeeded triggered) s = record_outcome id succeeded triggered s
  perform (reconciling b) s = (reconcile b s).0
  perform (invalidating live) s = (invalidate_for_model live s).0
  perform (pulling id reason) s = pull id reason s

  unfoldable pub perform_all : List (Operation F) → RuleStore F → RuleStore F
  unfolding perform
  perform_all [] s = s
  perform_all (o ∷ os) s = perform_all os (perform o s)

module _ {F : Type 0} where
  pub All-put :
      (P : RouterRule F → Type 0) (k : String) (r : RouterRule F) (d : Dict String (RouterRule F))
      → P r
      → All P (values d)
      → All P (values (put k r d))
  unfolding put values
  All-put P k r [] h a = (h, tt)
  All-put P k r ((j, x) ∷ d) h a = elim (Bool-cases (j == k)) [
    | inl same ↦ rw (same, put) (h, a.1)
    | inr other ↦ rw (other, put) (a.0, All-put P k r d h a.1)
  ]

  pub All-get :
      (P : RouterRule F → Type 0) (k : String) (r : RouterRule F) (d : Dict String (RouterRule F))
      → get k d ≡ some r
      → All P (values d)
      → P r
  unfolding get values
  All-get P k r [] e a = absurd (cc e)
  All-get P k r ((j, x) ∷ d) e a = elim (Bool-cases (j == k)) [
    | inl same ↦ let hit : some x ≡ some r = rw (same, get) at e in subst P (some-injective hit) a.0
    | inr other ↦ All-get P k r d (rw (other, get) at e) a.1
  ]

  pub All-map_rules :
      (P Q : RouterRule F → Type 0) (g : RouterRule F → RouterRule F)
      (d : Dict String (RouterRule F))
      → ((r : RouterRule F) → P r → Q (g r))
      → All P (values d)
      → All Q (values (map_rules g d))
  unfolding map_rules values
  All-map_rules P Q g [] k a = tt
  All-map_rules P Q g ((j, x) ∷ d) k a = (k x a.0, All-map_rules P Q g d k a.1)

  pub All-find_same :
      (P : RouterRule F → Type 0) (r old : RouterRule F) (rs : List (RouterRule F))
      → find_same r rs ≡ some old
      → All P rs
      → P old
  unfolding find_same
  All-find_same P r old [] e a = absurd (cc e)
  All-find_same P r old (x ∷ rs) e a = elim (Bool-cases (same_trigger x r)) [
    | inl same ↦
        let hit : some x ≡ some old = rw (same, find_same) at e in subst P (some-injective hit) a.0
    | inr other ↦ All-find_same P r old rs (rw (other, find_same) at e) a.1
  ]

  -- no more successes than applications
  abbrev pub IsHonest : RouterRule F → Type 0
  IsHonest r = r.success_count ≤ r.application_count

  merge-IsHonest : (old r : RouterRule F) → IsHonest old → IsHonest r → IsHonest (merge old r)
  unfolding merge
  merge-IsHonest old r a b = omega arith

  count_outcome-IsHonest :
      (succeeded triggered : Bool) (r : RouterRule F)
      → IsHonest r
      → IsHonest (count_outcome succeeded triggered r)
  unfolding count_outcome
  count_outcome-IsHonest succeeded false r h = h
  count_outcome-IsHonest true true r h = omega arith
  count_outcome-IsHonest false true r h = omega arith

  demote_stale-IsHonest :
      (live : String) (r : RouterRule F) → IsHonest r → IsHonest (demote_stale live r)
  unfolding demote_stale
  demote_stale-IsHonest live r h = elim (Bool-cases (is_stale live r)) [
    | inl stale ↦ rw stale h
    | inr fresh ↦ rw fresh h
  ]

  pub save-rules : (s : RuleStore F) → (save s).rules ≡ s.rules
  unfolding save
  save-rules s = elim (Bool-cases s.has_path) [ inl h ↦ rw h refl | inr h ↦ rw h refl ]

  pub save_if-rules {ℓ} :
      {A : Type ℓ} (xs : List A) (s : RuleStore F) → (save_if xs s).rules ≡ s.rules
  unfolding save_if
  save_if-rules [] s = refl
  save_if-rules (x ∷ xs) s = save-rules s

module _ {F : Type 0} where
  to_store-IsHonest :
      (r : RouterRule F) (rs : List (RouterRule F))
      → IsHonest r
      → All IsHonest rs
      → IsHonest (to_store r rs)
  unfolding to_store
  to_store-IsHonest r rs h a = elim (Option-cases (find_same r rs)) [
    | inl none_same ↦ rw (none_same, to_store) h
    | inr (old, e) ↦ rw (e, to_store) (merge-IsHonest old r (All-find_same IsHonest r old rs e a) h)
  ]

  abbrev pub AllHonest : RuleStore F → Type 0
  AllHonest s = All IsHonest (values s.rules)

  saved-AllHonest : (s : RuleStore F) → AllHonest s → AllHonest (save s)
  saved-AllHonest s h = subst (λ d. All IsHonest (values d)) (sym (save-rules s)) h

  saved_if-AllHonest {ℓ} :
      {A : Type ℓ} (xs : List A) (s : RuleStore F) → AllHonest s → AllHonest (save_if xs s)
  saved_if-AllHonest xs s h = subst (λ d. All IsHonest (values d)) (sym (save_if-rules xs s)) h

  pub add-AllHonest :
      (r : RouterRule F) (s : RuleStore F) → IsHonest r → AllHonest s → AllHonest (add r s).0
  unfolding add
  add-AllHonest r s h a =
      let r' = to_store r (values s.rules) in
      saved-AllHonest (record s { rules = put r'.rule_id r' s.rules })
        (All-put IsHonest r'.rule_id r' s.rules (to_store-IsHonest r (values s.rules) h a) a)

  pub pull-AllHonest :
      (id : String) (reason : Message F) (s : RuleStore F)
      → AllHonest s
      → AllHonest (pull id reason s)
  unfolding pull retire
  pull-AllHonest id reason s a = elim (Option-cases (get id s.rules)) [
    | inl missing ↦ rw (missing, pull) a
    | inr (r, e) ↦
        rw (e, pull)
          (saved-AllHonest (record s { rules = put id (retire reason r) s.rules })
            (All-put IsHonest id (retire reason r) s.rules (All-get IsHonest id r s.rules e a) a))
  ]

  pub invalidate-AllHonest :
      (live : String) (s : RuleStore F) → AllHonest s → AllHonest (invalidate_for_model live s).0
  unfolding invalidate_for_model
  invalidate-AllHonest live s a =
      saved_if-AllHonest (stale_ids live (values s.rules))
        (record s { rules = map_rules (demote_stale live) s.rules })
        (All-map_rules IsHonest IsHonest (demote_stale live) s.rules (demote_stale-IsHonest live) a)

module _ {F : Type 0} ⦃f : Float F⦄ where
  outcome-AllHonest :
      (id : String) (succeeded triggered : Bool) (s : RuleStore F)
      → AllHonest s
      → AllHonest (record_outcome id succeeded triggered s)
  unfolding record_outcome
  outcome-AllHonest id succeeded triggered s a = elim (Option-cases (get id s.rules)) [
    | inl missing ↦ rw (missing, record_outcome) a
    | inr (r, e) ↦
        let r' = count_outcome succeeded triggered r in
        let scored : RouterRule F = record r' { wilson_lower_bound = score s.policy r' none } in
        rw (e, record_outcome)
          (saved-AllHonest (record s { rules = put id scored s.rules })
            (All-put IsHonest id scored s.rules
              (count_outcome-IsHonest succeeded triggered r (All-get IsHonest id r s.rules e a)) a))
  ]

  reconcile-AllHonest :
      (b : Option LabelBiasEstimate) (s : RuleStore F) → AllHonest s → AllHonest (reconcile b s).0
  unfolding reconcile settle
  reconcile-AllHonest b s a =
      saved_if-AllHonest (changes s.policy b (values s.rules))
        (record s { rules = map_rules (settle s.policy b) s.rules })
        (All-map_rules IsHonest IsHonest (settle s.policy b) s.rules (λ r h. h) a)

  -- a rule that is added has a success for an application only
  abbrev pub AddsHonest : Operation F → Type 0
  AddsHonest (adding r) = IsHonest r
  AddsHonest _ = Unit

  perform-AllHonest :
      (o : Operation F) (s : RuleStore F) → AddsHonest o → AllHonest s → AllHonest (perform o s)
  unfolding perform
  perform-AllHonest (adding r) s h a = add-AllHonest r s h a
  perform-AllHonest (outcome id succeeded triggered) s h a =
      outcome-AllHonest id succeeded triggered s a
  perform-AllHonest (reconciling b) s h a = reconcile-AllHonest b s a
  perform-AllHonest (invalidating live) s h a = invalidate-AllHonest live s a
  perform-AllHonest (pulling id reason) s h a = pull-AllHonest id reason s a

  -- Whatever calls of `add`, `record_outcome`, `reconcile`, `invalidate_for_model` and `pull` are made
  -- on a store, in any order: if each rule at the start and each rule added has no more successes
  -- than applications, so has each rule at the end, merged duplicates included.
  pub perform_all-AllHonest :
      (os : List (Operation F)) (s : RuleStore F)
      → All AddsHonest os
      → AllHonest s
      → AllHonest (perform_all os s)
  unfolding perform_all
  perform_all-AllHonest [] s hs a = a
  perform_all-AllHonest (o ∷ os) s hs a =
      perform_all-AllHonest os (perform o s) hs.1 (perform-AllHonest o s hs.0 a)
