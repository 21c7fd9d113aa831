-- ===== src/Memory/Store/Index.antt =====
-- memory/store.py: the rules of a store are under their own identifiers.
use smart_router.Prelude.{
  Bool, true, false, none, some, [], ◌∷◌, String, ◌≡◌, refl, sym, ap, ◌∙◌, subst, ◌==◌, eq_iff,
  Bool-cases, some-injective, inl, inr, arith,
}
use smart_router.Prelude.Dict.{Dict, get, put, IsMap, put-IsMap, string_eq}
use smart_router.Schemas.Rule.{RouterRule}
use smart_router.Memory.Store.{map_rules, demote_stale, is_stale, count_outcome}

module _ {F : Type 0} where
  -- each rule is under its own identifier
  unfoldable pub Keyed : Dict String (RouterRule F) → Type 0
  Keyed [] = Unit
  Keyed ((k, r) ∷ d) = (r.rule_id ≡ k) × Keyed d

  pub record IsIndex (d : Dict String (RouterRule F)) : Type 0 where
    pub unique : IsMap d
    pub keyed : Keyed d

  put-Keyed :
      (r : RouterRule F) (d : Dict String (RouterRule F)) → Keyed d → Keyed (put r.rule_id r d)
  unfolding put Keyed
  put-Keyed r [] h = (refl, tt)
  put-Keyed r ((j, x) ∷ d) h = elim (Bool-cases (j == r.rule_id)) [
    | inl same ↦ rw (same, put) (refl, h.1)
    | inr other ↦ rw (other, put) (h.0, put-Keyed r d h.1)
  ]

  pub put-IsIndex :
      (k : String) (r : RouterRule F) (d : Dict String (RouterRule F))
      → r.rule_id ≡ k
      → IsIndex d
      → IsIndex (put k r d)
  put-IsIndex k r d e h = record {
    unique = put-IsMap k r d h.unique;
    keyed = subst (λ i. Keyed (put i r d)) e (put-Keyed r d h.keyed);
  }

  pub get-Keyed :
      (k : String) (r : RouterRule F) (d : Dict String (RouterRule F))
      → Keyed d
      → get k d ≡ some r
      → r.rule_id ≡ k
  unfolding get Keyed
  get-Keyed k r [] h e = absurd (cc e)
  get-Keyed k r ((j, x) ∷ d) h e = elim (Bool-cases (j == k)) [
    | inl same ↦
        let hit : some x ≡ some r = rw (same, get) at e in
        sym (ap (λ (y : RouterRule F). y.rule_id) (some-injective hit)) ∙ h.0 ∙ (eq_iff j k).0 same
    | inr other ↦ get-Keyed k r d h.1 (rw (other, get) at e)
  ]

  map_rules-Keyed :
      (g : RouterRule F → RouterRule F) (d : Dict String (RouterRule F))
      → ((r : RouterRule F) → (g r).rule_id ≡ r.rule_id)
      → Keyed d
      → Keyed (map_rules g d)
  unfolding map_rules Keyed
  map_rules-Keyed g [] k h = tt
  map_rules-Keyed g ((j, r) ∷ d) k h = (k r ∙ h.0, map_rules-Keyed g d k h.1)

  map_rules-absent :
      (g : RouterRule F → RouterRule F) (k : String) (d : Dict String (RouterRule F))
      → get k d ≡ none
      → get k (map_rules g d) ≡ none
  unfolding map_rules get
  map_rules-absent g k [] h = refl
  map_rules-absent g k ((j, r) ∷ d) h = ground (arith, map_rules-absent g k d)

  map_rules-IsMap :
      (g : RouterRule F → RouterRule F) (d : Dict String (RouterRule F))
      → IsMap d
      → IsMap (map_rules g d)
  unfolding map_rules IsMap
  map_rules-IsMap g [] h = tt
  map_rules-IsMap g ((j, r) ∷ d) h = (map_rules-absent g j d h.0, map_rules-IsMap g d h.1)

  pub map_rules-IsIndex :
      (g : RouterRule F → RouterRule F) (d : Dict String (RouterRule F))
      → ((r : RouterRule F) → (g r).rule_id ≡ r.rule_id)
      → IsIndex d
      → IsIndex (map_rules g d)
  map_rules-IsIndex g d k h = record {
    unique = map_rules-IsMap g d h.unique;
    keyed = map_rules-Keyed g d k h.keyed;
  }

  pub demote_stale-id :
      (live : String) (r : RouterRule F) → (demote_stale live r).rule_id ≡ r.rule_id
  unfolding demote_stale
  demote_stale-id live r = elim (Bool-cases (is_stale live r)) [
    | inl h ↦ rw h refl
    | inr h ↦ rw h refl
  ]

  pub count_outcome-id :
      (succeeded triggered : Bool) (r : RouterRule F)
      → (count_outcome succeeded triggered r).rule_id ≡ r.rule_id
  unfolding count_outcome
  count_outcome-id succeeded true r = refl
  count_outcome-id succeeded false r = refl
