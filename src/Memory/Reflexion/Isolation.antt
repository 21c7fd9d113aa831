-- ===== src/Memory/Reflexion/Isolation.antt =====
-- memory/reflexion.py: which rules are in a tenant's snapshot, and what is retrieved from it.
use smart_router.Prelude.{
  true, ◌&&◌, some, List, [], ◌∷◌, map, String, ◌≡◌, ◌⊎◌, inl, inr, ◌==◌, eq_iff, Float, All,
  All-append, Bool-cases, filter_by, some-injective, subst, ltb, arith, ◌+◌,
}
use smart_router.Prelude.Dict.{Dict, get, put, string_eq, values}
use smart_router.Prelude.Exec.{ok}
use smart_router.Schemas.Rule.{RouterRule, is_servable, global_scope}
use smart_router.Memory.Store
use smart_router.Memory.Store.{RuleStore, in_scope}
use smart_router.Memory.Store.Service.{scope_cases}
use smart_router.Memory.Retrieval.{
  Scored, Retrieved, RuleRetriever, token_cost_of, insert_scored, by_bound, consider, consider_all,
  nothing, retrieve_from,
}
use smart_router.Memory.Vectors.{Ranking, Candidate, and_then, search_mmr}
use smart_router.Memory.Vectors.Subset.{
  Returns, Returns-then, Returns-if, OfItems, search_mmr-Returns,
}
use smart_router.Memory.Reflexion.{
  ReflexionConfig, RuleServer, has_none, as_scored, as_retriever, inject, retrieve_from_snapshot,
}

module _ {F : Type 0} ⦃f : Float F⦄ (P : RouterRule F → Type 0) where
  abbrev AllScored : List (Scored F) → Type 0
  AllScored = All (λ (s : Scored F). P s.item)

  insert_scored-AllScored :
      (x : Scored F) (ys : List (Scored F))
      → P x.item
      → AllScored ys
      → AllScored (insert_scored x ys)
  unfolding insert_scored
  insert_scored-AllScored x [] p h = (p, tt)
  insert_scored-AllScored x (y ∷ ys) p h =
      elim (Bool-cases (f.lt_f x.item.wilson_lower_bound y.item.wilson_lower_bound)) [
        | inl lower ↦ rw (lower, insert_scored) (h.0, insert_scored-AllScored x ys p h.1)
        | inr upper ↦ rw (upper, insert_scored) (p, h)
      ]

  by_bound-AllScored : (xs : List (Scored F)) → AllScored xs → AllScored (by_bound xs)
  unfolding by_bound
  by_bound-AllScored [] h = tt
  by_bound-AllScored (x ∷ xs) h =
      insert_scored-AllScored x (by_bound xs) h.0 (by_bound-AllScored xs h.1)

  consider-All :
      (r : RuleRetriever F) (s : Scored F) (found : Retrieved F)
      → P s.item
      → All P found.rules
      → All P (consider r s found).rules
  unfolding consider
  consider-All r s found p h = elim (Bool-cases (f.lt_f s.score r.min_similarity)) [
    | inl low ↦ rw (low, consider) h
    | inr high ↦ elim (Bool-cases (ltb r.max_tokens (found.token_count + token_cost_of s.item))) [
      | inl over ↦ rw (high, over, consider) h
      | inr fits ↦ rw (high, fits, consider) (All-append P found.rules (s.item ∷ []) h (p, tt))
    ]
  ]

  consider_all-All :
      (r : RuleRetriever F) (ss : List (Scored F)) (found : Retrieved F)
      → AllScored ss
      → All P found.rules
      → All P (consider_all r ss found).rules
  unfolding consider_all
  consider_all-All r [] found h k = k
  consider_all-All r (s ∷ ss) found h k =
      consider_all-All r ss (consider r s found) h.1 (consider-All r s found h.0 k)

  as_scored-All :
      (cs : List (Candidate F (RouterRule F)))
      → All (λ (c : Candidate F (RouterRule F)). P c.item) cs
      → AllScored (map as_scored cs)
  as_scored-All [] h = tt
  as_scored-All (c ∷ cs) h = (h.0, as_scored-All cs h.1)

  pub retrieve_from_snapshot-Returns :
      (n : Ranking F) (c : ReflexionConfig F) (query : List F) (server : RuleServer F)
      → OfItems P server.snapshot
      → Returns
          (λ (found : Retrieved F). All P found.rules)
          (retrieve_from_snapshot n c query server)
  unfolding retrieve_from_snapshot inject retrieve_from
  retrieve_from_snapshot-Returns n c query server h =
      let found =
        search_mmr n c.mmr_lambda c.candidate_pool query c.k server.embedder_name server.snapshot in
      Returns-if (λ (x : Retrieved F). All P x.rules) (has_none server.snapshot.entries)
        (ok nothing) (and_then found (λ cs. ok (inject n c query cs))) tt
        (Returns-then (All (λ (x : Candidate F (RouterRule F)). P x.item))
          (λ (x : Retrieved F). All P x.rules) found (λ cs. ok (inject n c query cs))
          (search_mmr-Returns P n c.mmr_lambda c.candidate_pool query c.k server.embedder_name
            server.snapshot h)
          (λ cs p.
            consider_all-All (as_retriever c (map as_scored cs)) (by_bound (map as_scored cs))
              nothing (by_bound-AllScored (map as_scored cs) (as_scored-All cs p)) tt))

module _ {F : Type 0} where
  -- a rule that may be served to a tenant: promoted, and its own or one for every tenant
  pub record IsFor (tenant : String) (r : RouterRule F) : Type 0 where
    pub state : is_servable r ≡ true
    pub scope : (r.tenant_id ≡ tenant) ⊎ (r.tenant_id ≡ global_scope)

  pub global-IsFor : (tenant : String) (r : RouterRule F) → IsFor global_scope r → IsFor tenant r
  global-IsFor tenant r h = record {
    state = h.state;
    scope = elim h.scope [ inl e ↦ inr e | inr e ↦ inr e ];
  }

  filter-IsFor :
      (tenant : String) (rs : List (RouterRule F))
      → All (IsFor tenant) (filter_by (λ r. is_servable r && in_scope (some tenant) r.tenant_id) rs)
  filter-IsFor tenant [] = tt
  filter-IsFor tenant (r ∷ rs) =
      elim (Bool-cases (is_servable r && in_scope (some tenant) r.tenant_id)) [
        | inl kept ↦ rw kept (
          record {
            state = ground (arith, kept);
            scope = scope_cases tenant r.tenant_id (ground (arith, kept));
          },
          filter-IsFor tenant rs,
        )
        | inr dropped ↦ rw dropped (filter-IsFor tenant rs)
      ]

  pub promoted-IsFor :
      (tenant : String) (s : RuleStore F) → All (IsFor tenant) (Store.promoted (some tenant) s)
  unfolding Store.promoted
  promoted-IsFor tenant s = filter-IsFor tenant (values s.rules)

module _ {F : Type 0} (Q : String → RouterRule F → Type 0) where
  -- each tenant's snapshot has only rules that are for it, by `Q`
  abbrev pub ServesOwn : Dict String (RuleServer F) → Type 0
  ServesOwn d = All (λ (e : String × RuleServer F). OfItems (Q e.0) e.1.snapshot) d

  pub put-ServesOwn :
      (tenant : String) (server : RuleServer F) (d : Dict String (RuleServer F))
      → OfItems (Q tenant) server.snapshot
      → ServesOwn d
      → ServesOwn (put tenant server d)
  unfolding put
  put-ServesOwn tenant server [] p h = (p, tt)
  put-ServesOwn tenant server ((t, x) ∷ d) p h = elim (Bool-cases (t == tenant)) [
    | inl same ↦ rw (same, put) (p, h.1)
    | inr other ↦ rw (other, put) (h.0, put-ServesOwn tenant server d p h.1)
  ]

  pub get-OfItems :
      (tenant : String) (server : RuleServer F) (d : Dict String (RuleServer F))
      → get tenant d ≡ some server
      → ServesOwn d
      → OfItems (Q tenant) server.snapshot
  unfolding get
  get-OfItems tenant server [] e h = absurd (cc e)
  get-OfItems tenant server ((t, x) ∷ d) e h = elim (Bool-cases (t == tenant)) [
    | inl same ↦
        let hit : x ≡ server = some-injective (rw (same, get) at e) in
        let key : t ≡ tenant = (eq_iff t tenant).0 same in
        subst (λ y. OfItems (Q tenant) y.snapshot) hit
          (subst (λ u. OfItems (Q u) x.snapshot) key h.0)
    | inr other ↦ get-OfItems tenant server d (rw (other, get) at e) h.1
  ]
