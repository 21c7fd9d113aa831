-- ===== src/Memory/Exemplars/Owned.antt =====
-- memory/reflexion.py, `refresh` and `retrieve` in the mode `exemplars`: a tenant is given no correction
-- of another tenant, and the budget is kept.
use smart_router.Prelude.{
  Option, none, some, List, [], ◌∷◌, ◌++◌, String, ◌==◌, ◌≡◌, refl, ◌∙◌, ◌⊎◌, inl, inr, Float, All,
  All-append, All-weaken, Bool-cases, Option-cases, some-injective, subst, eq_iff,
}
use smart_router.Prelude.Dict.{Dict, get, put, string_eq}
use smart_router.Prelude.Exec.{ok, Ensures, Ends-bind, Ends-map, NoClaim}
use smart_router.Schemas.Rule.{global_scope}
use smart_router.Memory.Recent.{Exemplar}
use smart_router.Memory.Vectors.{Ranking, VectorSnapshot, Embedder}
use smart_router.Memory.Vectors.Subset.{Returns, Returns-then, OfItems, build_snapshot-Ensures}
use smart_router.Memory.Reflexion.{ReflexionConfig, for_tenant}
use smart_router.Memory.Exemplars.Offer.{IsOffer, OfSnapshot, retrieve_near-Returns}
use smart_router.Memory.Exemplars.{
  ExemplarRetriever, RetrievedExemplars, retrieve_exemplars, retrieve_exemplars_for, group_exemplar,
  group_by_tenant, ExemplarServing, serve_exemplars, serve_groups, refresh_exemplars,
}

module _ {V : Type 0} (P : String → V → Type 0) where
  -- `P` of every key with its value
  abbrev Each : Dict String V → Type 0
  Each = All (λ (e : String × V). P e.0 e.1)

  put-Each : (k : String) (v : V) (d : Dict String V) → P k v → Each d → Each (put k v d)
  unfolding put
  put-Each k v [] p h = (p, tt)
  put-Each k v ((j, w) ∷ d) p h = elim (Bool-cases (j == k)) [
    | inl same ↦ rw (same, put) (p, h.1)
    | inr other ↦ rw (other, put) (h.0, put-Each k v d p h.1)
  ]

  get-Each : (k : String) (v : V) (d : Dict String V) → get k d ≡ some v → Each d → P k v
  unfolding get
  get-Each k v [] e h = absurd (cc e)
  get-Each k v ((j, w) ∷ d) e h = elim (Bool-cases (j == k)) [
    | inl same ↦
        let hit : w ≡ v = some-injective (rw (same, get) at e) in
        subst (P k) hit (subst (λ u. P u w) ((eq_iff j k).0 same) h.0)
    | inr other ↦ get-Each k v d (rw (other, get) at e) h.1
  ]

abbrev IsOf : String → Exemplar → Type 0
IsOf tenant x = x.tenant_id ≡ tenant

-- an exemplar of the tenant, or one for every tenant
abbrev pub MayShow : String → Exemplar → Type 0
MayShow tenant x = (x.tenant_id ≡ tenant) ⊎ (x.tenant_id ≡ global_scope)

abbrev AllOf : String → List Exemplar → Type 0
AllOf tenant = All (IsOf tenant)

group_exemplar-Each :
    (x : Exemplar) (d : Dict String (List Exemplar))
    → Each AllOf d
    → Each AllOf (group_exemplar x d)
unfolding group_exemplar
group_exemplar-Each x d h = elim (Option-cases (get x.tenant_id d)) [
  | inl first ↦ rw (first, group_exemplar) (put-Each AllOf x.tenant_id (x ∷ []) d (refl, tt) h)
  | inr (xs, more) ↦
      rw (more, group_exemplar)
        (put-Each AllOf x.tenant_id (xs ++ (x ∷ [])) d
          (All-append (IsOf x.tenant_id) xs (x ∷ []) (get-Each AllOf x.tenant_id xs d more h)
            (refl, tt))
          h)
]

group_by_tenant-Each :
    (xs : List Exemplar) (d : Dict String (List Exemplar))
    → Each AllOf d
    → Each AllOf (group_by_tenant xs d)
unfolding group_by_tenant
group_by_tenant-Each [] d h = h
group_by_tenant-Each (x ∷ xs) d h =
    group_by_tenant-Each xs (group_exemplar x d) (group_exemplar-Each x d h)

module _ {F : Type 0} (c : ReflexionConfig F) where
  -- a retriever of the tenant's exemplars with the configured budget
  record IsServer (tenant : String) (r : ExemplarRetriever F) : Type 0 where
    items : OfSnapshot (IsOf tenant) r.snapshot
    budget : r.max_tokens ≡ c.max_tokens

  abbrev IsServed : ExemplarServing F → Type 0
  IsServed s = Each IsServer s.retrievers

  -- what is retrieved, if anything is, may be shown to the tenant and is within the budget
  abbrev pub IsShown : String → Option RetrievedExemplars → Type 0
  IsShown tenant none = Unit
  IsShown tenant (some found) = IsOffer (MayShow tenant) c.max_tokens found

module _ {F : Type 0} ⦃f : Float F⦄ (c : ReflexionConfig F) (n : Ranking F) where
  shown_by :
      (query : List F) (tenant key : String) (r : ExemplarRetriever F)
      → ((x : Exemplar) → IsOf key x → MayShow tenant x)
      → IsServer c key r
      → Returns (IsOffer (MayShow tenant) c.max_tokens) (retrieve_exemplars n r query)
  shown_by query tenant key r may h =
      subst (λ b. Returns (IsOffer (MayShow tenant) b) (retrieve_exemplars n r query)) h.budget
        (retrieve_near-Returns (MayShow tenant) r n query r.snapshot (weaker r.snapshot h.items))
    where
      weaker :
          (o : Option (VectorSnapshot F Exemplar))
          → OfSnapshot (IsOf key) o
          → OfSnapshot (MayShow tenant) o
      weaker none k = tt
      weaker (some s) k =
          All-weaken (λ (e : List F × Exemplar). IsOf key e.1)
            (λ (e : List F × Exemplar). MayShow tenant e.1) s.entries (λ e p. may e.1 p) k

  served_by :
      (query : List F) (tenant : String) (r : ExemplarRetriever F)
      (d : Dict String (ExemplarRetriever F))
      → for_tenant tenant d ≡ some r
      → Each (IsServer c) d
      → Returns (IsOffer (MayShow tenant) c.max_tokens) (retrieve_exemplars n r query)
  unfolding for_tenant
  served_by query tenant r d e h = elim (Option-cases (get tenant d)) [
    | inl missing ↦
        shown_by query tenant global_scope r (λ x p. inr p)
          (get-Each (IsServer c) global_scope r d (rw (missing, for_tenant) at e) h)
    | inr (own, found) ↦
        shown_by query tenant tenant r (λ x p. inl p)
          (get-Each (IsServer c) tenant r d (found ∙ (rw (found, for_tenant) at e)) h)
  ]

  -- by any query, for any tenant
  abbrev pub ShowsOwn : ExemplarServing F → Type 0
  ShowsOwn s =
      (query : List F) (tenant : String)
      → Returns (IsShown c tenant) (retrieve_exemplars_for n query tenant s.retrievers)

  IsServed-ShowsOwn : (s : ExemplarServing F) → IsServed c s → ShowsOwn s
  unfolding retrieve_exemplars_for
  IsServed-ShowsOwn s h query tenant = elim (Option-cases (for_tenant tenant s.retrievers)) [
    | inl missing ↦ rw (missing, retrieve_exemplars_for) tt
    | inr (r, found) ↦
        rw (found, retrieve_exemplars_for)
          (Returns-then (IsOffer (MayShow tenant) c.max_tokens) (IsShown c tenant)
            (retrieve_exemplars n r query) (λ x. ok (some x))
            (served_by query tenant r s.retrievers found h) (λ x p. p))
  ]

module _ {W F : Type 0} (c : ReflexionConfig F) (e : Embedder W F) where
  serve_exemplars-Ensures :
      (tenant : String) (items : List Exemplar) (s : ExemplarServing F) (w : W)
      → AllOf tenant items
      → IsServed c s
      → Ensures (λ (s' : ExemplarServing F) _. IsServed c s') (serve_exemplars c e tenant items s w)
  unfolding serve_exemplars
  serve_exemplars-Ensures tenant items s w own h =
      Ends-bind (λ (x : VectorSnapshot F Exemplar) _. OfItems (IsOf tenant) x)
        (λ (s' : ExemplarServing F) _. IsServed c s') NoClaim _ _ w
        (build_snapshot-Ensures (IsOf tenant) _ e items (λ (x : Exemplar). x.query) w own)
        (λ x w' p.
          put-Each (IsServer c) tenant
            (record {
              snapshot = some x;
              embedder_name = e.name;
              k = c.k;
              max_tokens = c.max_tokens;
              min_similarity = c.min_similarity;
            })
            s.retrievers (record { items = p; budget = refl }) h)

  serve_groups-Ensures :
      (groups : Dict String (List Exemplar)) (s : ExemplarServing F) (w : W)
      → Each AllOf groups
      → IsServed c s
      → Ensures (λ (s' : ExemplarServing F) _. IsServed c s') (serve_groups c e groups s w)
  unfolding serve_groups
  serve_groups-Ensures [] s w own h = h
  serve_groups-Ensures ((tenant, items) ∷ groups) s w own h =
      Ends-bind (λ (s' : ExemplarServing F) _. IsServed c s')
        (λ (s' : ExemplarServing F) _. IsServed c s') NoClaim (serve_exemplars c e tenant items s)
        (λ next. serve_groups c e groups next) w (serve_exemplars-Ensures tenant items s w own.0 h)
        (λ next w' h'. serve_groups-Ensures groups next w' own.1 h')

module _ {W F : Type 0} ⦃f : Float F⦄ where
  -- After a refresh of exemplars that returns, whatever the embedder gives: what is retrieved for a
  -- tenant, by any query, is of exemplars that are the tenant's own or of the scope of all tenants, and
  -- its token count is the sum of their costs and within the configured budget.
  pub refresh_exemplars-ShowsOwn :
      (n : Ranking F) (c : ReflexionConfig F) (e : Embedder W F) (items : List Exemplar) (w : W)
      → Ensures (λ (s : ExemplarServing F) _. ShowsOwn c n s) (refresh_exemplars c e items w)
  unfolding refresh_exemplars
  refresh_exemplars-ShowsOwn n c e items w =
      let groups = group_by_tenant items [] in
      let empty : ExemplarServing F = record { retrievers = []; versions = [] } in
      Ends-map (λ (s : ExemplarServing F) _. IsServed c s)
        (λ (s : ExemplarServing F) _. ShowsOwn c n s) NoClaim (serve_groups c e groups empty w)
        (serve_groups-Ensures c e groups empty w (group_by_tenant-Each items [] tt) tt)
        (λ s w' h. IsServed-ShowsOwn c n s h)
