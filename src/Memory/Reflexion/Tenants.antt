-- ===== src/Memory/Reflexion/Tenants.antt =====
-- memory/reflexion.py, `refresh` and `retrieve`: a tenant is given no rule of another tenant.
use smart_router.Prelude.{
  Option, none, some, List, [], ◌∷◌, String, ◌≡◌, ◌∙◌, inl, inr, Float, All, All-weaken,
  Option-cases,
}
use smart_router.Prelude.Dict.{Dict, get, string_eq}
use smart_router.Prelude.Exec.{ok, Ensures, Ends-bind, Ends-map, NoClaim}
use smart_router.Schemas.Rule.{RouterRule, global_scope, trigger_text}
use smart_router.Memory.Store
use smart_router.Memory.Store.{RuleStore}
use smart_router.Memory.Retrieval.{Retrieved}
use smart_router.Memory.Vectors.{Ranking, VectorSnapshot, Embedder, build_snapshot}
use smart_router.Memory.Vectors.Subset.{Returns, Returns-then, OfItems, build_snapshot-Ensures}
use smart_router.Memory.Reflexion.{
  ReflexionConfig, RuleServer, Serving, tenants_of, version, for_tenant, retrieve_from_snapshot,
  retrieve_served, serve_tenant, serve_tenants, refresh,
}
use smart_router.Memory.Reflexion.Isolation.{
  IsFor, ServesOwn, retrieve_from_snapshot-Returns, global-IsFor, promoted-IsFor, put-ServesOwn,
  get-OfItems,
}

module _ {F : Type 0} (Q : String → RouterRule F → Type 0) where
  -- what is retrieved, if anything is, is for the tenant
  abbrev pub GivesOwn : String → Option (Retrieved F) → Type 0
  GivesOwn tenant none = Unit
  GivesOwn tenant (some found) = All (Q tenant) found.rules

  -- what is for every tenant is for each
  abbrev pub IsInherited : Type 0
  IsInherited = (tenant : String) (r : RouterRule F) → Q global_scope r → Q tenant r

  for_tenant-OfItems :
      (tenant : String) (server : RuleServer F) (d : Dict String (RuleServer F))
      → IsInherited
      → for_tenant tenant d ≡ some server
      → ServesOwn Q d
      → OfItems (Q tenant) server.snapshot
  unfolding for_tenant
  for_tenant-OfItems tenant server d inherited e h = elim (Option-cases (get tenant d)) [
    | inl missing ↦
        All-weaken (λ (x : List F × RouterRule F). Q global_scope x.1)
          (λ (x : List F × RouterRule F). Q tenant x.1) server.snapshot.entries
          (λ x k. inherited tenant x.1 k)
          (get-OfItems Q global_scope server d (rw (missing, for_tenant) at e) h)
    | inr (own, found) ↦ get-OfItems Q tenant server d (found ∙ (rw (found, for_tenant) at e)) h
  ]

module _ {F : Type 0} ⦃f : Float F⦄ (Q : String → RouterRule F → Type 0) (n : Ranking F)
    (c : ReflexionConfig F) where
  retrieve_served-Returns :
      (query : List F) (tenant : String) (s : Serving F)
      → IsInherited Q
      → ServesOwn Q s.retrievers
      → Returns (GivesOwn Q tenant) (retrieve_served n c query tenant s)
  unfolding retrieve_served
  retrieve_served-Returns query tenant s inherited h =
      elim (Option-cases (for_tenant tenant s.retrievers)) [
        | inl missing ↦ rw (missing, retrieve_served) tt
        | inr (server, found) ↦
            rw (found, retrieve_served)
              (Returns-then (λ (x : Retrieved F). All (Q tenant) x.rules) (GivesOwn Q tenant)
                (retrieve_from_snapshot n c query server) (λ x. ok (some x))
                (retrieve_from_snapshot-Returns (Q tenant) n c query server
                  (for_tenant-OfItems Q tenant server s.retrievers inherited found h))
                (λ x p. p))
      ]

  -- what is retrieved from what is served is for the tenant, by any query
  abbrev pub Isolates : Serving F → Type 0
  Isolates s =
      (query : List F) (tenant : String)
      → Returns (GivesOwn Q tenant) (retrieve_served n c query tenant s)

module _ {W F : Type 0} (Q : String → RouterRule F → Type 0) (c : ReflexionConfig F)
    (e : Embedder W F) (store : RuleStore F) where
  -- what the store gives out for a tenant is for it
  abbrev pub GivesOut : Type 0
  GivesOut = (tenant : String) → All (Q tenant) (Store.promoted (some tenant) store)

  serve_tenant-Ensures :
      (tenant : String) (s : Serving F) (w : W)
      → GivesOut
      → ServesOwn Q s.retrievers
      → Ensures
          (λ (s' : Serving F) _. ServesOwn Q s'.retrievers)
          (serve_tenant c e store tenant s w)
  unfolding serve_tenant
  serve_tenant-Ensures tenant s w out h =
      let rules = Store.promoted (some tenant) store in
      Ends-bind (λ (x : VectorSnapshot F (RouterRule F)) _. OfItems (Q tenant) x)
        (λ (s' : Serving F) _. ServesOwn Q s'.retrievers) NoClaim
        (build_snapshot (version c "rules" tenant rules) e rules trigger_text) _ w
        (build_snapshot-Ensures (Q tenant) (version c "rules" tenant rules) e rules trigger_text w
          (out tenant))
        (λ x w' p.
          put-ServesOwn Q tenant (record { snapshot = x; embedder_name = e.name }) s.retrievers p h)

  serve_tenants-Ensures :
      (ts : List String) (s : Serving F) (w : W)
      → GivesOut
      → ServesOwn Q s.retrievers
      → Ensures (λ (s' : Serving F) _. ServesOwn Q s'.retrievers) (serve_tenants c e store ts s w)
  unfolding serve_tenants
  serve_tenants-Ensures [] s w out h = h
  serve_tenants-Ensures (t ∷ ts) s w out h =
      Ends-bind (λ (s' : Serving F) _. ServesOwn Q s'.retrievers)
        (λ (s' : Serving F) _. ServesOwn Q s'.retrievers) NoClaim (serve_tenant c e store t s)
        (λ next. serve_tenants c e store ts next) w (serve_tenant-Ensures t s w out h)
        (λ next w' h'. serve_tenants-Ensures ts next w' out h')

module _ {W F : Type 0} ⦃f : Float F⦄ where
  -- a refresh serves what the store gives out
  pub refresh-Isolates :
      (Q : String → RouterRule F → Type 0) (n : Ranking F) (c : ReflexionConfig F)
      (e : Embedder W F) (store : RuleStore F) (w : W)
      → IsInherited Q
      → GivesOut Q c e store
      → Ensures (λ (s : Serving F) _. Isolates Q n c s) (refresh c e store w)
  unfolding refresh
  refresh-Isolates Q n c e store w inherited out =
      let tenants = tenants_of (Store.promoted none store) in
      let empty : Serving F = record { retrievers = []; versions = [] } in
      Ends-map (λ (s : Serving F) _. ServesOwn Q s.retrievers)
        (λ (s : Serving F) _. Isolates Q n c s) NoClaim (serve_tenants c e store tenants empty w)
        (serve_tenants-Ensures Q c e store tenants empty w out tt)
        (λ s w' h query tenant. retrieve_served-Returns Q n c query tenant s inherited h)

  -- After a refresh that returns, whatever the embedder gives: each rule that is retrieved for a
  -- tenant, by any query, is promoted, and is the tenant's own or one for every tenant.
  pub refresh-GivesOwn :
      (n : Ranking F) (c : ReflexionConfig F) (e : Embedder W F) (store : RuleStore F) (w : W)
      → Ensures (λ (s : Serving F) _. Isolates IsFor n c s) (refresh c e store w)
  refresh-GivesOwn n c e store w =
      refresh-Isolates IsFor n c e store w global-IsFor (λ tenant. promoted-IsFor tenant store)
