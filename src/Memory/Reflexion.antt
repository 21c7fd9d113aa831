-- ===== src/Memory/Reflexion.antt =====
-- memory/reflexion.py, `Reflexion` in the mode `rules`: the snapshots for each tenant, and what is
-- retrieved from them.
pub mod Isolation
pub mod Tenants
pub mod Learn
pub mod Counterfactual
use smart_router.Prelude.{
  ℕ, zero, suc, Bool, true, false, not, Option, none, some, List, [], ◌∷◌, ◌++◌, map, String, ◌==◌,
  Float, any, ltb, nat_eq, if◌then◌else◌,
}
use smart_router.Prelude.Dict.{Dict, get, put, string_eq}
use smart_router.Prelude.Exec.{Exec, Result, ok, raised, pure, ◌>>=◌}
use smart_router.Schemas.Message.{Text}
use smart_router.Schemas.Rule.{RouterRule, global_scope, render, trigger_text}
use smart_router.Memory.Store
use smart_router.Memory.Store.{RuleStore}
use smart_router.Memory.Retrieval.{Scored, Retrieved, RuleRetriever, nothing, retrieve_from}
use smart_router.Memory.Vectors.{
  Ranking, VectorSnapshot, Candidate, Embedder, and_then, search_mmr, build_snapshot,
}

-- the limits of a retriever, with the defaults of its weight and of the pool of the search;
-- `version_of` is the format of a version, with the digest of the lines
pub record ReflexionConfig (F : Type 0) : Type 0 where
  pub k : ℕ
  pub max_tokens : ℕ
  pub min_similarity : F
  pub mmr_lambda : F
  pub candidate_pool : ℕ
  pub version_of : String → String → List Text → String

-- a `RuleRetriever` over its snapshot
pub record RuleServer (F : Type 0) : Type 0 where
  pub snapshot : VectorSnapshot F (RouterRule F)
  pub embedder_name : String

-- `_retrievers` and `_versions`
pub record Serving (F : Type 0) : Type 0 where
  pub retrievers : Dict String (RuleServer F)
  pub versions : Dict String String

-- `a < b` on texts
abbrev text_lt : Text → Text → Bool
text_lt s [] = false
text_lt [] (b ∷ t) = true
text_lt (a ∷ s) (b ∷ t) =
    let rest = text_lt s t in if ltb a b then true else if nat_eq a b then rest else false

-- `sorted`
unfoldable pub insert_text : Text → List Text → List Text
insert_text s [] = s ∷ []
insert_text s (t ∷ ts) = let rest = insert_text s ts in if text_lt t s then t ∷ rest else s ∷ t ∷ ts

unfoldable pub sort_texts : List Text → List Text
unfolding insert_text
sort_texts [] = []
sort_texts (t ∷ ts) = insert_text t (sort_texts ts)

-- a set of tenants
abbrev add_tenant : String → List String → List String
add_tenant t ts = if any (λ x. x == t) ts then ts else t ∷ ts

-- `d.get(tenant) or d.get(GLOBAL_SCOPE)`, for values that are true
unfoldable pub for_tenant : {V : Type 0} → String → Dict String V → Option V
for_tenant tenant d = elim (get tenant d) [ none ↦ get global_scope d | some v ↦ some v ]

-- `len(snapshot) == 0`
abbrev has_none : {A : Type 0} → List A → Bool
has_none [] = true
has_none (a ∷ items) = false

module _ {F : Type 0} where
  -- `{GLOBAL_SCOPE} | {r.tenant_id for r in rules}`
  unfoldable pub tenants_of : List (RouterRule F) → List String
  tenants_of [] = global_scope ∷ []
  tenants_of (r ∷ rs) = add_tenant r.tenant_id (tenants_of rs)

  -- `_version`
  unfoldable pub version : ReflexionConfig F → String → String → List (RouterRule F) → String
  unfolding sort_texts render
  version c mode tenant rules = c.version_of mode tenant (sort_texts (map render rules))

  -- an empty text is not true
  unfoldable pub snapshot_version_for : String → Serving F → Option String
  snapshot_version_for tenant s = elim (get tenant s.versions) [
    | none ↦ get global_scope s.versions
    | some v ↦ if v == "" then get global_scope s.versions else some v
  ]

  abbrev as_scored : Candidate F (RouterRule F) → Scored F
  as_scored c = record { item = c.item; score = c.similarity }

  -- the retriever whose search has given these
  abbrev as_retriever : ReflexionConfig F → List (Scored F) → RuleRetriever F
  as_retriever c found = record {
    search = some (λ _ _. found);
    k = c.k;
    max_tokens = c.max_tokens;
    min_similarity = c.min_similarity;
  }

module _ {F : Type 0} ⦃f : Float F⦄ (n : Ranking F) (c : ReflexionConfig F) where
  -- what the retriever does with what the search has given
  unfoldable pub inject : List F → List (Candidate F (RouterRule F)) → Retrieved F
  unfolding retrieve_from
  inject query found =
      let r = as_retriever c (map as_scored found) in retrieve_from r query r.search

  -- `RuleRetriever.retrieve`
  unfoldable pub retrieve_from_snapshot : List F → RuleServer F → Result (Retrieved F)
  unfolding search_mmr inject
  retrieve_from_snapshot query server =
      let found =
        search_mmr n c.mmr_lambda c.candidate_pool query c.k server.embedder_name server.snapshot in
      if has_none server.snapshot.entries
      then ok nothing
      else and_then found (λ cs. ok (inject query cs))

  -- `Reflexion.retrieve`
  unfoldable pub retrieve_served : List F → String → Serving F → Result (Option (Retrieved F))
  unfolding for_tenant retrieve_from_snapshot
  retrieve_served query tenant s = elim (for_tenant tenant s.retrievers) [
    | none ↦ ok none
    | some server ↦ and_then (retrieve_from_snapshot query server) (λ found. ok (some found))
  ]

module _ {W F : Type 0} where
  -- the snapshot of one tenant
  unfoldable pub serve_tenant :
      ReflexionConfig F → Embedder W F → RuleStore F → String → Serving F → Exec W (Serving F)
  unfolding version build_snapshot
  serve_tenant c e store tenant s = do
    let rules = Store.promoted (some tenant) store
    snapshot ← build_snapshot (version c "rules" tenant rules) e rules trigger_text
    pure (record {
      retrievers = put tenant (record { snapshot = snapshot; embedder_name = e.name }) s.retrievers;
      versions = put tenant snapshot.version s.versions;
    })

  unfoldable pub serve_tenants :
      ReflexionConfig F → Embedder W F → RuleStore F → List String → Serving F → Exec W (Serving F)
  unfolding serve_tenant
  serve_tenants c e store [] s = pure s
  serve_tenants c e store (t ∷ ts) s = do
    next ← serve_tenant c e store t s
    serve_tenants c e store ts next

  -- `Reflexion.refresh`: what was served before is replaced as a whole, or kept if it raises
  unfoldable pub refresh : ReflexionConfig F → Embedder W F → RuleStore F → Exec W (Serving F)
  unfolding serve_tenants tenants_of
  refresh c e store =
      serve_tenants c e store (tenants_of (Store.promoted none store))
        (record { retrievers = []; versions = [] })
