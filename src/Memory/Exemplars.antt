-- ===== src/Memory/Exemplars.antt =====
-- memory/exemplars.py, the retrieval of corrections, and memory/reflexion.py, `Reflexion.refresh` and
-- `retrieve` in the mode `exemplars`.
pub mod Offer
pub mod Owned
use smart_router.Prelude.{
  ℕ, ◌+◌, ◌/◌, Option, none, some, List, [], ◌∷◌, ◌++◌, map, String, Float, ltb, length,
  if◌then◌else◌,
}
use smart_router.Prelude.Dict.{Dict, get, put, string_eq}
use smart_router.Prelude.Exec.{Exec, Result, ok, pure, ◌>>=◌}
use smart_router.Prelude.Strings.{codes}
use smart_router.Schemas.Message.{Text}
use smart_router.Memory.Recent.{Exemplar}
use smart_router.Memory.Vectors.{
  Ranking, VectorSnapshot, Candidate, Embedder, and_then, search_top, build_snapshot,
}
use smart_router.Memory.Reflexion.{ReflexionConfig, sort_texts, for_tenant}

-- `Exemplar.token_cost`
abbrev pub exemplar_cost : Exemplar → ℕ
exemplar_cost x =
    let guess = (length x.query + length x.verified_output) / 4 in if ltb 1 guess then guess else 1

-- `Exemplar.render`
unfoldable pub render_exemplar : Exemplar → Text
render_exemplar x =
    codes "- EXAMPLE\n  REQUEST: " ++ x.query ++ codes "\n  CORRECT OUTPUT: " ++ x.verified_output

pub record ExemplarRetriever (F : Type 0) : Type 0 where
  pub snapshot : Option (VectorSnapshot F Exemplar)
  pub embedder_name : String
  pub k : ℕ
  pub max_tokens : ℕ
  pub min_similarity : F

-- `Retrieved`, of exemplars
pub record RetrievedExemplars : Type 0 where
  pub exemplars : List Exemplar
  pub token_count : ℕ
  pub dropped_for_budget : ℕ
  pub dropped_for_floor : ℕ

abbrev pub no_exemplars : RetrievedExemplars
no_exemplars = record {
  exemplars = [];
  token_count = 0;
  dropped_for_budget = 0;
  dropped_for_floor = 0;
}

module _ {F : Type 0} ⦃f : Float F⦄ where
  -- one turn of the loop
  unfoldable pub weigh :
      ExemplarRetriever F → Candidate F Exemplar → RetrievedExemplars → RetrievedExemplars
  weigh r s found =
      let spent = found.token_count + exemplar_cost s.item in
      if f.lt_f s.similarity r.min_similarity
      then record found { dropped_for_floor = found.dropped_for_floor + 1 }
      else if ltb r.max_tokens spent
      then record found { dropped_for_budget = found.dropped_for_budget + 1 }
      else record found { exemplars = found.exemplars ++ (s.item ∷ []); token_count = spent }

  unfoldable pub weigh_all :
      ExemplarRetriever F → List (Candidate F Exemplar) → RetrievedExemplars → RetrievedExemplars
  unfolding weigh
  weigh_all r [] found = found
  weigh_all r (s ∷ ss) found = weigh_all r ss (weigh r s found)

  -- over the snapshot, and over its entries
  unfoldable pub retrieve_near :
      Ranking F
      → ExemplarRetriever F
      → List F
      → Option (VectorSnapshot F Exemplar)
      → Result RetrievedExemplars
  unfolding search_top weigh_all
  retrieve_near n r query none = ok no_exemplars
  retrieve_near n r query (some snapshot) = elim snapshot.entries [
    | [] ↦ ok no_exemplars
    | e ∷ es ↦
        and_then (search_top n query r.k r.embedder_name snapshot)
          (λ found. ok (weigh_all r found no_exemplars))
  ]

  -- `ExemplarRetriever.retrieve`
  abbrev pub retrieve_exemplars :
      Ranking F → ExemplarRetriever F → List F → Result RetrievedExemplars
  retrieve_exemplars n r query = retrieve_near n r query r.snapshot

  -- `Reflexion.retrieve`
  unfoldable pub retrieve_exemplars_for :
      Ranking F
      → List F
      → String
      → Dict String (ExemplarRetriever F)
      → Result (Option RetrievedExemplars)
  unfolding for_tenant retrieve_near
  retrieve_exemplars_for n query tenant retrievers = elim (for_tenant tenant retrievers) [
    | none ↦ ok none
    | some r ↦ and_then (retrieve_exemplars n r query) (λ found. ok (some found))
  ]

-- `by_tenant.setdefault(ex.tenant_id, []).append(ex)`
unfoldable pub group_exemplar : Exemplar → Dict String (List Exemplar) → Dict String (List Exemplar)
unfolding get put
group_exemplar x d = elim (get x.tenant_id d) [
  | none ↦ put x.tenant_id (x ∷ []) d
  | some xs ↦ put x.tenant_id (xs ++ (x ∷ [])) d
]

unfoldable pub group_by_tenant :
    List Exemplar → Dict String (List Exemplar) → Dict String (List Exemplar)
unfolding group_exemplar
group_by_tenant [] d = d
group_by_tenant (x ∷ xs) d = group_by_tenant xs (group_exemplar x d)

-- `_retrievers` and `_versions`
pub record ExemplarServing (F : Type 0) : Type 0 where
  pub retrievers : Dict String (ExemplarRetriever F)
  pub versions : Dict String String

module _ {W F : Type 0} where
  -- the snapshot of one tenant
  unfoldable pub serve_exemplars :
      ReflexionConfig F
      → Embedder W F
      → String
      → List Exemplar
      → ExemplarServing F
      → Exec W (ExemplarServing F)
  unfolding sort_texts render_exemplar build_snapshot put
  serve_exemplars c e tenant items s = do
    let version = c.version_of "exemplars" tenant (sort_texts (map render_exemplar items))
    snapshot ← build_snapshot version e items (λ (x : Exemplar). x.query)
    pure (record {
      retrievers =
          put tenant
            (record {
              snapshot = some snapshot;
              embedder_name = e.name;
              k = c.k;
              max_tokens = c.max_tokens;
              min_similarity = c.min_similarity;
            })
            s.retrievers;
      versions = put tenant snapshot.version s.versions;
    })

  unfoldable pub serve_groups :
      ReflexionConfig F
      → Embedder W F
      → Dict String (List Exemplar)
      → ExemplarServing F
      → Exec W (ExemplarServing F)
  unfolding serve_exemplars
  serve_groups c e [] s = pure s
  serve_groups c e ((tenant, items) ∷ groups) s = do
    next ← serve_exemplars c e tenant items s
    serve_groups c e groups next

  -- `Reflexion.refresh`, over all exemplars of the store
  unfoldable pub refresh_exemplars :
      ReflexionConfig F → Embedder W F → List Exemplar → Exec W (ExemplarServing F)
  unfolding serve_groups group_by_tenant
  refresh_exemplars c e items =
      serve_groups c e (group_by_tenant items []) (record { retrievers = []; versions = [] })
