-- ===== src/Tests/Showing.antt =====
-- memory/reflexion.py in the mode `exemplars` and memory/exemplars.py at concrete inputs: two tenants.
use smart_router.Prelude.{ℕ, some, none, List, [], ◌∷◌, map, String, ◌≡◌, refl, Option}
use smart_router.Prelude.Dict.{get, put}
use smart_router.Prelude.Exec.{Result, ok, raised, ◌>>=◌, Ensures}
use smart_router.Prelude.Strings.{codes}
use smart_router.Memory.Recent.{Exemplar}
use smart_router.Memory.Exemplars.{
  RetrievedExemplars, ExemplarServing, retrieve_exemplars_for, refresh_exemplars,
}
use smart_router.Memory.Exemplars.Owned.{ShowsOwn, refresh_exemplars-ShowsOwn}
use smart_router.Tests.Samples.{nat_float}
use smart_router.Tests.Serving.{ranking, config, embedder}

abbrev correction : String → Exemplar
correction tenant = record {
  query = codes "hi";
  verified_output = codes "hello";
  tenant_id = tenant;
  source_request_id = "";
}

abbrev corrections : List Exemplar
corrections = correction "acme" ∷ correction "umbrella" ∷ correction "acme" ∷ []

abbrev owners_of : Result (Option RetrievedExemplars) → List String
owners_of (ok none) = "none" ∷ []
owners_of (ok (some found)) = map (λ (x : Exemplar). x.tenant_id) found.exemplars
owners_of (raised e) = "raised" ∷ []

abbrev shown : String → Result (ExemplarServing ℕ) → List String
shown tenant (ok s) = owners_of (retrieve_exemplars_for ranking [] tenant s.retrievers)
shown tenant (raised e) = "raised" ∷ []

run_two : shown "acme" (refresh_exemplars config embedder corrections 0).0 ≡ ("acme" ∷ "acme" ∷ [])
unfolding refresh_exemplars retrieve_exemplars_for ◌>>=◌ get put
run_two = refl

-- a tenant with no correction is given nothing
run_stranger : shown "initech" (refresh_exemplars config embedder corrections 0).0 ≡ ("none" ∷ [])
unfolding refresh_exemplars retrieve_exemplars_for ◌>>=◌ get put
run_stranger = refl

refresh_exemplars-ShowsOwn_example :
    Ensures
      (λ (s : ExemplarServing ℕ) _. ShowsOwn config ranking s)
      (refresh_exemplars config embedder corrections 0)
refresh_exemplars-ShowsOwn_example =
    refresh_exemplars-ShowsOwn ranking config embedder corrections 0
