-- ===== src/Tests/Serving.antt =====
-- memory/reflexion.py and vectors.py at concrete inputs: the store of two rules is served to two tenants.
use smart_router.Prelude.{ℕ, suc, some, none, List, [], ◌∷◌, map, String, ◌≡◌, refl, Option}
use smart_router.Prelude.Dict.{get, put, values}
use smart_router.Prelude.Exec.{Result, ok, raised, ◌>>=◌, Ensures}
use smart_router.Schemas.Rule.{RouterRule}
use smart_router.Memory.Store
use smart_router.Memory.Retrieval.{Retrieved}
use smart_router.Memory.Vectors.{Ranking, Embedder}
use smart_router.Memory.Reflexion.{ReflexionConfig, Serving, retrieve_served, refresh}
use smart_router.Memory.Reflexion.Isolation.{IsFor}
use smart_router.Memory.Reflexion.Tenants.{Isolates, refresh-GivesOwn}
use smart_router.Tests.Samples.{nat_float}
use smart_router.Tests.Learning.{store}

-- every vector is alike, and the order of the items is kept
abbrev count_up : ℕ → List ℕ → List ℕ
count_up i [] = []
count_up i (x ∷ xs) = i ∷ count_up (suc i) xs

abbrev pub ranking : Ranking ℕ
ranking = record { dot = λ v w. 1; argsort = count_up 0; max_of = λ xs. 0; lowest = 0 }

abbrev pub config : ReflexionConfig ℕ
config = record {
  k = 4;
  max_tokens = 400;
  min_similarity = 1;
  mmr_lambda = 1;
  candidate_pool = 40;
  version_of = λ mode tenant lines. tenant;
}

abbrev pub embedder : Embedder ℕ ℕ
embedder = record { name = "e1"; encode_all = λ ts n. (ok (map (λ t. []) ts), suc n) }

abbrev ids_of : Result (Option (Retrieved ℕ)) → List String
ids_of (ok none) = []
ids_of (ok (some found)) = map (λ (r : RouterRule ℕ). r.rule_id) found.rules
ids_of (raised e) = "raised" ∷ []

abbrev given : String → Result (Serving ℕ) → List String
given tenant (ok s) = ids_of (retrieve_served ranking config [] tenant s)
given tenant (raised e) = "raised" ∷ []

-- a tenant is given its own rule and the one for every tenant
run_own : given "acme" (refresh config embedder store 0).0 ≡ ("RULE-001" ∷ "RULE-002" ∷ [])
unfolding refresh retrieve_served Store.promoted values ◌>>=◌ get put
run_own = refl

-- another tenant is given the one for every tenant
run_other : given "umbrella" (refresh config embedder store 0).0 ≡ ("RULE-002" ∷ [])
unfolding refresh retrieve_served Store.promoted values ◌>>=◌ get put
run_other = refl

refresh-GivesOwn_example :
    Ensures (λ (s : Serving ℕ) _. Isolates IsFor ranking config s) (refresh config embedder store 0)
refresh-GivesOwn_example = refresh-GivesOwn ranking config embedder store 0
