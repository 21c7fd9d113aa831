-- ===== src/Tests/Requests.antt =====
-- routing/ at concrete inputs: a router with a small model, a frontier and a ladder.
use smart_router.Prelude.{ℕ, ◌+◌, false, none, some, [], ◌∷◌, String, ◌≡◌, refl}
use smart_router.Prelude.Exec.{ok, raised, Exception, Ends, Ensures}
use smart_router.Prelude.Strings.{codes, lower_char}
use smart_router.Schemas.Message.{RiskClass}
use smart_router.Gateway.ModelConfig.{ModelSettings}
use smart_router.Tools.Json.{Json}
use smart_router.Routing.Policy.{PolicyGate, default_markers, after_one_of, classify_risk, evaluate}
use smart_router.Routing.Policy.Forced.{is_constrained, evaluate-force}
use smart_router.Routing.World.{World, ModelClient, Router, RouteRequest}
use smart_router.Routing.Router.{route}
use smart_router.Routing.Quiet.{Keeps}
use smart_router.Routing.Router.Isolation.{route-ignores_small}
use smart_router.Routing.Router.Tries.{TriesTwice}
use smart_router.Routing.Router.Paths.{RouteEnd, route-RouteEnd}
use smart_router.Routing.Router.Caching.{CacheAfter, LookedAfter, route-CacheAfter}
use smart_router.Routing.Router.ForcedCache.{route-Keeps_cache}
use smart_router.Tests.Samples.{nat_float, unary}
use smart_router.Tests.Verdicts.{response, ladder}

abbrev policy : PolicyGate ℕ
policy = record {
  frontier_only_tenants = "bank" ∷ [];
  sensitive_markers = default_markers;
  frontier_on_irreversible_intent = false;
  cost_of_being_wrong = λ risk. 2;
}

-- each call is counted in the state
abbrev client : String → ModelClient ℕ ℕ
client name = record {
  model_name = name;
  supports_constrained_decoding = false;
  complete = λ ms schema n. (ok response, n + 1);
}

-- a client whose provider is down
abbrev down : ModelClient ℕ ℕ
down = record (client "small/default") {
  complete = λ ms schema n. (raised (Exception.provider_fault []), n + 1);
}

abbrev settings : ModelSettings ℕ
settings = record {
  name = "any";
  input_usd_per_mtok = 1;
  output_usd_per_mtok = 1;
  cached_input_discount = 1;
  timeout_seconds = 1;
  temperature = 0;
  supports_constrained_decoding = false;
  supports_logprobs = false;
}

abbrev pub router : Router ℕ ℕ
router = record {
  small = client "small/default";
  frontier = client "frontier/default";
  ladder = ladder;
  encode = λ q n. (ok [], n);
  policy = policy;
  classifier = none;
  cost_model = record { cost_slm_usd = 1; cost_frontier_usd = 9; cost_verification_usd = 0 };
  retriever = none;
  failure_log = none;
  rule_store = none;
  commit_gate = none;
  reflexion = none;
  system_prompt = codes "S";
  tools = none;
  snapshot_version = none;
  models = ("small/default", settings) ∷ ("frontier/default", settings) ∷ [];
  envelope_schema = Json.null;
  runtime = record {
    loads = λ t. none;
    name_of = λ t. "tool";
    show = λ j. "json";
    is_zero = λ x. false;
  };
  cache_digest = unary;
  fingerprint_digest = unary;
  perf_counter = λ n. (ok n, n);
  monotonic = λ n. (ok n, n);
  uuid4 = λ n. (ok "id", n);
}

abbrev ask : String → RouteRequest
ask tenant = record {
  query = codes "weather";
  tenant_id = tenant;
  session_id = none;
  history = [];
  grounding = [];
  rules = [];
  override_frontier = false;
  request_id = some "r1";
}

abbrev pub world : World ℕ ℕ
world = record {
  outside = 0;
  cache = record {
    max_entries = 4;
    ttl_seconds = 60;
    stats = record { hits = 0; misses = 0; evictions = 0; expirations = 0 };
    entries = [];
  };
}

route-RouteEnd_example : Ensures RouteEnd (route router (ask "acme") world) × TriesTwice router
route-RouteEnd_example = route-RouteEnd router (ask "acme") world

route-CacheAfter_example :
    Ends
      (CacheAfter router (ask "acme") world.cache)
      (LookedAfter router (ask "acme") world.cache)
      (route router (ask "acme") world)
route-CacheAfter_example = route-CacheAfter router (ask "acme") world

route-ignores_small_example :
    route (record router { small = down }) (ask "bank") world ≡ route router (ask "bank") world
unfolding evaluate
route-ignores_small_example = route-ignores_small router down (ask "bank") world refl

route-Keeps_cache_example : Keeps world.cache (route router (ask "bank") world)
unfolding evaluate
route-Keeps_cache_example = route-Keeps_cache router (ask "bank") world refl

evaluate-force_example :
    ((evaluate policy (codes "Confidential") "acme" false).force_frontier
      ≡ is_constrained policy (codes "Confidential") "acme" false)
    × ((evaluate policy (codes "Confidential") "acme" false).risk_class
        ≡ classify_risk (codes "Confidential"))
    × ((evaluate policy (codes "Confidential") "acme" false).cost_of_being_wrong_usd ≡ 2)
evaluate-force_example = evaluate-force policy (codes "Confidential") "acme" false

-- the examples of the intent patterns
irreversible_word : classify_risk (codes "please SEND it") ≡ RiskClass.irreversible_write
unfolding classify_risk after_one_of lower_char
irreversible_word = refl

standing_request : classify_risk (codes "set me up a daily digest") ≡ RiskClass.irreversible_write
unfolding classify_risk after_one_of lower_char
standing_request = refl

too_far : classify_risk (codes "create one two three four five daily") ≡ RiskClass.reversible_write
unfolding classify_risk after_one_of lower_char
too_far = refl

no_word : classify_risk (codes "resend the sending dailyset") ≡ RiskClass.read_only
unfolding classify_risk after_one_of lower_char
no_word = refl
