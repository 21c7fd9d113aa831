-- ===== src/Routing/Router.antt =====
-- routing/router.py, `route`: from the policy gate to the choice of the model, and the way after it.
-- A trace is lost where an exception leaves `route`.
pub mod Isolation
pub mod Ways
pub mod Attempts
pub mod SmallPath
pub mod Tries
pub mod Paths
pub mod SmallCache
pub mod Steps
pub mod Caching
pub mod ForcedCache
use smart_router.Prelude.{
  Bool, true, false, not, ◌&&◌, ◌||◌, Option, none, some, List, [], ◌∷◌, map, String, Float,
  is_some, if◌then◌else◌,
}
use smart_router.Prelude.Exec.{Exec, ok, pure, ◌>>=◌}
use smart_router.Schemas.Message.{Text, Message}
use smart_router.Schemas.Routing.{RouteTier, RouteReason, RoutingDecision}
use smart_router.Schemas.Trace.{RequestTrace, new_trace, add_call}
use smart_router.Prelude.Dict.{get, string_eq}
use smart_router.Cache.{Entry, count_miss, get_entry, payload}
use smart_router.Prompt.{Injectable, AssembledPrompt, PromptMessage, assemble, messages}
use smart_router.Routing.Policy.{PolicyDecision, evaluate}
use smart_router.Routing.Threshold.{min_success_prob}
use smart_router.Routing.World.{
  World, lift, Sent, Vector, Retrieved, Reflexion, Router, RouteRequest,
}
use smart_router.Routing.Escalation.{call, finish_with, finish_frontier, answer_with}
use smart_router.Routing.Small.{Situation, try_small}

module _ {F : Type 0} ⦃f : Float F⦄ where
  -- the tier and its reason, from the policy, the prediction and the threshold
  unfoldable pub choose_tier : Bool → Option F → Option F → RouteTier × RouteReason
  choose_tier true p threshold = (RouteTier.frontier, RouteReason.policy_forced)
  choose_tier false (some p) (some threshold) =
      if f.lt_f p threshold
      then (RouteTier.frontier, RouteReason.predicted_hard)
      else (RouteTier.small, RouteReason.optimistic)
  choose_tier false _ _ = (RouteTier.small, RouteReason.optimistic)

  -- milliseconds between two readings
  abbrev pub elapsed_ms : F → F → F
  elapsed_ms t0 t1 = f.mul_f (f.sub_f t1 t0) (f.of_nat 1000)

abbrev pub sent_messages : {F : Type 0} → AssembledPrompt → List (Sent F)
sent_messages p = map Sent.assembled (messages p)

-- what is known before a tier is tried
pub record Prepared (F : Type 0) : Type 0 where
  pub rid : String
  pub started : F
  pub policy : PolicyDecision F
  pub vector : Option (Vector F)
  pub p_success : Option F
  pub threshold : Option F

abbrev pub is_small : RouteTier → Bool
is_small RouteTier.small = true
is_small _ = false

-- `retrieved.rules or rules`
abbrev pub rules_or : Option Retrieved → List Injectable → List Injectable
rules_or none rules = rules
rules_or (some []) rules = rules
rules_or (some (x ∷ xs)) rules = x ∷ xs

module _ {W F : Type 0} ⦃f : Float F⦄ where
  abbrev pub needs_vector : Router W F → Bool
  needs_vector r = is_some r.classifier || (is_some r.retriever || is_some r.reflexion)

  abbrev pub request_key : Router W F → RouteRequest → String
  request_key r q = r.cache_digest (payload q.tenant_id r.small.model_name q.query)

  -- `get` of the cache reads the clock where there is an entry
  unfoldable pub look_up :
      Router W F → RouteRequest → Option (Entry F) → Exec (World W F) (Option Text)
  unfolding lift get_entry
  look_up r q none = λ w. (ok none, record w { cache = count_miss w.cache })
  look_up r q (some e) = do
    now ← lift r.monotonic
    λ w.
        let found = get_entry (request_key r q) now (some e) w.cache in
        (ok found.1, record w { cache = found.0 })

  unfoldable pub cache_lookup : Router W F → RouteRequest → Exec (World W F) (Option Text)
  unfolding look_up get
  cache_lookup r q w = look_up r q (get (request_key r q) w.cache.entries) w

  -- the answer from the cache
  unfoldable pub cached_trace :
      Router W F → RouteRequest → String → PolicyDecision F → F → Text → RequestTrace F
  cached_trace r q rid d latency text =
      let decision : RoutingDecision F = record {
        request_id = rid;
        tenant_id = q.tenant_id;
        tier = RouteTier.cache;
        reason = RouteReason.cache_hit;
        selected_model = "cache";
        risk_class = d.risk_class;
        p_small_succeeds = none;
        threshold_used = none;
        cost_of_being_wrong_usd = some d.cost_of_being_wrong_usd;
        snapshot_version = r.snapshot_version;
        injected_rule_ids = [];
        injected_token_count = 0;
        decision_latency_ms = latency;
      } in
      answer_with (new_trace rid q.tenant_id q.session_id q.query decision) text

  -- one embedding, where something reads it
  unfoldable pub embed : Router W F → RouteRequest → Bool → Exec (World W F) (Option (Vector F))
  unfolding lift
  embed r q forced =
      if not forced && needs_vector r
      then (do v ← lift (r.encode q.query); pure (some v))
      else pure none

  unfoldable pub predict :
      Option (Vector F → Exec W F) → Option (Vector F) → Exec (World W F) (Option F)
  unfolding lift
  predict (some c) (some v) = do p ← lift (c v); pure (some p)
  predict _ _ = pure none

  -- a threshold is taken with each prediction
  unfoldable pub threshold_for : Router W F → PolicyDecision F → Option F → Option F
  threshold_for r d none = none
  threshold_for r d (some p) = some (min_success_prob r.cost_model d.cost_of_being_wrong_usd)

  -- the rules or exemplars for a vector, with the version of their snapshot
  unfoldable pub retrieve_for :
      Router W F
      → String
      → Vector F
      → Option (Reflexion W F)
      → Option (Vector F → Exec W Retrieved)
      → Exec (World W F) (Option Retrieved × Option String)
  unfolding lift
  retrieve_for r tenant_id v (some m) fetch = do
    found ← lift (m.retrieve v tenant_id)
    version ← lift (m.snapshot_version_for tenant_id)
    pure (found, version)
  retrieve_for r tenant_id v none (some fetch) = do
    found ← lift (fetch v)
    pure (some found, r.snapshot_version)
  retrieve_for r tenant_id v none none = pure (none, r.snapshot_version)

  -- they are for the small model only
  unfoldable pub retrieve :
      Router W F
      → RouteRequest
      → RouteTier
      → Option (Vector F)
      → Exec (World W F) (Option Retrieved × Option String)
  unfolding retrieve_for
  retrieve r q RouteTier.small (some v) = retrieve_for r q.tenant_id v r.reflexion r.retriever
  retrieve r q _ _ = pure (none, r.snapshot_version)

  unfoldable pub prompt_for : Router W F → RouteRequest → Option Retrieved → AssembledPrompt
  prompt_for r q found =
      assemble r.system_prompt r.tools none q.history (rules_or found q.rules) q.query

  unfoldable pub decision_for :
      Router W F
      → RouteRequest
      → Prepared F
      → RouteTier
      → RouteReason
      → AssembledPrompt
      → Option String
      → F
      → RoutingDecision F
  decision_for r q p tier reason prompt version latency = record {
    request_id = p.rid;
    tenant_id = q.tenant_id;
    tier = tier;
    reason = reason;
    selected_model = if is_small tier then r.small.model_name else r.frontier.model_name;
    risk_class = p.policy.risk_class;
    p_small_succeeds = p.p_success;
    threshold_used = p.threshold;
    cost_of_being_wrong_usd = some p.policy.cost_of_being_wrong_usd;
    snapshot_version = version;
    injected_rule_ids = prompt.injected_rule_ids;
    injected_token_count = prompt.injected_token_count;
    decision_latency_ms = latency;
  }

  -- the frontier, without an attempt of the small model
  unfoldable pub ask_frontier :
      Router W F → RequestTrace F → List (Sent F) → Exec (World W F) (RequestTrace F)
  unfolding call finish_with
  ask_frontier r t sent = do
    a ← call r r.frontier sent RouteTier.frontier
    finish_frontier r (add_call t a.call) a.text

  -- the trace that is built for a choice, with what was retrieved for it
  abbrev pub opened :
      Router W F
      → RouteRequest
      → Prepared F
      → RouteTier × RouteReason
      → Option Retrieved × Option String
      → F
      → RequestTrace F
  opened r q p chosen found now = new_trace p.rid q.tenant_id q.session_id q.query (
      decision_for r q p chosen.0 chosen.1 (prompt_for r q found.0) found.1
        (elapsed_ms p.started now))

  abbrev pub situation : Router W F → RouteRequest → Prepared F → Option Retrieved → Situation F
  situation r q p found = record {
    rid = p.rid;
    query = q.query;
    tenant_id = q.tenant_id;
    grounding = q.grounding;
    policy = p.policy;
    vector = p.vector;
    retrieved = found;
    sent = sent_messages (prompt_for r q found);
  }

  unfoldable pub dispatch :
      Router W F
      → RouteRequest
      → Prepared F
      → RouteTier × RouteReason
      → Exec (World W F) (RequestTrace F)
  unfolding retrieve prompt_for decision_for ask_frontier try_small lift
  dispatch r q p chosen = do
    found ← retrieve r q chosen.0 p.vector
    now ← lift r.perf_counter
    let t = opened r q p chosen found now
    if is_small chosen.0
        then try_small r (situation r q p found.0) t
        else ask_frontier r t (sent_messages (prompt_for r q found.0))

  -- after the cache; `forced` is the policy's `force_frontier`
  unfoldable pub route_on :
      Router W F
      → RouteRequest
      → String
      → F
      → PolicyDecision F
      → Bool
      → Option Text
      → Exec (World W F) (RequestTrace F)
  unfolding lift cached_trace embed predict threshold_for choose_tier dispatch
  route_on r q rid started d forced (some text) = do
    now ← lift r.perf_counter
    pure (cached_trace r q rid d (elapsed_ms started now) text)
  route_on r q rid started d forced none = do
    v ← embed r q forced
    p ← predict r.classifier v
    let threshold = threshold_for r d p
    dispatch r q
        (record {
          rid = rid;
          started = started;
          policy = d;
          vector = v;
          p_success = p;
          threshold = threshold;
        })
        (choose_tier forced p threshold)

  -- `request_id or uuid4()`
  unfoldable pub request_identity : Router W F → Option String → Exec (World W F) String
  unfolding lift
  request_identity r none = lift r.uuid4
  request_identity r (some id) = pure id

  unfoldable pub route_under :
      Router W F → RouteRequest → PolicyDecision F → Bool → Exec (World W F) (RequestTrace F)
  unfolding request_identity lift cache_lookup route_on
  route_under r q d forced = do
    rid ← request_identity r q.request_id
    started ← lift r.perf_counter
    hit ← (if forced then pure none else cache_lookup r q)
    route_on r q rid started d forced hit

  -- The policy gate changes nothing, so that it makes no difference when it is asked.
  unfoldable pub route : Router W F → RouteRequest → Exec (World W F) (RequestTrace F)
  unfolding evaluate route_under
  route r q =
      let d = evaluate r.policy q.query q.tenant_id q.override_frontier in
      route_under r q d d.force_frontier
