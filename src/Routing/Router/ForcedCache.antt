-- ===== src/Routing/Router/ForcedCache.antt =====
-- routing/router.py, `route`: the response cache under a policy that forces the frontier.
use smart_router.Prelude.{Bool, true, false, Option, none, some, String, ◌≡◌, refl, Float}
use smart_router.Prelude.Exec.{pure}
use smart_router.Schemas.Message.{Text}
use smart_router.Schemas.Routing.{RouteTier, RouteReason}
use smart_router.Routing.World.{World, lift, Router, RouteRequest}
use smart_router.Routing.Router.{
  opened, choose_tier, embed, predict, threshold_for, retrieve, prompt_for, dispatch, route_on,
  request_identity, route_under, route, sent_messages,
}
use smart_router.Cache.{ExactCache}
use smart_router.Routing.Policy.{PolicyDecision, evaluate}
use smart_router.Routing.Quiet.{Keeps, IsQuiet, lift-IsQuiet, bind-IsQuiet}
use smart_router.Routing.Router.Steps.{
  retrieve-IsQuiet, ask_frontier-IsQuiet, embed-IsQuiet, predict-IsQuiet, request_identity-IsQuiet,
}

module _ {W F : Type 0} ⦃f : Float F⦄ (r : Router W F) (q : RouteRequest) where
  forced_on-IsQuiet :
      (c : ExactCache F) (rid : String) (started : F) (d : PolicyDecision F) (hit : Option Text)
      → IsQuiet c (route_on r q rid started d true hit)
  unfolding route_on choose_tier dispatch
  forced_on-IsQuiet c rid started d (some text) =
      bind-IsQuiet c (lift r.perf_counter) _ (lift-IsQuiet c r.perf_counter) (λ now w h. h)
  forced_on-IsQuiet c rid started d none =
      bind-IsQuiet c (embed r q true) _ (embed-IsQuiet r q c true) λ v.
        bind-IsQuiet c (predict r.classifier v) _ (predict-IsQuiet r q c r.classifier v) λ p.
          bind-IsQuiet c (retrieve r q RouteTier.frontier v) _
            (retrieve-IsQuiet r q c RouteTier.frontier v)
            λ found. bind-IsQuiet c (lift r.perf_counter) _ (lift-IsQuiet c r.perf_counter) λ now.
              ask_frontier-IsQuiet r q c
                (opened r q
                  (record {
                    rid = rid;
                    started = started;
                    policy = d;
                    vector = v;
                    p_success = p;
                    threshold = threshold_for r d p;
                  })
                  (RouteTier.frontier, RouteReason.policy_forced) found now)
                (sent_messages (prompt_for r q found.0))

  forced_under :
      (d : PolicyDecision F) (b : Bool) (w : World W F)
      → b ≡ true
      → Keeps w.cache (route_under r q d b w)
  unfolding route_under
  forced_under d false w e = absurd (cc e)
  forced_under d true w e =
      let c = w.cache in
      bind-IsQuiet c (request_identity r q.request_id) _
        (request_identity-IsQuiet r q c q.request_id)
        (λ rid. bind-IsQuiet c (lift r.perf_counter) _ (lift-IsQuiet c r.perf_counter) λ started.
          bind-IsQuiet c (pure none) _ (λ w' h. h) λ hit. forced_on-IsQuiet c rid started d hit)
        w refl

  -- A request that the policy forces to the frontier neither reads nor writes the response cache,
  -- its counters included, whether it returns or raises.
  pub route-Keeps_cache :
      (w : World W F)
      → (evaluate r.policy q.query q.tenant_id q.override_frontier).force_frontier ≡ true
      → Keeps w.cache (route r q w)
  unfolding route
  route-Keeps_cache w h =
      let d = evaluate r.policy q.query q.tenant_id q.override_frontier in
      forced_under d d.force_frontier w h
