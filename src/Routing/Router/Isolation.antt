-- ===== src/Routing/Router/Isolation.antt =====
-- routing/router.py, `route`: a request that the policy forces to the frontier.
use smart_router.Prelude.{List, Bool, true, false, Option, none, some, String, ◌≡◌, refl, Float}
use smart_router.Prelude.Exec.{pure, bind-same}
use smart_router.Schemas.Routing.{RouteTier, RouteReason}
use smart_router.Schemas.Message.{Text}
use smart_router.Routing.Policy.{PolicyDecision, evaluate}
use smart_router.Routing.World.{World, Sent, lift, ModelClient, Router, RouteRequest}
use smart_router.Schemas.Trace.{RequestTrace, add_call}
use smart_router.Tools.Commit.{CommitGate}
use smart_router.Routing.Escalation.{call, commit_text, finish_with}
use smart_router.Routing.Router.{
  ask_frontier, opened, route, route_under, route_on, cached_trace, embed, predict, threshold_for,
  choose_tier, dispatch, retrieve, prompt_for, decision_for, sent_messages, Prepared,
  request_identity,
}

module _ {W F : Type 0} ⦃f : Float F⦄ where
  pub forced_finish :
      (r : Router W F) (c : ModelClient W F) (t : RequestTrace F) (text : Text)
      (gate : Option (CommitGate W F)) (w : World W F)
      → finish_with (record r { small = c }) t text gate w ≡ finish_with r t text gate w
  unfolding finish_with commit_text
  forced_finish r c t text none w = refl
  forced_finish r c t text (some g) w =
      bind-same (commit_text r g t text t.request_id) _ _ w λ found w'. refl

  forced_ask :
      (r : Router W F) (c : ModelClient W F) (t : RequestTrace F) (sent : List (Sent F))
      (w : World W F)
      → ask_frontier (record r { small = c }) t sent w ≡ ask_frontier r t sent w
  unfolding ask_frontier call
  forced_ask r c t sent w =
      bind-same (call r r.frontier sent RouteTier.frontier) _ _ w
        λ a w'. forced_finish r c (add_call t a.call) a.text r.commit_gate w'

  forced_dispatch :
      (r : Router W F) (c : ModelClient W F) (q : RouteRequest) (p : Prepared F) (w : World W F)
      → dispatch (record r { small = c }) q p (RouteTier.frontier, RouteReason.policy_forced) w
        ≡ dispatch r q p (RouteTier.frontier, RouteReason.policy_forced) w
  unfolding dispatch retrieve prompt_for decision_for
  forced_dispatch r c q p w = bind-same (pure (none, r.snapshot_version)) _ _ w λ found w'.
      bind-same (lift r.perf_counter) _ _ w' λ now w''.
        forced_ask r c (opened r q p (RouteTier.frontier, RouteReason.policy_forced) found now)
          (sent_messages (prompt_for r q found.0)) w''

  forced_on :
      (r : Router W F) (c : ModelClient W F) (q : RouteRequest) (d : PolicyDecision F)
      (rid : String) (started : F) (hit : Option Text) (w : World W F)
      → route_on (record r { small = c }) q rid started d true hit w
        ≡ route_on r q rid started d true hit w
  unfolding route_on cached_trace embed predict threshold_for choose_tier
  forced_on r c q d rid started (some text) w = refl
  forced_on r c q d rid started none w = bind-same (embed r q true) _ _ w λ v w'.
      bind-same (predict r.classifier v) _ _ w' λ p w''.
        forced_dispatch r c q
          (record {
            rid = rid;
            started = started;
            policy = d;
            vector = v;
            p_success = p;
            threshold = threshold_for r d p;
          })
          w''

  forced-small :
      (r : Router W F) (c : ModelClient W F) (q : RouteRequest) (d : PolicyDecision F)
      (w : World W F) (b : Bool)
      → b ≡ true
      → route_under (record r { small = c }) q d b w ≡ route_under r q d b w
  unfolding route_under request_identity
  forced-small r c q d w true h = bind-same (request_identity r q.request_id) _ _ w λ rid w'.
      bind-same (lift r.perf_counter) _ _ w' λ started w''.
        bind-same (pure none) _ _ w'' λ hit w'''. forced_on r c q d rid started hit w'''
  forced-small r c q d w false h = absurd (cc h)

  -- A request that the policy forces to the frontier does not depend on the small model: with any
  -- other client in its place, `route` has the same result or exception and leaves the same world.
  pub route-ignores_small :
      (r : Router W F) (c : ModelClient W F) (q : RouteRequest) (w : World W F)
      → (evaluate r.policy q.query q.tenant_id q.override_frontier).force_frontier ≡ true
      → route (record r { small = c }) q w ≡ route r q w
  unfolding route
  route-ignores_small r c q w h =
      let d = evaluate r.policy q.query q.tenant_id q.override_frontier in
      forced-small r c q d w d.force_frontier h
