-- ===== src/Routing/Router/Paths.antt =====
-- routing/router.py, `route`: the model calls of a request, and the trace that it returns.
use smart_router.Prelude.{
  Bool, true, false, Option, none, some, List, [], ◌∷◌, ◌++◌, String, ◌≡◌, refl, ap, sym, subst,
  Float, Bool-cases, ◌⊎◌, inl, inr, if◌then◌else◌,
}
use smart_router.Prelude.Exec.{pure, Ensures, NoClaim, Ends-bind, Ensures-after, Ends-map}
use smart_router.Schemas.Message.{Text}
use smart_router.Schemas.Routing.{RouteTier, RouteReason}
use smart_router.Schemas.Trace.{RequestTrace, add_call}
use smart_router.Routing.Policy.{PolicyDecision, evaluate}
use smart_router.Routing.World.{World, lift, Sent, Router, RouteRequest}
use smart_router.Routing.Escalation.{call, finish_with}
use smart_router.Routing.Small.{try_small}
use smart_router.Routing.Router.Ways.{Done, finish-Done, Direct, OnSmallPath, OnSomePath, Done-map}
use smart_router.Routing.Router.Attempts.{IsAnswer, call-IsAnswer}
use smart_router.Routing.Router.{
  opened, situation, Prepared, choose_tier, cached_trace, embed, predict, threshold_for, retrieve,
  prompt_for, decision_for, ask_frontier, dispatch, route_on, request_identity, cache_lookup,
  route_under, route, sent_messages,
}
use smart_router.Routing.Router.Tries.{TriesTwice, try_small-TriesTwice}
use smart_router.Routing.Router.SmallPath.{try_small-SmallEnd}

-- the choices of a tier that `choose_tier` can make
pub data Choice : Type 0 where
  to_small by_policy by_prediction : Choice

abbrev chosen : Choice → RouteTier × RouteReason
chosen to_small = (RouteTier.small, RouteReason.optimistic)
chosen by_policy = (RouteTier.frontier, RouteReason.policy_forced)
chosen by_prediction = (RouteTier.frontier, RouteReason.predicted_hard)

choose_tier-chosen :
    {F : Type 0} ⦃f : Float F⦄ (forced : Bool) (p threshold : Option F)
    → (c : Choice) × (choose_tier forced p threshold ≡ chosen c)
unfolding choose_tier
choose_tier-chosen true p threshold = (by_policy, refl)
choose_tier-chosen false none threshold = (to_small, refl)
choose_tier-chosen false (some p) none = (to_small, refl)
choose_tier-chosen ⦃f⦄ false (some p) (some threshold) = elim (Bool-cases (f.lt_f p threshold)) [
  | inl low ↦ (by_prediction, rw low refl)
  | inr high ↦ (to_small, rw high refl)
]

module _ {W F : Type 0} ⦃f : Float F⦄ where
  abbrev pub RouteEnd : RequestTrace F → World W F → Type 0
  RouteEnd t w = Done OnSomePath t

  ask_frontier-Done :
      (r : Router W F) (t : RequestTrace F) (sent : List (Sent F)) (w : World W F)
      → t.calls ≡ []
      → t.decision.tier ≡ RouteTier.frontier
      → (t.decision.reason ≡ RouteReason.policy_forced)
        ⊎ (t.decision.reason ≡ RouteReason.predicted_hard)
      → t.escalated ≡ false
      → Ensures RouteEnd (ask_frontier r t sent w)
  unfolding ask_frontier
  ask_frontier-Done r t sent w none_yet tier reason e =
      Ends-bind (IsAnswer RouteTier.frontier) RouteEnd NoClaim
        (call r r.frontier sent RouteTier.frontier) _ w
        (call-IsAnswer r r.frontier sent RouteTier.frontier w)
        λ a w' k.
          Ends-map (λ t' _. Done Direct t') RouteEnd NoClaim
            (finish_with r (add_call t a.call) a.text r.commit_gate w')
            (finish-Done Direct r r.commit_gate (add_call t a.call) a.text w' (record {
              last = a.call;
              shape = ap (λ cs. cs ++ (a.call ∷ [])) none_yet;
              frontier_call = k;
              tier = tier;
              reason = reason;
              escalation = e;
            }))
            (λ t' w'' d. Done-map Direct OnSomePath t' (λ cs x b h. inr (inl h)) d)

  dispatch-RouteEnd :
      (r : Router W F) (q : RouteRequest) (p : Prepared F) (c : Choice) (w : World W F)
      → Ensures RouteEnd (dispatch r q p (chosen c) w)
  unfolding dispatch decision_for
  dispatch-RouteEnd r q p to_small w =
      Ensures-after RouteEnd (retrieve r q RouteTier.small p.vector) _ w λ found w'.
        Ensures-after RouteEnd (lift r.perf_counter) _ w' λ now w''.
          let s = situation r q p found.0 in
          let t = opened r q p (chosen to_small) found now in
          Ends-map (λ t' _. Done OnSmallPath t') RouteEnd NoClaim (try_small r s t w'')
            (try_small-SmallEnd r s t w''
              (record { calls = refl; tier = refl; reason = refl; escalation = refl }))
            (λ t' w''' d. Done-map OnSmallPath OnSomePath t' (λ cs x b h. inr (inr h)) d)
  dispatch-RouteEnd r q p by_policy w =
      Ensures-after RouteEnd (retrieve r q RouteTier.frontier p.vector) _ w λ found w'.
        Ensures-after RouteEnd (lift r.perf_counter) _ w' λ now w''.
          ask_frontier-Done r (opened r q p (chosen by_policy) found now)
            (sent_messages (prompt_for r q found.0)) w'' refl refl (inl refl) refl
  dispatch-RouteEnd r q p by_prediction w =
      Ensures-after RouteEnd (retrieve r q RouteTier.frontier p.vector) _ w λ found w'.
        Ensures-after RouteEnd (lift r.perf_counter) _ w' λ now w''.
          ask_frontier-Done r (opened r q p (chosen by_prediction) found now)
            (sent_messages (prompt_for r q found.0)) w'' refl refl (inr refl) refl

  route_on-RouteEnd :
      (r : Router W F) (q : RouteRequest) (rid : String) (started : F) (d : PolicyDecision F)
      (forced : Bool) (hit : Option Text) (w : World W F)
      → Ensures RouteEnd (route_on r q rid started d forced hit w)
  unfolding route_on cached_trace
  route_on-RouteEnd r q rid started d forced (some text) w =
      Ensures-after RouteEnd (lift r.perf_counter) _ w λ now w'. record {
        path = inl (record { calls = refl; tier = refl; reason = refl; escalation = refl });
        committed = refl;
        output = refl;
      }
  route_on-RouteEnd r q rid started d forced none w =
      Ensures-after RouteEnd (embed r q forced) _ w λ v w'.
        Ensures-after RouteEnd (predict r.classifier v) _ w' λ p w''.
          let c = choose_tier-chosen forced p (threshold_for r d p) in
          let ready : Prepared F = record {
            rid = rid;
            started = started;
            policy = d;
            vector = v;
            p_success = p;
            threshold = threshold_for r d p;
          } in
          subst (λ x. Ensures RouteEnd (dispatch r q ready x w'')) (sym c.1)
            (dispatch-RouteEnd r q ready c.0 w'')

  route-path : (r : Router W F) (q : RouteRequest) (w : World W F) → Ensures RouteEnd (route r q w)
  unfolding route route_under
  route-path r q w =
      let d = evaluate r.policy q.query q.tenant_id q.override_frontier in
      Ensures-after RouteEnd (request_identity r q.request_id) _ w λ rid w'.
        Ensures-after RouteEnd (lift r.perf_counter) _ w' λ started w''.
          Ensures-after RouteEnd (if d.force_frontier then pure none else cache_lookup r q) _ w''
            λ hit w'''. route_on-RouteEnd r q rid started d d.force_frontier hit w'''

  -- A request that `route` returns from is committed with an output, and its answered model calls, which
  -- the trace records, are of one of four kinds: none, with the decision for the cache; one of the
  -- frontier, with a decision for it that the policy or the prediction made; at most two, of the small
  -- model, with an optimistic decision and no escalation; or at most two of the small model and then
  -- one of the frontier, with an escalation and a decision that says so. And `try_small` calls the small
  -- model at most twice, failed calls included: it is the run in which a first call and one more,
  -- after a failure or for a verifier and never for both, are of the small model, and any other client
  -- stands in for it in the rest.
  pub route-RouteEnd :
      (r : Router W F) (q : RouteRequest) (w : World W F)
      → Ensures RouteEnd (route r q w) × TriesTwice r
  route-RouteEnd r q w = (route-path r q w, try_small-TriesTwice r)
