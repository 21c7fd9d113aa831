-- ===== src/Routing/Router/Steps.antt =====
-- routing/router.py, `route`: what the steps around the small model's path do to the
-- response cache.
use smart_router.Prelude.{Bool, Option, none, some, List, String, ◌≡◌, refl, Float, ◌&&◌, not, inl}
use smart_router.Prelude.Exec.{Exec, Result, Ends-bind, Ends-if}
use smart_router.Schemas.Message.{Text}
use smart_router.Schemas.Routing.{RouteTier, RouteReason}
use smart_router.Schemas.Trace.{RequestTrace, add_call}
use smart_router.Routing.World.{
  Vector, Retrieved, Reflexion, World, lift, Sent, Router, RouteRequest,
}
use smart_router.Routing.Escalation.{call}
use smart_router.Routing.Router.{
  retrieve_for, opened, situation, Prepared, choose_tier, embed, predict, threshold_for, retrieve,
  prompt_for, ask_frontier, dispatch, route_on, request_identity, needs_vector, is_small,
  sent_messages,
}
use smart_router.Cache.{ExactCache}
use smart_router.Routing.Policy.{PolicyDecision}
use smart_router.Routing.Quiet.{
  IsQuiet, lift-IsQuiet, if-IsQuiet, bind-IsQuiet, finish-IsQuiet, call-IsQuiet,
}
use smart_router.Routing.Router.SmallCache.{CacheEnd, CacheEnds, quiet_end, try_small-SmallCache}

module _ {W F : Type 0} ⦃f : Float F⦄ (r : Router W F) (q : RouteRequest) where
  abbrev pub RouteCache : ExactCache F → Result (RequestTrace F) × World W F → Type 0
  RouteCache c = CacheEnds r q.query q.tenant_id c

  pub ask_frontier-IsQuiet :
      (c : ExactCache F) (t : RequestTrace F) (sent : List (Sent F))
      → IsQuiet c (ask_frontier r t sent)
  unfolding ask_frontier
  ask_frontier-IsQuiet c t sent =
      bind-IsQuiet c (call r r.frontier sent RouteTier.frontier) _
        (call-IsQuiet c r r.frontier sent RouteTier.frontier)
        (λ a. finish-IsQuiet c r (add_call t a.call) a.text r.commit_gate)

  pub retrieve_for-IsQuiet :
      (c : ExactCache F) (v : Vector F) (m : Option (Reflexion W F))
      (k : Option (Vector F → Exec W Retrieved))
      → IsQuiet c (retrieve_for r q.tenant_id v m k)
  unfolding retrieve_for
  retrieve_for-IsQuiet c v (some m) k =
      bind-IsQuiet c (lift (m.retrieve v q.tenant_id)) _ (lift-IsQuiet c (m.retrieve v q.tenant_id))
        λ found.
          bind-IsQuiet c (lift (m.snapshot_version_for q.tenant_id)) _
            (lift-IsQuiet c (m.snapshot_version_for q.tenant_id)) (λ version w h. h)
  retrieve_for-IsQuiet c v none (some k) =
      bind-IsQuiet c (lift (k v)) _ (lift-IsQuiet c (k v)) (λ found w h. h)
  retrieve_for-IsQuiet c v none none = λ w h. h

  pub retrieve-IsQuiet :
      (c : ExactCache F) (tier : RouteTier) (v : Option (Vector F))
      → IsQuiet c (retrieve r q tier v)
  unfolding retrieve
  retrieve-IsQuiet c RouteTier.small (some v) = retrieve_for-IsQuiet c v r.reflexion r.retriever
  retrieve-IsQuiet c RouteTier.small none = λ w h. h
  retrieve-IsQuiet c RouteTier.frontier (some v) = λ w h. h
  retrieve-IsQuiet c RouteTier.frontier none = λ w h. h
  retrieve-IsQuiet c RouteTier.cache (some v) = λ w h. h
  retrieve-IsQuiet c RouteTier.cache none = λ w h. h

  pub dispatch-RouteCache :
      (c : ExactCache F) (p : Prepared F) (x : RouteTier × RouteReason) (w : World W F)
      → w.cache ≡ c
      → RouteCache c (dispatch r q p x w)
  unfolding dispatch
  dispatch-RouteCache c p x w h =
      let P = CacheEnd r q.query q.tenant_id c in
      Ends-bind (λ _ w'. w'.cache ≡ c) P (λ w'. w'.cache ≡ c) (retrieve r q x.0 p.vector) _ w
        (retrieve-IsQuiet c x.0 p.vector w h)
        λ found w' h'.
          Ends-bind (λ _ w'. w'.cache ≡ c) P (λ w'. w'.cache ≡ c) (lift r.perf_counter) _ w'
            (lift-IsQuiet c r.perf_counter w' h')
            λ now w'' h''.
              let t = opened r q p x found now in
              let sent = sent_messages (prompt_for r q found.0) in
              Ends-if P (λ w'. w'.cache ≡ c) (is_small x.0) _ _ w''
                (λ _. try_small-SmallCache c r (situation r q p found.0) t w'' refl h'')
                (λ _.
                  quiet_end r q.query q.tenant_id c (ask_frontier r t sent w'')
                    (ask_frontier-IsQuiet c t sent w'' h''))

  pub embed-IsQuiet : (c : ExactCache F) (forced : Bool) → IsQuiet c (embed r q forced)
  unfolding embed
  embed-IsQuiet c forced =
      if-IsQuiet c (not forced && needs_vector r) _ _
        (bind-IsQuiet c (lift (r.encode q.query)) _ (lift-IsQuiet c (r.encode q.query))
          (λ v w h. h))
        (λ w h. h)

  pub predict-IsQuiet :
      (c : ExactCache F) (k : Option (Vector F → Exec W F)) (v : Option (Vector F))
      → IsQuiet c (predict k v)
  unfolding predict
  predict-IsQuiet c (some k) (some v) =
      bind-IsQuiet c (lift (k v)) _ (lift-IsQuiet c (k v)) (λ p w h. h)
  predict-IsQuiet c (some k) none = λ w h. h
  predict-IsQuiet c none (some v) = λ w h. h
  predict-IsQuiet c none none = λ w h. h

  pub request_identity-IsQuiet :
      (c : ExactCache F) (o : Option String) → IsQuiet c (request_identity r o)
  unfolding request_identity
  request_identity-IsQuiet c none = lift-IsQuiet c r.uuid4
  request_identity-IsQuiet c (some id) = λ w h. h

  pub route_on-RouteCache :
      (c : ExactCache F) (rid : String) (started : F) (d : PolicyDecision F) (forced : Bool)
      (hit : Option Text) (w : World W F)
      → w.cache ≡ c
      → RouteCache c (route_on r q rid started d forced hit w)
  unfolding route_on
  route_on-RouteCache c rid started d forced (some text) w h =
      Ends-bind (λ _ w'. w'.cache ≡ c) (CacheEnd r q.query q.tenant_id c) (λ w'. w'.cache ≡ c)
        (lift r.perf_counter) _ w (lift-IsQuiet c r.perf_counter w h) (λ now w' h'. inl h')
  route_on-RouteCache c rid started d forced none w h =
      let P = CacheEnd r q.query q.tenant_id c in
      Ends-bind (λ _ w'. w'.cache ≡ c) P (λ w'. w'.cache ≡ c) (embed r q forced) _ w
        (embed-IsQuiet c forced w h)
        λ v w' h'.
          Ends-bind (λ _ w'. w'.cache ≡ c) P (λ w'. w'.cache ≡ c) (predict r.classifier v) _ w'
            (predict-IsQuiet c r.classifier v w' h')
            λ p w'' h''.
              dispatch-RouteCache c
                (record {
                  rid = rid;
                  started = started;
                  policy = d;
                  vector = v;
                  p_success = p;
                  threshold = threshold_for r d p;
                })
                (choose_tier forced p (threshold_for r d p)) w'' h''
