-- ===== src/Routing/Router/Caching.antt =====
-- routing/router.py, `route`: what a request does to the response cache.
use smart_router.Prelude.{
  Bool, Option, none, some, ◌∙◌, ◌≡◌, refl, ap, sym, subst, Float, ◌⊎◌, inl, inr, if◌then◌else◌,
}
use smart_router.Prelude.Exec.{Exec, Result, pure, ◌>>=◌, Ends, Ends-bind, Ends-if}
use smart_router.Schemas.Trace.{RequestTrace}
use smart_router.Routing.World.{World, lift, Router, RouteRequest}
use smart_router.Routing.Router.{
  route_on, request_identity, request_key, look_up, cache_lookup, route_under, route,
}
use smart_router.Cache.{ExactCache, Entry, count_miss, get_entry, cache_get}
use smart_router.Prelude.Dict.{get, string_eq}
use smart_router.Prelude.Exec.{Ends-weaken}
use smart_router.Routing.Policy.{PolicyDecision, evaluate}
use smart_router.Routing.Quiet.{IsQuiet, lift-IsQuiet}
use smart_router.Routing.Router.SmallCache.{CacheEnd}
use smart_router.Routing.Router.Steps.{request_identity-IsQuiet, RouteCache, route_on-RouteCache}

module _ {W F : Type 0} ⦃f : Float F⦄ (r : Router W F) (q : RouteRequest) where
  -- the cache that a request finds or leaves behind when it has looked: the same, or that of a `get`
  abbrev pub Looked : ExactCache F → ExactCache F → Type 0
  Looked c0 c =
      (c ≡ c0)
      ⊎ ((now : F) × (c
            ≡ (cache_get r.cache_digest q.query q.tenant_id r.small.model_name now c0).0))

  -- the cache at the end: what the look left, or the answer put into that
  abbrev pub CacheAfter : ExactCache F → RequestTrace F → World W F → Type 0
  CacheAfter c0 t w = (c : ExactCache F) × (Looked c0 c × CacheEnd r q.query q.tenant_id c t w)

  abbrev pub LookedAfter : ExactCache F → World W F → Type 0
  LookedAfter c0 w = Looked c0 w.cache

  look_up-Looked :
      (c0 : ExactCache F) (o : Option (Entry F)) (w : World W F)
      → get (request_key r q) c0.entries ≡ o
      → w.cache ≡ c0
      → Ends (λ _ w'. Looked c0 w'.cache) (LookedAfter c0) (look_up r q o w)
  unfolding look_up cache_get get_entry
  look_up-Looked c0 none w e h =
      inr (
        f.zero_f,
        ap count_miss h ∙ ap (λ o. (get_entry (request_key r q) f.zero_f o c0).0) (sym e),
      )
  look_up-Looked c0 (some x) w e h =
      Ends-bind (λ _ w'. w'.cache ≡ c0) (λ _ w'. Looked c0 w'.cache) (LookedAfter c0)
        (lift r.monotonic) _ w
        (Ends-weaken (λ _ w'. w'.cache ≡ c0) (λ _ w'. w'.cache ≡ c0) (λ w'. w'.cache ≡ c0)
          (LookedAfter c0) (lift r.monotonic w) (lift-IsQuiet c0 r.monotonic w h) (λ now w' k. k)
          (λ w' k. inl k))
        (λ now w' k. inr (
          now,
          ap (λ c. (get_entry (request_key r q) now (some x) c).0) k
              ∙ ap (λ o. (get_entry (request_key r q) now o c0).0) (sym e),
        ))

  cache_lookup-Looked :
      (c0 : ExactCache F) (w : World W F)
      → w.cache ≡ c0
      → Ends (λ _ w'. Looked c0 w'.cache) (LookedAfter c0) (cache_lookup r q w)
  unfolding cache_lookup
  cache_lookup-Looked c0 w h =
      look_up-Looked c0 (get (request_key r q) w.cache.entries) w
        (ap (λ c. get (request_key r q) c.entries) (sym h)) h

  -- an action that keeps the cache, before a look at it
  before :
      {A : Type 0} (c0 : ExactCache F) (m : Exec (World W F) A)
      (g : A → Exec (World W F) (RequestTrace F)) (w : World W F)
      → IsQuiet c0 m
      → w.cache ≡ c0
      → ((a : A) (w' : World W F) → w'.cache ≡ c0 → Ends (CacheAfter c0) (LookedAfter c0) (g a w'))
      → Ends (CacheAfter c0) (LookedAfter c0) ((m >>= g) w)
  before c0 m g w quiet h k =
      Ends-bind (λ _ w'. w'.cache ≡ c0) (CacheAfter c0) (LookedAfter c0) m g w
        (Ends-weaken (λ _ w'. w'.cache ≡ c0) (λ _ w'. w'.cache ≡ c0) (λ w'. w'.cache ≡ c0)
          (LookedAfter c0) (m w) (quiet w h) (λ a w' e. e) (λ w' e. inl e))
        k

  after_look :
      (c0 c : ExactCache F) (x : Result (RequestTrace F) × World W F)
      → Looked c0 c
      → RouteCache r q c x
      → Ends (CacheAfter c0) (LookedAfter c0) x
  after_look c0 c x l h =
      Ends-weaken (CacheEnd r q.query q.tenant_id c) (CacheAfter c0) (λ w. w.cache ≡ c)
        (LookedAfter c0) x h (λ t w k. (c, (l, k))) (λ w e. subst (Looked c0) (sym e) l)

  route_under-CacheAfter :
      (d : PolicyDecision F) (forced : Bool) (w : World W F)
      → Ends (CacheAfter w.cache) (LookedAfter w.cache) (route_under r q d forced w)
  unfolding route_under
  route_under-CacheAfter d forced w =
      before w.cache (request_identity r q.request_id) _ w
        (request_identity-IsQuiet r q w.cache q.request_id) refl
        λ rid w1 h1.
          before w.cache (lift r.perf_counter) _ w1 (lift-IsQuiet w.cache r.perf_counter) h1
            λ started w2 h2.
              Ends-bind (λ _ w'. Looked w.cache w'.cache) (CacheAfter w.cache) (LookedAfter w.cache)
                (if forced then pure none else cache_lookup r q) _ w2
                (Ends-if (λ _ w'. Looked w.cache w'.cache) (LookedAfter w.cache) forced _ _ w2
                  (λ _. inl h2) (λ _. cache_lookup-Looked w.cache w2 h2))
                (λ hit w3 l.
                  after_look w.cache w3.cache (route_on r q rid started d forced hit w3) l
                    (route_on-RouteCache r q w3.cache rid started d forced hit w3 refl))

  -- What a request does to the response cache: at most one `get`, and after it at most one `put` of the
  -- request's own query, tenant and model. It puts only the text that it returns, from a run that did
  -- not escalate, and never one whose tool call was committed and is irreversible. A request that
  -- raises puts nothing.
  pub route-CacheAfter :
      (w : World W F) → Ends (CacheAfter w.cache) (LookedAfter w.cache) (route r q w)
  unfolding route
  route-CacheAfter w =
      let d = evaluate r.policy q.query q.tenant_id q.override_frontier in
      route_under-CacheAfter d d.force_frontier w
