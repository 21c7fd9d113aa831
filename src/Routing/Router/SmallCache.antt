-- ===== src/Routing/Router/SmallCache.antt =====
-- routing/router.py, `route`: what the small model's path does to the response cache.
use smart_router.Prelude.{
  Bool, true, false, Option, none, some, [], String, ◌≡◌, refl, ap, Float, ◌⊎◌, ◌&&◌, ◌||◌, not,
  inl, inr, if◌then◌else◌, arith,
}
use smart_router.Prelude.Exec.{
  Result, pure, ◌>>=◌, Ends, Ends-bind, Ensures-after, Ends-if, Ends-map,
}
use smart_router.Schemas.Message.{Text, Message}
use smart_router.Schemas.Routing.{RouteTier}
use smart_router.Schemas.Trace.{RequestTrace}
use smart_router.Tools.Commit.{CommitGate, CommitOutcome}
use smart_router.Verify.Ladder
use smart_router.Routing.World.{World, lift, Template, Router}
use smart_router.Routing.Escalation.{
  CallEnd, answered, unavailable, Answer, commit_text, answer_with, escalate,
}
use smart_router.Routing.Small.{
  Situation, Verified, small_call, attempts, verify_answer, verify_again, credit, reject,
  text_irreversible, cache_answer, keep_golden, accept, tool_failed, after_commit, execute, settle,
  after_attempts, try_small, context,
}
use smart_router.Routing.Router.Ways.{commit_text-Holds}
use smart_router.Cache.{ExactCache, cache_put}
use smart_router.Prelude.Exec.{Ends-both}
use smart_router.Routing.Quiet.{
  Keeps, lift-IsQuiet, commit_text-IsQuiet, call-IsQuiet, escalate-IsQuiet, credit-IsQuiet,
  keep_golden-IsQuiet, reject-IsQuiet, tool_failed-IsQuiet, attempts-IsQuiet, verify_answer-IsQuiet,
}

module _ {W F : Type 0} ⦃f : Float F⦄ (r : Router W F) (query : Text) (tenant : String) where
  -- The answer was put into the cache `c`, at a reading `now` of the clock: it is the small model's own
  -- output, and no irreversible tool call was made for it.
  pub record Stored (c : ExactCache F) (t : RequestTrace F) (w : World W F) : Type 0 where
    pub text : Text
    pub now : F
    pub output : t.final_output ≡ some (Message.plain text)
    pub stored : w.cache ≡ cache_put r.cache_digest query text tenant r.small.model_name now c
    pub unescalated : t.escalated ≡ false
    pub harmless : t.tool_committed && text_irreversible r text ≡ false

  abbrev pub CacheEnd : ExactCache F → RequestTrace F → World W F → Type 0
  CacheEnd c t w = (w.cache ≡ c) ⊎ Stored c t w

  -- `c` is kept where the action raises
  abbrev pub CacheEnds : ExactCache F → Result (RequestTrace F) × World W F → Type 0
  CacheEnds c = Ends (CacheEnd c) (λ w. w.cache ≡ c)

  pub quiet_end :
      (c : ExactCache F) (x : Result (RequestTrace F) × World W F) → Keeps c x → CacheEnds c x
  quiet_end c x h =
      Ends-map (λ _ w. w.cache ≡ c) (CacheEnd c) (λ w. w.cache ≡ c) x h (λ t w k. inl k)

module _ {W F : Type 0} ⦃f : Float F⦄ (c : ExactCache F) (r : Router W F) (s : Situation F) where
  abbrev pub SmallCache : Result (RequestTrace F) × World W F → Type 0
  SmallCache = CacheEnds r s.query s.tenant_id c

  -- after the cache is or is not written
  abbrev Written : Bool → Text → Unit {0} → World W F → Type 0
  Written b text u w =
      (w.cache ≡ c)
      ⊎ ((b ≡ true)
          × ((now : F) × (w.cache
                ≡ cache_put r.cache_digest s.query text s.tenant_id r.small.model_name now c)))

  cache_answer-Written :
      (text : Text) (b : Bool) (w : World W F)
      → b ≡ true
      → w.cache ≡ c
      → Ends (Written b text) (λ w'. w'.cache ≡ c) (cache_answer r s text w)
  unfolding cache_answer
  cache_answer-Written text b w e h =
      Ends-bind (λ _ w'. w'.cache ≡ c) (Written b text) (λ w'. w'.cache ≡ c) (lift r.monotonic) _ w
        (lift-IsQuiet c r.monotonic w h)
        (λ now w' k. inr (
          e,
          (now, ap (cache_put r.cache_digest s.query text s.tenant_id r.small.model_name now) k),
        ))

  accept-SmallCache :
      (t : RequestTrace F) (text : Text) (w : World W F)
      → t.escalated ≡ false
      → w.cache ≡ c
      → SmallCache (accept r s t text w)
  unfolding accept
  accept-SmallCache t text w e h =
      let b = not t.tool_committed || not (text_irreversible r text) in
      let P = CacheEnd r s.query s.tenant_id c in
      Ends-bind (λ _ w'. w'.cache ≡ c) P (λ w'. w'.cache ≡ c) (credit r.rule_store s.retrieved true)
        _ w (credit-IsQuiet c r.rule_store s.retrieved true w h)
        λ u w' h'.
          Ends-bind (λ _ w'. w'.cache ≡ c) P (λ w'. w'.cache ≡ c) (keep_golden r.reflexion s) _ w'
            (keep_golden-IsQuiet c r.reflexion s w' h')
            λ u' w'' h''.
              Ends-bind (Written b text) P (λ w'. w'.cache ≡ c)
                (if b then cache_answer r s text else pure tt) _ w''
                (Ends-if (Written b text) (λ w'. w'.cache ≡ c) b (cache_answer r s text) (pure tt)
                  w'' (λ yes. cache_answer-Written text b w'' yes h'') (λ no. inl h''))
                (λ u'' w''' k. ended t text w''' e k)
    where
      ended :
          (t : RequestTrace F) (text : Text) (w : World W F)
          → t.escalated ≡ false
          → Written (not t.tool_committed || not (text_irreversible r text)) text tt w
          → CacheEnd r s.query s.tenant_id c (answer_with t text) w
      ended t text w e (inl same) = inl same
      ended t text w e (inr (b, (now, put))) = inr (record {
        text = text;
        now = now;
        output = refl;
        stored = put;
        unescalated = e;
        harmless = ground arith;
      })

  settle_committed :
      (text : Text) (o : Option (CommitOutcome F)) (t : RequestTrace F) (w : World W F)
      → t.escalated ≡ false
      → w.cache ≡ c
      → SmallCache (after_commit r s text (o, t) w)
  unfolding after_commit
  settle_committed text none t w e h = accept-SmallCache t text w e h
  settle_committed text (some o) t w e h =
      Ends-if (CacheEnd r s.query s.tenant_id c) (λ w'. w'.cache ≡ c) o.committed _ _ w
        (λ _. accept-SmallCache t text w e h)
        (λ _.
          quiet_end r s.query s.tenant_id c (tool_failed r s t text o o.category w)
            (tool_failed-IsQuiet c r s t text o o.category w h))

  execute-SmallCache :
      (v : Verified F) (g : Option (CommitGate W F)) (w : World W F)
      → v.trace.escalated ≡ false
      → w.cache ≡ c
      → SmallCache (execute r s v g w)
  unfolding execute
  execute-SmallCache v none w e h = accept-SmallCache v.trace v.text w e h
  execute-SmallCache v (some g) w e h =
      Ends-bind (λ x w'. (w'.cache ≡ c) × (x.1.escalated ≡ false))
        (CacheEnd r s.query s.tenant_id c) (λ w'. w'.cache ≡ c)
        (commit_text r g v.trace v.text s.rid) (after_commit r s v.text) w
        (Ends-both (λ _ w'. w'.cache ≡ c) (λ x _. x.1.escalated ≡ false) (λ w'. w'.cache ≡ c)
          (commit_text r g v.trace v.text s.rid w)
          (commit_text-IsQuiet c r g v.trace v.text s.rid w h)
          (commit_text-Holds (λ cs d b. b ≡ false) r g v.trace v.text s.rid w e))
        (λ x w' k. settle_committed v.text x.0 x.1 w' k.1 k.0)

  settle-SmallCache :
      (v : Verified F) (w : World W F)
      → v.trace.escalated ≡ false
      → w.cache ≡ c
      → SmallCache (settle r s v w)
  unfolding settle
  settle-SmallCache v w e h =
      Ends-if (CacheEnd r s.query s.tenant_id c) (λ w'. w'.cache ≡ c)
        (v.outcome.escalate || v.outcome.retry_small) _ _ w
        (λ _. quiet_end r s.query s.tenant_id c (reject r s v w) (reject-IsQuiet c r s v w h))
        (λ _. execute-SmallCache v r.commit_gate w e h)

  -- a verdict in a trace that has not escalated, over the cache
  abbrev Judged : Verified F → World W F → Type 0
  Judged v w = (w.cache ≡ c) × (v.trace.escalated ≡ false)

  verify_answer-Judged :
      (t : RequestTrace F) (a : Answer F) (w : World W F)
      → t.escalated ≡ false
      → w.cache ≡ c
      → Ends Judged (λ w'. w'.cache ≡ c) (verify_answer r s t a w)
  unfolding verify_answer
  verify_answer-Judged t a w e h =
      Ends-both (λ _ w'. w'.cache ≡ c) (λ v _. v.trace.escalated ≡ false) (λ w'. w'.cache ≡ c)
        (verify_answer r s t a w) (verify_answer-IsQuiet c r s t a w h)
        (Ensures-after (λ (v : Verified F) _. v.trace.escalated ≡ false)
          (lift (
            Ladder.run r.ladder s.rid (context s a) s.policy.risk_class
              (some s.policy.cost_of_being_wrong_usd)))
          _ w (λ o w'. e))

  verify_again-Judged :
      (v : Verified F) (w : World W F)
      → v.trace.escalated ≡ false
      → w.cache ≡ c
      → Ends Judged (λ w'. w'.cache ≡ c) (verify_again r s v w)
  unfolding verify_again
  verify_again-Judged v w e h =
      Ends-if Judged (λ w'. w'.cache ≡ c) (v.outcome.retry_small && not v.trace.small_retried) _ _ w
        (λ _.
          Ends-bind (λ _ w'. w'.cache ≡ c) Judged (λ w'. w'.cache ≡ c) (small_call r s) _ w
            (call-IsQuiet c r r.small s.sent RouteTier.small w h)
            (λ a w' h'. verify_answer-Judged (record v.trace { small_retried = true }) a w' e h'))
        (λ _. (h, e))

  after_attempts-SmallCache :
      (t : RequestTrace F) (b : Bool) (x : CallEnd (Answer F)) (w : World W F)
      → t.escalated ≡ false
      → w.cache ≡ c
      → SmallCache (after_attempts r s t (b, x) w)
  unfolding after_attempts
  after_attempts-SmallCache t b (unavailable k m) w e h =
      quiet_end r s.query s.tenant_id c
        (escalate r (record t { small_retried = b }) s.sent [] k (some (Message.plain m))
          Template.verifier_template w)
        (escalate-IsQuiet c r (record t { small_retried = b }) s.sent [] k (some (Message.plain m))
          Template.verifier_template w h)
  after_attempts-SmallCache t b (answered a) w e h =
      Ends-bind Judged (CacheEnd r s.query s.tenant_id c) (λ w'. w'.cache ≡ c)
        (verify_answer r s (record t { small_retried = b }) a >>= verify_again r s) (settle r s) w
        (Ends-bind Judged Judged (λ w'. w'.cache ≡ c)
          (verify_answer r s (record t { small_retried = b }) a) (verify_again r s) w
          (verify_answer-Judged (record t { small_retried = b }) a w e h)
          (λ v w' k. verify_again-Judged v w' k.1 k.0))
        (λ v w' k. settle-SmallCache v w' k.1 k.0)

  pub try_small-SmallCache :
      (t : RequestTrace F) (w : World W F)
      → t.escalated ≡ false
      → w.cache ≡ c
      → SmallCache (try_small r s t w)
  unfolding try_small
  try_small-SmallCache t w e h =
      Ends-bind (λ _ w'. w'.cache ≡ c) (CacheEnd r s.query s.tenant_id c) (λ w'. w'.cache ≡ c)
        (attempts r s) (after_attempts r s t) w (attempts-IsQuiet c r s w h)
        (λ x w' h'. after_attempts-SmallCache t x.0 x.1 w' e h')
