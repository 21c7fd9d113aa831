-- ===== src/Routing/Router/SmallPath.antt =====
-- routing/router.py, `route`: the way of a request that is tried on the small model.
use smart_router.Prelude.{
  ℕ, Bool, true, false, Option, none, some, List, [], ◌≡◌, sym, subst, Float, ◌+◌, ◌&&◌, ◌||◌, not,
  inl, inr, arith,
}
use smart_router.Prelude.Exec.{◌>>=◌, Ensures, NoClaim, Ends-bind, Ensures-after, Ends-if, Ends-map}
use smart_router.Schemas.Message.{Text, Message, FailureCategory}
use smart_router.Schemas.Verification.{first_failing}
use smart_router.Schemas.Routing.{RouteTier, RouteReason}
use smart_router.Schemas.Trace.{ModelCall, RequestTrace}
use smart_router.Tools.Commit.{CommitGate, CommitOutcome, escalates}
use smart_router.Verify.Ladder
use smart_router.Routing.World.{World, lift, Template, Sent, Router}
use smart_router.Routing.Escalation.{CallEnd, answered, unavailable, Answer, commit_text, escalate}
use smart_router.Routing.Small.{
  Situation, Verified, small_call, attempts, verify_answer, verify_again, credit, loggable,
  log_failure, reject, keep_golden, accept, tool_failed, after_commit, execute, settle,
  after_attempts, try_small, category_or_semantic, detail_of, context,
}
use smart_router.Routing.Router.Ways.{
  PathProperty, Holds, Done, answer_with-Done, surface-Done, commit_text-Holds, SmallCalls,
  Escalated, OnSmallPath, Done-map, SmallCalls-le, add_call-SmallCalls,
}
use smart_router.Routing.Router.Attempts.{
  EndsSmall, Trying, IsAnswer, call-IsAnswer, attempts-EndsSmall, escalate-Done,
}

module _ {F : Type 0} where
  Trying-le : (t : RequestTrace F) → Trying 1 t → Trying 2 t
  Trying-le t h = record {
    calls = SmallCalls-le 1 2 t.calls (omega arith) h.calls;
    tier = h.tier;
    reason = h.reason;
    escalation = h.escalation;
  }

  stayed : (t : RequestTrace F) → Trying 2 t → Holds OnSmallPath t
  stayed t h =
      inl (record { calls = h.calls; tier = h.tier; reason = h.reason; escalation = h.escalation })

  -- the properties of a trace that `_commit` keeps, for a trace that is being tried
  abbrev pub Tried : PathProperty F
  Tried cs d e =
      SmallCalls 2 cs
      × (d.tier ≡ RouteTier.small)
      × (d.reason ≡ RouteReason.optimistic)
      × (e ≡ false)

  pub tried : (t : RequestTrace F) → Holds Tried t → Trying 2 t
  tried t h = record { calls = h.0; tier = h.1; reason = h.2; escalation = h.3 }

  -- a trace with no call yet, of an optimistic decision
  pub record IsFresh (t : RequestTrace F) : Type 0 where
    pub calls : t.calls ≡ []
    pub tier : t.decision.tier ≡ RouteTier.small
    pub reason : t.decision.reason ≡ RouteReason.optimistic
    pub escalation : t.escalated ≡ false

  pub no_calls : (n : ℕ) (cs : List (ModelCall F)) → cs ≡ [] → SmallCalls n cs
  no_calls n cs e = subst (SmallCalls n) (sym e) (record { bound = omega arith; tiers = tt })

module _ {W F : Type 0} ⦃f : Float F⦄ where
  abbrev pub TryingAfter : ℕ → Verified F → World W F → Type 0
  TryingAfter n v w = Trying n v.trace

  abbrev SmallEnd : RequestTrace F → World W F → Type 0
  SmallEnd t w = Done OnSmallPath t

  pub verify_answer-Trying :
      (n : ℕ) (r : Router W F) (s : Situation F) (t : RequestTrace F) (a : Answer F) (w : World W F)
      → Trying n t
      → a.call.tier ≡ RouteTier.small
      → Ensures (TryingAfter (n + 1)) (verify_answer r s t a w)
  unfolding verify_answer
  verify_answer-Trying n r s t a w h e =
      Ensures-after (TryingAfter (n + 1))
        (lift (
          Ladder.run r.ladder s.rid (context s a) s.policy.risk_class
            (some s.policy.cost_of_being_wrong_usd)))
        _ w
        (λ o w'. record {
          calls = add_call-SmallCalls n t.calls a.call h.calls e;
          tier = h.tier;
          reason = h.reason;
          escalation = h.escalation;
        })

  pub verify_again-Trying :
      (r : Router W F) (s : Situation F) (v : Verified F) (w : World W F)
      → Trying 1 v.trace
      → Ensures (TryingAfter 2) (verify_again r s v w)
  unfolding verify_again
  verify_again-Trying r s v w h =
      Ends-if (TryingAfter 2) NoClaim (v.outcome.retry_small && not v.trace.small_retried) _ _ w
        (λ _.
          Ends-bind (IsAnswer RouteTier.small) (TryingAfter 2) NoClaim (small_call r s) _ w
            (call-IsAnswer r r.small s.sent RouteTier.small w)
            (λ a w' e.
              verify_answer-Trying 1 r s (record v.trace { small_retried = true }) a w'
                (record {
                  calls = h.calls;
                  tier = h.tier;
                  reason = h.reason;
                  escalation = h.escalation;
                })
                e))
        (λ _. Trying-le v.trace h)

  escalate-SmallEnd :
      (r : Router W F) (t : RequestTrace F) (sent : List (Sent F)) (rejected : Text)
      (c : FailureCategory) (detail : Option (Message F)) (template : Template) (w : World W F)
      → SmallCalls 2 t.calls
      → Ensures SmallEnd (escalate r t sent rejected c detail template w)
  escalate-SmallEnd r t sent rejected c detail template w h =
      Ends-map (λ t' _. Done Escalated t') SmallEnd NoClaim
        (escalate r t sent rejected c detail template w)
        (escalate-Done r t sent rejected c detail template w h)
        (λ t' w' d. Done-map Escalated OnSmallPath t' (λ cs x e p. inr p) d)

  reject-SmallEnd :
      (r : Router W F) (s : Situation F) (v : Verified F) (w : World W F)
      → Trying 2 v.trace
      → Ensures SmallEnd (reject r s v w)
  unfolding reject
  reject-SmallEnd r s v w h =
      Ensures-after SmallEnd (credit r.rule_store s.retrieved false) _ w λ u w'.
        Ensures-after SmallEnd
          (log_failure r.failure_log
            (loggable r s v.trace v.text (first_failing v.outcome.results) none none))
          _ w'
          λ u' w''.
            escalate-SmallEnd r v.trace s.sent v.text (category_or_semantic v.outcome.first_failure)
              (detail_of (first_failing v.outcome.results)) Template.verifier_template w'' h.calls

  accept-SmallEnd :
      (r : Router W F) (s : Situation F) (t : RequestTrace F) (text : Text) (w : World W F)
      → Trying 2 t
      → Ensures SmallEnd (accept r s t text w)
  unfolding accept
  accept-SmallEnd r s t text w h =
      Ensures-after SmallEnd (credit r.rule_store s.retrieved true) _ w λ u w'.
        Ensures-after SmallEnd (keep_golden r.reflexion s) _ w' λ u' w''.
          Ensures-after SmallEnd _ _ w''
            λ u'' w'''. answer_with-Done OnSmallPath t text (stayed t h)

  tool_failed-SmallEnd :
      (r : Router W F) (s : Situation F) (t : RequestTrace F) (text : Text) (o : CommitOutcome F)
      (c : Option FailureCategory) (w : World W F)
      → Trying 2 t
      → Ensures SmallEnd (tool_failed r s t text o c w)
  unfolding tool_failed
  tool_failed-SmallEnd r s t text o none w h = surface-Done OnSmallPath t o w (stayed t h)
  tool_failed-SmallEnd r s t text o (some c) w h =
      Ends-if SmallEnd NoClaim (escalates (some c)) _ _ w
        (λ _. Ensures-after SmallEnd (credit r.rule_store s.retrieved false) _ w λ u w'.
          Ensures-after SmallEnd
            (log_failure r.failure_log (loggable r s t text none (some c) (some o.detail))) _ w'
            λ u' w''.
              escalate-SmallEnd r t s.sent text c (some o.detail) Template.tool_template w''
                h.calls)
        (λ _. surface-Done OnSmallPath t o w (stayed t h))

  after_commit-SmallEnd :
      (r : Router W F) (s : Situation F) (text : Text) (o : Option (CommitOutcome F))
      (t : RequestTrace F) (w : World W F)
      → Trying 2 t
      → Ensures SmallEnd (after_commit r s text (o, t) w)
  unfolding after_commit
  after_commit-SmallEnd r s text none t w h = accept-SmallEnd r s t text w h
  after_commit-SmallEnd r s text (some o) t w h =
      Ends-if SmallEnd NoClaim o.committed _ _ w (λ _. accept-SmallEnd r s t text w h)
        (λ _. tool_failed-SmallEnd r s t text o o.category w h)

  execute-SmallEnd :
      (r : Router W F) (s : Situation F) (v : Verified F) (g : Option (CommitGate W F))
      (w : World W F)
      → Trying 2 v.trace
      → Ensures SmallEnd (execute r s v g w)
  unfolding execute
  execute-SmallEnd r s v none w h = accept-SmallEnd r s v.trace v.text w h
  execute-SmallEnd r s v (some g) w h =
      Ends-bind (λ c _. Holds Tried c.1) SmallEnd NoClaim (commit_text r g v.trace v.text s.rid) _ w
        (commit_text-Holds Tried r g v.trace v.text s.rid w
          (h.calls, h.tier, h.reason, h.escalation))
        (λ c w' k. after_commit-SmallEnd r s v.text c.0 c.1 w' (tried c.1 k))

  settle-SmallEnd :
      (r : Router W F) (s : Situation F) (v : Verified F) (w : World W F)
      → Trying 2 v.trace
      → Ensures SmallEnd (settle r s v w)
  unfolding settle
  settle-SmallEnd r s v w h =
      Ends-if SmallEnd NoClaim (v.outcome.escalate || v.outcome.retry_small) _ _ w
        (λ _. reject-SmallEnd r s v w h) (λ _. execute-SmallEnd r s v r.commit_gate w h)

  after_attempts-SmallEnd :
      (r : Router W F) (s : Situation F) (t : RequestTrace F) (b : Bool) (e : CallEnd (Answer F))
      (w : World W F)
      → IsFresh t
      → EndsSmall e
      → Ensures SmallEnd (after_attempts r s t (b, e) w)
  unfolding after_attempts
  after_attempts-SmallEnd r s t b (unavailable c m) w h e =
      escalate-SmallEnd r (record t { small_retried = b }) s.sent [] c (some (Message.plain m))
        Template.verifier_template w (no_calls 2 t.calls h.calls)
  after_attempts-SmallEnd r s t b (answered a) w h e =
      Ends-bind (TryingAfter 2) SmallEnd NoClaim
        (verify_answer r s (record t { small_retried = b }) a >>= verify_again r s) (settle r s) w
        (Ends-bind (TryingAfter 1) (TryingAfter 2) NoClaim
          (verify_answer r s (record t { small_retried = b }) a) (verify_again r s) w
          (verify_answer-Trying 0 r s (record t { small_retried = b }) a w
            (record {
              calls = no_calls 0 t.calls h.calls;
              tier = h.tier;
              reason = h.reason;
              escalation = h.escalation;
            })
            e)
          (λ v w' k. verify_again-Trying r s v w' k))
        (λ v w' k. settle-SmallEnd r s v w' k)

  pub try_small-SmallEnd :
      (r : Router W F) (s : Situation F) (t : RequestTrace F) (w : World W F)
      → IsFresh t
      → Ensures SmallEnd (try_small r s t w)
  unfolding try_small
  try_small-SmallEnd r s t w h =
      Ends-bind (λ x _. EndsSmall x.1) SmallEnd NoClaim (attempts r s) (after_attempts r s t) w
        (attempts-EndsSmall r s w) (λ x w' e. after_attempts-SmallEnd r s t x.0 x.1 w' h e)
