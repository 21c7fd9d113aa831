-- ===== src/Routing/Quiet.antt =====
-- routing/router.py: the steps of a request that leave the router's cache as it is.
use smart_router.Prelude.{
  Bool, true, false, not, ◌&&◌, Option, none, some, List, [], ◌∷◌, ◌++◌, String, ◌≡◌, Float,
  Option-cases, inl, inr, if◌then◌else◌,
}
use smart_router.Prelude.Exec.{Exec, Exception, Result, ok, raised, ◌>>=◌, Ends, Ends-bind}
use smart_router.Schemas.Message.{Text, Message, FailureCategory}
use smart_router.Schemas.Verification.{first_failing}
use smart_router.Schemas.Routing.{RouteTier}
use smart_router.Schemas.Trace.{RequestTrace, add_call}
use smart_router.Gateway.Base.{ModelResponse}
use smart_router.Gateway.ModelConfig.{ModelSettings, settings_for}
use smart_router.Cache.{ExactCache}
use smart_router.Prompt.{Injectable}
use smart_router.Tools.Commit.{CommitGate, CommitOutcome, commit, escalates}
use smart_router.Tools.Proposal.{ToolProposal, propose}
use smart_router.Verify.Ladder
use smart_router.Routing.World.{
  World, lift, Template, Sent, ModelClient, Retrieved, FailureRecord, Reflexion, Router,
}
use smart_router.Routing.Escalation.{
  CallEnd, answered, unavailable, try_provider, provider_caught, Answer, schema_for, priced, call,
  failure_text, record_tool, commit_text, surface, after_frontier, finish_with, escalated,
  keep_exemplar, escalate, escalation_message,
}
use smart_router.Routing.Small.{
  Situation, Verified, small_call, second_attempt, attempts, verify_answer, verify_again,
  credit_all, credit, loggable, log_failure, reject, keep_golden, tool_failed, category_or_semantic,
  detail_of, context,
}

module _ {W F A : Type 0} (c : ExactCache F) where
  -- the cache is `c`, whether the action returned or raised
  abbrev pub Keeps : Result A × World W F → Type 0
  Keeps = Ends (λ _ w. w.cache ≡ c) (λ w. w.cache ≡ c)

  -- an action that leaves the cache `c` as it is
  abbrev pub IsQuiet : Exec (World W F) A → Type 0
  IsQuiet m = (w : World W F) → w.cache ≡ c → Keeps (m w)

  pub lift-IsQuiet : (m : Exec W A) → IsQuiet (lift m)
  unfolding lift
  lift-IsQuiet m w h = lifted (m w.outside)
    where
      lifted : (r : Result A × W) → Keeps (r.0, record w { outside = r.1 })
      lifted (ok a, x) = h
      lifted (raised e, x) = h

  pub if-IsQuiet :
      (b : Bool) (m n : Exec (World W F) A) → IsQuiet m → IsQuiet n → IsQuiet (if b then m else n)
  if-IsQuiet true m n hm hn = hm
  if-IsQuiet false m n hm hn = hn

module _ {W F A : Type 0} (c : ExactCache F) where
  provider_caught-Keeps : (r : Result A × World W F) → Keeps c r → Keeps c (provider_caught r.0 r.1)
  provider_caught-Keeps (ok a, w) h = h
  provider_caught-Keeps (raised (Exception.provider_timeout m), w) h = h
  provider_caught-Keeps (raised (Exception.provider_fault m), w) h = h
  provider_caught-Keeps (raised (Exception.value_error m), w) h = h
  provider_caught-Keeps (raised (Exception.key_error m), w) h = h
  provider_caught-Keeps (raised (Exception.runtime_error m), w) h = h
  provider_caught-Keeps (raised (Exception.attribute_error m), w) h = h
  provider_caught-Keeps (raised (Exception.type_error m), w) h = h
  provider_caught-Keeps (raised (Exception.index_error m), w) h = h
  provider_caught-Keeps (raised (Exception.tool_transient m), w) h = h
  provider_caught-Keeps (raised (Exception.tool_semantic m), w) h = h
  provider_caught-Keeps (raised (Exception.tool_auth m), w) h = h
  provider_caught-Keeps (raised (Exception.tool_not_found m), w) h = h
  provider_caught-Keeps (raised (Exception.tool_other m), w) h = h

  pub try_provider-IsQuiet : (m : Exec (World W F) A) → IsQuiet c m → IsQuiet c (try_provider m)
  unfolding try_provider
  try_provider-IsQuiet m k w h = provider_caught-Keeps (m w) (k w h)

module _ {W F A B : Type 0} (c : ExactCache F) where
  pub bind-IsQuiet :
      (m : Exec (World W F) A) (g : A → Exec (World W F) B)
      → IsQuiet c m
      → ((a : A) → IsQuiet c (g a))
      → IsQuiet c (m >>= g)
  bind-IsQuiet m g hm hg w h =
      Ends-bind (λ _ w'. w'.cache ≡ c) (λ _ w'. w'.cache ≡ c) (λ w'. w'.cache ≡ c) m g w (hm w h)
        (λ a w' h'. hg a w' h')

module _ {W F : Type 0} (c : ExactCache F) where
  failure_text-IsQuiet :
      (o : Option FailureCategory) (d : Message F) → IsQuiet {W = W} c (failure_text o d)
  failure_text-IsQuiet none d = λ w h. h
  failure_text-IsQuiet (some x) d = λ w h. h

  pub surface-IsQuiet : (t : RequestTrace F) (o : CommitOutcome F) → IsQuiet {W = W} c (surface t o)
  unfolding surface
  surface-IsQuiet t o = bind-IsQuiet c _ _ (failure_text-IsQuiet o.category o.detail) (λ m w h. h)

  record_tool-IsQuiet :
      (t : RequestTrace F) (p : ToolProposal F) (o : CommitOutcome F)
      → IsQuiet {W = W} c (record_tool t p o)
  unfolding record_tool
  record_tool-IsQuiet t p o =
      if-IsQuiet c o.committed _ _ (λ w h. h)
        (bind-IsQuiet c _ _ (failure_text-IsQuiet o.category o.detail) (λ m w h. h))

  pub commit_text-IsQuiet :
      (r : Router W F) (g : CommitGate W F) (t : RequestTrace F) (text : Text) (rid : String)
      → IsQuiet c (commit_text r g t text rid)
  unfolding commit_text
  commit_text-IsQuiet r g t text rid w h =
      elim (Option-cases (propose r.runtime g.registry (some rid) text)) [
        | inl e ↦ rw (e, commit_text) h
        | inr (p, e) ↦
            rw (e, commit_text)
              (bind-IsQuiet c (lift (commit g p false none)) _
                (lift-IsQuiet c (commit g p false none))
                (λ o.
                  bind-IsQuiet c (record_tool t p o) _ (record_tool-IsQuiet t p o) (λ t' w h. h))
                w h)
      ]

  after_frontier-IsQuiet :
      (t : RequestTrace F) (text : Text) (o : Option (CommitOutcome F))
      → IsQuiet {W = W} c (after_frontier t text o)
  unfolding after_frontier
  after_frontier-IsQuiet t text none = λ w h. h
  after_frontier-IsQuiet t text (some o) =
      if-IsQuiet c o.committed _ _ (λ w h. h) (surface-IsQuiet t o)

  pub finish-IsQuiet :
      (r : Router W F) (t : RequestTrace F) (text : Text) (g : Option (CommitGate W F))
      → IsQuiet c (finish_with r t text g)
  unfolding finish_with
  finish-IsQuiet r t text none = λ w h. h
  finish-IsQuiet r t text (some g) =
      bind-IsQuiet c (commit_text r g t text t.request_id) _
        (commit_text-IsQuiet r g t text t.request_id) (λ x. after_frontier-IsQuiet x.1 text x.0)

  keep_exemplar-IsQuiet :
      (m : Option (Reflexion W F)) (t : RequestTrace F) (text : Text)
      → IsQuiet c (keep_exemplar m t text)
  unfolding keep_exemplar
  keep_exemplar-IsQuiet none t text = λ w h. h
  keep_exemplar-IsQuiet (some m) t text =
      if-IsQuiet c t.surfaced_to_human _ _ (λ w h. h)
        (lift-IsQuiet c (m.record_exemplar t.query text t.tenant_id t.request_id))

module _ {W F : Type 0} ⦃f : Float F⦄ (c : ExactCache F) where
  priced-IsQuiet :
      (k : ModelClient W F) (tier : RouteTier) (resp : ModelResponse F)
      (o : Option (ModelSettings F))
      → IsQuiet c (priced k tier resp o)
  unfolding priced
  priced-IsQuiet k tier resp none = λ w h. h
  priced-IsQuiet k tier resp (some s) = λ w h. h

  pub call-IsQuiet :
      (r : Router W F) (k : ModelClient W F) (sent : List (Sent F)) (tier : RouteTier)
      → IsQuiet c (call r k sent tier)
  unfolding call
  call-IsQuiet r k sent tier =
      bind-IsQuiet c (lift (k.complete sent (schema_for r k))) _ (lift-IsQuiet c _)
        (λ resp. priced-IsQuiet k tier resp (settings_for k.model_name r.models))

  pub escalate-IsQuiet :
      (r : Router W F) (t : RequestTrace F) (sent : List (Sent F)) (rejected : Text)
      (x : FailureCategory) (detail : Option (Message F)) (template : Template)
      → IsQuiet c (escalate r t sent rejected x detail template)
  unfolding escalate
  escalate-IsQuiet r t sent rejected x detail template =
      bind-IsQuiet c
        (call r r.frontier (sent ++ (escalation_message template rejected x detail ∷ []))
          RouteTier.frontier)
        _ (call-IsQuiet r r.frontier _ RouteTier.frontier)
        λ a.
          bind-IsQuiet c (finish_with r (add_call (escalated r t) a.call) a.text r.commit_gate) _
            (finish-IsQuiet c r _ a.text r.commit_gate)
            λ t'.
              bind-IsQuiet c (keep_exemplar r.reflexion t' a.text) _
                (keep_exemplar-IsQuiet c r.reflexion t' a.text) (λ u w h. h)

  credit_all-IsQuiet :
      (k : String → Bool → Bool → Exec W Unit) (b : Bool) (xs : List Injectable)
      → IsQuiet c (credit_all k b xs)
  unfolding credit_all
  credit_all-IsQuiet k b [] = λ w h. h
  credit_all-IsQuiet k b (x ∷ xs) =
      bind-IsQuiet c (lift (k x.rule_id b true)) _ (lift-IsQuiet c _)
        (λ u. credit_all-IsQuiet k b xs)

  pub credit-IsQuiet :
      (k : Option (String → Bool → Bool → Exec W Unit)) (found : Option Retrieved) (b : Bool)
      → IsQuiet c (credit k found b)
  unfolding credit
  credit-IsQuiet none none b = λ w h. h
  credit-IsQuiet none (some xs) b = λ w h. h
  credit-IsQuiet (some k) none b = λ w h. h
  credit-IsQuiet (some k) (some xs) b = credit_all-IsQuiet k b xs

  pub log_failure-IsQuiet :
      (k : Option (FailureRecord F → Exec W Unit)) (x : Option (FailureRecord F))
      → IsQuiet c (log_failure k x)
  unfolding log_failure
  log_failure-IsQuiet none none = λ w h. h
  log_failure-IsQuiet none (some x) = λ w h. h
  log_failure-IsQuiet (some k) none = λ w h. h
  log_failure-IsQuiet (some k) (some x) = lift-IsQuiet c (k x)

  pub keep_golden-IsQuiet :
      (m : Option (Reflexion W F)) (s : Situation F) → IsQuiet c (keep_golden m s)
  unfolding keep_golden
  keep_golden-IsQuiet none s = λ w h. h
  keep_golden-IsQuiet (some m) s = lift-IsQuiet c (m.record_success s.query s.tenant_id)

  pub reject-IsQuiet :
      (r : Router W F) (s : Situation F) (v : Verified F) → IsQuiet c (reject r s v)
  unfolding reject
  reject-IsQuiet r s v =
      bind-IsQuiet c (credit r.rule_store s.retrieved false) _
        (credit-IsQuiet r.rule_store s.retrieved false)
        λ u.
          bind-IsQuiet c
            (log_failure r.failure_log
              (loggable r s v.trace v.text (first_failing v.outcome.results) none none))
            _ (log_failure-IsQuiet r.failure_log _)
            λ u'.
              escalate-IsQuiet r v.trace s.sent v.text
                (category_or_semantic v.outcome.first_failure)
                (detail_of (first_failing v.outcome.results)) Template.verifier_template

  pub tool_failed-IsQuiet :
      (r : Router W F) (s : Situation F) (t : RequestTrace F) (text : Text) (o : CommitOutcome F)
      (x : Option FailureCategory)
      → IsQuiet c (tool_failed r s t text o x)
  unfolding tool_failed
  tool_failed-IsQuiet r s t text o none = surface-IsQuiet c t o
  tool_failed-IsQuiet r s t text o (some x) =
      if-IsQuiet c (escalates (some x)) _ _
        (bind-IsQuiet c (credit r.rule_store s.retrieved false) _
          (credit-IsQuiet r.rule_store s.retrieved false)
          λ u.
            bind-IsQuiet c
              (log_failure r.failure_log (loggable r s t text none (some x) (some o.detail))) _
              (log_failure-IsQuiet r.failure_log _)
              λ u'. escalate-IsQuiet r t s.sent text x (some o.detail) Template.tool_template)
        (surface-IsQuiet c t o)

  second_attempt-IsQuiet :
      (r : Router W F) (s : Situation F) (e : CallEnd (Answer F)) → IsQuiet c (second_attempt r s e)
  unfolding second_attempt
  second_attempt-IsQuiet r s (answered a) = λ w h. h
  second_attempt-IsQuiet r s (unavailable x m) =
      bind-IsQuiet c (try_provider (small_call r s)) _
        (try_provider-IsQuiet c (small_call r s) (call-IsQuiet r r.small s.sent RouteTier.small))
        (λ a w h. h)

  pub attempts-IsQuiet : (r : Router W F) (s : Situation F) → IsQuiet c (attempts r s)
  unfolding attempts
  attempts-IsQuiet r s =
      bind-IsQuiet c (try_provider (small_call r s)) (second_attempt r s)
        (try_provider-IsQuiet c (small_call r s) (call-IsQuiet r r.small s.sent RouteTier.small))
        (second_attempt-IsQuiet r s)

  pub verify_answer-IsQuiet :
      (r : Router W F) (s : Situation F) (t : RequestTrace F) (a : Answer F)
      → IsQuiet c (verify_answer r s t a)
  unfolding verify_answer
  verify_answer-IsQuiet r s t a =
      bind-IsQuiet c
        (lift (
          Ladder.run r.ladder s.rid (context s a) s.policy.risk_class
            (some s.policy.cost_of_being_wrong_usd)))
        _
        (lift-IsQuiet c (
          Ladder.run r.ladder s.rid (context s a) s.policy.risk_class
            (some s.policy.cost_of_being_wrong_usd)))
        (λ o w h. h)

  pub verify_again-IsQuiet :
      (r : Router W F) (s : Situation F) (v : Verified F) → IsQuiet c (verify_again r s v)
  unfolding verify_again
  verify_again-IsQuiet r s v =
      if-IsQuiet c (v.outcome.retry_small && not v.trace.small_retried) _ _
        (bind-IsQuiet c (small_call r s) _ (call-IsQuiet r r.small s.sent RouteTier.small)
          (λ a. verify_answer-IsQuiet r s (record v.trace { small_retried = true }) a))
        (λ w h. h)
