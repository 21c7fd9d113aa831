-- ===== src/Routing/Router/Tries.antt =====
-- routing/router.py, `route`: how often the small model is called for a request, calls that fail
-- included.
use smart_router.Prelude.{
  Bool, true, false, not, ◌&&◌, ◌||◌, Option, none, some, List, [], ◌∷◌, ◌++◌, ◌≡◌, refl, ◌∙◌, ap,
  sym, Float, if◌then◌else◌,
}
use smart_router.Prelude.Exec.{Exec, pure, bind-same, bind_assoc, ◌>>=◌}
use smart_router.Schemas.Message.{Text, Message, FailureCategory}
use smart_router.Schemas.Verification.{first_failing}
use smart_router.Schemas.Routing.{RouteTier}
use smart_router.Schemas.Trace.{RequestTrace, add_call}
use smart_router.Gateway.Base.{ModelResponse}
use smart_router.Tools.Json.{Json}
use smart_router.Tools.Commit.{CommitGate, CommitOutcome, escalates}
use smart_router.Verify.Ladder
use smart_router.Routing.World.{World, lift, Template, Sent, Router}
use smart_router.Routing.Escalation.{
  CallEnd, answered, unavailable, try_provider, Answer, call, commit_text, escalated, keep_exemplar,
  escalate, escalation_message,
}
use smart_router.Routing.Small.{
  Situation, Verified, small_call, second_attempt, attempts, verify_answer, verify_again, credit,
  failure_record, loggable, log_failure, reject, cache_answer, text_irreversible, accept,
  tool_failed, after_commit, execute, settle, after_attempts, try_small, category_or_semantic,
  detail_of, context,
}
use smart_router.Routing.Router.Isolation.{forced_finish}

-- `complete` of a client
abbrev pub Complete : Type 0 → Type 0 → Type 0
Complete W F = List (Sent F) → Option (Json F) → Exec W (ModelResponse F)

module _ {W F : Type 0} where
  -- another client answers for the small model
  abbrev pub standing_in : Router W F → Complete W F → Router W F
  standing_in r c = record r { small = record r.small { complete = c } }

module _ {W F : Type 0} ⦃f : Float F⦄ (r idle : Router W F) where
  -- the answer of one more call, if a verifier asks for it and there was none
  abbrev pub second_verdict : Situation F → Verified F → Exec (World W F) (Verified F)
  second_verdict s v =
      if v.outcome.retry_small && not v.trace.small_retried
      then (do a ← small_call r s; verify_answer idle s (record v.trace { small_retried = true }) a)
      else pure v

  abbrev pub after_first :
      Situation F → RequestTrace F → CallEnd (Answer F) → Exec (World W F) (RequestTrace F)
  after_first s t (answered a) =
      verify_answer idle s (record t { small_retried = false }) a
      >>= second_verdict s
      >>= settle idle s
  after_first s t (unavailable c m) =
      try_provider (small_call r s) >>= λ e. after_attempts idle s t (true, e)

  -- `try_small` with each call of the small model written out: after the first there is either a
  -- second because it failed, or one because a verifier asks for it. All else is of the router `idle`.
  abbrev pub two_tries : Situation F → RequestTrace F → Exec (World W F) (RequestTrace F)
  two_tries s t = try_provider (small_call r s) >>= after_first s t

module _ {W F : Type 0} ⦃f : Float F⦄ (r : Router W F) (c : Complete W F) where
  abbrev other : Router W F
  other = standing_in r c

  escalate-other :
      (t : RequestTrace F) (sent : List (Sent F)) (rejected : Text) (k : FailureCategory)
      (detail : Option (Message F)) (template : Template) (w : World W F)
      → escalate other t sent rejected k detail template w
        ≡ escalate r t sent rejected k detail template w
  unfolding escalate call escalated ◌>>=◌
  escalate-other t sent rejected k detail template w =
      bind-same
        (call r r.frontier (sent ++ (escalation_message template rejected k detail ∷ []))
          RouteTier.frontier)
        _ _ w
        λ a w'.
          ap (λ x. ((λ _. x) >>= λ t'. keep_exemplar r.reflexion t' a.text >>= λ _. pure t') w')
            (forced_finish r (record r.small { complete = c }) (add_call (escalated r t) a.call)
              a.text r.commit_gate w')

  same_if :
      {A : Type 0} (b : Bool) (m n m' n' : Exec (World W F) A) (w : World W F)
      → m w ≡ m' w
      → n w ≡ n' w
      → (if b then m else n) w ≡ (if b then m' else n') w
  same_if true m n m' n' w h k = h
  same_if false m n m' n' w h k = k

  reject-other :
      (s : Situation F) (v : Verified F) (w : World W F) → reject other s v w ≡ reject r s v w
  unfolding reject loggable failure_record
  reject-other s v w = bind-same (credit r.rule_store s.retrieved false) _ _ w λ u w'.
      bind-same (log_failure r.failure_log _) _ _ w' λ u' w''.
        escalate-other v.trace s.sent v.text (category_or_semantic v.outcome.first_failure)
          (detail_of (first_failing v.outcome.results)) Template.verifier_template w''

  accept-other :
      (s : Situation F) (t : RequestTrace F) (text : Text) (w : World W F)
      → accept other s t text w ≡ accept r s t text w
  unfolding accept cache_answer text_irreversible
  accept-other s t text w = refl

  tool_failed-other :
      (s : Situation F) (t : RequestTrace F) (text : Text) (o : CommitOutcome F)
      (k : Option FailureCategory) (w : World W F)
      → tool_failed other s t text o k w ≡ tool_failed r s t text o k w
  unfolding tool_failed loggable failure_record
  tool_failed-other s t text o none w = refl
  tool_failed-other s t text o (some k) w =
      same_if (escalates (some k)) _ _ _ _ w
        (bind-same (credit r.rule_store s.retrieved false) _ _ w λ u w'.
          bind-same (log_failure r.failure_log _) _ _ w'
            λ u' w''. escalate-other t s.sent text k (some o.detail) Template.tool_template w'')
        refl

  after_commit-other :
      (s : Situation F) (text : Text) (o : Option (CommitOutcome F)) (t : RequestTrace F)
      (w : World W F)
      → after_commit other s text (o, t) w ≡ after_commit r s text (o, t) w
  unfolding after_commit
  after_commit-other s text none t w = accept-other s t text w
  after_commit-other s text (some o) t w =
      same_if o.committed _ _ _ _ w (accept-other s t text w)
        (tool_failed-other s t text o o.category w)

  execute-other :
      (s : Situation F) (v : Verified F) (g : Option (CommitGate W F)) (w : World W F)
      → execute other s v g w ≡ execute r s v g w
  unfolding execute commit_text
  execute-other s v none w = accept-other s v.trace v.text w
  execute-other s v (some g) w =
      bind-same (commit_text r g v.trace v.text s.rid) _ _ w
        λ x w'. after_commit-other s v.text x.0 x.1 w'

  settle-other :
      (s : Situation F) (v : Verified F) (w : World W F) → settle other s v w ≡ settle r s v w
  unfolding settle
  settle-other s v w =
      same_if (v.outcome.escalate || v.outcome.retry_small) _ _ _ _ w (reject-other s v w)
        (execute-other s v r.commit_gate w)

  -- a request whose retry is spent is not tried again
  retried_once :
      (s : Situation F) (t : RequestTrace F) (a : Answer F) (w : World W F)
      → (verify_answer r s (record t { small_retried = true }) a >>= verify_again r s) w
        ≡ (verify_answer other s (record t { small_retried = true }) a >>= verify_again other s) w
  unfolding verify_answer verify_again ◌>>=◌
  retried_once s t a w =
      let run = lift (
        Ladder.run r.ladder s.rid (context s a) s.policy.risk_class
          (some s.policy.cost_of_being_wrong_usd)) in
      bind_assoc run _ (verify_again r s) w
      ∙ bind-same run _ _ w (λ o w'. spent o.retry_small _ _ _ w')
      ∙ sym (bind_assoc run _ (verify_again other s) w)
    where
      spent :
          (b : Bool) (m n : Exec (World W F) (Verified F)) (v : Verified F) (w' : World W F)
          → (if b && false then m else pure v) w' ≡ (if b && false then n else pure v) w'
      spent true m n v w' = refl
      spent false m n v w' = refl

  after_retry-other :
      (s : Situation F) (t : RequestTrace F) (e : CallEnd (Answer F)) (w : World W F)
      → after_attempts r s t (true, e) w ≡ after_attempts other s t (true, e) w
  unfolding after_attempts ◌>>=◌
  after_retry-other s t (unavailable k m) w = sym (
      escalate-other (record t { small_retried = true }) s.sent [] k (some (Message.plain m))
        Template.verifier_template w)
  after_retry-other s t (answered a) w =
      bind-same (verify_answer r s (record t { small_retried = true }) a >>= verify_again r s)
        (settle r s) (settle other s) w (λ v w'. sym (settle-other s v w'))
      ∙ ap (λ x. ((λ _. x) >>= settle other s) w) (retried_once s t a w)

  after_first-same :
      (s : Situation F) (t : RequestTrace F) (e : CallEnd (Answer F)) (w : World W F)
      → (second_attempt r s e >>= after_attempts r s t) w ≡ after_first r other s t e w
  unfolding second_attempt after_attempts verify_answer verify_again ◌>>=◌
  after_first-same s t (answered a) w =
      bind-same (verify_answer r s (record t { small_retried = false }) a >>= verify_again r s)
        (settle r s) (settle other s) w (λ v w'. sym (settle-other s v w'))
  after_first-same s t (unavailable k m) w =
      bind_assoc (try_provider (small_call r s)) _ (after_attempts r s t) w
      ∙ bind-same (try_provider (small_call r s)) _ _ w (λ e w'. after_retry-other s t e w')

  try_small-two_tries :
      (s : Situation F) (t : RequestTrace F) (w : World W F)
      → try_small r s t w ≡ two_tries r other s t w
  unfolding try_small attempts
  try_small-two_tries s t w =
      bind_assoc (try_provider (small_call r s)) (second_attempt r s) (after_attempts r s t) w
      ∙ bind-same (try_provider (small_call r s)) _ _ w (λ e w'. after_first-same s t e w')

module _ {W F : Type 0} ⦃f : Float F⦄ (r : Router W F) where
  -- The attempt on the small model is the run in which only a first call and one more, after a failure
  -- or for a verifier and never for both, are of the small model: any client may stand in for it in
  -- the rest. Calls that fail are calls.
  abbrev pub TriesTwice : Type 0
  TriesTwice =
      (c : Complete W F) (s : Situation F) (t : RequestTrace F) (w : World W F)
      → try_small r s t w ≡ two_tries r (standing_in r c) s t w

  pub try_small-TriesTwice : TriesTwice
  try_small-TriesTwice c s t w = try_small-two_tries r c s t w
