-- ===== src/Routing/Small.antt =====
-- routing/router.py, `route` from the small model's attempt on: the retries, the verdict, the commit,
-- and what follows from them.
use smart_router.Prelude.{
  Bool, true, false, not, ◌&&◌, ◌||◌, Option, none, some, List, [], ◌∷◌, String, Float,
  if◌then◌else◌,
}
use smart_router.Prelude.Exec.{Exec, ok, pure, ◌>>=◌}
use smart_router.Prelude.Strings.{lower, strip}
use smart_router.Schemas.Message.{Text, Message, FailureCategory, or_else}
use smart_router.Schemas.Verification.{VerifierResult, VerificationOutcome, first_failing}
use smart_router.Schemas.Routing.{RouteTier}
use smart_router.Schemas.Trace.{RequestTrace, add_call}
use smart_router.Cache.{cache_put}
use smart_router.Prompt.{Injectable}
use smart_router.Tools.Commit.{CommitGate, CommitOutcome, escalates}
use smart_router.Tools.Proposal.{propose, proposal_irreversible}
use smart_router.Verify.Base.{VerificationContext}
use smart_router.Verify.Ladder
use smart_router.Routing.Policy.{PolicyDecision}
use smart_router.Routing.World.{
  World, lift, Template, Sent, Vector, Retrieved, FailureRecord, Reflexion, Router,
}
use smart_router.Routing.Escalation.{
  CallEnd, answered, unavailable, try_provider, Answer, call, commit_text, surface, answer_with,
  escalate,
}

-- what `route` has found out when the small model is tried
pub record Situation (F : Type 0) : Type 0 where
  pub rid : String
  pub query : Text
  pub tenant_id : String
  pub grounding : List Text
  pub policy : PolicyDecision F
  pub vector : Option (Vector F)
  pub retrieved : Option Retrieved
  pub sent : List (Sent F)

-- an answer of the small model and the verdict on it
pub record Verified (F : Type 0) : Type 0 where
  pub trace : RequestTrace F
  pub text : Text
  pub outcome : VerificationOutcome F

abbrev pub category_or_semantic : Option FailureCategory → FailureCategory
category_or_semantic none = FailureCategory.silent_semantic
category_or_semantic (some c) = c

module _ {F : Type 0} where
  abbrev pub context : Situation F → Answer F → VerificationContext F
  context s a = record {
    query = s.query;
    response = a.response;
    risk_class = s.policy.risk_class;
    grounding = s.grounding;
  }

  abbrev pub detail_of : Option (VerifierResult F) → Option (Message F)
  detail_of none = none
  detail_of (some x) = x.detail

module _ {W F : Type 0} ⦃f : Float F⦄ where
  abbrev pub small_call : Router W F → Situation F → Exec (World W F) (Answer F)
  small_call r s = call r r.small s.sent RouteTier.small

  -- what follows the first attempt: one more if the provider failed
  unfoldable pub second_attempt :
      Router W F → Situation F → CallEnd (Answer F) → Exec (World W F) (Bool × CallEnd (Answer F))
  unfolding call try_provider
  second_attempt r s (answered a) = pure (false, answered a)
  second_attempt r s (unavailable c m) = do a ← try_provider (small_call r s); pure (true, a)

  -- `for attempt in (0, 1)`, with whether there was a retry
  unfoldable pub attempts : Router W F → Situation F → Exec (World W F) (Bool × CallEnd (Answer F))
  unfolding second_attempt
  attempts r s = try_provider (small_call r s) >>= second_attempt r s

  unfoldable pub verify_answer :
      Router W F → Situation F → RequestTrace F → Answer F → Exec (World W F) (Verified F)
  unfolding lift
  verify_answer r s t a = do
    o ← lift (
        Ladder.run r.ladder s.rid (context s a) s.policy.risk_class
          (some s.policy.cost_of_being_wrong_usd))
    pure (record {
      trace = record (add_call t a.call) { verification = some o };
      text = a.text;
      outcome = o;
    })

  -- one more attempt if a verifier met a transient fault and there was no retry so far
  unfoldable pub verify_again :
      Router W F → Situation F → Verified F → Exec (World W F) (Verified F)
  unfolding call verify_answer
  verify_again r s v =
      if v.outcome.retry_small && not v.trace.small_retried
      then (do a ← small_call r s; verify_answer r s (record v.trace { small_retried = true }) a)
      else pure v

  -- the loop of `_credit`
  unfoldable pub credit_all :
      (String → Bool → Bool → Exec W Unit) → Bool → List Injectable → Exec (World W F) Unit
  unfolding lift
  credit_all record_outcome succeeded [] = pure tt
  credit_all record_outcome succeeded (x ∷ xs) =
      lift (record_outcome x.rule_id succeeded true) >>= λ _. credit_all record_outcome succeeded xs

  -- `_credit`
  unfoldable pub credit :
      Option (String → Bool → Bool → Exec W Unit) → Option Retrieved → Bool → Exec (World W F) Unit
  unfolding credit_all
  credit (some record_outcome) (some xs) succeeded = credit_all record_outcome succeeded xs
  credit _ _ succeeded = pure tt

  -- the record of a verdict against an answer, or of a failed tool call
  unfoldable pub failure_record :
      Router W F
      → Situation F
      → RequestTrace F
      → Text
      → Vector F
      → Option FailureCategory
      → Option (Message F)
      → String
      → Bool
      → FailureRecord F
  unfolding lower strip
  failure_record r s t output v category detail verifier preventable = record {
    request_id = t.request_id;
    tenant_id = s.tenant_id;
    query = s.query;
    query_fingerprint = r.fingerprint_digest (lower (strip s.query));
    category = category_or_semantic category;
    verifier_id = verifier;
    detail = or_else detail (Message.fixed "");
    rejected_output = output;
    vector = v;
    preventable_by_construction = preventable;
    model = r.small.model_name;
    frontier_output = none;
  }

  -- which failure is logged, if one is
  unfoldable pub loggable :
      Router W F
      → Situation F
      → RequestTrace F
      → Text
      → Option (VerifierResult F)
      → Option FailureCategory
      → Option (Message F)
      → Option (FailureRecord F)
  unfolding failure_record
  loggable r s t output failing category detail = elim s.vector [
    | none ↦ none
    | some v ↦ elim failing [
      | some x ↦ some (
          failure_record r s t output v x.category x.detail x.verifier_id
            x.preventable_by_construction)
      | none ↦ elim category [
        | none ↦ none
        | some c ↦ some (failure_record r s t output v (some c) detail "tools.commit" false)
      ]
    ]
  ]

  -- `_log_failure`
  unfoldable pub log_failure :
      Option (FailureRecord F → Exec W Unit) → Option (FailureRecord F) → Exec (World W F) Unit
  unfolding lift
  log_failure (some record_failure) (some x) = lift (record_failure x)
  log_failure _ _ = pure tt

  -- the ladder's verdict is against the answer
  unfoldable pub reject : Router W F → Situation F → Verified F → Exec (World W F) (RequestTrace F)
  unfolding credit loggable log_failure escalate
  reject r s v = do
    let failing = first_failing v.outcome.results
    _ ← credit r.rule_store s.retrieved false
    _ ← log_failure r.failure_log (loggable r s v.trace v.text failing none none)
    escalate r v.trace s.sent v.text (category_or_semantic v.outcome.first_failure)
        (detail_of failing) Template.verifier_template

  -- `_is_irreversible`
  unfoldable pub text_irreversible : Router W F → Text → Bool
  text_irreversible r text = elim r.commit_gate [
    | none ↦ false
    | some g ↦ elim (propose r.runtime g.registry none text) [
      | none ↦ false
      | some p ↦ proposal_irreversible p
    ]
  ]

  unfoldable pub cache_answer : Router W F → Situation F → Text → Exec (World W F) Unit
  unfolding lift
  cache_answer r s text = do
    now ← lift r.monotonic
    λ w. (
      ok tt,
      record w {
        cache = cache_put r.cache_digest s.query text s.tenant_id r.small.model_name now w.cache;
      },
    )

  unfoldable pub keep_golden : Option (Reflexion W F) → Situation F → Exec (World W F) Unit
  unfolding lift
  keep_golden none s = pure tt
  keep_golden (some m) s = lift (m.record_success s.query s.tenant_id)

  -- the answer is the small model's
  unfoldable pub accept :
      Router W F → Situation F → RequestTrace F → Text → Exec (World W F) (RequestTrace F)
  unfolding credit keep_golden cache_answer text_irreversible
  accept r s t text = do
    _ ← credit r.rule_store s.retrieved true
    _ ← keep_golden r.reflexion s
    _ ←
        (if not t.tool_committed || not (text_irreversible r text)
          then cache_answer r s text
          else pure tt)
    pure (answer_with t text)

  -- the tool call failed: a failure that the frontier may mend escalates, the others are surfaced
  unfoldable pub tool_failed :
      Router W F
      → Situation F
      → RequestTrace F
      → Text
      → CommitOutcome F
      → Option FailureCategory
      → Exec (World W F) (RequestTrace F)
  unfolding surface credit loggable log_failure escalate
  tool_failed r s t text o none = surface t o
  tool_failed r s t text o (some c) =
      if escalates (some c)
      then (do
        _ ← credit r.rule_store s.retrieved false
        _ ← log_failure r.failure_log (loggable r s t text none (some c) (some o.detail))
        escalate r t s.sent text c (some o.detail) Template.tool_template)
      else surface t o

  unfoldable pub after_commit :
      Router W F
      → Situation F
      → Text
      → Option (CommitOutcome F) × RequestTrace F
      → Exec (World W F) (RequestTrace F)
  unfolding accept tool_failed
  after_commit r s text (none, t) = accept r s t text
  after_commit r s text (some o, t) =
      if o.committed then accept r s t text else tool_failed r s t text o o.category

  -- verification passed
  unfoldable pub execute :
      Router W F
      → Situation F
      → Verified F
      → Option (CommitGate W F)
      → Exec (World W F) (RequestTrace F)
  unfolding after_commit commit_text
  execute r s v none = accept r s v.trace v.text
  execute r s v (some g) = commit_text r g v.trace v.text s.rid >>= after_commit r s v.text

  unfoldable pub settle : Router W F → Situation F → Verified F → Exec (World W F) (RequestTrace F)
  unfolding reject execute
  settle r s v =
      if v.outcome.escalate || v.outcome.retry_small
      then reject r s v
      else execute r s v r.commit_gate

  -- after the attempts
  unfoldable pub after_attempts :
      Router W F
      → Situation F
      → RequestTrace F
      → Bool × CallEnd (Answer F)
      → Exec (World W F) (RequestTrace F)
  unfolding escalate verify_answer verify_again settle
  after_attempts r s t (retried, unavailable c m) =
      escalate r (record t { small_retried = retried }) s.sent [] c (some (Message.plain m))
        Template.verifier_template
  after_attempts r s t (retried, answered a) =
      verify_answer r s (record t { small_retried = retried }) a >>= verify_again r s >>= settle r s

  unfoldable pub try_small :
      Router W F → Situation F → RequestTrace F → Exec (World W F) (RequestTrace F)
  unfolding attempts after_attempts
  try_small r s t = attempts r s >>= after_attempts r s t
