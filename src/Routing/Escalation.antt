-- ===== src/Routing/Escalation.antt =====
-- routing/router.py: a call of a model, the commit of a tool call, and the frontier's answer. The
-- trace, which the code changes in place, is passed on.
use smart_router.Prelude.{
  true, false, ◌&&◌, Option, none, some, List, [], ◌∷◌, ◌++◌, String, Float, is_some, if◌then◌else◌,
}
use smart_router.Prelude.Exec.{Exec, Exception, Result, ok, raised, pure, raise, ◌>>=◌}
use smart_router.Schemas.Message.{Text, Message, FailureCategory, or_else}
use smart_router.Schemas.Routing.{RouteTier, RouteReason}
use smart_router.Schemas.Trace.{ModelCall, RequestTrace, add_call}
use smart_router.Gateway.Base.{ModelResponse}
use smart_router.Gateway.ModelConfig.{ModelSettings, settings_for, cost}
use smart_router.Tools.Commit.{CommitGate, CommitOutcome, commit}
use smart_router.Tools.Proposal.{ToolProposal, propose}
use smart_router.Tools.Json.{Json}
use smart_router.Routing.World.{World, lift, Template, Sent, ModelClient, Reflexion, Router}

-- a provider's failure, which the small model's attempts catch
pub data CallEnd (A : Type 0) : Type 0 where
  answered : A → CallEnd A
  unavailable : FailureCategory → Text → CallEnd A

abbrev pub provider_caught : {W A : Type 0} → Result A → W → Result (CallEnd A) × W
provider_caught (ok a) w = (ok (CallEnd.answered a), w)
provider_caught (raised (Exception.provider_timeout m)) w =
    (ok (CallEnd.unavailable FailureCategory.timeout m), w)
provider_caught (raised (Exception.provider_fault m)) w =
    (ok (CallEnd.unavailable FailureCategory.provider_fault m), w)
provider_caught (raised e) w = (raised e, w)

-- `except (ProviderTimeout, ProviderFault)`
unfoldable pub try_provider : {W A : Type 0} → Exec W A → Exec W (CallEnd A)
try_provider m w = let r = m w in provider_caught r.0 r.1

-- The answer of `_call`.
pub record Answer (F : Type 0) : Type 0 where
  pub text : Text
  pub call : ModelCall F
  pub response : ModelResponse F

module _ {W F : Type 0} where
  -- a schema is sent where the client can be held to it and there are tools
  abbrev pub schema_for : Router W F → ModelClient W F → Option (Json F)
  schema_for r c =
      if c.supports_constrained_decoding && is_some r.commit_gate
      then some r.envelope_schema
      else none

module _ {W F : Type 0} ⦃f : Float F⦄ where
  abbrev model_call : ModelClient W F → RouteTier → ModelResponse F → F → ModelCall F
  model_call c tier resp spent = record {
    model = c.model_name;
    tier = tier;
    prompt_tokens = resp.prompt_tokens;
    cached_prompt_tokens = resp.cached_prompt_tokens;
    completion_tokens = resp.completion_tokens;
    cost_usd = spent;
    latency_ms = resp.latency_ms;
  }

  -- the answer with its price
  unfoldable pub priced :
      ModelClient W F
      → RouteTier
      → ModelResponse F
      → Option (ModelSettings F)
      → Exec (World W F) (Answer F)
  unfolding cost
  priced c tier resp none = raise (Exception.key_error "unknown model")
  priced c tier resp (some s) =
      let spent = cost s resp.prompt_tokens resp.cached_prompt_tokens resp.completion_tokens in
      pure (record { text = resp.text; call = model_call c tier resp spent; response = resp })

  -- `_call`
  unfoldable pub call :
      Router W F → ModelClient W F → List (Sent F) → RouteTier → Exec (World W F) (Answer F)
  unfolding lift priced
  call r c ms tier = do
    resp ← lift (c.complete ms (schema_for r c))
    priced c tier resp (settings_for c.model_name r.models)

module _ {F : Type 0} where
  -- `f"{outcome.category.value}: {outcome.detail}"`, which needs a category
  abbrev pub failure_text :
      {W : Type 0} → Option FailureCategory → Message F → Exec (World W F) (Message F)
  failure_text none d = raise (Exception.attribute_error "value")
  failure_text (some c) d = pure (Message.categorised c d)

  -- the fields that `_commit` sets on the trace, but for `tool_failure`
  abbrev pub with_tool : RequestTrace F → ToolProposal F → CommitOutcome F → RequestTrace F
  with_tool t p o = record t {
    tool_name = some p.tool;
    tool_committed = o.committed;
    tool_attempts = o.attempts;
    tool_dry_run = is_some o.dry_run_result;
  }

  abbrev pub answer_with : RequestTrace F → Text → RequestTrace F
  answer_with t text = record t { final_output = some (Message.plain text); committed = true }

  abbrev pub escalation_message : Template → Text → FailureCategory → Option (Message F) → Sent F
  escalation_message template rejected category detail =
      Sent.escalation template
        (or_else (some (Message.plain rejected)) (Message.fixed "(no output produced)")) category
        (or_else detail (Message.fixed "unspecified"))

module _ {W F : Type 0} where
  unfoldable pub record_tool :
      RequestTrace F → ToolProposal F → CommitOutcome F → Exec (World W F) (RequestTrace F)
  record_tool t p o = if o.committed then pure (with_tool t p o) else (do
    m ← failure_text o.category o.detail
    pure (record (with_tool t p o) { tool_failure = some m }))

  -- `_commit`: no outcome where the text is not a tool call
  unfoldable pub commit_text :
      Router W F
      → CommitGate W F
      → RequestTrace F
      → Text
      → String
      → Exec (World W F) (Option (CommitOutcome F) × RequestTrace F)
  unfolding lift record_tool
  commit_text r g t text rid = elim (propose r.runtime g.registry (some rid) text) [
    | none ↦ pure (none, t)
    | some p ↦ do o ← lift (commit g p false none); t' ← record_tool t p o; pure (some o, t')
  ]

  -- `_surface`
  unfoldable pub surface : RequestTrace F → CommitOutcome F → Exec (World W F) (RequestTrace F)
  surface t o = do
    m ← failure_text o.category o.detail
    pure (record t { surfaced_to_human = true; final_output = some m; committed = true })

  -- what `_finish_frontier` does with the outcome of the tool call
  unfoldable pub after_frontier :
      RequestTrace F → Text → Option (CommitOutcome F) → Exec (World W F) (RequestTrace F)
  unfolding surface
  after_frontier t text none = pure (answer_with t text)
  after_frontier t text (some o) = if o.committed then pure (answer_with t text) else surface t o

  -- `_finish_frontier`, under the gate that there is
  unfoldable pub finish_with :
      Router W F
      → RequestTrace F
      → Text
      → Option (CommitGate W F)
      → Exec (World W F) (RequestTrace F)
  unfolding commit_text after_frontier
  finish_with r t text none = pure (answer_with t text)
  finish_with r t text (some g) = do
    (o, t') ← commit_text r g t text t.request_id
    after_frontier t' text o

  abbrev pub finish_frontier :
      Router W F → RequestTrace F → Text → Exec (World W F) (RequestTrace F)
  finish_frontier r t text = finish_with r t text r.commit_gate

  -- the trace of a request that escalates
  unfoldable pub escalated : Router W F → RequestTrace F → RequestTrace F
  escalated r t = record t {
    escalated = true;
    decision = record t.decision {
      reason = RouteReason.verifier_escalation;
      tier = RouteTier.frontier;
      selected_model = r.frontier.model_name;
    };
  }

  -- the frontier's correction is kept as an exemplar, unless it was surfaced
  unfoldable pub keep_exemplar :
      Option (Reflexion W F) → RequestTrace F → Text → Exec (World W F) Unit
  unfolding lift
  keep_exemplar none t text = pure tt
  keep_exemplar (some m) t text =
      if t.surfaced_to_human
      then pure tt
      else lift (m.record_exemplar t.query text t.tenant_id t.request_id)

module _ {W F : Type 0} ⦃f : Float F⦄ where
  -- `_escalate`
  unfoldable pub escalate :
      Router W F
      → RequestTrace F
      → List (Sent F)
      → Text
      → FailureCategory
      → Option (Message F)
      → Template
      → Exec (World W F) (RequestTrace F)
  unfolding call finish_with escalated keep_exemplar
  escalate r t ms rejected category detail template = do
    a ←
        call r r.frontier (ms ++ (escalation_message template rejected category detail ∷ []))
          RouteTier.frontier
    t' ← finish_frontier r (add_call (escalated r t) a.call) a.text
    _ ← keep_exemplar r.reflexion t' a.text
    pure t'
