-- ===== src/Tools/Commit.antt =====
-- tools/commit.py, `CommitGate.commit`: a proposal that passed its checks is handed to the gateway.
pub mod Outcome
pub mod Log
pub mod Again
use smart_router.Prelude.{
  ℕ, zero, suc, ◌+◌, Bool, true, false, not, Option, none, some, List, [], ◌∷◌, String, ◌&&◌,
  if◌then◌else◌,
}
use smart_router.Prelude.Exec.{Exec, Result, ok, raised, pure, raise, ◌>>=◌}
use smart_router.Prelude.Exec
use smart_router.Schemas.Message.{Text, FailureCategory, Message}
use smart_router.Schemas.Verification.{is_terminal}
use smart_router.Tools.Errors.{ToolErrorClass}
use smart_router.Tools.Json.{Fields}
use smart_router.Tools.Registry.{ToolSpec, ToolRegistry, is_irreversible}
use smart_router.Tools.Proposal.{ToolProposal, validate}
use smart_router.Tools.Gateway.{Gateway, ToolRequest, ToolResult}

pub record CommitOutcome (F : Type 0) : Type 0 where
  pub committed : Bool
  pub result : Option (ToolResult F)
  pub category : Option FailureCategory
  pub detail : Message F
  pub dry_run_result : Option (ToolResult F)
  pub attempts : ℕ

-- `CommitOutcome.should_escalate`
abbrev pub escalates : Option FailureCategory → Bool
escalates (some FailureCategory.tool_semantic) = true
escalates (some FailureCategory.tool_arg_invalid) = true
escalates (some FailureCategory.tool_not_found) = true
escalates (some FailureCategory.tool_result_suspect) = true
escalates _ = false

-- `CommitOutcome.should_surface`
abbrev pub surfaces : Option FailureCategory → Bool
surfaces none = false
surfaces (some c) = is_terminal c

pub record CommitGate (W F : Type 0) : Type 0 where
  pub gateway : Gateway W F
  pub registry : ToolRegistry F
  pub max_tool_retries : ℕ
  pub dry_run_irreversible : Bool
  pub require_approval_for_irreversible : Bool
  -- what a result verifier says against a result
  pub result_verifiers : List (ToolProposal F → ToolResult F → Option (Message F))
  pub check_schema : Fields F → Fields F → Result (Option (Message F))
  -- `idempotency_key`: the digest of the request, the tool and the arguments
  pub digest : Option String → String → Fields F → String

-- `except ToolError`: the other exceptions pass through.
pub data Attempt (A : Type 0) : Type 0 where
  returned : A → Attempt A
  failed : ToolErrorClass → Text → Attempt A

abbrev pub caught : {A W : Type 0} → Result A → W → Result (Attempt A) × W
caught (ok a) w = (ok (Attempt.returned a), w)
caught (raised (Exec.tool_transient m)) w = (ok (Attempt.failed ToolErrorClass.transient m), w)
caught (raised (Exec.tool_semantic m)) w = (ok (Attempt.failed ToolErrorClass.semantic m), w)
caught (raised (Exec.tool_auth m)) w = (ok (Attempt.failed ToolErrorClass.auth m), w)
caught (raised (Exec.tool_not_found m)) w = (ok (Attempt.failed ToolErrorClass.not_found m), w)
caught (raised (Exec.tool_other m)) w = (ok (Attempt.failed ToolErrorClass.other m), w)
caught (raised e) w = (raised e, w)

pub try_tool : {W A : Type 0} → Exec W A → Exec W (Attempt A)
try_tool m w = let r = m w in caught r.0 r.1

-- the category of `_from_exception`
abbrev pub category_of : ToolErrorClass → FailureCategory
category_of ToolErrorClass.auth = FailureCategory.tool_auth
category_of ToolErrorClass.transient = FailureCategory.tool_transient
category_of ToolErrorClass.not_found = FailureCategory.tool_not_found
category_of ToolErrorClass.semantic = FailureCategory.tool_semantic
category_of ToolErrorClass.other = FailureCategory.tool_semantic

module _ {F : Type 0} where
  abbrev pub new_outcome : CommitOutcome F
  new_outcome = record {
    committed = false;
    result = none;
    category = none;
    detail = Message.fixed "";
    dry_run_result = none;
    attempts = 0;
  }

  abbrev pub refusal : FailureCategory → Message F → CommitOutcome F
  refusal c d = record new_outcome { category = some c; detail = d }

  abbrev pub unapproved : CommitOutcome F
  unapproved =
      refusal FailureCategory.approval_required
        (Message.fixed "irreversible tool requires explicit approval")

  -- `_from_exception`
  unfoldable pub from_exception : ToolErrorClass → Text → CommitOutcome F → CommitOutcome F
  from_exception c m o = record o {
    category = some (category_of c);
    detail = Message.plain m;
    committed = false;
  }

  -- the first verdict against a result
  unfoldable pub first_objection :
      List (ToolProposal F → ToolResult F → Option (Message F))
      → ToolProposal F
      → ToolResult F
      → Option (Message F)
  first_objection [] p r = none
  first_objection (v ∷ vs) p r =
      let rest = first_objection vs p r in elim (v p r) [ some d ↦ some d | none ↦ rest ]

  unfoldable pub after_result :
      List (ToolProposal F → ToolResult F → Option (Message F))
      → ToolProposal F
      → ToolResult F
      → CommitOutcome F
      → CommitOutcome F
  unfolding first_objection
  after_result vs p r o = elim (first_objection vs p r) [
    | some d ↦ record o {
      result = some r;
      category = some FailureCategory.tool_result_suspect;
      detail = d;
    }
    | none ↦ record o { committed = true; result = some r; detail = Message.fixed "committed" }
  ]

  abbrev pub request : ToolProposal F → String → Bool → Option F → ToolRequest F
  request p key dry timeout = record {
    tool = p.tool;
    arguments = p.arguments;
    idempotency_key = some key;
    dry_run = dry;
    timeout = timeout;
  }

module _ {W F : Type 0} where
  -- what one attempt leads to; `retry` is taken on a transient failure
  pub after_attempt :
      CommitGate W F
      → ToolProposal F
      → (Text → CommitOutcome F → Exec W (CommitOutcome F))
      → Attempt (ToolResult F)
      → CommitOutcome F
      → Exec W (CommitOutcome F)
  unfolding after_result from_exception
  after_attempt g p retry (Attempt.returned r) o = pure (after_result g.result_verifiers p r o)
  after_attempt g p retry (Attempt.failed ToolErrorClass.transient m) o = retry m o
  after_attempt g p retry (Attempt.failed c m) o = pure (from_exception c m o)

  -- The loop over the attempts: `left` of them may follow this one, which is number `n + 1`.
  pub attempt_loop :
      CommitGate W F
      → ToolProposal F
      → String
      → Option F
      → ℕ
      → ℕ
      → CommitOutcome F
      → Exec W (CommitOutcome F)
  unfolding after_attempt try_tool
  attempt_loop g p key timeout zero n o = do
    a ← try_tool (g.gateway.call (request p key false timeout))
    after_attempt g p (λ m o'. pure (from_exception ToolErrorClass.transient m o')) a
        (record o { attempts = n + 1 })
  attempt_loop g p key timeout (suc left) n o = do
    a ← try_tool (g.gateway.call (request p key false timeout))
    after_attempt g p (λ m o'. attempt_loop g p key timeout left (n + 1) o') a
        (record o { attempts = n + 1 })

  -- a dry run that failed ends the commit
  pub after_dry_run :
      (CommitOutcome F → Exec W (CommitOutcome F))
      → Attempt (ToolResult F)
      → Exec W (CommitOutcome F)
  unfolding from_exception
  after_dry_run go (Attempt.returned r) = go (record new_outcome { dry_run_result = some r })
  after_dry_run go (Attempt.failed c m) = pure (from_exception c m new_outcome)

  -- irreversible calls are run dry first, where the tool supports it
  abbrev pub needs_dry_run : CommitGate W F → ToolSpec F → Bool
  needs_dry_run g spec = is_irreversible spec && (g.dry_run_irreversible && spec.supports_dry_run)

  abbrev pub needs_approval : CommitGate W F → ToolSpec F → Bool → Bool
  needs_approval g spec approved =
      is_irreversible spec && (g.require_approval_for_irreversible && not approved)

  -- after the checks: a dry run where it is due, then the attempts
  pub perform : CommitGate W F → ToolProposal F → ToolSpec F → Option F → Exec W (CommitOutcome F)
  unfolding attempt_loop after_dry_run
  perform g p spec timeout =
      let key = g.digest p.request_id p.tool p.arguments in
      let go = attempt_loop g p key timeout g.max_tool_retries 0 in
      if needs_dry_run g spec
      then try_tool (g.gateway.call (request p key true timeout)) >>= after_dry_run go
      else go new_outcome

  -- `commit` after `validate`; a proposal that passed has a specification
  pub commit_checked :
      CommitGate W F
      → ToolProposal F
      → Bool
      → Option F
      → Option (FailureCategory × Message F)
      → Option (ToolSpec F)
      → Exec W (CommitOutcome F)
  unfolding perform
  commit_checked g p approved timeout (some (c, d)) spec = pure (refusal c d)
  commit_checked g p approved timeout none none = pure new_outcome
  commit_checked g p approved timeout none (some spec) =
      if needs_approval g spec approved then pure unapproved else perform g p spec timeout

  pub after_validate :
      CommitGate W F
      → ToolProposal F
      → Bool
      → Option F
      → Result (Option (FailureCategory × Message F))
      → Exec W (CommitOutcome F)
  unfolding commit_checked
  after_validate g p approved timeout (ok v) = commit_checked g p approved timeout v p.spec
  after_validate g p approved timeout (raised e) = raise e

  pub commit : CommitGate W F → ToolProposal F → Bool → Option F → Exec W (CommitOutcome F)
  unfolding after_validate
  commit g p approved timeout = after_validate g p approved timeout (validate g.check_schema p)
