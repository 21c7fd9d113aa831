-- ===== src/Tests/Tooling.antt =====
-- tools/ at concrete inputs: an in-process gateway with one tool, and a commit gate over it.
use smart_router.Prelude.{ℕ, true, false, none, some, [], ◌∷◌, ◌≡◌, ◌⊎◌, refl}
use smart_router.Prelude.Dict.{string_eq}
use smart_router.Prelude.Exec.{ok, Ensures}
use smart_router.Prelude.Strings.{codes, lower}
use smart_router.Tools.Json.{Json, Fields}
use smart_router.Tools.Reversibility.{
  default_policy, find_override, infer, tokens, first_in, is_verb,
}
use smart_router.Tools.Reversibility.Failsafe.{HasVerb, infer-false}
use smart_router.Tools.Registry.{ToolSpec, is_irreversible}
use smart_router.Tools.Gateway.{ToolRequest, MockState, MockGateway}
use smart_router.Tools.Gateway.Idempotent.{IsIdempotent, IsKeyed, mock, mock-IsIdempotent}
use smart_router.Tools.Commit.{CommitGate, commit, request}
use smart_router.Tools.Proposal.{ToolProposal}
use smart_router.Tools.Commit.Outcome.{Settled, commit-Settled}
use smart_router.Tools.Commit.Log.{recording, Guarded, commit-Guarded}
use smart_router.Tools.Commit.Again.{committed_with, commit_again}

abbrev pub spec : ToolSpec ℕ
spec = record {
  name = "get_issue";
  arg_types = ("id", "string") ∷ [];
  required = "id" ∷ [];
  description = codes "an issue";
  irreversible = none;
  supports_dry_run = true;
  server = "jira";
  argument_schema = none;
}

abbrev gateway : MockGateway ℕ
gateway = record {
  specs = spec ∷ [];
  handlers = λ name args dry. ok (Json.text (codes "done"));
  latency = 1;
  no_cost = 0;
}

abbrev gate : CommitGate (MockState ℕ) ℕ
gate = record {
  gateway = mock gateway;
  registry = ("get_issue", spec) ∷ [];
  max_tool_retries = 1;
  dry_run_irreversible = true;
  require_approval_for_irreversible = true;
  result_verifiers = [];
  check_schema = λ args schema. ok none;
  digest = λ rid tool args. tool;
}

abbrev proposal : ToolProposal ℕ
proposal = record {
  tool = "get_issue";
  arguments = Fields.end;
  spec = some spec;
  raw = codes "{}";
  request_id = some "r1";
}

-- a tool that publishes
abbrev publishing : ToolProposal ℕ
publishing = record proposal {
  tool = "publish_page";
  spec = some (record spec { name = "publish_page" });
}

abbrev idle : MockState ℕ
idle = record { calls = []; committed = [] }

abbrev real_call : ToolRequest ℕ
real_call = request proposal "get_issue" false none

real_call-IsKeyed : IsKeyed real_call "get_issue"
real_call-IsKeyed = record { key = refl; nonempty = refl; real = refl }

mock-IsIdempotent_example : IsIdempotent (mock gateway) real_call
mock-IsIdempotent_example = mock-IsIdempotent gateway real_call "get_issue" real_call-IsKeyed

real_call-IsIdempotent : IsIdempotent (mock gateway) real_call
real_call-IsIdempotent = mock-IsIdempotent gateway real_call "get_issue" real_call-IsKeyed

commit-Settled_example : Ensures (Settled gate proposal) (commit gate proposal false none idle)
commit-Settled_example = commit-Settled gate proposal false none idle

commit-Guarded_example :
    Ensures
      (Guarded gate publishing none false [])
      (commit (recording gate) publishing false none (idle, []))
commit-Guarded_example = commit-Guarded gate publishing none false (idle, [])

commit_again_example :
    Ensures
      (λ o w.
        o.committed ≡ true
        → commit gate proposal false none w ≡ (ok (committed_with gate proposal none o.result), w))
      (commit gate proposal false none idle)
unfolding is_irreversible infer first_in is_verb tokens find_override lower
commit_again_example =
    commit_again gate proposal none false spec refl refl real_call-IsIdempotent idle

infer-false_example :
    (¬ HasVerb default_policy.irreversible_verbs (tokens "get_issue"))
    × (HasVerb default_policy.read_only_verbs (tokens "get_issue") ⊎ (true ≡ false))
unfolding infer first_in is_verb tokens find_override lower
infer-false_example = infer-false default_policy "get_issue" refl refl
