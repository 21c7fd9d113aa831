-- ===== src/Routing/World.antt =====
-- What routing/router.py works on: the cache that is the router's own, and the rest of the world,
-- which the parts that it calls may change.
use smart_router.Prelude.{Bool, Option, none, some, List, String, if◌then◌else◌}
use smart_router.Prelude.Exec.{Exec}
use smart_router.Prelude.Dict.{Dict}
use smart_router.Schemas.Message.{Text, Message, FailureCategory}
use smart_router.Cache.{ExactCache}
use smart_router.Gateway.Base.{ModelResponse}
use smart_router.Gateway.ModelConfig.{ModelSettings}
use smart_router.Prompt.{PromptMessage, Injectable}
use smart_router.Tools.Json.{Json}
use smart_router.Tools.Commit.{CommitGate}
use smart_router.Tools.Proposal.{Runtime}
use smart_router.Verify.Ladder.{VerifierLadder}
use smart_router.Routing.Policy.{PolicyGate}
use smart_router.Routing.Threshold.{CostModel}

pub record World (W F : Type 0) : Type 0 where
  pub outside : W
  pub cache : ExactCache F

-- an action of a part, on its side of the world
unfoldable pub lift : {W F A : Type 0} → Exec W A → Exec (World W F) A
lift m w = let r = m w.outside in (r.0, record w { outside = r.1 })

-- Which template an escalation is written in.
pub data Template : Type 0 where
  verifier_template tool_template : Template

-- A message that is sent: one of the assembled prompt, or the one that `_escalate` adds, with the
-- values of its template.
pub data Sent (F : Type 0) : Type 0 where
  assembled : PromptMessage → Sent F
  escalation : Template → Message F → FailureCategory → Message F → Sent F

-- gateway/base.py, `ModelClient`
pub record ModelClient (W F : Type 0) : Type 0 where
  pub model_name : String
  pub supports_constrained_decoding : Bool
  pub complete : List (Sent F) → Option (Json F) → Exec W (ModelResponse F)

-- A vector of an embedder is a list of floats.
abbrev pub Vector : Type 0 → Type 0
Vector F = List F

-- memory/retrieval.py, `Retrieved`, as far as the router reads it
abbrev pub Retrieved : Type 0
Retrieved = List Injectable

-- memory/failures.py; `created_at` is left to the log.
pub record FailureRecord (F : Type 0) : Type 0 where
  pub request_id : String
  pub tenant_id : String
  pub query : Text
  pub query_fingerprint : String
  pub category : FailureCategory
  pub verifier_id : String
  pub detail : Message F
  pub rejected_output : Text
  pub vector : Vector F
  pub preventable_by_construction : Bool
  pub model : String
  pub frontier_output : Option Text

-- memory/reflexion.py, `Reflexion`, as the router calls it
pub record Reflexion (W F : Type 0) : Type 0 where
  pub enabled : Bool
  pub uses_rules : Bool
  pub failure_log : FailureRecord F → Exec W Unit
  pub rule_store : String → Bool → Bool → Exec W Unit
  pub retrieve : Vector F → String → Exec W (Option Retrieved)
  pub snapshot_version_for : String → Exec W (Option String)
  pub record_success : Text → String → Exec W Unit
  pub record_exemplar : Text → Text → String → String → Exec W Unit

-- `SmartRouter`. `rule_store` is its `record_outcome`, with `succeeded` and `triggered`;
-- `failure_log` is its `record`. The cache is in the world. `tools` is the JSON of the tool block.
pub record Router (W F : Type 0) : Type 0 where
  pub small : ModelClient W F
  pub frontier : ModelClient W F
  pub ladder : VerifierLadder W F
  pub encode : Text → Exec W (Vector F)
  pub policy : PolicyGate F
  pub classifier : Option (Vector F → Exec W F)
  pub cost_model : CostModel F
  pub retriever : Option (Vector F → Exec W Retrieved)
  pub failure_log : Option (FailureRecord F → Exec W Unit)
  pub rule_store : Option (String → Bool → Bool → Exec W Unit)
  pub commit_gate : Option (CommitGate W F)
  pub reflexion : Option (Reflexion W F)
  pub system_prompt : Text
  pub tools : Option Text
  pub snapshot_version : Option String
  -- the models that are registered, and the schema of the gate's registry
  pub models : Dict String (ModelSettings F)
  pub envelope_schema : Json F
  -- Python's runtime: JSON, the digests of the cache key and of the fingerprint, the clocks, `uuid4`
  pub runtime : Runtime F
  pub cache_digest : Text → String
  pub fingerprint_digest : Text → String
  pub perf_counter : Exec W F
  pub monotonic : Exec W F
  pub uuid4 : Exec W String

-- the arguments of `route`
pub record RouteRequest : Type 0 where
  pub query : Text
  pub tenant_id : String
  pub session_id : Option String
  pub history : List PromptMessage
  pub grounding : List Text
  pub rules : List Injectable
  pub override_frontier : Bool
  pub request_id : Option String

module _ {W F : Type 0} where
  -- what `__init__` makes of `reflexion`: one that is not enabled is none, one that is enabled
  -- brings its log, and its store if it uses rules
  unfoldable pub connect : Option (Reflexion W F) → Router W F → Router W F
  connect none r = record r { reflexion = none }
  connect (some m) r =
      if m.enabled
      then record r {
        reflexion = some m;
        failure_log = some m.failure_log;
        rule_store = if m.uses_rules then some m.rule_store else none;
      }
      else record r { reflexion = none }
