-- ===== src/Tools/Proposal.antt =====
-- tools/commit.py, `ToolProposal`, `CommitGate.propose` and `CommitGate.validate`: a model's output
-- becomes a proposal, and the proposal is checked.
use smart_router.Prelude.{zero, Bool, true, false, Option, none, some, [], String, if◌then◌else◌}
use smart_router.Prelude.Exec.{Result, ok, raised}
use smart_router.Prelude.Dict.{get, string_eq}
use smart_router.Schemas.Message.{Text, FailureCategory, Message, RiskClass}
use smart_router.Tools.Json.{Json, Items, Fields, get_field, object, pos}
use smart_router.Tools.Registry.{ToolSpec, ToolRegistry, is_irreversible, schema_for_arguments}

pub record ToolProposal (F : Type 0) : Type 0 where
  pub tool : String
  pub arguments : Fields F
  pub spec : Option (ToolSpec F)
  pub raw : Text
  pub request_id : Option String

module _ {F : Type 0} where
  unfoldable pub proposal_irreversible : ToolProposal F → Bool
  proposal_irreversible p = elim p.spec [ none ↦ false | some s ↦ is_irreversible s ]

  unfoldable pub proposal_risk_class : ToolProposal F → RiskClass
  unfolding proposal_irreversible
  proposal_risk_class p =
      if proposal_irreversible p then RiskClass.irreversible_write else RiskClass.read_only

  -- `payload.get("arguments") or {}`: nothing, or a false value, is the empty object
  unfoldable pub argument_object : (F → Bool) → Option (Json F) → Option (Fields F)
  argument_object is_zero none = some Fields.end
  argument_object is_zero (some (Json.object d)) = some d
  argument_object is_zero (some Json.null) = some Fields.end
  argument_object is_zero (some (Json.boolean false)) = some Fields.end
  argument_object is_zero (some (Json.boolean true)) = none
  argument_object is_zero (some (Json.integer (pos zero))) = some Fields.end
  argument_object is_zero (some (Json.integer _)) = none
  argument_object is_zero (some (Json.float x)) = if is_zero x then some Fields.end else none
  argument_object is_zero (some (Json.text [])) = some Fields.end
  argument_object is_zero (some (Json.text _)) = none
  argument_object is_zero (some (Json.array Items.nil)) = some Fields.end
  argument_object is_zero (some (Json.array _)) = none

  -- a proposal from the two fields of an envelope; a name that is no text has no specification
  unfoldable pub envelope_proposal :
      (Text → String)
      → (Json F → String)
      → ToolRegistry F
      → Text
      → Option String
      → Json F
      → Fields F
      → ToolProposal F
  envelope_proposal name_of show registry raw rid (Json.text t) args = record {
    tool = name_of t;
    arguments = args;
    spec = get (name_of t) registry;
    raw = raw;
    request_id = rid;
  }
  envelope_proposal name_of show registry raw rid other args = record {
    tool = show other;
    arguments = args;
    spec = none;
    raw = raw;
    request_id = rid;
  }

-- What the module takes from Python's runtime: `json.loads`, a text as a dictionary key, `str` of
-- a value, and the test of a float for zero.
pub record Runtime (F : Type 0) : Type 0 where
  pub loads : Text → Option (Json F)
  pub name_of : Text → String
  pub show : Json F → String
  pub is_zero : F → Bool

module _ {F : Type 0} where
  -- `none` is `ParseError`
  unfoldable pub propose :
      Runtime F → ToolRegistry F → Option String → Text → Option (ToolProposal F)
  unfolding argument_object envelope_proposal
  propose rt registry rid raw = elim (rt.loads raw) [
    | none ↦ none
    | some payload ↦ elim payload [
      | object d ↦ elim (get_field "tool" d) [
        | none ↦ none
        | some tool ↦ elim (argument_object rt.is_zero (get_field "arguments" d)) [
          | none ↦ none
          | some args ↦ some (envelope_proposal rt.name_of rt.show registry raw rid tool args)
        ]
      ]
      | _ ↦ none
    ]
  ]

  abbrev pub schema_report :
      Result (Option (Message F)) → Result (Option (FailureCategory × Message F))
  schema_report (ok none) = ok none
  schema_report (ok (some detail)) = ok (some (FailureCategory.tool_arg_invalid, detail))
  schema_report (raised e) = raised e

  -- The failure that `validate` reports. `check_schema` is `validate_schema`: no value is a pass, and
  -- it raises on some malformed schemas.
  unfoldable pub validate :
      (Fields F → Fields F → Result (Option (Message F)))
      → ToolProposal F
      → Result (Option (FailureCategory × Message F))
  validate check_schema p = elim p.spec [
    | none ↦ ok (some (FailureCategory.tool_not_found, Message.unregistered p.tool))
    | some s ↦ schema_report (check_schema p.arguments (schema_for_arguments s))
  ]
