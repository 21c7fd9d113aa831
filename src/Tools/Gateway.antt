-- ===== src/Tools/Gateway.antt =====
-- tools/gateway.py: the protocol of a gateway, the in-process gateway and the composite one.
pub mod Idempotent
use smart_router.Prelude.{
  Bool, true, false, not, Option, none, some, List, [], ◌∷◌, ◌++◌, String, ◌==◌, ◌&&◌,
  if◌then◌else◌,
}
use smart_router.Prelude.Dict.{Dict, get, put, string_eq}
use smart_router.Prelude.Exec.{
  Exec, Result, ok, raised, pure, raise, Exception, tool_not_found, tool_other, value_error,
}
use smart_router.Prelude.Strings.{codes}
use smart_router.Schemas.Message.{Text}
use smart_router.Tools.Json.{Json, Fields, Items, null, text, array, object, nil, cons, end, field}
use smart_router.Tools.Registry.{ToolSpec}

pub record ToolResult (F : Type 0) : Type 0 where
  pub tool : String
  pub content : Json F
  pub latency_ms : F
  pub dry_run : Bool
  pub idempotency_key : Option String
  pub cost_usd : F

-- the property `is_empty`
unfoldable pub is_empty_result : {F : Type 0} → ToolResult F → Bool
is_empty_result r = elim r.content [
  | null ↦ true
  | array xs ↦ elim xs [ nil ↦ true | cons _ _ ↦ false ]
  | object d ↦ elim d [ end ↦ true | field _ _ _ ↦ false ]
  | text t ↦ elim t [ [] ↦ true | _ ∷ _ ↦ false ]
  | _ ↦ false
]

-- the arguments of `call`
pub record ToolRequest (F : Type 0) : Type 0 where
  pub tool : String
  pub arguments : Fields F
  pub idempotency_key : Option String
  pub dry_run : Bool
  pub timeout : Option F

-- `MCPGateway`
pub record Gateway (W F : Type 0) : Type 0 where
  pub list_tools : List (ToolSpec F)
  pub call : ToolRequest F → Exec W (ToolResult F)

-- `next((s for s in specs if s.name == tool), None)`
module _ {F : Type 0} where
  unfoldable pub find_spec : String → List (ToolSpec F) → Option (ToolSpec F)
  find_spec name [] = none
  find_spec name (s ∷ ss) = let rest = find_spec name ss in if s.name == name then some s else rest

-- The state of a `MockMCPGateway`. `calls` is the log of what was handed to a handler.
pub record MockState (F : Type 0) : Type 0 where
  pub calls : List (String × Fields F × Bool)
  pub committed : Dict String (ToolResult F)

-- A handler gets the arguments and the dry-run flag, and returns the content or raises.
pub record MockGateway (F : Type 0) : Type 0 where
  pub specs : List (ToolSpec F)
  pub handlers : String → Fields F → Bool → Result (Json F)
  pub latency : F
  pub no_cost : F

module _ {F : Type 0} where
  -- the key is truthy, the call is real, and it has committed before
  unfoldable pub replayed : ToolRequest F → MockState F → Option (ToolResult F)
  replayed q s = elim q.idempotency_key [
    | none ↦ none
    | some k ↦ if k == "" then none else if q.dry_run then none else get k s.committed
  ]

  -- a result is kept under its key unless the call was a dry run
  unfoldable pub remember : ToolRequest F → ToolResult F → MockState F → MockState F
  remember q r s = elim q.idempotency_key [
    | none ↦ s
    | some k ↦
        if k == "" then s else if q.dry_run then s else record s { committed = put k r s.committed }
  ]

  unfoldable pub tool_result : MockGateway F → ToolRequest F → Json F → ToolResult F
  tool_result g q content = record {
    tool = q.tool;
    content = content;
    latency_ms = g.latency;
    dry_run = q.dry_run;
    idempotency_key = q.idempotency_key;
    cost_usd = g.no_cost;
  }

  -- after the handler
  unfoldable pub handled :
      MockGateway F → ToolRequest F → Result (Json F) → Exec (MockState F) (ToolResult F)
  unfolding remember tool_result
  handled g q (raised e) s = (raised e, s)
  handled g q (ok content) s =
      (ok (tool_result g q content), remember q (tool_result g q content) s)

  unfoldable pub execute : MockGateway F → ToolRequest F → Exec (MockState F) (ToolResult F)
  unfolding handled
  execute g q s =
      handled g q (g.handlers q.tool q.arguments q.dry_run)
        (record s { calls = s.calls ++ ((q.tool, q.arguments, q.dry_run) ∷ []) })

  -- the specification of the tool, and the result that is on record
  unfoldable pub mock_answer :
      MockGateway F
      → ToolRequest F
      → Option (ToolSpec F)
      → Option (ToolResult F)
      → Exec (MockState F) (ToolResult F)
  unfolding execute
  mock_answer g q none kept = raise (tool_not_found (codes q.tool))
  mock_answer g q (some spec) (some r) = pure r
  mock_answer g q (some spec) none =
      if q.dry_run && not spec.supports_dry_run
      then raise (tool_other (codes q.tool))
      else execute g q

  unfoldable pub mock_call : MockGateway F → ToolRequest F → Exec (MockState F) (ToolResult F)
  unfolding find_spec replayed mock_answer
  mock_call g q s = mock_answer g q (find_spec q.tool g.specs) (replayed q s) s

module _ {W F : Type 0} where
  -- `CompositeGateway.__post_init__`: the owner of each tool, or an error on a shared name
  unfoldable pub own_tools :
      Gateway W F
      → List (ToolSpec F)
      → Dict String (Gateway W F)
      → Result (Dict String (Gateway W F))
  own_tools g [] owner = ok owner
  own_tools g (s ∷ ss) owner =
      let rest = own_tools g ss (put s.name g owner) in
      elim (get s.name owner) [ some _ ↦ raised (tool_other (codes s.name)) | none ↦ rest ]

  unfoldable pub owners :
      List (Gateway W F) → Dict String (Gateway W F) → Result (Dict String (Gateway W F))
  unfolding own_tools
  owners [] owner = ok owner
  owners (g ∷ gs) owner = elim (own_tools g g.list_tools owner) [
    | raised e ↦ raised e
    | ok owner' ↦ owners gs owner'
  ]

  unfoldable pub composite_call : Dict String (Gateway W F) → ToolRequest F → Exec W (ToolResult F)
  composite_call owner q = elim (get q.tool owner) [
    | none ↦ raise (tool_not_found (codes q.tool))
    | some g ↦ g.call q
  ]

  unfoldable pub composite_tools : List (Gateway W F) → List (ToolSpec F)
  composite_tools [] = []
  composite_tools (g ∷ gs) = g.list_tools ++ composite_tools gs
