-- ===== src/Verify/Result.antt =====
-- verify/result.py: what is checked of a tool's result. The commit gate takes the detail of the first
-- verdict that does not pass.
use smart_router.Prelude.{
  Bool, true, false, not, ◌||◌, Option, none, some, String, Float, if◌then◌else◌,
}
use smart_router.Prelude.Dict.{Dict, get, string_eq}
use smart_router.Schemas.Message.{Message}
use smart_router.Tools.Json.{Json, Items, get_field, array, object}
use smart_router.Tools.Value.{json_eq}
use smart_router.Tools.Proposal.{ToolProposal, proposal_irreversible}
use smart_router.Tools.Gateway.{ToolResult, is_empty_result}

pub record ResultVerdict (F : Type 0) : Type 0 where
  pub passed : Bool
  pub detail : Option (Message F)

-- a Python type, as its name and its test
abbrev pub PythonType : Type 0 → Type 0
PythonType F = String × (Json F → Bool)

module _ {F : Type 0} where
  abbrev pub fine : ResultVerdict F
  fine = record { passed = true; detail = none }

  abbrev pub objection : Message F → ResultVerdict F
  objection d = record { passed = false; detail = some d }

  -- what the commit gate takes from a verdict
  abbrev pub objection_of : ResultVerdict F → Option (Message F)
  objection_of v = if v.passed then none else v.detail

  -- `EmptyResultVerifier`
  unfoldable pub check_empty : ToolProposal F → ToolResult F → ResultVerdict F
  check_empty p r =
      if not (is_empty_result r)
      then fine
      else if proposal_irreversible p
      then record {
        passed = true;
        detail = some (Message.fixed "empty result from a write is not suspicious");
      }
      else objection (Message.nothing_returned p.tool)

  -- `ResultShapeVerifier`
  unfoldable pub check_shape :
      Option (Dict String (PythonType F)) → ToolProposal F → ToolResult F → ResultVerdict F
  check_shape none p r = fine
  check_shape (some expectations) p r = elim (get p.tool expectations) [
    | none ↦ fine
    | some t ↦ if t.1 r.content then fine else objection (Message.unexpected_type p.tool t.0)
  ]

module _ {F : Type 0} ⦃f : Float F⦄ where
  -- an item that is an object, and holds neither `None` nor the expected value under the key
  unfoldable pub contradicts : String → Json F → Json F → Bool
  contradicts key expected item = elim item [
    | object d ↦ elim (get_field key d) [
      | none ↦ false
      | some v ↦ not (json_eq v Json.null || json_eq v expected)
    ]
    | _ ↦ false
  ]

  unfoldable pub any_contradicts : String → Json F → Items F → Bool
  unfolding contradicts
  any_contradicts key expected Items.nil = false
  any_contradicts key expected (Items.cons x xs) =
      let rest = any_contradicts key expected xs in
      if contradicts key expected x then true else rest

  -- the items against the argument that they should echo
  unfoldable pub check_items_echo : String → String → Option (Json F) → Items F → ResultVerdict F
  unfolding any_contradicts
  check_items_echo arg key none xs = fine
  check_items_echo arg key (some Json.null) xs = fine
  check_items_echo arg key (some expected) xs =
      if any_contradicts key expected xs then objection (Message.not_echoed arg key) else fine

  -- `ArgumentEchoVerifier`
  unfoldable pub check_echo :
      Option (Dict String (String × String)) → ToolProposal F → ToolResult F → ResultVerdict F
  unfolding check_items_echo
  check_echo none p r = fine
  check_echo (some fields) p r = elim (get p.tool fields) [
    | none ↦ fine
    | some m ↦ elim r.content [
      | array xs ↦ check_items_echo m.0 m.1 (get_field m.0 p.arguments) xs
      | _ ↦ fine
    ]
  ]
