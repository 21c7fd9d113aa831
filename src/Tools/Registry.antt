-- ===== src/Tools/Registry.antt =====
-- tools/registry.py: what is known of each tool; the registry is a dictionary by name.
use smart_router.Prelude.{Bool, false, Option, none, some, List, [], ◌∷◌, String, if◌then◌else◌}
use smart_router.Prelude.Dict.{Dict, put, string_eq}
use smart_router.Prelude.Strings.{codes}
use smart_router.Schemas.Message.{Text}
use smart_router.Tools.Json.{Json, Fields, Items, has_fields}
use smart_router.Tools.Reversibility.{default_policy, infer}

pub record ToolSpec (F : Type 0) : Type 0 where
  pub name : String
  pub arg_types : List (String × String)
  pub required : List String
  pub description : Text
  pub irreversible : Option Bool
  pub supports_dry_run : Bool
  pub server : String
  pub argument_schema : Option (Fields F)

abbrev pub ToolRegistry : Type 0 → Type 0
ToolRegistry F = Dict String (ToolSpec F)

module _ {F : Type 0} where
  abbrev pub type_fields : List (String × String) → Fields F
  type_fields [] = Fields.end
  type_fields ((k, t) ∷ ts) =
      Fields.field k (Json.object (Fields.field "type" (Json.text (codes t)) Fields.end))
        (type_fields ts)

  abbrev pub text_items : List String → Items F
  text_items [] = Items.nil
  text_items (s ∷ ss) = Items.cons (Json.text (codes s)) (text_items ss)

  abbrev pub synthesized : ToolSpec F → Fields F
  synthesized s = Fields.field "type" (Json.text (codes "object")) (
      Fields.field "properties" (Json.object (type_fields s.arg_types)) (
        Fields.field "required" (Json.array (text_items s.required))
          (Fields.field "additionalProperties" (Json.boolean false) Fields.end)))

  -- an empty schema is as good as none
  unfoldable pub schema_for_arguments : ToolSpec F → Fields F
  schema_for_arguments s = elim s.argument_schema [
    | none ↦ synthesized s
    | some d ↦ if has_fields d then d else synthesized s
  ]

  unfoldable pub is_irreversible : ToolSpec F → Bool
  is_irreversible s = elim s.irreversible [ some b ↦ b | none ↦ (infer default_policy s.name).0 ]

  unfoldable pub add : ToolSpec F → ToolRegistry F → ToolRegistry F
  add s tools = put s.name s tools

  -- `from_gateway`: a later tool of the same name replaces an earlier one
  unfoldable pub from_gateway : List (ToolSpec F) → ToolRegistry F → ToolRegistry F
  unfolding add
  from_gateway [] tools = tools
  from_gateway (s ∷ ss) tools = from_gateway ss (add s tools)
