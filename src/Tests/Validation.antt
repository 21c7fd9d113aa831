-- ===== src/Tests/Validation.antt =====
-- tools/schema.py and verify/free.py at concrete inputs: a nested schema, and a call of a tool with flat
-- arguments.
use smart_router.Prelude.{ℕ, ◌+◌, nat_eq, true, none, some, Option, [], ◌∷◌, ◌≡◌, ◌↔◌, refl}
use smart_router.Prelude.Dict.{string_eq}
use smart_router.Prelude.Exec.{Exception, Result, ok, raised}
use smart_router.Prelude.Strings.{codes, contains}
use smart_router.Schemas.Message.{Message}
use smart_router.Tools.Json.{Json, Items, Fields, pos, get_field}
use smart_router.Tools.Value.{is_true, number_lt, get_text, iterate}
use smart_router.Tools.Schema.Checks.{
  valid, raises, key, index, fails, Violation, check_branches, type_ok, check_type, check_items,
  check_required, check_known, check_properties,
}
use smart_router.Tools.Schema.{
  Search, validate_schema, check_schema, check_value, check_const, check_enum,
}
use smart_router.Tools.Schema.Depth.{IsSettled}
use smart_router.Tools.Schema.Settled.{validate_schema-IsSettled}
use smart_router.Tools.Schema.Flat.{IsFlat, validate-IsFlat}
use smart_router.Tools.Registry.{schema_for_arguments}
use smart_router.Tools.Proposal.{Runtime, propose}
use smart_router.Verify.Timing.{Clock}
use smart_router.Verify.Free.{check_tool_call}
use smart_router.Verify.Free.Agreement.{Agrees, check_tool_call-Agrees}
use smart_router.Tests.Samples.{nat_float}
use smart_router.Tests.Tooling.{spec}
use smart_router.Tests.Verdicts.{context}

-- patterns without special characters
abbrev re_search : Search
re_search p t = some (contains p t)

-- {"type": "object", "properties": {"ids": {"type": "array", "items": {"type": "integer",
-- "maximum": 9}}}, "required": ["ids"]}
abbrev ids_schema : Json ℕ
ids_schema = Json.object (
    Fields.field "type" (Json.text (codes "object")) (
      Fields.field "properties"
        (Json.object (
          Fields.field "ids"
            (Json.object (
              Fields.field "type" (Json.text (codes "array")) (
                Fields.field "items"
                  (Json.object (
                    Fields.field "type" (Json.text (codes "integer"))
                      (Fields.field "maximum" (Json.integer (pos 9)) Fields.end)))
                  Fields.end)))
            Fields.end))
        (Fields.field "required" (Json.array (Items.cons (Json.text (codes "ids")) Items.nil))
          Fields.end)))

abbrev ids : ℕ → Json ℕ
ids n = Json.object (
    Fields.field "ids"
      (Json.array (Items.cons (Json.integer (pos 3)) (Items.cons (Json.integer (pos n)) Items.nil)))
      Fields.end)

validate_ids : validate_schema re_search (ids 9) ids_schema [] ≡ valid
unfolding validate_schema check_schema check_branches check_const check_enum check_type type_ok
    check_value check_required check_known check_properties check_items get_field get_text iterate
    is_true number_lt
validate_ids = refl

-- the path names the element
validate_large_id :
    validate_schema re_search (ids 10) ids_schema []
    ≡ fails (key "ids" ∷ index 1 ∷ []) (Violation.above_maximum (Json.integer (pos 9)))
unfolding validate_schema check_schema check_branches check_const check_enum check_type type_ok
    check_value check_required check_known check_properties check_items get_field get_text iterate
    is_true number_lt
validate_large_id = refl

validate_no_ids :
    validate_schema re_search (Json.object Fields.end) ids_schema []
    ≡ fails [] (Violation.missing_field (Json.text (codes "ids")))
unfolding validate_schema check_schema check_branches check_const check_enum check_type type_ok
    check_value check_required check_known check_properties check_items get_field get_text iterate
    is_true number_lt
validate_no_ids = refl

-- a schema that is true and no object
validate_odd : validate_schema {F = ℕ} re_search Json.null (Json.boolean true) [] ≡ raises
unfolding validate_schema is_true
validate_odd = refl

validate_schema-IsSettled_example : IsSettled (validate_schema re_search (ids 10) ids_schema [])
validate_schema-IsSettled_example = validate_schema-IsSettled re_search (ids 10) ids_schema []

abbrev arguments : Fields ℕ
arguments = Fields.field "id" (Json.text (codes "A-1")) Fields.end

validate-IsFlat_example :
    (validate_schema re_search (Json.object arguments) (Json.object (schema_for_arguments spec)) []
      ≡ valid)
    ↔ IsFlat spec arguments
validate-IsFlat_example = validate-IsFlat re_search spec arguments [] refl

-- `json.loads` on the answer "{}" of the context, which stands for a call without arguments
abbrev runtime : Runtime ℕ
runtime = record {
  loads = λ t. some (Json.object (Fields.field "tool" (Json.text (codes "get_issue")) Fields.end));
  name_of = λ t. "get_issue";
  show = λ j. "";
  is_zero = λ n. nat_eq n 0;
}

abbrev clock : Clock ℕ ℕ
clock w = (w, w + 1)

abbrev check : Fields ℕ → Fields ℕ → Result (Option (Message ℕ))
check d s = elim (validate_schema re_search (Json.object d) (Json.object s) []) [
  | valid ↦ ok none
  | raises ↦ raised (Exception.type_error "malformed schema")
  | _ ↦ ok (some (Message.fixed "invalid arguments"))
]

check_tool_call-Agrees_example :
    Agrees check
      (propose runtime (("get_issue", spec) ∷ []) (some "r1") context.response.text)
      (check_tool_call clock runtime check (("get_issue", spec) ∷ []) context 0).0
check_tool_call-Agrees_example =
    check_tool_call-Agrees clock runtime check (("get_issue", spec) ∷ []) (some "r1") context 0
