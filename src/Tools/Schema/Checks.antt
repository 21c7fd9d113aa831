-- ===== src/Tools/Schema/Checks.antt =====
-- tools/schema.py, `validate_schema`: the checks of one value against one schema. The validation of a
-- part against a part is an argument, `rec`.
use smart_router.Prelude.{
  ℕ, ◌+◌, Bool, true, false, not, Option, none, some, List, [], ◌∷◌, ◌++◌, String, if◌then◌else◌,
}
use smart_router.Prelude.Strings.{codes, text_eq}
use smart_router.Schemas.Message.{Text}
use smart_router.Tools.Json.{
  Json, Items, Fields, get_field, text, array, object, boolean, integer, null,
}
use smart_router.Tools.Value.{get_text, iterate, keys}

-- a step from a value to a part of it: `.key` or `[i]`
pub data PathStep : Type 0 where
  key : String → PathStep
  index : ℕ → PathStep

-- what the details of `validate_schema` say, with the values that they print
pub data Violation (F : Type 0) : Type 0 where
  no_branch : String → Violation F
  not_const not_in_enum : Json F → Json F → Violation F
  wrong_type : Json F → Json F → Violation F
  no_match : Text → Violation F
  below_minimum above_maximum too_few_items too_many_items : Json F → Violation F
  missing_field : Json F → Violation F
  unknown_field : String → Json F → Violation F

-- a detail begins with the path, which starts at "arguments"
pub record SchemaFault (F : Type 0) : Type 0 where
  pub path : List PathStep
  pub violation : Violation F

-- `raises` is an exception, such as `TypeError` on a malformed schema. `exhausted` is no outcome of
-- the source: the depth that was given did not suffice.
pub data Outcome (F : Type 0) : Type 0 where
  valid : Outcome F
  invalid : SchemaFault F → Outcome F
  raises exhausted : Outcome F

-- the validation that a value and a part of a schema are given to
abbrev pub Check : Type 0 → Type 0
Check F = Json F → Json F → List PathStep → Outcome F

module _ {F : Type 0} where
  abbrev pub fails : List PathStep → Violation F → Outcome F
  fails path v = invalid (record { path = path; violation = v })

  -- the checks that follow one another
  infixr 30 ◌and_then◌
  abbrev pub ◌and_then◌ : Outcome F → Outcome F → Outcome F
  valid and_then o = o
  invalid e and_then o = invalid e
  raises and_then o = raises
  exhausted and_then o = exhausted

  -- a test that may raise
  abbrev pub require : Option Bool → Outcome F → Outcome F
  require none o = raises
  require (some true) o = valid
  require (some false) o = o

  -- `for branch in branches: ... else: return False`
  unfoldable pub any_branch : (Json F → Outcome F) → Outcome F → Items F → Outcome F
  any_branch try otherwise Items.nil = otherwise
  any_branch try otherwise (Items.cons b bs) =
      let rest = any_branch try otherwise bs in
      elim (try b) [ valid ↦ valid | invalid _ ↦ rest | raises ↦ raises | exhausted ↦ exhausted ]

  -- `oneOf` and `anyOf`
  unfoldable pub check_branches : Check F → String → Json F → Fields F → List PathStep → Outcome F
  unfolding any_branch
  check_branches rec k v s path = elim (get_field k s) [
    | none ↦ valid
    | some bs ↦ elim (iterate bs) [
      | none ↦ raises
      | some xs ↦ any_branch (λ b. rec v b path) (fails path (Violation.no_branch k)) xs
    ]
  ]

  abbrev is_number : Json F → Bool
  is_number (Json.integer n) = true
  is_number (Json.float x) = true
  is_number _ = false

  -- `_type_ok`: a Boolean is no number, and an unknown type is no type
  unfoldable pub type_ok : Json F → Text → Bool
  type_ok v t =
      if text_eq t (codes "string")
      then elim v [ text _ ↦ true | _ ↦ false ]
      else if text_eq t (codes "number")
      then is_number v
      else if text_eq t (codes "integer")
      then elim v [ integer _ ↦ true | _ ↦ false ]
      else if text_eq t (codes "boolean")
      then elim v [ boolean _ ↦ true | _ ↦ false ]
      else if text_eq t (codes "array")
      then elim v [ array _ ↦ true | _ ↦ false ]
      else if text_eq t (codes "object")
      then elim v [ object _ ↦ true | _ ↦ false ]
      else if text_eq t (codes "null")
      then elim v [ null ↦ true | _ ↦ false ]
      else true

  -- `any(_type_ok(value, d) for d in declared)`; a list or an object cannot be looked up
  unfoldable pub any_type : Json F → Items F → Option Bool
  unfolding type_ok
  any_type v Items.nil = some false
  any_type v (Items.cons d ds) =
      let rest = any_type v ds in
      elim d [
        | text t ↦ if type_ok v t then some true else rest
        | array _ ↦ none
        | object _ ↦ none
        | _ ↦ some true
      ]

  unfoldable pub check_type : Json F → Fields F → List PathStep → Outcome F
  check_type v s path = elim (get_field "type" s) [
    | none ↦ valid
    | some declared ↦ elim declared [
      | text t ↦ require (some (type_ok v t)) (fails path (Violation.wrong_type (text t) v))
      | array ds ↦ require (any_type v ds) (fails path (Violation.wrong_type (array ds) v))
      | _ ↦ valid
    ]
  ]

  -- the elements from the `i`-th on
  unfoldable pub check_items : Check F → Items F → Json F → List PathStep → ℕ → Outcome F
  check_items rec Items.nil s path i = valid
  check_items rec (Items.cons x xs) s path i =
      rec x s (path ++ (PathStep.index i ∷ [])) and_then check_items rec xs s path (i + 1)

  -- `schema.get("required", [])`: a field that is no text is in no object
  unfoldable pub check_required : Fields F → Items F → List PathStep → Outcome F
  check_required d Items.nil path = valid
  check_required d (Items.cons r rs) path =
      let rest = check_required d rs path in
      elim r [
        | text t ↦ elim (get_text t d) [
          | none ↦ fails path (Violation.missing_field (text t))
          | some _ ↦ rest
        ]
        | array _ ↦ raises
        | object _ ↦ raises
        | other ↦ fails path (Violation.missing_field other)
      ]

  -- each field of the value against the known ones
  unfoldable pub check_known : Fields F → Fields F → List PathStep → Outcome F
  check_known Fields.end known path = valid
  check_known (Fields.field k v d) known path =
      let rest = check_known d known path in
      elim (get_field k known) [
        | none ↦ fails path (Violation.unknown_field k (Json.array (keys known)))
        | some _ ↦ rest
      ]

  -- each declared property that the value has; a declaration that is no object is ignored
  unfoldable pub check_properties : Check F → Fields F → Fields F → List PathStep → Outcome F
  check_properties rec d Fields.end path = valid
  check_properties rec d (Fields.field k sub ps) path =
      let rest = check_properties rec d ps path in
      elim (get_field k d) [
        | none ↦ rest
        | some v ↦ elim sub [
          | object p ↦ rec v (object p) (path ++ (PathStep.key k ∷ [])) and_then rest
          | _ ↦ rest
        ]
      ]

  abbrev pub forbids_unknown : Fields F → Bool
  forbids_unknown s = elim (get_field "additionalProperties" s) [
    | none ↦ false
    | some a ↦ elim a [ boolean b ↦ not b | _ ↦ false ]
  ]

  unfoldable pub all_texts : Items F → Bool
  all_texts Items.nil = true
  all_texts (Items.cons x xs) = let rest = all_texts xs in elim x [ text _ ↦ rest | _ ↦ false ]

  -- `additionalProperties` against properties that are true and no object: the fields of the value
  -- are looked up in a list or a text, whose parts are then sorted and joined, if all are texts.
  -- If that finds nothing, `properties.items()` raises.
  unfoldable pub check_malformed :
      (Json F → Bool) → Fields F → Json F → Items F → List PathStep → Outcome F
  unfolding all_texts
  check_malformed has Fields.end ps xs path = raises
  check_malformed has (Fields.field k v d) ps xs path =
      let rest = check_malformed has d ps xs path in
      if has (text (codes k))
      then rest
      else if all_texts xs
      then fails path (Violation.unknown_field k ps)
      else raises
