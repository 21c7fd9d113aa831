-- ===== src/Tools/Schema.antt =====
-- tools/schema.py, `validate_schema`: the validation of a value against a schema, to any depth.
pub mod Checks
pub mod Depth
pub mod Settled
pub mod Flat
use smart_router.Prelude.{
  ℕ, zero, suc, ◌+◌, Bool, true, false, not, Option, none, some, List, [], ◌∷◌, Float,
  if◌then◌else◌,
}
use Prim.Native.Nat.{max}
use smart_router.Prelude.Strings.{contains}
use smart_router.Schemas.Message.{Text}
use smart_router.Tools.Json.{
  ℤ, pos, Json, Items, Fields, get_field, text, array, object, integer, float,
}
use smart_router.Tools.Value.{
  Number, number_of, count_items, chars, iterate, number_lt, is_true, json_eq, item_in, member,
}
use smart_router.Tools.Schema.Checks.{
  PathStep, Violation, Outcome, valid, raises, exhausted, fails, ◌and_then◌, require, Check,
  check_branches, check_type, check_items, check_required, check_known, check_properties,
  forbids_unknown, check_malformed,
}

-- `re.search(pattern, text)`: whether it matches; no value is an invalid pattern
abbrev pub Search : Type 0
Search = Text → Text → Option Bool

module _ {F : Type 0} ⦃f : Float F⦄ where
  unfoldable pub check_const : Json F → Fields F → List PathStep → Outcome F
  check_const v s path = elim (get_field "const" s) [
    | none ↦ valid
    | some c ↦ if json_eq v c then valid else fails path (Violation.not_const c v)
  ]

  unfoldable pub check_enum : Json F → Fields F → List PathStep → Outcome F
  check_enum v s path = elim (get_field "enum" s) [
    | none ↦ valid
    | some c ↦ require (member v c) (fails path (Violation.not_in_enum c v))
  ]

  unfoldable pub check_pattern : Search → Text → Fields F → List PathStep → Outcome F
  check_pattern re_search t s path = elim (get_field "pattern" s) [
    | none ↦ valid
    | some p ↦
        if is_true p
        then (elim p [
          | text r ↦ require (re_search r t) (fails path (Violation.no_match r))
          | _ ↦ raises
        ])
        else valid
  ]

  -- `key in schema and value < schema[key]`; an order with no number raises
  unfoldable pub check_least : Number F → Option (Json F) → Outcome F → Outcome F
  check_least n none otherwise = valid
  check_least n (some b) otherwise = elim (number_of b) [
    | none ↦ raises
    | some m ↦ if number_lt n m then otherwise else valid
  ]

  -- `key in schema and value > schema[key]`
  unfoldable pub check_most : Number F → Option (Json F) → Outcome F → Outcome F
  check_most n none otherwise = valid
  check_most n (some b) otherwise = elim (number_of b) [
    | none ↦ raises
    | some m ↦ if number_lt m n then otherwise else valid
  ]

  -- the value of a key that is there, which a detail prints
  abbrev bound_of : Option (Json F) → Json F
  bound_of none = Json.null
  bound_of (some b) = b

  unfoldable pub check_range : Number F → Fields F → List PathStep → Outcome F
  unfolding check_least check_most
  check_range n s path =
      let low = get_field "minimum" s in
      let high = get_field "maximum" s in
      check_least n low (fails path (Violation.below_minimum (bound_of low)))
      and_then check_most n high (fails path (Violation.above_maximum (bound_of high)))

  unfoldable pub check_array : Check F → Items F → Fields F → List PathStep → Outcome F
  unfolding check_least check_most
  check_array rec xs s path =
      let n = Number.whole (pos (count_items xs)) in
      let low = get_field "minItems" s in
      let high = get_field "maxItems" s in
      check_least n low (fails path (Violation.too_few_items (bound_of low)))
      and_then check_most n high (fails path (Violation.too_many_items (bound_of high)))
      and_then (elim (get_field "items" s) [
        | none ↦ valid
        | some item ↦ elim item [ object d ↦ check_items rec xs (object d) path 0 | _ ↦ valid ]
      ])

  -- `schema.get("required", [])`, which must be something to run through
  unfoldable pub check_requirements : Fields F → Fields F → List PathStep → Outcome F
  check_requirements d s path = elim (get_field "required" s) [
    | none ↦ valid
    | some rs ↦ elim (iterate rs) [ none ↦ raises | some xs ↦ check_required d xs path ]
  ]

  -- the fields of an object against properties that are an object
  unfoldable pub check_fields : Check F → Fields F → Fields F → Fields F → List PathStep → Outcome F
  check_fields rec d ps s path =
      (if forbids_unknown s then check_known d ps path else valid)
      and_then check_properties rec d ps path

  -- ... and against others that are true
  unfoldable pub check_odd_fields : Fields F → Json F → Fields F → List PathStep → Outcome F
  check_odd_fields d ps s path =
      if forbids_unknown s
      then (elim ps [
        | array xs ↦ check_malformed (λ k. item_in k xs) d (array xs) xs path
        | text t ↦
            check_malformed (λ k. elim k [ text u ↦ contains u t | _ ↦ false ]) d (text t) (chars t)
              path
        | _ ↦ raises
      ])
      else raises

  unfoldable pub check_declared : Check F → Fields F → Json F → Fields F → List PathStep → Outcome F
  unfolding check_fields check_odd_fields
  check_declared rec d (Json.object ps) s path = check_fields rec d ps s path
  check_declared rec d ps s path =
      if is_true ps then check_odd_fields d ps s path else check_fields rec d Fields.end s path

  -- `schema.get("properties") or {}`
  unfoldable pub check_object : Check F → Fields F → Fields F → List PathStep → Outcome F
  unfolding check_requirements check_declared
  check_object rec d s path =
      check_requirements d s path and_then (elim (get_field "properties" s) [
        | none ↦ check_fields rec d Fields.end s path
        | some ps ↦ check_declared rec d ps s path
      ])

  unfoldable pub check_value : Search → Check F → Json F → Fields F → List PathStep → Outcome F
  unfolding check_pattern check_range check_array check_object
  check_value re_search rec v s path = elim v [
    | text t ↦ check_pattern re_search t s path
    | integer n ↦ check_range (Number.whole n) s path
    | float x ↦ check_range (Number.real x) s path
    | array xs ↦ check_array rec xs s path
    | object d ↦ check_object rec d s path
    | _ ↦ valid
  ]

  -- the checks of a value against a schema that is an object, in the order of the source
  unfoldable pub check_schema : Search → Check F → Json F → Fields F → List PathStep → Outcome F
  check_schema re_search rec v s path =
      check_branches rec "oneOf" v s path
      and_then check_branches rec "anyOf" v s path
      and_then check_const v s path
      and_then check_enum v s path
      and_then check_type v s path
      and_then check_value re_search rec v s path

  -- The validation to a depth. A schema that is false says nothing; one that is true and no object
  -- raises, at `schema[key]` or at `schema.get`.
  unfoldable pub validate_to : Search → ℕ → Check F
  unfolding check_schema
  validate_to re_search zero v s path = exhausted
  validate_to re_search (suc n) v s path =
      if is_true s
      then (elim s [
        | object d ↦ check_schema re_search (validate_to re_search n) v d path
        | _ ↦ raises
      ])
      else valid

-- how deep a schema is
unfoldable mutual
  pub depth : {F : Type 0} → Json F → ℕ
  depth (Json.array xs) = suc (depth_items xs)
  depth (Json.object d) = suc (depth_fields d)
  depth _ = 0

  pub depth_items : {F : Type 0} → Items F → ℕ
  depth_items Items.nil = 0
  depth_items (Items.cons x xs) = max (depth x) (depth_items xs)

  pub depth_fields : {F : Type 0} → Fields F → ℕ
  depth_fields Fields.end = 0
  depth_fields (Fields.field k v d) = max (depth v) (depth_fields d)

-- `validate_schema`: to more than the depth of the schema
unfoldable pub validate_schema : {F : Type 0} ⦃f : Float F⦄ → Search → Check F
unfolding validate_to depth
validate_schema re_search v s path = validate_to re_search (suc (depth s)) v s path
