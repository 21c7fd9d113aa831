-- ===== src/Tools/Schema/Settled.antt =====
-- tools/schema.py, `validate_schema`: a depth above that of the schema suffices.
use smart_router.Prelude.{
  ℕ, zero, suc, ◌≤◌, ◌<◌, Bool, Option, none, some, List, ◌≡◌, inl, inr, Float, Bool-cases,
  Option-cases, if◌then◌else◌, arith,
}
use smart_router.Schemas.Message.{Text}
use smart_router.Tools.Json.{Json, Items, Fields, get_field, object}
use smart_router.Tools.Value.{Number, is_true}
use smart_router.Tools.Schema.Checks.{
  PathStep, Outcome, valid, Check, check_items, check_type, check_required, check_known,
  check_malformed,
}
use smart_router.Tools.Schema.Depth.{
  IsSettled, SettlesTo, and_then-IsSettled, depth-get_field-le, branches-IsSettled, items-IsSettled,
  properties-IsSettled,
}
use smart_router.Tools.Schema.{
  Search, check_const, check_enum, check_pattern, check_least, check_most, check_range,
  check_requirements, check_odd_fields, check_array, check_object, check_value, check_schema,
  check_fields, check_declared, validate_to, validate_schema, depth, depth_fields,
}

module _ {F : Type 0} where
  type-IsSettled :
      (v : Json F) (s : Fields F) (path : List PathStep) → IsSettled (check_type v s path)
  unfolding check_type
  type-IsSettled v s path = grind arith

  required-IsSettled :
      (d : Fields F) (rs : Items F) (path : List PathStep) → IsSettled (check_required d rs path)
  unfolding check_required
  required-IsSettled d Items.nil path = tt
  required-IsSettled d (Items.cons r rs) path =
      let rest = required-IsSettled d rs path in grind arith

  known-IsSettled :
      (d known : Fields F) (path : List PathStep) → IsSettled (check_known d known path)
  unfolding check_known
  known-IsSettled Fields.end known path = tt
  known-IsSettled (Fields.field k v d) known path =
      let rest = known-IsSettled d known path in grind arith

  malformed-IsSettled :
      (has : Json F → Bool) (d : Fields F) (ps : Json F) (xs : Items F) (path : List PathStep)
      → IsSettled (check_malformed has d ps xs path)
  unfolding check_malformed
  malformed-IsSettled has Fields.end ps xs path = tt
  malformed-IsSettled has (Fields.field k v d) ps xs path =
      let rest = malformed-IsSettled has d ps xs path in grind arith

module _ {F : Type 0} ⦃f : Float F⦄ where
  least-IsSettled :
      (n : Number F) (b : Option (Json F)) (o : Outcome F)
      → IsSettled o
      → IsSettled (check_least n b o)
  unfolding check_least
  least-IsSettled n none o h = tt
  least-IsSettled n (some b) o h = grind arith

  most-IsSettled :
      (n : Number F) (b : Option (Json F)) (o : Outcome F)
      → IsSettled o
      → IsSettled (check_most n b o)
  unfolding check_most
  most-IsSettled n none o h = tt
  most-IsSettled n (some b) o h = grind arith

  const-IsSettled :
      (v : Json F) (s : Fields F) (path : List PathStep) → IsSettled (check_const v s path)
  unfolding check_const
  const-IsSettled v s path = grind arith

  enum-IsSettled :
      (v : Json F) (s : Fields F) (path : List PathStep) → IsSettled (check_enum v s path)
  unfolding check_enum
  enum-IsSettled v s path = grind arith

  pattern-IsSettled :
      (re_search : Search) (t : Text) (s : Fields F) (path : List PathStep)
      → IsSettled (check_pattern re_search t s path)
  unfolding check_pattern
  pattern-IsSettled re_search t s path = grind arith

  range-IsSettled :
      (n : Number F) (s : Fields F) (path : List PathStep) → IsSettled (check_range n s path)
  unfolding check_range
  range-IsSettled n s path =
      and_then-IsSettled _ _ (least-IsSettled n (get_field "minimum" s) _ tt)
        (most-IsSettled n (get_field "maximum" s) _ tt)

  requirements-IsSettled :
      (d s : Fields F) (path : List PathStep) → IsSettled (check_requirements d s path)
  unfolding check_requirements
  requirements-IsSettled d s path = grind (arith, required-IsSettled)

  odd_fields-IsSettled :
      (d : Fields F) (ps : Json F) (s : Fields F) (path : List PathStep)
      → IsSettled (check_odd_fields d ps s path)
  unfolding check_odd_fields
  odd_fields-IsSettled d ps s path = grind (arith, malformed-IsSettled)

  module _ (re_search : Search) (rec : Check F) (s : Fields F)
      (h : SettlesTo (depth_fields s) rec) where
    array-IsSettled : (xs : Items F) (path : List PathStep) → IsSettled (check_array rec xs s path)
    unfolding check_array
    array-IsSettled xs path =
        and_then-IsSettled _ _ (least-IsSettled _ (get_field "minItems" s) _ tt)
          (and_then-IsSettled _ _ (most-IsSettled _ (get_field "maxItems" s) _ tt) elements)
      where
        elements : IsSettled (elim (get_field "items" s) [
          | none ↦ valid
          | some item ↦ elim item [ object d ↦ check_items rec xs (object d) path 0 | _ ↦ valid ]
        ])
        elements = elim (Option-cases (get_field "items" s)) [
          | inl missing ↦ rw (missing, IsSettled) tt
          | inr (item, found) ↦ rw (found, IsSettled) (by_kind item found)
        ]
          where
            by_kind :
                (item : Json F)
                → get_field "items" s ≡ some item
                → IsSettled
                    (elim item [ object d ↦ check_items rec xs (object d) path 0 | _ ↦ valid ])
            by_kind (object d) e =
                items-IsSettled rec xs (object d) path 0 (depth_fields s) h
                  (depth-get_field-le "items" s (object d) e)
            by_kind _ e = tt

    fields-IsSettled :
        (d ps : Fields F) (path : List PathStep)
        → depth_fields ps ≤ depth_fields s
        → IsSettled (check_fields rec d ps s path)
    unfolding check_fields
    fields-IsSettled d ps path le =
        and_then-IsSettled _ _ (grind (arith, known-IsSettled))
          (properties-IsSettled rec d ps path (depth_fields s) h le)

    none-depth : depth_fields {F = F} Fields.end ≤ depth_fields s
    unfolding depth
    none-depth = omega arith

    below : (ps : Fields F) → depth (object ps) ≤ depth_fields s → depth_fields ps ≤ depth_fields s
    unfolding depth
    below ps le = omega arith

    odd :
        (d : Fields F) (ps : Json F) (path : List PathStep)
        → IsSettled (
            if is_true ps
            then check_odd_fields d ps s path
            else check_fields rec d Fields.end s path)
    odd d ps path = elim (Bool-cases (is_true ps)) [
      | inl holds ↦ rw (holds, IsSettled) (odd_fields-IsSettled d ps s path)
      | inr empty ↦ rw (empty, IsSettled) (fields-IsSettled d Fields.end path none-depth)
    ]

    declared-IsSettled :
        (d : Fields F) (ps : Json F) (path : List PathStep)
        → get_field "properties" s ≡ some ps
        → IsSettled (check_declared rec d ps s path)
    unfolding check_declared
    declared-IsSettled d (Json.object ps) path e =
        fields-IsSettled d ps path (below ps (depth-get_field-le "properties" s (object ps) e))
    declared-IsSettled d Json.null path e = odd d Json.null path
    declared-IsSettled d (Json.boolean b) path e = odd d (Json.boolean b) path
    declared-IsSettled d (Json.integer n) path e = odd d (Json.integer n) path
    declared-IsSettled d (Json.float x) path e = odd d (Json.float x) path
    declared-IsSettled d (Json.text t) path e = odd d (Json.text t) path
    declared-IsSettled d (Json.array xs) path e = odd d (Json.array xs) path

    object-IsSettled : (d : Fields F) (path : List PathStep) → IsSettled (check_object rec d s path)
    unfolding check_object
    object-IsSettled d path =
        and_then-IsSettled _ _ (requirements-IsSettled d s path)
          (elim (Option-cases (get_field "properties" s)) [
            | inl missing ↦ rw (missing, IsSettled) (fields-IsSettled d Fields.end path none-depth)
            | inr (ps, found) ↦ rw (found, IsSettled) (declared-IsSettled d ps path found)
          ])

    value-IsSettled :
        (v : Json F) (path : List PathStep) → IsSettled (check_value re_search rec v s path)
    unfolding check_value
    value-IsSettled (Json.text t) path = pattern-IsSettled re_search t s path
    value-IsSettled (Json.integer n) path = range-IsSettled (Number.whole n) s path
    value-IsSettled (Json.float x) path = range-IsSettled (Number.real x) s path
    value-IsSettled (Json.array xs) path = array-IsSettled xs path
    value-IsSettled (Json.object d) path = object-IsSettled d path
    value-IsSettled Json.null path = tt
    value-IsSettled (Json.boolean b) path = tt

    schema-IsSettled :
        (v : Json F) (path : List PathStep) → IsSettled (check_schema re_search rec v s path)
    unfolding check_schema
    schema-IsSettled v path = and_then-IsSettled _ _ (branches-IsSettled rec "oneOf" v s path h) (
        and_then-IsSettled _ _ (branches-IsSettled rec "anyOf" v s path h) (
          and_then-IsSettled _ _ (const-IsSettled v s path) (
            and_then-IsSettled _ _ (enum-IsSettled v s path)
              (and_then-IsSettled _ _ (type-IsSettled v s path) (value-IsSettled v path)))))

  validate_to-IsSettled :
      (re_search : Search) (n : ℕ) (v s : Json F) (path : List PathStep)
      → depth s < n
      → IsSettled (validate_to re_search n v s path)
  unfolding validate_to depth
  validate_to-IsSettled re_search zero v s path le = absurd (omega (arith, le))
  validate_to-IsSettled re_search (suc n) v (Json.object d) path le =
      elim (Bool-cases (is_true (object d))) [
        | inl holds ↦
            rw (holds, IsSettled)
              (schema-IsSettled re_search (validate_to re_search n) d
                (λ v' s' path' le'. validate_to-IsSettled re_search n v' s' path' (omega arith)) v
                path)
        | inr empty ↦ rw (empty, IsSettled) tt
      ]
  validate_to-IsSettled re_search (suc n) v s path le = grind arith

  -- The validation ends with an outcome of the source on every value and schema: the depth that it
  -- is given, one more than that of the schema, is never exhausted.
  pub validate_schema-IsSettled :
      (re_search : Search) (v s : Json F) (path : List PathStep)
      → IsSettled (validate_schema re_search v s path)
  unfolding validate_schema
  validate_schema-IsSettled re_search v s path =
      validate_to-IsSettled re_search (suc (depth s)) v s path (omega arith)
