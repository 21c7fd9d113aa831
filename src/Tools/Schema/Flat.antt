-- ===== src/Tools/Schema/Flat.antt =====
-- tools/schema.py on the schema that tools/registry.py makes from `arg_types` and `required`.
use smart_router.Prelude.{
  ℕ, suc, true, none, some, List, [], ◌∷◌, ◌++◌, String, ◌≡◌, ◌==◌, ◌↔◌, refl, subst, sym, ◌∙◌, inl,
  inr, Float, All, any, Bool-cases, Option-cases, is_some, some-injective, arith,
}
use smart_router.Prelude.Strings.{codes}
use smart_router.Schemas.Message.{Text}
use smart_router.Tools.Json.{Json, Fields, get_field}
use smart_router.Tools.Value.{get_text, iterate, is_true}
use smart_router.Tools.Registry.{
  ToolSpec, type_fields, text_items, synthesized, schema_for_arguments,
}
use smart_router.Tools.Schema.Checks.{
  PathStep, Outcome, valid, invalid, raises, exhausted, ◌and_then◌, Check, key, check_branches,
  check_properties, check_type, check_required, check_known, type_ok,
}
use smart_router.Tools.Schema.{
  Search, check_schema, check_value, check_object, check_const, check_enum, check_declared,
  check_fields, check_requirements, validate_to, validate_schema, depth, depth_fields,
}

-- the tool declares the argument
abbrev pub IsDeclared : List (String × String) → String → Type 0
IsDeclared ts k = any (λ (t : String × String). t.0 == k) ts ≡ true

declared-eq :
    (F : Type 0) (k : String) (ts : List (String × String))
    → is_some (get_field {F = F} k (type_fields ts)) ≡ any (λ (t : String × String). t.0 == k) ts
unfolding get_field
declared-eq F k [] = refl
declared-eq F k ((j, t) ∷ ts) = ground (arith, declared-eq F k ts)

module _ {F : Type 0} where
  and_then-eq_valid : (o p : Outcome F) → (o and_then p ≡ valid) ↔ ((o ≡ valid) × (p ≡ valid))
  and_then-eq_valid valid p = (λ h. (refl, h), λ h. h.1)
  and_then-eq_valid (invalid e) p = (λ h. absurd (cc h), λ h. absurd (cc (h.0)))
  and_then-eq_valid raises p = (λ h. absurd (cc h), λ h. absurd (cc (h.0)))
  and_then-eq_valid exhausted p = (λ h. absurd (cc h), λ h. absurd (cc (h.0)))

  -- the argument is there
  abbrev pub IsGiven : Fields F → String → Type 0
  IsGiven d r = is_some (get_text (codes r) d) ≡ true

  abbrev pub AllDeclared : List (String × String) → Fields F → Type 0
  AllDeclared ts Fields.end = Unit
  AllDeclared ts (Fields.field k v d) = IsDeclared ts k × AllDeclared ts d

  -- the argument, if it is there, is of the declared type
  abbrev pub IsTyped : Fields F → String × String → Type 0
  IsTyped d t = (v : Json F) → get_field t.0 d ≡ some v → type_ok v (codes t.1) ≡ true

  -- what a tool that declares no schema asks of its arguments
  pub record IsFlat (spec : ToolSpec F) (d : Fields F) : Type 0 where
    pub given : All (IsGiven d) spec.required
    pub declared : AllDeclared spec.arg_types d
    pub typed : All (IsTyped d) spec.arg_types

  required-IsGiven :
      (d : Fields F) (rs : List String) (path : List PathStep)
      → (check_required d (text_items rs) path ≡ valid) ↔ All (IsGiven d) rs
  unfolding check_required
  required-IsGiven d [] path = (λ h. tt, λ h. refl)
  required-IsGiven d (r ∷ rs) path = elim (Option-cases (get_text (codes r) d)) [
    | inl missing ↦
        (λ h. absurd (cc (rw (missing, check_required) at h)), λ h. absurd (cc (missing, h.0)))
    | inr (v, found) ↦
        let ih = required-IsGiven d rs path in
        (
          λ h. (rw found refl, ih.0 (rw (found, check_required) at h)),
          λ h. rw (found, check_required) (ih.1 h.1),
        )
  ]

  known-AllDeclared :
      (d : Fields F) (ts : List (String × String)) (path : List PathStep)
      → (check_known d (type_fields ts) path ≡ valid) ↔ AllDeclared ts d
  unfolding check_known
  known-AllDeclared Fields.end ts path = (λ h. tt, λ h. refl)
  known-AllDeclared (Fields.field k v d) ts path =
      elim (Option-cases (get_field {F = F} k (type_fields ts))) [
        | inl missing ↦ (
          λ h. absurd (cc (rw (missing, check_known) at h)),
          λ h. absurd (cc (missing, declared-eq F k ts, h.0)),
        )
        | inr (w, found) ↦
            let ih = known-AllDeclared d ts path in
            (
              λ h. (cc (found, declared-eq F k ts), ih.0 (rw (found, check_known) at h)),
              λ h. rw (found, check_known) (ih.1 h.1),
            )
      ]

module _ {F : Type 0} where
  -- the schema of a type
  abbrev alone : Text → Fields F
  alone t = Fields.field "type" (Json.text t) Fields.end

  type-alone :
      (v : Json F) (t : Text) (path : List PathStep)
      → (check_type v (alone t) path ≡ valid) ↔ (type_ok v t ≡ true)
  unfolding check_type get_field
  type-alone v t path = elim (Bool-cases (type_ok v t)) [
    | inl good ↦ (λ h. good, λ h. rw good refl)
    | inr bad ↦ (λ h. absurd (cc (rw bad at h)), λ h. absurd (cc (bad, h)))
  ]

module _ {F : Type 0} ⦃f : Float F⦄ (re_search : Search) where
  value-alone :
      (rec : Check F) (v : Json F) (t : Text) (path : List PathStep)
      → check_value re_search rec v (alone t) path ≡ valid
  unfolding check_value get_field check_properties
  value-alone rec Json.null t path = refl
  value-alone rec (Json.boolean b) t path = refl
  value-alone rec (Json.integer n) t path = refl
  value-alone rec (Json.float x) t path = refl
  value-alone rec (Json.text s) t path = refl
  value-alone rec (Json.array xs) t path = refl
  value-alone rec (Json.object d) t path = refl

  validate-type :
      (n : ℕ) (v : Json F) (t : Text) (path : List PathStep)
      → (validate_to re_search (suc n) v (Json.object (alone t)) path ≡ valid)
        ↔ (type_ok v t ≡ true)
  unfolding validate_to check_schema check_branches check_const check_enum get_field is_true
  validate-type n v t path =
      let parts =
        and_then-eq_valid (check_type v (alone t) path)
          (check_value re_search (validate_to re_search n) v (alone t) path) in
      let typed = type-alone v t path in
      (λ h. typed.0 (parts.0 h).0, λ h. parts.1 (typed.1 h, value-alone _ v t path))

  properties-IsTyped :
      (n : ℕ) (d : Fields F) (ts : List (String × String)) (path : List PathStep)
      → (check_properties (validate_to re_search (suc n)) d (type_fields ts) path ≡ valid)
        ↔ All (IsTyped d) ts
  unfolding check_properties
  properties-IsTyped n d [] path = (λ h. tt, λ h. refl)
  properties-IsTyped n d ((k, t) ∷ ts) path =
      let ih = properties-IsTyped n d ts path in
      let rec : Check F = validate_to re_search (suc n) in
      let inner = path ++ (key k ∷ []) in
      elim (Option-cases (get_field k d)) [
        | inl missing ↦ (
          λ h. (λ v e. absurd (cc (missing, e)), ih.0 (rw (missing, check_properties) at h)),
          λ h. rw (missing, check_properties) (ih.1 h.1),
        )
        | inr (v, found) ↦
            let typed = validate-type n v (codes t) inner in
            let parts =
              and_then-eq_valid (rec v (Json.object (alone (codes t))) inner)
                (check_properties rec d (type_fields ts) path) in
            (
              λ h.
                  let both = parts.0 (rw (found, check_properties) at h) in
                  (
                    λ w e.
                        let same : v ≡ w = some-injective (sym found ∙ e) in
                        subst (λ x. type_ok x (codes t) ≡ true) same (typed.0 both.0),
                    ih.0 both.1,
                  ),
              λ h. rw (found, check_properties) (parts.1 (typed.1 (h.0 v found), ih.1 h.1)),
            )
      ]

  synthesized-IsFlat :
      (spec : ToolSpec F) (d : Fields F) (path : List PathStep)
      → (validate_schema re_search (Json.object d) (Json.object (synthesized spec)) path ≡ valid)
        ↔ IsFlat spec d
  unfolding validate_schema check_schema check_branches check_const check_enum check_type type_ok
      check_value check_object check_declared check_fields check_requirements get_field is_true
      iterate depth
  synthesized-IsFlat spec d path =
      let n = depth_fields (synthesized spec) in
      let rec = validate_to re_search (suc n) in
      let ps = type_fields spec.arg_types in
      let outer =
        and_then-eq_valid (check_required d (text_items spec.required) path)
          (check_known d ps path and_then check_properties rec d ps path) in
      let inner = and_then-eq_valid (check_known d ps path) (check_properties rec d ps path) in
      let given = required-IsGiven d spec.required path in
      let declared = known-AllDeclared d spec.arg_types path in
      let typed = properties-IsTyped n d spec.arg_types path in
      (
        λ h.
            let a = outer.0 h in
            let b = inner.0 a.1 in
            record { given = given.0 a.0; declared = declared.0 b.0; typed = typed.0 b.1 },
        λ h. outer.1 (given.1 h.given, inner.1 (declared.1 h.declared, typed.1 h.typed)),
      )

  schema-synthesized :
      (spec : ToolSpec F)
      → spec.argument_schema ≡ none
      → schema_for_arguments spec ≡ synthesized spec
  unfolding schema_for_arguments
  schema-synthesized spec e = ground arith

  -- A tool that declares no schema accepts exactly the arguments that hold all its required ones,
  -- hold no undeclared one, and are of the declared types.
  pub validate-IsFlat :
      (spec : ToolSpec F) (d : Fields F) (path : List PathStep)
      → spec.argument_schema ≡ none
      → (validate_schema re_search (Json.object d) (Json.object (schema_for_arguments spec)) path
          ≡ valid)
        ↔ IsFlat spec d
  validate-IsFlat spec d path e =
      subst
        (λ s.
          (validate_schema re_search (Json.object d) (Json.object s) path ≡ valid) ↔ IsFlat spec d)
        (sym (schema-synthesized spec e)) (synthesized-IsFlat spec d path)
