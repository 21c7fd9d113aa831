-- ===== src/Tools/Value.antt =====
-- What Python does with the values of `json.loads`: truth, `==`, `in`, iteration and the order of
-- numbers. An int and a float are compared as floats.
use smart_router.Prelude.{
  ℕ, zero, suc, Bool, true, false, not, ◌&&◌, Option, none, some, [], ◌∷◌, Float, ltb, nat_eq,
  if◌then◌else◌,
}
use smart_router.Prelude.Strings.{codes, contains, text_eq}
use smart_router.Schemas.Message.{Text}
use smart_router.Tools.Json.{
  ℤ, pos, negsuc, Json, Items, Fields, get_field, array, object, text, nil, cons,
}

abbrev int_lt : ℤ → ℤ → Bool
int_lt (pos a) (pos b) = ltb a b
int_lt (pos a) (negsuc b) = false
int_lt (negsuc a) (pos b) = true
int_lt (negsuc a) (negsuc b) = ltb b a

abbrev int_eq : ℤ → ℤ → Bool
int_eq (pos a) (pos b) = nat_eq a b
int_eq (negsuc a) (negsuc b) = nat_eq a b
int_eq _ _ = false

-- an int, as which a Boolean counts, or a float
pub data Number (F : Type 0) : Type 0 where
  whole : ℤ → Number F
  real : F → Number F

module _ {F : Type 0} where
  -- the operand of an order or an equation
  abbrev pub number_of : Json F → Option (Number F)
  number_of (Json.boolean false) = some (Number.whole (pos 0))
  number_of (Json.boolean true) = some (Number.whole (pos 1))
  number_of (Json.integer n) = some (Number.whole n)
  number_of (Json.float x) = some (Number.real x)
  number_of _ = none

  abbrev is_null : Json F → Bool
  is_null Json.null = true
  is_null _ = false

  pub count_items : Items F → ℕ
  count_items Items.nil = 0
  count_items (Items.cons x xs) = suc (count_items xs)

  count_fields : Fields F → ℕ
  count_fields Fields.end = 0
  count_fields (Fields.field k v d) = suc (count_fields d)

  -- `t in d` and `d.get(t)`, for a text `t`
  unfoldable pub get_text : Text → Fields F → Option (Json F)
  get_text t Fields.end = none
  get_text t (Fields.field k v d) =
      let rest = get_text t d in if text_eq (codes k) t then some v else rest

  unfoldable pub keys : Fields F → Items F
  keys Fields.end = Items.nil
  keys (Fields.field k v d) = Items.cons (Json.text (codes k)) (keys d)

  unfoldable pub chars : Text → Items F
  chars [] = Items.nil
  chars (c ∷ t) = Items.cons (Json.text (c ∷ [])) (chars t)

  -- what a `for` runs through; no value is `TypeError`
  unfoldable pub iterate : Json F → Option (Items F)
  unfolding keys chars
  iterate (Json.array xs) = some xs
  iterate (Json.object d) = some (keys d)
  iterate (Json.text t) = some (chars t)
  iterate _ = none

module _ {F : Type 0} ⦃f : Float F⦄ where
  abbrev to_float : Number F → F
  to_float (Number.whole (pos n)) = f.of_nat n
  to_float (Number.whole (negsuc n)) = f.of_diff 0 (suc n)
  to_float (Number.real x) = x

  unfoldable pub number_lt : Number F → Number F → Bool
  number_lt (Number.whole m) (Number.whole n) = int_lt m n
  number_lt (Number.whole m) (Number.real y) = f.lt_f (to_float (Number.whole m)) y
  number_lt (Number.real x) n = f.lt_f x (to_float n)

  abbrev float_eq : F → F → Bool
  float_eq x y = f.le_f x y && f.le_f y x

  unfoldable pub number_eq : Number F → Number F → Bool
  number_eq (Number.whole m) (Number.whole n) = int_eq m n
  number_eq (Number.whole m) (Number.real y) = float_eq (to_float (Number.whole m)) y
  number_eq (Number.real x) n = float_eq x (to_float n)

  abbrev equals_number : Number F → Option (Number F) → Bool
  equals_number m none = false
  equals_number m (some n) = number_eq m n

  -- `bool(j)`
  unfoldable pub is_true : Json F → Bool
  is_true Json.null = false
  is_true (Json.boolean b) = b
  is_true (Json.integer (pos zero)) = false
  is_true (Json.integer _) = true
  is_true (Json.float x) = not (float_eq x f.zero_f)
  is_true (Json.text []) = false
  is_true (Json.text (c ∷ t)) = true
  is_true (Json.array Items.nil) = false
  is_true (Json.array (Items.cons x xs)) = true
  is_true (Json.object Fields.end) = false
  is_true (Json.object (Fields.field k v d)) = true

  -- `==`: objects regardless of the order of their keys
  unfoldable mutual
    unfolding number_eq count_fields get_field

    pub json_eq : Json F → Json F → Bool
    json_eq Json.null w = is_null w
    json_eq (Json.boolean false) w = equals_number (Number.whole (pos 0)) (number_of w)
    json_eq (Json.boolean true) w = equals_number (Number.whole (pos 1)) (number_of w)
    json_eq (Json.integer n) w = equals_number (Number.whole n) (number_of w)
    json_eq (Json.float x) w = equals_number (Number.real x) (number_of w)
    json_eq (Json.text s) w = elim w [ text t ↦ text_eq s t | _ ↦ false ]
    json_eq (Json.array xs) w = elim w [ array ys ↦ items_eq xs ys | _ ↦ false ]
    json_eq (Json.object d) w = elim w [
      | object e ↦ nat_eq (count_fields d) (count_fields e) && fields_in d e
      | _ ↦ false
    ]

    pub items_eq : Items F → Items F → Bool
    items_eq Items.nil ys = elim ys [ nil ↦ true | _ ↦ false ]
    items_eq (Items.cons x xs) ys = elim ys [
      | nil ↦ false
      | cons y ys' ↦ json_eq x y && items_eq xs ys'
    ]

    pub fields_in : Fields F → Fields F → Bool
    fields_in Fields.end e = true
    fields_in (Fields.field k v d) e = elim (get_field k e) [
      | none ↦ false
      | some w ↦ json_eq v w && fields_in d e
    ]

  unfoldable pub item_in : Json F → Items F → Bool
  item_in v Items.nil = false
  item_in v (Items.cons x xs) = let rest = item_in v xs in if json_eq v x then true else rest

  -- `v in c`; no value is `TypeError`
  unfoldable pub member : Json F → Json F → Option Bool
  unfolding item_in get_text contains
  member v (Json.array xs) = some (item_in v xs)
  member v (Json.text u) = elim v [ text t ↦ some (contains t u) | _ ↦ none ]
  member v (Json.object d) = elim v [
    | text t ↦ elim (get_text t d) [ none ↦ some false | some _ ↦ some true ]
    | array _ ↦ none
    | object _ ↦ none
    | _ ↦ some false
  ]
  member v _ = none
