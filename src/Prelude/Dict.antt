-- ===== src/Prelude/Dict.antt =====
-- Python's `dict` and `OrderedDict`: entries in the order of insertion, one for each key. A key is
-- compared by an instance of `Eq`.
use Prim.Native.Nat.{suc, ◌≤◌}
use Prim.Native.String.{String}
use mathlib.Core.Path.{◌≡◌, refl, ap}
use mathlib.Core.Logic.{◌↔◌, inl, inr}
use mathlib.Core.Bool.{Bool, true}
use mathlib.Core.Option.{Option, none, some}
use mathlib.Core.List.{List, [], ◌∷◌, ◌++◌}
use native.Mathlib.Omega.{arith}
use text.Mathlib.Text.{◌==◌ as str_eq}
use text.Mathlib.TextEquality.{eq_iff}
use smart_router.Prelude.Tests.{if◌then◌else◌, Bool-cases}
use smart_router.Prelude.Lists.{length}

pub record Eq (K : Type 0) : Type 0 where
  pub beq : K → K → Bool
  pub beq_iff : (a b : K) → (beq a b ≡ true) ↔ (a ≡ b)

instance abbrev pub string_eq : Eq String
string_eq = record { beq = str_eq; beq_iff = eq_iff }

abbrev pub Dict : Type 0 → Type 0 → Type 0
Dict K V = List (K × V)

module _ {K V : Type 0} ⦃e : Eq K⦄ where
  -- `d.get(k)`
  unfoldable pub get : K → Dict K V → Option V
  get k [] = none
  get k ((j, v) ∷ d) = let rest = get k d in if e.beq j k then some v else rest

  -- `d[k] = v`: the place of a key that is there is kept
  unfoldable pub put : K → V → Dict K V → Dict K V
  put k v [] = (k, v) ∷ []
  put k v ((j, w) ∷ d) = let rest = put k v d in if e.beq j k then (k, v) ∷ d else (j, w) ∷ rest

  -- `d.pop(k, None)`
  unfoldable pub remove : K → Dict K V → Dict K V
  remove k [] = []
  remove k ((j, v) ∷ d) = let rest = remove k d in if e.beq j k then rest else (j, v) ∷ rest

  -- `d[k] = v; d.move_to_end(k)`
  unfoldable pub put_last : K → V → Dict K V → Dict K V
  unfolding remove
  put_last k v d = remove k d ++ ((k, v) ∷ [])

  -- no key twice
  unfoldable pub IsMap : Dict K V → Type 0
  unfolding get
  IsMap [] = Unit
  IsMap ((k, v) ∷ d) = (get k d ≡ none) × IsMap d

  pub get-put :
      (k j : K) (v : V) (d : Dict K V) → get j (put k v d) ≡ (if e.beq k j then some v else get j d)
  unfolding get put
  get-put k j v [] = refl
  get-put k j v ((i, w) ∷ d) =
      ground (arith, e.beq_iff i k, e.beq_iff k j, e.beq_iff i j, get-put k j v d)

  pub get-remove :
      (k j : K) (d : Dict K V) → get j (remove k d) ≡ (if e.beq k j then none else get j d)
  unfolding get remove
  get-remove k j [] = ground arith
  get-remove k j ((i, w) ∷ d) =
      ground (arith, e.beq_iff i k, e.beq_iff k j, e.beq_iff i j, get-remove k j d)

  pub get-append_last :
      (k j : K) (v : V) (d : Dict K V)
      → get k d ≡ none
      → get j (d ++ ((k, v) ∷ [])) ≡ (if e.beq k j then some v else get j d)
  unfolding get
  get-append_last k j v [] h = refl
  get-append_last k j v ((i, w) ∷ d) h =
      ground (arith, e.beq_iff i k, e.beq_iff k j, e.beq_iff i j, get-append_last k j v d)

  pub get-put_last :
      (k j : K) (v : V) (d : Dict K V)
      → get j (put_last k v d) ≡ (if e.beq k j then some v else get j d)
  unfolding put_last
  get-put_last k j v d =
      ground (
        arith,
        get-append_last k j v (remove k d),
        get-remove k j d,
        get-remove k k d,
        e.beq_iff k k,
      )

  pub length-remove-le : (k : K) (d : Dict K V) → length (remove k d) ≤ length d
  unfolding remove
  length-remove-le k [] = omega arith
  length-remove-le k ((j, v) ∷ d) = ground (arith, length-remove-le k d)

  pub remove-IsMap : (k : K) (d : Dict K V) → IsMap d → IsMap (remove k d)
  unfolding remove IsMap
  remove-IsMap k [] h = tt
  remove-IsMap k ((j, v) ∷ d) h = elim (Bool-cases (e.beq j k)) [
    | inl same ↦ rw same (remove-IsMap k d h.1)
    | inr other ↦
        rw other
          (ground (arith, get-remove k j d, e.beq_iff j k, e.beq_iff k j), remove-IsMap k d h.1)
  ]

  pub append_last-IsMap :
      (k : K) (v : V) (d : Dict K V) → get k d ≡ none → IsMap d → IsMap (d ++ ((k, v) ∷ []))
  unfolding IsMap get
  append_last-IsMap k v [] h m = (refl, tt)
  append_last-IsMap k v ((j, w) ∷ d) h m = (
    ground (arith, get-append_last k j v d, e.beq_iff j k, e.beq_iff k j),
    append_last-IsMap k v d (ground arith) m.1,
  )

  pub put_last-IsMap : (k : K) (v : V) (d : Dict K V) → IsMap d → IsMap (put_last k v d)
  unfolding put_last
  put_last-IsMap k v d h =
      append_last-IsMap k v (remove k d) (ground (arith, get-remove k k d, e.beq_iff k k))
        (remove-IsMap k d h)

  pub put-IsMap : (k : K) (v : V) (d : Dict K V) → IsMap d → IsMap (put k v d)
  unfolding put IsMap get
  put-IsMap k v [] h = (refl, tt)
  put-IsMap k v ((j, w) ∷ d) h = elim (Bool-cases (e.beq j k)) [
    | inl same ↦ rw same (ground (arith, e.beq_iff j k), h.1)
    | inr other ↦
        rw other
          (ground (arith, get-put k j v d, e.beq_iff j k, e.beq_iff k j), put-IsMap k v d h.1)
  ]

-- `d.values()`
unfoldable pub values : {K V : Type 0} → Dict K V → List V
values [] = []
values ((k, v) ∷ d) = v ∷ values d

module _ {K V : Type 0} ⦃e : Eq K⦄ where
  length-remove_found :
      (k : K) (v : V) (d : Dict K V) → get k d ≡ some v → suc (length (remove k d)) ≤ length d
  unfolding get remove
  length-remove_found k v [] h = absurd (cc h)
  length-remove_found k v ((j, w) ∷ d) h =
      ground (arith, length-remove-le k d, length-remove_found k v d)

  pub length-append_one : (d : Dict K V) (x : K × V) → length (d ++ (x ∷ [])) ≡ suc (length d)
  length-append_one [] x = refl
  length-append_one (y ∷ d) x = ap suc (length-append_one d x)

  -- to move an entry that is there to the end adds none
  pub length-put_last_old :
      (k : K) (v w : V) (d : Dict K V) → get k d ≡ some w → length (put_last k v d) ≤ length d
  unfolding put_last
  length-put_last_old k v w d h =
      omega (arith, length-append_one (remove k d) (k, v), length-remove_found k w d h)
