-- ===== src/Tools/Schema/Depth.antt =====
-- tools/schema.py, `validate_schema`: the parts of a schema are less deep, and the loops over them
-- settle if the validation of a part does.
use smart_router.Prelude.{
  ℕ, ◌+◌, ◌≤◌, Bool, true, false, Option, none, some, List, [], ◌∷◌, ◌++◌, String, ◌≡◌, ◌==◌, inl,
  inr, refl, ap, Bool-cases, Option-cases, arith, some-injective,
}
use smart_router.Schemas.Message.{Text}
use smart_router.Tools.Json.{Json, Items, Fields, get_field, object}
use smart_router.Tools.Value.{iterate, keys, chars}
use smart_router.Tools.Schema.Checks.{
  PathStep, Violation, Outcome, valid, invalid, raises, exhausted, fails, ◌and_then◌, require,
  Check, any_branch, check_branches, check_items, check_properties,
}
use smart_router.Tools.Schema.{depth, depth_items, depth_fields}

chars-depth : (F : Type 0) (t : Text) → depth_items {F = F} (chars t) ≡ 0
unfolding chars depth
chars-depth F [] = refl
chars-depth F (c ∷ t) = omega (arith, chars-depth F t)

module _ {F : Type 0} where
  -- an outcome of the source
  abbrev pub IsSettled : Outcome F → Type 0
  IsSettled exhausted = ⊥
  IsSettled _ = Unit

  pub and_then-IsSettled : (o p : Outcome F) → IsSettled o → IsSettled p → IsSettled (o and_then p)
  and_then-IsSettled valid p h k = k
  and_then-IsSettled (invalid e) p h k = tt
  and_then-IsSettled raises p h k = tt
  and_then-IsSettled exhausted p h k = h

  pub require-IsSettled : (o : Option Bool) (p : Outcome F) → IsSettled p → IsSettled (require o p)
  require-IsSettled none p h = tt
  require-IsSettled (some true) p h = tt
  require-IsSettled (some false) p h = h

  keys-depth : (d : Fields F) → depth_items (keys d) ≡ 0
  unfolding keys depth
  keys-depth Fields.end = refl
  keys-depth (Fields.field k v d) = omega (arith, keys-depth d)

  depth-iterate-le : (j : Json F) (xs : Items F) → iterate j ≡ some xs → depth_items xs ≤ depth j
  unfolding iterate depth
  depth-iterate-le (Json.array ys) xs h =
      omega (arith, ap (λ (o : Items F). depth_items o) (some-injective h))
  depth-iterate-le (Json.object d) xs h =
      omega (arith, keys-depth d, ap (λ (o : Items F). depth_items o) (some-injective h))
  depth-iterate-le (Json.text t) xs h =
      omega (arith, chars-depth F t, ap (λ (o : Items F). depth_items o) (some-injective h))
  depth-iterate-le _ xs h = absurd (cc h)

  pub depth-get_field-le :
      (k : String) (d : Fields F) (j : Json F) → get_field k d ≡ some j → depth j ≤ depth_fields d
  unfolding get_field depth
  depth-get_field-le k Fields.end j h = absurd (cc h)
  depth-get_field-le k (Fields.field i v d) j h = elim (Bool-cases (i == k)) [
    | inl same ↦
        let hit : some v ≡ some j = rw (same, get_field) at h in
        omega (arith, ap (λ (o : Json F). depth o) (some-injective hit))
    | inr other ↦
        let miss : get_field k d ≡ some j = rw (other, get_field) at h in
        omega (arith, depth-get_field-le k d j miss)
  ]

  -- the validation of parts is settled on schemas up to a depth
  abbrev pub SettlesTo : ℕ → Check F → Type 0
  SettlesTo n rec = (v s : Json F) (path : List PathStep) → depth s ≤ n → IsSettled (rec v s path)

  any_branch-IsSettled :
      (try : Json F → Outcome F) (otherwise : Outcome F) (bs : Items F) (n : ℕ)
      → IsSettled otherwise
      → ((b : Json F) → depth b ≤ n → IsSettled (try b))
      → depth_items bs ≤ n
      → IsSettled (any_branch try otherwise bs)
  unfolding any_branch depth
  any_branch-IsSettled try otherwise Items.nil n h k le = h
  any_branch-IsSettled try otherwise (Items.cons b bs) n h k le =
      by_outcome (try b) (k b (omega arith))
        (any_branch-IsSettled try otherwise bs n h k (omega arith))
    where
      by_outcome :
          (o : Outcome F)
          → IsSettled o
          → IsSettled (any_branch try otherwise bs)
          → IsSettled (elim o [
            | valid ↦ valid
            | invalid _ ↦ any_branch try otherwise bs
            | raises ↦ raises
            | exhausted ↦ exhausted
          ])
      by_outcome valid p q = tt
      by_outcome (invalid e) p q = q
      by_outcome raises p q = tt
      by_outcome exhausted p q = p

  pub branches-IsSettled :
      (rec : Check F) (k : String) (v : Json F) (s : Fields F) (path : List PathStep)
      → SettlesTo (depth_fields s) rec
      → IsSettled (check_branches rec k v s path)
  unfolding check_branches
  branches-IsSettled rec k v s path h = elim (Option-cases (get_field k s)) [
    | inl missing ↦ rw (missing, check_branches, IsSettled) tt
    | inr (bs, found) ↦ elim (Option-cases (iterate bs)) [
      | inl odd ↦ rw (found, odd, check_branches, IsSettled) tt
      | inr (xs, run) ↦
          rw (found, run, check_branches, IsSettled)
            (any_branch-IsSettled (λ b. rec v b path) (fails path (Violation.no_branch k)) xs
              (depth_fields s) tt (λ b le. h v b path le)
              (omega (arith, depth-iterate-le bs xs run, depth-get_field-le k s bs found)))
    ]
  ]

  pub items-IsSettled :
      (rec : Check F) (xs : Items F) (s : Json F) (path : List PathStep) (i n : ℕ)
      → SettlesTo n rec
      → depth s ≤ n
      → IsSettled (check_items rec xs s path i)
  unfolding check_items
  items-IsSettled rec Items.nil s path i n h le = tt
  items-IsSettled rec (Items.cons x xs) s path i n h le =
      and_then-IsSettled (rec x s (path ++ (PathStep.index i ∷ [])))
        (check_items rec xs s path (i + 1)) (h x s (path ++ (PathStep.index i ∷ [])) le)
        (items-IsSettled rec xs s path (i + 1) n h le)

  pub properties-IsSettled :
      (rec : Check F) (d ps : Fields F) (path : List PathStep) (n : ℕ)
      → SettlesTo n rec
      → depth_fields ps ≤ n
      → IsSettled (check_properties rec d ps path)
  unfolding check_properties depth
  properties-IsSettled rec d Fields.end path n h le = tt
  properties-IsSettled rec d (Fields.field k sub ps) path n h le =
      let rest = properties-IsSettled rec d ps path n h (omega arith) in
      elim (Option-cases (get_field k d)) [
        | inl missing ↦ rw (missing, check_properties, IsSettled) rest
        | inr (v, found) ↦ rw (found, check_properties, IsSettled) (by_declaration v sub rest le)
      ]
    where
      by_declaration :
          (v sub : Json F)
          → IsSettled (check_properties rec d ps path)
          → depth_fields (Fields.field k sub ps) ≤ n
          → IsSettled (elim sub [
            | object p ↦
                rec v (object p) (path ++ (PathStep.key k ∷ []))
                and_then check_properties rec d ps path
            | _ ↦ check_properties rec d ps path
          ])
      by_declaration v (object p) r le' =
          and_then-IsSettled (rec v (object p) (path ++ (PathStep.key k ∷ [])))
            (check_properties rec d ps path)
            (h v (object p) (path ++ (PathStep.key k ∷ [])) (omega arith)) r
      by_declaration v Json.null r le' = r
      by_declaration v (Json.boolean b) r le' = r
      by_declaration v (Json.integer m) r le' = r
      by_declaration v (Json.float x) r le' = r
      by_declaration v (Json.text t) r le' = r
      by_declaration v (Json.array xs) r le' = r
