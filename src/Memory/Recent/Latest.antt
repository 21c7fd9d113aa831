-- ===== src/Memory/Recent/Latest.antt =====
-- memory/reflexion.py: what the stores of corrections and successes hold.
use Prim.Native.Nat.{◌≤◌}
use mathlib.Core.List.{reverse, reverse-append}
use smart_router.Prelude.{
  ℕ, zero, suc, ◌-◌, ◌*◌, Bool, true, Option, none, some, List, [], ◌∷◌, ◌++◌, String, ◌≡◌, ◌≢◌,
  ◌⊎◌, ◌∙◌, refl, ap, inl, inr, length, length-append, drop, take, filter_by, leb, arith, eq_iff,
  All, Bool-cases,
}
use smart_router.Prelude.Dict.{Dict, put_last, remove, values, IsMap}
use smart_router.Schemas.Message.{Text}
use smart_router.Schemas.Rule.{global_scope}
use smart_router.Memory.Replay.{GoldenCase}
use smart_router.Memory.Recent.{
  RowFile, RecentKey, recent_key_eq, RecentStore, trim_items, persist, add_recent, Exemplar, Filing,
  golden_key, add_golden, limited, is_case_of, cases,
}

module _ {D A : Type 0} where
  persist-items :
      (disk : RowFile D A) (a : A) (s : RecentStore D A)
      → ((persist disk a s).items ≡ s.items) × ((persist disk a s).capacity ≡ s.capacity)
  unfolding persist
  persist-items disk a s = elim (Bool-cases (leb (4 * s.capacity) s.rows.lines)) [
    | inl long ↦ rw long (refl, refl)
    | inr short ↦ rw short (refl, refl)
  ]

  add_recent-items :
      (disk : RowFile D A) (k : RecentKey) (a : A) (s : RecentStore D A)
      → ((add_recent disk k a s).items ≡ trim_items s.capacity (put_last k a s.items))
        × ((add_recent disk k a s).capacity ≡ s.capacity)
  unfolding add_recent
  add_recent-items disk k a s =
      persist-items disk a (record s { items = trim_items s.capacity (put_last k a s.items) })

-- a correction of a tenant, not of every tenant
abbrev IsOwned : RecentKey × Exemplar → Type 0
IsOwned e = e.1.tenant_id ≢ global_scope

module _ {D : Type 0} where
  -- within its capacity, each request of a tenant once, and no correction of every tenant
  pub record IsSound (s : RecentStore D Exemplar) : Type 0 where
    pub bounded : length s.items ≤ s.capacity
    pub distinct : IsMap s.items
    pub owned : All IsOwned s.items

module _ {A : Type 0} where
  drop-append : (n : ℕ) (xs ys : List A) → n ≤ length xs → drop n (xs ++ ys) ≡ drop n xs ++ ys
  drop-append zero xs ys h = refl
  drop-append (suc n) [] ys h = absurd (omega (arith, h))
  drop-append (suc n) (x ∷ xs) ys h = drop-append n xs ys (omega (arith, h))

module _ {A : Type 0} where
  values_append :
      (d : Dict RecentKey A) (k : RecentKey) (a : A)
      → values (d ++ ((k, a) ∷ [])) ≡ values d ++ (a ∷ [])
  unfolding values
  values_append [] k a = refl
  values_append ((j, b) ∷ d) k a = ap (◌∷◌ b) (values_append d k a)

  filter_by_append :
      (p : A → Bool) (xs : List A) (a : A)
      → p a ≡ true
      → filter_by p (xs ++ (a ∷ [])) ≡ filter_by p xs ++ (a ∷ [])
  filter_by_append p [] a h = rw h refl
  filter_by_append p (x ∷ xs) a h = elim (Bool-cases (p x)) [
    | inl kept ↦ rw (kept, filter_by_append p xs a h) refl
    | inr dropped ↦ rw (dropped, filter_by_append p xs a h) refl
  ]

  -- what is put last is the last, if there is room for it
  trim_items_last :
      (capacity : ℕ) (k : RecentKey) (a : A) (d : Dict RecentKey A)
      → 1 ≤ capacity
      → (before : Dict RecentKey A) × (trim_items capacity (put_last k a d)
          ≡ before ++ ((k, a) ∷ []))
  unfolding trim_items put_last
  trim_items_last capacity k a d room =
      let rest = remove k d in
      let kept = rest ++ ((k, a) ∷ []) in
      let n = length kept - capacity in
      (
        drop n rest,
        drop-append n rest ((k, a) ∷ []) (omega (arith, room, length-append rest ((k, a) ∷ []))),
      )

  -- the last of the items is the first of those in reverse
  reverse_last :
      (p : A → Bool) (items before : Dict RecentKey A) (k : RecentKey) (a : A)
      → items ≡ before ++ ((k, a) ∷ [])
      → p a ≡ true
      → reverse (filter_by p (values items)) ≡ a ∷ reverse (filter_by p (values before))
  reverse_last p items before k a e h =
      rw
        (
          e,
          values_append before k a,
          filter_by_append p (values before) a h,
          reverse-append (filter_by p (values before)) (a ∷ []),
        )
        refl

  limited_first :
      (limit : Option ℕ) (a : A) (xs : List A)
      → (rest : List A) × (limited limit (a ∷ xs) ≡ a ∷ rest)
  limited_first none a xs = (xs, refl)
  limited_first (some zero) a xs = (xs, refl)
  limited_first (some (suc n)) a xs = (take n xs, refl)

is_case_of_own :
    (asked : Option String) (c : GoldenCase)
    → (asked ≡ none) ⊎ (asked ≡ some c.tenant_id)
    → is_case_of asked c ≡ true
is_case_of_own asked c (inl e) = rw e refl
is_case_of_own asked c (inr e) = rw (e, (eq_iff c.tenant_id c.tenant_id).1 refl) refl

module _ {D : Type 0} where
  -- A success that `GoldenSet.add` has recorded, in a set with room for one, is the first of the cases
  -- that are asked for its tenant or for all tenants, scrubbed, whatever was recorded before.
  pub cases-add_golden :
      (filing : Filing) (disk : RowFile D GoldenCase) (query : Text) (tenant : String)
      (asked : Option String) (limit : Option ℕ) (s : RecentStore D GoldenCase)
      → 1 ≤ s.capacity
      → (asked ≡ none) ⊎ (asked ≡ some tenant)
      → (older : List GoldenCase) × (cases asked limit (add_golden filing disk query tenant s)
          ≡ record { query = filing.scrub query; tenant_id = tenant } ∷ older)
  unfolding cases add_golden
  cases-add_golden filing disk query tenant asked limit s room who =
      let c : GoldenCase = record { query = filing.scrub query; tenant_id = tenant } in
      let key = golden_key filing c in
      let s' = add_recent disk key c s in
      let last = trim_items_last s.capacity key c s.items room in
      let first =
        reverse_last (is_case_of asked) s'.items last.0 key c
          ((add_recent-items disk key c s).0 ∙ last.1) (is_case_of_own asked c who) in
      let found = limited_first limit c (reverse (filter_by (is_case_of asked) (values last.0))) in
      (found.0, ap (limited limit) first ∙ found.1)
