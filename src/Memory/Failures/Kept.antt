-- ===== src/Memory/Failures/Kept.antt =====
-- memory/failures.py, `FailureLog`: the records that the log keeps in memory.
use mathlib.Core.List.{append-nil, append_assoc}
use mathlib.Core.Option.{Option}
use smart_router.Prelude.{
  ℕ, zero, suc, ◌+◌, ◌-◌, ◌≤◌, Bool, true, false, none, some, List, [], ◌∷◌, ◌++◌, ◌≡◌, refl, ap,
  ◌∙◌, sym, inl, inr, Bool-cases, length, drop, length-append, length-drop, ltb, arith,
}
use smart_router.Routing.World.{FailureRecord}
use smart_router.Memory.Failures.{
  LogFile, FailureLog, last_of, note_write, write, append_line, rewrite_file, trim, record_failure,
  record_failures,
}

module _ {A : Type 0} where
  drop-drop_append :
      (j k : ℕ) (xs ys : List A)
      → j ≤ length xs
      → drop k (drop j xs ++ ys) ≡ drop (j + k) (xs ++ ys)
  drop-drop_append zero k xs ys h =
      let same : k ≡ 0 + k = omega arith in ap (λ m. drop m (xs ++ ys)) same
  drop-drop_append (suc j) k [] ys h = absurd (omega (arith, h))
  drop-drop_append (suc j) k (x ∷ xs) ys h =
      let same : suc (j + k) ≡ suc j + k = omega arith in
      drop-drop_append j k xs ys (omega (arith, h)) ∙ ap (λ m. drop m ((x ∷ xs) ++ ys)) same

  last_of-append : (n : ℕ) (xs ys : List A) → last_of n (last_of n xs ++ ys) ≡ last_of n (xs ++ ys)
  unfolding last_of
  last_of-append zero xs ys = refl
  last_of-append (suc n) xs ys =
      let j = length xs - suc n in
      let k = length (drop j xs ++ ys) - suc n in
      let same : j + k ≡ length (xs ++ ys) - suc n =
        omega (arith, length-append (drop j xs) ys, length-append xs ys, length-drop j xs) in
      drop-drop_append j k xs ys (omega arith) ∙ ap (λ m. drop m (xs ++ ys)) same

  last_of-few : (n : ℕ) (xs : List A) → length xs ≤ n → last_of n xs ≡ xs
  unfolding last_of
  last_of-few zero xs h = refl
  last_of-few (suc n) xs h =
      let all : length xs - suc n ≡ 0 = omega (arith, h) in ap (λ m. drop m xs) all

module _ {D F : Type 0} (disk : LogFile D F) where
  -- writing changes neither the records nor their bound
  record Writes (l l' : FailureLog D F) : Type 0 where
    same_records : l'.records ≡ l.records
    same_bound : l'.max_records ≡ l.max_records

  note_write-Writes : (w : Bool × D) (l : FailureLog D F) → Writes l (note_write w l)
  unfolding note_write
  note_write-Writes (true, d) l = record { same_records = refl; same_bound = refl }
  note_write-Writes (false, d) l = record { same_records = refl; same_bound = refl }

  write-Writes :
      (w : D → Bool × D) (file : Option D) (l : FailureLog D F) → Writes l (write w file l)
  unfolding write
  write-Writes w none l = record { same_records = refl; same_bound = refl }
  write-Writes w (some d) l = note_write-Writes (w d) l

  record Trimmed (l l' : FailureLog D F) : Type 0 where
    latest : l'.records ≡ last_of l.max_records l.records
    bound : l'.max_records ≡ l.max_records

  trim-Trimmed : (l : FailureLog D F) → Trimmed l (trim disk l)
  unfolding trim rewrite_file
  trim-Trimmed l = elim (Bool-cases (ltb l.max_records (length l.records))) [
    | inl over ↦
        let kept = last_of l.max_records l.records in
        let w = write-Writes (disk.rewrite kept) l.file (record l { records = kept }) in
        rw over (record { latest = w.same_records; bound = w.same_bound })
    | inr fits ↦ rw fits (record {
      latest = sym (last_of-few l.max_records l.records (ground (arith, fits)));
      bound = refl;
    })
  ]

  recorded-records :
      (r : FailureRecord F) (l : FailureLog D F)
      → Trimmed (record l { records = l.records ++ (r ∷ []) }) (record_failure disk r l)
  unfolding record_failure append_line
  recorded-records r l =
      let grown = record l { records = l.records ++ (r ∷ []) } in
      let w = write-Writes (disk.add_line r) l.file grown in
      let t = trim-Trimmed (write (disk.add_line r) l.file grown) in
      record {
        latest =
            t.latest
            ∙ ap (λ n. last_of n (write (disk.add_line r) l.file grown).records) w.same_bound
            ∙ ap (λ rs. last_of l.max_records rs) w.same_records;
        bound = t.bound ∙ w.same_bound;
      }

  -- A log of which a trim leaves all holds, after any sequence of new records, what a trim leaves
  -- of the old and new records together, whatever the file does: the latest of them, as many as
  -- the bound allows, or all of them if the bound is zero.
  pub record_failures-latest :
      (rs : List (FailureRecord F)) (l : FailureLog D F)
      → last_of l.max_records l.records ≡ l.records
      → (record_failures disk rs l).records ≡ last_of l.max_records (l.records ++ rs)
  unfolding record_failures
  record_failures-latest [] l h = rw (append-nil l.records) (sym h)
  record_failures-latest (r ∷ rs) l h =
      let n = l.max_records in
      let grown = l.records ++ (r ∷ []) in
      let next = record_failure disk r l in
      let t = recorded-records r l in
      let again : last_of n (last_of n grown) ≡ last_of n grown =
        sym (ap (λ xs. last_of n xs) (append-nil (last_of n grown)))
        ∙ last_of-append n grown []
        ∙ ap (λ xs. last_of n xs) (append-nil grown) in
      record_failures-latest rs next (rw (t.bound, t.latest) again)
      ∙ rw (t.bound, t.latest) (last_of-append n grown rs)
      ∙ ap (λ xs. last_of n xs) (append_assoc l.records (r ∷ []) rs)
