-- ===== src/Memory/Failures/Mirror.antt =====
-- memory/failures.py, `FailureLog`: the log's file against the records in memory.
use mathlib.Core.Option.{Option}
use smart_router.Prelude.{
  ◌-◌, ◌≤◌, Bool, true, false, none, some, List, [], ◌∷◌, ◌++◌, String, ◌≡◌, refl, ap, ◌∙◌, sym,
  inl, inr, Bool-cases, some-injective, length, filter_by, length-filter_by-le, ltb, arith,
}
use smart_router.Routing.World.{FailureRecord}
use smart_router.Memory.Failures.{
  LogFile, FailureLog, last_of, note_write, write, append_line, rewrite_file, trim, record_failure,
  is_left, remove,
}

module _ {A : Type 0} where
  filter_by-all :
      (p : A → Bool) (xs : List A) → length xs ≤ length (filter_by p xs) → filter_by p xs ≡ xs
  filter_by-all p [] h = refl
  filter_by-all p (x ∷ xs) h = elim (Bool-cases (p x)) [
    | inl holds ↦ rw holds (ap (λ l. x ∷ l) (filter_by-all p xs (ground (arith, h, holds))))
    | inr fails ↦ absurd (ground (arith, h, fails, length-filter_by-le p xs))
  ]

-- what changes the log
pub data Operation (F : Type 0) : Type 0 where
  recording : FailureRecord F → Operation F
  removing : List String → Operation F

unfoldable pub apply_all :
    {D F : Type 0} → LogFile D F → List (Operation F) → FailureLog D F → FailureLog D F
apply_all disk [] l = l
apply_all disk (recording r ∷ os) l = apply_all disk os (record_failure disk r l)
apply_all disk (removing ids ∷ os) l = apply_all disk os (remove disk ids l).1

module _ {D F : Type 0} (disk : LogFile D F) where
  -- what the log relies on: a write that succeeds has its effect on what the file holds
  pub record IsFaithful (contents : D → List (FailureRecord F)) : Type 0 where
    pub appended :
        (r : FailureRecord F) (d : D)
        → (disk.add_line r d).0 ≡ true
        → contents (disk.add_line r d).1 ≡ contents d ++ (r ∷ [])
    pub rewritten :
        (rs : List (FailureRecord F)) (d : D)
        → (disk.rewrite rs d).0 ≡ true
        → contents (disk.rewrite rs d).1 ≡ rs

  module _ (contents : D → List (FailureRecord F)) (faithful : IsFaithful contents) where
    -- as long as no write has failed, the file holds the records of the log
    abbrev pub Mirrors : FailureLog D F → Type 0
    Mirrors l = (d : D) → l.file ≡ some d → l.write_errors ≡ 0 → contents d ≡ l.records

    note_write-Mirrors :
        (w : Bool × D) (l : FailureLog D F)
        → (w.0 ≡ true → l.write_errors ≡ 0 → contents w.1 ≡ l.records)
        → Mirrors (note_write w l)
    unfolding note_write
    note_write-Mirrors (true, d) l h d' e z = ap contents (sym (some-injective e)) ∙ h refl z
    note_write-Mirrors (false, d) l h d' e z = absurd (omega (arith, z))

    write-Mirrors :
        (w : D → Bool × D) (file : Option D) (l : FailureLog D F)
        → l.file ≡ file
        → ((d : D)
            → l.file ≡ some d
            → (w d).0 ≡ true
            → l.write_errors ≡ 0
            → contents (w d).1 ≡ l.records)
        → Mirrors (write w file l)
    unfolding write
    write-Mirrors w none l e h = λ d hit z. absurd (cc (e, hit))
    write-Mirrors w (some d) l e h = note_write-Mirrors (w d) l (h d e)

    rewrite_file-Mirrors : (l : FailureLog D F) → Mirrors (rewrite_file disk l)
    unfolding rewrite_file
    rewrite_file-Mirrors l =
        write-Mirrors (disk.rewrite l.records) l.file l refl
          λ d e done z. faithful.rewritten l.records d done

    trim-Mirrors : (l : FailureLog D F) → Mirrors l → Mirrors (trim disk l)
    unfolding trim
    trim-Mirrors l h = elim (Bool-cases (ltb l.max_records (length l.records))) [
      | inl over ↦
          rw over (rewrite_file-Mirrors (record l { records = last_of l.max_records l.records }))
      | inr fits ↦ rw fits h
    ]

    record_failure-Mirrors :
        (r : FailureRecord F) (l : FailureLog D F) → Mirrors l → Mirrors (record_failure disk r l)
    unfolding record_failure append_line
    record_failure-Mirrors r l h =
        let grown = record l { records = l.records ++ (r ∷ []) } in
        trim-Mirrors (write (disk.add_line r) l.file grown) (
          write-Mirrors (disk.add_line r) l.file grown refl
            λ d e done z. faithful.appended r d done ∙ ap (λ rs. rs ++ (r ∷ [])) (h d e z))

    remove-Mirrors :
        (ids : List String) (l : FailureLog D F) → Mirrors l → Mirrors (remove disk ids l).1
    unfolding remove
    remove-Mirrors [] l h = h
    remove-Mirrors (i ∷ ids) l h =
        let left = filter_by (is_left (i ∷ ids)) l.records in
        elim (Bool-cases (ltb 0 (length l.records - length left))) [
          | inl some_removed ↦ rw some_removed (rewrite_file-Mirrors (record l { records = left }))
          | inr none_removed ↦ rw none_removed (λ d e z.
              h d e z
              ∙ sym (filter_by-all (is_left (i ∷ ids)) l.records (ground (arith, none_removed))))
        ]

    apply_all-Mirrors :
        (os : List (Operation F)) (l : FailureLog D F) → Mirrors l → Mirrors (apply_all disk os l)
    unfolding apply_all
    apply_all-Mirrors [] l h = h
    apply_all-Mirrors (recording r ∷ os) l h =
        apply_all-Mirrors os (record_failure disk r l) (record_failure-Mirrors r l h)
    apply_all-Mirrors (removing ids ∷ os) l h =
        apply_all-Mirrors os (remove disk ids l).1 (remove-Mirrors ids l h)

    -- Over a file in which a write that succeeds has its effect, take a log whose file holds its
    -- records unless a write has failed. After any sequence of records and removals, if the log
    -- has a file and has counted no failed write, the file holds exactly its records.
    pub apply_all_mirrored :
        (os : List (Operation F)) (l : FailureLog D F) (d : D)
        → Mirrors l
        → (apply_all disk os l).file ≡ some d
        → (apply_all disk os l).write_errors ≡ 0
        → contents d ≡ (apply_all disk os l).records
    apply_all_mirrored os l d h = apply_all-Mirrors os l h d
