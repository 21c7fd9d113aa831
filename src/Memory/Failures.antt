-- ===== src/Memory/Failures.antt =====
-- memory/failures.py, `FailureLog`: the records of failures, in memory and in an append-only file.
pub mod Kept
pub mod Mirror
pub mod Codec
pub mod Loading
use smart_router.Prelude.{
  ℕ, zero, suc, ◌+◌, ◌-◌, Bool, true, false, not, Option, none, some, List, [], ◌∷◌, ◌++◌, String,
  ◌==◌, length, drop, any, filter_by, ltb, if◌then◌else◌,
}
use smart_router.Routing.World.{FailureRecord}

-- The file of the log, a parameter. Each operation says whether it was written (`false` is
-- `OSError`) and what the disk is afterwards.
pub record LogFile (D F : Type 0) : Type 0 where
  pub add_line : FailureRecord F → D → Bool × D
  pub rewrite : List (FailureRecord F) → D → Bool × D

-- `file` is the disk under `path`, where a path is set
pub record FailureLog (D F : Type 0) : Type 0 where
  pub max_records : ℕ
  pub file : Option D
  pub records : List (FailureRecord F)
  pub write_errors : ℕ

-- `xs[-n:]`, which is all of `xs` for `n = 0`
unfoldable pub last_of : {A : Type 0} → ℕ → List A → List A
last_of zero xs = xs
last_of (suc n) xs = drop (length xs - suc n) xs

module _ {F : Type 0} where
  abbrev pub is_left : List String → FailureRecord F → Bool
  is_left ids r = not (any (λ x. x == r.request_id) ids)

module _ {D F : Type 0} where
  -- a write that fails is counted, and no more
  unfoldable pub note_write : Bool × D → FailureLog D F → FailureLog D F
  note_write (true, d) l = record l { file = some d }
  note_write (false, d) l = record l { file = some d; write_errors = l.write_errors + 1 }

  -- nothing is written where there is no path
  unfoldable pub write : (D → Bool × D) → Option D → FailureLog D F → FailureLog D F
  unfolding note_write
  write w none l = l
  write w (some d) l = note_write (w d) l

  unfoldable pub append_line : LogFile D F → FailureRecord F → FailureLog D F → FailureLog D F
  unfolding write
  append_line disk r l = write (disk.add_line r) l.file l

  -- `_rewrite`
  unfoldable pub rewrite_file : LogFile D F → FailureLog D F → FailureLog D F
  unfolding write
  rewrite_file disk l = write (disk.rewrite l.records) l.file l

  -- the second half of `record`
  unfoldable pub trim : LogFile D F → FailureLog D F → FailureLog D F
  unfolding rewrite_file last_of
  trim disk l =
      if ltb l.max_records (length l.records)
      then rewrite_file disk (record l { records = last_of l.max_records l.records })
      else l

  -- `record`
  unfoldable pub record_failure : LogFile D F → FailureRecord F → FailureLog D F → FailureLog D F
  unfolding append_line trim
  record_failure disk r l =
      trim disk (append_line disk r (record l { records = l.records ++ (r ∷ []) }))

  unfoldable pub record_failures :
      LogFile D F → List (FailureRecord F) → FailureLog D F → FailureLog D F
  unfolding record_failure
  record_failures disk [] l = l
  record_failures disk (r ∷ rs) l = record_failures disk rs (record_failure disk r l)

  -- the number of records dropped, and the log
  unfoldable pub remove : LogFile D F → List String → FailureLog D F → ℕ × FailureLog D F
  unfolding rewrite_file
  remove disk [] l = (0, l)
  remove disk (i ∷ ids) l =
      let left = filter_by (is_left (i ∷ ids)) l.records in
      let removed = length l.records - length left in
      let l' = record l { records = left } in
      (removed, if ltb 0 removed then rewrite_file disk l' else l')
