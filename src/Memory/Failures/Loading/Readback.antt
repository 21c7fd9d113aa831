-- ===== src/Memory/Failures/Loading/Readback.antt =====
-- memory/failures.py, `FailureLog.load`: a file with damaged lines, and with lines of another embedder.
use mathlib.Core.List.{append-nil, append_assoc}
use smart_router.Prelude.{
  ℕ, ◌+◌, true, false, ◌==◌, Option, none, some, List, [], ◌∷◌, ◌++◌, map, String, ◌≡◌, refl, ap,
  sym, ◌∙◌, All, Bool-cases, inl, inr, arith, Float,
}
use smart_router.Prelude.Exec.{ok}
use smart_router.Prelude.Strings.{codes, strip, is_empty, text_eq_refl}
use smart_router.Schemas.Message.{Text}
use smart_router.Tools.Json.{Json, Fields, get_field}
use smart_router.Routing.World.{FailureRecord}
use smart_router.Memory.Failures.{last_of}
use smart_router.Memory.Failures.Codec.{Formats, LoadedFailure, optional_name, record_to_json}
use smart_router.Memory.Failures.Codec.Decoding.{
  IsRuntime, as_loaded, record_from_json-fields, embedder-fields,
}
use smart_router.Memory.Failures.Loading.{
  LoadedLog, is_foreign, drop_line, read_parsed, read_line, read_lines, nothing_loaded, load,
}

-- a line of a file: one that the log has written, one that is torn, and one of another embedder
pub data Line (T F : Type 0) : Type 0 where
  written : T → FailureRecord F → Line T F
  torn : Text → Line T F
  foreign : Text → Fields F → Line T F

own_name-kept :
    (F : Type 0) (name : Option String)
    → is_foreign {F = F} name (some (optional_name name)) ≡ false
unfolding is_foreign
own_name-kept F none = refl
own_name-kept F (some name) = elim (Bool-cases (name == "")) [
  | inl empty ↦ rw (empty, is_foreign) refl
  | inr full ↦ rw (full, text_eq_refl (codes name), is_foreign) refl
]

abbrev made : {T F : Type 0} → List (LoadedFailure T F) → ℕ → LoadedLog T F
made rs n = record { records = rs; dropped_on_load = n }

same_log :
    {T F : Type 0} {rs rs' : List (LoadedFailure T F)} {n m : ℕ}
    → rs ≡ rs'
    → n ≡ m
    → made rs n ≡ made rs' m
same_log h k = cc (h, k)

unfoldable pub count_lost : {T F : Type 0} → List (Line T F) → ℕ
count_lost [] = 0
count_lost (written t r ∷ ls) = count_lost ls
count_lost (torn t ∷ ls) = count_lost ls + 1
count_lost (foreign t d ∷ ls) = count_lost ls + 1

module _ {T F : Type 0} (p : Formats T F) (float32 : F → F) where
  -- the records that were written, as they are read back
  unfoldable pub records_of : List (Line T F) → List (LoadedFailure T F)
  records_of [] = []
  records_of (written t r ∷ ls) = as_loaded p float32 t r ∷ records_of ls
  records_of (torn t ∷ ls) = records_of ls
  records_of (foreign t d ∷ ls) = records_of ls

module _ {T F : Type 0} ⦃f : Float F⦄ (p : Formats T F) (float32 : F → F)
    (name : Option String) where
  abbrev pub text_of : Line T F → Text
  text_of (written t r) = p.dumps (record_to_json p name t r)
  text_of (torn t) = t
  text_of (foreign t d) = t

  -- a text that is not blank, and what `json.loads` makes of it
  abbrev pub ReadsAs : Text → Option (Json F) → Type 0
  ReadsAs t v = (is_empty (strip t) ≡ false) × (p.loads (strip t) ≡ v)

  -- the JSON of a record is read as it was; a torn line is no JSON; a line of another embedder is an
  -- object with its name
  abbrev pub IsLine : Line T F → Type 0
  IsLine (written t r) =
      ReadsAs (p.dumps (record_to_json p name t r)) (some (record_to_json p name t r))
  IsLine (torn t) = ReadsAs t none
  IsLine (foreign t d) =
      ReadsAs t (some (Json.object d)) × (is_foreign name (get_field "embedder" d) ≡ true)

  read_line-as :
      (t : Text) (v : Option (Json F)) (l : LoadedLog T F)
      → ReadsAs t v
      → read_line p name t l ≡ read_parsed p name v l
  unfolding read_line
  read_line-as t v l h = rw (h.0, h.1) refl

  abbrev kept : T → FailureRecord F → LoadedLog T F → LoadedLog T F
  kept t r l = record l { records = l.records ++ (as_loaded p float32 t r ∷ []) }

  read_parsed-own :
      (t : T) (r : FailureRecord F) (l : LoadedLog T F)
      → IsRuntime p float32
      → read_parsed p name (some (record_to_json p name t r)) l ≡ ok (kept t r l)
  unfolding read_parsed
  read_parsed-own t r l h =
      rw (embedder-fields p float32 name t r, own_name-kept F name)
        (rw (record_from_json-fields p float32 name t r h) refl)

  read_parsed-foreign :
      (d : Fields F) (l : LoadedLog T F)
      → is_foreign name (get_field "embedder" d) ≡ true
      → read_parsed p name (some (Json.object d)) l ≡ ok (drop_line l)
  unfolding read_parsed
  read_parsed-foreign d l h = rw h refl

  read_parsed-torn : (l : LoadedLog T F) → read_parsed p name none l ≡ ok (drop_line l)
  unfolding read_parsed
  read_parsed-torn l = refl

  -- what the loop adds
  abbrev added : List (Line T F) → LoadedLog T F → LoadedLog T F
  added ls l = record {
    records = l.records ++ records_of p float32 ls;
    dropped_on_load = l.dropped_on_load + count_lost ls;
  }

  step :
      (t : Text) (ts : List Text) (l next : LoadedLog T F)
      → read_line p name t l ≡ ok next
      → read_lines p name (t ∷ ts) l ≡ read_lines p name ts next
  unfolding read_lines
  step t ts l next h = rw h refl

  read_lines-added :
      (ls : List (Line T F)) (l : LoadedLog T F)
      → IsRuntime p float32
      → All IsLine ls
      → read_lines p name (map text_of ls) l ≡ ok (added ls l)
  unfolding read_lines records_of count_lost
  read_lines-added [] l rt h = ap ok (same_log (sym (append-nil l.records)) (omega arith))
  read_lines-added (written t r ∷ ls) l rt h =
      step (text_of (written t r)) (map text_of ls) l (kept t r l)
        (read_line-as (text_of (written t r)) _ l h.0 ∙ read_parsed-own t r l rt)
      ∙ read_lines-added ls (kept t r l) rt h.1
      ∙ ap ok (
          same_log (append_assoc l.records (as_loaded p float32 t r ∷ []) (records_of p float32 ls))
            refl)
  read_lines-added (torn t ∷ ls) l rt h =
      step t (map text_of ls) l (drop_line l) (read_line-as t _ l h.0 ∙ read_parsed-torn l)
      ∙ read_lines-added ls (drop_line l) rt h.1
      ∙ ap ok (same_log refl (omega arith))
  read_lines-added (foreign t d ∷ ls) l rt h =
      step t (map text_of ls) l (drop_line l)
        (read_line-as t _ l h.0.0 ∙ read_parsed-foreign d l h.0.1)
      ∙ read_lines-added ls (drop_line l) rt h.1
      ∙ ap ok (same_log refl (omega arith))

  load_parsed :
      (max_records : ℕ) (lines : List Text) (found : LoadedLog T F)
      → read_lines p name lines nothing_loaded ≡ ok found
      → load p name max_records (some lines)
        ≡ ok (record found { records = last_of max_records found.records })
  unfolding load
  load_parsed max_records lines found h = rw h refl

  -- A log reads back from a file, of lines that it has written, torn lines and lines of another
  -- embedder in any order, the latest of the records that it has written, as many as it may hold, with
  -- every field as it was but for the vector, whose floats are rounded to six decimals and then to 32
  -- bits, and counts each other line as dropped. That json, datetime and numpy read what was written
  -- is the condition.
  pub load-reads_back :
      (max_records : ℕ) (ls : List (Line T F))
      → IsRuntime p float32
      → All IsLine ls
      → load p name max_records (some (map text_of ls))
        ≡ ok (record {
          records = last_of max_records (records_of p float32 ls);
          dropped_on_load = count_lost ls;
        })
  load-reads_back max_records ls rt h =
      load_parsed max_records (map text_of ls) (added ls nothing_loaded)
        (read_lines-added ls nothing_loaded rt h)
      ∙ ap ok (same_log refl (omega arith))
