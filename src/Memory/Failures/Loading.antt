-- ===== src/Memory/Failures/Loading.antt =====
-- memory/failures.py, `FailureLog.load`: what is read back from the lines of the file.
pub mod Readback
use smart_router.Prelude.{
  ℕ, ◌+◌, Bool, true, false, not, Option, none, some, List, [], ◌∷◌, ◌++◌, String, ◌==◌, Float,
  if◌then◌else◌,
}
use smart_router.Prelude.Exec.{Exception, Result, ok, raised}
use smart_router.Prelude.Strings.{codes, strip, is_empty, text_eq}
use smart_router.Schemas.Message.{Text}
use smart_router.Tools.Json.{Json, get_field}
use smart_router.Memory.Vectors.{and_then}
use smart_router.Memory.Failures.{last_of}
use smart_router.Memory.Failures.Codec.{Formats, LoadedFailure, record_from_json}

pub record LoadedLog (T F : Type 0) : Type 0 where
  pub records : List (LoadedFailure T F)
  pub dropped_on_load : ℕ

module _ {F : Type 0} where
  -- `stored not in (None, name)`
  abbrev differs : String → Option (Json F) → Bool
  differs name none = false
  differs name (some Json.null) = false
  differs name (some (Json.text t)) = not (text_eq t (codes name))
  differs name (some _) = true

  -- a record of another embedder, where the log has the name of one
  unfoldable pub is_foreign : Option String → Option (Json F) → Bool
  is_foreign none stored = false
  is_foreign (some name) stored = if name == "" then false else differs name stored

module _ {T F : Type 0} where
  abbrev pub drop_line : LoadedLog T F → LoadedLog T F
  drop_line l = record l { dropped_on_load = l.dropped_on_load + 1 }

  -- `except (KeyError, ValueError, TypeError)`
  abbrev pub keep_record : Result (LoadedFailure T F) → LoadedLog T F → Result (LoadedLog T F)
  keep_record (ok r) l = ok (record l { records = l.records ++ (r ∷ []) })
  keep_record (raised (Exception.key_error m)) l = ok (drop_line l)
  keep_record (raised (Exception.value_error m)) l = ok (drop_line l)
  keep_record (raised (Exception.type_error m)) l = ok (drop_line l)
  keep_record (raised e) l = raised e

  abbrev pub nothing_loaded : LoadedLog T F
  nothing_loaded = record { records = []; dropped_on_load = 0 }

module _ {T F : Type 0} ⦃f : Float F⦄ (p : Formats T F) (name : Option String) where
  -- a value that is no object has no `get`
  unfoldable pub read_parsed : Option (Json F) → LoadedLog T F → Result (LoadedLog T F)
  unfolding is_foreign get_field record_from_json
  read_parsed none l = ok (drop_line l)
  read_parsed (some (Json.object d)) l =
      if is_foreign name (get_field "embedder" d)
      then ok (drop_line l)
      else keep_record (record_from_json p d) l
  read_parsed (some v) l = raised (Exception.attribute_error "get")

  -- one turn of the loop
  unfoldable pub read_line : Text → LoadedLog T F → Result (LoadedLog T F)
  unfolding read_parsed strip
  read_line line l = if is_empty (strip line) then ok l else read_parsed (p.loads (strip line)) l

  unfoldable pub read_lines : List Text → LoadedLog T F → Result (LoadedLog T F)
  unfolding read_line
  read_lines [] l = ok l
  read_lines (line ∷ lines) l = and_then (read_line line l) (λ next. read_lines lines next)

  -- `load`, of the lines of the file, if there is one
  unfoldable pub load : ℕ → Option (List Text) → Result (LoadedLog T F)
  unfolding read_lines last_of
  load max_records none = ok nothing_loaded
  load max_records (some lines) =
      and_then (read_lines lines nothing_loaded)
        (λ l. ok (record l { records = last_of max_records l.records }))
