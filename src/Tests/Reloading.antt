-- ===== src/Tests/Reloading.antt =====
-- memory/failures.py, `FailureLog.load`, at a concrete input: two records, a torn line, and a line of
-- another embedder.
use smart_router.Prelude.{
  ℕ, none, some, List, [], ◌∷◌, map, String, ◌≡◌, refl, ap, All, if◌then◌else◌,
}
use smart_router.Prelude.Exec.{Exception, Result, ok, raised}
use smart_router.Prelude.Strings.{codes, strip, text_eq}
use smart_router.Schemas.Message.{Text}
use smart_router.Tools.Json.{Json, Items, Fields, get_field}
use smart_router.Memory.Vectors.{and_then}
use smart_router.Memory.Failures.{last_of}
use smart_router.Memory.Failures.Codec.{Formats, floats, record_fields}
use smart_router.Memory.Failures.Codec.Decoding.{IsRuntime, as_loaded}
use smart_router.Memory.Failures.Loading.{is_foreign, load}
use smart_router.Memory.Failures.Loading.Readback.{
  Line, written, torn, foreign, text_of, IsLine, count_lost, records_of, load-reads_back,
}
use smart_router.Tests.Samples.{nat_float}
use smart_router.Tests.Failing.{failure}

abbrev of_floats : Items ℕ → Result (List ℕ)
of_floats Items.nil = ok []
of_floats (Items.cons (Json.float x) xs) = and_then (of_floats xs) (λ ys. ok (x ∷ ys))
of_floats (Items.cons v xs) = raised (Exception.value_error "could not convert")

abbrev as_array : Json ℕ → Result (List ℕ)
as_array (Json.array xs) = of_floats xs
as_array v = raised (Exception.value_error "could not convert")

abbrev time_of : Json ℕ → Result ℕ
time_of (Json.text (t ∷ [])) = ok t
time_of v = raised (Exception.value_error "Invalid isoformat string")

-- a record is written as its identifier
abbrev written_as : Json ℕ → Text
written_as (Json.object (Fields.field k (Json.text t) d)) = t
written_as v = []

abbrev blind : Formats ℕ ℕ
blind = record {
  dumps = written_as;
  loads = λ t. none;
  isoformat = λ t. t ∷ [];
  fromisoformat = time_of;
  round6 = λ x. x;
  asarray = as_array;
  show = λ m. [];
}

abbrev row : String → String → Fields ℕ
row embedder id = record_fields blind (some embedder) 7 (failure id)

abbrev formats : Formats ℕ ℕ
formats = record blind {
  loads = λ t.
      if text_eq t (codes "r1")
      then some (Json.object (row "e1" "r1"))
      else if text_eq t (codes "r2")
      then some (Json.object (row "e1" "r2"))
      else if text_eq t (codes "r3")
      then some (Json.object (row "e2" "r3"))
      else if text_eq t (codes "[]")
      then some (Json.array Items.nil)
      else if text_eq t (codes "{}")
      then some (Json.object Fields.end)
      else none;
}

floats-kept : (xs : List ℕ) → of_floats (floats xs) ≡ ok (map (λ x. x) xs)
unfolding floats
floats-kept [] = refl
floats-kept (x ∷ xs) = ap (λ r. and_then r (λ ys. ok (x ∷ ys))) (floats-kept xs)

formats-IsRuntime : IsRuntime formats (λ x. x)
formats-IsRuntime = record { arrays = floats-kept; times = λ t. refl }

abbrev lines : List (Line ℕ ℕ)
lines =
    written 7 (failure "r1")
    ∷ foreign (codes " r3") (row "e2" "r3")
    ∷ written 7 (failure "r2")
    ∷ torn (codes "r")
    ∷ []

lines-IsLine : All (IsLine formats (λ x. x) (some "e1")) lines
unfolding strip is_foreign get_field record_fields
lines-IsLine = ((refl, refl), (((refl, refl), refl), ((refl, refl), ((refl, refl), tt))))

-- a blank line is skipped, and an object without the keys of a record is dropped
run_blank :
    load formats (some "e1") 5 (some (codes " " ∷ codes "{}" ∷ []))
    ≡ ok (record { records = []; dropped_on_load = 1 })
unfolding load strip last_of
run_blank = refl

-- a value that is no object ends the load
run_list :
    load formats (some "e1") 5 (some (codes "[]" ∷ codes "r1" ∷ []))
    ≡ raised (Exception.attribute_error "get")
unfolding load strip
run_list = refl

load-reads_back_example :
    load formats (some "e1") 1 (some (map (text_of formats (λ x. x) (some "e1")) lines))
    ≡ ok
        (record { records = as_loaded formats (λ x. x) 7 (failure "r2") ∷ []; dropped_on_load = 2 })
unfolding last_of count_lost records_of
load-reads_back_example =
    load-reads_back formats (λ x. x) (some "e1") 1 lines formats-IsRuntime lines-IsLine
