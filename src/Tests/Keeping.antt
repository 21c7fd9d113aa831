-- ===== src/Tests/Keeping.antt =====
-- The stores of memory/reflexion.py at concrete inputs.
use Prim.Native.Nat.{◌≤◌}
use smart_router.Prelude.{true, none, some, List, [], ◌∷◌, ◌++◌, map, ◌≡◌, refl, inr, arith, length}
use smart_router.Prelude.Dict.{values, put_last, remove}
use smart_router.Prelude.Strings.{codes}
use smart_router.Memory.Replay.{GoldenCase}
use smart_router.Memory.Recent.{
  RowFile, RecentStore, Exemplar, Filing, add_golden, start_recent, golden_key, cases,
}
use smart_router.Memory.Recent.Latest.{cases-add_golden}
use smart_router.Tests.Samples.{unary}

-- a disk that takes every write
abbrev disk : {A : Type 0} → RowFile (List A) A
disk = record {
  add_line = λ a d. (true, d ++ (a ∷ []));
  rewrite = λ xs d. (true, xs);
  read = λ d. (length d, d);
}

abbrev filing : Filing
filing = record { fingerprint = unary; scrub = λ t. t }

abbrev corrections : RecentStore (List Exemplar) Exemplar
corrections = record {
  capacity = 2;
  rows = record { file = some []; lines = 0; write_errors = 0 };
  items = [];
}

abbrev pub successes : RecentStore (List GoldenCase) GoldenCase
successes = start_recent disk (golden_key filing) 2 (
    some (
      record { query = codes "a"; tenant_id = "acme" }
      ∷ record { query = codes "b"; tenant_id = "acme" }
      ∷ record { query = codes "a"; tenant_id = "acme" }
      ∷ []))

-- a query that is met again is the latest
run_cases :
    map
      (λ (c : GoldenCase). c.query)
      (cases none none (add_golden filing disk (codes "b") "acme" successes))
    ≡ (codes "b" ∷ codes "a" ∷ [])
unfolding cases add_golden start_recent put_last remove values
run_cases = refl

room : 1 ≤ successes.capacity
unfolding start_recent
room = omega arith

cases-add_golden_example :
    (older : List GoldenCase) × (cases
        (some "acme")
        (some 1)
        (add_golden filing disk (codes "c") "acme" successes)
      ≡ record { query = codes "c"; tenant_id = "acme" } ∷ older)
cases-add_golden_example =
    cases-add_golden filing disk (codes "c") "acme" (some "acme") (some 1) successes room (inr refl)
