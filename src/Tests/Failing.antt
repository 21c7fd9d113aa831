-- ===== src/Tests/Failing.antt =====
-- memory/failures.py at concrete inputs: a log of at most two records on a small disk.
use smart_router.Prelude.{
  ℕ, true, false, none, some, List, [], ◌∷◌, ◌++◌, String, ◌≡◌, refl, sym, some-injective, length,
  ltb, arith, if◌then◌else◌,
}
use smart_router.Prelude.Strings.{codes}
use smart_router.Schemas.Message.{Message, FailureCategory}
use smart_router.Routing.World.{FailureRecord}
use smart_router.Memory.Failures.{
  LogFile, FailureLog, last_of, record_failures, remove, record_failure, append_line, write,
  note_write, trim, rewrite_file,
}
use smart_router.Memory.Failures.Kept.{record_failures-latest}
use smart_router.Memory.Failures.Mirror.{
  Operation, recording, removing, IsFaithful, Mirrors, apply_all, apply_all_mirrored,
}

abbrev pub failure : String → FailureRecord ℕ
failure id = record {
  request_id = id;
  tenant_id = "acme";
  query = codes "when";
  query_fingerprint = "q1";
  category = FailureCategory.silent_semantic;
  verifier_id = "judge";
  detail = Message.fixed "";
  rejected_output = [];
  vector = [];
  preventable_by_construction = false;
  model = "m1";
  frontier_output = none;
}

-- a disk with room for three lines
abbrev pub disk : LogFile (List (FailureRecord ℕ)) ℕ
disk = record {
  add_line = λ r d. if ltb (length d) 3 then (true, d ++ (r ∷ [])) else (false, d);
  rewrite = λ rs d. if ltb (length rs) 4 then (true, rs) else (false, d);
}

disk-IsFaithful : IsFaithful disk (λ d. d)
disk-IsFaithful = record { appended = λ r d h. ground arith; rewritten = λ rs d h. ground arith }

abbrev log : FailureLog (List (FailureRecord ℕ)) ℕ
log = record { max_records = 2; file = some []; records = []; write_errors = 0 }

last_none : last_of 2 log.records ≡ log.records
unfolding last_of
last_none = refl

log-Mirrors : Mirrors disk (λ d. d) disk-IsFaithful log
log-Mirrors = λ d e z. sym (some-injective e)

record_failures-latest_example :
    (record_failures disk (failure "r1" ∷ failure "r2" ∷ failure "r3" ∷ []) log).records
    ≡ last_of 2 (failure "r1" ∷ failure "r2" ∷ failure "r3" ∷ [])
record_failures-latest_example =
    record_failures-latest disk (failure "r1" ∷ failure "r2" ∷ failure "r3" ∷ []) log last_none

abbrev operations : List (Operation ℕ)
operations =
    recording (failure "r1")
    ∷ recording (failure "r2")
    ∷ recording (failure "r3")
    ∷ removing ("r2" ∷ [])
    ∷ []

-- the two latest are left, then the removed one is gone from the file as well
run_file : (apply_all disk operations log).file ≡ some (failure "r3" ∷ [])
unfolding apply_all record_failure append_line write note_write trim rewrite_file last_of remove
run_file = refl

run_errors : (apply_all disk operations log).write_errors ≡ 0
unfolding apply_all record_failure append_line write note_write trim rewrite_file last_of remove
run_errors = refl

apply_all_mirrored_example : (failure "r3" ∷ []) ≡ (apply_all disk operations log).records
apply_all_mirrored_example =
    apply_all_mirrored disk (λ d. d) disk-IsFaithful operations log (failure "r3" ∷ []) log-Mirrors
      run_file run_errors
