-- ===== src/Memory/Recent.antt =====
-- memory/reflexion.py, `_Jsonl`, `ExemplarStore` and `GoldenSet`: the latest distinct corrections and
-- successes, in memory and in an append-only file.
pub mod Latest
use mathlib.Core.List.{reverse}
use smart_router.Prelude.{
  ℕ, zero, suc, ◌+◌, ◌-◌, ◌*◌, Bool, true, false, ◌&&◌, ◌||◌, Option, none, some, List, [], ◌∷◌,
  ◌++◌, String, ◌==◌, ◌≡◌, ◌↔◌, refl, subst, length, drop, take, filter_by, leb, if◌then◌else◌,
  arith, eq_iff,
}
use smart_router.Prelude.Dict.{Eq, Dict, put_last, values}
use smart_router.Prelude.Exec.{Exec, Exception, Result, ok, raised, pure, ◌>>=◌}
use smart_router.Prelude.Strings.{strip, is_empty}
use smart_router.Schemas.Message.{Text}
use smart_router.Schemas.Rule.{global_scope}
use smart_router.Memory.Replay.{GoldenCase}

-- The file of a store, a parameter. A write says whether it was made (`false` is `OSError`) and what
-- the disk is afterwards; `read` gives the number of the rows that are JSON, and those of them that
-- have all their keys.
pub record RowFile (D A : Type 0) : Type 0 where
  pub add_line : A → D → Bool × D
  pub rewrite : List A → D → Bool × D
  pub read : D → ℕ × List A

-- `_Jsonl`; `file` is the disk under `path`, where a path is set
pub record Jsonl (D : Type 0) : Type 0 where
  pub file : Option D
  pub lines : ℕ
  pub write_errors : ℕ

-- a tenant and a fingerprint
abbrev pub RecentKey : Type 0
RecentKey = String × String

abbrev pub same_key : RecentKey → RecentKey → Bool
same_key a b = (a.0 == b.0) && (a.1 == b.1)

same_key_refl : (a : RecentKey) → same_key a a ≡ true
same_key_refl a = rw ((eq_iff a.0 a.0).1 refl, (eq_iff a.1 a.1).1 refl) refl

pub same_key_iff : (a b : RecentKey) → (same_key a b ≡ true) ↔ (a ≡ b)
same_key_iff a b = (
  λ h.
      let tenant : a.0 ≡ b.0 = (eq_iff a.0 b.0).0 (ground (arith, h)) in
      let print : a.1 ≡ b.1 = (eq_iff a.1 b.1).0 (ground (arith, h)) in cc (tenant, print),
  λ e. subst (λ z. same_key a z ≡ true) e (same_key_refl a),
)

instance abbrev pub recent_key_eq : Eq RecentKey
recent_key_eq = record { beq = same_key; beq_iff = same_key_iff }

-- what `ExemplarStore` and `GoldenSet` share
pub record RecentStore (D A : Type 0) : Type 0 where
  pub capacity : ℕ
  pub rows : Jsonl D
  pub items : Dict RecentKey A

module _ {D : Type 0} where
  -- a write that fails is counted; one that is made sets the number of lines
  unfoldable pub note_write : ℕ → Bool × D → Jsonl D → Jsonl D
  note_write lines (true, d) j = record j { file = some d; lines = lines }
  note_write lines (false, d) j = record j { file = some d; write_errors = j.write_errors + 1 }

module _ {A : Type 0} where
  -- `while len(items) > capacity: items.popitem(last=False)`
  unfoldable pub trim_items : ℕ → Dict RecentKey A → Dict RecentKey A
  trim_items capacity items = drop (length items - capacity) items

  unfoldable pub put_all : (A → RecentKey) → List A → Dict RecentKey A → Dict RecentKey A
  put_all key [] items = items
  put_all key (a ∷ xs) items = put_all key xs (put_last (key a) a items)

module _ {D A : Type 0} where
  -- `append`
  unfoldable pub append_row : RowFile D A → A → Jsonl D → Jsonl D
  unfolding note_write
  append_row disk a j = elim j.file [
    | none ↦ j
    | some d ↦ note_write (j.lines + 1) (disk.add_line a d) j
  ]

  -- `rewrite`
  unfoldable pub rewrite_rows : RowFile D A → List A → Jsonl D → Jsonl D
  unfolding note_write
  rewrite_rows disk xs j = elim j.file [
    | none ↦ j
    | some d ↦ note_write (length xs) (disk.rewrite xs d) j
  ]

  -- the rest of `add`: now and then the file is compacted
  unfoldable pub persist : RowFile D A → A → RecentStore D A → RecentStore D A
  unfolding append_row rewrite_rows
  persist disk a s =
      if leb (4 * s.capacity) s.rows.lines
      then record s { rows = rewrite_rows disk (values s.items) s.rows }
      else record s { rows = append_row disk a s.rows }

  -- `_put`, `_trim` and the file
  unfoldable pub add_recent : RowFile D A → RecentKey → A → RecentStore D A → RecentStore D A
  unfolding trim_items persist
  add_recent disk k a s =
      persist disk a (record s { items = trim_items s.capacity (put_last k a s.items) })

  -- a store that is made over its file
  unfoldable pub start_recent : RowFile D A → (A → RecentKey) → ℕ → Option D → RecentStore D A
  unfolding put_all trim_items
  start_recent disk key capacity none = record {
    capacity = capacity;
    rows = record { file = none; lines = 0; write_errors = 0 };
    items = [];
  }
  start_recent disk key capacity (some d) = record {
    capacity = capacity;
    rows = record { file = some d; lines = (disk.read d).0; write_errors = 0 };
    items = trim_items capacity (put_all key (disk.read d).1 []);
  }

pub record Exemplar : Type 0 where
  pub query : Text
  pub verified_output : Text
  pub tenant_id : String
  pub source_request_id : String

-- the digest of a query and the scrubbing of a text
pub record Filing : Type 0 where
  pub fingerprint : Text → String
  pub scrub : Text → Text

abbrev pub exemplar_key : Filing → Exemplar → RecentKey
exemplar_key filing x = (x.tenant_id, filing.fingerprint x.query)

abbrev pub golden_key : Filing → GoldenCase → RecentKey
golden_key filing c = (c.tenant_id, filing.fingerprint c.query)

module _ {D : Type 0} (filing : Filing) where
  -- `ExemplarStore.add`
  unfoldable pub add_exemplar :
      RowFile D Exemplar → Text → Text → String → String → Exec (RecentStore D Exemplar) Exemplar
  unfolding add_recent
  add_exemplar disk query output tenant request s =
      let x : Exemplar = record {
        query = filing.scrub query;
        verified_output = filing.scrub output;
        tenant_id = tenant;
        source_request_id = request;
      } in
      if tenant == global_scope
      then (raised (Exception.value_error "exemplars are raw tenant data and cannot be GLOBAL"), s)
      else (ok x, add_recent disk (exemplar_key filing x) x s)

  -- `Reflexion.record_exemplar`, where there is a store
  unfoldable pub record_exemplar :
      RowFile D Exemplar → Text → Text → String → String → Exec (RecentStore D Exemplar) Unit
  unfolding add_exemplar
  record_exemplar disk query output tenant request s =
      if (tenant == global_scope) || is_empty (strip output)
      then (ok tt, s)
      else (do x ← add_exemplar disk query output tenant request; pure tt) s

  -- `GoldenSet.add`
  unfoldable pub add_golden :
      RowFile D GoldenCase → Text → String → RecentStore D GoldenCase → RecentStore D GoldenCase
  unfolding add_recent
  add_golden disk query tenant s =
      let c : GoldenCase = record { query = filing.scrub query; tenant_id = tenant } in
      add_recent disk (golden_key filing c) c s

-- `items[:limit] if limit else items`
abbrev limited : {A : Type 0} → Option ℕ → List A → List A
limited none xs = xs
limited (some zero) xs = xs
limited (some (suc n)) xs = take (suc n) xs

abbrev is_case_of : Option String → GoldenCase → Bool
is_case_of none c = true
is_case_of (some tenant) c = c.tenant_id == tenant

-- `GoldenSet.cases`, the latest first
unfoldable pub cases :
    {D : Type 0} → Option String → Option ℕ → RecentStore D GoldenCase → List GoldenCase
cases tenant limit s = limited limit (reverse (filter_by (is_case_of tenant) (values s.items)))
