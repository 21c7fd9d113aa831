-- ===== src/Memory/Failures/Codec/Decoding.antt =====
-- memory/failures.py: what `record_from_json` makes of what `record_to_json` has written.
use smart_router.Prelude.{Option, some, List, map, String, ◌≡◌, refl, Float}
use smart_router.Prelude.Exec.{ok}
use smart_router.Prelude.Strings.{codes}
use smart_router.Schemas.Message.{FailureCategory}
use smart_router.Tools.Json.{Json, get_field}
use smart_router.Tools.Value.{is_true}
use smart_router.Routing.World.{FailureRecord}
use smart_router.Memory.Failures.Codec.{
  Formats, LoadedFailure, category_value, find_category, read_category, require_field, field_or,
  optional_text, optional_name, string, floats, record_fields, record_from_json,
}

pub read_category-value :
    (F : Type 0) (c : FailureCategory)
    → read_category {F = F} (Json.text (codes (category_value c))) ≡ ok c
unfolding read_category find_category
read_category-value F FailureCategory.timeout = refl
read_category-value F FailureCategory.provider_fault = refl
read_category-value F FailureCategory.schema_violation = refl
read_category-value F FailureCategory.tool_not_found = refl
read_category-value F FailureCategory.tool_arg_invalid = refl
read_category-value F FailureCategory.truncation = refl
read_category-value F FailureCategory.tool_transient = refl
read_category-value F FailureCategory.tool_semantic = refl
read_category-value F FailureCategory.tool_auth = refl
read_category-value F FailureCategory.approval_required = refl
read_category-value F FailureCategory.tool_result_suspect = refl
read_category-value F FailureCategory.wrong_tool_selected = refl
read_category-value F FailureCategory.ungrounded_claim = refl
read_category-value F FailureCategory.refusal = refl
read_category-value F FailureCategory.silent_semantic = refl

module _ {T F : Type 0} (p : Formats T F) (float32 : F → F) where
  -- numpy and datetime: an array of floats has each rounded to 32 bits, and a time is read from its
  -- format
  pub record IsRuntime : Type 0 where
    pub arrays : (xs : List F) → p.asarray (Json.array (floats xs)) ≡ ok (map float32 xs)
    pub times : (t : T) → p.fromisoformat (Json.text (p.isoformat t)) ≡ ok t

  -- a record as it is read back: the vector is rounded twice, and the detail is a text
  abbrev pub as_loaded : T → FailureRecord F → LoadedFailure T F
  as_loaded t r = record {
    request_id = string r.request_id;
    tenant_id = string r.tenant_id;
    query = Json.text r.query;
    query_fingerprint = string r.query_fingerprint;
    category = r.category;
    verifier_id = string r.verifier_id;
    detail = Json.text (p.show r.detail);
    rejected_output = Json.text r.rejected_output;
    vector = map float32 (map p.round6 r.vector);
    preventable_by_construction = r.preventable_by_construction;
    model = string r.model;
    frontier_output = optional_text r.frontier_output;
    created_at = t;
  }

  pub record_from_json-fields :
      ⦃f : Float F⦄ (embedder : Option String) (t : T) (r : FailureRecord F)
      → IsRuntime
      → record_from_json p (record_fields p embedder t r) ≡ ok (as_loaded t r)
  unfolding record_from_json record_fields require_field field_or get_field is_true
  record_from_json-fields embedder t r h =
      rw (read_category-value F r.category, h.arrays (map p.round6 r.vector), h.times t) refl

  pub embedder-fields :
      (embedder : Option String) (t : T) (r : FailureRecord F)
      → get_field "embedder" (record_fields p embedder t r) ≡ some (optional_name embedder)
  unfolding record_fields get_field
  embedder-fields embedder t r = refl
