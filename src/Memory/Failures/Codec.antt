-- ===== src/Memory/Failures/Codec.antt =====
-- memory/failures.py, `record_to_json` and `record_from_json`: a record of a failure in the file. What
-- is read may have a value of any type in a field that is not converted.
pub mod Decoding
use smart_router.Prelude.{
  Bool, false, Option, none, some, List, [], ◌∷◌, map, String, Float, if◌then◌else◌,
}
use smart_router.Prelude.Exec.{Exception, Result, ok, raised}
use smart_router.Prelude.Strings.{codes, text_eq}
use smart_router.Schemas.Message.{Text, Message, FailureCategory}
use smart_router.Tools.Json.{Json, Items, Fields, get_field}
use smart_router.Tools.Value.{is_true}
use smart_router.Memory.Vectors.{and_then}
use smart_router.Routing.World.{FailureRecord}

-- Python's runtime, with the times `T`: `json.dumps`, `json.loads` (`none` is `JSONDecodeError`),
-- `isoformat`, `fromisoformat`, `round(x, 6)`, `np.asarray(v, dtype=np.float32)`, and the text of a
-- message
pub record Formats (T F : Type 0) : Type 0 where
  pub dumps : Json F → Text
  pub loads : Text → Option (Json F)
  pub isoformat : T → Text
  pub fromisoformat : Json F → Result T
  pub round6 : F → F
  pub asarray : Json F → Result (List F)
  pub show : Message F → Text

-- `FailureRecord` as it is read
pub record LoadedFailure (T F : Type 0) : Type 0 where
  pub request_id : Json F
  pub tenant_id : Json F
  pub query : Json F
  pub query_fingerprint : Json F
  pub category : FailureCategory
  pub verifier_id : Json F
  pub detail : Json F
  pub rejected_output : Json F
  pub vector : List F
  pub preventable_by_construction : Bool
  pub model : Json F
  pub frontier_output : Json F
  pub created_at : T

-- the values of `FailureCategory`
abbrev pub category_value : FailureCategory → String
category_value FailureCategory.timeout = "TIMEOUT"
category_value FailureCategory.provider_fault = "PROVIDER_FAULT"
category_value FailureCategory.schema_violation = "SCHEMA_VIOLATION"
category_value FailureCategory.tool_not_found = "TOOL_NOT_FOUND"
category_value FailureCategory.tool_arg_invalid = "TOOL_ARG_INVALID"
category_value FailureCategory.truncation = "TRUNCATION"
category_value FailureCategory.tool_transient = "TOOL_TRANSIENT"
category_value FailureCategory.tool_semantic = "TOOL_SEMANTIC"
category_value FailureCategory.tool_auth = "TOOL_AUTH"
category_value FailureCategory.approval_required = "APPROVAL_REQUIRED"
category_value FailureCategory.tool_result_suspect = "TOOL_RESULT_SUSPECT"
category_value FailureCategory.wrong_tool_selected = "WRONG_TOOL_SELECTED"
category_value FailureCategory.ungrounded_claim = "UNGROUNDED_CLAIM"
category_value FailureCategory.refusal = "REFUSAL"
category_value FailureCategory.silent_semantic = "SILENT_SEMANTIC"

abbrev pub categories : List FailureCategory
categories =
    FailureCategory.timeout ∷ FailureCategory.provider_fault ∷ FailureCategory.schema_violation
    ∷ FailureCategory.tool_not_found ∷ FailureCategory.tool_arg_invalid ∷ FailureCategory.truncation
    ∷ FailureCategory.tool_transient ∷ FailureCategory.tool_semantic ∷ FailureCategory.tool_auth
    ∷ FailureCategory.approval_required ∷ FailureCategory.tool_result_suspect
    ∷ FailureCategory.wrong_tool_selected ∷ FailureCategory.ungrounded_claim
    ∷ FailureCategory.refusal ∷ FailureCategory.silent_semantic ∷ []

unfoldable pub find_category : Text → List FailureCategory → Result FailureCategory
find_category t [] = raised (Exception.value_error "is not a valid FailureCategory")
find_category t (c ∷ cs) =
    let rest = find_category t cs in if text_eq t (codes (category_value c)) then ok c else rest

module _ {F : Type 0} where
  -- `FailureCategory(v)`
  unfoldable pub read_category : Json F → Result FailureCategory
  unfolding find_category
  read_category (Json.text t) = find_category t categories
  read_category _ = raised (Exception.value_error "is not a valid FailureCategory")

  -- `d[key]`
  unfoldable pub require_field : String → Fields F → Result (Json F)
  unfolding get_field
  require_field key d = elim (get_field key d) [
    | none ↦ raised (Exception.key_error key)
    | some v ↦ ok v
  ]

  -- `d.get(key, default)`
  unfoldable pub field_or : String → Json F → Fields F → Json F
  unfolding get_field
  field_or key default d = elim (get_field key d) [ none ↦ default | some v ↦ v ]

  abbrev pub optional_text : Option Text → Json F
  optional_text none = Json.null
  optional_text (some t) = Json.text t

  abbrev pub optional_name : Option String → Json F
  optional_name none = Json.null
  optional_name (some s) = Json.text (codes s)

  abbrev pub string : String → Json F
  string s = Json.text (codes s)

  unfoldable pub floats : List F → Items F
  floats [] = Items.nil
  floats (x ∷ xs) = Items.cons (Json.float x) (floats xs)

module _ {T F : Type 0} (p : Formats T F) where
  abbrev pub vector_json : List F → Json F
  vector_json v = Json.array (floats (map p.round6 v))

  unfoldable pub record_fields : Option String → T → FailureRecord F → Fields F
  unfolding floats
  record_fields embedder created_at r = Fields.field "request_id" (string r.request_id) (
      Fields.field "tenant_id" (string r.tenant_id) (
        Fields.field "query" (Json.text r.query) (
          Fields.field "query_fingerprint" (string r.query_fingerprint) (
            Fields.field "category" (string (category_value r.category)) (
              Fields.field "verifier_id" (string r.verifier_id) (
                Fields.field "detail" (Json.text (p.show r.detail)) (
                  Fields.field "rejected_output" (Json.text r.rejected_output) (
                    Fields.field "vector" (vector_json r.vector) (
                      Fields.field "preventable_by_construction"
                        (Json.boolean r.preventable_by_construction)
                        (Fields.field "model" (string r.model) (
                          Fields.field "frontier_output" (optional_text r.frontier_output) (
                            Fields.field "created_at" (Json.text (p.isoformat created_at)) (
                              Fields.field "embedder" (optional_name embedder)
                                Fields.end)))))))))))))

  abbrev pub record_to_json : Option String → T → FailureRecord F → Json F
  record_to_json embedder created_at r = Json.object (record_fields embedder created_at r)

module _ {T F : Type 0} ⦃f : Float F⦄ (p : Formats T F) where
  -- the conversions that may raise, in the order of the source
  unfoldable pub record_from_json : Fields F → Result (LoadedFailure T F)
  unfolding require_field field_or read_category is_true
  record_from_json d = and_then (require_field "request_id" d) (λ request_id.
      and_then (require_field "tenant_id" d) (λ tenant_id.
        and_then (require_field "query" d) (λ query.
          and_then (require_field "query_fingerprint" d) (λ query_fingerprint.
            and_then (and_then (require_field "category" d) read_category) (λ category.
              and_then (require_field "verifier_id" d) (λ verifier_id.
                and_then (and_then (require_field "vector" d) p.asarray) (λ vector.
                  and_then (and_then (require_field "created_at" d) p.fromisoformat) (λ created_at.
                    ok (record {
                      request_id = request_id;
                      tenant_id = tenant_id;
                      query = query;
                      query_fingerprint = query_fingerprint;
                      category = category;
                      verifier_id = verifier_id;
                      detail = field_or "detail" (Json.text []) d;
                      rejected_output = field_or "rejected_output" (Json.text []) d;
                      vector = vector;
                      preventable_by_construction =
                          is_true (field_or "preventable_by_construction" (Json.boolean false) d);
                      model = field_or "model" (Json.text []) d;
                      frontier_output = field_or "frontier_output" Json.null d;
                      created_at = created_at;
                    })))))))))
