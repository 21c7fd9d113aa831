-- ===== src/Gateway/Base.antt =====
-- gateway/base.py: a model's response, and the protocol of a client.
use smart_router.Prelude.{ℕ, Bool, Option, List, String, ◌==◌}
use smart_router.Schemas.Message.{Text}

pub record ModelResponse (F : Type 0) : Type 0 where
  pub text : Text
  pub model : String
  pub prompt_tokens : ℕ
  pub cached_prompt_tokens : ℕ
  pub completion_tokens : ℕ
  pub latency_ms : F
  pub finish_reason : String
  pub logprobs : Option (List F)

-- the property `truncated`
unfoldable pub truncated : {F : Type 0} → ModelResponse F → Bool
truncated r = r.finish_reason == "length"
