-- ===== src/Gateway/ModelConfig.antt =====
-- gateway/model_config.py: the prices and limits of the models, in a dictionary by name.
use smart_router.Prelude.{ℕ, ◌-◌, Bool, Option, String, Float}
use smart_router.Prelude.Dict.{Dict, get, put, string_eq}

pub record ModelSettings (F : Type 0) : Type 0 where
  pub name : String
  pub input_usd_per_mtok : F
  pub output_usd_per_mtok : F
  pub cached_input_discount : F
  pub timeout_seconds : F
  pub temperature : F
  pub supports_constrained_decoding : Bool
  pub supports_logprobs : Bool

module _ {F : Type 0} ⦃f : Float F⦄ where
  -- `max(0, prompt - cached)` is the subtraction that stops at 0.
  unfoldable pub cost : ModelSettings F → ℕ → ℕ → ℕ → F
  cost s prompt_tokens cached_prompt_tokens completion_tokens =
      let rate = f.div_f s.input_usd_per_mtok (f.of_nat 1000000) in
      let uncached = f.mul_f (f.of_nat (prompt_tokens - cached_prompt_tokens)) rate in
      let cached = f.mul_f (f.mul_f (f.of_nat cached_prompt_tokens) rate) s.cached_input_discount in
      let completion =
        f.div_f (f.mul_f (f.of_nat completion_tokens) s.output_usd_per_mtok) (f.of_nat 1000000) in
      f.add_f (f.add_f uncached cached) completion

module _ {F : Type 0} where
  unfoldable pub register :
      ModelSettings F → Dict String (ModelSettings F) → Dict String (ModelSettings F)
  register s models = put s.name s models

  -- `none` is `KeyError`
  abbrev pub settings_for : String → Dict String (ModelSettings F) → Option (ModelSettings F)
  settings_for model models = get model models
