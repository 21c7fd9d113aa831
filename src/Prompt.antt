-- ===== src/Prompt.antt =====
-- prompt.py: the order of the blocks of a prompt, and the history that is kept between turns.
pub mod Prefix
use smart_router.Prelude.{
  ℕ, ◌+◌, ◌/◌, Bool, true, false, Option, none, some, List, [], ◌∷◌, ◌++◌, map, String, ◌==◌, ◌||◌,
  ltb, length, if◌then◌else◌,
}
use smart_router.Prelude.Exec.{Exec, Exception, pure, raise}
use smart_router.Prelude.Strings.{codes, contains, is_empty}
use smart_router.Schemas.Message.{Text}

-- `Message`, a dictionary with a role and a content
pub record PromptMessage : Type 0 where
  pub role : String
  pub content : Text

-- what a prompt uses of a rule or of an exemplar: its identifier and what `render` gives
pub record Injectable : Type 0 where
  pub rule_id : String
  pub rendered : Text

abbrev pub rule_sentinel : Text
rule_sentinel = codes "<<injected-rules>>"

-- membership in `_CLEAN_ROLES`
abbrev pub is_clean_role : String → Bool
is_clean_role role = (role == "user") || ((role == "assistant") || (role == "tool"))

-- `max(1, n)`
abbrev at_least_one : ℕ → ℕ
at_least_one n = if ltb 1 n then n else 1

unfoldable pub approx_tokens : Text → ℕ
approx_tokens t = at_least_one (length t / 4)

abbrev pub ConversationHistory : Type 0
ConversationHistory = List PromptMessage

abbrev pub contamination : Exception
contamination = Exception.value_error "HistoryContaminationError"

-- `ConversationHistory.append`
unfoldable pub append : String → Text → Exec ConversationHistory Unit
append role content h =
    if is_clean_role role
    then if contains rule_sentinel content
      then raise contamination h
      else pure tt (h ++ (record { role = role; content = content } ∷ []))
    else raise contamination h

pub record AssembledPrompt : Type 0 where
  pub prefix : List PromptMessage
  pub volatile : List PromptMessage
  pub injected_rule_ids : List String
  pub injected_token_count : ℕ

-- the property `messages`
abbrev pub messages : AssembledPrompt → List PromptMessage
messages p = p.prefix ++ p.volatile

unfoldable pub sum_content : List PromptMessage → ℕ
unfolding approx_tokens
sum_content [] = 0
sum_content (m ∷ ms) = approx_tokens m.content + sum_content ms

abbrev pub prefix_tokens : AssembledPrompt → ℕ
prefix_tokens p = sum_content p.prefix

abbrev pub volatile_tokens : AssembledPrompt → ℕ
volatile_tokens p = sum_content p.volatile

-- Python's hash object as a state: `update` takes the encoded JSON of a message, `hexdigest` is the
-- first sixteen digits of what the state gives.
pub record Hash (S : Type 0) : Type 0 where
  pub initial : S
  pub update : PromptMessage → S → S
  pub hexdigest : S → String

module _ {S : Type 0} where
  unfoldable pub chain_from : Hash S → S → List PromptMessage → List String
  chain_from h s [] = []
  chain_from h s (m ∷ ms) = h.hexdigest (h.update m s) ∷ chain_from h (h.update m s) ms

  unfoldable pub prefix_chain : Hash S → AssembledPrompt → List String
  unfolding chain_from
  prefix_chain h p = chain_from h h.initial p.prefix

-- the rules after a line feed each
unfoldable pub rule_lines : List Injectable → Text
rule_lines [] = []
rule_lines (r ∷ rs) = 10 ∷ r.rendered ++ rule_lines rs

-- `_render_rules`
unfoldable pub render_rules : List Injectable → Text
unfolding rule_lines
render_rules rs = rule_sentinel ++ rule_lines rs

abbrev pub system_message : Text → PromptMessage
system_message t = record { role = "system"; content = t }

-- `tools` is the JSON of the tool list, if there is a tool.
abbrev pub tool_block : Option Text → List PromptMessage
tool_block none = []
tool_block (some json) = system_message (codes "TOOLS:\n" ++ json) ∷ []

abbrev pub context_block : Option Text → List PromptMessage
context_block none = []
context_block (some t) = if is_empty t then [] else system_message (codes "CONTEXT:\n" ++ t) ∷ []

abbrev pub rule_block : List Injectable → List PromptMessage
rule_block [] = []
rule_block (r ∷ rs) = system_message (render_rules (r ∷ rs)) ∷ []

abbrev pub rule_tokens : List Injectable → ℕ
rule_tokens [] = 0
rule_tokens (r ∷ rs) = approx_tokens (render_rules (r ∷ rs))

-- no history is as good as an empty one
unfoldable pub assemble :
    Text
    → Option Text
    → Option Text
    → ConversationHistory
    → List Injectable
    → Text
    → AssembledPrompt
assemble system tools tenant_context history rules current_turn = record {
  prefix = system_message system ∷ tool_block tools ++ context_block tenant_context ++ history;
  volatile = rule_block rules ++ (record { role = "user"; content = current_turn } ∷ []);
  injected_rule_ids = map (λ (r : Injectable). r.rule_id) rules;
  injected_token_count = rule_tokens rules;
}
