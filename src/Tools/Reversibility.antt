-- ===== src/Tools/Reversibility.antt =====
-- tools/reversibility.py: whether a tool that declares nothing is taken to be irreversible.
pub mod Failsafe
use smart_router.Prelude.{
  ℕ, Bool, true, false, Option, none, some, List, [], ◌∷◌, String, ◌==◌, ◌&&◌, ◌||◌, leb, any,
  if◌then◌else◌,
}
use mathlib.Core.List.{reverse}
use smart_router.Prelude.Strings.{codes, lower, text_eq}
use smart_router.Schemas.Message.{Text}

abbrev pub irreversible_verbs_default : List String
irreversible_verbs_default =
    "send" ∷ "post" ∷ "publish" ∷ "delete" ∷ "remove" ∷ "drop" ∷ "purge" ∷ "push" ∷ "commit"
    ∷ "merge" ∷ "rebase" ∷ "revert" ∷ "tag" ∷ "release" ∷ "deploy" ∷ "create" ∷ "add" ∷ "insert"
    ∷ "update" ∷ "patch" ∷ "put" ∷ "write" ∷ "upload" ∷ "rename" ∷ "move" ∷ "archive" ∷ "restore"
    ∷ "invite" ∷ "assign" ∷ "approve" ∷ "reject" ∷ "close" ∷ "resolve" ∷ "pay" ∷ "purchase"
    ∷ "charge" ∷ "refund" ∷ "transfer" ∷ "schedule" ∷ "cancel" ∷ "grant" ∷ "revoke" ∷ "reset"
    ∷ "rotate" ∷ "execute" ∷ "run" ∷ "trigger" ∷ "start" ∷ "stop" ∷ "restart" ∷ "scale" ∷ []

abbrev pub read_only_verbs_default : List String
read_only_verbs_default =
    "get" ∷ "list" ∷ "search" ∷ "read" ∷ "find" ∷ "query" ∷ "fetch" ∷ "show" ∷ "view" ∷ "describe"
    ∷ "count" ∷ "preview" ∷ "check" ∷ "status" ∷ "diff" ∷ "log" ∷ "history" ∷ "branch" ∷ "blame"
    ∷ "inspect" ∷ "tail" ∷ "head" ∷ "stat" ∷ "resolve_id" ∷ "lookup" ∷ "summarize" ∷ "analyze"
    ∷ "validate" ∷ []

is_alnum : ℕ → Bool
is_alnum c = leb b'A' c && leb c b'Z' || leb b'a' c && leb c b'z' || leb b'0' c && leb c b'9'

-- `word` holds the run of letters and digits that is being read, its end first.
abbrev close_word : Text → List Text → List Text
close_word [] ws = ws
close_word (c ∷ s) ws = reverse (c ∷ s) ∷ ws

split_alnum : Text → Text → List Text
unfolding is_alnum
split_alnum word [] = close_word word []
split_alnum word (c ∷ s) =
    let rest = split_alnum (if is_alnum c then c ∷ word else []) s in
    if is_alnum c then rest else close_word word rest

-- `[t for t in re.split(r"[^A-Za-z0-9]+", name.lower()) if t]`
unfoldable pub tokens : String → List Text
unfolding split_alnum lower
tokens name = split_alnum [] (lower (codes name))

pub record IrreversibilityPolicy : Type 0 where
  pub irreversible_verbs : List String
  pub read_only_verbs : List String
  pub default_when_unknown : Bool
  pub overrides : List (String × Bool)

abbrev pub default_policy : IrreversibilityPolicy
default_policy = record {
  irreversible_verbs = irreversible_verbs_default;
  read_only_verbs = read_only_verbs_default;
  default_when_unknown = true;
  overrides = [];
}

unfoldable pub is_verb : List String → Text → Bool
is_verb verbs t = any (λ v. text_eq (codes v) t) verbs

-- the first token of a set
unfoldable pub first_in : List String → List Text → Option Text
unfolding is_verb
first_in verbs [] = none
first_in verbs (t ∷ ts) = let rest = first_in verbs ts in if is_verb verbs t then some t else rest

unfoldable pub find_override : String → List (String × Bool) → Option Bool
find_override name [] = none
find_override name ((n, b) ∷ os) =
    let rest = find_override name os in if n == name then some b else rest

pub data InferenceReason : Type 0 where
  by_override unrecognized : InferenceReason
  mutating_verb read_only_verb : Text → InferenceReason

by_tokens : IrreversibilityPolicy → List Text → Bool × InferenceReason
by_tokens p parts = elim (first_in p.irreversible_verbs parts) [
  | some t ↦ (true, mutating_verb t)
  | none ↦ elim (first_in p.read_only_verbs parts) [
    | some t ↦ (false, read_only_verb t)
    | none ↦ (p.default_when_unknown, unrecognized)
  ]
]

unfoldable pub infer : IrreversibilityPolicy → String → Bool × InferenceReason
unfolding by_tokens
infer p name = elim (find_override name p.overrides) [
  | some b ↦ (b, by_override)
  | none ↦ by_tokens p (tokens name)
]
