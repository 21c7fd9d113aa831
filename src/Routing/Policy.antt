-- ===== src/Routing/Policy.antt =====
-- routing/policy.py: the gate that runs before anything else. The two regular expressions are read
-- as searches; `\w` and `\s` are those of ASCII.
pub mod Forced
use smart_router.Prelude.{
  ℕ, zero, suc, Bool, true, false, not, ◌&&◌, ◌||◌, Option, none, some, List, [], ◌∷◌, String, ◌==◌,
  any, is_some, nat_eq, leb, if◌then◌else◌,
}
use smart_router.Prelude.Strings.{codes, lower, lower_char, contains, is_space, lstrip}
use smart_router.Schemas.Message.{Text, RiskClass}

-- the words after which nothing more is asked
abbrev pub irreversible_words : List String
irreversible_words =
    "send" ∷ "post" ∷ "publish" ∷ "delete" ∷ "remove" ∷ "purchase" ∷ "pay" ∷ "transfer" ∷ "deploy"
    ∷ []

abbrev pub standing_verbs : List String
standing_verbs = "set" ∷ "create" ∷ "schedule" ∷ "configure" ∷ "add" ∷ []

abbrev pub recurrence_words : List String
recurrence_words =
    "daily" ∷ "weekly" ∷ "nightly" ∷ "hourly" ∷ "recurring" ∷ "standing" ∷ "cron" ∷ []

abbrev pub write_words : List String
write_words = "create" ∷ "update" ∷ "draft" ∷ "add" ∷ "assign" ∷ "move" ∷ "rename" ∷ []

-- `\w`
unfoldable pub is_word_char : ℕ → Bool
is_word_char c =
    (leb b'a' c && leb c b'z')
    || ((leb b'A' c && leb c b'Z') || ((leb b'0' c && leb c b'9') || nat_eq c b'_'))

-- `\b` before a position that a word character follows or not, after a word
abbrev pub ends_word : Text → Bool
ends_word [] = true
ends_word (c ∷ s) = not (is_word_char c)

-- what follows a word at the start of a text, letters of either case
unfoldable pub after_word : Text → Text → Option Text
after_word [] s = if ends_word s then some s else none
after_word (a ∷ w) [] = none
after_word (a ∷ w) (c ∷ s) =
    let rest = after_word w s in if nat_eq a (lower_char c) then rest else none

unfoldable pub after_one_of : List String → Text → Option Text
unfolding after_word
after_one_of [] s = none
after_one_of (w ∷ ws) s =
    let rest = after_one_of ws s in elim (after_word (codes w) s) [ some t ↦ some t | none ↦ rest ]

abbrev pub starts_with_one_of : List String → Text → Bool
starts_with_one_of ws s = is_some (after_one_of ws s)

-- `re.search` of a pattern that begins with `\b` and a word character: `inside` says whether the
-- position follows a word character.
unfoldable pub search : (Text → Bool) → Bool → Text → Bool
unfolding is_word_char
search here inside [] = not inside && here []
search here inside (c ∷ s) =
    let rest = search here (is_word_char c) s in (not inside && here (c ∷ s)) || rest

-- `\S+`
unfoldable pub drop_chunk : Text → Text
unfolding is_space
drop_chunk [] = []
drop_chunk (c ∷ s) = let rest = drop_chunk s in if is_space c then c ∷ s else rest

abbrev pub begins_blank : Text → Bool
begins_blank [] = false
begins_blank (c ∷ s) = is_space c

-- `(?:\s+\S+){0,n}?\s+\b(...)\b`: blanks and a chunk are read whole, since a blank follows each.
unfoldable pub recurs : ℕ → Text → Bool
unfolding drop_chunk lstrip
recurs zero s = begins_blank s && starts_with_one_of recurrence_words (lstrip s)
recurs (suc n) s =
    let later = recurs n (drop_chunk (lstrip s)) in
    begins_blank s && (starts_with_one_of recurrence_words (lstrip s) || later)

-- a verb of a standing configuration, and at most four chunks later a recurrence
unfoldable pub is_standing : Text → Bool
unfolding recurs
is_standing s = elim (after_one_of standing_verbs s) [ none ↦ false | some rest ↦ recurs 4 rest ]

unfoldable pub irreversible_intent : Text → Bool
unfolding search is_standing
irreversible_intent query =
    search (λ s. starts_with_one_of irreversible_words s || is_standing s) false query

unfoldable pub write_intent : Text → Bool
unfolding search
write_intent query = search (starts_with_one_of write_words) false query

-- the reasons of `evaluate`
pub data PolicyReason : Type 0 where
  explicit_override : PolicyReason
  frontier_only : String → PolicyReason
  sensitive_marker : Text → PolicyReason
  irreversible : PolicyReason
  no_constraint : PolicyReason

pub record PolicyDecision (F : Type 0) : Type 0 where
  pub force_frontier : Bool
  pub risk_class : RiskClass
  pub cost_of_being_wrong_usd : F
  pub reason : PolicyReason

-- The dictionary of costs has a value for each class.
pub record PolicyGate (F : Type 0) : Type 0 where
  pub frontier_only_tenants : List String
  pub sensitive_markers : List Text
  pub frontier_on_irreversible_intent : Bool
  pub cost_of_being_wrong : RiskClass → F

abbrev pub default_markers : List Text
default_markers = codes "confidential" ∷ codes "restricted" ∷ codes "[secret]" ∷ []

unfoldable pub classify_risk : Text → RiskClass
unfolding irreversible_intent write_intent
classify_risk query =
    if irreversible_intent query
    then RiskClass.irreversible_write
    else if write_intent query
    then RiskClass.reversible_write
    else RiskClass.read_only

-- the first marker in a text
unfoldable pub first_marker : List Text → Text → Option Text
first_marker [] lowered = none
first_marker (m ∷ ms) lowered =
    let rest = first_marker ms lowered in if contains m lowered then some m else rest

abbrev pub is_irreversible_write : RiskClass → Bool
is_irreversible_write RiskClass.irreversible_write = true
is_irreversible_write _ = false

module _ {F : Type 0} where
  abbrev decide : Bool → RiskClass → F → PolicyReason → PolicyDecision F
  decide force risk cost reason = record {
    force_frontier = force;
    risk_class = risk;
    cost_of_being_wrong_usd = cost;
    reason = reason;
  }

  unfoldable pub evaluate : PolicyGate F → Text → String → Bool → PolicyDecision F
  unfolding classify_risk first_marker
  evaluate g query tenant_id override_frontier =
      let risk = classify_risk query in
      let cost = g.cost_of_being_wrong risk in
      if override_frontier
      then decide true risk cost PolicyReason.explicit_override
      else if any (λ t. t == tenant_id) g.frontier_only_tenants
      then decide true risk cost (PolicyReason.frontier_only tenant_id)
      else elim (first_marker g.sensitive_markers (lower query)) [
        | some m ↦ decide true risk cost (PolicyReason.sensitive_marker m)
        | none ↦
            if g.frontier_on_irreversible_intent && is_irreversible_write risk
            then decide true risk cost PolicyReason.irreversible
            else decide false risk cost PolicyReason.no_constraint
      ]
