-- ===== src/Memory/Hygiene.antt =====
-- memory/hygiene.py: a rule must not repeat the request or the answer that it comes from. The regular
-- expressions of the module are parameters.
use smart_router.Prelude.{
  ℕ, zero, suc, ◌+◌, ◌-◌, Bool, true, false, Option, none, some, List, [], ◌∷◌, ◌++◌, map, Float,
  length, take, drop, filter_by, any, if◌then◌else◌,
}
use smart_router.Prelude.Strings.{lower, text_eq}
use smart_router.Schemas.Message.{Text, Message}

-- `_TOKEN.findall`, `_LITERALS.search` with what it matched, and `_SECRET.sub` with "[REDACTED]"
pub record Patterns : Type 0 where
  pub find_tokens : Text → List Text
  pub find_literal : Text → Option Text
  pub scrub : Text → Text

-- `AntiMemorizationFilter`; `dot` is the product of two vectors
pub record Hygiene (F : Type 0) : Type 0 where
  pub max_ngram_overlap : F
  pub ngram_n : ℕ
  pub max_source_similarity : F
  pub patterns : Patterns
  pub dot : List F → List F → F

abbrev pub gram_eq : List Text → List Text → Bool
gram_eq [] [] = true
gram_eq (a ∷ s) (b ∷ t) = let rest = gram_eq s t in if text_eq a b then rest else false
gram_eq _ _ = false

abbrev pub has_gram : List Text → List (List Text) → Bool
has_gram g gs = any (gram_eq g) gs

-- `{tuple(tokens[i : i + n]) for i in range(k)}`, each once, for the tokens from the `i`-th on
unfoldable pub windows : ℕ → ℕ → List Text → List (List Text)
windows n zero tokens = []
windows n (suc k) tokens =
    let rest = windows n k (drop 1 tokens) in
    let gram = take n tokens in if has_gram gram rest then rest else gram ∷ rest

-- `_ngrams`
unfoldable pub ngrams : Patterns → ℕ → Text → List (List Text)
unfolding windows lower
ngrams p n t = let tokens = map lower (p.find_tokens t) in windows n (length tokens + 1 - n) tokens

module _ {F : Type 0} ⦃f : Float F⦄ where
  -- the share of the rule's grams that the source has, if there are any
  unfoldable pub overlap : List (List Text) → List (List Text) → Option F
  overlap [] source = none
  overlap (g ∷ gs) source = some (
      f.div_f (f.of_nat (length (filter_by (λ x. has_gram x source) (g ∷ gs))))
        (f.of_nat (length (g ∷ gs))))

  -- a measure that is there and above its bound
  abbrev pub exceeds : F → Option F → Option F
  exceeds bound none = none
  exceeds bound (some x) = if f.lt_f bound x then some x else none

  -- `AntiMemorizationFilter.check`: the reason against the rule, if there is one
  unfoldable pub check_hygiene :
      Hygiene F → Text → Text → Text → Option (List F) → List F → Option (Message F)
  unfolding ngrams overlap
  check_hygiene h rule_text query answer rule_vector source_vector =
      elim (h.patterns.find_literal rule_text) [
        | some l ↦ some (Message.names_literal l)
        | none ↦
            elim (exceeds h.max_ngram_overlap (
              overlap (ngrams h.patterns h.ngram_n rule_text)
                (ngrams h.patterns h.ngram_n (query ++ (10 ∷ answer))))) [
                  | some x ↦ some (Message.overlaps_source x)
                  | none ↦ elim rule_vector [
                    | none ↦ none
                    | some v ↦
                        elim (exceeds h.max_source_similarity (some (h.dot v source_vector))) [
                          | some x ↦ some (Message.too_similar x)
                          | none ↦ none
                        ]
                  ]
                ]
      ]
