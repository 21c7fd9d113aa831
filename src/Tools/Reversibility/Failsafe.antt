-- ===== src/Tools/Reversibility/Failsafe.antt =====
-- tools/reversibility.py: a tool passes for read-only only on evidence in its name.
use smart_router.Prelude.{
  true, false, none, some, List, [], ◌∷◌, String, ◌≡◌, ◌⊎◌, inl, inr, Bool-cases, Option-cases,
  arith,
}
use smart_router.Schemas.Message.{Text}
use smart_router.Tools.Reversibility.{
  IrreversibilityPolicy, is_verb, first_in, find_override, tokens, infer,
}

-- one of the words of a list is among the verbs
pub data HasVerb (verbs : List String) : List Text → Type 0 where
  here : (t : Text) (ts : List Text) → is_verb verbs t ≡ true → HasVerb verbs (t ∷ ts)
  there : (t : Text) (ts : List Text) → HasVerb verbs ts → HasVerb verbs (t ∷ ts)

first_in-HasVerb :
    (verbs : List String) (ts : List Text) (t : Text)
    → first_in verbs ts ≡ some t
    → HasVerb verbs ts
unfolding first_in
first_in-HasVerb verbs [] t h = absurd (cc h)
first_in-HasVerb verbs (u ∷ ts) t h = elim (Bool-cases (is_verb verbs u)) [
  | inl found ↦ HasVerb.here u ts found
  | inr other ↦ HasVerb.there u ts (first_in-HasVerb verbs ts t (ground arith))
]

not-HasVerb : (verbs : List String) (ts : List Text) → first_in verbs ts ≡ none → ¬ HasVerb verbs ts
unfolding first_in
not-HasVerb verbs ts h (HasVerb.here t us found) = ground arith
not-HasVerb verbs ts h (HasVerb.there t us later) = not-HasVerb verbs us (ground arith) later

-- A name that no override names is inferred to be reversible only if none of its words is a
-- mutating verb and one of them is a read-only verb, or the policy's default says so.
pub infer-false :
    (p : IrreversibilityPolicy) (name : String)
    → find_override name p.overrides ≡ none
    → (infer p name).0 ≡ false
    → (¬ HasVerb p.irreversible_verbs (tokens name))
      × (HasVerb p.read_only_verbs (tokens name) ⊎ (p.default_when_unknown ≡ false))
unfolding infer
infer-false p name free h = elim (Option-cases (first_in p.irreversible_verbs (tokens name))) [
  | inl clean ↦ (
    not-HasVerb p.irreversible_verbs (tokens name) clean,
    elim (Option-cases (first_in p.read_only_verbs (tokens name))) [
      | inl none_read ↦ inr (ground arith)
      | inr (t, read) ↦ inl (first_in-HasVerb p.read_only_verbs (tokens name) t read)
    ],
  )
  | inr (t, mutating) ↦ absurd (ground arith)
]

-- A name with a mutating verb among its words is inferred to be irreversible, unless an override
-- names it, whatever else stands in the name.
pub infer-HasVerb :
    (p : IrreversibilityPolicy) (name : String)
    → find_override name p.overrides ≡ none
    → HasVerb p.irreversible_verbs (tokens name)
    → (infer p name).0 ≡ true
unfolding infer
infer-HasVerb p name free v = elim (Option-cases (first_in p.irreversible_verbs (tokens name))) [
  | inl clean ↦ absurd (not-HasVerb p.irreversible_verbs (tokens name) clean v)
  | inr (t, mutating) ↦ ground arith
]
