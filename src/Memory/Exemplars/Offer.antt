-- ===== src/Memory/Exemplars/Offer.antt =====
-- memory/exemplars.py, `ExemplarRetriever.retrieve`: what is kept of what the search gives.
use smart_router.Prelude.{
  ℕ, ◌+◌, ◌≤◌, Option, none, some, List, [], ◌∷◌, ◌++◌, ◌≡◌, refl, inl, inr, Float, All, All-append,
  Bool-cases, ltb, arith,
}
use smart_router.Prelude.Dict.{string_eq}
use smart_router.Prelude.Exec.{Result}
use smart_router.Memory.Recent.{Exemplar}
use smart_router.Memory.Vectors.{Ranking, VectorSnapshot, Candidate, search_top}
use smart_router.Memory.Vectors.Subset.{Returns, Returns-then, OfItems, search_top-Returns}
use smart_router.Memory.Exemplars.{
  exemplar_cost, ExemplarRetriever, RetrievedExemplars, no_exemplars, weigh, weigh_all,
  retrieve_near,
}

unfoldable pub total_tokens : List Exemplar → ℕ
total_tokens [] = 0
total_tokens (x ∷ xs) = exemplar_cost x + total_tokens xs

total_tokens-append :
    (xs : List Exemplar) (x : Exemplar)
    → total_tokens (xs ++ (x ∷ [])) ≡ total_tokens xs + exemplar_cost x
unfolding total_tokens
total_tokens-append [] x = omega arith
total_tokens-append (y ∷ xs) x = omega (arith, total_tokens-append xs x)

-- exemplars that have `P`, whose cost is counted and within the budget
pub record IsOffer (P : Exemplar → Type 0) (budget : ℕ) (found : RetrievedExemplars) : Type 0 where
  pub own : All P found.exemplars
  pub counted : found.token_count ≡ total_tokens found.exemplars
  pub within : found.token_count ≤ budget

no_exemplars-IsOffer : (P : Exemplar → Type 0) (budget : ℕ) → IsOffer P budget no_exemplars
unfolding total_tokens
no_exemplars-IsOffer P budget = record { own = tt; counted = refl; within = omega arith }

module _ {F : Type 0} (P : Exemplar → Type 0) where
  -- every item of the snapshot, if there is one
  abbrev pub OfSnapshot : Option (VectorSnapshot F Exemplar) → Type 0
  OfSnapshot none = Unit
  OfSnapshot (some s) = OfItems P s

module _ {F : Type 0} ⦃f : Float F⦄ (P : Exemplar → Type 0) (r : ExemplarRetriever F) where
  weigh-IsOffer :
      (s : Candidate F Exemplar) (found : RetrievedExemplars)
      → P s.item
      → IsOffer P r.max_tokens found
      → IsOffer P r.max_tokens (weigh r s found)
  unfolding weigh
  weigh-IsOffer s found p h = elim (Bool-cases (f.lt_f s.similarity r.min_similarity)) [
    | inl low ↦ rw (low, weigh) (record { own = h.own; counted = h.counted; within = h.within })
    | inr high ↦ elim (Bool-cases (ltb r.max_tokens (found.token_count + exemplar_cost s.item))) [
      | inl over ↦
          rw (high, over, weigh) (record { own = h.own; counted = h.counted; within = h.within })
      | inr fits ↦
          rw (high, fits, weigh)
            (record {
              own = All-append P found.exemplars (s.item ∷ []) h.own (p, tt);
              counted = omega (arith, h.counted, total_tokens-append found.exemplars s.item);
              within = ground arith;
            })
    ]
  ]

  weigh_all-IsOffer :
      (ss : List (Candidate F Exemplar)) (found : RetrievedExemplars)
      → All (λ (s : Candidate F Exemplar). P s.item) ss
      → IsOffer P r.max_tokens found
      → IsOffer P r.max_tokens (weigh_all r ss found)
  unfolding weigh_all
  weigh_all-IsOffer [] found p h = h
  weigh_all-IsOffer (s ∷ ss) found p h =
      weigh_all-IsOffer ss (weigh r s found) p.1 (weigh-IsOffer s found p.0 h)

  by_entries :
      (Q : RetrievedExemplars → Type 0) (es : List (List F × Exemplar))
      (m n : Result RetrievedExemplars)
      → Returns Q m
      → Returns Q n
      → Returns Q (elim es as (λ _. Result RetrievedExemplars) [ [] ↦ m | e ∷ rest ↦ n ])
  by_entries Q [] m n p q = p
  by_entries Q (e ∷ es) m n p q = q

  pub retrieve_near-Returns :
      (n : Ranking F) (query : List F) (o : Option (VectorSnapshot F Exemplar))
      → OfSnapshot P o
      → Returns (IsOffer P r.max_tokens) (retrieve_near n r query o)
  unfolding retrieve_near
  retrieve_near-Returns n query none h = no_exemplars-IsOffer P r.max_tokens
  retrieve_near-Returns n query (some s) h =
      by_entries (IsOffer P r.max_tokens) s.entries _ _ (no_exemplars-IsOffer P r.max_tokens) (
        Returns-then (All (λ (c : Candidate F Exemplar). P c.item)) (IsOffer P r.max_tokens)
          (search_top n query r.k r.embedder_name s) _
          (search_top-Returns P n query r.k r.embedder_name s h)
          (λ found p. weigh_all-IsOffer found no_exemplars p (no_exemplars-IsOffer P r.max_tokens)))
