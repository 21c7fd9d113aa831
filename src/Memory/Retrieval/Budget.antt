-- ===== src/Memory/Retrieval/Budget.antt =====
-- memory/retrieval.py, `RuleRetriever.retrieve`: the token budget and the account of what was dropped.
use smart_router.Prelude.{
  ℕ, suc, ◌+◌, ◌≤◌, none, some, List, [], ◌∷◌, ◌++◌, ◌≡◌, refl, subst, Option, Float, ltb, length,
  length-append, Bool-cases, inl, inr, arith,
}
use smart_router.Schemas.Rule.{RouterRule}
use smart_router.Memory.Retrieval.{
  Scored, Retrieved, RuleRetriever, token_cost_of, insert_scored, by_bound, consider, consider_all,
  nothing, retrieve_from, retrieve_rules,
}

module _ {F : Type 0} where
  unfoldable pub total_cost : List (RouterRule F) → ℕ
  total_cost [] = 0
  total_cost (r ∷ rs) = token_cost_of r + total_cost rs

  total_cost-append :
      (rs : List (RouterRule F)) (r : RouterRule F)
      → total_cost (rs ++ (r ∷ [])) ≡ total_cost rs + token_cost_of r
  unfolding total_cost
  total_cost-append [] r = omega arith
  total_cost-append (x ∷ rs) r = omega (arith, total_cost-append rs r)

module _ {F : Type 0} ⦃f : Float F⦄ where
  -- within the budget, with the count of the rules that are kept, and with `n` rules accounted for
  pub record IsAccounted (r : RuleRetriever F) (n : ℕ) (found : Retrieved F) : Type 0 where
    pub within : found.token_count ≤ r.max_tokens
    pub counted : found.token_count ≡ total_cost found.rules
    pub complete : length found.rules + found.dropped_for_budget + found.dropped_for_floor ≡ n

  consider-IsAccounted :
      (r : RuleRetriever F) (s : Scored F) (n : ℕ) (found : Retrieved F)
      → IsAccounted r n found
      → IsAccounted r (suc n) (consider r s found)
  unfolding consider
  consider-IsAccounted r s n found h = elim (Bool-cases (f.lt_f s.score r.min_similarity)) [
    | inl low ↦
        rw (low, consider)
          (record { within = h.within; counted = h.counted; complete = omega (arith, h.complete) })
    | inr high ↦ elim (Bool-cases (ltb r.max_tokens (found.token_count + token_cost_of s.item))) [
      | inl over ↦
          rw (high, over, consider)
            (record {
              within = h.within;
              counted = h.counted;
              complete = omega (arith, h.complete);
            })
      | inr fits ↦
          rw (high, fits, consider)
            (record {
              within = ground arith;
              counted = omega (arith, h.counted, total_cost-append found.rules s.item);
              complete = omega (arith, h.complete, length-append found.rules (s.item ∷ []));
            })
    ]
  ]

  consider_all-IsAccounted :
      (r : RuleRetriever F) (ss : List (Scored F)) (n : ℕ) (found : Retrieved F)
      → IsAccounted r n found
      → IsAccounted r (length ss + n) (consider_all r ss found)
  unfolding consider_all
  consider_all-IsAccounted r [] n found h = subst (λ k. IsAccounted r k found) (omega arith) h
  consider_all-IsAccounted r (s ∷ ss) n found h =
      subst (λ k. IsAccounted r k (consider_all r ss (consider r s found))) (omega arith)
        (consider_all-IsAccounted r ss (suc n) (consider r s found)
          (consider-IsAccounted r s n found h))

  length-insert_scored :
      (x : Scored F) (ys : List (Scored F)) → length (insert_scored x ys) ≡ suc (length ys)
  unfolding insert_scored
  length-insert_scored x [] = refl
  length-insert_scored x (y ∷ ys) = ground (arith, length-insert_scored x ys)

  length-by_bound : (xs : List (Scored F)) → length (by_bound xs) ≡ length xs
  unfolding by_bound
  length-by_bound [] = refl
  length-by_bound (x ∷ xs) = omega (arith, length-insert_scored x (by_bound xs), length-by_bound xs)

  -- how many rules the search gives
  abbrev pub offered : RuleRetriever F → List F → Option (List F → ℕ → List (Scored F)) → ℕ
  offered r vector none = 0
  offered r vector (some search) = length (search vector r.k)

  from-IsAccounted :
      (r : RuleRetriever F) (vector : List F) (o : Option (List F → ℕ → List (Scored F)))
      → IsAccounted r (offered r vector o) (retrieve_from r vector o)
  unfolding retrieve_from total_cost
  from-IsAccounted r vector none = record { within = omega arith; counted = refl; complete = refl }
  from-IsAccounted r vector (some search) =
      subst (λ n. IsAccounted r n (consider_all r (by_bound (search vector r.k)) nothing))
        (omega (arith, length-by_bound (search vector r.k)))
        (consider_all-IsAccounted r (by_bound (search vector r.k)) 0 nothing
          (record { within = omega arith; counted = refl; complete = refl }))

  -- What a retriever retrieves is within its token budget, its token count is the sum of the costs
  -- of the rules that it injects, and each rule that the search gave is injected or counted as dropped,
  -- for the budget or for the floor.
  pub retrieve_rules-IsAccounted :
      (r : RuleRetriever F) (vector : List F)
      → IsAccounted r (offered r vector r.search) (retrieve_rules r vector)
  retrieve_rules-IsAccounted r vector = from-IsAccounted r vector r.search
