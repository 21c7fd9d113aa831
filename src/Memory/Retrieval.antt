-- ===== src/Memory/Retrieval.antt =====
-- memory/retrieval.py, `RuleRetriever`: which of the rules that a search gives are injected. The search
-- of the snapshot, vectors.py, is a field of the retriever.
pub mod Budget
use smart_router.Prelude.{
  ℕ, zero, suc, ◌+◌, ◌/◌, Bool, true, false, Option, none, some, List, [], ◌∷◌, ◌++◌, String, Float,
  ltb, length, if◌then◌else◌,
}
use smart_router.Schemas.Rule.{RouterRule, render}

-- a rule with its similarity
pub record Scored (F : Type 0) : Type 0 where
  pub item : RouterRule F
  pub score : F

pub record Retrieved (F : Type 0) : Type 0 where
  pub rules : List (RouterRule F)
  pub token_count : ℕ
  pub dropped_for_budget : ℕ
  pub dropped_for_floor : ℕ

-- `search` is `search_mmr` of the snapshot, if there is one that is not empty.
pub record RuleRetriever (F : Type 0) : Type 0 where
  pub search : Option (List F → ℕ → List (Scored F))
  pub k : ℕ
  pub max_tokens : ℕ
  pub min_similarity : F

module _ {F : Type 0} where
  -- `s.item.token_cost or max(1, len(s.item.render()) // 4)`
  unfoldable pub token_cost_of : RouterRule F → ℕ
  unfolding render
  token_cost_of r =
      let guess = length (render r) / 4 in
      elim r.token_cost [ zero ↦ if ltb 1 guess then guess else 1 | suc n ↦ suc n ]

module _ {F : Type 0} ⦃f : Float F⦄ where
  -- the stable sort by the falling lower bound
  unfoldable pub insert_scored : Scored F → List (Scored F) → List (Scored F)
  insert_scored x [] = x ∷ []
  insert_scored x (y ∷ ys) =
      let rest = insert_scored x ys in
      if f.lt_f x.item.wilson_lower_bound y.item.wilson_lower_bound then y ∷ rest else x ∷ y ∷ ys

  unfoldable pub by_bound : List (Scored F) → List (Scored F)
  unfolding insert_scored
  by_bound [] = []
  by_bound (x ∷ xs) = insert_scored x (by_bound xs)

  -- one turn of the loop
  unfoldable pub consider : RuleRetriever F → Scored F → Retrieved F → Retrieved F
  unfolding token_cost_of
  consider r s found =
      let spent = found.token_count + token_cost_of s.item in
      if f.lt_f s.score r.min_similarity
      then record found { dropped_for_floor = found.dropped_for_floor + 1 }
      else if ltb r.max_tokens spent
      then record found { dropped_for_budget = found.dropped_for_budget + 1 }
      else record found { rules = found.rules ++ (s.item ∷ []); token_count = spent }

  unfoldable pub consider_all : RuleRetriever F → List (Scored F) → Retrieved F → Retrieved F
  unfolding consider
  consider_all r [] found = found
  consider_all r (s ∷ ss) found = consider_all r ss (consider r s found)

  abbrev pub nothing : Retrieved F
  nothing = record { rules = []; token_count = 0; dropped_for_budget = 0; dropped_for_floor = 0 }

  -- over the snapshot's search
  unfoldable pub retrieve_from :
      RuleRetriever F → List F → Option (List F → ℕ → List (Scored F)) → Retrieved F
  unfolding by_bound consider_all
  retrieve_from r vector none = nothing
  retrieve_from r vector (some search) = consider_all r (by_bound (search vector r.k)) nothing

  abbrev pub retrieve_rules : RuleRetriever F → List F → Retrieved F
  retrieve_rules r vector = retrieve_from r vector r.search
