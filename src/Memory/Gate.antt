-- ===== src/Memory/Gate.antt =====
-- memory/gate.py, `SuppressionGate`, and the measures of a cluster in memory/failures.py.
pub mod Admission
use smart_router.Prelude.{
  ℕ, zero, suc, Bool, true, false, not, ◌||◌, Option, List, [], ◌∷◌, String, ◌==◌, Float, length,
  any, filter_by, ltb, if◌then◌else◌,
}
use smart_router.Schemas.Message.{FailureCategory}
use smart_router.Schemas.Verification.{is_transient}
use smart_router.Routing.World.{FailureRecord}

-- the centroid, which the gate does not read, is left out
pub record FailureCluster (F : Type 0) : Type 0 where
  pub category : FailureCategory
  pub tenant_id : String
  pub records : List (FailureRecord F)

module _ {F : Type 0} where
  -- the fingerprints, each once
  unfoldable pub fingerprints : List (FailureRecord F) → List String
  fingerprints [] = []
  fingerprints (r ∷ rs) =
      let rest = fingerprints rs in
      if any (λ x. x == r.query_fingerprint) rest then rest else r.query_fingerprint ∷ rest

  unfoldable pub distinct_queries : FailureCluster F → ℕ
  unfolding fingerprints
  distinct_queries c = length (fingerprints c.records)

  abbrev preventable_count : List (FailureRecord F) → ℕ
  preventable_count rs =
      length (filter_by (λ (r : FailureRecord F). r.preventable_by_construction) rs)

-- the default of `excluded_categories`
abbrev pub not_rule_shaped : FailureCategory → Bool
not_rule_shaped FailureCategory.refusal = true
not_rule_shaped c = is_transient c

pub record SuppressionGate (F : Type 0) : Type 0 where
  pub min_distinct_queries : ℕ
  pub max_preventable_share : F
  pub excluded : FailureCategory → Bool

-- the reasons of `evaluate`
pub data GateReason (F : Type 0) : Type 0 where
  excluded_category : FailureCategory → GateReason F
  too_few : ℕ → ℕ → GateReason F
  preventable : F → GateReason F
  admitted : ℕ → F → GateReason F

module _ {F : Type 0} ⦃f : Float F⦄ where
  unfoldable pub preventable_share : FailureCluster F → F
  preventable_share c = elim (length c.records) [
    | zero ↦ f.zero_f
    | suc n ↦ f.div_f (f.of_nat (preventable_count c.records)) (f.of_nat (suc n))
  ]

  unfoldable pub judge_cluster : SuppressionGate F → FailureCluster F → Bool × GateReason F
  unfolding distinct_queries preventable_share
  judge_cluster g c =
      let distinct = distinct_queries c in
      let share = preventable_share c in
      if g.excluded c.category
      then (false, GateReason.excluded_category c.category)
      else if ltb distinct g.min_distinct_queries
      then (false, GateReason.too_few distinct g.min_distinct_queries)
      else if f.lt_f g.max_preventable_share share
      then (false, GateReason.preventable share)
      else (true, GateReason.admitted distinct share)
