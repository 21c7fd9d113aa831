-- ===== src/Memory/Gate/Admission.antt =====
-- memory/gate.py, `SuppressionGate.evaluate`: what a cluster must have to be worth a rule.
use smart_router.Prelude.{
  ◌≤◌, ◌<◌, true, false, List, [], ◌∷◌, String, ◌≡◌, ◌⊎◌, refl, ap, Float, All, length, Bool-cases,
  inl, inr, eq_refl, arith,
}
use smart_router.Routing.World.{FailureRecord}
use smart_router.Memory.Gate.{
  FailureCluster, SuppressionGate, fingerprints, distinct_queries, preventable_share, judge_cluster,
}

module _ {F : Type 0} where
  -- all records of one query
  abbrev pub IsOf : String → FailureRecord F → Type 0
  IsOf q r = r.query_fingerprint ≡ q

  fingerprints-one :
      (q : String) (rs : List (FailureRecord F))
      → All (IsOf q) rs
      → (fingerprints rs ≡ []) ⊎ (fingerprints rs ≡ q ∷ [])
  unfolding fingerprints
  fingerprints-one q [] h = inl refl
  fingerprints-one q (r ∷ rs) h = elim (fingerprints-one q rs h.1) [
    | inl none_yet ↦ inr (rw (none_yet, fingerprints) (ap (λ x. x ∷ []) h.0))
    | inr one ↦ inr (rw (one, fingerprints, h.0) (rw (eq_refl q) refl))
  ]

module _ {F : Type 0} ⦃f : Float F⦄ (g : SuppressionGate F) where
  -- what an admitted cluster has
  record IsWorthy (c : FailureCluster F) : Type 0 where
    category : g.excluded c.category ≡ false
    distinct : g.min_distinct_queries ≤ distinct_queries c
    share : f.lt_f g.max_preventable_share (preventable_share c) ≡ false

  -- A cluster is admitted only if its category is not excluded, it has as many distinct queries as
  -- the gate asks for, and its preventable share is not above the bound.
  judge_cluster-IsWorthy : (c : FailureCluster F) → (judge_cluster g c).0 ≡ true → IsWorthy c
  unfolding judge_cluster
  judge_cluster-IsWorthy c h = record {
    category = ground arith;
    distinct = ground arith;
    share = ground arith;
  }

  -- However often one query fails, its cluster is not admitted by a gate that asks for more than one
  -- distinct query.
  pub judge_cluster-repeated :
      (c : FailureCluster F) (q : String)
      → All (IsOf q) c.records
      → 1 < g.min_distinct_queries
      → (judge_cluster g c).0 ≡ false
  unfolding distinct_queries
  judge_cluster-repeated c q h more = elim (Bool-cases (judge_cluster g c).0) [
    | inr refused ↦ refused
    | inl admitted ↦ elim (fingerprints-one q c.records h) [
      | inl e ↦ absurd (omega (arith, (judge_cluster-IsWorthy c admitted).distinct, ap length e))
      | inr e ↦ absurd (omega (arith, (judge_cluster-IsWorthy c admitted).distinct, ap length e))
    ]
  ]
