-- ===== src/Memory/Clusters/Uniform.antt =====
-- memory/failures.py, `FailureLog.cluster`: what is the same in a cluster, and the order of the clusters.
use Prim.Native.Nat.{◌≤◌}
use mathlib.Core.List.{Perm}
use smart_router.Prelude.{
  Option, List, [], ◌∷◌, ◌++◌, String, ◌≡◌, inl, inr, refl, ◌∙◌, Float, Bool-cases, subst, length,
  length-append, filter_by, leb, arith, All, All-weaken, All-append,
}
use smart_router.Prelude.Dict.{get, put}
use smart_router.Routing.World.{FailureRecord}
use smart_router.Memory.Gate.{FailureCluster}
use smart_router.Memory.Clusters.{
  Geometry, Group, BucketKey, Buckets, bucket_key_eq, same_bucket, same_bucket_iff, is_asked,
  or_empty, bucket_of, add_to_bucket, fill_buckets, as_clusters, insert_cluster, sort_clusters,
  join, place, group_all, cluster_buckets, cluster_failures,
}
use smart_router.Memory.Clusters.Partition.{
  flat, records_of, get_here, get_further, cluster_failures-perm,
}

module _ {F : Type 0} where
  -- the failures of a tenant and a category
  abbrev IsOf : BucketKey → List (FailureRecord F) → Type 0
  IsOf k rs = All (λ r. bucket_of r ≡ k) rs

  AreBuckets : Buckets F → Type 0
  AreBuckets d = All (λ b. IsOf b.0 b.1) d

  IsOf-snoc :
      (k : BucketKey) (rs : List (FailureRecord F)) (r : FailureRecord F)
      → bucket_of r ≡ k
      → IsOf k rs
      → IsOf k (rs ++ (r ∷ []))
  IsOf-snoc k rs r e h = All-append (λ x. bucket_of x ≡ k) rs (r ∷ []) h (e, tt)

  put-AreBuckets :
      (k : BucketKey) (r : FailureRecord F) (d : Buckets F) (old : List (FailureRecord F))
      → bucket_of r ≡ k
      → old ≡ or_empty (get k d)
      → AreBuckets d
      → AreBuckets (put k (old ++ (r ∷ [])) d)
  unfolding get put AreBuckets
  put-AreBuckets k r [] old mine e h = rw e ((mine, tt), tt)
  put-AreBuckets k r ((j, rs) ∷ d) old mine e h = elim (Bool-cases (same_bucket j k)) [
    | inl same ↦
        let key : j ≡ k = (same_bucket_iff j k).0 same in
        rw (same, put, e ∙ get_here k j rs d same)
          (IsOf-snoc k rs r mine (subst (λ i. IsOf i rs) key h.0), h.1)
    | inr other ↦
        rw (other, put) (h.0, put-AreBuckets k r d old mine (e ∙ get_further k j rs d other) h.1)
  ]

  fill_buckets-AreBuckets :
      (rs : List (FailureRecord F)) (d : Buckets F) → AreBuckets d → AreBuckets (fill_buckets rs d)
  unfolding fill_buckets add_to_bucket
  fill_buckets-AreBuckets [] d h = h
  fill_buckets-AreBuckets (r ∷ rs) d h =
      fill_buckets-AreBuckets rs (add_to_bucket r d)
        (put-AreBuckets (bucket_of r) r d _ refl refl h)

  -- a group of a bucket: not empty
  abbrev IsGroup : BucketKey → Group F → Type 0
  IsGroup k g = (1 ≤ length g.members) × IsOf k g.members

  -- a cluster is not empty, and its failures are of its tenant and its category
  abbrev pub IsUniform : FailureCluster F → Type 0
  IsUniform c = (1 ≤ length c.records) × IsOf (c.tenant_id, c.category) c.records

  as_clusters-IsUniform :
      (k : BucketKey) (gs : List (Group F)) → All (IsGroup k) gs → All IsUniform (as_clusters k gs)
  unfolding as_clusters
  as_clusters-IsUniform k [] h = tt
  as_clusters-IsUniform k (g ∷ gs) h = (h.0, as_clusters-IsUniform k gs h.1)

  insert_cluster-All :
      (P : FailureCluster F → Type 0) (c : FailureCluster F) (cs : List (FailureCluster F))
      → P c
      → All P cs
      → All P (insert_cluster c cs)
  unfolding insert_cluster
  insert_cluster-All P c [] p h = (p, tt)
  insert_cluster-All P c (d ∷ ds) p h =
      elim (Bool-cases (leb (length d.records) (length c.records))) [
        | inl large ↦ rw (large, insert_cluster) (p, h)
        | inr small ↦ rw (small, insert_cluster) (h.0, insert_cluster-All P c ds p h.1)
      ]

  sort_clusters-All :
      (P : FailureCluster F → Type 0) (cs : List (FailureCluster F))
      → All P cs
      → All P (sort_clusters cs)
  unfolding sort_clusters
  sort_clusters-All P [] h = tt
  sort_clusters-All P (c ∷ cs) h =
      insert_cluster-All P c (sort_clusters cs) h.0 (sort_clusters-All P cs h.1)

  -- no cluster is larger than one before it
  abbrev pub IsDescending : List (FailureCluster F) → Type 0
  IsDescending [] = Unit
  IsDescending (c ∷ cs) = All (λ d. length d.records ≤ length c.records) cs × IsDescending cs

  insert_cluster-IsDescending :
      (c : FailureCluster F) (cs : List (FailureCluster F))
      → IsDescending cs
      → IsDescending (insert_cluster c cs)
  unfolding insert_cluster
  insert_cluster-IsDescending c [] h = (tt, tt)
  insert_cluster-IsDescending c (d ∷ ds) h =
      elim (Bool-cases (leb (length d.records) (length c.records))) [
        | inl large ↦
            let le : length d.records ≤ length c.records = ground arith in
            rw (large, insert_cluster)
              (
                (
                  le,
                  All-weaken (λ x. length x.records ≤ length d.records)
                      (λ x. length x.records ≤ length c.records) ds (λ x k. omega (arith, le, k))
                      h.0,
                ),
                h,
              )
        | inr small ↦
            let le : length c.records ≤ length d.records = ground arith in
            rw (small, insert_cluster)
              (
                insert_cluster-All (λ x. length x.records ≤ length d.records) c ds le h.0,
                insert_cluster-IsDescending c ds h.1,
              )
      ]

  sort_clusters-IsDescending : (cs : List (FailureCluster F)) → IsDescending (sort_clusters cs)
  unfolding sort_clusters
  sort_clusters-IsDescending [] = tt
  sort_clusters-IsDescending (c ∷ cs) =
      insert_cluster-IsDescending c (sort_clusters cs) (sort_clusters-IsDescending cs)

module _ {F : Type 0} ⦃f : Float F⦄ (g : Geometry F) (threshold : F) where
  place-IsGroup :
      (k : BucketKey) (r : FailureRecord F) (groups : List (Group F))
      → bucket_of r ≡ k
      → All (IsGroup k) groups
      → All (IsGroup k) (place g threshold r groups)
  unfolding place join
  place-IsGroup k r [] mine h = ((omega arith, (mine, tt)), tt)
  place-IsGroup k r (group ∷ groups) mine h =
      elim (Bool-cases (f.le_f threshold (g.dot r.vector group.centroid))) [
        | inl alike ↦
            rw (alike, place)
              (
                (
                  omega (arith, length-append group.members (r ∷ [])),
                  IsOf-snoc k group.members r mine h.0.1,
                ),
                h.1,
              )
        | inr unlike ↦ rw (unlike, place) (h.0, place-IsGroup k r groups mine h.1)
      ]

  group_all-IsGroup :
      (k : BucketKey) (rs : List (FailureRecord F)) (groups : List (Group F))
      → IsOf k rs
      → All (IsGroup k) groups
      → All (IsGroup k) (group_all g threshold rs groups)
  unfolding group_all
  group_all-IsGroup k [] groups mine h = h
  group_all-IsGroup k (r ∷ rs) groups mine h =
      group_all-IsGroup k rs (place g threshold r groups) mine.1 (place-IsGroup k r groups mine.0 h)

  cluster_buckets-IsUniform :
      (d : Buckets F) → AreBuckets d → All IsUniform (cluster_buckets g threshold d)
  unfolding cluster_buckets AreBuckets
  cluster_buckets-IsUniform [] h = tt
  cluster_buckets-IsUniform ((k, rs) ∷ d) h =
      let groups = group_all g threshold rs [] in
      All-append IsUniform (as_clusters k groups) (cluster_buckets g threshold d)
        (as_clusters-IsUniform k groups (group_all-IsGroup k rs [] h.0 tt))
        (cluster_buckets-IsUniform d h.1)

  -- what clustering promises of the records of a log
  pub record IsClustering (tenant : Option String) (rs : List (FailureRecord F))
      (cs : List (FailureCluster F)) : Type 0 where
    pub whole : Perm (flat records_of cs) (filter_by (is_asked tenant) rs)
    pub uniform : All IsUniform cs
    pub descending : IsDescending cs

  -- The clusters of a log, whatever the vectors are and the threshold is: together they hold each
  -- record of the tenant that is asked for (of every tenant, if none is) exactly as often as the log
  -- does; no cluster is empty, and its records are all of its tenant and its category; and no
  -- cluster is larger than one before it.
  pub cluster_failures-IsClustering :
      (tenant : Option String) (rs : List (FailureRecord F))
      → IsClustering tenant rs (cluster_failures g threshold tenant rs)
  unfolding cluster_failures AreBuckets
  cluster_failures-IsClustering tenant rs =
      let buckets = fill_buckets (filter_by (is_asked tenant) rs) [] in
      let found = cluster_buckets g threshold buckets in
      record {
        whole = cluster_failures-perm g threshold tenant rs;
        uniform = sort_clusters-All IsUniform found (
            cluster_buckets-IsUniform buckets
              (fill_buckets-AreBuckets (filter_by (is_asked tenant) rs) [] tt));
        descending = sort_clusters-IsDescending found;
      }
