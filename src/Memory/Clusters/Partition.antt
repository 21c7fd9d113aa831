-- ===== src/Memory/Clusters/Partition.antt =====
-- memory/failures.py, `FailureLog.cluster`: what the clusters are of the records of the log.
use mathlib.Core.List.{Perm, perm_middle, perm_append_comm, append-nil, append_assoc}
use mathlib.Core.List.Perm
use smart_router.Prelude.{
  true, false, Option, List, [], ◌∷◌, ◌++◌, String, ◌≡◌, inl, inr, refl, ◌∙◌, Float, Bool-cases,
  sym, length, filter_by, leb,
}
use smart_router.Prelude.Dict.{get, put}
use smart_router.Routing.World.{FailureRecord}
use smart_router.Memory.Gate.{FailureCluster}
use smart_router.Memory.Clusters.{
  Geometry, Group, BucketKey, Buckets, bucket_key_eq, same_bucket, is_asked, or_empty, bucket_of,
  add_to_bucket, fill_buckets, as_clusters, insert_cluster, sort_clusters, join, place, group_all,
  cluster_buckets, cluster_failures,
}

-- the lists of the elements of a list, one after the other
abbrev pub flat : {A B : Type 0} → (A → List B) → List A → List B
flat h [] = []
flat h (x ∷ xs) = h x ++ flat h xs

flat-append :
    {A B : Type 0} (h : A → List B) (xs ys : List A) → flat h (xs ++ ys) ≡ flat h xs ++ flat h ys
flat-append h [] ys = refl
flat-append h (x ∷ xs) ys = rw (flat-append h xs ys, append_assoc) refl

-- a list that is longer by one element than another is, with more after it
snoc-perm : {A : Type 0} (x : A) (xs ys : List A) → Perm ((xs ++ (x ∷ [])) ++ ys) (x ∷ (xs ++ ys))
snoc-perm x xs ys = rw (append_assoc xs (x ∷ []) ys) (perm_middle xs ys)

-- an element further in
under :
    {A : Type 0} (x : A) (xs ys zs : List A) → Perm ys (x ∷ zs) → Perm (xs ++ ys) (x ∷ (xs ++ zs))
under x xs ys zs p = Perm.trans (Perm.append_left xs p) (perm_middle xs zs)

exchange : {A : Type 0} (xs ys zs : List A) → Perm (xs ++ (ys ++ zs)) (ys ++ (xs ++ zs))
exchange xs ys zs =
    rw (sym (append_assoc xs ys zs), sym (append_assoc ys xs zs))
      (Perm.append_right zs (perm_append_comm xs ys))

abbrev entries : {F : Type 0} → BucketKey × List (FailureRecord F) → List (FailureRecord F)
entries b = b.1

module _ {F : Type 0} where
  abbrev members_of : Group F → List (FailureRecord F)
  members_of group = group.members

  abbrev pub records_of : FailureCluster F → List (FailureRecord F)
  records_of c = c.records

  pub get_here :
      (k j : BucketKey) (rs : List (FailureRecord F)) (d : Buckets F)
      → same_bucket j k ≡ true
      → or_empty (get k ((j, rs) ∷ d)) ≡ rs
  unfolding get
  get_here k j rs d same = rw same refl

  pub get_further :
      (k j : BucketKey) (rs : List (FailureRecord F)) (d : Buckets F)
      → same_bucket j k ≡ false
      → or_empty (get k ((j, rs) ∷ d)) ≡ or_empty (get k d)
  unfolding get
  get_further k j rs d other = rw other refl

  -- `old` is what the dictionary has
  put-perm :
      (k : BucketKey) (r : FailureRecord F) (d : Buckets F) (old : List (FailureRecord F))
      → old ≡ or_empty (get k d)
      → Perm (flat entries (put k (old ++ (r ∷ [])) d)) (r ∷ flat entries d)
  unfolding get put
  put-perm k r [] old e = rw e Perm.rfl
  put-perm k r ((j, rs) ∷ d) old e = elim (Bool-cases (same_bucket j k)) [
    | inl same ↦ rw (same, put, e ∙ get_here k j rs d same) (snoc-perm r rs (flat entries d))
    | inr other ↦
        rw (other, put)
          (under r rs _ (flat entries d) (put-perm k r d old (e ∙ get_further k j rs d other)))
  ]

  fill_buckets-perm :
      (rs : List (FailureRecord F)) (d : Buckets F)
      → Perm (flat entries (fill_buckets rs d)) (rs ++ flat entries d)
  unfolding fill_buckets add_to_bucket
  fill_buckets-perm [] d = Perm.rfl
  fill_buckets-perm (r ∷ rs) d =
      Perm.trans (fill_buckets-perm rs (add_to_bucket r d))
        (under r rs _ (flat entries d) (put-perm (bucket_of r) r d _ refl))

  as_clusters-flat :
      (k : BucketKey) (gs : List (Group F))
      → flat records_of (as_clusters k gs) ≡ flat members_of gs
  unfolding as_clusters
  as_clusters-flat k [] = refl
  as_clusters-flat k (g ∷ gs) = rw (as_clusters-flat k gs) refl

  insert_cluster-perm :
      (c : FailureCluster F) (cs : List (FailureCluster F))
      → Perm (flat records_of (insert_cluster c cs)) (flat records_of (c ∷ cs))
  unfolding insert_cluster
  insert_cluster-perm c [] = Perm.rfl
  insert_cluster-perm c (d ∷ ds) = elim (Bool-cases (leb (length d.records) (length c.records))) [
    | inl large ↦ rw (large, insert_cluster) Perm.rfl
    | inr small ↦
        rw (small, insert_cluster)
          (Perm.trans (Perm.append_left d.records (insert_cluster-perm c ds))
            (exchange d.records c.records (flat records_of ds)))
  ]

  sort_clusters-perm :
      (cs : List (FailureCluster F))
      → Perm (flat records_of (sort_clusters cs)) (flat records_of cs)
  unfolding sort_clusters
  sort_clusters-perm [] = Perm.rfl
  sort_clusters-perm (c ∷ cs) =
      Perm.trans (insert_cluster-perm c (sort_clusters cs))
        (Perm.append_left c.records (sort_clusters-perm cs))

module _ {F : Type 0} ⦃f : Float F⦄ (g : Geometry F) (threshold : F) where
  place-perm :
      (r : FailureRecord F) (groups : List (Group F))
      → Perm (flat members_of (place g threshold r groups)) (r ∷ flat members_of groups)
  unfolding place join
  place-perm r [] = Perm.rfl
  place-perm r (group ∷ groups) =
      elim (Bool-cases (f.le_f threshold (g.dot r.vector group.centroid))) [
        | inl alike ↦ rw (alike, place) (snoc-perm r group.members (flat members_of groups))
        | inr unlike ↦
            rw (unlike, place)
              (under r group.members _ (flat members_of groups) (place-perm r groups))
      ]

  group_all-perm :
      (rs : List (FailureRecord F)) (groups : List (Group F))
      → Perm (flat members_of (group_all g threshold rs groups)) (rs ++ flat members_of groups)
  unfolding group_all
  group_all-perm [] groups = Perm.rfl
  group_all-perm (r ∷ rs) groups =
      Perm.trans (group_all-perm rs (place g threshold r groups))
        (under r rs _ (flat members_of groups) (place-perm r groups))

  cluster_buckets-perm :
      (d : Buckets F) → Perm (flat records_of (cluster_buckets g threshold d)) (flat entries d)
  unfolding cluster_buckets
  cluster_buckets-perm [] = Perm.rfl
  cluster_buckets-perm ((k, rs) ∷ d) =
      let groups = group_all g threshold rs [] in
      rw
        (
          flat-append records_of (as_clusters k groups) (cluster_buckets g threshold d),
          as_clusters-flat k groups,
        )
        (Perm.append (rw append-nil at (group_all-perm rs [])) (cluster_buckets-perm d))

  pub cluster_failures-perm :
      (tenant : Option String) (rs : List (FailureRecord F))
      → Perm
          (flat records_of (cluster_failures g threshold tenant rs))
          (filter_by (is_asked tenant) rs)
  unfolding cluster_failures
  cluster_failures-perm tenant rs =
      let asked = filter_by (is_asked tenant) rs in
      let buckets = fill_buckets asked [] in
      Perm.trans (sort_clusters-perm (cluster_buckets g threshold buckets))
        (Perm.trans (cluster_buckets-perm buckets) (rw append-nil at (fill_buckets-perm asked [])))
