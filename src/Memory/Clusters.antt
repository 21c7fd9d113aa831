-- ===== src/Memory/Clusters.antt =====
-- memory/failures.py, `FailureLog.cluster`: the failures of one tenant and one category, grouped by the
-- likeness of their vectors.
pub mod Partition
pub mod Uniform
use Prim.Native.Nat.{ℕ}
use smart_router.Prelude.{
  Bool, true, false, ◌&&◌, Option, none, some, List, [], ◌∷◌, ◌++◌, map, String, ◌==◌, ◌≡◌, refl,
  ap, subst, Float, nat_eq, ◌↔◌, length, filter_by, leb, arith, eq_iff, if◌then◌else◌,
  some-injective,
}
use smart_router.Prelude.Dict.{Eq, Dict, get, put, string_eq}
use smart_router.Schemas.Message.{FailureCategory}
use smart_router.Routing.World.{FailureRecord}
use smart_router.Memory.Gate.{FailureCluster}
use smart_router.Memory.Replay.{max_f}

-- the operations of numpy on vectors, parameters, with the least norm that is divided by
pub record Geometry (F : Type 0) : Type 0 where
  pub dot : List F → List F → F
  pub mean : List (List F) → List F
  pub norm : List F → F
  pub divide : List F → F → List F
  pub tiny : F

-- `groups[i]` and `centroids[i]`
pub record Group (F : Type 0) : Type 0 where
  pub members : List (FailureRecord F)
  pub centroid : List F

FailureCategory-discrete : Discrete FailureCategory
FailureCategory-discrete = hlevel

-- a decision as a test
abbrev holds {ℓ} : {A : Type ℓ} → Dec A → Bool
holds (yes a) = true
holds (no not_a) = false

holds_iff {ℓ} : {A : Type ℓ} (d : Dec A) → (holds d ≡ true) ↔ A
holds_iff (yes a) = (λ h. a, λ _. refl)
holds_iff (no not_a) = (λ h. absurd (cc h), λ a. absurd (not_a a))

-- a tenant and a category
abbrev pub BucketKey : Type 0
BucketKey = String × FailureCategory

unfoldable pub same_bucket : BucketKey → BucketKey → Bool
unfolding FailureCategory-discrete
same_bucket a b = (a.0 == b.0) && holds (FailureCategory-discrete a.1 b.1)

both_true : (x y : Bool) → x && y ≡ true → (x ≡ true) × (y ≡ true)
both_true x y h = (ground arith, ground arith)

same_bucket_refl : (a : BucketKey) → same_bucket a a ≡ true
unfolding same_bucket
same_bucket_refl a =
    rw ((eq_iff a.0 a.0).1 refl, (holds_iff (FailureCategory-discrete a.1 a.1)).1 refl) refl

pub same_bucket_iff : (a b : BucketKey) → (same_bucket a b ≡ true) ↔ (a ≡ b)
unfolding same_bucket
same_bucket_iff a b = (
  λ h.
      let parts = both_true (a.0 == b.0) (holds (FailureCategory-discrete a.1 b.1)) h in
      let tenant : a.0 ≡ b.0 = (eq_iff a.0 b.0).0 parts.0 in
      let category : a.1 ≡ b.1 = (holds_iff (FailureCategory-discrete a.1 b.1)).0 parts.1 in
      cc (tenant, category),
  λ e. subst (λ z. same_bucket a z ≡ true) e (same_bucket_refl a),
)

instance abbrev pub bucket_key_eq : Eq BucketKey
bucket_key_eq = record { beq = same_bucket; beq_iff = same_bucket_iff }

-- `tenant_id is None or r.tenant_id == tenant_id`
abbrev pub is_asked : {F : Type 0} → Option String → FailureRecord F → Bool
is_asked none r = true
is_asked (some tenant) r = r.tenant_id == tenant

abbrev pub or_empty : {A : Type 0} → Option (List A) → List A
or_empty none = []
or_empty (some xs) = xs

abbrev pub Buckets : Type 0 → Type 0
Buckets F = Dict BucketKey (List (FailureRecord F))

module _ {F : Type 0} where
  abbrev pub bucket_of : FailureRecord F → BucketKey
  bucket_of r = (r.tenant_id, r.category)

  -- `buckets.setdefault(key, []).append(r)`
  unfoldable pub add_to_bucket : FailureRecord F → Buckets F → Buckets F
  add_to_bucket r d = put (bucket_of r) (or_empty (get (bucket_of r) d) ++ (r ∷ [])) d

  unfoldable pub fill_buckets : List (FailureRecord F) → Buckets F → Buckets F
  unfolding add_to_bucket
  fill_buckets [] d = d
  fill_buckets (r ∷ rs) d = fill_buckets rs (add_to_bucket r d)

  -- the clusters of a bucket
  unfoldable pub as_clusters : BucketKey → List (Group F) → List (FailureCluster F)
  as_clusters k [] = []
  as_clusters k (g ∷ gs) =
      record { category = k.1; tenant_id = k.0; records = g.members } ∷ as_clusters k gs

  -- `sort(key=len, reverse=True)`, which is stable
  unfoldable pub insert_cluster :
      FailureCluster F → List (FailureCluster F) → List (FailureCluster F)
  insert_cluster c [] = c ∷ []
  insert_cluster c (d ∷ ds) =
      let rest = insert_cluster c ds in
      if leb (length d.records) (length c.records) then c ∷ d ∷ ds else d ∷ rest

  unfoldable pub sort_clusters : List (FailureCluster F) → List (FailureCluster F)
  unfolding insert_cluster
  sort_clusters [] = []
  sort_clusters (c ∷ cs) = insert_cluster c (sort_clusters cs)

module _ {F : Type 0} ⦃f : Float F⦄ (g : Geometry F) where
  -- `v / max(norm(v), 1e-12)`
  unfoldable pub unit : List F → List F
  unit v = g.divide v (max_f (g.norm v) g.tiny)

  -- the centroid is that of all the members
  unfoldable pub join : FailureRecord F → Group F → Group F
  unfolding unit
  join r group =
      let members = group.members ++ (r ∷ []) in
      record {
        members = members;
        centroid = unit (g.mean (map (λ (x : FailureRecord F). x.vector) members));
      }

  -- into the first group that is like it, or into one of its own at the end
  unfoldable pub place : F → FailureRecord F → List (Group F) → List (Group F)
  unfolding join
  place threshold r [] = record { members = r ∷ []; centroid = unit r.vector } ∷ []
  place threshold r (group ∷ groups) =
      let rest = place threshold r groups in
      if f.le_f threshold (g.dot r.vector group.centroid)
      then join r group ∷ groups
      else group ∷ rest

  unfoldable pub group_all : F → List (FailureRecord F) → List (Group F) → List (Group F)
  unfolding place
  group_all threshold [] groups = groups
  group_all threshold (r ∷ rs) groups = group_all threshold rs (place threshold r groups)

  unfoldable pub cluster_buckets : F → Buckets F → List (FailureCluster F)
  unfolding group_all as_clusters
  cluster_buckets threshold [] = []
  cluster_buckets threshold ((k, rs) ∷ d) =
      as_clusters k (group_all threshold rs []) ++ cluster_buckets threshold d

  -- `FailureLog.cluster` on the records of the log
  unfoldable pub cluster_failures :
      F → Option String → List (FailureRecord F) → List (FailureCluster F)
  unfolding fill_buckets cluster_buckets sort_clusters
  cluster_failures threshold tenant records =
      sort_clusters
        (cluster_buckets threshold (fill_buckets (filter_by (is_asked tenant) records) []))
