-- ===== src/Memory/Vectors.antt =====
-- vectors.py: a snapshot of embedded items, and its search for relevance and coverage.
pub mod Subset
use smart_router.Prelude.{
  ℕ, zero, suc, ◌+◌, Bool, true, false, not, ◌&&◌, Option, none, some, List, [], ◌∷◌, ◌++◌, map,
  String, ◌==◌, Float, nat_eq, length, take, any, ltb, if◌then◌else◌,
}
use smart_router.Prelude.Exec.{Exec, Exception, Result, ok, raised, pure, raise, ◌>>=◌}
use smart_router.Schemas.Message.{Text}

-- what the search takes from numpy: the product of two vectors, `np.argsort(-sims)`, the largest of
-- some numbers, and `-np.inf`
pub record Ranking (F : Type 0) : Type 0 where
  pub dot : List F → List F → F
  pub argsort : List F → List ℕ
  pub max_of : List F → F
  pub lowest : F

-- `VectorSnapshot`, each item with its vector
pub record VectorSnapshot (F A : Type 0) : Type 0 where
  pub version : String
  pub embedder_name : String
  pub entries : List (List F × A)

-- an item of the pool: its index, with its vector and its similarity to the query
pub record Candidate (F A : Type 0) : Type 0 where
  pub index : ℕ
  pub vector : List F
  pub item : A
  pub similarity : F

-- the embedder, in the world
pub record Embedder (W F : Type 0) : Type 0 where
  pub name : String
  pub encode_all : List Text → Exec W (List (List F))

abbrev ann_threshold : ℕ
ann_threshold = 50000

-- what follows a step that may raise
abbrev pub and_then : {A B : Type 0} → Result A → (A → Result B) → Result B
and_then (ok a) k = k a
and_then (raised e) k = raised e

abbrev has_entry : {F : Type 0} → List F → Bool
has_entry [] = false
has_entry (x ∷ xs) = true

module _ {F A : Type 0} where
  abbrev zip : List (List F) → List A → List (List F × A)
  zip [] items = []
  zip (v ∷ vs) [] = []
  zip (v ∷ vs) (a ∷ items) = (v, a) ∷ zip vs items

  -- `VectorSnapshot.__init__`
  unfoldable pub new_snapshot :
      String → String → List (List F) → List A → Result (VectorSnapshot F A)
  new_snapshot version name vectors items =
      if not (nat_eq (length items) (length vectors))
      then raised (Exception.value_error "vectors and items differ in number")
      else if any has_entry vectors && ltb ann_threshold (length vectors)
      then raised (Exception.value_error "vectors exceeds the brute-force threshold")
      else ok (record { version = version; embedder_name = name; entries = zip vectors items })

  -- `self._items[i]`, with its vector and its similarity
  unfoldable pub nth : ℕ → List (Candidate F A) → Result (Candidate F A)
  nth n [] = raised (Exception.index_error "list index out of range")
  nth zero (c ∷ cs) = ok c
  nth (suc n) (c ∷ cs) = nth n cs

  unfoldable pub pick_all : List ℕ → List (Candidate F A) → Result (List (Candidate F A))
  unfolding nth
  pick_all [] cs = ok []
  pick_all (i ∷ is) cs =
      and_then (nth i cs) (λ c. and_then (pick_all is cs) (λ rest. ok (c ∷ rest)))

  -- `sims = vectors @ query`, from the `i`-th on
  unfoldable pub candidates : Ranking F → List F → ℕ → List (List F × A) → List (Candidate F A)
  candidates n query i [] = []
  candidates n query i ((v, a) ∷ es) =
      record { index = i; vector = v; item = a; similarity = n.dot v query }
      ∷ candidates n query (i + 1) es

  -- the first candidates by falling similarity
  unfoldable pub ranked : Ranking F → ℕ → List (Candidate F A) → Result (List (Candidate F A))
  unfolding pick_all
  ranked n k cs = pick_all (take k (n.argsort (map (λ (c : Candidate F A). c.similarity) cs))) cs

  -- `pool.remove(best_idx)`
  unfoldable pub remove_index : ℕ → List (Candidate F A) → List (Candidate F A)
  remove_index i [] = []
  remove_index i (c ∷ cs) =
      let rest = remove_index i cs in if nat_eq c.index i then cs else c ∷ rest

abbrev wrong_embedder : Exception
wrong_embedder = Exception.value_error "re-embed before serving"

-- `not self._items or k <= 0`
abbrev has_no_result : {A : Type 0} → List A → ℕ → Bool
has_no_result [] k = true
has_no_result (a ∷ items) zero = true
has_no_result (a ∷ items) (suc k) = false

module _ {F A : Type 0} ⦃f : Float F⦄ (n : Ranking F) where
  -- relevance less redundancy
  unfoldable pub mmr_score : F → List (Candidate F A) → Candidate F A → F
  mmr_score trade selected c = f.sub_f (f.mul_f trade c.similarity) (
      f.mul_f (f.sub_f f.one_f trade)
        (n.max_of (map (λ (s : Candidate F A). n.dot s.vector c.vector) selected)))

  -- the best of the pool so far, with its score
  unfoldable pub best_of :
      F
      → List (Candidate F A)
      → List (Candidate F A)
      → Option (Candidate F A) × F
      → Option (Candidate F A) × F
  unfolding mmr_score
  best_of trade selected [] best = best
  best_of trade selected (c ∷ cs) best =
      let score = mmr_score trade selected c in
      let better = f.lt_f best.1 score in
      best_of trade selected cs
        (if better then some c else best.0, if better then score else best.1)

  -- the `while`, for the `k` items that are still to be selected
  unfoldable pub select :
      F → ℕ → List (Candidate F A) → List (Candidate F A) → Result (List (Candidate F A))
  unfolding best_of remove_index
  select trade zero pool selected = ok selected
  select trade (suc k) [] selected = ok selected
  select trade (suc k) (c ∷ pool) [] = select trade k pool (c ∷ [])
  select trade (suc k) (c ∷ pool) (s ∷ selected) =
      let best = (best_of trade (s ∷ selected) (c ∷ pool) (none, n.lowest)).0 in
      elim best [
        | none ↦ raised (Exception.value_error "list.remove(x): x not in list")
        | some b ↦ select trade k (remove_index b.index (c ∷ pool)) ((s ∷ selected) ++ (b ∷ []))
      ]

  -- `search`
  unfoldable pub search_top :
      List F → ℕ → String → VectorSnapshot F A → Result (List (Candidate F A))
  unfolding candidates ranked
  search_top query k name s =
      if not (name == s.embedder_name)
      then raised wrong_embedder
      else if has_no_result s.entries k
      then ok []
      else ranked n k (candidates n query 0 s.entries)

  -- `search_mmr`
  unfoldable pub search_mmr :
      F → ℕ → List F → ℕ → String → VectorSnapshot F A → Result (List (Candidate F A))
  unfolding candidates ranked select
  search_mmr trade pool_size query k name s =
      if not (name == s.embedder_name)
      then raised wrong_embedder
      else if has_no_result s.entries k
      then ok []
      else and_then (ranked n pool_size (candidates n query 0 s.entries))
          (λ pool. select trade k pool [])

module _ {W F A : Type 0} where
  -- `build_snapshot`
  unfoldable pub build_snapshot :
      String → Embedder W F → List A → (A → Text) → Exec W (VectorSnapshot F A)
  unfolding new_snapshot
  build_snapshot version e [] text_of =
      pure (record { version = version; embedder_name = e.name; entries = [] })
  build_snapshot version e (a ∷ items) text_of = do
    vectors ← e.encode_all (map text_of (a ∷ items))
    λ w. (new_snapshot version e.name vectors (a ∷ items), w)
