-- ===== src/Memory/Vectors/Subset.antt =====
-- vectors.py: what a search gives is of the snapshot.
use smart_router.Prelude.{
  ℕ, zero, suc, ◌+◌, Bool, true, false, not, Option, none, some, List, [], ◌∷◌, ◌++◌, String, ◌==◌,
  Float, All, All-append, Bool-cases, inl, inr, nat_eq, take, any, ltb, length, ◌&&◌, map,
  if◌then◌else◌,
}
use smart_router.Prelude.Exec.{Exception, Result, ok, raised, Ensures, Ensures-after}
use smart_router.Schemas.Message.{Text}
use smart_router.Memory.Vectors.{
  Ranking, VectorSnapshot, Candidate, Embedder, and_then, zip, new_snapshot, nth, pick_all,
  candidates, ranked, remove_index, mmr_score, best_of, has_no_result, wrong_embedder, has_entry,
  ann_threshold, select, search_top, search_mmr, build_snapshot,
}

-- `P` of what is returned, if something is
abbrev pub Returns : {A : Type 0} → (A → Type 0) → Result A → Type 0
Returns P (ok a) = P a
Returns P (raised e) = Unit

pub Returns-then :
    {A B : Type 0} (P : A → Type 0) (Q : B → Type 0) (m : Result A) (k : A → Result B)
    → Returns P m
    → ((a : A) → P a → Returns Q (k a))
    → Returns Q (and_then m k)
Returns-then P Q (ok a) k p h = h a p
Returns-then P Q (raised e) k p h = tt

pub Returns-if :
    {A : Type 0} (P : A → Type 0) (b : Bool) (m n : Result A)
    → Returns P m
    → Returns P n
    → Returns P (if b then m else n)
Returns-if P true m n p q = p
Returns-if P false m n p q = q

Returns-unless :
    {A : Type 0} (P : A → Type 0) (b : Bool) (x : Exception) (m : Result A)
    → Returns P m
    → Returns P (if b then raised x else m)
Returns-unless P true x m p = tt
Returns-unless P false x m p = p

module _ {F A : Type 0} (P : A → Type 0) where
  abbrev AllItems : List (Candidate F A) → Type 0
  AllItems = All (λ c. P c.item)

  abbrev OfSome : Option (Candidate F A) → Type 0
  OfSome none = Unit
  OfSome (some c) = P c.item

  zip-All :
      (vs : List (List F)) (items : List A)
      → All P items
      → All (λ (e : List F × A). P e.1) (zip vs items)
  zip-All [] items h = tt
  zip-All (v ∷ vs) [] h = tt
  zip-All (v ∷ vs) (a ∷ items) h = (h.0, zip-All vs items h.1)

  candidates-AllItems :
      (n : Ranking F) (query : List F) (i : ℕ) (es : List (List F × A))
      → All (λ (e : List F × A). P e.1) es
      → AllItems (candidates n query i es)
  unfolding candidates
  candidates-AllItems n query i [] h = tt
  candidates-AllItems n query i ((v, a) ∷ es) h = (h.0, candidates-AllItems n query (i + 1) es h.1)

  nth-Returns :
      (i : ℕ) (cs : List (Candidate F A)) → AllItems cs → Returns (λ c. P c.item) (nth i cs)
  unfolding nth
  nth-Returns i [] h = tt
  nth-Returns zero (c ∷ cs) h = h.0
  nth-Returns (suc i) (c ∷ cs) h = nth-Returns i cs h.1

  pick_all-Returns :
      (is : List ℕ) (cs : List (Candidate F A)) → AllItems cs → Returns AllItems (pick_all is cs)
  unfolding pick_all
  pick_all-Returns [] cs h = tt
  pick_all-Returns (i ∷ is) cs h =
      Returns-then (λ c. P c.item) AllItems (nth i cs) _ (nth-Returns i cs h)
        (λ c p.
          Returns-then AllItems AllItems (pick_all is cs) _ (pick_all-Returns is cs h)
            (λ rest q. (p, q)))

  remove_index-AllItems :
      (i : ℕ) (cs : List (Candidate F A)) → AllItems cs → AllItems (remove_index i cs)
  unfolding remove_index
  remove_index-AllItems i [] h = tt
  remove_index-AllItems i (c ∷ cs) h = elim (Bool-cases (nat_eq c.index i)) [
    | inl same ↦ rw (same, remove_index) h.1
    | inr other ↦ rw (other, remove_index) (h.0, remove_index-AllItems i cs h.1)
  ]

  Returns-some :
      {B : Type 0} (Q : B → Type 0) (o : Option (Candidate F A)) (x : Exception)
      (k : Candidate F A → Result B)
      → OfSome o
      → ((c : Candidate F A) → P c.item → Returns Q (k c))
      → Returns Q (elim o as (λ _. Result B) [ none ↦ raised x | some c ↦ k c ])
  Returns-some Q none x k p h = tt
  Returns-some Q (some c) x k p h = h c p

module _ {F A : Type 0} ⦃f : Float F⦄ (P : A → Type 0) (n : Ranking F) (trade : F) where
  best_of-OfSome :
      (selected cs : List (Candidate F A)) (best : Option (Candidate F A) × F)
      → OfSome P best.0
      → AllItems P cs
      → OfSome P (best_of n trade selected cs best).0
  unfolding best_of
  best_of-OfSome selected [] best b h = b
  best_of-OfSome selected (c ∷ cs) best b h =
      elim (Bool-cases (f.lt_f best.1 (mmr_score n trade selected c))) [
        | inl better ↦
            rw (better, best_of)
              (best_of-OfSome selected cs (some c, mmr_score n trade selected c) h.0 h.1)
        | inr worse ↦ rw (worse, best_of) (best_of-OfSome selected cs best b h.1)
      ]

  select-Returns :
      (k : ℕ) (pool selected : List (Candidate F A))
      → AllItems P pool
      → AllItems P selected
      → Returns (AllItems P) (select n trade k pool selected)
  unfolding select
  select-Returns zero pool selected p s = s
  select-Returns (suc k) [] selected p s = s
  select-Returns (suc k) (c ∷ pool) [] p s = select-Returns k pool (c ∷ []) p.1 (p.0, tt)
  select-Returns (suc k) (c ∷ pool) (d ∷ selected) p s =
      Returns-some P (AllItems P) (best_of n trade (d ∷ selected) (c ∷ pool) (none, n.lowest)).0 _ _
        (best_of-OfSome (d ∷ selected) (c ∷ pool) (none, n.lowest) tt p)
        (λ b h.
          select-Returns k (remove_index b.index (c ∷ pool)) ((d ∷ selected) ++ (b ∷ []))
            (remove_index-AllItems P b.index (c ∷ pool) p)
            (All-append (λ x. P x.item) (d ∷ selected) (b ∷ []) s (h, tt)))

  -- every item that is found is one of the snapshot
  pub search_mmr-Returns :
      (pool_size : ℕ) (query : List F) (k : ℕ) (name : String) (s : VectorSnapshot F A)
      → All (λ (e : List F × A). P e.1) s.entries
      → Returns
          (All (λ (c : Candidate F A). P c.item))
          (search_mmr n trade pool_size query k name s)
  unfolding search_mmr ranked
  search_mmr-Returns pool_size query k name s h =
      let cs = candidates n query 0 s.entries in
      let chosen = take pool_size (n.argsort (map (λ (c : Candidate F A). c.similarity) cs)) in
      let found = and_then (pick_all chosen cs) (λ pool. select n trade k pool []) in
      Returns-unless (All (λ (c : Candidate F A). P c.item)) (not (name == s.embedder_name))
        wrong_embedder (if has_no_result s.entries k then ok [] else found)
        (Returns-if (All (λ (c : Candidate F A). P c.item)) (has_no_result s.entries k) (ok [])
          found tt
          (Returns-then (AllItems P) (AllItems P) (pick_all chosen cs) _
            (pick_all-Returns P chosen cs (candidates-AllItems P n query 0 s.entries h))
            (λ pool p. select-Returns k pool [] p tt)))

module _ {F A : Type 0} ⦃f : Float F⦄ (P : A → Type 0) (n : Ranking F) where
  -- every item that the search by similarity finds is one of the snapshot
  pub search_top-Returns :
      (query : List F) (k : ℕ) (name : String) (s : VectorSnapshot F A)
      → All (λ (e : List F × A). P e.1) s.entries
      → Returns (All (λ (c : Candidate F A). P c.item)) (search_top n query k name s)
  unfolding search_top ranked
  search_top-Returns query k name s h =
      let cs = candidates n query 0 s.entries in
      let chosen = take k (n.argsort (map (λ (c : Candidate F A). c.similarity) cs)) in
      Returns-unless (All (λ (c : Candidate F A). P c.item)) (not (name == s.embedder_name))
        wrong_embedder (if has_no_result s.entries k then ok [] else pick_all chosen cs)
        (Returns-if (All (λ (c : Candidate F A). P c.item)) (has_no_result s.entries k) (ok [])
          (pick_all chosen cs) tt
          (pick_all-Returns P chosen cs (candidates-AllItems P n query 0 s.entries h)))

module _ {F A : Type 0} (P : A → Type 0) where
  abbrev pub OfItems : VectorSnapshot F A → Type 0
  OfItems s = All (λ (e : List F × A). P e.1) s.entries

  new_snapshot-Returns :
      (version name : String) (vectors : List (List F)) (items : List A)
      → All P items
      → Returns OfItems (new_snapshot version name vectors items)
  unfolding new_snapshot
  new_snapshot-Returns version name vectors items h =
      let s : VectorSnapshot F A = record {
        version = version;
        embedder_name = name;
        entries = zip vectors items;
      } in
      let too_many = any has_entry vectors && ltb ann_threshold (length vectors) in
      let refused = Exception.value_error "vectors exceeds the brute-force threshold" in
      Returns-unless OfItems (not (nat_eq (length items) (length vectors)))
        (Exception.value_error "vectors and items differ in number")
        (if too_many then raised refused else ok s)
        (Returns-unless OfItems too_many refused (ok s) (zip-All P vectors items h))

module _ {W F A : Type 0} (P : A → Type 0) where
  returned :
      (r : Result (VectorSnapshot F A)) (w : W)
      → Returns (OfItems P) r
      → Ensures (λ (s : VectorSnapshot F A) _. OfItems P s) (r, w)
  returned (ok s) w p = p
  returned (raised x) w p = tt

  -- every item of a snapshot is one that it is built of
  pub build_snapshot-Ensures :
      (version : String) (e : Embedder W F) (items : List A) (text_of : A → Text) (w : W)
      → All P items
      → Ensures
          (λ (s : VectorSnapshot F A) _. OfItems P s)
          (build_snapshot version e items text_of w)
  unfolding build_snapshot
  build_snapshot-Ensures version e [] text_of w h = tt
  build_snapshot-Ensures version e (a ∷ items) text_of w h =
      Ensures-after (λ (s : VectorSnapshot F A) _. OfItems P s) _ _ w
        (λ vectors w'.
          returned (new_snapshot version e.name vectors (a ∷ items)) w'
            (new_snapshot-Returns P version e.name vectors (a ∷ items) h))
