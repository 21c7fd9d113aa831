-- ===== src/Cache/Lookup.antt =====
-- cache/exact.py: what a lookup sees after a store, and what is evicted.
use smart_router.Prelude.{
  ℕ, suc, ◌+◌, ◌-◌, [], ◌∷◌, String, ◌≡◌, ◌∙◌, ap, sym, Float, length, drop, ltb, arith, Bool-cases,
  inl, inr,
}
use smart_router.Prelude.Dict.{Dict, put_last, string_eq}
use smart_router.Schemas.Message.{Text}
use smart_router.Cache.{ExactCache, Entry, evict, cache_put, payload}

module _ {F : Type 0} ⦃f : Float F⦄ where
  evict-drop :
      (limit n : ℕ) (d : Dict String (Entry F))
      → ((evict limit n d).0 ≡ drop (length d - limit) d)
        × ((evict limit n d).1 ≡ n + (length d - limit))
  unfolding evict
  evict-drop limit n [] =
      let z : 0 - limit ≡ 0 = omega arith in
      (ap (λ k. drop {A = String × Entry F} k []) (sym z), omega arith)
  evict-drop limit n (e ∷ d) = elim (Bool-cases (ltb limit (length (e ∷ d)))) [
    | inl over ↦
        let less : suc (length d) - limit ≡ suc (length d - limit) = ground arith in
        rw (over, evict)
          (
            (evict-drop limit (n + 1) d).0 ∙ ap (λ k. drop k (e ∷ d)) (sym less),
            omega (arith, (evict-drop limit (n + 1) d).1, less),
          )
    | inr fits ↦
        let none_over : suc (length d) - limit ≡ 0 = ground arith in
        rw (fits, evict) (ap (λ k. drop k (e ∷ d)) (sym none_over), omega (arith, none_over))
  ]

  -- A store moves the key to the end, the most recent place, and then drops as many of the least
  -- recently used entries as the bound asks for, no more, and counts each as an eviction.
  pub put-drop :
      (digest : Text → String) (query value : Text) (tenant model : String) (now : F)
      (c : ExactCache F)
      → (let key = digest (payload tenant model query) in
          let e : Entry F = record { value = value; expires_at = f.add_f now c.ttl_seconds } in
          let all = put_last key e c.entries in
          let c' = cache_put digest query value tenant model now c in
          (c'.entries ≡ drop (length all - c.max_entries) all)
          × (c'.stats.evictions ≡ c.stats.evictions + (length all - c.max_entries)))
  unfolding cache_put
  put-drop digest query value tenant model now c = evict-drop c.max_entries c.stats.evictions _
