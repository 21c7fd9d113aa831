-- ===== src/Cache/Tenants.antt =====
-- cache/exact.py, `cache_key`: an entry is seen by its own tenant, model and query alone.
use smart_router.Prelude.{
  ℕ, Bool, true, false, some, [], ◌∷◌, ◌++◌, String, ◌≡◌, refl, ◌≢◌, ◌∙◌, ap, sym, Float, length,
  ltb, arith, Bool-cases, inl, inr, if◌then◌else◌, All, eq_iff, ◌==◌, ◌+◌,
}
use smart_router.Prelude.Dict.{Dict, get, put_last, string_eq, get-put_last, IsMap, put_last-IsMap}
use smart_router.Prelude.Strings.{codes}
use smart_router.Schemas.Message.{Text}
use smart_router.Cache.{ExactCache, Entry, evict, cache_put, payload, normalize}

-- a text with no zero character
abbrev pub HasNoZero : Text → Type 0
HasNoZero = All (λ c. c ≢ 0)

-- two texts that a zero ends are split in one way
split_at_zero :
    (s t u v : Text) → HasNoZero s → HasNoZero t → s ++ (0 ∷ u) ≡ t ++ (0 ∷ v) → (s ≡ t) × (u ≡ v)
split_at_zero [] [] u v hs ht e = (refl, cc e)
split_at_zero [] (c ∷ t) u v hs ht e = absurd (ht.0 (ground (arith, e)))
split_at_zero (c ∷ s) [] u v hs ht e = absurd (hs.0 (ground (arith, e)))
split_at_zero (c ∷ s) (d ∷ t) u v hs ht e =
    let rest = split_at_zero s t u v hs.1 ht.1 (cc e) in (cc (e, rest.0), rest.1)

-- The text that is hashed names one tenant, one model and one normalised query, if neither the
-- tenants nor the models hold a zero character.
pub payload-injective :
    (t m t' m' : String) (q q' : Text)
    → HasNoZero (codes t)
    → HasNoZero (codes t')
    → HasNoZero (codes m)
    → HasNoZero (codes m')
    → payload t m q ≡ payload t' m' q'
    → (codes t ≡ codes t') × (codes m ≡ codes m') × (normalize q ≡ normalize q')
unfolding payload
payload-injective t m t' m' q q' ht ht' hm hm' e =
    let first = split_at_zero (codes t) (codes t') _ _ ht ht' e in
    let second = split_at_zero (codes m) (codes m') _ _ hm hm' first.1 in
    (first.0, second.0, second.1)

module _ {F : Type 0} ⦃f : Float F⦄ where
  get-evict :
      (limit n : ℕ) (j : String) (e : Entry F) (d : Dict String (Entry F))
      → IsMap d
      → get j (evict limit n d).0 ≡ some e
      → get j d ≡ some e
  unfolding evict get IsMap
  get-evict limit n j e [] h g = g
  get-evict limit n j e ((k, w) ∷ d) h g = elim (Bool-cases (ltb limit (length ((k, w) ∷ d)))) [
    | inl over ↦
        let later = get-evict limit (n + 1) j e d h.1 (rw (over, evict) at g) in
        ground (arith, later, h.0, eq_iff k j)
    | inr fits ↦ rw (fits, evict) at g
  ]

  -- Where the digest does not collide on the two hashed texts, and the names of both tenants and both
  -- models hold no zero character: an entry that is found under a key of another tenant after a store
  -- was there, the same, before.
  pub put-other_tenant :
      (digest : Text → String) (c : ExactCache F) (query value q : Text) (tenant model t m : String)
      (now : F) (e : Entry F)
      → (digest (payload tenant model query) ≡ digest (payload t m q)
          → payload tenant model query ≡ payload t m q)
      → HasNoZero (codes tenant)
      → HasNoZero (codes t)
      → HasNoZero (codes model)
      → HasNoZero (codes m)
      → codes t ≢ codes tenant
      → IsMap c.entries
      → get (digest (payload t m q)) (cache_put digest query value tenant model now c).entries
        ≡ some e
      → get (digest (payload t m q)) c.entries ≡ some e
  unfolding cache_put
  put-other_tenant digest c query value q tenant model t m now e inj zt zt' zm zm' other h found =
      let k = digest (payload tenant model query) in
      let j = digest (payload t m q) in
      let stored : Entry F = record { value = value; expires_at = f.add_f now c.ttl_seconds } in
      let before =
        get-evict c.max_entries c.stats.evictions j e (put_last k stored c.entries)
          (put_last-IsMap k stored c.entries h) found in
      let apart : (k == j) ≡ false = distinct_keys (k == j) refl in
      sym (
        get-put_last k j stored c.entries
        ∙ ap (λ b. if b then some stored else get j c.entries) apart)
      ∙ before
    where
      distinct_keys :
          (b : Bool)
          → (digest (payload tenant model query) == digest (payload t m q)) ≡ b
          → b ≡ false
      distinct_keys true same = absurd (
          other (
            sym
              (payload-injective tenant model t m query q zt zt' zm zm'
                (inj ((eq_iff _ _).0 same))).0))
      distinct_keys false same = refl
