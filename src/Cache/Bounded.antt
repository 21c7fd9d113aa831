-- ===== src/Cache/Bounded.antt =====
-- cache/exact.py: the bound on the entries, one entry for a key, and the count of lookups.
use mathlib.Core.Option.{Option}
use smart_router.Prelude.{
  ℕ, ◌+◌, ◌≤◌, none, some, [], ◌∷◌, String, ◌≡◌, refl, Float, length, ltb, arith, Bool-cases, inl,
  inr, is_some, if◌then◌else◌,
}
use smart_router.Prelude.Dict.{
  Dict, get, IsMap, string_eq, length-remove-le, remove-IsMap, put_last-IsMap, length-put_last_old,
}
use smart_router.Schemas.Message.{Text}
use smart_router.Cache.{ExactCache, Entry, get_entry, cache_get, evict, cache_put, payload}

pub record IsValid {F : Type 0} (c : ExactCache F) : Type 0 where
  pub bounded : length c.entries ≤ c.max_entries
  pub distinct : IsMap c.entries

module _ {F : Type 0} ⦃f : Float F⦄ where
  length-evict-le : (limit n : ℕ) (d : Dict String (Entry F)) → length (evict limit n d).0 ≤ limit
  unfolding evict
  length-evict-le limit n [] = omega arith
  length-evict-le limit n (e ∷ d) = ground (arith, length-evict-le limit (n + 1) d)

  evict-IsMap : (limit n : ℕ) (d : Dict String (Entry F)) → IsMap d → IsMap (evict limit n d).0
  unfolding evict IsMap
  evict-IsMap limit n [] h = tt
  evict-IsMap limit n ((k, e) ∷ d) h = elim (Bool-cases (ltb limit (length ((k, e) ∷ d)))) [
    | inl over ↦ rw (over, evict) (evict-IsMap limit (n + 1) d h.1)
    | inr fits ↦ rw (fits, evict) h
  ]

  -- A store keeps the cache within its bound, with one entry for a key, whatever it held before.
  pub put-IsValid :
      (digest : Text → String) (query value : Text) (tenant model : String) (now : F)
      (c : ExactCache F)
      → IsMap c.entries
      → IsValid (cache_put digest query value tenant model now c)
  unfolding cache_put
  put-IsValid digest query value tenant model now c h = record {
    bounded = length-evict-le c.max_entries c.stats.evictions _;
    distinct = evict-IsMap c.max_entries c.stats.evictions _ (put_last-IsMap _ _ c.entries h);
  }

  get_entry-IsValid :
      (key : String) (now : F) (e : Option (Entry F)) (c : ExactCache F)
      → get key c.entries ≡ e
      → IsValid c
      → IsValid (get_entry key now e c).0
  unfolding get_entry
  get_entry-IsValid key now none c found h = record { bounded = h.bounded; distinct = h.distinct }
  get_entry-IsValid key now (some e) c found h = elim (Bool-cases (f.le_f e.expires_at now)) [
    | inl late ↦
        rw (late, get_entry)
          (record {
            bounded = omega (arith, length-remove-le key c.entries);
            distinct = remove-IsMap key c.entries h.distinct;
          })
    | inr live ↦
        rw (live, get_entry)
          (record {
            bounded = omega (arith, length-put_last_old key e e c.entries found);
            distinct = put_last-IsMap key e c.entries h.distinct;
          })
  ]

  abbrev Counted : ExactCache F → ExactCache F × Option Text → Type 0
  Counted c r =
      (r.0.stats.hits ≡ c.stats.hits + (if is_some r.1 then 1 else 0))
      × (r.0.stats.misses ≡ c.stats.misses + (if is_some r.1 then 0 else 1))

  get_entry-Counted :
      (key : String) (now : F) (e : Option (Entry F)) (c : ExactCache F)
      → Counted c (get_entry key now e c)
  unfolding get_entry
  get_entry-Counted key now none c = omega arith
  get_entry-Counted key now (some e) c = elim (Bool-cases (f.le_f e.expires_at now)) [
    | inl late ↦ rw (late, get_entry) (omega arith)
    | inr live ↦ rw (live, get_entry) (omega arith)
  ]

  -- A lookup keeps the bound and one entry for a key, and it counts exactly once: as a hit if it
  -- returns a value, as a miss if not.
  get-IsValid :
      (digest : Text → String) (query : Text) (tenant model : String) (now : F) (c : ExactCache F)
      → IsValid c
      → IsValid (cache_get digest query tenant model now c).0
        × Counted c (cache_get digest query tenant model now c)
  unfolding cache_get
  get-IsValid digest query tenant model now c h =
      let key = digest (payload tenant model query) in
      (
        get_entry-IsValid key now (get key c.entries) c refl h,
        get_entry-Counted key now (get key c.entries) c,
      )
