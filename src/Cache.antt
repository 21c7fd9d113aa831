-- ===== src/Cache.antt =====
-- cache/exact.py: the exact response cache, a bounded LRU with a time to live. A method takes the
-- reading of the monotonic clock, and returns the new cache beside its result.
pub mod Bounded
pub mod Lookup
pub mod Tenants
use smart_router.Prelude.{
  ℕ, zero, suc, ◌+◌, Bool, true, false, Option, none, some, List, [], ◌∷◌, ◌++◌, String, Float,
  length, ltb, if◌then◌else◌,
}
use smart_router.Prelude.Dict.{Dict, get, remove, put_last, string_eq}
use smart_router.Prelude.Strings.{codes, strip, lower, is_space}
use smart_router.Schemas.Message.{Text}

-- `_WS.sub(" ", …)`: a run of blanks becomes one; `inside` says that a run is being read
unfoldable pub collapse : Bool → Text → Text
unfolding is_space
collapse inside [] = []
collapse inside (c ∷ s) =
    let rest = collapse (is_space c) s in
    if is_space c then (if inside then rest else b' ' ∷ rest) else c ∷ rest

unfoldable pub normalize : Text → Text
unfolding collapse strip lower
normalize query = collapse false (lower (strip query))

-- the text that is hashed: the tenant, the model and the query, each but the last ended by a zero
unfoldable pub payload : String → String → Text → Text
unfolding normalize
payload tenant model query = codes tenant ++ (0 ∷ (codes model ++ (0 ∷ normalize query)))

pub record CacheStats : Type 0 where
  pub hits : ℕ
  pub misses : ℕ
  pub evictions : ℕ
  pub expirations : ℕ

unfoldable pub lookups : CacheStats → ℕ
lookups s = s.hits + s.misses

unfoldable pub hit_rate : {F : Type 0} → ⦃f : Float F⦄ → CacheStats → F
unfolding lookups
hit_rate ⦃f⦄ s = elim (lookups s) [
  | zero ↦ f.zero_f
  | suc n ↦ f.div_f (f.of_nat s.hits) (f.of_nat (suc n))
]

pub record Entry (F : Type 0) : Type 0 where
  pub value : Text
  pub expires_at : F

pub record ExactCache (F : Type 0) : Type 0 where
  pub max_entries : ℕ
  pub ttl_seconds : F
  pub stats : CacheStats
  pub entries : Dict String (Entry F)

-- `digest` is SHA-256 of the encoded text, in hexadecimal digits.
module _ {F : Type 0} ⦃f : Float F⦄ where
  -- the entry under the key, with what `get` tests
  abbrev pub count_miss : ExactCache F → ExactCache F
  count_miss c = record c { stats = record c.stats { misses = c.stats.misses + 1 } }

  unfoldable pub get_entry :
      String → F → Option (Entry F) → ExactCache F → ExactCache F × Option Text
  get_entry key now none c = (count_miss c, none)
  get_entry key now (some e) c =
      if f.le_f e.expires_at now
      then (
        record c {
          entries = remove key c.entries;
          stats = record c.stats {
            expirations = c.stats.expirations + 1;
            misses = c.stats.misses + 1;
          };
        },
        none,
      )
      else (
        record c {
          entries = put_last key e c.entries;
          stats = record c.stats { hits = c.stats.hits + 1 };
        },
        some e.value,
      )

  unfoldable pub cache_get :
      (Text → String) → Text → String → String → F → ExactCache F → ExactCache F × Option Text
  unfolding get_entry payload
  cache_get digest query tenant model now c =
      let key = digest (payload tenant model query) in get_entry key now (get key c.entries) c

  -- `while len(self._entries) > self.max_entries: self._entries.popitem(last=False)`
  unfoldable pub evict : ℕ → ℕ → Dict String (Entry F) → Dict String (Entry F) × ℕ
  evict limit evictions [] = ([], evictions)
  evict limit evictions (e ∷ d) =
      let rest = evict limit (evictions + 1) d in
      if ltb limit (length (e ∷ d)) then rest else (e ∷ d, evictions)

  unfoldable pub put_entry : String → Entry F → ExactCache F → ExactCache F
  unfolding evict
  put_entry key e c =
      let r = evict c.max_entries c.stats.evictions (put_last key e c.entries) in
      record c { entries = r.0; stats = record c.stats { evictions = r.1 } }

  unfoldable pub cache_put :
      (Text → String) → Text → Text → String → String → F → ExactCache F → ExactCache F
  unfolding put_entry payload
  cache_put digest query value tenant model now c =
      put_entry (digest (payload tenant model query))
        (record { value = value; expires_at = f.add_f now c.ttl_seconds }) c

  -- what a `get` at a time would return
  unfoldable pub peek : String → F → ExactCache F → Option Text
  peek key now c = elim (get key c.entries) [
    | none ↦ none
    | some e ↦ if f.le_f e.expires_at now then none else some e.value
  ]
