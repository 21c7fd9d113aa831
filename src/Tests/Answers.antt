-- ===== src/Tests/Answers.antt =====
-- cache/exact.py at concrete inputs: a cache of one entry, over a digest with no collision.
use smart_router.Prelude.{ℕ, ◌+◌, ◌-◌, some, [], ◌∷◌, ◌≡◌, refl, sym, ap, length, drop, arith}
use smart_router.Prelude.Dict.{get, put_last, IsMap, string_eq}
use smart_router.Prelude.Strings.{codes, text_eq}
use smart_router.Cache.{ExactCache, Entry, cache_put, payload}
use smart_router.Cache.Bounded.{IsValid, put-IsValid}
use smart_router.Cache.Lookup.{put-drop}
use smart_router.Cache.Tenants.{put-other_tenant}
use smart_router.Tests.Samples.{nat_float, false≢true, unary, unary-injective}

abbrev empty : ExactCache ℕ
empty = record {
  max_entries = 1;
  ttl_seconds = 60;
  stats = record { hits = 0; misses = 0; evictions = 0; expirations = 0 };
  entries = [];
}

abbrev full : ExactCache ℕ
full = record empty {
  entries =
      (unary (payload "a" "m" (codes "hi")), record { value = codes "yo"; expires_at = 60 }) ∷ [];
}

full-IsMap : IsMap full.entries
unfolding IsMap get
full-IsMap = (refl, tt)

put-IsValid_example : IsValid (cache_put unary (codes "Hi  there") (codes "ok") "a" "m" 5 full)
put-IsValid_example = put-IsValid unary (codes "Hi  there") (codes "ok") "a" "m" 5 full full-IsMap

put-drop_example :
    (let e : Entry ℕ = record { value = codes "ok"; expires_at = 65 } in
      let all = put_last (unary (payload "a" "m" (codes "bye"))) e full.entries in
      let c' = cache_put unary (codes "bye") (codes "ok") "a" "m" 5 full in
      (c'.entries ≡ drop (length all - 1) all) × (c'.stats.evictions ≡ 0 + (length all - 1)))
put-drop_example = put-drop unary (codes "bye") (codes "ok") "a" "m" 5 full

put-other_tenant_example :
    get (unary (payload "a" "m" (codes "hi"))) full.entries
    ≡ some (record { value = codes "yo"; expires_at = 60 })
unfolding cache_put get payload put_last
put-other_tenant_example =
    put-other_tenant unary (record full { max_entries = 2 }) (codes "hi") (codes "no") (codes "hi")
      "b" "m" "a" "m" 5 (record { value = codes "yo"; expires_at = 60 }) (unary-injective _ _)
      (omega arith, tt) (omega arith, tt) (omega arith, tt) (omega arith, tt)
      (λ e. false≢true (sym (ap (text_eq (codes "a")) e))) full-IsMap refl
