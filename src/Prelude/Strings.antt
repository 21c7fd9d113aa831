-- ===== src/Prelude/Strings.antt =====
-- `str.lower`, `str.strip`, `in` and `str.split` on texts as lists of code points. Letters and
-- blanks are those of ASCII.
use Prim.Native.Nat.{ℕ, ◌+◌, ◌-◌}
use Prim.Native.Char.{code}
use Prim.Native.String.{String}
use mathlib.Core.Bool.{Bool, true, false, ◌&&◌, ◌||◌}
use mathlib.Core.List.{List, [], ◌∷◌, ◌++◌, map, reverse}
use mathlib.Core.Path.{◌≡◌, refl}
use native.Mathlib.Omega.{arith}
use smart_router.Prelude.Tests.{leb, nat_eq, if◌then◌else◌}

-- the code points of a literal
abbrev pub codes : String → List ℕ
codes String.[] = []
codes (String.◌∷◌ c s) = code c ∷ codes s

unfoldable pub lower_char : ℕ → ℕ
lower_char c = if leb b'A' c && leb c b'Z' then c + 32 else c

unfoldable pub upper : List ℕ → List ℕ
upper = map (λ c. if leb b'a' c && leb c b'z' then c - 32 else c)

unfoldable pub lower : List ℕ → List ℕ
unfolding lower_char
lower = map lower_char

-- blank, and tab to carriage return
unfoldable pub is_space : ℕ → Bool
is_space c = nat_eq c 32 || leb 9 c && leb c 13

unfoldable pub lstrip : List ℕ → List ℕ
unfolding is_space
lstrip [] = []
lstrip (c ∷ s) = let rest = lstrip s in if is_space c then rest else c ∷ s

unfoldable pub strip : List ℕ → List ℕ
unfolding lstrip
strip s = reverse (lstrip (reverse (lstrip s)))

abbrev pub text_eq : List ℕ → List ℕ → Bool
text_eq [] [] = true
text_eq (a ∷ s) (b ∷ t) = let rest = text_eq s t in if nat_eq a b then rest else false
text_eq _ _ = false

unfoldable pub has_prefix : List ℕ → List ℕ → Bool
has_prefix [] t = true
has_prefix (a ∷ s) [] = false
has_prefix (a ∷ s) (b ∷ t) = let rest = has_prefix s t in if nat_eq a b then rest else false

-- `s in t`
unfoldable pub contains : List ℕ → List ℕ → Bool
unfolding has_prefix
contains s [] = has_prefix s []
contains s (b ∷ t) = let rest = contains s t in if has_prefix s (b ∷ t) then true else rest

-- `t.split(c)`: the pieces between the separators, `piece` being the one that is read, in reverse
split_from : ℕ → List ℕ → List ℕ → List (List ℕ)
split_from c piece [] = reverse piece ∷ []
split_from c piece (d ∷ t) =
    let closed = reverse piece ∷ split_from c [] t in
    let longer = split_from c (d ∷ piece) t in if nat_eq d c then closed else longer

unfoldable pub split_at : ℕ → List ℕ → List (List ℕ)
unfolding split_from
split_at c t = split_from c [] t

-- `c.join(ts)`
unfoldable pub join_with : ℕ → List (List ℕ) → List ℕ
join_with c [] = []
join_with c (t ∷ []) = t
join_with c (t ∷ u ∷ us) = t ++ (c ∷ join_with c (u ∷ us))

abbrev pub is_empty : List ℕ → Bool
is_empty [] = true
is_empty (c ∷ s) = false

pub text_eq_refl : (s : List ℕ) → text_eq s s ≡ true
text_eq_refl [] = refl
text_eq_refl (a ∷ s) = ground (arith, text_eq_refl s)

pub eq_of_text_eq : (s t : List ℕ) → text_eq s t ≡ true → s ≡ t
eq_of_text_eq [] [] h = refl
eq_of_text_eq [] (b ∷ t) h = absurd (cc h)
eq_of_text_eq (a ∷ s) [] h = absurd (cc h)
eq_of_text_eq (a ∷ s) (b ∷ t) h = ground (arith, eq_of_text_eq s t)
