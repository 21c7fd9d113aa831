-- ===== src/Tests/Samples.antt =====
-- Values that the tests share: floats, a digest, and the parts of a small router.
use Prim.Native.Char.{code}
use smart_router.Prelude.{
  ℕ, zero, suc, ◌+◌, ◌-◌, ◌*◌, ◌/◌, Bool, true, false, [], ◌∷◌, String, ◌≡◌, ◌≢◌, ◌∙◌, refl, sym,
  ap, nat_eq, Float, ltb, leb,
}
use smart_router.Schemas.Message.{Text}

-- floats, for the tests: the natural numbers
instance abbrev pub nat_float : Float ℕ
nat_float = record {
  zero_f = 0;
  one_f = 1;
  add_f = λ a b. a + b;
  sub_f = λ a b. a - b;
  mul_f = λ a b. a * b;
  div_f = λ a b. a / b;
  lt_f = ltb;
  le_f = leb;
  sqrt_f = λ a. a;
  of_nat = λ n. n;
  of_diff = λ a b. a - b;
}

-- a digest with no collision: each code point as that many strokes and a comma
abbrev pub strokes : ℕ → String → String
strokes zero s = String.◌∷◌ "," s
strokes (suc n) s = String.◌∷◌ "x" (strokes n s)

abbrev pub unary : Text → String
unary [] = ""
unary (c ∷ t) = strokes c (unary t)

abbrev begins_stroke : String → Bool
begins_stroke String.[] = false
begins_stroke (String.◌∷◌ c s) = nat_eq (code c) b'x'

abbrev rest_of : String → String
rest_of String.[] = ""
rest_of (String.◌∷◌ c s) = s

pub false≢true : false ≢ true
false≢true e = cc e

abbrev is_end : String → Bool
is_end String.[] = true
is_end (String.◌∷◌ c s) = false

strokes_go_on : (n : ℕ) (s : String) → is_end (strokes n s) ≡ false
strokes_go_on zero s = refl
strokes_go_on (suc n) s = refl

strokes-injective : (m n : ℕ) (s t : String) → strokes m s ≡ strokes n t → (m ≡ n) × (s ≡ t)
strokes-injective zero zero s t e = (refl, ap rest_of e)
strokes-injective zero (suc n) s t e = absurd (false≢true (ap begins_stroke e))
strokes-injective (suc m) zero s t e = absurd (false≢true (sym (ap begins_stroke e)))
strokes-injective (suc m) (suc n) s t e =
    let rest = strokes-injective m n s t (ap rest_of e) in (ap suc rest.0, rest.1)

pub unary-injective : (a b : Text) → unary a ≡ unary b → a ≡ b
unary-injective [] [] e = refl
unary-injective [] (c ∷ b) e =
    absurd (false≢true (sym (strokes_go_on c (unary b)) ∙ sym (ap is_end e)))
unary-injective (c ∷ a) [] e = absurd (false≢true (sym (strokes_go_on c (unary a)) ∙ ap is_end e))
unary-injective (c ∷ a) (d ∷ b) e =
    let split = strokes-injective c d (unary a) (unary b) e in
    let rest = unary-injective a b split.1 in cc (split.0, rest)
