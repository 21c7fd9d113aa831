-- ===== src/Prelude/Exec.antt =====
-- Code that changes a state `W` and may raise: an action returns or raises, and leaves a state
-- in both cases.
use Prim.Native.Nat.{ℕ}
use Prim.Native.String.{String}
use mathlib.Core.List.{List}
use mathlib.Core.Bool.{Bool, true, false}
use mathlib.Core.Path.{◌≡◌, refl}
use smart_router.Prelude.Tests.{if◌then◌else◌}

-- The exceptions that the program raises or passes on, with `str(exc)`.
pub data Exception : Type 0 where
  provider_timeout provider_fault : List ℕ → Exception
  value_error key_error runtime_error attribute_error type_error index_error : String → Exception
  tool_transient tool_semantic tool_auth tool_not_found tool_other : List ℕ → Exception

pub data Result {ℓ} (A : Type ℓ) : Type ℓ where
  ok : A → Result A
  raised : Exception → Result A

abbrev pub Exec : Type 0 → Type 0 → Type 0
Exec W A = W → Result A × W

module _ {W A : Type 0} where
  abbrev pub pure : A → Exec W A
  pure a w = (ok a, w)

  abbrev pub raise : Exception → Exec W A
  raise e w = (raised e, w)

-- what follows an action that has run
abbrev pub continue_with : {W A B : Type 0} → (A → Exec W B) → Result A → W → Result B × W
continue_with g (ok a) w = g a w
continue_with g (raised e) w = (raised e, w)

-- a result that changes nothing
abbrev pub from_result : {W A : Type 0} → Result A → Exec W A
from_result r w = (r, w)

infixl 5 ◌>>=◌
unfoldable pub ◌>>=◌ : {W A B : Type 0} → Exec W A → (A → Exec W B) → Exec W B
◌>>=◌ m g w = let r = m w in continue_with g r.0 r.1

-- `P` of what an action returns and of the state that it leaves, `E` of the state that an
-- exception leaves.
abbrev pub Ends : {W A : Type 0} → (A → W → Type 0) → (W → Type 0) → Result A × W → Type 0
Ends P E (ok a, w) = P a w
Ends P E (raised e, w) = E w

abbrev pub NoClaim : {W : Type 0} → W → Type 0
NoClaim w = Unit

-- `P` of what an action returns, if it returns
abbrev pub Ensures : {W A : Type 0} → (A → W → Type 0) → Result A × W → Type 0
Ensures P = Ends P NoClaim

-- an action that can return anything
pub Ensures-any : {W A : Type 0} (r : Result A × W) → Ensures (λ _ _. Unit) r
Ensures-any (ok a, w) = tt
Ensures-any (raised e, w) = tt

pub Ends-bind :
    {W A B : Type 0} (P : A → W → Type 0) (Q : B → W → Type 0) (E : W → Type 0) (m : Exec W A)
    (g : A → Exec W B) (w : W)
    → Ends P E (m w)
    → ((a : A) (w' : W) → P a w' → Ends Q E (g a w'))
    → Ends Q E ((m >>= g) w)
unfolding ◌>>=◌
Ends-bind {W} {A} {B} P Q E m g w h k = split (m w) h
  where
    split : (r : Result A × W) → Ends P E r → Ends Q E (continue_with g r.0 r.1)
    split (ok a, w') p = k a w' p
    split (raised x, w') p = p

-- after an action of which nothing is known
pub Ensures-after :
    {W A B : Type 0} (Q : B → W → Type 0) (m : Exec W A) (g : A → Exec W B) (w : W)
    → ((a : A) (w' : W) → Ensures Q (g a w'))
    → Ensures Q ((m >>= g) w)
Ensures-after Q m g w k =
    Ends-bind (λ _ _. Unit) Q NoClaim m g w (Ensures-any (m w)) (λ a w' _. k a w')

-- a weaker property of the same run
pub Ends-map :
    {W A : Type 0} (P Q : A → W → Type 0) (E : W → Type 0) (r : Result A × W)
    → Ends P E r
    → ((a : A) (w' : W) → P a w' → Q a w')
    → Ends Q E r
Ends-map P Q E (ok a, w) h k = k a w h
Ends-map P Q E (raised e, w) h k = h

pub Ends-if :
    {W A : Type 0} (P : A → W → Type 0) (E : W → Type 0) (b : Bool) (m n : Exec W A) (w : W)
    → (b ≡ true → Ends P E (m w))
    → (b ≡ false → Ends P E (n w))
    → Ends P E ((if b then m else n) w)
Ends-if P E true m n w km kn = km refl
Ends-if P E false m n w km kn = kn refl

-- after the same action, the same in each case
pub bind-same :
    {W A B : Type 0} (m : Exec W A) (g g' : A → Exec W B) (w : W)
    → ((a : A) (w' : W) → g a w' ≡ g' a w')
    → (m >>= g) w ≡ (m >>= g') w
unfolding ◌>>=◌
bind-same {W} {A} {B} m g g' w k = on_result (m w)
  where
    on_result : (r : Result A × W) → continue_with g r.0 r.1 ≡ continue_with g' r.0 r.1
    on_result (ok a, w') = k a w'
    on_result (raised e, w') = refl

-- an action that follows two others
pub bind_assoc :
    {W A B C : Type 0} (m : Exec W A) (g : A → Exec W B) (k : B → Exec W C) (w : W)
    → ((m >>= g) >>= k) w ≡ (m >>= (λ a. g a >>= k)) w
unfolding ◌>>=◌
bind_assoc {W} {A} {B} m g k w = on_result (m w)
  where
    on_result :
        (r : Result A × W)
        → continue_with k (continue_with g r.0 r.1).0 (continue_with g r.0 r.1).1
          ≡ continue_with (λ a. g a >>= k) r.0 r.1
    on_result (ok a, w') = refl
    on_result (raised e, w') = refl

-- two properties of the same run
pub Ends-both :
    {W A : Type 0} (P Q : A → W → Type 0) (E : W → Type 0) (r : Result A × W)
    → Ends P E r
    → Ensures Q r
    → Ends (λ a w. P a w × Q a w) E r
Ends-both P Q E (ok a, w) h k = (h, k)
Ends-both P Q E (raised e, w) h k = h

pub Ends-weaken :
    {W A : Type 0} (P Q : A → W → Type 0) (E D : W → Type 0) (r : Result A × W)
    → Ends P E r
    → ((a : A) (w' : W) → P a w' → Q a w')
    → ((w' : W) → E w' → D w')
    → Ends Q D r
Ends-weaken P Q E D (ok a, w) h k l = k a w h
Ends-weaken P Q E D (raised e, w) h k l = l w h
