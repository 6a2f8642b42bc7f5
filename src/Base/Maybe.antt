-- ===== src/Base/Maybe.antt =====
-- `Option` as a monad, for the code that chains by `?`.
use mathlib.Core.Path.{◌≡◌, refl}
use mathlib.Core.Option.{Option, none, some}

infixl 5 ◌>>=◌
abbrev pub ◌>>=◌ {ℓ κ} : {A : Type ℓ} {B : Type κ} → Option A → (A → Option B) → Option B
none >>= k = none
some a >>= k = k a

pub >>=-eq-some {ℓ κ} :
    {A : Type ℓ} {B : Type κ} (m : Option A) (k : A → Option B) {b : B}
    → (m >>= k) ≡ some b
    → (a : A) × (m ≡ some a) × (k a ≡ some b)
>>=-eq-some none k h = cc
>>=-eq-some (some a) k h = (a, refl, h)

pub bind-some {ℓ} : {A : Type ℓ} (m : Option A) → (m >>= λ a. some a) ≡ m
bind-some none = refl
bind-some (some a) = refl
