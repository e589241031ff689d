-- ===== src/Common.antt =====
-- The names that all modules share: the library's, passed on, and those of the children.
mod Tests
mod Lists
pub mod Bits
pub use Tests.*
pub use Lists.*
pub use Prim.Native.Nat.{ℕ, zero, suc, ◌+◌, ◌-◌, ◌*◌, ◌/◌, ◌%◌, ◌^◌, ◌≤◌, ◌<◌, min, bit_and, bit_or}
pub use mathlib.Core.Path.{◌≡◌, refl, sym, ap, ap₂, ◌∙◌, subst}
pub use mathlib.Core.Logic.{◌≢◌, ◌↔◌, ◌⊎◌, inl, inr}
pub use mathlib.Core.Bool.{Bool, true, false, ◌&&◌, ◌||◌}
pub use mathlib.Core.Option.{Option, none, some}
pub use mathlib.Core.List.{List, [], ◌∷◌, ◌++◌}
pub use native.Mathlib.Omega.{arith}

-- uint64_t arithmetic: a result is kept modulo `2 ^ 64`, and a difference is taken above it.
abbrev pub u64 : ℕ → ℕ
u64 n = n % 2 ^ 64

abbrev pub sub64 : ℕ → ℕ → ℕ
sub64 a b = (a + 2 ^ 64 - b) % 2 ^ 64

-- The `int` that most operations return: 0, or -1 after a refusal.
pub data Status : Type 0 where
  done failed : Status

infixl 5 ◌>>=◌
abbrev pub ◌>>=◌ {ℓ κ} : {A : Type ℓ} {B : Type κ} → Option A → (A → Option B) → Option B
none >>= k = none
some a >>= k = k a

-- What holds of the result, where there is one.
pub data Each {ℓ κ} {A : Type ℓ} (P : A → Type κ) : Option A → Type (ℓ ⊔ κ) where
  nothing : Each P none
  just : (a : A) → P a → Each P (some a)

pub Each_some {ℓ κ} : {A : Type ℓ} {P : A → Type κ} {a : A} → Each P (some a) → P a
Each_some (just a h) = h

pub Each-bind {ℓ κ μ} :
    {A : Type ℓ} {B : Type κ} {Q : B → Type μ} (o : Option A) (k : A → Option B)
    → ((a : A) → o ≡ some a → Each Q (k a))
    → Each Q (o >>= k)
Each-bind none k h = nothing
Each-bind (some a) k h = h a refl

pub Each-if {ℓ κ} :
    {A : Type ℓ} {P : A → Type κ} (b : Bool) (x y : Option A)
    → (b ≡ true → Each P x)
    → (b ≡ false → Each P y)
    → Each P (if b then x else y)
Each-if true x y h k = h refl
Each-if false x y h k = k refl
