-- ===== src/Prelude/Tests.antt =====
-- Boolean tests on the native numbers and on options, the conditional, and `u64` arithmetic.
use Prim.Native.Nat.{ℕ, ◌≤◌, ◌+◌, ◌-◌, ◌%◌, ◌^◌, compare, Ordering}
use mathlib.Core.Path.{◌≡◌, refl}
use mathlib.Core.Logic.{◌⊎◌, inl, inr}
use mathlib.Core.Bool.{Bool, true, false}
use mathlib.Core.Option.{Option, none, some}
use native.Mathlib.Omega.{arith}

abbrev pub ltb : ℕ → ℕ → Bool
ltb a b = elim (compare a b) [ Ordering.lt ↦ true | _ ↦ false ]

abbrev pub leb : ℕ → ℕ → Bool
leb a b = elim (compare a b) [ Ordering.gt ↦ false | _ ↦ true ]

infix 50 ◌==◌
abbrev pub ◌==◌ : ℕ → ℕ → Bool
a == b = elim (compare a b) [ Ordering.eq ↦ true | _ ↦ false ]

pub ==_refl : (a : ℕ) → (a == a) ≡ true
==_refl a = ground arith

infix 1 if◌then◌else◌
abbrev pub if◌then◌else◌ {ℓ} : {A : Type ℓ} → Bool → A → A → A
if true then x else y = x
if false then x else y = y

abbrev pub is_some {ℓ} : {A : Type ℓ} → Option A → Bool
is_some none = false
is_some (some a) = true

-- `Option::map` and `Option::unwrap_or`.
abbrev pub map_option {ℓ κ} : {A : Type ℓ} {B : Type κ} → (A → B) → Option A → Option B
map_option f none = none
map_option f (some a) = some (f a)

abbrev pub unwrap_or {ℓ} : {A : Type ℓ} → Option A → A → A
unwrap_or none d = d
unwrap_or (some a) d = a

-- `==` of two `Option` values that hold numbers.
abbrev pub option_eq : Option ℕ → Option ℕ → Bool
option_eq none none = true
option_eq none (some b) = false
option_eq (some a) none = false
option_eq (some a) (some b) = a == b

pub option_eq_refl : (a : ℕ) → option_eq (some a) (some a) ≡ true
option_eq_refl a = ground arith

-- The derived `<` of `Option<u64>`: `None` is below every `Some`.
abbrev pub option_lt : Option ℕ → Option ℕ → Bool
option_lt none none = false
option_lt none (some b) = true
option_lt (some a) none = false
option_lt (some a) (some b) = ltb a b

-- `<=` of two `Option<u64>` values, as a statement.
abbrev pub OptionLe : Option ℕ → Option ℕ → Type 0
OptionLe none b = Unit
OptionLe (some a) none = ⊥
OptionLe (some a) (some b) = a ≤ b

pub OptionLe-refl : (a : Option ℕ) → OptionLe a a
OptionLe-refl none = tt
OptionLe-refl (some a) = omega arith

pub OptionLe-trans : (a b c : Option ℕ) → OptionLe a b → OptionLe b c → OptionLe a c
OptionLe-trans none b c p q = tt
OptionLe-trans (some a) none c p q = absurd p
OptionLe-trans (some a) (some b) none p q = q
OptionLe-trans (some a) (some b) (some c) p q = omega arith

pub option_lt→le : (a b : Option ℕ) → option_lt a b ≡ true → OptionLe a b
option_lt→le none b h = tt
option_lt→le (some a) none h = ground arith
option_lt→le (some a) (some b) h = ground arith

-- `u64` sums and differences, with the wrap-around of a release build.
abbrev pub u64_mod : ℕ
u64_mod = 2 ^ 64

abbrev pub add64 : ℕ → ℕ → ℕ
add64 a b = (a + b) % u64_mod

abbrev pub sub64 : ℕ → ℕ → ℕ
sub64 a b = (a + u64_mod - b) % u64_mod

-- To split on a computed value and keep the equation.
pub Bool-cases : (b : Bool) → (b ≡ true) ⊎ (b ≡ false)
Bool-cases true = inl refl
Bool-cases false = inr refl

pub Option-cases {ℓ} : {A : Type ℓ} (o : Option A) → (o ≡ none) ⊎ ((a : A) × (o ≡ some a))
Option-cases none = inl refl
Option-cases (some a) = inr (a, refl)
