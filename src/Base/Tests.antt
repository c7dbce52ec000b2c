-- ===== src/Base/Tests.antt =====
-- Boolean tests on the native numbers and on types with a decidable equality, and the conditional.
use Prim.Native.Nat.{ℕ, ◌+◌, compare, Ordering, min}
use mathlib.Core.Path.{◌≡◌, refl}
use mathlib.Core.Logic.{◌⊎◌, inl, inr}
use mathlib.Core.Bool.{Bool, true, false, not}
use mathlib.Core.Option.{Option, none, some}
use native.Mathlib.Omega.{arith}

abbrev pub ltb : ℕ → ℕ → Bool
ltb a b = elim (compare a b) [ Ordering.lt ↦ true | _ ↦ false ]

abbrev pub leb : ℕ → ℕ → Bool
leb a b = elim (compare a b) [ Ordering.gt ↦ false | _ ↦ true ]

infix 50 ◌==◌
abbrev pub ◌==◌ : ℕ → ℕ → Bool
a == b = elim (compare a b) [ Ordering.eq ↦ true | _ ↦ false ]

infix 1 if◌then◌else◌
abbrev pub if◌then◌else◌ {ℓ} : {A : Type ℓ} → Bool → A → A → A
if true then x else y = x
if false then x else y = y

-- The Boolean of a decision: `a == b` on a type with a derived `PartialEq`.
abbrev pub holds {ℓ} : {P : Type ℓ} → Dec P → Bool
holds (yes _) = true
holds (no _) = false

-- To split on a computed value and keep the equation.
pub Bool-cases : (b : Bool) → (b ≡ true) ⊎ (b ≡ false)
Bool-cases true = inl refl
Bool-cases false = inr refl

pub Option-cases {ℓ} : {A : Type ℓ} (o : Option A) → (o ≡ none) ⊎ ((a : A) × (o ≡ some a))
Option-cases none = inl refl
Option-cases (some a) = inr (a, refl)

pub not-eq-true : {b : Bool} → not b ≡ true → b ≡ false
not-eq-true {b} h = ground arith

pub not-eq-false : {b : Bool} → not b ≡ false → b ≡ true
not-eq-false {b} h = ground arith

pub holds-eq-true {ℓ} : {P : Type ℓ} (d : Dec P) → holds d ≡ true → P
holds-eq-true (yes p) h = p
holds-eq-true (no p) h = cc

pub holds-eq-false {ℓ} : {P : Type ℓ} (d : Dec P) → holds d ≡ false → ¬ P
holds-eq-false (yes p) h = cc
holds-eq-false (no p) h = p

pub holds_of {ℓ} : {P : Type ℓ} (d : Dec P) → P → holds d ≡ true
holds_of (yes p) h = refl
holds_of (no p) h = absurd (p h)

pub holds_of_not {ℓ} : {P : Type ℓ} (d : Dec P) → ¬ P → holds d ≡ false
holds_of_not (yes p) h = absurd (h p)
holds_of_not (no p) h = refl

-- `u64`.
abbrev pub u64_max : ℕ
u64_max = 18446744073709551615

-- `u64::saturating_add`.
unfoldable pub saturating_add : ℕ → ℕ → ℕ
saturating_add a b = if ltb u64_max (a + b) then u64_max else a + b

pub saturating_add_lem : (a b : ℕ) → saturating_add a b ≡ min (a + b) u64_max
unfolding saturating_add
saturating_add_lem a b = ground arith
