-- ===== src/Base/Results.antt =====
-- Fallible code: `anyhow::Result`, its `?` as `do`, and `anyhow::ensure!`.
use mathlib.Core.Path.{◌≡◌, refl}
use mathlib.Core.Bool.{Bool, true, false}

pub data Result {ℓ κ} (E : Type κ) (A : Type ℓ) : Type (ℓ ⊔ κ) where
  err : E → Result E A
  ok : A → Result E A

module _ {ι} {E : Type ι} where
  infixl 5 ◌>>=◌ ◌>>◌
  -- The question mark.
  abbrev pub ◌>>=◌ {ℓ κ} :
      {Before : Type ℓ} {After : Type κ}
      → Result E Before
      → (Before → Result E After)
      → Result E After
  err failure >>= next = err failure
  ok value >>= next = next value

  abbrev pub ◌>>◌ {κ} : {After : Type κ} → Result E (Unit {0}) → Result E After → Result E After
  err failure >> next = err failure
  ok done >> next = next

  abbrev pub ensure : Bool → E → Result E (Unit {0})
  ensure false failure = err failure
  ensure true failure = ok tt

  -- Inversion of a successful bind.
  pub >>=-eq-ok {ℓ κ} :
      {Before : Type ℓ} {After : Type κ} (first : Result E Before) (next : Before → Result E After)
      {value : After}
      → (first >>= next) ≡ ok value
      → (between : Before) × (first ≡ ok between) × (next between ≡ ok value)
  >>=-eq-ok (err failure) next h = cc
  >>=-eq-ok (ok between) next h = (between, refl, h)

  pub ensure-eq-ok {κ} :
      {After : Type κ} (test : Bool) (failure : E) (next : Result E After) {value : After}
      → (ensure test failure >> next) ≡ ok value
      → (test ≡ true) × (next ≡ ok value)
  ensure-eq-ok false failure next h = cc
  ensure-eq-ok true failure next h = (refl, h)

  pub >>-eq-ok {κ} :
      {After : Type κ} (first : Result E (Unit {0})) (next : Result E After) {value : After}
      → (first >> next) ≡ ok value
      → (first ≡ ok tt) × (next ≡ ok value)
  >>-eq-ok (err failure) next h = cc
  >>-eq-ok (ok tt) next h = (refl, h)
