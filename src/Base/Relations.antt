-- ===== src/Base/Relations.antt =====
-- Predicates on the elements and on the pairs of a list, by recursion.
use Prim.Native.Nat.{ℕ, zero, suc}
use mathlib.Core.Path.{◌≡◌, refl, sym}
use mathlib.Core.Logic.{◌≢◌, inl, inr}
use mathlib.Core.Bool.{Bool, true, false}
use mathlib.Core.List.{List, [], ◌∷◌, ◌++◌}
use mathlib.Core.Option.{some}
use native.Mathlib.Omega.{arith}
use gamenet.Base.Tests.{Bool-cases}
use gamenet.Base.Lists.{any, filter, find, contains, drop}

module _ {ℓ} {A : Type ℓ} where
  abbrev pub All {κ} : (A → Type κ) → List A → Type κ
  All P [] = Unit
  All P (x ∷ xs) = P x × All P xs

  abbrev pub Pairwise {κ} : (A → A → Type κ) → List A → Type κ
  Pairwise R [] = Unit
  Pairwise R (x ∷ xs) = All (R x) xs × Pairwise R xs

  -- `a` is not among the elements.
  abbrev pub NotIn : A → List A → Type ℓ
  NotIn a = All (λ x. x ≢ a)

  abbrev pub Distinct : List A → Type ℓ
  Distinct = Pairwise (λ x y. y ≢ x)

module _ {ℓ κ} {A : Type ℓ} (P : A → Type κ) where
  pub All-weaken {μ} : (Q : A → Type μ) (xs : List A) → ((x : A) → P x → Q x) → All P xs → All Q xs
  All-weaken Q [] f h = tt
  All-weaken Q (x ∷ xs) f h = (f x h.0, All-weaken Q xs f h.1)

  pub All-filter : (p : A → Bool) (xs : List A) → All P xs → All P (filter p xs)
  unfolding filter
  All-filter p [] h = tt
  All-filter p (x ∷ xs) h = elim (Bool-cases (p x)) [
    | inl e ↦ rw e (h.0, All-filter p xs h.1)
    | inr e ↦ rw e (All-filter p xs h.1)
  ]

  pub All-append : (xs ys : List A) → All P xs → All P ys → All P (xs ++ ys)
  All-append [] ys h k = k
  All-append (x ∷ xs) ys h k = (h.0, All-append xs ys h.1 k)

  pub All-find :
      (p : A → Bool) (xs : List A) {a : A} → All P xs → find p xs ≡ some a → P a × (p a ≡ true)
  unfolding find
  All-find p [] h e = cc
  All-find p (x ∷ xs) {a} h e = elim (Bool-cases (p x)) [
    | inl t ↦ let q : x ≡ a = ground arith in rw (← q) (h.0, t)
    | inr t ↦ All-find p xs h.1 (ground arith)
  ]

module _ {ℓ κ} {A : Type ℓ} (R : A → A → Type κ) where
  pub Pairwise-filter : (p : A → Bool) (xs : List A) → Pairwise R xs → Pairwise R (filter p xs)
  unfolding filter
  Pairwise-filter p [] h = tt
  Pairwise-filter p (x ∷ xs) h = elim (Bool-cases (p x)) [
    | inl e ↦ rw e (All-filter (R x) p xs h.0, Pairwise-filter p xs h.1)
    | inr e ↦ rw e (Pairwise-filter p xs h.1)
  ]

module _ {ℓ} {A : Type ℓ} where
  pub any-eq-false : (p : A → Bool) (xs : List A) → any p xs ≡ false → All (λ x. p x ≡ false) xs
  unfolding any
  any-eq-false p [] h = tt
  any-eq-false p (x ∷ xs) h = (ground arith, any-eq-false p xs (ground arith))

  pub any-of-false : (p : A → Bool) (xs : List A) → All (λ x. p x ≡ false) xs → any p xs ≡ false
  unfolding any
  any-of-false p [] h = refl
  any-of-false p (x ∷ xs) h = rw (h.0, any-of-false p xs h.1)

  pub contains-eq-false :
      (dec : Discrete A) (xs : List A) (a : A) → contains dec xs a ≡ false → NotIn a xs
  unfolding contains
  contains-eq-false dec [] a h = tt
  contains-eq-false dec (x ∷ xs) a h = elim (dec x a) [
    | yes p ↦ ground arith
    | no p ↦ (p, contains-eq-false dec xs a (ground arith))
  ]

  pub contains_of-NotIn :
      (dec : Discrete A) (xs : List A) (a : A) → NotIn a xs → contains dec xs a ≡ false
  unfolding contains
  contains_of-NotIn dec [] a h = refl
  contains_of-NotIn dec (x ∷ xs) a h = ground (arith, h.0, contains_of-NotIn dec xs a h.1)

module _ {ℓ κ} {A : Type ℓ} (P : A → Type κ) where
  -- Two predicates that hold of all elements give a third.
  pub All-zip {μ ν} :
      (Q : A → Type μ) (S : A → Type ν) (xs : List A)
      → ((x : A) → P x → Q x → S x)
      → All P xs
      → All Q xs
      → All S xs
  All-zip Q S [] f h k = tt
  All-zip Q S (x ∷ xs) f h k = (f x h.0 k.0, All-zip Q S xs f h.1 k.1)

  pub All-drop : (n : ℕ) (xs : List A) → All P xs → All P (drop n xs)
  All-drop zero xs h = h
  All-drop (suc n) [] h = h
  All-drop (suc n) (x ∷ xs) h = All-drop n xs h.1

module _ {ℓ} {A : Type ℓ} where
  pub Distinct-drop : (n : ℕ) (xs : List A) → Distinct xs → Distinct (drop n xs)
  Distinct-drop zero xs h = h
  Distinct-drop (suc n) [] h = h
  Distinct-drop (suc n) (x ∷ xs) h = Distinct-drop n xs h.1

  -- A new element at the end.
  pub Distinct-snoc : (xs : List A) (a : A) → Distinct xs → NotIn a xs → Distinct (xs ++ a ∷ [])
  Distinct-snoc [] a h n = (tt, tt)
  Distinct-snoc (x ∷ xs) a h n =
      (All-append _ xs (a ∷ []) h.0 ((λ e. n.0 (sym e)), tt), Distinct-snoc xs a h.1 n.1)

  -- No element of one list is in the other.
  abbrev pub Disjoint : List A → List A → Type ℓ
  Disjoint xs ys = All (λ x. NotIn x ys) xs

  pub Disjoint-sym : (xs ys : List A) → Disjoint xs ys → Disjoint ys xs
  Disjoint-sym xs [] h = tt
  Disjoint-sym xs (y ∷ ys) h = (
    All-weaken _ (λ x. x ≢ y) xs (λ x n e. n.0 (sym e)) h,
    Disjoint-sym xs ys (All-weaken _ (λ x. NotIn x ys) xs (λ x n. n.1) h),
  )
