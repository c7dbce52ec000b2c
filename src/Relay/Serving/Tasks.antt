-- ===== src/Relay/Serving/Tasks.antt =====
-- The lists of tasks: what is taken from one, and what is left.
use gamenet.Base.{
  ℕ, zero, suc, ◌+◌, ◌≡◌, ◌⊎◌, inl, inr, Option, none, some, List, [], ◌∷◌, All, subst, arith,
}
use gamenet.Relay.Serving.{keep, pick, put}

module _ {A : Type 0} where
  abbrev pub Any : (A → Type 0) → List A → Type 0
  Any P [] = ⊥
  Any P (x ∷ xs) = P x ⊎ Any P xs

  abbrev pub sum : (A → ℕ) → List A → ℕ
  sum f [] = 0
  sum f (x ∷ xs) = f x + sum f xs

  keep-eq-some :
      (x a : A) (o : Option (A × List A)) (rest : List A)
      → keep x o ≡ some (a, rest)
      → (rest' : List A) × (o ≡ some (a, rest')) × (rest ≡ x ∷ rest')
  keep-eq-some x a none rest h = absurd (ground arith)
  keep-eq-some x a (some (b, rest')) rest h = (rest', ground arith, ground arith)

  pub Any-pick :
      (P : A → Type 0) (n : ℕ) (xs : List A) (a : A) (rest : List A)
      → pick n xs ≡ some (a, rest)
      → Any P xs
      → P a ⊎ Any P rest
  unfolding pick
  Any-pick P n [] a rest h k = absurd k
  Any-pick P zero (x ∷ xs) a rest h k =
      let here : x ≡ a = ground arith in
      let others : xs ≡ rest = ground arith in
      subst (λ y. P y ⊎ Any P rest) here (subst (λ ys. P x ⊎ Any P ys) others k)
  Any-pick P (suc n) (x ∷ xs) a rest h (inl p) =
      let (rest', _, same) = keep-eq-some x a (pick n xs) rest h in rw same (inr (inl p))
  Any-pick P (suc n) (x ∷ xs) a rest h (inr k) =
      let (rest', found, same) = keep-eq-some x a (pick n xs) rest h in
      rw same (elim (Any-pick P n xs a rest' found k) [ inl p ↦ inl p | inr q ↦ inr (inr q) ])

  pub All-pick :
      (P : A → Type 0) (n : ℕ) (xs : List A) (a : A) (rest : List A)
      → pick n xs ≡ some (a, rest)
      → All P xs
      → P a × All P rest
  unfolding pick
  All-pick P n [] a rest h k = absurd (ground arith)
  All-pick P zero (x ∷ xs) a rest h k =
      let here : x ≡ a = ground arith in
      let others : xs ≡ rest = ground arith in (subst P here k.0, subst (All P) others k.1)
  All-pick P (suc n) (x ∷ xs) a rest h k =
      let (rest', found, same) = keep-eq-some x a (pick n xs) rest h in
      let (p, ps) = All-pick P n xs a rest' found k.1 in (p, rw same (k.0, ps))

  pub sum-pick :
      (f : A → ℕ) (n : ℕ) (xs : List A) (a : A) (rest : List A)
      → pick n xs ≡ some (a, rest)
      → sum f xs ≡ f a + sum f rest
  unfolding pick
  sum-pick f n [] a rest h = absurd (ground arith)
  sum-pick f zero (x ∷ xs) a rest h = ground arith
  sum-pick f (suc n) (x ∷ xs) a rest h =
      let (rest', found, same) = keep-eq-some x a (pick n xs) rest h in
      rw same (omega (arith, sum-pick f n xs a rest' found))

  pub Any-put : (P : A → Type 0) (o : Option A) (xs : List A) → Any P xs → Any P (put o xs)
  Any-put P none xs h = h
  Any-put P (some x) xs h = inr h
