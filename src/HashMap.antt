-- ===== src/HashMap.antt =====
-- `std::collections::HashMap` as an association list: the operations that the relay uses, and
-- their laws. A real map is iterated in no particular order; here it is iterated from the entry
-- inserted last.
use gamenet.Base.{
  suc, ◌≤◌, ◌≡◌, refl, ◌≢◌, Bool, false, not, Option, none, some, List, [], ◌∷◌, arith,
  if◌then◌else◌, holds, holds_of, holds_of_not, any, filter, All, Pairwise, All-filter,
  Pairwise-filter, length, length-filter-le,
}

abbrev pub HashMap {ℓ} : Type ℓ → Type ℓ → Type ℓ
HashMap K V = List (K × V)

module _ {ℓ} {K V : Type ℓ} (dec : Discrete K) where
  unfoldable pub get : K → HashMap K V → Option V
  get k [] = none
  get k (e ∷ m) = if holds (dec e.0 k) then some e.1 else get k m

  unfoldable pub contains_key : K → HashMap K V → Bool
  contains_key k = any (λ e. holds (dec e.0 k))

  unfoldable pub remove : K → HashMap K V → HashMap K V
  remove k = filter (λ e. not (holds (dec e.0 k)))

  unfoldable pub insert : K → V → HashMap K V → HashMap K V
  insert k v m = (k, v) ∷ remove k m

  pub get-remove_self : (k : K) (m : HashMap K V) → get k (remove k m) ≡ none
  unfolding get remove filter
  get-remove_self k [] = refl
  get-remove_self k (e ∷ m) = elim (dec e.0 k) [
    | yes p ↦ ground (arith, get-remove_self k m)
    | no p ↦ ground (arith, get-remove_self k m)
  ]

  pub get-remove_ne : (k j : K) (m : HashMap K V) → k ≢ j → get j (remove k m) ≡ get j m
  unfolding get remove filter
  get-remove_ne k j [] h = refl
  get-remove_ne k j (e ∷ m) h = ground (arith, get-remove_ne k j m h)

  pub get-insert_self : (k : K) (v : V) (m : HashMap K V) → get k (insert k v m) ≡ some v
  unfolding get insert
  get-insert_self k v m = rw (holds_of (dec k k) refl)

  pub get-insert_ne : (k j : K) (v : V) (m : HashMap K V) → k ≢ j → get j (insert k v m) ≡ get j m
  unfolding get insert
  get-insert_ne k j v m h = rw (holds_of_not (dec k j) h) (get-remove_ne k j m h)

  pub get-insert :
      (k j : K) (v : V) (m : HashMap K V)
      → get j (insert k v m) ≡ (if holds (dec k j) then some v else get j m)
  unfolding get insert
  get-insert k j v m = elim (dec k j) [
    | yes p ↦ rw (holds_of (dec k j) p)
    | no p ↦ rw (holds_of_not (dec k j) p) (get-remove_ne k j m p)
  ]

  pub get-remove :
      (k j : K) (m : HashMap K V) → get j (remove k m) ≡ (if holds (dec k j) then none else get j m)
  get-remove k j m = elim (dec k j) [
    | yes p ↦ rw (holds_of (dec k j) p) (rw (← p) (get-remove_self k m))
    | no p ↦ rw (holds_of_not (dec k j) p) (get-remove_ne k j m p)
  ]

  -- What `remove` leaves has another key.
  pub remove_ne : (k : K) (m : HashMap K V) → All (λ e. e.0 ≢ k) (remove k m)
  unfolding remove filter
  remove_ne k [] = tt
  remove_ne k (e ∷ m) = elim (dec e.0 k) [
    | yes p ↦ rw (holds_of (dec e.0 k) p) (remove_ne k m)
    | no p ↦ rw (holds_of_not (dec e.0 k) p) (p, remove_ne k m)
  ]

  pub remove_absent : (k : K) (m : HashMap K V) → get k m ≡ none → remove k m ≡ m
  unfolding get remove filter
  remove_absent k [] h = refl
  remove_absent k (e ∷ m) h = ground (arith, remove_absent k m)

  pub contains_key-get : (k : K) (m : HashMap K V) → contains_key k m ≡ false → get k m ≡ none
  unfolding contains_key any get
  contains_key-get k [] h = refl
  contains_key-get k (e ∷ m) h = ground (arith, contains_key-get k m)

  pub length-remove :
      (k : K) (m : HashMap K V) (v : V) → get k m ≡ some v → suc (length (remove k m)) ≤ length m
  unfolding get remove filter
  length-remove k [] v h = cc
  length-remove k (e ∷ m) v h =
      ground
        (arith, length-remove k m v, length-filter-le (λ (e : K × V). not (holds (dec e.0 k))) m)

  module _ {κ} (P : K × V → Type κ) where
    pub All-get : (k : K) (m : HashMap K V) {v : V} → All P m → get k m ≡ some v → P (k, v)
    unfolding get
    All-get k [] h e = cc
    All-get k (x ∷ m) {v} h e = elim (dec x.0 k) [
      | yes p ↦ let q : x ≡ (k, v) = ground (arith, holds_of (dec x.0 k) p) in rw (← q) h.0
      | no p ↦ All-get k m h.1 (ground (arith, holds_of_not (dec x.0 k) p))
    ]

    pub All-remove : (k : K) (m : HashMap K V) → All P m → All P (remove k m)
    unfolding remove
    All-remove k m h = All-filter P _ m h

  module _ {κ} (R : K × V → K × V → Type κ) where
    pub Pairwise-remove : (k : K) (m : HashMap K V) → Pairwise R m → Pairwise R (remove k m)
    unfolding remove
    Pairwise-remove k m h = Pairwise-filter R _ m h

    -- The entry found is related to all others.
    pub Pairwise-get :
        (k : K) (m : HashMap K V) {v : V}
        → ((x y : K × V) → R x y → R y x)
        → Pairwise R m
        → get k m ≡ some v
        → All (R (k, v)) (remove k m)
    unfolding get remove filter
    Pairwise-get k [] s h e = cc
    Pairwise-get k (x ∷ m) {v} s h e = elim (dec x.0 k) [
      | yes p ↦
          let q : x ≡ (k, v) = ground (arith, holds_of (dec x.0 k) p) in
          rw (holds_of (dec x.0 k) p) (rw (← q) (All-filter (R x) _ m h.0))
      | no p ↦
          let found : get k m ≡ some v = ground (arith, holds_of_not (dec x.0 k) p) in
          rw (holds_of_not (dec x.0 k) p)
            (s x (k, v) (All-get (R x) k m h.0 found), Pairwise-get k m s h.1 found)
    ]
