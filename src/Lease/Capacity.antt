-- ===== src/Lease/Capacity.antt =====
-- A well-formed table holds no more leases than there are ports.
use gamenet.Base.{
  ℕ, zero, suc, ◌+◌, ◌≤◌, ◌<◌, ◌≡◌, refl, sym, ◌≢◌, not, List, [], ◌∷◌, map, inl, inr, arith, ◌==◌,
  filter, length, All, Pairwise, NotIn, Distinct, All-filter, All-weaken, All-zip, Pairwise-filter,
  Bool-cases, ℕ_discrete,
}
use gamenet.Lease.{LeaseTable, Entry, port_start}
use gamenet.Lease.WellFormed.{IsEntry, Apart, IsWellFormed}

abbrev without : ℕ → List ℕ → List ℕ
without a = filter (λ x. not (x == a))

without_absent : (a : ℕ) (xs : List ℕ) → NotIn a xs → length xs ≤ length (without a xs)
unfolding filter
without_absent a [] h = omega arith
without_absent a (x ∷ xs) h = ground (arith, h.0, without_absent a xs h.1)

-- A number occurs at most once.
length-without : (a : ℕ) (xs : List ℕ) → Distinct xs → length xs ≤ suc (length (without a xs))
unfolding filter
length-without a [] d = omega arith
length-without a (x ∷ xs) d = elim (ℕ_discrete x a) [
  | yes p ↦ ground (arith, without_absent a xs (rw (sym p) d.0))
  | no p ↦ ground (arith, length-without a xs d.1)
]

without-ne : (a : ℕ) (xs : List ℕ) → All (λ x. x ≢ a) (without a xs)
unfolding filter
without-ne a [] = tt
without-ne a (x ∷ xs) = elim (Bool-cases (x == a)) [
  | inl e ↦ rw e (without-ne a xs)
  | inr e ↦ rw e ((λ q. ground arith), without-ne a xs)
]

-- Distinct numbers of a range are no more than the range is long.
length_of_range :
    (n a : ℕ) (xs : List ℕ) → Distinct xs → All (λ x. (a ≤ x) × (x < a + n)) xs → length xs ≤ n
length_of_range zero a [] d r = omega arith
length_of_range zero a (x ∷ xs) d r = absurd (omega (arith, r.0.0, r.0.1))
length_of_range (suc n) a xs d r =
    let rest = length_of_range n (a + 1) (without a xs) (Pairwise-filter _ _ xs d) (
      All-zip (λ x. (a ≤ x) × (x < a + suc n)) (λ x. x ≢ a) (λ x. (a + 1 ≤ x) × (x < a + 1 + n))
        (without a xs) (λ x f g. (omega arith, omega arith)) (All-filter _ _ xs r)
        (without-ne a xs)) in
    omega (arith, length-without a xs d)

ports : List Entry → List ℕ
ports = map (λ e. e.1.port)

length-ports : (m : List Entry) → length (ports m) ≡ length m
unfolding ports
length-ports [] = refl
length-ports (e ∷ m) = omega (arith, length-ports m)

All-ports {κ} : (P : ℕ → Type κ) (m : List Entry) → All (λ e. P e.1.port) m → All P (ports m)
unfolding ports
All-ports P [] h = tt
All-ports P (e ∷ m) h = (h.0, All-ports P m h.1)

ports-Distinct : (m : List Entry) → Pairwise Apart m → Distinct (ports m)
unfolding ports
ports-Distinct [] h = tt
ports-Distinct (e ∷ m) h = (
  All-ports (λ p. p ≢ e.1.port) m
      (All-weaken (Apart e) (λ e'. e'.1.port ≢ e.1.port) m (λ e' a. a.port) h.0),
  ports-Distinct m h.1,
)

-- A well-formed table has at most 1000 claims, as many as the pool has ports.
pub length-leases-le : (t : LeaseTable) → IsWellFormed t → length t.leases ≤ 1000
length-leases-le t w =
    let range =
      All-weaken (IsEntry t.next_session_id)
        (λ e. (port_start ≤ e.1.port) × (e.1.port < port_start + 1000)) t.leases
        (λ e i. (i.from_start, omega (arith, i.to_end))) w.entries in
    omega (
      arith,
      length-ports t.leases,
      length_of_range 1000 port_start (ports t.leases) (ports-Distinct t.leases w.apart)
          (All-ports (λ p. (port_start ≤ p) × (p < port_start + 1000)) t.leases range),
    )
