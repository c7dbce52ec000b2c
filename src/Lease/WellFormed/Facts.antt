-- ===== src/Lease/WellFormed/Facts.antt =====
-- Which entries are left, what a test on all entries says of each, and which ports are free.
use gamenet.Base.{
  ℕ, zero, suc, ◌+◌, ◌≤◌, ◌<◌, ◌≡◌, refl, sym, ◌≢◌, Bool, true, false, not, some, List, [], ◌∷◌,
  map, inl, inr, arith, holds_of, holds_of_not, find, All-find, filter, contains, contains-eq-false,
  any-eq-false, All, Pairwise, NotIn, All-filter, Pairwise-filter, All-weaken, Bool-cases,
  ℕ_discrete, Result, ok, err,
}
use gamenet.HashMap.{HashMap, get, insert, remove, All-remove, Pairwise-get, Pairwise-remove}
use gamenet.Errors.{Error}
use gamenet.Lease.{
  commit, TokenId, dec_token, LeaseStatus, active, grace, Lease, LeaseTable, Entry, reap_expired,
  is_retired, ports_from, port_pool, free_ports, port_start, port_end,
}
use gamenet.Lease.WellFormed.{IsEntry, Apart, Apart-sym, IsWellFormed, SessionUpTo}

-- What the reaped table and a successful result satisfy, the table left satisfies.
pub commit-keeps {ℓ κ} :
    {A : Type ℓ} (P : LeaseTable → Type κ) (t : LeaseTable) (r : Result Error (LeaseTable × A))
    → P t
    → ((t' : LeaseTable) (a : A) → r ≡ ok (t', a) → P t')
    → P (commit t r).0
commit-keeps P t (ok (t', a)) h k = k t' a refl
commit-keeps P t (err e) h k = h

-- To reap leases keeps the table well formed.
pub reap_expired-IsWellFormed :
    (t : LeaseTable) (now : ℕ) → IsWellFormed t → IsWellFormed (reap_expired t now)
unfolding reap_expired
reap_expired-IsWellFormed t now w = record {
  entries = All-filter _ _ t.leases w.entries;
  apart = Pairwise-filter Apart _ t.leases w.apart;
}

SessionUpTo-mono : (m n : ℕ) (s : LeaseStatus) → m ≤ n → SessionUpTo m s → SessionUpTo n s
SessionUpTo-mono m n (active s) h k = omega arith
SessionUpTo-mono m n (grace t) h k = tt

pub IsEntry-mono : (m n : ℕ) → m ≤ n → (e : Entry) → IsEntry m e → IsEntry n e
IsEntry-mono m n h e k = record {
  from_start = k.from_start;
  to_end = k.to_end;
  own = k.own;
  distinct = k.distinct;
  capped = k.capped;
  session = SessionUpTo-mono m n e.1.status h k.session;
}

-- To put an entry in the place of the one with its key.
pub insert-IsWellFormed :
    (t : LeaseTable) (k : TokenId) (l : Lease) (n : ℕ)
    → t.next_session_id ≤ n
    → IsWellFormed t
    → IsEntry n (k, l)
    → All (Apart (k, l)) (remove dec_token k t.leases)
    → IsWellFormed (record { leases = insert dec_token k l t.leases; next_session_id = n })
unfolding insert
insert-IsWellFormed t k l n h w e a = record {
  entries = (
    e,
    All-remove dec_token (IsEntry n) k t.leases (
        All-weaken (IsEntry t.next_session_id) (IsEntry n) t.leases
          (IsEntry-mono t.next_session_id n h) w.entries),
  );
  apart = (a, Pairwise-remove dec_token Apart k t.leases w.apart);
}

pub remove-IsWellFormed :
    (t : LeaseTable) (k : TokenId)
    → IsWellFormed t
    → IsWellFormed (record t { leases = remove dec_token k t.leases })
remove-IsWellFormed t k w = record {
  entries = All-remove dec_token (IsEntry t.next_session_id) k t.leases w.entries;
  apart = Pairwise-remove dec_token Apart k t.leases w.apart;
}

-- The claim found is apart from all others.
pub get-Apart :
    (t : LeaseTable) (k : TokenId) {l : Lease}
    → IsWellFormed t
    → get dec_token k t.leases ≡ some l
    → All (Apart (k, l)) (remove dec_token k t.leases)
get-Apart t k w e = Pairwise-get dec_token Apart k t.leases Apart-sym w.apart e

-- No lease has retired the identity.
pub not_retired :
    (k : TokenId) (m : HashMap TokenId Lease)
    → is_retired k m ≡ false
    → All (λ e. NotIn k e.1.retired_token_ids) m
not_retired k m h =
    All-weaken _ (λ e. NotIn k e.1.retired_token_ids) m
      (λ e q. contains-eq-false dec_token e.1.retired_token_ids k q) (any-eq-false _ m h)

-- What a list contains satisfies what all its elements do.
pub All-contains {ℓ κ} :
    {A : Type ℓ} (P : A → Type κ) (dec : Discrete A) (xs : List A) (a : A)
    → All P xs
    → contains dec xs a ≡ true
    → P a
unfolding contains
All-contains P dec [] a h e = cc
All-contains P dec (x ∷ xs) a h e = elim (dec x a) [
  | yes p ↦ rw (← p) h.0
  | no p ↦ All-contains P dec xs a h.1 (ground (arith, p))
]

ports_from_range : (n start : ℕ) → All (λ p. (start ≤ p) × (p < start + n)) (ports_from start n)
unfolding ports_from
ports_from_range zero start = tt
ports_from_range (suc n) start = (
  (omega arith, omega arith),
  All-weaken _ (λ p. (start ≤ p) × (p < start + suc n)) (ports_from (start + 1) n)
      (λ p h. (omega arith, omega arith)) (ports_from_range n (start + 1)),
)

NotIn-port :
    (p : ℕ) (m : HashMap TokenId Lease)
    → NotIn p (map (λ e. e.1.port) m)
    → All (λ e. e.1.port ≢ p) m
NotIn-port p [] h = tt
NotIn-port p (e ∷ m) h = (h.0, NotIn-port p m h.1)

filter_holds {ℓ} : {A : Type ℓ} (p : A → Bool) (xs : List A) → All (λ x. p x ≡ true) (filter p xs)
unfolding filter
filter_holds p [] = tt
filter_holds p (x ∷ xs) = elim (Bool-cases (p x)) [
  | inl e ↦ rw e (e, filter_holds p xs)
  | inr e ↦ rw e (filter_holds p xs)
]

-- A free port is in the pool, and no lease holds it.
pub free_ports-contains :
    (p : ℕ) (m : HashMap TokenId Lease)
    → contains ℕ_discrete (free_ports m) p ≡ true
    → (port_start ≤ p) × (p ≤ port_end) × All (λ e. e.1.port ≢ p) m
unfolding free_ports port_pool
free_ports-contains p m h =
    let pool = ports_from port_start 1000 in
    let range =
      All-contains (λ q. (port_start ≤ q) × (q < port_start + 1000)) ℕ_discrete _ p
        (All-filter _ _ pool (ports_from_range 1000 port_start)) h in
    let free =
      All-contains (λ q. not (contains ℕ_discrete (map (λ (e : Entry). e.1.port) m) q) ≡ true)
        ℕ_discrete _ p (filter_holds _ pool) h in
    (range.0, omega arith, NotIn-port p m (contains-eq-false ℕ_discrete _ p (ground (arith, free))))

get_of-first :
    (k : TokenId) (v : Lease) (m : HashMap TokenId Lease) → get dec_token k ((k, v) ∷ m) ≡ some v
unfolding get
get_of-first k v m = rw (holds_of (dec_token k k) refl)

-- The entry that a search finds is the one at its key.
pub find-get :
    (p : Entry → Bool) (m : HashMap TokenId Lease) (k : TokenId) (l : Lease)
    → Pairwise Apart m
    → find p m ≡ some (k, l)
    → get dec_token k m ≡ some l
unfolding find get
find-get p [] k l h e = cc
find-get p (x ∷ m) k l h e = elim (Bool-cases (p x)) [
  | inl t ↦ let q : x ≡ (k, l) = ground arith in rw q (get_of-first k l m)
  | inr t ↦
      let found : find p m ≡ some (k, l) = ground arith in
      let other = (All-find (Apart x) p m h.0 found).0.key in
      rw (holds_of_not (dec_token x.0 k) (λ q. other (sym q))) (find-get p m k l h.1 found)
]
