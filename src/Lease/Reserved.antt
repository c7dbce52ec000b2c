-- ===== src/Lease/Reserved.antt =====
-- A claim keeps its port: nobody else is given it, and its host is given it back.
use gamenet.Base.{
  ℕ, ◌<◌, ◌≡◌, refl, sym, ◌≢◌, ◌∙◌, Bool, true, false, not, Option, some, List, [], ◌∷◌, inl, inr,
  arith, holds_of, holds_of_not, filter, contains, Result, ok, err, All, All-weaken, any-of-false,
  contains_of-NotIn, NotIn, ℕ_discrete, Bool-cases,
}
use gamenet.HashMap.{HashMap, get, remove, get-remove_ne, get-insert_ne, All-get}
use gamenet.Address.{IpAddr, host_source}
use gamenet.Errors.{Error}
use gamenet.Lease.{
  TokenId, dec_token, SessionId, grace, Lease, LeaseTable, Entry, reap_expired, is_expired,
  is_grace, is_retired, charged_to, check_ip_quota, candidates, candidate_ports, commit,
  activate_reaped, activate_with_recovery,
}
use gamenet.Lease.WellFormed.{IsEntry, Apart, IsWellFormed}
use gamenet.Lease.WellFormed.Facts.{reap_expired-IsWellFormed, get-Apart, free_ports-contains}
use gamenet.Lease.WellFormed.Activate.{OffersTo, candidates-eq-ok, activated, activate_reaped-eq-ok}

get-filter :
    (p : Entry → Bool) (k : TokenId) (m : HashMap TokenId Lease) (l : Lease)
    → get dec_token k m ≡ some l
    → p (k, l) ≡ true
    → get dec_token k (filter p m) ≡ some l
unfolding get filter
get-filter p k [] l h t = cc
get-filter p k (e ∷ m) l h t = elim (dec_token e.0 k) [
  | yes q ↦
      let same : e ≡ (k, l) = ground (arith, holds_of (dec_token e.0 k) q) in
      rw same (rw t (rw (holds_of (dec_token k k) refl)))
  | no q ↦ elim (Bool-cases (p e)) [
    | inl b ↦ rw b (
        rw (holds_of_not (dec_token e.0 k) q)
          (get-filter p k m l (ground (arith, holds_of_not (dec_token e.0 k) q)) t))
    | inr b ↦ rw b (get-filter p k m l (ground (arith, holds_of_not (dec_token e.0 k) q)) t)
  ]
]

-- A claim that has not expired outlives the others.
pub get-reap_expired :
    (t : LeaseTable) (now : ℕ) (k : TokenId) (l : Lease)
    → get dec_token k t.leases ≡ some l
    → is_expired now l.status ≡ false
    → get dec_token k (reap_expired t now).leases ≡ some l
unfolding reap_expired
get-reap_expired t now k l h e =
    get-filter (λ e. not (is_expired now e.1.status)) k t.leases l h (rw e refl)

-- Two claims of different identities have nothing in common.
pub get-get-Apart :
    (t : LeaseTable) (k j : TokenId) (l l' : Lease)
    → IsWellFormed t
    → k ≢ j
    → get dec_token k t.leases ≡ some l
    → get dec_token j t.leases ≡ some l'
    → Apart (k, l) (j, l')
get-get-Apart t k j l l' w n h h' =
    All-get dec_token (Apart (k, l)) j (remove dec_token k t.leases) (get-Apart t k w h)
      (get-remove_ne dec_token k j t.leases n ∙ h')

only_element : (p q : ℕ) → contains ℕ_discrete (q ∷ []) p ≡ true → q ≡ p
unfolding contains
only_element p q h = elim (ℕ_discrete q p) [
  | yes e ↦ e
  | no n ↦ absurd (ground (arith, holds_of_not (ℕ_discrete q p) n))
]

-- In a well-formed table, while a claim has not expired, an activation by another identity that
-- succeeds is on another port, and leaves the claim as it is.
pub activate_with_recovery-others :
    (t : LeaseTable) (owner other : TokenId) (l : Lease) (r : Option TokenId) (ip : IpAddr)
    (port now : ℕ) (t' : LeaseTable) (s : SessionId)
    → IsWellFormed t
    → get dec_token owner t.leases ≡ some l
    → is_expired now l.status ≡ false
    → other ≢ owner
    → activate_with_recovery t other r ip port now ≡ (t', ok s)
    → (port ≢ l.port) × (get dec_token owner t'.leases ≡ some l)
unfolding activate_with_recovery
activate_with_recovery-others t owner other l r ip port now t' s w h live n q =
    let reaped = reap_expired t now in
    let w' = reap_expired-IsWellFormed t now w in
    let h' = get-reap_expired t now owner l h live in
    committed (activate_reaped reaped other r ip port) refl q
  where
    taken :
        (ports : List ℕ)
        → OffersTo (reap_expired t now) other ip ports
        → contains ℕ_discrete ports port ≡ true
        → port ≢ l.port
    taken ports (inl (l', found, _, same, _)) c = λ e.
        (get-get-Apart (reap_expired t now) owner other l l' (reap_expired-IsWellFormed t now w)
            (λ z. n (sym z)) (get-reap_expired t now owner l h live) found).port
          (only_element port l'.port (rw same at c) ∙ e)
    taken ports (inr (_, same, _)) c =
        let (_, _, free) = free_ports-contains port (reap_expired t now).leases (rw same at c) in
        λ e.
          All-get dec_token (λ (x : Entry). x.1.port ≢ port) owner (reap_expired t now).leases free
            (get-reap_expired t now owner l h live) (sym e)

    committed :
        (a : Result Error (LeaseTable × SessionId))
        → activate_reaped (reap_expired t now) other r ip port ≡ a
        → commit (reap_expired t now) a ≡ (t', ok s)
        → (port ≢ l.port) × (get dec_token owner t'.leases ≡ some l)
    committed (err e) d k = absurd (ground arith)
    committed (ok (t₁, s₁)) d k =
        let (ports, c, there, _, _, _, made) =
          activate_reaped-eq-ok (reap_expired t now) other r ip port t₁ s₁ d in
        let same : t' ≡ t₁ = ground arith in
        (
          taken ports (candidates-eq-ok (reap_expired t now) other ip ports c).1 there,
          rw (same, made)
              (get-insert_ne dec_token other owner
                  (activated (get dec_token other (reap_expired t now).leases) r ip port s₁)
                  (reap_expired t now).leases n
                ∙ get-reap_expired t now owner l h live),
        )

All_from-remove :
    (n : ℕ) (k : TokenId) (m : HashMap TokenId Lease)
    → All (IsEntry n) m
    → All (λ (e : Entry). NotIn k e.1.retired_token_ids) (remove dec_token k m)
    → All (λ (e : Entry). NotIn k e.1.retired_token_ids) m
unfolding remove filter
All_from-remove n k [] h r = tt
All_from-remove n k (e ∷ m) h r = elim (dec_token e.0 k) [
  | yes q ↦
      let r' = rw (holds_of (dec_token e.0 k) q) at r in
      (rw q at h.0.own, All_from-remove n k m h.1 r')
  | no q ↦
      let r' = rw (holds_of_not (dec_token e.0 k) q) at r in (r'.0, All_from-remove n k m h.1 r'.1)
]

-- An identity that owns a claim has not been rotated.
owner_not_retired :
    (t : LeaseTable) (k : TokenId) (l : Lease)
    → IsWellFormed t
    → get dec_token k t.leases ≡ some l
    → is_retired k t.leases ≡ false
owner_not_retired t k l w h =
    any-of-false (λ e. contains dec_token e.1.retired_token_ids k) t.leases
      (All-weaken (λ (e : Entry). NotIn k e.1.retired_token_ids)
        (λ e. contains dec_token e.1.retired_token_ids k ≡ false) t.leases
        (λ e a. contains_of-NotIn dec_token e.1.retired_token_ids k a)
        (All_from-remove t.next_session_id k t.leases w.entries (
          All-weaken (Apart (k, l)) (λ (e : Entry). NotIn k e.1.retired_token_ids)
            (remove dec_token k t.leases) (λ e a. a.left) (get-Apart t k w h))))

-- In a well-formed table, a host that returns before the grace of its claim is over, from the
-- network that the claim is charged to, is offered the port of its claim and no other.
pub candidate_ports-returning :
    (t : LeaseTable) (token : TokenId) (l : Lease) (until : ℕ) (ip : IpAddr) (now : ℕ)
    → IsWellFormed t
    → get dec_token token t.leases ≡ some l
    → l.status ≡ grace until
    → now < until
    → charged_to (host_source ip) l.last_ip ≡ true
    → (candidate_ports t token ip now).1 ≡ ok (l.port ∷ [])
unfolding candidate_ports candidates check_ip_quota
candidate_ports-returning t token l until ip now w h s early c =
    let live : is_expired now l.status ≡ false = rw s (ground arith) in
    let idle : is_grace l.status ≡ true = rw s refl in
    let h' = get-reap_expired t now token l h live in
    let current =
      owner_not_retired (reap_expired t now) token l (reap_expired-IsWellFormed t now w) h' in
    rw (current, h', idle, c)
