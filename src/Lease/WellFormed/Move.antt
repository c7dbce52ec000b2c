-- ===== src/Lease/WellFormed/Move.antt =====
-- `rotate_claim` and `recover_claim` keep a table well formed: a claim that moves to another
-- identity takes its history with it.
mod Moved
use gamenet.Base.{
  ℕ, ◌+◌, ◌-◌, ◌≤◌, ◌≡◌, refl, sym, ap, ◌≢◌, ◌⊎◌, true, false, Option, none, some, List, [], ◌∷◌,
  ◌++◌, inl, inr, arith, holds_of, holds-eq-false, ltb, is_empty, length, length-append, drop, All,
  NotIn, Distinct, All-zip, All-append, All-drop, Distinct-drop, Distinct-snoc, Bool-cases,
  Option-cases, saturating_add, ok,
}
use gamenet.HashMap.{
  HashMap, get, remove, contains_key-get, All-get, All-remove, remove_ne, remove_absent,
}
use gamenet.Address.{IpAddr, host_source}
use gamenet.Lease.{
  TokenId, dec_token, LeaseStatus, active, grace, Lease, LeaseTable, Entry, reap_expired,
  is_retired, is_grace, charged_to, check_ip_quota, grace_ms, max_retired_identities,
}
use gamenet.Lease.Claims.{
  RotationResult, transferred, unchanged, RecoveryResult, displaced_by, move_claim, retire,
  cap_retired, recovered_lease, enrolled, rotate_reaped, rotate_claim, recover_found,
  recover_reaped, recover_claim,
}
use gamenet.Lease.WellFormed.{IsEntry, Apart, IsWellFormed}
use gamenet.Lease.WellFormed.Facts.{
  commit-keeps, find-get, insert-IsWellFormed, remove-IsWellFormed, get-Apart, not_retired,
  reap_expired-IsWellFormed,
}
use gamenet.Lease.WellFormed.Move.Moved.{moved-IsWellFormed, moved}

-- When `rotate_claim` transfers a claim.
pub record Rotates (t : LeaseTable) (old new : TokenId) (l : Lease) : Type 0 where
  pub found : get dec_token old t.leases ≡ some l
  pub idle : is_grace l.status ≡ true
  pub first : is_empty l.retired_token_ids ≡ true
  pub differ : old ≢ new
  pub absent : get dec_token new t.leases ≡ none
  pub unused : is_retired new t.leases ≡ false
  pub current : is_retired old t.leases ≡ false

pub rotate_reaped-eq-ok :
    (t : LeaseTable) (old new : TokenId) (t' : LeaseTable) (r : RotationResult)
    → rotate_reaped t old new ≡ ok (t', r)
    → ((t' ≡ t) × (p : Option ℕ) × (r ≡ unchanged p))
      ⊎ ((l : Lease) × Rotates t old new l
          × (t' ≡ move_claim t old new (retire l old))
          × (r ≡ transferred l.port))
unfolding rotate_reaped
rotate_reaped-eq-ok t old new t' r h = elim (Option-cases (get dec_token new t.leases)) [
  | inr (l, e) ↦ inl (ground arith, some l.port, ground arith)
  | inl e ↦ elim (Option-cases (get dec_token old t.leases)) [
    | inl f ↦ inl (ground arith, none, ground arith)
    | inr (l, f) ↦ inr (
      l,
      record {
        found = f;
        idle = ground arith;
        first = ground arith;
        differ = holds-eq-false (dec_token old new) (ground arith);
        absent = e;
        unused = ground arith;
        current = ground arith;
      },
      ground arith,
      ground arith,
    )
  ]
]

grace_status : (s : LeaseStatus) → is_grace s ≡ true → (n : ℕ) × (s ≡ grace n)
grace_status (active s) h = cc
grace_status (grace n) h = (n, refl)

is_empty-nil {ℓ} : {A : Type ℓ} (xs : List A) → is_empty xs ≡ true → xs ≡ []
is_empty-nil [] h = refl
is_empty-nil (x ∷ xs) h = cc

rotate_reaped-IsWellFormed :
    (t : LeaseTable) (old new : TokenId) (t' : LeaseTable) (r : RotationResult)
    → IsWellFormed t
    → rotate_reaped t old new ≡ ok (t', r)
    → IsWellFormed t'
rotate_reaped-IsWellFormed t old new t' r w h = elim (rotate_reaped-eq-ok t old new t' r h) [
  | inl (e, _, _) ↦ rw e w
  | inr (l, m, e, _) ↦
      let (n, status) = grace_status l.status m.idle in
      let empty = is_empty-nil l.retired_token_ids m.first in
      let same : retire l old ≡ moved l (l.retired_token_ids ++ old ∷ []) l.last_ip n =
        ground arith in
      rw e (
        rw same (
          moved-IsWellFormed t old new l w m.found m.differ m.absent m.unused 0 l.last_ip n
            (omega (arith, length-append l.retired_token_ids (old ∷ []), ap length empty))))
]

-- `rotate_claim` keeps the table well formed, whether it succeeds or not.
pub rotate_claim-IsWellFormed :
    (t : LeaseTable) (old new : TokenId) (now : ℕ)
    → IsWellFormed t
    → IsWellFormed (rotate_claim t old new now).0
unfolding rotate_claim
rotate_claim-IsWellFormed t old new now w =
    let w' = reap_expired-IsWellFormed t now w in
    commit-keeps IsWellFormed (reap_expired t now) _ w'
      λ t' r h. rotate_reaped-IsWellFormed (reap_expired t now) old new t' r w' h

-- When `recover_claim` transfers a claim.
pub record Recovers (t : LeaseTable) (e : Entry) (new : TokenId) (ip : IpAddr) : Type 0 where
  pub differ : e.0 ≢ new
  pub absent : get dec_token new t.leases ≡ none
  pub unused : is_retired new t.leases ≡ false
  pub quota : check_ip_quota t ip (charged_to (host_source ip) e.1.last_ip) ≡ ok tt

pub recover_found-eq-ok :
    (t : LeaseTable) (old : TokenId) (l : Lease) (new : TokenId) (ip : IpAddr) (now : ℕ)
    (t' : LeaseTable) (r : RecoveryResult)
    → recover_found t (old, l) new ip now ≡ ok (t', r)
    → ((t' ≡ t) × (old ≡ new) × (r ≡ record { port = l.port; displaced = none; changed = false }))
      ⊎ (Recovers t (old, l) new ip
          × (t' ≡ move_claim t old new (recovered_lease l old ip now))
          × (r ≡ record { port = l.port; displaced = displaced_by old l.status; changed = true }))
unfolding recover_found
recover_found-eq-ok t old l new ip now t' r h = elim (dec_token old new) [
  | yes p ↦ inl (
    ground (arith, holds_of (dec_token old new) p),
    p,
    ground (arith, holds_of (dec_token old new) p),
  )
  | no p ↦ inr (
    record {
      differ = p;
      absent = contains_key-get dec_token new t.leases (ground arith);
      unused = ground arith;
      quota = ground arith;
    },
    ground arith,
    ground arith,
  )
]

cap_retired-drop :
    (ids : List TokenId)
    → length ids ≤ max_retired_identities + 1
    → (n : ℕ) × (cap_retired ids ≡ drop n ids) × (length (drop n ids) ≤ max_retired_identities)
cap_retired-drop ids h = elim (Bool-cases (ltb max_retired_identities (length ids))) [
  | inl e ↦ (1, rw e, omega (arith, length-drop_one ids))
  | inr e ↦ (0, rw e, ground arith)
]
  where
    length-drop_one : (xs : List TokenId) → length (drop 1 xs) ≡ length xs - 1
    length-drop_one [] = omega arith
    length-drop_one (x ∷ xs) = omega arith

recover_found-IsWellFormed :
    (t : LeaseTable) (old : TokenId) (l : Lease) (new : TokenId) (ip : IpAddr) (now : ℕ)
    (t' : LeaseTable) (r : RecoveryResult)
    → IsWellFormed t
    → get dec_token old t.leases ≡ some l
    → recover_found t (old, l) new ip now ≡ ok (t', r)
    → IsWellFormed t'
recover_found-IsWellFormed t old l new ip now t' r w found h =
    elim (recover_found-eq-ok t old l new ip now t' r h) [
      | inl (e, _, _) ↦ rw e w
      | inr (m, e, _) ↦
          let i : IsEntry t.next_session_id (old, l) =
            All-get dec_token (IsEntry t.next_session_id) old t.leases w.entries found in
          let (n, cut, bound) =
            cap_retired-drop (l.retired_token_ids ++ old ∷ [])
              (omega (arith, length-append l.retired_token_ids (old ∷ []), i.capped)) in
          rw e (
            rw cut (
              moved-IsWellFormed t old new l w found m.differ m.absent m.unused n (some ip)
                (saturating_add now grace_ms) bound))
    ]

-- The claim that a recovery key finds.
pub enrolled-get :
    (t : LeaseTable) (r : TokenId) (old : TokenId) (l : Lease)
    → IsWellFormed t
    → enrolled r t.leases ≡ some (old, l)
    → get dec_token old t.leases ≡ some l
enrolled-get t r old l w e = find-get _ t.leases old l w.apart e

recover_reaped-IsWellFormed :
    (t : LeaseTable) (r new : TokenId) (ip : IpAddr) (now : ℕ) (t' : LeaseTable)
    (a : RecoveryResult)
    → IsWellFormed t
    → recover_reaped t r new ip now ≡ ok (t', a)
    → IsWellFormed t'
unfolding recover_reaped
recover_reaped-IsWellFormed t r new ip now t' a w h = elim (Option-cases (enrolled r t.leases)) [
  | inl e ↦ absurd (ground arith)
  | inr ((old, l), e) ↦
      recover_found-IsWellFormed t old l new ip now t' a w (enrolled-get t r old l w e)
        (rw (e, recover_reaped) at h)
]

-- `recover_claim` keeps the table well formed, whether it succeeds or not.
pub recover_claim-IsWellFormed :
    (t : LeaseTable) (r new : TokenId) (ip : IpAddr) (now : ℕ)
    → IsWellFormed t
    → IsWellFormed (recover_claim t r new ip now).0
unfolding recover_claim
recover_claim-IsWellFormed t r new ip now w =
    let w' = reap_expired-IsWellFormed t now w in
    commit-keeps IsWellFormed (reap_expired t now) _ w'
      λ t' a h. recover_reaped-IsWellFormed (reap_expired t now) r new ip now t' a w' h
