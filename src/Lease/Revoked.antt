-- ===== src/Lease/Revoked.antt =====
-- An identity that has lost its claim to another is refused as long as the claim lives.
pub mod Recovered
use gamenet.Base.{
  ℕ, ◌≡◌, refl, sym, ◌≢◌, ◌∙◌, ap, true, false, none, some, List, [], ◌∷◌, ◌++◌, inl, inr, arith,
  holds_of, holds_of_not, ltb, any, contains, length, saturating_add, Result, ok, err, Bool-cases,
  Option-cases, All-find, All,
}
use gamenet.HashMap.{
  HashMap, get, remove, get-insert_self, get-insert_ne, get-remove_self, get-remove_ne,
}
use gamenet.Address.{IpAddr}
use gamenet.Errors.{Error, claim_rotated}
use gamenet.Lease.{
  TokenId, dec_token, SessionId, LeaseStatus, grace, Lease, LeaseTable, Entry, reap_expired,
  is_expired, is_grace, is_recovery, is_retired, candidates, candidate_ports, commit, grace_ms,
  max_retired_identities, end,
}
use gamenet.Lease.Claims.{
  RotationResult, transferred, unchanged, RecoveryResult, retire, move_claim, rotate_reaped,
  rotate_claim, cap_retired, recovered_lease, displaced_by, enrolled, recover_found, recover_reaped,
  recover_claim,
}
use gamenet.Lease.WellFormed.{IsWellFormed}
use gamenet.Lease.WellFormed.Facts.{reap_expired-IsWellFormed}
use gamenet.Lease.WellFormed.Move.{Rotates, rotate_reaped-eq-ok, recover_found-eq-ok, enrolled-get}
use gamenet.Lease.Reserved.{get-reap_expired}

is_retired_of :
    (x k : TokenId) (m : HashMap TokenId Lease) (l : Lease)
    → get dec_token k m ≡ some l
    → contains dec_token l.retired_token_ids x ≡ true
    → is_retired x m ≡ true
unfolding get any
is_retired_of x k [] l h c = cc
is_retired_of x k (e ∷ m) l h c = elim (dec_token e.0 k) [
  | yes q ↦ let same : e.1 ≡ l = ground (arith, holds_of (dec_token e.0 k) q) in rw same (rw c refl)
  | no q ↦
      ground (arith, is_retired_of x k m l (ground (arith, holds_of_not (dec_token e.0 k) q)) c)
]

contains-snoc : (x : TokenId) (xs : List TokenId) → contains dec_token (xs ++ x ∷ []) x ≡ true
unfolding contains
contains-snoc x [] = rw (holds_of (dec_token x x) refl)
contains-snoc x (y ∷ ys) = ground (arith, contains-snoc x ys)

-- The identity that is retired last stays in the capped history.
pub contains-cap_retired :
    (x : TokenId) (xs : List TokenId) → contains dec_token (cap_retired (xs ++ x ∷ [])) x ≡ true
contains-cap_retired x [] = contains-snoc x []
contains-cap_retired x (y ∷ ys) =
    elim (Bool-cases (ltb max_retired_identities (length (y ∷ ys ++ x ∷ [])))) [
      | inl e ↦ rw e (contains-snoc x ys)
      | inr e ↦ rw e (contains-snoc x (y ∷ ys))
    ]

-- The identity is refused a port until the claim of `k` expires.
abbrev pub IsRefused : LeaseTable → TokenId → LeaseStatus → Type 0
IsRefused t old status =
    (later : ℕ) (ip : IpAddr)
    → is_expired later status ≡ false
    → (candidate_ports t old ip later).1 ≡ err claim_rotated

pub get-IsRefused :
    (t : LeaseTable) (old k : TokenId) (l : Lease)
    → get dec_token k t.leases ≡ some l
    → contains dec_token l.retired_token_ids old ≡ true
    → IsRefused t old l.status
unfolding candidate_ports candidates
get-IsRefused t old k l h c later ip live =
    rw (is_retired_of old k (reap_expired t later).leases l (get-reap_expired t later k l h live) c)

-- What a rotation makes of the table `t`, from which the expired leases are gone: the claim of the
-- old identity, in grace, is the new one's with all that belongs to it, and the old identity has
-- none; every other identity has what it had. As long as the claim lives, the old identity is
-- refused, and the same rotation is answered with the port; the end of a session of the old identity
-- changes nothing.
pub record IsMoved (t t' : LeaseTable) (old new : TokenId) (port : ℕ) : Type 0 where
  pub lease : Lease
  pub owned : get dec_token old t.leases ≡ some lease
  pub away : is_grace lease.status ≡ true
  pub free : get dec_token new t.leases ≡ none
  pub kept_port : lease.port ≡ port
  pub found : get dec_token new t'.leases ≡ some (retire lease old)
  pub gone : get dec_token old t'.leases ≡ none
  pub others :
      (k : TokenId) → k ≢ old → k ≢ new → get dec_token k t'.leases ≡ get dec_token k t.leases
  pub refused : IsRefused t' old lease.status
  pub stale : (s : SessionId) (later : ℕ) → end t' old s later ≡ (t', false)
  pub again :
      (later : ℕ)
      → is_expired later lease.status ≡ false
      → (rotate_claim t' old new later).1 ≡ ok (unchanged (some port))

pub end-absent :
    (t : LeaseTable) (old : TokenId) (s : SessionId) (later : ℕ)
    → get dec_token old t.leases ≡ none
    → end t old s later ≡ (t, false)
unfolding end
end-absent t old s later h = rw (h, end)

pub move_claim-get :
    (t : LeaseTable) (old new : TokenId) (l : Lease)
    → get dec_token new (move_claim t old new l).leases ≡ some l
move_claim-get t old new l = get-insert_self dec_token new l (remove dec_token old t.leases)

rotate-again :
    (t : LeaseTable) (old new : TokenId) (l : Lease) (later : ℕ)
    → old ≢ new
    → get dec_token new t.leases ≡ some l
    → contains dec_token l.retired_token_ids old ≡ true
    → is_expired later l.status ≡ false
    → (rotate_claim t old new later).1 ≡ ok (unchanged (some l.port))
unfolding rotate_claim rotate_reaped
rotate-again t old new l later n h c live =
    rw (holds_of_not (dec_token old new) n, get-reap_expired t later new l h live, c)

pub move_claim-get_old :
    (t : LeaseTable) (old new : TokenId) (l : Lease)
    → old ≢ new
    → get dec_token old (move_claim t old new l).leases ≡ none
move_claim-get_old t old new l differ =
    get-insert_ne dec_token new old l (remove dec_token old t.leases) (λ z. differ (sym z))
    ∙ get-remove_self dec_token old t.leases

move_claim-get_other :
    (t : LeaseTable) (old new : TokenId) (l : Lease) (k : TokenId)
    → k ≢ old
    → k ≢ new
    → get dec_token k (move_claim t old new l).leases ≡ get dec_token k t.leases
move_claim-get_other t old new l k a b =
    get-insert_ne dec_token new k l (remove dec_token old t.leases) (λ z. b (sym z))
    ∙ get-remove_ne dec_token old k t.leases (λ z. a (sym z))

Rotates-IsMoved :
    (t : LeaseTable) (old new : TokenId) (l : Lease)
    → Rotates t old new l
    → IsMoved t (move_claim t old new (retire l old)) old new l.port
Rotates-IsMoved t old new l m =
    let after = move_claim t old new (retire l old) in
    let found = move_claim-get t old new (retire l old) in
    let gone = move_claim-get_old t old new (retire l old) m.differ in
    let c = contains-snoc old l.retired_token_ids in
    record {
      lease = l;
      owned = m.found;
      away = m.idle;
      free = m.absent;
      kept_port = refl;
      found = found;
      gone = gone;
      others = move_claim-get_other t old new (retire l old);
      refused = get-IsRefused after old new (retire l old) found c;
      stale = λ s later. end-absent after old s later gone;
      again = λ later live. rotate-again after old new (retire l old) later m.differ found c live;
    }

-- A rotation that transfers a claim takes it from the old identity, which owned it and was away, and
-- gives it, on its port and with its address, its recovery key and its expiry, to the new identity;
-- the claims of all others are as before. As long as the claim has not expired, the old identity is
-- refused every port, and to ask for the same rotation again is answered with the port, as
-- unchanged. No session of the old identity can end the claim any more.
pub rotate_claim-IsMoved :
    (t : LeaseTable) (old new : TokenId) (now : ℕ) (t' : LeaseTable) (port : ℕ)
    → rotate_claim t old new now ≡ (t', ok (transferred port))
    → IsMoved (reap_expired t now) t' old new port
unfolding rotate_claim
rotate_claim-IsMoved t old new now t' port h =
    go (rotate_reaped (reap_expired t now) old new) refl h
  where
    go :
        (a : Result Error (LeaseTable × RotationResult))
        → rotate_reaped (reap_expired t now) old new ≡ a
        → commit (reap_expired t now) a ≡ (t', ok (transferred port))
        → IsMoved (reap_expired t now) t' old new port
    go (err e) d k = absurd (ground arith)
    go (ok (t₁, r₁)) d k = elim (rotate_reaped-eq-ok (reap_expired t now) old new t₁ r₁ d) [
      | inl (_, p, e) ↦ absurd (ground arith)
      | inr (l, m, made, e) ↦
          let there : t' ≡ move_claim (reap_expired t now) old new (retire l old) = ground arith in
          let at : l.port ≡ port = ground arith in
          rw (there, ← at) (Rotates-IsMoved (reap_expired t now) old new l m)
    ]
