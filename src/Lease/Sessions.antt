-- ===== src/Lease/Sessions.antt =====
-- crates/server/src/lease.rs: only an activation starts a session, and `end` leaves none of it.
pub mod Restored
use gamenet.Base.{
  ℕ, ◌≡◌, refl, sym, ap, subst, ◌∙◌, ◌≢◌, Bool, true, false, not, Option, none, some, List, inl,
  inr, arith, if◌then◌else◌, All-zip, [], ◌∷◌, holds_of, holds_of_not, All, All-weaken, All-filter,
  Pairwise, Result, ok, err, saturating_add, Option-cases, Bool-cases,
}
use gamenet.HashMap.{HashMap, get, insert, remove, remove_ne, All-remove, All-get}
use gamenet.Address.{IpAddr}
use gamenet.Errors.{Error}
use gamenet.Lease.{
  TokenId, dec_token, SessionId, LeaseStatus, active, grace, Lease, LeaseTable, Entry, reap_expired,
  is_expired, is_grace, runs_session, activate_reaped, activate_with_recovery, commit, end,
  grace_ms,
}
use gamenet.Lease.Claims.{
  RotationResult, RecoveryResult, rotate_reaped, rotate_claim, move_claim, retire, recovered_lease,
  enrolled, recover_found, recover_reaped, recover_claim,
}
use gamenet.Lease.WellFormed.{Apart, IsWellFormed}
use gamenet.Lease.WellFormed.Activate.{activate_reaped-eq-ok, activated}
use gamenet.Lease.WellFormed.Move.{rotate_reaped-eq-ok, recover_found-eq-ok}
use gamenet.Lease.Live.{IsLive}

module _ {κ} (Q : TokenId → SessionId → Type κ) where
  abbrev pub Owned : TokenId → LeaseStatus → Type κ
  Owned k (active s) = Q k s
  Owned k (grace t) = Unit

  -- Every session that runs satisfies `Q`.
  abbrev pub RunsOnly : LeaseTable → Type κ
  RunsOnly t = All (λ e. Owned e.0 e.1.status) t.leases

  pub RunsOnly-IsLive :
      (t : LeaseTable) (k : TokenId) (s : SessionId) → RunsOnly t → IsLive t k s → Q k s
  RunsOnly-IsLive t k s h live =
      subst (Owned k) live.running
        (All-get dec_token (λ e. Owned e.0 e.1.status) k t.leases h live.found)

  Owned-idle : (k : TokenId) (l : Lease) → is_grace l.status ≡ true → Owned k l.status
  Owned-idle k l h = go l.status h
    where
      go : (st : LeaseStatus) → is_grace st ≡ true → Owned k st
      go (active s) e = absurd (ground arith)
      go (grace t) e = tt

  pub reap_expired-RunsOnly :
      (t : LeaseTable) (now : ℕ) → RunsOnly t → RunsOnly (reap_expired t now)
  unfolding reap_expired
  reap_expired-RunsOnly t now h = All-filter _ (λ e. not (is_expired now e.1.status)) t.leases h

  pub insert-Owned :
      (k : TokenId) (l : Lease) (m : HashMap TokenId Lease)
      → Owned k l.status
      → All (λ e. Owned e.0 e.1.status) m
      → All (λ e. Owned e.0 e.1.status) (insert dec_token k l m)
  unfolding insert
  insert-Owned k l m o h = (o, All-remove dec_token (λ e. Owned e.0 e.1.status) k m h)

  move_claim-RunsOnly :
      (t : LeaseTable) (old new : TokenId) (l : Lease)
      → Owned new l.status
      → RunsOnly t
      → RunsOnly (move_claim t old new l)
  move_claim-RunsOnly t old new l o h =
      insert-Owned new l (remove dec_token old t.leases) o
        (All-remove dec_token (λ e. Owned e.0 e.1.status) old t.leases h)

  -- What an operation on a reaped table commits.
  commit-RunsOnly :
      {A : Type 0} (t : LeaseTable) (r : Result Error (LeaseTable × A))
      → RunsOnly t
      → ((t' : LeaseTable) (a : A) → r ≡ ok (t', a) → RunsOnly t')
      → RunsOnly (commit t r).0
  commit-RunsOnly t (err e) h f = h
  commit-RunsOnly t (ok (t', a)) h f = f t' a refl

  pub activate-RunsOnly :
      (t : LeaseTable) (token : TokenId) (r : Option TokenId) (ip : IpAddr) (port now : ℕ)
      (t' : LeaseTable) (s : SessionId)
      → activate_with_recovery t token r ip port now ≡ (t', ok s)
      → Q token s
      → RunsOnly t
      → RunsOnly t'
  unfolding activate_with_recovery
  activate-RunsOnly t token r ip port now t' s q own h =
      go (activate_reaped (reap_expired t now) token r ip port) refl q
    where
      reaped : LeaseTable
      reaped = reap_expired t now

      go :
          (a : Result Error (LeaseTable × SessionId))
          → activate_reaped reaped token r ip port ≡ a
          → commit reaped a ≡ (t', ok s)
          → RunsOnly t'
      go (err e) d k = absurd (ground arith)
      go (ok (t₁, s₁)) d k =
          let same : t₁ ≡ t' = ground arith in
          let said : s₁ ≡ s = ground arith in
          let (ports, _, _, _, _, _, made) = activate_reaped-eq-ok reaped token r ip port t₁ s₁ d in
          let lease = activated (get dec_token token reaped.leases) r ip port s₁ in
          rw (← same, made)
            (insert-Owned token lease reaped.leases (rw said own) (reap_expired-RunsOnly t now h))

  pub rotate_claim-RunsOnly :
      (t : LeaseTable) (old new : TokenId) (now : ℕ)
      → RunsOnly t
      → RunsOnly (rotate_claim t old new now).0
  unfolding rotate_claim
  rotate_claim-RunsOnly t old new now h =
      let reaped = reap_expired t now in
      let h' = reap_expired-RunsOnly t now h in
      commit-RunsOnly reaped (rotate_reaped reaped old new) h' λ t' r d.
        elim (rotate_reaped-eq-ok reaped old new t' r d) [
          | inl (same, _, _) ↦ rw same h'
          | inr (l, m, made, _) ↦
              rw made
                (move_claim-RunsOnly reaped old new (retire l old) (Owned-idle new l m.idle) h')
        ]

  pub recover_claim-RunsOnly :
      (t : LeaseTable) (key new : TokenId) (ip : IpAddr) (now : ℕ)
      → RunsOnly t
      → RunsOnly (recover_claim t key new ip now).0
  unfolding recover_claim recover_reaped
  recover_claim-RunsOnly t key new ip now h =
      commit-RunsOnly reaped (recover_reaped reaped key new ip now) h' λ t' r d.
        elim (Option-cases (enrolled key reaped.leases)) [
          | inl e ↦ absurd (let q = rw (e, recover_reaped) at d in ground arith)
          | inr ((old, l), e) ↦ found t' r old l (rw (e, recover_reaped) at d)
        ]
    where
      reaped : LeaseTable
      reaped = reap_expired t now

      h' : RunsOnly reaped
      h' = reap_expired-RunsOnly t now h

      found :
          (t' : LeaseTable) (r : RecoveryResult) (old : TokenId) (l : Lease)
          → recover_found reaped (old, l) new ip now ≡ ok (t', r)
          → RunsOnly t'
      found t' r old l d = elim (recover_found-eq-ok reaped old l new ip now t' r d) [
        | inl (same, _, _) ↦ rw same h'
        | inr (_, made, _) ↦
            rw made (move_claim-RunsOnly reaped old new (recovered_lease l old ip now) tt h')
      ]

-- In a map without repeated keys each entry is the one that its key finds.
Found : HashMap TokenId Lease → Entry → Type 0
Found m e = get dec_token e.0 m ≡ some e.1

Found-cons : (e x : Entry) (m : HashMap TokenId Lease) → x.0 ≢ e.0 → Found m x → Found (e ∷ m) x
unfolding Found get
Found-cons e x m n h = rw (holds_of_not (dec_token e.0 x.0) (λ z. n (sym z))) h

entries-Found : (m : HashMap TokenId Lease) → Pairwise Apart m → All (Found m) m
unfolding Found get
entries-Found [] p = tt
entries-Found (e ∷ m) p = (
  rw (holds_of (dec_token e.0 e.0) refl) refl,
  All-zip (Apart e) (Found m) (Found (e ∷ m)) m (λ x a f. Found-cons e x m a.key f) p.0
      (entries-Found m p.1),
)

module _ {κ} (Q Q' : TokenId → SessionId → Type κ) (token : TokenId) (s : SessionId)
    (others : (k : TokenId) (s' : SessionId) → ¬ ((k ≡ token) × (s' ≡ s)) → Q k s' → Q' k s') where
  Owned-other :
      (k : TokenId) (st : LeaseStatus)
      → (k ≡ token → runs_session s st ≡ false)
      → Owned Q k st
      → Owned Q' k st
  Owned-other k (active s') n h =
      others k s' (λ (same, here). let e = n same in ground (arith, here)) h
  Owned-other k (grace t) n h = tt

  -- `end` leaves nothing of the session.
  pub end-RunsOnly :
      (t : LeaseTable) (now : ℕ) → IsWellFormed t → RunsOnly Q t → RunsOnly Q' (end t token s now).0
  unfolding end
  end-RunsOnly t now w h = go (get dec_token token t.leases) refl
    where
      -- No entry of the identity runs the session.
      idle :
          ((l : Lease) → get dec_token token t.leases ≡ some l → runs_session s l.status ≡ false)
          → RunsOnly Q' t
      idle n =
          All-zip (Found t.leases) (λ e. Owned Q e.0 e.1.status) (λ e. Owned Q' e.0 e.1.status)
            t.leases
            (λ e f o.
              Owned-other e.0 e.1.status
                (λ z. n e.1 (ap (λ k. get dec_token k t.leases) (sym z) ∙ unfold Found in f)) o)
            (entries-Found t.leases w.apart) h

      stopped : Lease → Lease
      stopped l = record l { status = grace (saturating_add now grace_ms) }

      left : Bool → Lease → LeaseTable × Bool
      left b l =
          if b
          then (record t { leases = insert dec_token token (stopped l) t.leases }, true)
          else (t, false)

      ends :
          (l : Lease) (b : Bool)
          → get dec_token token t.leases ≡ some l
          → runs_session s l.status ≡ b
          → RunsOnly Q' (left b l).0
      ends l true e b =
          unfold insert in
          (
            tt,
            All-zip (λ e. e.0 ≢ token) (λ e. Owned Q e.0 e.1.status) (λ e. Owned Q' e.0 e.1.status)
                (remove dec_token token t.leases)
                (λ e n o. Owned-other e.0 e.1.status (λ z. absurd (n z)) o)
                (remove_ne dec_token token t.leases)
                (All-remove dec_token (λ e. Owned Q e.0 e.1.status) token t.leases h),
          )
      ends l false e b = idle λ l' e'.
          let q : some l ≡ some l' = sym e ∙ e' in
          let same : l ≡ l' = ground (arith, q) in
          ap (λ (x : Lease). runs_session s x.status) (sym same) ∙ b

      go : (o : Option Lease) → get dec_token token t.leases ≡ o → RunsOnly Q' (end t token s now).0
      go none e =
          rw (e, end) (idle λ l e'. let q : none ≡ some l = sym e ∙ e' in absurd (ground arith))
      go (some l) e = rw (e, end) (ends l (runs_session s l.status) e refl)
