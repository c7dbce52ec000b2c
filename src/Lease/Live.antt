-- ===== src/Lease/Live.antt =====
-- A session that runs goes on through every operation but its own end and its recovery:
-- crates/server/src/lease.rs.
pub mod Moved
use gamenet.Base.{
  ℕ, ◌≡◌, refl, sym, ap, subst, saturating_add, ◌∙◌, ◌≢◌, Bool, true, false, Option, none, some,
  inl, inr, arith, if◌then◌else◌, Option-cases, Result, ok, err,
}
use gamenet.HashMap.{get, insert, remove, get-insert_self, get-insert_ne, get-remove_ne}
use gamenet.Address.{IpAddr}
use gamenet.Errors.{Error}
use gamenet.Lease.{
  TokenId, dec_token, SessionId, active, grace, Lease, LeaseTable, reap_expired, is_grace,
  runs_session, activate_reaped, activate_with_recovery, commit, end, grace_ms,
}
use gamenet.Lease.Claims.{
  RotationResult, RecoveryResult, rotate_reaped, rotate_claim, move_claim, retire, recovered_lease,
  displaced_by, enrolled, recover_found, recover_reaped, recover_claim,
}
use gamenet.Lease.WellFormed.{IsWellFormed}
use gamenet.Lease.WellFormed.Facts.{reap_expired-IsWellFormed}
use gamenet.Lease.WellFormed.Activate.{candidates-eq-ok, activate_reaped-eq-ok, activated}
use gamenet.Lease.WellFormed.Move.{rotate_reaped-eq-ok, recover_found-eq-ok, enrolled-get}
use gamenet.Lease.Reserved.{get-reap_expired}

-- The identity's session runs.
pub record IsLive (t : LeaseTable) (k : TokenId) (s : SessionId) : Type 0 where
  pub lease : Lease
  pub found : get dec_token k t.leases ≡ some lease
  pub running : lease.status ≡ active s

pub reap_expired-IsLive :
    (t : LeaseTable) (now : ℕ) (k : TokenId) (s : SessionId)
    → IsLive t k s
    → IsLive (reap_expired t now) k s
reap_expired-IsLive t now k s h = record {
  lease = h.lease;
  found = get-reap_expired t now k h.lease h.found (rw h.running refl);
  running = h.running;
}

-- An identity whose session runs is refused another one.
pub not_idle :
    (t : LeaseTable) (k : TokenId) (s : SessionId) (l : Lease)
    → IsLive t k s
    → get dec_token k t.leases ≡ some l
    → is_grace l.status ≡ true
    → ⊥
not_idle t k s l h found idle =
    let same : h.lease ≡ l = ground (arith, h.found) in
    let status : l.status ≡ active s = ap (λ (x : Lease). x.status) (sym same) ∙ h.running in
    let k : false ≡ true = sym (ap is_grace status) ∙ idle in cc

-- What an activation that is committed has done to the sessions.
pub record IsActivated (t t' : LeaseTable) (token : TokenId) (s : SessionId) : Type 0 where
  pub own : IsLive t' token s
  pub idle : (s' : SessionId) → ¬ IsLive t token s'
  pub others : (k : TokenId) (s' : SessionId) → k ≢ token → IsLive t k s' → IsLive t' k s'

activate_reaped-IsActivated :
    (t : LeaseTable) (token : TokenId) (r : Option TokenId) (ip : IpAddr) (port : ℕ)
    (t' : LeaseTable) (s : SessionId)
    → activate_reaped t token r ip port ≡ ok (t', s)
    → IsActivated t t' token s
activate_reaped-IsActivated t token r ip port t' s h =
    let (ports, c, _, _, _, _, made) = activate_reaped-eq-ok t token r ip port t' s h in
    let lease = activated (get dec_token token t.leases) r ip port s in
    rw made (record {
      own = record {
        lease = lease;
        found = get-insert_self dec_token token lease t.leases;
        running = refl;
      };
      idle = λ s' live. elim (candidates-eq-ok t token ip ports c).1 [
        | inl (l, found, idle, _, _) ↦ not_idle t token s' l live found idle
        | inr (absent, _, _) ↦ let k : none ≡ some live.lease = sym absent ∙ live.found in cc
      ];
      others = λ k s' n live. record {
        lease = live.lease;
        found = get-insert_ne dec_token token k lease t.leases (λ e. n (sym e)) ∙ live.found;
        running = live.running;
      };
    })

pub activate_with_recovery-IsActivated :
    (t : LeaseTable) (token : TokenId) (r : Option TokenId) (ip : IpAddr) (port now : ℕ)
    (t' : LeaseTable) (s : SessionId)
    → activate_with_recovery t token r ip port now ≡ (t', ok s)
    → IsActivated (reap_expired t now) t' token s
unfolding activate_with_recovery
activate_with_recovery-IsActivated t token r ip port now t' s h =
    go (activate_reaped (reap_expired t now) token r ip port) refl h
  where
    go :
        (a : Result Error (LeaseTable × SessionId))
        → activate_reaped (reap_expired t now) token r ip port ≡ a
        → commit (reap_expired t now) a ≡ (t', ok s)
        → IsActivated (reap_expired t now) t' token s
    go (err e) d k = absurd (ground arith)
    go (ok (t₁, s₁)) d k =
        let same : t₁ ≡ t' = ground arith in
        let said : s₁ ≡ s = ground arith in
        activate_reaped-IsActivated (reap_expired t now) token r ip port t' s (rw (same, said) at d)

-- The end of another session changes nothing for this one.
pub end-IsLive :
    (t : LeaseTable) (token k : TokenId) (s s' : SessionId) (now : ℕ)
    → ¬ ((k ≡ token) × (s' ≡ s))
    → IsLive t k s'
    → IsLive (end t token s now).0 k s'
unfolding end
end-IsLive t token k s s' now n live = go (get dec_token token t.leases) refl
  where
    stopped : Lease → Lease
    stopped l = record l { status = grace (saturating_add now grace_ms) }

    left : Bool → Lease → LeaseTable × Bool
    left b l =
        if b
        then (record t { leases = insert dec_token token (stopped l) t.leases }, true)
        else (t, false)

    other :
        (l : Lease)
        → get dec_token token t.leases ≡ some l
        → runs_session s l.status ≡ true
        → token ≢ k
    other l e b z =
        let q : some l ≡ some live.lease =
          sym e ∙ ap (λ x. get dec_token x t.leases) z ∙ live.found in
        let same : l ≡ live.lease = ground (arith, q) in
        let status : l.status ≡ active s' = ap (λ (x : Lease). x.status) same ∙ live.running in
        n (sym z, ground (arith, rw status at b))

    ends :
        (l : Lease) (b : Bool)
        → get dec_token token t.leases ≡ some l
        → runs_session s l.status ≡ b
        → IsLive (left b l).0 k s'
    ends l true e b = record {
      lease = live.lease;
      found = get-insert_ne dec_token token k (stopped l) t.leases (other l e b) ∙ live.found;
      running = live.running;
    }
    ends l false e b = live

    go : (o : Option Lease) → get dec_token token t.leases ≡ o → IsLive (end t token s now).0 k s'
    go none e = rw (e, end) live
    go (some l) e = rw (e, end) (ends l (runs_session s l.status) e refl)
