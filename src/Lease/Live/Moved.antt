-- ===== src/Lease/Live/Moved.antt =====
-- A session that runs goes on when another claim moves: crates/server/src/lease.rs.
use gamenet.Base.{
  ℕ, ◌≡◌, refl, sym, ap, subst, ◌∙◌, ◌≢◌, none, some, inl, inr, arith, Option-cases, Result, ok,
  err,
}
use gamenet.HashMap.{get, remove, get-insert_ne, get-remove_ne}
use gamenet.Address.{IpAddr}
use gamenet.Errors.{Error}
use gamenet.Lease.{TokenId, dec_token, SessionId, active, Lease, LeaseTable, reap_expired, commit}
use gamenet.Lease.Claims.{
  RotationResult, RecoveryResult, rotate_reaped, rotate_claim, move_claim, retire, recovered_lease,
  displaced_by, enrolled, recover_found, recover_reaped, recover_claim,
}
use gamenet.Lease.WellFormed.{IsWellFormed}
use gamenet.Lease.WellFormed.Facts.{reap_expired-IsWellFormed}
use gamenet.Lease.WellFormed.Move.{rotate_reaped-eq-ok, recover_found-eq-ok, enrolled-get}
use gamenet.Lease.Live.{not_idle, IsLive}

move_claim-IsLive :
    (t : LeaseTable) (old new k : TokenId) (l : Lease) (s : SessionId)
    → k ≢ old
    → get dec_token new t.leases ≡ none
    → IsLive t k s
    → IsLive (move_claim t old new l) k s
move_claim-IsLive t old new k l s n absent live =
    let other : new ≢ k = λ e.
      let q : none ≡ some live.lease =
        sym absent ∙ ap (λ x. get dec_token x t.leases) e ∙ live.found in
      cc in
    record {
      lease = live.lease;
      found =
          get-insert_ne dec_token new k l (remove dec_token old t.leases) other
          ∙ get-remove_ne dec_token old k t.leases (λ e. n (sym e))
          ∙ live.found;
      running = live.running;
    }

-- A rotation stops no session.
pub rotate_claim-IsLive :
    (t : LeaseTable) (old new : TokenId) (now : ℕ) (t' : LeaseTable) (r : RotationResult)
    (k : TokenId) (s : SessionId)
    → rotate_claim t old new now ≡ (t', ok r)
    → IsLive (reap_expired t now) k s
    → IsLive t' k s
unfolding rotate_claim
rotate_claim-IsLive t old new now t' r k s h live =
    go (rotate_reaped (reap_expired t now) old new) refl h
  where
    go :
        (a : Result Error (LeaseTable × RotationResult))
        → rotate_reaped (reap_expired t now) old new ≡ a
        → commit (reap_expired t now) a ≡ (t', ok r)
        → IsLive t' k s
    go (err e) d q = absurd (ground arith)
    go (ok (t₁, r₁)) d q =
        let same : t₁ ≡ t' = ground arith in
        elim (rotate_reaped-eq-ok (reap_expired t now) old new t₁ r₁ d) [
          | inl (e, _, _) ↦ rw (← same, e) live
          | inr (l, m, made, _) ↦
              rw (← same, made)
                (move_claim-IsLive (reap_expired t now) old new k (retire l old) s
                  (λ e.
                    not_idle (reap_expired t now) old s l
                      (subst (λ x. IsLive (reap_expired t now) x s) e live) m.found m.idle)
                  m.absent live)
        ]

-- A recovery stops at most the session that it displaces.
pub recover_claim-IsLive :
    (t : LeaseTable) (key new : TokenId) (ip : IpAddr) (now : ℕ) (t' : LeaseTable)
    (r : RecoveryResult) (k : TokenId) (s : SessionId)
    → IsWellFormed t
    → recover_claim t key new ip now ≡ (t', ok r)
    → r.displaced ≢ some (k, s)
    → IsLive (reap_expired t now) k s
    → IsLive t' k s
unfolding recover_claim recover_reaped
recover_claim-IsLive t key new ip now t' r k s w h n live =
    elim (Option-cases (enrolled key (reap_expired t now).leases)) [
      | inl e ↦ absurd (no_answer (rw (e, recover_reaped) at h))
      | inr ((old, l), e) ↦
          go old l e (recover_found (reap_expired t now) (old, l) new ip now) refl
            (rw (e, recover_reaped) at h)
    ]
  where
    no_answer :
        {e : Error}
        → ¬ (
            ◌≡◌ {A = LeaseTable × Result Error RecoveryResult}
              (reap_expired t now, err e)
              (t', ok r))
    no_answer z = ground arith

    displaces :
        (old : TokenId) (l : Lease)
        → get dec_token old (reap_expired t now).leases ≡ some l
        → k ≡ old
        → displaced_by old l.status ≡ some (k, s)
    displaces old l found e =
        let q : some live.lease ≡ some l =
          sym live.found ∙ ap (λ x. get dec_token x (reap_expired t now).leases) e ∙ found in
        let same : live.lease ≡ l = ground (arith, q) in
        let status : l.status ≡ active s = ap (λ (x : Lease). x.status) (sym same) ∙ live.running in
        rw status (ap (λ x. some (x, s)) (sym e))

    go :
        (old : TokenId) (l : Lease)
        → enrolled key (reap_expired t now).leases ≡ some (old, l)
        → (a : Result Error (LeaseTable × RecoveryResult))
        → recover_found (reap_expired t now) (old, l) new ip now ≡ a
        → commit (reap_expired t now) a ≡ (t', ok r)
        → IsLive t' k s
    go old l e (err x) d q = absurd (no_answer q)
    go old l e (ok (t₁, r₁)) d q =
        let same : t₁ ≡ t' = ground arith in
        let said : r₁ ≡ r = ground arith in
        let found =
          enrolled-get (reap_expired t now) key old l (reap_expired-IsWellFormed t now w) e in
        elim (recover_found-eq-ok (reap_expired t now) old l new ip now t₁ r₁ d) [
          | inl (made, _, _) ↦ rw (← same, made) live
          | inr (m, made, answer) ↦
              let displaced : r.displaced ≡ displaced_by old l.status =
                ap (λ (x : RecoveryResult). x.displaced) (sym said ∙ answer) in
              rw (← same, made)
                (move_claim-IsLive (reap_expired t now) old new k (recovered_lease l old ip now) s
                  (λ z. n (displaced ∙ displaces old l found z)) m.absent live)
        ]
