-- ===== src/Lease/Promised.antt =====
-- A claim stays as it is while other hosts call: crates/server/src/lease.rs.
use gamenet.Base.{
  ℕ, ◌≡◌, refl, sym, ap, ◌∙◌, ◌≢◌, Bool, true, false, Option, none, some, [], ◌∷◌, ◌⊎◌, inl, inr,
  arith, if◌then◌else◌, find, Bool-cases, saturating_add,
}
use gamenet.HashMap.{HashMap, get, insert, remove, get-insert_ne, get-remove_ne}
use gamenet.Address.{IpAddr}
use gamenet.Lease.{
  TokenId, dec_token, SessionId, grace, grace_ms, Lease, LeaseTable, Entry, reap_expired,
  is_expired, is_recovery, runs_session, candidate_ports, activate_reaped, activate_with_recovery,
  end,
}
use gamenet.Lease.Claims.{
  rotate_reaped, rotate_claim, move_claim, retire, recovered_lease, enrolled, recover_found,
  recover_reaped, recover_claim,
}
use gamenet.Lease.WellFormed.{IsWellFormed}
use gamenet.Lease.WellFormed.Facts.{commit-keeps, reap_expired-IsWellFormed}
use gamenet.Lease.WellFormed.Activate.{activate_reaped-eq-ok, activated}
use gamenet.Lease.WellFormed.Move.{rotate_reaped-eq-ok, recover_found-eq-ok, enrolled-get}
use gamenet.Lease.Reserved.{get-reap_expired}
use gamenet.Lease.Runs.{Call, reaps, asks, activates, ends, rotates, recovers, step}

-- The call is not one of the owner of this claim, nor a recovery with its key, nor the end of its
-- session, and it comes before the claim expires.
abbrev pub IsOther : TokenId → Lease → Call → Type 0
IsOther owner l (reaps now) = is_expired now l.status ≡ false
IsOther owner l (asks token ip now) = is_expired now l.status ≡ false
IsOther owner l (activates token r ip port now) =
    (token ≢ owner) × (is_expired now l.status ≡ false)
IsOther owner l (ends token s now) = (token ≢ owner) ⊎ (runs_session s l.status ≡ false)
IsOther owner l (rotates old new now) = (old ≢ owner) × (is_expired now l.status ≡ false)
IsOther owner l (recovers r new ip now) =
    (is_recovery r l.recovery_id ≡ false) × (is_expired now l.status ≡ false)

module _ (owner : TokenId) (l : Lease) where
  -- The table holds the claim.
  abbrev pub HasClaim : LeaseTable → Type 0
  HasClaim t = get dec_token owner t.leases ≡ some l

  get-move_claim :
      (t : LeaseTable) (old new : TokenId) (l' : Lease)
      → old ≢ owner
      → get dec_token new t.leases ≡ none
      → HasClaim t
      → HasClaim (move_claim t old new l')
  get-move_claim t old new l' n absent h =
      let other : new ≢ owner =
        λ e. let q : none ≡ some l = sym absent ∙ ap (λ x. get dec_token x t.leases) e ∙ h in cc in
      get-insert_ne dec_token new owner l' (remove dec_token old t.leases) other
      ∙ get-remove_ne dec_token old owner t.leases n
      ∙ h

  activate-HasClaim :
      (t : LeaseTable) (token : TokenId) (r : Option TokenId) (ip : IpAddr) (port now : ℕ)
      → token ≢ owner
      → HasClaim (reap_expired t now)
      → HasClaim (activate_with_recovery t token r ip port now).0
  unfolding activate_with_recovery
  activate-HasClaim t token r ip port now n h =
      let t₁ = reap_expired t now in
      commit-keeps HasClaim t₁ (activate_reaped t₁ token r ip port) h λ t' s q.
        let (_, _, _, _, _, _, made) = activate_reaped-eq-ok t₁ token r ip port t' s q in
        let lease = activated (get dec_token token t₁.leases) r ip port s in
        rw made (get-insert_ne dec_token token owner lease t₁.leases n ∙ h)

  end-HasClaim :
      (t : LeaseTable) (token : TokenId) (s : SessionId) (now : ℕ)
      → (token ≢ owner) ⊎ (runs_session s l.status ≡ false)
      → HasClaim t
      → HasClaim (end t token s now).0
  unfolding end
  end-HasClaim t token s now n h = elim (dec_token token owner) [
    | yes e ↦ at_owner e n
    | no d ↦ go d (get dec_token token t.leases) refl
  ]
    where
      stopped : Lease → Lease
      stopped l' = record l' { status = grace (saturating_add now grace_ms) }

      either : Bool → Lease → LeaseTable × Bool
      either b l' =
          if b
          then (record t { leases = insert dec_token token (stopped l') t.leases }, true)
          else (t, false)

      left : (l' : Lease) (b : Bool) → token ≢ owner → HasClaim (either b l').0
      left l' true d = get-insert_ne dec_token token owner (stopped l') t.leases d ∙ h
      left l' false d = h

      go :
          token ≢ owner
          → (o : Option Lease) → get dec_token token t.leases ≡ o
          → HasClaim (end t token s now).0
      go d none e = rw (e, end) h
      go d (some l') e = rw (e, end) (left l' (runs_session s l'.status) d)

      at_owner :
          token ≡ owner
          → (token ≢ owner) ⊎ (runs_session s l.status ≡ false)
          → HasClaim (end t token s now).0
      at_owner e (inl d) = absurd (d e)
      at_owner e (inr idle) =
          let found : get dec_token token t.leases ≡ some l =
            ap (λ x. get dec_token x t.leases) e ∙ h in
          rw (found, end) (rw idle h)

  rotate_claim-HasClaim :
      (t : LeaseTable) (old new : TokenId) (now : ℕ)
      → old ≢ owner
      → HasClaim (reap_expired t now)
      → HasClaim (rotate_claim t old new now).0
  unfolding rotate_claim
  rotate_claim-HasClaim t old new now n h =
      let t₁ = reap_expired t now in
      commit-keeps HasClaim t₁ (rotate_reaped t₁ old new) h λ t' r q.
        elim (rotate_reaped-eq-ok t₁ old new t' r q) [
          | inl (e, _, _) ↦ rw e h
          | inr (l', m, made, _) ↦ rw made (get-move_claim t₁ old new (retire l' old) n m.absent h)
        ]

  find-true :
      (key : TokenId) (m : HashMap TokenId Lease) (e : Entry)
      → enrolled key m ≡ some e
      → is_recovery key e.1.recovery_id ≡ true
  unfolding find
  find-true key [] e h = absurd (ground arith)
  find-true key (x ∷ m) e h = elim (Bool-cases (is_recovery key x.1.recovery_id)) [
    | inl b ↦
        let same : x ≡ e = ground arith in
        ap (λ (y : Entry). is_recovery key y.1.recovery_id) (sym same) ∙ b
    | inr b ↦ find-true key m e (ground arith)
  ]

  recover_claim-HasClaim :
      (t : LeaseTable) (key new : TokenId) (ip : IpAddr) (now : ℕ)
      → IsWellFormed t
      → is_recovery key l.recovery_id ≡ false
      → HasClaim (reap_expired t now)
      → HasClaim (recover_claim t key new ip now).0
  unfolding recover_claim recover_reaped
  recover_claim-HasClaim t key new ip now w n h = go (enrolled key t₁.leases) refl
    where
      t₁ : LeaseTable
      t₁ = reap_expired t now

      other : (old : TokenId) (l' : Lease) → enrolled key t₁.leases ≡ some (old, l') → old ≢ owner
      other old l' e z =
          let found = enrolled-get t₁ key old l' (reap_expired-IsWellFormed t now w) e in
          let q : some l' ≡ some l = sym found ∙ ap (λ x. get dec_token x t₁.leases) z ∙ h in
          let same : l' ≡ l = ground (arith, q) in
          let k : true ≡ false =
            sym (find-true key t₁.leases (old, l') e)
            ∙ ap (λ (x : Lease). is_recovery key x.recovery_id) same
            ∙ n in
          cc

      go :
          (o : Option Entry)
          → enrolled key t₁.leases ≡ o
          → HasClaim (recover_claim t key new ip now).0
      go none e = rw (e, recover_reaped) h
      go (some (old, l')) e =
          rw (e, recover_reaped)
            (commit-keeps HasClaim t₁ (recover_found t₁ (old, l') new ip now) h λ t' r q.
              elim (recover_found-eq-ok t₁ old l' new ip now t' r q) [
                | inl (made, _, _) ↦ rw made h
                | inr (m, made, _) ↦ rw made (
                    get-move_claim t₁ old new (recovered_lease l' old ip now) (other old l' e)
                      m.absent h)
              ])

  -- Such a call leaves the claim as it is.
  pub step-HasClaim :
      (t : LeaseTable) (c : Call)
      → IsOther owner l c
      → IsWellFormed t
      → HasClaim t
      → HasClaim (step t c)
  unfolding step candidate_ports
  step-HasClaim t (reaps now) o w h = get-reap_expired t now owner l h o
  step-HasClaim t (asks token ip now) o w h = get-reap_expired t now owner l h o
  step-HasClaim t (activates token r ip port now) (n, o) w h =
      activate-HasClaim t token r ip port now n (get-reap_expired t now owner l h o)
  step-HasClaim t (ends token s now) o w h = end-HasClaim t token s now o h
  step-HasClaim t (rotates old new now) (n, o) w h =
      rotate_claim-HasClaim t old new now n (get-reap_expired t now owner l h o)
  step-HasClaim t (recovers r new ip now) (n, o) w h =
      recover_claim-HasClaim t r new ip now w n (get-reap_expired t now owner l h o)
