-- ===== src/State/Sessions.antt =====
-- crates/server/src/state.rs: the sessions that run after a request.
use gamenet.Base.{
  ℕ, ◌≡◌, refl, subst, Bool, true, false, Option, List, [], ◌∷◌, inl, inr, arith, if◌then◌else◌,
  Bool-cases, Result, ok, err,
}
use gamenet.Address.{IpAddr}
use gamenet.Errors.{Error, storage_unavailable}
use gamenet.Lease.{
  TokenId, SessionId, LeaseTable, reap_expired, candidates, candidate_ports, activate_with_recovery,
  end as end_lease,
}
use gamenet.Lease.Claims.{
  RotationResult, RecoveryResult, transferred, unchanged, rotate_claim, recover_claim,
}
use gamenet.Lease.Sessions.{
  RunsOnly, reap_expired-RunsOnly, activate-RunsOnly, rotate_claim-RunsOnly, recover_claim-RunsOnly,
  end-RunsOnly,
}
use gamenet.Lease.WellFormed.{IsWellFormed}
use gamenet.State.{
  SaveOutcome, BindOutcome, ServerState, Registration, finish_registration, try_ports,
  try_candidates, register_with_recovery, end, finish_rotation, rotate, finish_recovery, recover,
  refresh_and_save,
}
use gamenet.State.Runs.{BindOutcome-cases, save-keeps}
use gamenet.State.Registering.{save-eq-ok, register_with_recovery-err}

module _ {C : Type 0} (Q : TokenId → SessionId → Type 0) where
  finish_rotation-RunsOnly :
      (st : ServerState C) (now : ℕ) (o : SaveOutcome)
      (staged : LeaseTable × Result Error RotationResult)
      → RunsOnly Q st.leases
      → RunsOnly Q staged.0
      → RunsOnly Q (finish_rotation st now o staged).0.leases
  unfolding finish_rotation
  finish_rotation-RunsOnly st now o (t, err e) h k = h
  finish_rotation-RunsOnly st now o (t, ok (unchanged p)) h k = h
  finish_rotation-RunsOnly st now o (t, ok (transferred p)) h k =
      save-keeps (RunsOnly Q) o _ st _ _ h k

  finish_recovery-RunsOnly :
      (st : ServerState C) (now : ℕ) (o : SaveOutcome)
      (staged : LeaseTable × Result Error RecoveryResult)
      → RunsOnly Q st.leases
      → RunsOnly Q staged.0
      → RunsOnly Q (finish_recovery st now o staged).0.leases
  unfolding finish_recovery
  finish_recovery-RunsOnly st now o (t, err e) h k = h
  finish_recovery-RunsOnly st now o (t, ok result) h k = elim (Bool-cases result.changed) [
    | inl e ↦ rw e (save-keeps (RunsOnly Q) o _ st _ _ h k)
    | inr e ↦ rw e h
  ]

  if-RunsOnly :
      {A : Type 0} (b : Bool) (x y : ServerState C × A)
      → RunsOnly Q x.0.leases
      → RunsOnly Q y.0.leases
      → RunsOnly Q (if b then x else y).0.leases
  if-RunsOnly true x y h k = h
  if-RunsOnly false x y h k = k

  pub rotate-RunsOnly :
      (st : ServerState C) (old new : TokenId) (now : ℕ) (o : SaveOutcome)
      → RunsOnly Q st.leases
      → RunsOnly Q (rotate st old new now o).0.leases
  unfolding rotate
  rotate-RunsOnly st old new now o h =
      if-RunsOnly st.persistence_healthy _ (st, err storage_unavailable)
        (finish_rotation-RunsOnly st now o (rotate_claim st.leases old new now) h
          (rotate_claim-RunsOnly Q st.leases old new now h))
        h

  pub recover-RunsOnly :
      (st : ServerState C) (key new : TokenId) (ip : IpAddr) (now : ℕ) (o : SaveOutcome)
      → RunsOnly Q st.leases
      → RunsOnly Q (recover st key new ip now o).0.leases
  unfolding recover
  recover-RunsOnly st key new ip now o h =
      if-RunsOnly st.persistence_healthy _ (st, err storage_unavailable)
        (finish_recovery-RunsOnly st now o (recover_claim st.leases key new ip now) h
          (recover_claim-RunsOnly Q st.leases key new ip now h))
        h

  pub refresh-RunsOnly :
      (st : ServerState C) (now : ℕ) (o : SaveOutcome)
      → RunsOnly Q st.leases
      → RunsOnly Q (refresh_and_save st now o).0.leases
  unfolding refresh_and_save
  refresh-RunsOnly st now o h =
      save-keeps (RunsOnly Q) o _ _ _ tt (reap_expired-RunsOnly Q st.leases now h)
        (reap_expired-RunsOnly Q st.leases now h)

  module _ (token : TokenId) (r : Option TokenId) (ip : IpAddr) (now : ℕ) (c : Option C)
      (bind : ℕ → BindOutcome) (o : SaveOutcome) where
    finish_registration-RunsOnly :
        (st : ServerState C) (port : ℕ) (st' : ServerState C) (reg : Registration)
        → Q reg.token_id reg.session_id
        → RunsOnly Q st.leases
        → finish_registration st token now c o port
            (activate_with_recovery st.leases token r ip port now)
          ≡ (st', ok reg)
        → RunsOnly Q st'.leases
    unfolding finish_registration
    finish_registration-RunsOnly st port st' reg own h q =
        go (activate_with_recovery st.leases token r ip port now) refl q
      where
        go :
            (staged : LeaseTable × Result Error SessionId)
            → activate_with_recovery st.leases token r ip port now ≡ staged
            → finish_registration st token now c o port staged ≡ (st', ok reg)
            → RunsOnly Q st'.leases
        go (t, err e) a k = absurd (ground arith)
        go (t, ok s) a k =
            let (made, said) = save-eq-ok o _ st _ st' _ reg k in
            rw made (
              activate-RunsOnly Q st.leases token r ip port now t s a
                (subst (λ (x : Registration). Q x.token_id x.session_id) said own) h)

    try_ports-RunsOnly :
        (st : ServerState C) (ports : List ℕ) (st' : ServerState C) (reg : Registration)
        → Q reg.token_id reg.session_id
        → RunsOnly Q st.leases
        → try_ports st token r ip now c bind o ports ≡ (st', ok reg)
        → RunsOnly Q st'.leases
    unfolding try_ports
    try_ports-RunsOnly st [] st' reg own h q = absurd (ground arith)
    try_ports-RunsOnly st (p ∷ ps) st' reg own h q = elim (BindOutcome-cases (bind p)) [
      | inl e ↦ finish_registration-RunsOnly st p st' reg own h (rw (e, try_ports) at q)
      | inr (inl e) ↦ try_ports-RunsOnly st ps st' reg own h (rw (e, try_ports) at q)
      | inr (inr (x, e)) ↦ absurd (ground arith)
    ]

    -- A registration that succeeds starts its own session, and no other.
    pub register-RunsOnly :
        (st st' : ServerState C) (reg : Registration)
        → Q reg.token_id reg.session_id
        → RunsOnly Q st.leases
        → register_with_recovery st token r ip now c bind o ≡ (st', ok reg)
        → RunsOnly Q st'.leases
    unfolding register_with_recovery try_candidates candidate_ports
    register-RunsOnly st st' reg own h q =
        go st.persistence_healthy (candidates (reap_expired st.leases now) token ip) q
      where
        reaped : ServerState C
        reaped = record st { leases = reap_expired st.leases now }

        go :
            (healthy : Bool) (ports : Result Error (List ℕ))
            → (if healthy
                then try_candidates reaped token r ip now c bind o ports
                else (st, err storage_unavailable))
              ≡ (st', ok reg)
            → RunsOnly Q st'.leases
        go true (ok ports) k =
            try_ports-RunsOnly reaped ports st' reg own (reap_expired-RunsOnly Q st.leases now h) k
        go true (err e) k = absurd (ground arith)
        go false ports k = absurd (ground arith)

    -- One that fails starts none.
    pub register-RunsOnly_err :
        (st st' : ServerState C) (e : Error)
        → RunsOnly Q st.leases
        → register_with_recovery st token r ip now c bind o ≡ (st', err e)
        → RunsOnly Q st'.leases
    register-RunsOnly_err st st' e h q =
        elim (register_with_recovery-err token r ip now c bind o st st' e q).0 [
          | inl same ↦ rw same h
          | inr reaped ↦ rw reaped (reap_expired-RunsOnly Q st.leases now h)
        ]

end_lease-false :
    (t : LeaseTable) (token : TokenId) (s : SessionId) (now : ℕ)
    → (end_lease t token s now).1 ≡ false
    → (end_lease t token s now).0 ≡ t
unfolding end_lease
end_lease-false t token s now h = ground arith

module _ {C : Type 0} (Q Q' : TokenId → SessionId → Type 0) (token : TokenId) (s : SessionId)
    (others : (k : TokenId) (s' : SessionId) → ¬ ((k ≡ token) × (s' ≡ s)) → Q k s' → Q' k s') where
  -- The end of a session leaves nothing of it, whether the state is saved or not.
  pub end-RunsOnly_state :
      (st : ServerState C) (now : ℕ) (o : SaveOutcome)
      → IsWellFormed st.leases
      → RunsOnly Q st.leases
      → RunsOnly Q' (end st token s now o).0.leases
  unfolding end
  end-RunsOnly_state st now o w h = elim (Bool-cases (end_lease st.leases token s now).1) [
    | inl e ↦
        let ended = end-RunsOnly Q Q' token s others st.leases now w h in
        rw (e, end) (save-keeps (RunsOnly Q') o _ _ _ true ended ended)
    | inr e ↦
        rw (e, end)
          (subst (RunsOnly Q') (end_lease-false st.leases token s now e)
            (end-RunsOnly Q Q' token s others st.leases now w h))
  ]
