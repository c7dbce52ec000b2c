-- ===== src/State/Promise.antt =====
-- A host that comes back within five minutes gets its port back: crates/server/src/state.rs.
use gamenet.Base.{
  ℕ, ◌<◌, ◌≡◌, refl, sym, ap, subst, ◌∙◌, Bool, true, false, Option, some, List, [], ◌∷◌, inl, inr,
  arith, holds_of, if◌then◌else◌, saturating_add, Result, ok, err, All,
}
use gamenet.HashMap.{get}
use gamenet.Address.{IpAddr, host_source, dec_source}
use gamenet.Errors.{Error, storage_unavailable}
use gamenet.Lease.{
  TokenId, dec_token, SessionId, active, grace, grace_ms, Lease, LeaseTable, charged_to,
  candidate_ports, activate_with_recovery,
}
use gamenet.Lease.WellFormed.{IsWellFormed}
use gamenet.Lease.Runs.{step-IsWellFormed}
use gamenet.Lease.Promised.{IsOther, HasClaim, step-HasClaim}
use gamenet.Lease.Reserved.{candidate_ports-returning}
use gamenet.State.{
  SaveOutcome, BindOutcome, ServerState, Registration, finish_registration, try_ports,
  try_candidates, register_with_recovery, end,
}
use gamenet.State.Runs.{
  Request, registers, ends, step, run, Allows, step-keeps, run-allowed, save-keeps,
  BindOutcome-cases,
}
use gamenet.State.Registering.{save-eq-ok, register_with_recovery-IsRegistered}
use gamenet.State.Ending.{ended, end_lease-running}

-- The table is well formed and holds the claim.
abbrev pub Holds : TokenId → Lease → LeaseTable → Type 0
Holds owner l t = IsWellFormed t × HasClaim owner l t

module _ {C : Type 0} where
  finish_registration-port :
      (st st' : ServerState C) (token : TokenId) (now : ℕ) (c : Option C) (o : SaveOutcome)
      (port : ℕ) (staged : LeaseTable × Result Error SessionId) (reg : Registration)
      → finish_registration st token now c o port staged ≡ (st', ok reg)
      → reg.public_port ≡ port
  unfolding finish_registration
  finish_registration-port st st' token now c o port (t, err e) reg h = absurd (ground arith)
  finish_registration-port st st' token now c o port (t, ok s) reg h =
      ap (λ (x : Registration). x.public_port) (save-eq-ok o _ st _ st' _ reg h).1

  -- A registration that is offered one port is on that port.
  register-offered :
      (st st' : ServerState C) (token : TokenId) (r : Option TokenId) (ip : IpAddr) (now : ℕ)
      (c : Option C) (bind : ℕ → BindOutcome) (o : SaveOutcome) (port : ℕ) (reg : Registration)
      → (candidate_ports st.leases token ip now).1 ≡ ok (port ∷ [])
      → register_with_recovery st token r ip now c bind o ≡ (st', ok reg)
      → reg.public_port ≡ port
  unfolding register_with_recovery try_candidates try_ports
  register-offered st st' token r ip now c bind o port reg offer h =
      go st.persistence_healthy (candidate_ports st.leases token ip now).1 offer h
    where
      reaped : ServerState C
      reaped = record st { leases = (candidate_ports st.leases token ip now).0 }

      one :
          try_ports reaped token r ip now c bind o (port ∷ []) ≡ (st', ok reg)
          → reg.public_port ≡ port
      one k = elim (BindOutcome-cases (bind port)) [
        | inl e ↦
            finish_registration-port reaped st' token now c o port
              (activate_with_recovery reaped.leases token r ip port now) reg
              (rw (e, try_ports) at k)
        | inr (inl e) ↦ absurd (ground arith)
        | inr (inr (x, e)) ↦ absurd (ground arith)
      ]

      go :
          (healthy : Bool) (ports : Result Error (List ℕ))
          → ports ≡ ok (port ∷ [])
          → (if healthy
              then try_candidates reaped token r ip now c bind o ports
              else (st, err storage_unavailable))
            ≡ (st', ok reg)
          → reg.public_port ≡ port
      go true (ok ports) q k = let same : ports ≡ port ∷ [] = ground arith in one (rw same at k)
      go true (err e) q k = absurd (ground arith)
      go false ports q k = absurd (ground arith)

  module _ (owner : TokenId) where
    pub run-Holds :
        (l : Lease) (st : ServerState C) (qs : List (Request C))
        → All (Allows (IsOther owner l)) qs
        → Holds owner l st.leases
        → Holds owner l (run st qs).leases
    run-Holds l st qs others h =
        run-allowed (Holds owner l) (IsOther owner l)
          (λ t c o (w, k). (step-IsWellFormed t c w, step-HasClaim owner l t c o w k)) st qs others
          h

    pub end-Holds :
        (l : Lease) (st : ServerState C) (s : SessionId) (now : ℕ) (o : SaveOutcome)
        → l.status ≡ active s
        → Holds owner l st.leases
        → Holds owner (ended l now) (end st owner s now o).0.leases
    unfolding end step
    end-Holds l st s now o running (w, h) =
        let (yes_ended, after) = end_lease-running st.leases owner s now l h running in
        (
          step-keeps IsWellFormed (λ t c k. step-IsWellFormed t c k) st (ends owner s now o) w,
          rw (yes_ended, end) (save-keeps (HasClaim owner (ended l now)) o _ _ _ true after after),
        )

  -- The host is offered the port and no other, and a registration of it that succeeds is on the port.
  pub record IsPromised (st : ServerState C) (token : TokenId) (ip : IpAddr) (now port : ℕ)
      : Type 0 where
    pub offered : (candidate_ports st.leases token ip now).1 ≡ ok (port ∷ [])
    pub kept :
        (r : Option TokenId) (c : Option C) (bind : ℕ → BindOutcome) (o : SaveOutcome)
        (st' : ServerState C) (reg : Registration)
        → register_with_recovery st token r ip now c bind o ≡ (st', ok reg)
        → reg.public_port ≡ port

  -- A claim that is held in grace is promised.
  pub held-IsPromised :
      (st : ServerState C) (token : TokenId) (l : Lease) (until back : ℕ) (ip ip' : IpAddr)
      → Holds token l st.leases
      → l.status ≡ grace until
      → back < until
      → l.last_ip ≡ some ip
      → host_source ip' ≡ host_source ip
      → IsPromised st token ip' back l.port
  held-IsPromised st token l until back ip ip' (w, h) idle early seen near =
      let charge : charged_to (host_source ip') l.last_ip ≡ true =
        rw seen (holds_of (dec_source (host_source ip) (host_source ip')) (sym near)) in
      let offer =
        candidate_ports-returning st.leases token l until ip' back w h idle early charge in
      record {
        offered = offer;
        kept = λ r c bind o st' reg k.
            register-offered st st' token r ip' back c bind o l.port reg offer k;
      }

  -- A host registers; while its session runs, other hosts make any requests; the session ends; other
  -- hosts make any requests again. If the host comes back less than five minutes after the end, from
  -- the same network, it is offered the port that it had and no other, and to register again it is on
  -- that port, or fails. The requests of the others register, end, rotate and recover claims other than
  -- the host's, before its claim expires, with any outcomes of writes and binds.
  pub register-promises :
      (st st₁ : ServerState C) (token : TokenId) (r : Option TokenId) (ip ip' : IpAddr)
      (start stop back : ℕ) (c : Option C) (bind : ℕ → BindOutcome) (o o' : SaveOutcome)
      (reg : Registration) (l : Lease) (during after : List (Request C))
      → IsWellFormed st.leases
      → register_with_recovery st token r ip start c bind o ≡ (st₁, ok reg)
      → get dec_token token st₁.leases.leases ≡ some l
      → All (Allows (IsOther token l)) during
      → All (Allows (IsOther token (ended l stop))) after
      → back < saturating_add stop grace_ms
      → host_source ip' ≡ host_source ip
      → IsPromised
          (run (end (run st₁ during) token reg.session_id stop o').0 after)
          token
          ip'
          back
          reg.public_port
  unfolding step
  register-promises st st₁ token r ip ip' start stop back c bind o o' reg l during after w h found
        others others' early near =
      let registered = register_with_recovery-IsRegistered token r ip start c bind o st st₁ reg h in
      let same : registered.lease ≡ l = ground (arith, registered.found, found) in
      let running : l.status ≡ active reg.session_id =
        ap (λ (x : Lease). x.status) (sym same) ∙ registered.running in
      let port : l.port ≡ reg.public_port =
        ap (λ (x : Lease). x.port) (sym same) ∙ registered.port in
      let seen : l.last_ip ≡ some ip = ap (λ (x : Lease). x.last_ip) (sym same) ∙ registered.seen in
      let w₁ : IsWellFormed st₁.leases = ap_state (
        step-keeps IsWellFormed (λ t c k. step-IsWellFormed t c k) st
          (registers token r ip start c bind o) w) in
      let held =
        run-Holds token (ended l stop) (end (run st₁ during) token reg.session_id stop o').0 after
          others'
          (end-Holds token l (run st₁ during) reg.session_id stop o' running
            (run-Holds token l st₁ during others (w₁, found))) in
      subst
        (IsPromised (run (end (run st₁ during) token reg.session_id stop o').0 after) token ip'
          back)
        port
        (held-IsPromised _ token (ended l stop) (saturating_add stop grace_ms) back ip ip' held refl
          early seen near)
    where
      ap_state :
          IsWellFormed (register_with_recovery st token r ip start c bind o).0.leases
          → IsWellFormed st₁.leases
      ap_state k = rw h at k
