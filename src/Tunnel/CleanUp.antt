-- ===== src/Tunnel/CleanUp.antt =====
-- A registration that is canceled leaves no active lease behind.
use gamenet.Base.{
  ℕ, ◌≡◌, refl, ◌∙◌, sym, ap, true, false, Option, none, some, List, [], ◌==◌, inl, inr, Bool-cases,
  Result, ok, err, arith,
}
use gamenet.Errors.{Error}
use gamenet.Protocol.{
  Protocol, tcp, udp, ControlMessage, register, tunnel_ready, new_connection, error,
  rotate_identity, identity_rotated, recover_identity, identity_recovered,
}
use gamenet.Lease.{from_token}
use gamenet.State.{ServerState, SaveOutcome, Registration}
use gamenet.State.Registering.{register_with_recovery-IsRegistered}
use gamenet.State.Ending.{IsReleased, end-IsReleased}
use gamenet.Tunnel.{
  Arrival, Outcome, Effect, PendingRegistration, pending_registration, disarm, answer_with,
  answer_rotation, answer_recovery, answer_registration, handle_register, from_quic, clean_up,
  close_old,
}
use gamenet.Tunnel.FirstMessage.{asked}

module _ {C : Type 0} (sha256 : List ℕ → List ℕ) (to_string : Error → List ℕ) (a : Arrival C)
    (st : ServerState C) where
  -- The registration that was accepted, and what its clean-up leaves.
  pub record IsCanceled (o : Outcome C) (p : PendingRegistration) (later : ℕ) (save : SaveOutcome)
      : Type 0 where
    pub token : List ℕ
    pub key : List ℕ
    pub registration : Registration
    pub accepted : asked sha256 to_string a st token key ≡ (o.state, ok registration)
    pub released :
        IsReleased
          (clean_up o.state (some p) later save)
          registration.token_id
          later
          registration.public_port

  clean_up-IsReleased :
      (token key : List ℕ) (later : ℕ) (save : SaveOutcome) (st' : ServerState C)
      (reg : Registration)
      → asked sha256 to_string a st token key ≡ (st', ok reg)
      → IsReleased
          (clean_up st' (some (pending_registration reg)) later save)
          reg.token_id
          later
          reg.public_port
  unfolding clean_up pending_registration
  clean_up-IsReleased token key later save st' reg q =
      let h =
        register_with_recovery-IsRegistered (from_token sha256 token)
          (some (record { bytes = key })) a.peer_ip a.now (some a.connection) a.bind a.save st st'
          reg q in
      let found = rw (← h.named) at h.found in
      let connected = rw (← h.named) at h.connected a.connection refl in
      let released =
        end-IsReleased st' reg.token_id reg.session_id later save h.lease a.connection found
          h.running connected in
      rw h.port at released

  disarmed :
      (reg : Registration) (p : PendingRegistration)
      → p.armed ≡ true
      → ¬ (disarm (pending_registration reg) ≡ p)
  unfolding disarm
  disarmed reg p m e = let k : false ≡ true = ap (λ (x : PendingRegistration). x.armed) e ∙ m in cc

  answer_registration-IsCanceled :
      (local_port : ℕ) (token key : List ℕ) (p : PendingRegistration) (later : ℕ)
      (save : SaveOutcome) (r : ServerState C × Result Error Registration)
      → asked sha256 to_string a st token key ≡ r
      → (answer_registration to_string a local_port r).dropped ≡ some p
      → p.armed ≡ true
      → IsCanceled (answer_registration to_string a local_port r) p later save
  unfolding answer_registration
  answer_registration-IsCanceled local_port token key p later save (st', err e) q d m =
      absurd (ground arith)
  answer_registration-IsCanceled local_port token key p later save (st', ok reg) q d m =
      go (a.deliver (tunnel_ready reg.public_port)) refl
    where
      go :
          (o : Option Error)
          → a.deliver (tunnel_ready reg.public_port) ≡ o
          → IsCanceled (answer_registration to_string a local_port (st', ok reg)) p later save
      go none e =
          let k = rw (e, answer_registration) at d in absurd (disarmed reg p m (ground arith))
      go (some x) e =
          let k = rw (e, answer_registration) at d in
          let same : p ≡ pending_registration reg = ground arith in
          rw (e, answer_registration, same)
            (record {
              token = token;
              key = key;
              registration = reg;
              accepted = q;
              released = clean_up-IsReleased token key later save st' reg q;
            })

  nothing_dropped :
      (p : PendingRegistration) → ¬ (◌≡◌ {A = Option PendingRegistration} none (some p))
  nothing_dropped p h = cc

  answer_with-drops_nothing :
      (st' : ServerState C) (before : List (Effect C)) (msg : ControlMessage)
      → (answer_with a st' before msg).dropped ≡ none
  answer_with-drops_nothing st' before msg = go (a.deliver msg) refl
    where
      go : (o : Option Error) → a.deliver msg ≡ o → (answer_with a st' before msg).dropped ≡ none
      go none e = rw (e, answer_with)
      go (some x) e = rw (e, answer_with)

  pub answer_rotation-drops_nothing :
      (r : ServerState C × Result Error (Option ℕ)) → (answer_rotation to_string a r).dropped ≡ none
  unfolding answer_rotation
  answer_rotation-drops_nothing (st', ok port) =
      answer_with-drops_nothing st' [] (identity_rotated port)
  answer_rotation-drops_nothing (st', err e) = refl

  pub answer_recovery-drops_nothing :
      (r : ServerState C × Result Error (ℕ × Option C))
      → (answer_recovery to_string a r).dropped ≡ none
  unfolding answer_recovery
  answer_recovery-drops_nothing (st', ok (port, old)) =
      answer_with-drops_nothing st' (close_old old) (identity_recovered port)
  answer_recovery-drops_nothing (st', err e) = refl

  handle_register-IsCanceled :
      (protocol : Protocol) (local_port : ℕ) (token key : List ℕ) (p : PendingRegistration)
      (later : ℕ) (save : SaveOutcome)
      → (handle_register sha256 to_string a st protocol local_port token key).dropped ≡ some p
      → p.armed ≡ true
      → IsCanceled
          (handle_register sha256 to_string a st protocol local_port token key)
          p
          later
          save
  handle_register-IsCanceled udp local_port token key p later save h m =
      absurd (nothing_dropped p h)
  handle_register-IsCanceled tcp local_port token key p later save h m =
      elim (Bool-cases (local_port == 0)) [
        | inl e ↦ absurd (nothing_dropped p (rw (e, handle_register) at h))
        | inr e ↦
            rw (e, handle_register)
              (answer_registration-IsCanceled local_port token key p later save
                (asked sha256 to_string a st token key) refl (rw (e, handle_register) at h) m)
      ]

  -- When the first message leaves a registration that is still armed, its clean-up at a later time
  -- puts the claim of that registration in grace for five minutes, on its port, and forgets the
  -- connection, whether the state is saved or not.
  pub from_quic-IsCanceled :
      (m : Result Error (Option ControlMessage)) (p : PendingRegistration) (later : ℕ)
      (save : SaveOutcome)
      → (from_quic sha256 to_string a st m).dropped ≡ some p
      → p.armed ≡ true
      → IsCanceled (from_quic sha256 to_string a st m) p later save
  unfolding from_quic
  from_quic-IsCanceled (err e) p later save h m = absurd (nothing_dropped p h)
  from_quic-IsCanceled (ok none) p later save h m = absurd (nothing_dropped p h)
  from_quic-IsCanceled (ok (some (register q l token key))) p later save h m =
      handle_register-IsCanceled q l token key p later save h m
  from_quic-IsCanceled (ok (some (rotate_identity old k))) p later save h m =
      absurd (nothing_dropped p (sym (answer_rotation-drops_nothing _) ∙ h))
  from_quic-IsCanceled (ok (some (recover_identity s k))) p later save h m =
      absurd (nothing_dropped p (sym (answer_recovery-drops_nothing _) ∙ h))
  from_quic-IsCanceled (ok (some (tunnel_ready q))) p later save h m = absurd (nothing_dropped p h)
  from_quic-IsCanceled (ok (some (new_connection n))) p later save h m =
      absurd (nothing_dropped p h)
  from_quic-IsCanceled (ok (some (error text))) p later save h m = absurd (nothing_dropped p h)
  from_quic-IsCanceled (ok (some (identity_rotated q))) p later save h m =
      absurd (nothing_dropped p h)
  from_quic-IsCanceled (ok (some (identity_recovered q))) p later save h m =
      absurd (nothing_dropped p h)
