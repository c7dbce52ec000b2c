-- ===== src/Tunnel/Requests.antt =====
-- What a first message asks of the server state, and which sessions it starts.
use gamenet.Base.{
  ℕ, ◌≡◌, refl, ◌⊎◌, inl, inr, true, Option, none, some, List, [], ◌∷◌, ◌==◌, if◌then◌else◌,
  Bool-cases, Result, ok, err,
}
use gamenet.Errors.{Error}
use gamenet.Protocol.{
  Protocol, tcp, udp, ControlMessage, register, tunnel_ready, new_connection, error,
  rotate_identity, identity_rotated, recover_identity, identity_recovered,
}
use gamenet.Lease.{TokenId, SessionId, from_token}
use gamenet.Lease.Sessions.{RunsOnly}
use gamenet.State.{ServerState, Registration}
use gamenet.State.Runs.{Request, registers, rotates, recovers, run, step}
use gamenet.State.Sessions.{
  register-RunsOnly, register-RunsOnly_err, rotate-RunsOnly, recover-RunsOnly,
}
use gamenet.Tunnel.{
  Tunnel, Arrival, Outcome, Effect, PendingRegistration, pending_registration, disarm, answer_with,
  answer_rotation, answer_recovery, answer_registration, handle_register, from_quic, close_old,
}
use gamenet.Tunnel.FirstMessage.{asked}
use gamenet.Tunnel.CleanUp.{answer_rotation-drops_nothing, answer_recovery-drops_nothing}

module _ {C : Type 0} (sha256 : List ℕ → List ℕ) (to_string : Error → List ℕ) (a : Arrival C) where
  abbrev pub registration_request : ℕ → List ℕ → List ℕ → List (Request C)
  registration_request local_port token key =
      if local_port == 0
      then []
      else registers (from_token sha256 token) (some (record { bytes = key })) a.peer_ip a.now
          (some a.connection) a.bind a.save
        ∷ []

  -- The requests that a first message makes: one, or none.
  abbrev pub requests : Result Error (Option ControlMessage) → List (Request C)
  requests (err e) = []
  requests (ok none) = []
  requests (ok (some (register tcp local_port token key))) =
      registration_request local_port token key
  requests (ok (some (register udp local_port token key))) = []
  requests (ok (some (rotate_identity old k))) =
      rotates (from_token sha256 old) (from_token sha256 k) a.now a.save ∷ []
  requests (ok (some (recover_identity secret k))) =
      recovers (from_token sha256 secret) (from_token sha256 k) a.peer_ip a.now a.save ∷ []
  requests (ok (some (tunnel_ready p))) = []
  requests (ok (some (new_connection n))) = []
  requests (ok (some (error text))) = []
  requests (ok (some (identity_rotated p))) = []
  requests (ok (some (identity_recovered p))) = []

  answer_with-state :
      (st' : ServerState C) (before : List (Effect C)) (msg : ControlMessage)
      → (answer_with a st' before msg).state ≡ st'
  answer_with-state st' before msg = go (a.deliver msg) refl
    where
      go : (o : Option Error) → a.deliver msg ≡ o → (answer_with a st' before msg).state ≡ st'
      go none e = rw (e, answer_with)
      go (some x) e = rw (e, answer_with)

  answer_rotation-state :
      (r : ServerState C × Result Error (Option ℕ)) → (answer_rotation to_string a r).state ≡ r.0
  unfolding answer_rotation
  answer_rotation-state (st', ok port) = answer_with-state st' [] (identity_rotated port)
  answer_rotation-state (st', err e) = refl

  answer_recovery-state :
      (r : ServerState C × Result Error (ℕ × Option C))
      → (answer_recovery to_string a r).state ≡ r.0
  unfolding answer_recovery
  answer_recovery-state (st', ok (port, old)) =
      answer_with-state st' (close_old old) (identity_recovered port)
  answer_recovery-state (st', err e) = refl

  answer_registration-state :
      (local_port : ℕ) (r : ServerState C × Result Error Registration)
      → (answer_registration to_string a local_port r).state ≡ r.0
  unfolding answer_registration
  answer_registration-state local_port (st', err e) = refl
  answer_registration-state local_port (st', ok reg) =
      go (a.deliver (tunnel_ready reg.public_port)) refl
    where
      go :
          (o : Option Error)
          → a.deliver (tunnel_ready reg.public_port) ≡ o
          → (answer_registration to_string a local_port (st', ok reg)).state ≡ st'
      go none e = rw (e, answer_registration)
      go (some x) e = rw (e, answer_registration)

  -- The state after a first message is the state after its requests.
  pub from_quic-run :
      (st : ServerState C) (m : Result Error (Option ControlMessage))
      → (from_quic sha256 to_string a st m).state ≡ run st (requests m)
  unfolding from_quic run step
  from_quic-run st (err e) = refl
  from_quic-run st (ok none) = refl
  from_quic-run st (ok (some (register udp l token key))) = refl
  from_quic-run st (ok (some (register tcp l token key))) = elim (Bool-cases (l == 0)) [
    | inl e ↦ rw e refl
    | inr e ↦ rw e (answer_registration-state l (asked sha256 to_string a st token key))
  ]
  from_quic-run st (ok (some (rotate_identity old k))) = answer_rotation-state _
  from_quic-run st (ok (some (recover_identity s k))) = answer_recovery-state _
  from_quic-run st (ok (some (tunnel_ready p))) = refl
  from_quic-run st (ok (some (new_connection n))) = refl
  from_quic-run st (ok (some (error text))) = refl
  from_quic-run st (ok (some (identity_rotated p))) = refl
  from_quic-run st (ok (some (identity_recovered p))) = refl

-- A registration that is dropped is armed, or its session is that of the tunnel that is opened.
abbrev pub HandedOver :
    {C : Type 0} → Option PendingRegistration → Result Error (Option (Tunnel C)) → Type 0
HandedOver none answer = Unit {0}
HandedOver {C} (some p) answer =
    (p.armed ≡ true)
    ⊎ ((t : Tunnel C) × (answer ≡ ok (some t))
        × (t.token_id ≡ p.token_id)
        × (t.session_id ≡ p.session_id))

-- What holds of the sessions once the first message is answered: those that run are those that ran
-- before, and at most that of the registration that is dropped.
pub record IsAnswered {C : Type 0} (Q : TokenId → SessionId → Type 0) (o : Outcome C) : Type 0 where
  pub handed : HandedOver o.dropped o.answer
  pub sessions :
      ((p : PendingRegistration) → o.dropped ≡ some p → Q p.token_id p.session_id)
      → RunsOnly Q o.state.leases

module _ {C : Type 0} (sha256 : List ℕ → List ℕ) (to_string : Error → List ℕ) (a : Arrival C)
    (st : ServerState C) (Q : TokenId → SessionId → Type 0) (before : RunsOnly Q st.leases) where
  -- Nothing is dropped.
  nothing : (o : Outcome C) → o.dropped ≡ none → RunsOnly Q o.state.leases → IsAnswered Q o
  nothing o e h = record { handed = rw e tt; sessions = λ own. h }

  answer_registration-IsAnswered :
      (local_port : ℕ) (token key : List ℕ) (r : ServerState C × Result Error Registration)
      → asked sha256 to_string a st token key ≡ r
      → IsAnswered Q (answer_registration to_string a local_port r)
  unfolding answer_registration disarm pending_registration
  answer_registration-IsAnswered local_port token key (st', err e) q = record {
    handed = tt;
    sessions = λ own.
        register-RunsOnly_err Q (from_token sha256 token) (some (record { bytes = key })) a.peer_ip
          a.now (some a.connection) a.bind a.save st st' e before q;
  }
  answer_registration-IsAnswered local_port token key (st', ok reg) q =
      go (a.deliver (tunnel_ready reg.public_port)) refl
    where
      started : Q reg.token_id reg.session_id → RunsOnly Q st'.leases
      started own =
          register-RunsOnly Q (from_token sha256 token) (some (record { bytes = key })) a.peer_ip
            a.now (some a.connection) a.bind a.save st st' reg own before q

      go :
          (o : Option Error)
          → a.deliver (tunnel_ready reg.public_port) ≡ o
          → IsAnswered Q (answer_registration to_string a local_port (st', ok reg))
      go none e =
          rw (e, answer_registration)
            (record {
              handed = inr (_, refl, refl, refl);
              sessions = λ own. started (own (disarm (pending_registration reg)) refl);
            })
      go (some x) e =
          rw (e, answer_registration)
            (record {
              handed = inl refl;
              sessions = λ own. started (own (pending_registration reg) refl);
            })

  handle_register-IsAnswered :
      (protocol : Protocol) (local_port : ℕ) (token key : List ℕ)
      → IsAnswered Q (handle_register sha256 to_string a st protocol local_port token key)
  handle_register-IsAnswered udp local_port token key = nothing _ refl before
  handle_register-IsAnswered tcp local_port token key = elim (Bool-cases (local_port == 0)) [
    | inl e ↦ rw (e, handle_register) (nothing _ refl before)
    | inr e ↦
        rw (e, handle_register)
          (answer_registration-IsAnswered local_port token key
            (asked sha256 to_string a st token key) refl)
  ]

  pub from_quic-IsAnswered :
      (m : Result Error (Option ControlMessage)) → IsAnswered Q (from_quic sha256 to_string a st m)
  unfolding from_quic
  from_quic-IsAnswered (err e) = nothing _ refl before
  from_quic-IsAnswered (ok none) = nothing _ refl before
  from_quic-IsAnswered (ok (some (register p l token key))) =
      handle_register-IsAnswered p l token key
  from_quic-IsAnswered (ok (some (rotate_identity old k))) =
      nothing _ (answer_rotation-drops_nothing sha256 to_string a st _) (
        rw (answer_rotation-state sha256 to_string a _)
          (rotate-RunsOnly Q st (from_token sha256 old) (from_token sha256 k) a.now a.save before))
  from_quic-IsAnswered (ok (some (recover_identity s k))) =
      nothing _ (answer_recovery-drops_nothing sha256 to_string a st _) (
        rw (answer_recovery-state sha256 to_string a _) (
          recover-RunsOnly Q st (from_token sha256 s) (from_token sha256 k) a.peer_ip a.now a.save
            before))
  from_quic-IsAnswered (ok (some (tunnel_ready p))) = nothing _ refl before
  from_quic-IsAnswered (ok (some (new_connection n))) = nothing _ refl before
  from_quic-IsAnswered (ok (some (error text))) = nothing _ refl before
  from_quic-IsAnswered (ok (some (identity_rotated p))) = nothing _ refl before
  from_quic-IsAnswered (ok (some (identity_recovered p))) = nothing _ refl before
