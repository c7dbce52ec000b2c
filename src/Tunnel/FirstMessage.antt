-- ===== src/Tunnel/FirstMessage.antt =====
-- What a host is promised by the answer to its first message, and what is left when it fails.
use gamenet.Base.{
  ℕ, ◌≡◌, refl, Option, none, some, List, [], ◌∷◌, ◌==◌, inl, inr, Bool-cases, Result, ok, err,
  arith,
}
use gamenet.Errors.{Error}
use gamenet.Protocol.{
  Protocol, tcp, udp, ControlMessage, register, tunnel_ready, new_connection, error,
  rotate_identity, identity_rotated, recover_identity, identity_recovered,
}
use gamenet.Lease.{from_token}
use gamenet.State.{ServerState, Registration, register_with_recovery}
use gamenet.Tunnel.{
  max_concurrent_players, Tunnel, Arrival, Outcome, Effect, sends, answer_with, stopped,
  answer_rotation, answer_recovery, answer_registration, handle_register, from_quic, tunnel_of,
  close_old, refuse,
}

module _ {C : Type 0} (sha256 : List ℕ → List ℕ) (to_string : Error → List ℕ) (a : Arrival C)
    (st : ServerState C) where
  -- What `register_with_recovery` is asked when a host registers with the token and the key.
  abbrev pub asked : List ℕ → List ℕ → ServerState C × Result Error Registration
  asked token key =
      register_with_recovery st (from_token sha256 token) (some (record { bytes = key })) a.peer_ip
        a.now (some a.connection) a.bind a.save

  -- The tunnel of a registration that the server state has accepted.
  pub record IsOpened (m : Result Error (Option ControlMessage)) (o : Outcome C) (t : Tunnel C)
      : Type 0 where
    pub local_port : ℕ
    pub token : List ℕ
    pub key : List ℕ
    pub asked_for : m ≡ ok (some (register tcp local_port token key))
    pub forwards : t.local_port ≡ local_port
    pub nonzero : ¬ (local_port ≡ 0)
    pub told : o.effects ≡ sends (tunnel_ready t.public_port) ∷ []
    pub registration : Registration
    pub accepted : asked token key ≡ (o.state, ok registration)
    pub port : t.public_port ≡ registration.public_port
    pub identity : t.token_id ≡ registration.token_id
    pub session : t.session_id ≡ registration.session_id
    pub slots : t.player_slots ≡ max_concurrent_players
    pub nobody : t.players ≡ []

  not_opened : (t : Tunnel C) → ¬ (stopped a ≡ ok (some t))
  not_opened t h = go a.stop h
    where
      go :
          (o : Option Error)
          → ¬ (
              ◌≡◌ {A = Result Error (Option (Tunnel C))}
                (elim o [ none ↦ ok none | some e ↦ err e ])
                (ok (some t)))
      go none k = ground arith
      go (some e) k = ground arith

  answer_with-not_opened :
      (st' : ServerState C) (before : List (Effect C)) (msg : ControlMessage) (t : Tunnel C)
      → ¬ ((answer_with a st' before msg).answer ≡ ok (some t))
  answer_with-not_opened st' before msg t h = go (a.deliver msg) refl
    where
      go : (o : Option Error) → a.deliver msg ≡ o → ⊥
      go none e = not_opened t (rw (e, answer_with) at h)
      go (some x) e = let k = rw (e, answer_with) at h in ground arith

  refuse-not_opened :
      (st' : ServerState C) (e : Error) (t : Tunnel C)
      → ¬ ((refuse to_string a st' e).answer ≡ ok (some t))
  refuse-not_opened st' e t h = not_opened t h

  answer_rotation-not_opened :
      (r : ServerState C × Result Error (Option ℕ)) (t : Tunnel C)
      → ¬ ((answer_rotation to_string a r).answer ≡ ok (some t))
  unfolding answer_rotation
  answer_rotation-not_opened (st', ok port) t h =
      answer_with-not_opened st' [] (identity_rotated port) t h
  answer_rotation-not_opened (st', err e) t h = not_opened t h

  answer_recovery-not_opened :
      (r : ServerState C × Result Error (ℕ × Option C)) (t : Tunnel C)
      → ¬ ((answer_recovery to_string a r).answer ≡ ok (some t))
  unfolding answer_recovery
  answer_recovery-not_opened (st', ok (port, old)) t h =
      answer_with-not_opened st' (close_old old) (identity_recovered port) t h
  answer_recovery-not_opened (st', err e) t h = not_opened t h

  answer_registration-IsOpened :
      (local_port : ℕ) (token key : List ℕ) (t : Tunnel C)
      (r : ServerState C × Result Error Registration)
      → asked token key ≡ r
      → ¬ (local_port ≡ 0)
      → (answer_registration to_string a local_port r).answer ≡ ok (some t)
      → IsOpened
          (ok (some (register tcp local_port token key)))
          (answer_registration to_string a local_port r)
          t
  unfolding answer_registration
  answer_registration-IsOpened local_port token key t (st', err e) q n h = absurd (ground arith)
  answer_registration-IsOpened local_port token key t (st', ok reg) q n h =
      go (a.deliver (tunnel_ready reg.public_port)) refl
    where
      go :
          (o : Option Error)
          → a.deliver (tunnel_ready reg.public_port) ≡ o
          → IsOpened
              (ok (some (register tcp local_port token key)))
              (answer_registration to_string a local_port (st', ok reg))
              t
      go none e =
          let k = rw (e, answer_registration) at h in
          let same : t ≡ tunnel_of a local_port reg = ground arith in
          rw (e, answer_registration, same)
            (record {
              local_port = local_port;
              token = token;
              key = key;
              asked_for = refl;
              forwards = refl;
              nonzero = n;
              told = refl;
              registration = reg;
              accepted = q;
              port = refl;
              identity = refl;
              session = refl;
              slots = refl;
              nobody = refl;
            })
      go (some x) e = let k = rw (e, answer_registration) at h in absurd (ground arith)

  handle_register-IsOpened :
      (protocol : Protocol) (local_port : ℕ) (token key : List ℕ) (t : Tunnel C)
      → (handle_register sha256 to_string a st protocol local_port token key).answer ≡ ok (some t)
      → IsOpened
          (ok (some (register protocol local_port token key)))
          (handle_register sha256 to_string a st protocol local_port token key)
          t
  handle_register-IsOpened udp local_port token key t h = absurd (ground arith)
  handle_register-IsOpened tcp local_port token key t h = elim (Bool-cases (local_port == 0)) [
    | inl e ↦ let k = rw (e, handle_register) at h in absurd (ground arith)
    | inr e ↦
        rw (e, handle_register)
          (answer_registration-IsOpened local_port token key t (asked token key) refl
            (λ z. ground arith) (rw (e, handle_register) at h))
  ]

  -- A tunnel is opened only for a TCP registration with a nonzero local port that the server state
  -- has accepted and the host has been told of: the one message is `TunnelReady` with the public
  -- port of that registration, and the tunnel carries its port, identity and session, and has no
  -- players and all its slots.
  pub from_quic-IsOpened :
      (m : Result Error (Option ControlMessage)) (t : Tunnel C)
      → (from_quic sha256 to_string a st m).answer ≡ ok (some t)
      → IsOpened m (from_quic sha256 to_string a st m) t
  unfolding from_quic
  from_quic-IsOpened (err e) t h = absurd (ground arith)
  from_quic-IsOpened (ok none) t h = absurd (ground arith)
  from_quic-IsOpened (ok (some (register p l token key))) t h =
      handle_register-IsOpened p l token key t h
  from_quic-IsOpened (ok (some (rotate_identity old k))) t h =
      absurd (answer_rotation-not_opened _ t h)
  from_quic-IsOpened (ok (some (recover_identity s k))) t h =
      absurd (answer_recovery-not_opened _ t h)
  from_quic-IsOpened (ok (some (tunnel_ready p))) t h = absurd (ground arith)
  from_quic-IsOpened (ok (some (new_connection n))) t h = absurd (ground arith)
  from_quic-IsOpened (ok (some (error text))) t h = absurd (ground arith)
  from_quic-IsOpened (ok (some (identity_rotated p))) t h = absurd (ground arith)
  from_quic-IsOpened (ok (some (identity_recovered p))) t h = absurd (ground arith)
