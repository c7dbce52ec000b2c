-- ===== src/System/Reconnects.antt =====
-- A host that reconnects has its port again: crates/cli/src/tunnel.rs against crates/server/src.
use gamenet.Base.{
  ℕ, ◌<◌, ◌≡◌, refl, sym, ap, subst, ◌∙◌, Option, none, some, List, [], ◌∷◌, ◌==◌, inl, inr,
  Bool-cases, Result, ok, err, arith, All, saturating_add,
}
use gamenet.HashMap.{get}
use gamenet.Address.{host_source}
use gamenet.Errors.{Error, only_tcp}
use gamenet.Protocol.{TunnelToken, register, tcp, tunnel_ready, error}
use gamenet.Identity.{FileSystem}
use gamenet.Identity.Files.{content}
use gamenet.Identity.Paths.{Environment, identity_path, recovery_path}
use gamenet.Lease.{dec_token, from_token, SessionId, active, grace_ms, Lease}
use gamenet.Lease.Promised.{IsOther}
use gamenet.Lease.WellFormed.{IsWellFormed}
use gamenet.State.{SaveOutcome, ServerState, Registration, end}
use gamenet.State.Ending.{ended}
use gamenet.State.Registering.{register_with_recovery-IsRegistered}
use gamenet.State.Runs.{Request, run, Allows}
use gamenet.State.Promise.{IsPromised, register-promises}
use gamenet.Tunnel.{
  Arrival, sends, send_registration_error, answer_registration, handle_register, from_quic,
}
use gamenet.Tunnel.FirstMessage.{asked}
use gamenet.Agent.Hosting.{Attempt, connect, registration}
use gamenet.Agent.Hosting.Same.{Holds, connected, attempt-Holds}
use gamenet.System.{heard, relay_of}

module _ {C : Type 0} (sha256 : List ℕ → List ℕ) (to_string : Error → List ℕ) (a : Arrival C)
    (st : ServerState C) where
  error_heard :
      (e : Error) (p : ℕ)
      → ¬ (heard (send_registration_error to_string a e) ≡ ok (some (tunnel_ready p)))
  error_heard e p h = go (a.deliver (error (to_string e))) h
    where
      go :
          (o : Option Error)
          → ¬ (
              heard {C = C} (elim o [ none ↦ sends (error (to_string e)) ∷ [] | some x ↦ [] ])
              ≡ ok (some (tunnel_ready p)))
      go none k = ground arith
      go (some x) k = ground arith

  -- The server state has accepted the registration, on this port.
  record IsAccepted (token key : List ℕ) (p : ℕ) (st' : ServerState C) : Type 0 where
    reg : Registration
    accepted : asked sha256 to_string a st token key ≡ (st', ok reg)
    port : reg.public_port ≡ p

  answered-IsAccepted :
      (local_port : ℕ) (token key : List ℕ) (p : ℕ) (r : ServerState C × Result Error Registration)
      → asked sha256 to_string a st token key ≡ r
      → heard (answer_registration to_string a local_port r).effects ≡ ok (some (tunnel_ready p))
      → IsAccepted token key p (answer_registration to_string a local_port r).state
  unfolding answer_registration
  answered-IsAccepted local_port token key p (st', err e) q h = absurd (error_heard e p h)
  answered-IsAccepted local_port token key p (st', ok reg) q h =
      go (a.deliver (tunnel_ready reg.public_port)) refl
    where
      go :
          (o : Option Error)
          → a.deliver (tunnel_ready reg.public_port) ≡ o
          → IsAccepted token key p (answer_registration to_string a local_port (st', ok reg)).state
      go none e =
          let k = rw (e, answer_registration) at h in
          rw (e, answer_registration) (record { reg = reg; accepted = q; port = ground arith })
      go (some x) e = let k = rw (e, answer_registration) at h in absurd (ground arith)

  -- A host that is told of its port has been registered on it.
  heard-IsAccepted :
      (local_port : ℕ) (token key : List ℕ) (p : ℕ)
      → relay_of sha256 to_string a st (register tcp local_port token key)
        ≡ ok (some (tunnel_ready p))
      → IsAccepted token key p
          (from_quic sha256 to_string a st (ok (some (register tcp local_port token key)))).state
  unfolding from_quic
  heard-IsAccepted local_port token key p h = elim (Bool-cases (local_port == 0)) [
    | inl e ↦ absurd (error_heard only_tcp p (rw (e, handle_register) at h))
    | inr e ↦
        rw (e, handle_register)
          (answered-IsAccepted local_port token key p (asked sha256 to_string a st token key) refl
            (rw (e, handle_register) at h))
  ]

module _ {C : Type 0} (sha256 : List ℕ → List ℕ) (to_string : Error → List ℕ) (env : Environment)
    (local_port : ℕ) where
  -- The state of the relay once it has answered the registration of the host.
  abbrev pub registered : Arrival C → ServerState C → TunnelToken → TunnelToken → ServerState C
  registered a st token secret =
      (from_quic sha256 to_string a st
        (ok (some (registration sha256 env local_port token secret)))).state

  -- The host with these files has been given the port by the relay.
  told-IsAccepted :
      (a : Attempt) (arrival : Arrival C) (st : ServerState C) (fs fs' : FileSystem) (p : ℕ)
      (token secret : TunnelToken)
      → a.relay ≡ relay_of sha256 to_string arrival st
      → connect sha256 env local_port a fs ≡ (fs', ok p)
      → Holds sha256 env local_port fs' token secret
      → IsAccepted sha256 to_string arrival st token
          (sha256 secret)
          p
          (registered arrival st token secret)
  told-IsAccepted a arrival st fs fs' p token secret answers h holds =
      heard-IsAccepted sha256 to_string arrival st local_port token (sha256 secret) p (
        ap (λ (r : _). r (registration sha256 env local_port token secret)) (sym answers)
        ∙ connected sha256 env local_port a fs fs' p token secret h holds)

  -- A host connects to the relay, and is given a port. While its session runs, other hosts make any
  -- requests; the session ends; other hosts make any requests again. Less than five minutes after the
  -- end the host connects again, from the same network, with the files that the first attempt has left:
  -- if it is given a port, it is the same one, whatever random bytes the host has drawn, and whatever
  -- the operating systems and the disks of both have refused in between.
  pub connect-again :
      (a a' : Attempt) (arrival arrival' : Arrival C) (st : ServerState C) (fs fs₁ fs₂ : FileSystem)
      (p p' : ℕ) (token secret : TunnelToken) (l : Lease) (s : SessionId) (stop : ℕ)
      (o : SaveOutcome) (during after : List (Request C))
      → IsWellFormed st.leases
      → a.relay ≡ relay_of sha256 to_string arrival st
      → connect sha256 env local_port a fs ≡ (fs₁, ok p)
      → content (fs₁ (identity_path env)) ≡ some token
      → content (fs₁ (recovery_path env)) ≡ some secret
      → get dec_token (from_token sha256 token) (registered arrival st token secret).leases.leases
        ≡ some l
      → l.status ≡ active s
      → All (Allows (IsOther (from_token sha256 token) l)) during
      → All (Allows (IsOther (from_token sha256 token) (ended l stop))) after
      → a'.relay
        ≡ relay_of sha256 to_string arrival' (
            run
              (end
                (run (registered arrival st token secret) during)
                (from_token sha256 token)
                s
                stop
                o).0
              after)
      → arrival'.now < saturating_add stop grace_ms
      → host_source arrival'.peer_ip ≡ host_source arrival.peer_ip
      → connect sha256 env local_port a' fs₁ ≡ (fs₂, ok p')
      → p' ≡ p
  connect-again a a' arrival arrival' st fs fs₁ fs₂ p p' token secret l s stop o during after w
        answers h there key found running others others' answers' early near h' =
      let id = from_token sha256 token in
      let st₁ = registered arrival st token secret in
      let st₂ = run (end (run st₁ during) id s stop o).0 after in
      let first = told-IsAccepted a arrival st fs fs₁ p token secret answers h (there, key) in
      let kept =
        subst (λ (r : FileSystem × Result Error ℕ). Holds sha256 env local_port r.0 token secret) h'
          (attempt-Holds sha256 env local_port a' fs₁ token secret (there, key)) in
      let second = told-IsAccepted a' arrival' st₂ fs₁ fs₂ p' token secret answers' h' kept in
      let held =
        register_with_recovery-IsRegistered id (some (record { bytes = sha256 secret }))
          arrival.peer_ip arrival.now (some arrival.connection) arrival.bind arrival.save st st₁
          first.reg first.accepted in
      let same : held.lease ≡ l = ground (arith, held.found, found) in
      let status : active first.reg.session_id ≡ active s =
        sym held.running ∙ ap (λ (x : Lease). x.status) same ∙ running in
      let session : first.reg.session_id ≡ s = ground (arith, status) in
      let promised =
        register-promises st st₁ id (some (record { bytes = sha256 secret })) arrival.peer_ip
          arrival'.peer_ip arrival.now stop arrival'.now (some arrival.connection) arrival.bind
          arrival.save o first.reg l during after w first.accepted found others others' early
          near in
      let again =
        (subst
            (λ n.
              IsPromised (run (end (run st₁ during) id n stop o).0 after) id arrival'.peer_ip
                arrival'.now first.reg.public_port)
            session promised).kept
          (some (record { bytes = sha256 secret })) (some arrival'.connection) arrival'.bind
          arrival'.save _ second.reg second.accepted in
      sym second.port ∙ again ∙ first.port
