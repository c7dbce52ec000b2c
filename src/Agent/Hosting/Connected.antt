-- ===== src/Agent/Hosting/Connected.antt =====
-- What an attempt to connect that succeeds has done: `AgentTunnel::connect` of
-- crates/cli/src/tunnel.rs.
use gamenet.Base.{ℕ, ◌≡◌, sym, ap, ◌∙◌, none, some, List, Result, ok, err, arith}
use gamenet.Errors.{Error}
use gamenet.Protocol.{
  TunnelToken, register, tunnel_ready, new_connection, error, rotate_identity, identity_rotated,
  recover_identity, identity_recovered,
}
use gamenet.Identity.{FilePath, FileSystem, load_or_create_at}
use gamenet.Identity.Files.{content, Keeps-load_or_create_at}
use gamenet.Identity.Paths.{
  Environment, identity_path, recovery_path, recovery_path-ne, load_or_create,
  load_or_create_recovery,
}
use gamenet.Identity.Success.{bind-eq-ok, outcome-eq, no_outcome}
use gamenet.Identity.Stable.{loaded}
use gamenet.Agent.{Answer, connect_quic, registered_port}
use gamenet.Agent.Acknowledged.{Keeps-connect_quic}
use gamenet.Agent.Hosting.{Attempt, registration_answer, registration, connect}

module _ (sha256 : List ℕ → List ℕ) (env : Environment) (local_port : ℕ) where
  registered_port-eq-ok :
      (answer : Answer) (port : ℕ)
      → registered_port answer ≡ ok port
      → answer ≡ ok (some (tunnel_ready port))
  unfolding registered_port
  registered_port-eq-ok (err e) port h = absurd (ground arith)
  registered_port-eq-ok (ok none) port h = absurd (ground arith)
  registered_port-eq-ok (ok (some (tunnel_ready p))) port h = ground arith
  registered_port-eq-ok (ok (some (error text))) port h = absurd (ground arith)
  registered_port-eq-ok (ok (some (register p l t r))) port h = absurd (ground arith)
  registered_port-eq-ok (ok (some (new_connection n))) port h = absurd (ground arith)
  registered_port-eq-ok (ok (some (rotate_identity a b))) port h = absurd (ground arith)
  registered_port-eq-ok (ok (some (identity_rotated p))) port h = absurd (ground arith)
  registered_port-eq-ok (ok (some (recover_identity a b))) port h = absurd (ground arith)
  registered_port-eq-ok (ok (some (identity_recovered p))) port h = absurd (ground arith)

  registration_answer-eq-ok :
      (r : Result Error ℕ) (fs fs' : FileSystem) (port : ℕ)
      → registration_answer r fs ≡ (fs', ok port)
      → (fs' ≡ fs) × (r ≡ ok port)
  registration_answer-eq-ok (err e) fs fs' port h = absurd (no_outcome fs fs' e port h)
  registration_answer-eq-ok (ok p) fs fs' port h =
      let (last, same) = outcome-eq fs fs' p port h in (last, ap ok (sym same))

  -- The relay has given a port to the host with this identity and this key, which are in its files.
  pub record IsHost (a : Attempt) (fs' : FileSystem) (port : ℕ) (token secret : TunnelToken)
      : Type 0 where
    pub told :
        a.relay (registration sha256 env local_port token secret) ≡ ok (some (tunnel_ready port))
    pub identity : content (fs' (identity_path env)) ≡ some token
    pub key : content (fs' (recovery_path env)) ≡ some secret

  pub connect-eq-ok :
      (a : Attempt) (fs fs' : FileSystem) (port : ℕ)
      → connect sha256 env local_port a fs ≡ (fs', ok port)
      → (token secret : TunnelToken) × IsHost a fs' port token secret
  unfolding connect load_or_create load_or_create_recovery
  connect-eq-ok a fs fs' port h =
      let p = identity_path env in
      let q = recovery_path env in
      let (fs₁, token, e₁, h₁) =
        bind-eq-ok (load_or_create_at a.faults p a.candidate) _ fs fs' port h in
      let (fs₂, secret, e₂, h₂) =
        bind-eq-ok (load_or_create_at a.faults q a.recovery_candidate) _ fs₁ fs' port h₁ in
      let (fs₃, _, e₃, h₃) = bind-eq-ok (connect_quic a.connected) _ fs₂ fs' port h₂ in
      let answer = a.relay (registration sha256 env local_port token secret) in
      let (last, said) = registration_answer-eq-ok (registered_port answer) fs₃ fs' port h₃ in
      let token_there = loaded a.faults p a.candidate fs fs₁ token e₁ in
      let secret_there = loaded a.faults q a.recovery_candidate fs₁ fs₂ secret e₂ in
      let connecting : (r : FilePath) → content (fs₃ r) ≡ content (fs₂ r) = λ r.
        ap (λ (o : FileSystem × Result Error (Unit {0})). content (o.0 r)) (sym e₃)
        ∙ Keeps-connect_quic r a.connected fs₂ in
      let kept : content (fs₂ p) ≡ content (fs₁ p) =
        ap (λ (o : FileSystem × Result Error TunnelToken). content (o.0 p)) (sym e₂)
        ∙ Keeps-load_or_create_at p a.faults q a.recovery_candidate (recovery_path-ne env) fs₁ in
      (
        token,
        secret,
        record {
          told = registered_port-eq-ok answer port said;
          identity =
              ap (λ (s : FileSystem). content (s p)) last
              ∙ connecting p
              ∙ kept
              ∙ ap content token_there;
          key =
              ap (λ (s : FileSystem). content (s q)) last ∙ connecting q ∙ ap content secret_there;
        },
      )
