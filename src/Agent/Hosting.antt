-- ===== src/Agent/Hosting.antt =====
-- crates/cli/src/tunnel.rs and main.rs: `AgentTunnel::connect`, and the loop of the `host` command
-- around it. The `run` of a tunnel, which has ended before each later attempt, is in Agent/Running.
pub mod Stays
pub mod Connected
pub mod Same
use gamenet.Base.{
  ℕ, ◌≡◌, refl, sym, ap, ◌∙◌, ◌≢◌, Bool, true, false, Option, none, some, List, [], ◌∷◌, map,
  Result, ok, err, arith,
}
use gamenet.Errors.{Error, closed_early, rejected, unexpected_response}
use gamenet.Protocol.{TunnelToken, ControlMessage, register, tcp, tunnel_ready}
use gamenet.Identity.{
  FilePath, Node, file, other, FileSystem, Op, stat, Faults, M, and_then, ◌>>=◌, ◌>>◌, pure, fail,
  attempt, symlink_metadata, read_existing, load_node, load_or_create_at,
}
use gamenet.Identity.Files.{
  content, Keeps, Keeps-bind, Keeps-read_existing, Keeps-load_or_create_at,
}
use gamenet.Identity.Paths.{
  Environment, identity_path, recovery_path, recovery_path-ne, load_or_create,
  load_or_create_recovery,
}
use gamenet.Identity.Success.{bind-eq-ok, outcome-eq, no_outcome}
use gamenet.Identity.Stable.{load_or_create_at-again}
use gamenet.Presets.{local_port_for}
use gamenet.Hex.{Text}
use gamenet.Agent.{
  Answer, Relay, connect_quic, registered_port, one_second, next_retry_delay, reconnects,
}
use gamenet.Agent.Acknowledged.{Keeps-connect_quic}

-- What is outside of the host at an attempt to connect.
pub record Attempt : Type 0 where
  pub faults : Faults
  pub candidate : TunnelToken
  pub recovery_candidate : TunnelToken
  pub connected : Option Error
  pub relay : Relay

-- The public port, or an error.
abbrev pub registration_answer : Result Error ℕ → M ℕ
registration_answer (ok port) = pure port
registration_answer (err e) = fail e

module _ (sha256 : List ℕ → List ℕ) (env : Environment) (local_port : ℕ) where
  -- `Register` with the identity, and the fingerprint of the recovery key.
  abbrev pub registration : TunnelToken → TunnelToken → ControlMessage
  registration token secret = register tcp local_port token (sha256 secret)

  unfoldable pub connect : Attempt → M ℕ
  connect a = do
    token ← load_or_create a.faults env a.candidate
    secret ← load_or_create_recovery a.faults env a.recovery_candidate
    connect_quic a.connected
    registration_answer (registered_port (a.relay (registration token secret)))

  abbrev pub next_delay : ℕ → Result Error ℕ → ℕ
  next_delay delay (ok port) = one_second
  next_delay delay (err e) = next_retry_delay delay

  -- The attempts after the first: the delay that is slept, and what the attempt gives.
  unfoldable pub host_loop : ℕ → List Attempt → FileSystem → FileSystem × List (ℕ × Result Error ℕ)
  host_loop delay [] fs = (fs, [])
  host_loop delay (a ∷ attempts) fs =
      let tried = connect a fs in
      let rest = host_loop (next_delay delay tried.1) attempts tried.0 in
      (rest.0, (delay, tried.1) ∷ rest.1)

abbrev pub after_first :
    FileSystem × Result Error ℕ
    → (FileSystem → FileSystem × List (ℕ × Result Error ℕ))
    → FileSystem × Result Error (List (ℕ × Result Error ℕ))
after_first (fs, err e) loop = (fs, err e)
after_first (fs, ok port) loop = let logged = loop fs in (logged.0, ok logged.1)

abbrev pub with_local_port :
    {A : Type 0}
    → FileSystem
    → Result Error ℕ
    → (ℕ → FileSystem × Result Error A)
    → FileSystem × Result Error A
with_local_port fs (err e) then_host = (fs, err e)
with_local_port fs (ok local_port) then_host = then_host local_port

-- The `host` command: without a local port, or when the first attempt fails, it ends with an error.
unfoldable pub host :
    (List ℕ → List ℕ)
    → Environment
    → Option Text
    → Option ℕ
    → Attempt
    → List Attempt
    → FileSystem
    → FileSystem × Result Error (List (ℕ × Result Error ℕ))
host sha256 env game port first attempts fs =
    with_local_port fs (local_port_for game port) λ local_port.
      after_first (connect sha256 env local_port first fs)
        (host_loop sha256 env local_port one_second attempts)
