-- ===== src/Agent.antt =====
-- crates/cli/src/tunnel.rs and crates/cli/src/main.rs: how a host changes its identity, and how it
-- reconnects. What the relay answers is an argument: the message that `recv_msg` gives, or an
-- error. The files are those of `Identity`.
pub mod Acknowledged
pub mod Reconnecting
pub mod Control
pub mod Recovered
pub mod Hosting
pub mod Running
pub mod Backup
pub mod Main
use gamenet.Base.{
  ℕ, ◌+◌, ◌*◌, ◌≡◌, min, Bool, true, false, Option, none, some, List, [], ◌∷◌, if◌then◌else◌,
  Result, ok, err,
}
use gamenet.Errors.{Error, not_found, closed_early, rejected, unexpected_response}
use gamenet.Hex.{Text, parse_recovery_code}
use gamenet.Protocol.{
  TunnelToken, ControlMessage, register, tunnel_ready, new_connection, error, rotate_identity,
  identity_rotated, recover_identity, identity_recovered,
}
use gamenet.Identity.{
  FilePath, FileSystem, Faults, M, ◌>>=◌, ◌>>◌, pure, fail, read_existing, PendingRotation,
  PendingRecovery, prepare_rotation_at, prepare_recovery_at, finish_rotation, finish_recovery,
  store_recovery_at,
}

-- The answer to a request: `send_msg` and `recv_msg` may fail, and the stream may end.
abbrev pub Answer : Type 0
Answer = Result Error (Option ControlMessage)

-- What `rotate_on_connection` does with the answer.
unfoldable pub finish_if_rotated : Faults → PendingRotation → Answer → M (Option ℕ)
finish_if_rotated faults pending (err e) = fail e
finish_if_rotated faults pending (ok none) = fail closed_early
finish_if_rotated faults pending (ok (some (identity_rotated port))) = do
  finish_rotation faults pending
  pure port
finish_if_rotated faults pending (ok (some (error text))) = fail rejected
finish_if_rotated faults pending (ok (some (register p l t r))) = fail unexpected_response
finish_if_rotated faults pending (ok (some (tunnel_ready p))) = fail unexpected_response
finish_if_rotated faults pending (ok (some (new_connection n))) = fail unexpected_response
finish_if_rotated faults pending (ok (some (rotate_identity a b))) = fail unexpected_response
finish_if_rotated faults pending (ok (some (recover_identity a b))) = fail unexpected_response
finish_if_rotated faults pending (ok (some (identity_recovered p))) = fail unexpected_response

-- The relay, as what it answers to the message that it is sent.
abbrev pub Relay : Type 0
Relay = ControlMessage → Answer

unfoldable pub rotate_on_connection : Faults → PendingRotation → Relay → M (Option ℕ)
rotate_on_connection faults pending relay =
    finish_if_rotated faults pending (relay (rotate_identity pending.old_token pending.new_token))

-- `connect_quic`.
abbrev pub connect_quic : Option Error → M (Unit {0})
connect_quic none = pure tt
connect_quic (some e) = fail e

-- `candidate` is what `getrandom` draws.
unfoldable pub rotate_identity_at :
    Faults → FilePath → TunnelToken → Option Error → Relay → M (Option ℕ)
rotate_identity_at faults p candidate connected relay = do
  pending ← prepare_rotation_at faults p candidate
  connect_quic connected
  rotate_on_connection faults pending relay

abbrev pub store_if : Faults → FilePath → TunnelToken → Bool → M (Unit {0})
store_if faults recovery secret true = store_recovery_at faults recovery secret
store_if faults recovery secret false = pure tt

-- What `recover_on_connection` does with the answer.
unfoldable pub finish_if_recovered :
    Faults → FilePath → PendingRecovery → TunnelToken → Bool → Answer → M ℕ
finish_if_recovered faults recovery pending secret from_backup (err e) = fail e
finish_if_recovered faults recovery pending secret from_backup (ok none) = fail closed_early
finish_if_recovered faults recovery pending secret from_backup
      (ok (some (identity_recovered port))) =
    do store_if faults recovery secret from_backup; finish_recovery faults pending; pure port
finish_if_recovered faults recovery pending secret b (ok (some (error text))) = fail rejected
finish_if_recovered faults recovery pending secret b (ok (some (register p l t r))) =
    fail unexpected_response
finish_if_recovered faults recovery pending secret b (ok (some (tunnel_ready p))) =
    fail unexpected_response
finish_if_recovered faults recovery pending secret b (ok (some (new_connection n))) =
    fail unexpected_response
finish_if_recovered faults recovery pending secret b (ok (some (rotate_identity c d))) =
    fail unexpected_response
finish_if_recovered faults recovery pending secret b (ok (some (recover_identity c d))) =
    fail unexpected_response
finish_if_recovered faults recovery pending secret b (ok (some (identity_rotated p))) =
    fail unexpected_response

unfoldable pub recover_on_connection :
    Faults → FilePath → PendingRecovery → TunnelToken → Bool → Relay → M ℕ
recover_on_connection faults recovery pending secret from_backup relay =
    finish_if_recovered faults recovery pending secret from_backup
      (relay (recover_identity secret pending.new_token))

-- The secret of a code that is typed, which is a backup.
abbrev pub typed : Result Error TunnelToken → M (TunnelToken × Bool)
typed (ok secret) = pure (secret, true)
typed (err e) = fail e

abbrev pub prompt : Result Error Text → M (TunnelToken × Bool)
prompt (err e) = fail e
prompt (ok code) = typed (parse_recovery_code code)

-- `read_recovery`, and the prompt when the file is not there.
abbrev pub or_prompt :
    Result Error Text
    → FileSystem × Result Error TunnelToken
    → FileSystem × Result Error (TunnelToken × Bool)
or_prompt code (fs, ok secret) = (fs, ok (secret, false))
or_prompt code (fs, err not_found) = prompt code fs
or_prompt code (fs, err e) = (fs, err e)

unfoldable pub recovery_secret :
    Faults → FilePath → Bool → Result Error Text → M (TunnelToken × Bool)
recovery_secret faults recovery true code = prompt code
recovery_secret faults recovery false code = λ fs. or_prompt code (read_existing faults recovery fs)

unfoldable pub recover_identity_at :
    Faults
    → FilePath
    → FilePath
    → TunnelToken
    → Bool
    → Result Error Text
    → Option Error
    → Relay
    → M ℕ
recover_identity_at faults p recovery candidate use_backup_code code connected relay = do
  (secret, from_backup) ← recovery_secret faults recovery use_backup_code code
  pending ← prepare_recovery_at faults p candidate
  connect_quic connected
  recover_on_connection faults recovery pending secret from_backup relay

-- `Duration::MAX` and fifteen seconds, in nanoseconds.
abbrev pub duration_max : ℕ
duration_max = 18446744073709551615999999999

abbrev pub retry_cap : ℕ
retry_cap = 15000000000

abbrev pub one_second : ℕ
one_second = 1000000000

unfoldable pub next_retry_delay : ℕ → ℕ
next_retry_delay delay = min (min (delay * 2) duration_max) retry_cap

-- The loop of `main` around `AgentTunnel::connect`: the delays slept before the attempts, each of
-- which succeeds or fails.
unfoldable pub reconnects : ℕ → List Bool → List ℕ
reconnects delay [] = []
reconnects delay (connected ∷ attempts) =
    delay ∷ reconnects (if connected then one_second else next_retry_delay delay) attempts

-- What `connect` makes of the answer to its registration: the public port.
unfoldable pub registered_port : Answer → Result Error ℕ
registered_port (err e) = err e
registered_port (ok none) = err closed_early
registered_port (ok (some (tunnel_ready port))) = ok port
registered_port (ok (some (error text))) = err rejected
registered_port (ok (some (register p l t r))) = err unexpected_response
registered_port (ok (some (new_connection n))) = err unexpected_response
registered_port (ok (some (rotate_identity a b))) = err unexpected_response
registered_port (ok (some (identity_rotated p))) = err unexpected_response
registered_port (ok (some (recover_identity a b))) = err unexpected_response
registered_port (ok (some (identity_recovered p))) = err unexpected_response
