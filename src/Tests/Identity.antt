-- ===== src/Tests/Identity.antt =====
-- Runs of the identity's files at concrete inputs: crates/core/src/identity.rs and crates/cli/src/tunnel.rs.
use gamenet.Base.{◌≡◌, refl, true, none, some, [], ◌∷◌, ◌++◌, ok, find, ℕ_discrete}
use gamenet.Protocol.{identity_rotated}
use gamenet.Message.{to_be_bytes, send_msg}
use gamenet.Identity.{
  load_or_create_at, FilePath, dec_path, dec_bytes, file, FileSystem, update, read_existing,
  create_new_private, pending_path, prepare_rotation_at, PendingRotation, finish_rotation,
}
use gamenet.Identity.Stable.{load_or_create_at-again}
use gamenet.Agent.{
  Relay, rotate_identity_at, recover_identity_at, finish_if_rotated, rotate_on_connection,
}
use gamenet.Agent.Acknowledged.{IsRotated, rotate_identity_at-IsRotated}
use gamenet.Presets.{presets, eq_ignore_ascii_case, find_preset, local_port_for}
use gamenet.Identity.{store_recovery_at, prepare_recovery_at, finish_recovery, current_token}
use gamenet.Identity.Paths.{
  join, identity_path, recovery_path, load_or_create, load_or_create_recovery, read_recovery,
}
use gamenet.Identity.Retry.{prepare_rotation_at-again}
use gamenet.Agent.{
  registered_port, finish_if_recovered, recover_on_connection, recovery_secret, next_retry_delay,
}
use gamenet.Agent.Control.{send_all}
use gamenet.Agent.Backup.{show_recovery_code}
use gamenet.Agent.Hosting.{connect, host_loop, host}
use gamenet.Tests.Sample.{zeros, candidate, empty_disk, no_faults}

program : Unit {0}
unfolding ℕ_discrete to_be_bytes send_msg dec_path dec_bytes read_existing create_new_private
    pending_path prepare_rotation_at finish_rotation finish_if_rotated rotate_on_connection
    rotate_identity_at find presets eq_ignore_ascii_case find_preset local_port_for
    load_or_create_at store_recovery_at prepare_recovery_at finish_recovery current_token join
    identity_path recovery_path load_or_create load_or_create_recovery read_recovery registered_port
    finish_if_recovered recover_on_connection recovery_secret recover_identity_at next_retry_delay
    send_all show_recovery_code connect host_loop host
program = tt

-- The identity of a host and the file beside it.
abbrev identity : FilePath
identity = record { parent = []; file_name = some (1 ∷ []) }

abbrev disk : FileSystem
unfolding program
disk = update (λ q. none) identity (some (file (zeros 32) true))

abbrev acknowledges : Relay
acknowledges m = ok (some (identity_rotated (some 10000)))

abbrev rotated : FileSystem
rotated = (rotate_identity_at no_faults identity candidate none acknowledges disk).0

rotated_run :
    rotate_identity_at no_faults identity candidate none acknowledges disk
    ≡ (rotated, ok (some 10000))
unfolding program
rotated_run = refl

rotate_identity_at-IsRotated_example : IsRotated identity acknowledges disk rotated (some 10000)
rotate_identity_at-IsRotated_example =
    rotate_identity_at-IsRotated no_faults identity candidate none acknowledges disk rotated
      (some 10000) rotated_run

-- A host that starts twice.
abbrev first_start : FileSystem
first_start = (load_or_create_at no_faults identity candidate empty_disk).0

abbrev second_start : FileSystem
second_start = (load_or_create_at no_faults identity (zeros 32) first_start).0

first_run : load_or_create_at no_faults identity candidate empty_disk ≡ (first_start, ok candidate)
unfolding program load_or_create_at
first_run = refl

second_run :
    load_or_create_at no_faults identity (zeros 32) first_start ≡ (second_start, ok candidate)
unfolding program load_or_create_at
second_run = refl

load_or_create_at-again_example :
    (first_start identity ≡ some (file candidate true)) × (candidate ≡ candidate)
load_or_create_at-again_example =
    load_or_create_at-again no_faults no_faults identity candidate (zeros 32) empty_disk first_start
      second_start candidate candidate first_run second_run

-- A rotation whose answer is lost, and that is tried again with other random bytes.
abbrev prepared_disk : FileSystem
prepared_disk = (prepare_rotation_at no_faults identity candidate disk).0

abbrev prepared_again : FileSystem
prepared_again = (prepare_rotation_at no_faults identity (zeros 31 ++ 9 ∷ []) prepared_disk).0

abbrev pending : PendingRotation
pending = record {
  path = identity;
  pending = record {
    parent = [];
    file_name = some (1 ∷ b'.' ∷ b'p' ∷ b'e' ∷ b'n' ∷ b'd' ∷ b'i' ∷ b'n' ∷ b'g' ∷ []);
  };
  old_token = zeros 32;
  new_token = candidate;
}

prepare_run : prepare_rotation_at no_faults identity candidate disk ≡ (prepared_disk, ok pending)
unfolding program
prepare_run = refl

prepare_again_run :
    prepare_rotation_at no_faults identity (zeros 31 ++ 9 ∷ []) prepared_disk
    ≡ (prepared_again, ok pending)
unfolding program
prepare_again_run = refl

prepare_rotation_at-again_example : pending ≡ pending
prepare_rotation_at-again_example =
    prepare_rotation_at-again no_faults no_faults identity candidate (zeros 31 ++ 9 ∷ []) disk
      prepared_disk prepared_again pending pending prepare_run prepare_again_run
