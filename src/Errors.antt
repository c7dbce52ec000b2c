-- ===== src/Errors.antt =====
-- The errors of the relay and of the host agent: one constructor for each message that the code
-- gives to `anyhow`, and `io` for an error that it passes on from the standard library.
use gamenet.Base.{ℕ}
use gamenet.Address.{IpAddr}

pub data Error : Type 0 where
  -- crates/server/src/lease.rs
  claim_rotated already_active port_pool_exhausted port_not_available : Error
  too_many_tunnels : IpAddr → Error
  recovery_key_taken recovery_key_mismatch session_id_exhausted : Error
  same_identity new_owns_claim new_was_rotated old_already_rotated host_active : Error
  already_rotated_once no_matching_claim new_was_retired : Error
  too_many_leases invalid_port duplicate_port duplicate_token duplicate_recovery_key : Error
  too_many_retired retires_itself duplicate_retired retired_overlap : Error
  -- crates/server/src/state.rs
  storage_unavailable no_free_port : Error
  io : ℕ → Error
  -- crates/server/src/lease_store.rs
  expected_hex invalid_fingerprint state_too_large unsupported_version : Error
  too_many_legacy invalid_legacy_port duplicate_legacy_port duplicate_legacy_token : Error
  backup_not_regular backup_differs : Error
  parse_int_error : Error
  -- crates/core/src/identity.rs
  code_not_hex_length code_not_hex : Error
  not_found identity_not_regular identity_corrupt no_file_name : Error
  pending_equals_current identity_changed pending_changed : Error
  -- crates/core/src/message.rs
  message_too_large : ℕ → Error
  unexpected_eof : Error
  -- crates/server/src/tunnel.rs
  no_registration unexpected_message only_tcp : Error
  -- crates/server/src/relay.rs
  no_certificate incomplete_pair timed_out : Error
  -- crates/cli/src
  closed_early rejected unexpected_response : Error
  unknown_game udp_game no_port_given zero_port : Error
