-- ===== src/Tests/Host.antt =====
-- Runs of the host's parts, of the messages and of the state file at concrete inputs:
-- crates/cli/src, crates/core/src and crates/server/src/lease_store.rs.
use gamenet.Base.{
  ℕ, zero, suc, ◌≡◌, ◌≢◌, refl, true, none, some, List, [], ◌∷◌, ◌++◌, ok, err, take, length, All,
  arith, find, inr, ℕ_discrete,
}
use gamenet.HashMap.{get}
use gamenet.Errors.{message_too_large, unexpected_eof, io}
use gamenet.Protocol.{new_connection}
use gamenet.Message.{Codec, Bytes, to_be_bytes, send_msg, recv_msg}
use gamenet.Message.Frames.{recv_msg-send_msg, recv_msg-truncated, recv_msg-too_large}
use gamenet.Hex.{format_recovery_code, parse_recovery_code}
use gamenet.Hex.Codes.{IsLowerHex, parse_recovery_code-format, parse_recovery_code-plus}
use gamenet.Identity.{
  dec_path, dec_bytes, read_existing, create_new_private, pending_path, prepare_rotation_at,
  finish_rotation,
}
use gamenet.Lease.{TokenId, dec_token, grace, LeaseTable}
use gamenet.Lease.Records.{snapshot}
use gamenet.Lease.Restore.{survivor}
use gamenet.Lease.WellFormed.{IsWellFormed}
use gamenet.Agent.{rotate_identity_at, finish_if_rotated, rotate_on_connection}
use gamenet.Presets.{minecraft, presets, eq_ignore_ascii_case, find_preset, local_port_for}
use gamenet.Presets.LocalPort.{IsTcpGame, IsChosen, local_port_for-IsChosen}
use gamenet.Store.{Json, PersistedV2, current, encode_state, parse_state}
use gamenet.Store.Reload.{document, parse_state-encode_state}
use gamenet.Tests.Sample.{zeros, length-zeros, secret, blank, codec, carried, frame, digits}

program : Unit {0}
unfolding ℕ_discrete to_be_bytes send_msg dec_path dec_bytes read_existing create_new_private
    pending_path prepare_rotation_at finish_rotation finish_if_rotated rotate_on_connection
    rotate_identity_at find presets eq_ignore_ascii_case find_preset local_port_for
program = tt

sent : send_msg codec (new_connection 7) ≡ ok frame
unfolding program
sent = refl

recv_msg-send_msg_example : recv_msg codec (frame ++ 9 ∷ []) ≡ ok (some (new_connection 7), 9 ∷ [])
recv_msg-send_msg_example =
    recv_msg-send_msg codec (new_connection 7) (7 ∷ 8 ∷ []) frame (9 ∷ []) carried sent

recv_msg-truncated_example : recv_msg codec (take 5 frame) ≡ err unexpected_eof
recv_msg-truncated_example =
    recv_msg-truncated codec (new_connection 7) (7 ∷ 8 ∷ []) frame 5 carried sent (omega arith)
      (omega arith)

-- A codec with payloads of 65537 bytes.
abbrev large_codec : Codec
large_codec = record {
  serialize = λ m. ok (zeros 65537);
  deserialize = λ bytes. ok (new_connection 7);
}

recv_msg-too_large_example :
    (bytes : Bytes) × (send_msg large_codec (new_connection 7) ≡ ok bytes)
    × (recv_msg large_codec (bytes ++ []) ≡ err (message_too_large (length (zeros 65537))))
recv_msg-too_large_example =
    recv_msg-too_large large_codec (new_connection 7) (zeros 65537) [] refl
      (omega (arith, length-zeros 65537)) (omega (arith, length-zeros 65537))

parse_recovery_code-format_example :
    parse_recovery_code ([] ++ (format_recovery_code (zeros 32) ++ 10 ∷ [])) ≡ ok (zeros 32)
parse_recovery_code-format_example =
    parse_recovery_code-format [] (10 ∷ []) (zeros 32) secret tt (blank, tt)

lower-digits : (n : ℕ) → All IsLowerHex (digits n)
lower-digits zero = tt
lower-digits (suc n) = (inr (omega arith, omega arith), lower-digits n)

parse_recovery_code-plus_example :
    (s : List ℕ) × (parse_recovery_code (b'+' ∷ b'f' ∷ digits 62) ≡ ok s)
    × (parse_recovery_code (b'0' ∷ b'f' ∷ digits 62) ≡ ok s)
parse_recovery_code-plus_example = parse_recovery_code-plus b'f' (digits 62) refl (lower-digits 63)

port_run : local_port_for (some minecraft) none ≡ ok 25565
unfolding program
port_run = refl

local_port_for-IsChosen_example :
    ◌≢◌ {A = ℕ} 25565 0 × (IsTcpGame (some minecraft) × IsChosen (some minecraft) none 25565)
local_port_for-IsChosen_example = local_port_for-IsChosen (some minecraft) none 25565 port_run

-- A table with one claim, and a `serde_json` that writes its document as one byte.
abbrev table : LeaseTable
table = record {
  leases =
      (
        record { bytes = zeros 32 },
        record {
          port = 10000;
          last_ip = none;
          retired_token_ids = [];
          recovery_id = none;
          status = grace 302000;
        },
      )
      ∷ [];
  next_session_id = 1;
}

table-IsWellFormed : IsWellFormed table
table-IsWellFormed = record {
  entries = (
    record {
      from_start = omega arith;
      to_end = omega arith;
      own = tt;
      distinct = tt;
      capped = omega arith;
      session = tt;
    },
    tt,
  );
  apart = (tt, tt);
}

abbrev json : Json PersistedV2
json = record {
  to_vec_pretty = λ v. ok (1 ∷ []);
  from_slice = λ bytes. ok (document table 3000);
  has_version = λ v. true;
  to_v2 = λ v. ok v;
  to_legacy = λ v. err (io 0);
}

parse_state-encode_state_example :
    (encode_state json (λ b. b) (snapshot table 3000) ≡ ok (1 ∷ []))
    × ((t' : LeaseTable) × (parse_state json (λ b. b) (1 ∷ []) 4000 ≡ ok (current t'))
        × ((k : TokenId)
            → get dec_token k t'.leases ≡ survivor 3000 4000 (get dec_token k table.leases)))
parse_state-encode_state_example =
    parse_state-encode_state json (λ b. b) table 3000 4000 (1 ∷ []) table-IsWellFormed
      (record { token = secret; retired = tt; recovery = tt }, tt)
      (record {
        value = document table 3000;
        written = refl;
        parsed = refl;
        versioned = refl;
        decoded = refl;
      })
      (omega arith)
