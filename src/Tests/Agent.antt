-- ===== src/Tests/Agent.antt =====
-- Runs of the commands of a host at concrete inputs: crates/cli/src.
use gamenet.Base.{
  ℕ, subst, any, false, ◌*◌, ◌<◌, ◌≡◌, refl, true, none, some, List, [], ◌∷◌, ◌++◌, ok, err, All,
  arith, find, ℕ_discrete,
}
use gamenet.Errors.{unexpected_eof}
use gamenet.Message.{to_be_bytes, send_msg}
use gamenet.Hex.{
  format_recovery_code, parse_recovery_code, is_whitespace, trim, trim_end, trim_start, hex_32,
  is_ascii, parse_pairs, from_str_radix, to_digit,
}
use gamenet.Identity.{
  load_or_create_at, dec_path, dec_bytes, file, FileSystem, update, read_existing,
  create_new_private, pending_path, prepare_rotation_at, finish_rotation,
}
use gamenet.Identity.Files.{content}
use gamenet.Agent.{
  Relay, rotate_identity_at, recover_identity_at, finish_if_rotated, rotate_on_connection,
  one_second,
}
use gamenet.Presets.{presets, eq_ignore_ascii_case, find_preset, local_port_for}
use gamenet.Protocol.{tunnel_ready, identity_recovered}
use gamenet.Identity.{store_recovery_at, prepare_recovery_at, finish_recovery, current_token}
use gamenet.Identity.Paths.{
  Environment, join, identity_path, recovery_path, load_or_create, load_or_create_recovery,
  read_recovery,
}
use gamenet.Agent.{
  registered_port, finish_if_recovered, recover_on_connection, recovery_secret, next_retry_delay,
}
use gamenet.Agent.Control.{send_all}
use gamenet.Agent.Recovered.{IsRecovered, recover_identity_at-IsRecovered}
use gamenet.Agent.Backup.{show_recovery_code, IsRecoveredWith, show_recovery_code-recovers}
use gamenet.Agent.Hosting.{Attempt, connect, host_loop, host}
use gamenet.Agent.Hosting.Same.{IsHosting, host-IsHosting}
use gamenet.Agent.Main.{recover_identity, main, main-Stays}
use gamenet.Tests.Sample.{
  zeros, octets-zeros, blank, candidate, digits, empty_disk, no_faults, refuses,
}

program : Unit {0}
unfolding ℕ_discrete to_be_bytes send_msg dec_path dec_bytes read_existing create_new_private
    pending_path prepare_rotation_at finish_rotation finish_if_rotated rotate_on_connection
    rotate_identity_at find presets eq_ignore_ascii_case find_preset local_port_for
    load_or_create_at store_recovery_at prepare_recovery_at finish_recovery current_token join
    identity_path recovery_path load_or_create load_or_create_recovery read_recovery registered_port
    finish_if_recovered recover_on_connection recovery_secret recover_identity_at next_retry_delay
    send_all show_recovery_code connect host_loop host
program = tt

-- The user of a machine, which starts empty.
abbrev user : Environment
user = record { home = some (b'/' ∷ []); userprofile = none }

abbrev recovers : Relay
recovers m = ok (some (identity_recovered 10000))

abbrev key_disk : FileSystem
unfolding program
key_disk = update empty_disk (recovery_path user) (some (file (zeros 32) true))

abbrev recovered : FileSystem
recovered =
    (recover_identity_at no_faults (identity_path user) (recovery_path user) candidate false
      (err unexpected_eof) none recovers key_disk).0

recovered_run :
    recover_identity_at no_faults
      (identity_path user)
      (recovery_path user)
      candidate
      false
      (err unexpected_eof)
      none
      recovers
      key_disk
    ≡ (recovered, ok 10000)
unfolding program
recovered_run = refl

recover_identity_at-IsRecovered_example :
    IsRecovered user false (err unexpected_eof) recovers key_disk recovered 10000
recover_identity_at-IsRecovered_example =
    recover_identity_at-IsRecovered no_faults user candidate false (err unexpected_eof) none
      recovers key_disk recovered 10000 recovered_run

-- The code of that machine, typed on an empty one with a new line.
abbrev shown_disk : FileSystem
shown_disk = (show_recovery_code no_faults user key_disk).0

shown_run :
    show_recovery_code no_faults user key_disk ≡ (shown_disk, ok (format_recovery_code (zeros 32)))
unfolding program
shown_run = refl

key_octets : (t : List ℕ) → content (key_disk (recovery_path user)) ≡ some t → All (λ b. b < 256) t
unfolding program
key_octets t e =
    let here : some (zeros 32) ≡ some t = e in
    let same : zeros 32 ≡ t = ground arith in subst (All (λ b. b < 256)) same (octets-zeros 32)

abbrev typed_code : List ℕ
typed_code = [] ++ (format_recovery_code (zeros 32) ++ 10 ∷ [])

abbrev typed_disk : FileSystem
typed_disk =
    (recover_identity_at no_faults (identity_path user) (recovery_path user) candidate true
      (ok typed_code) none recovers empty_disk).0

typed_run :
    recover_identity_at no_faults
      (identity_path user)
      (recovery_path user)
      candidate
      true
      (ok typed_code)
      none
      recovers
      empty_disk
    ≡ (typed_disk, ok 10000)
unfolding program parse_recovery_code format_recovery_code is_whitespace trim trim_end trim_start
    hex_32 is_ascii any parse_pairs from_str_radix to_digit
typed_run = refl

show_recovery_code-recovers_example :
    (secret : List ℕ) × (content (key_disk (recovery_path user)) ≡ some secret)
    × IsRecoveredWith secret user recovers typed_disk 10000
show_recovery_code-recovers_example =
    show_recovery_code-recovers no_faults no_faults user user key_disk shown_disk empty_disk
      typed_disk (format_recovery_code (zeros 32)) [] (10 ∷ []) candidate none recovers 10000
      shown_run key_octets tt (blank, tt) typed_run

-- A host whose connection breaks, that fails once to connect again, and then connects with other
-- random bytes.
abbrev ready : Relay
ready m = ok (some (tunnel_ready 10000))

abbrev first_attempt : Attempt
first_attempt = record {
  faults = no_faults;
  candidate = candidate;
  recovery_candidate = zeros 32;
  connected = none;
  relay = ready;
}

abbrev later_attempts : List Attempt
later_attempts =
    record {
      faults = no_faults;
      candidate = zeros 32;
      recovery_candidate = candidate;
      connected = some unexpected_eof;
      relay = ready;
    }
    ∷ record {
      faults = no_faults;
      candidate = zeros 32;
      recovery_candidate = candidate;
      connected = none;
      relay = ready;
    }
    ∷ []

abbrev hosted : FileSystem
hosted = (host (λ b. b) user none (some 25565) first_attempt later_attempts empty_disk).0

host_run :
    host (λ b. b) user none (some 25565) first_attempt later_attempts empty_disk
    ≡ (hosted, ok ((one_second, err unexpected_eof) ∷ (one_second * 2, ok 10000) ∷ []))
unfolding program
host_run = refl

host-IsHosting_example :
    IsHosting
      (λ b. b)
      user
      none
      (some 25565)
      first_attempt
      later_attempts
      hosted
      ((one_second, err unexpected_eof) ∷ (one_second * 2, ok 10000) ∷ [])
host-IsHosting_example =
    host-IsHosting (λ b. b) user none (some 25565) first_attempt later_attempts empty_disk hosted
      ((one_second, err unexpected_eof) ∷ (one_second * 2, ok 10000) ∷ []) host_run

-- A recovery that the relay refuses, on a machine with an identity.
abbrev user_disk : FileSystem
unfolding program
user_disk = update empty_disk (identity_path user) (some (file (zeros 32) true))

abbrev refused_attempt : Attempt
refused_attempt = record {
  faults = no_faults;
  candidate = candidate;
  recovery_candidate = candidate;
  connected = none;
  relay = refuses;
}

user_identity : content (user_disk (identity_path user)) ≡ some (zeros 32)
unfolding program
user_identity = refl

main-Stays_example :
    content (
      (main (λ b. b) user (recover_identity true) refused_attempt [] (ok (digits 64)) user_disk).0
        (identity_path user))
    ≡ some (zeros 32)
main-Stays_example =
    main-Stays (λ b. b) user (zeros 32) (recover_identity true) refused_attempt [] (ok (digits 64))
      (λ m port e. ground arith) (λ m port e. ground arith) user_disk user_identity
