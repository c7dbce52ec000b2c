-- ===== src/Tests/System.antt =====
-- A host that connects to the relay and comes back, at concrete inputs: crates/cli/src and
-- crates/server/src.
use gamenet.Base.{
  ℕ, ◌≡◌, refl, some, List, [], ◌∷◌, ok, ℕ_discrete, filter, find, contains, any, saturating_add,
  arith, none, ◌≢◌, ap,
}
use gamenet.HashMap.{get, insert, remove, contains_key}
use gamenet.Address.{host_source, to_ipv4_mapped, dec_octets, dec_source}
use gamenet.Lease.{
  dec_token, active, Lease, new, reap_expired, count_source, check_ip_quota, ports_from, port_pool,
  free_ports, candidates, candidate_ports, activate_reaped, activate_with_recovery,
  end as end_lease, TokenId,
}
use gamenet.Lease.Records.{snapshot}
use gamenet.State.{
  written, save, finish_registration, try_ports, try_candidates, register_with_recovery, disconnect,
  end, refresh_and_save,
}
use gamenet.Tunnel.{pending_registration, disarm, answer_registration, from_quic, Arrival}
use gamenet.Lease.Runs.{new-IsWellFormed}
use gamenet.Tests.Sample.{
  home, fresh, digest, text, arrival, delivers, zeros, candidate, empty_disk, no_faults, successor,
  free,
}
use gamenet.Identity.{
  load_or_create_at, dec_path, dec_bytes, FileSystem, read_existing, create_new_private,
}
use gamenet.Identity.Files.{content}
use gamenet.Agent.{registered_port}
use gamenet.Identity.Paths.{
  Environment, join, identity_path, recovery_path, load_or_create, load_or_create_recovery,
}
use gamenet.Agent.Hosting.{Attempt, connect}
use gamenet.State.Runs.{Request, refreshes, registers, run, step}
use gamenet.System.{relay_of}
use gamenet.System.Reconnects.{registered, connect-again}

program : Unit {0}
unfolding get insert remove contains_key filter find contains any saturating_add ℕ_discrete
    dec_token dec_octets dec_source host_source to_ipv4_mapped new reap_expired count_source
    check_ip_quota ports_from port_pool free_ports candidates candidate_ports activate_reaped
    activate_with_recovery end_lease snapshot save finish_registration try_ports try_candidates
    register_with_recovery disconnect end pending_registration disarm answer_registration from_quic
    refresh_and_save dec_path dec_bytes read_existing create_new_private load_or_create_at join
    identity_path recovery_path load_or_create load_or_create_recovery registered_port connect run
    step
program = tt

abbrev user : Environment
user = record { home = some (b'/' ∷ []); userprofile = none }

abbrev first_attempt : Attempt
first_attempt = record {
  faults = no_faults;
  candidate = candidate;
  recovery_candidate = zeros 32;
  connected = none;
  relay = relay_of digest text (arrival delivers) fresh;
}

abbrev first_files : FileSystem
first_files = (connect digest user 25565 first_attempt empty_disk).0

first_run : connect digest user 25565 first_attempt empty_disk ≡ (first_files, ok 10000)
unfolding program
first_run = refl

identity_there : content (first_files (identity_path user)) ≡ some candidate
unfolding program
identity_there = refl

key_there : content (first_files (recovery_path user)) ≡ some (zeros 32)
unfolding program
key_there = refl

abbrev host_id : TokenId
host_id = record { bytes = candidate }

abbrev lease : Lease
lease = record {
  port = 10000;
  last_ip = some home;
  retired_token_ids = [];
  recovery_id = some (record { bytes = zeros 32 });
  status = active 1;
}

found_run :
    get dec_token host_id
      (registered digest text user 25565
        (arrival delivers)
        fresh
        candidate
        (zeros 32)).leases.leases
    ≡ some lease
unfolding program
found_run = refl

other_host : successor ≢ host_id
other_host e =
    let bytes : ◌≡◌ {A = List ℕ} (2 ∷ []) candidate = ap (λ (t : TokenId). t.bytes) e in
    ground arith

-- The timer saves while the host plays; another host registers while it is away.
abbrev during : List (Request ℕ)
during = refreshes 2000 written ∷ []

abbrev away : List (Request ℕ)
away = registers successor none home 6000 (some 9) free written ∷ []

abbrev return : Arrival ℕ
return = record (arrival delivers) { now = 200000 }

abbrev second_attempt : Attempt
second_attempt = record {
  faults = no_faults;
  candidate = zeros 32;
  recovery_candidate = candidate;
  connected = none;
  relay = relay_of digest text return (
      run
        (end
          (run (registered digest text user 25565 (arrival delivers) fresh candidate (zeros 32))
            during)
          host_id 1 5000 written).0
        away);
}

abbrev second_files : FileSystem
second_files = (connect digest user 25565 second_attempt first_files).0

second_run : connect digest user 25565 second_attempt first_files ≡ (second_files, ok 10000)
unfolding program
second_run = refl

connect-again_example : ◌≡◌ {A = ℕ} 10000 10000
unfolding saturating_add
connect-again_example =
    connect-again digest text user 25565 first_attempt second_attempt (arrival delivers) return
      fresh empty_disk first_files second_files 10000 10000 candidate (zeros 32) lease 1 5000
      written during away new-IsWellFormed refl first_run identity_there key_there found_run refl
      (refl, tt) ((refl, λ port. (other_host, refl)), tt) refl (omega arith) refl second_run
