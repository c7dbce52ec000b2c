-- ===== src/Tests/Promise.antt =====
-- A host that comes back, at concrete inputs: crates/server/src/state.rs.
use gamenet.Base.{
  ℕ, ◌≡◌, refl, none, some, List, [], ◌∷◌, ok, ℕ_discrete, filter, find, contains, any,
  saturating_add, arith, ◌≢◌, ap,
}
use gamenet.HashMap.{get, insert, remove, contains_key}
use gamenet.Address.{host_source, to_ipv4_mapped, dec_octets, dec_source}
use gamenet.Errors.{io}
use gamenet.Lease.{
  dec_token, TokenId, active, Lease, new, reap_expired, count_source, check_ip_quota, ports_from,
  port_pool, free_ports, candidates, candidate_ports, activate_reaped, activate_with_recovery,
  end as end_lease,
}
use gamenet.Lease.Records.{snapshot}
use gamenet.Lease.Runs.{new-IsWellFormed}
use gamenet.State.{
  ServerState, written, not_written, Registration, save, finish_registration, try_ports,
  try_candidates, register_with_recovery, disconnect, end,
}
use gamenet.State.Runs.{Request, registers, rotates, refreshes, run}
use gamenet.State.Promise.{IsPromised, register-promises}
use gamenet.Tunnel.{pending_registration, disarm, answer_registration, from_quic}
use gamenet.Tests.Sample.{host, successor, key, home, fresh, free}

program : Unit {0}
unfolding get insert remove contains_key filter find contains any saturating_add ℕ_discrete
    dec_token dec_octets dec_source host_source to_ipv4_mapped new reap_expired count_source
    check_ip_quota ports_from port_pool free_ports candidates candidate_ports activate_reaped
    activate_with_recovery end_lease snapshot save finish_registration try_ports try_candidates
    register_with_recovery disconnect end pending_registration disarm answer_registration from_quic
program = tt

abbrev registration : Registration
registration = record { public_port = 10000; token_id = host; session_id = 1 }

abbrev registered : ServerState ℕ
registered = (register_with_recovery fresh host (some key) home 1000 (some 7) free written).0

registered_run :
    register_with_recovery fresh host (some key) home 1000 (some 7) free written
    ≡ (registered, ok registration)
unfolding program
registered_run = refl

abbrev lease : Lease
lease = record {
  port = 10000;
  last_ip = some home;
  retired_token_ids = [];
  recovery_id = some key;
  status = active 1;
}

found_run : get dec_token host registered.leases.leases ≡ some lease
unfolding program
found_run = refl

other_host : successor ≢ host
other_host e =
    let bytes : ◌≡◌ {A = List ℕ} (2 ∷ []) (1 ∷ []) = ap (λ (t : TokenId). t.bytes) e in ground arith

-- While the host plays, another one registers; while it is away, the other asks to rotate, and the
-- timer saves.
abbrev during : List (Request ℕ)
during = registers successor none home 2000 (some 8) free written ∷ []

abbrev away : List (Request ℕ)
away =
    rotates successor (record { bytes = 4 ∷ [] }) 6000 written
    ∷ refreshes 60000 (not_written (io 5))
    ∷ []

register-promises_example :
    IsPromised (run (end (run registered during) host 1 5000 written).0 away) host home 300000 10000
unfolding saturating_add
register-promises_example =
    register-promises fresh registered host (some key) home home 1000 5000 300000 (some 7) free
      written written registration lease during away new-IsWellFormed registered_run found_run
      ((refl, λ port. (other_host, refl)), tt) ((other_host, refl), (refl, tt)) (omega arith) refl
