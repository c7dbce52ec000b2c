-- ===== src/Tests/Server.antt =====
-- Runs of the relay's parts at concrete inputs: crates/server/src.
use gamenet.Base.{
  false, ℕ, ◌≡◌, refl, true, none, some, List, [], ◌∷◌, ok, err, ℕ_discrete, filter, find, contains,
  any, saturating_add, arith, ◌⊎◌,
}
use gamenet.HashMap.{get, insert, remove, contains_key}
use gamenet.Address.{host_source, to_ipv4_mapped, dec_octets, dec_source}
use gamenet.Errors.{io}
use gamenet.Lease.{
  dec_token, new, reap_expired, count_source, check_ip_quota, ports_from, port_pool, free_ports,
  candidates, candidate_ports, activate_reaped, activate_with_recovery, end as end_lease,
}
use gamenet.Lease.Records.{snapshot}
use gamenet.Lease.Runs.{new-IsWellFormed}
use gamenet.Lease.WellFormed.{IsWellFormed}
use gamenet.State.{
  ServerState, written, not_written, Registration, save, finish_registration, try_ports,
  try_candidates, register_with_recovery, disconnect, end,
}
use gamenet.State.Runs.{Request, registers, recovers, ends, run}
use gamenet.State.Registering.{
  IsRegistered, register_with_recovery-IsRegistered, register_with_recovery-err,
}
use gamenet.State.Connected.{Connected}
use gamenet.State.Connections.{run-Connected}
use gamenet.State.Blocked.{IsBlocked, run-IsBlocked}
use gamenet.Admission.Slots
use gamenet.Admission.Slots.{IsCounted, run_new-IsCounted}
use gamenet.Admission
use gamenet.Tunnel.{Tunnel, pending_registration, disarm, answer_registration, from_quic, tunnel_of}
use gamenet.Tunnel.FirstMessage.{IsOpened, from_quic-IsOpened}
use gamenet.Tunnel.CleanUp.{IsCanceled, from_quic-IsCanceled}
use gamenet.Tests.Sample.{
  host, successor, key, home, fresh, free, digest, text, arrival, delivers, breaks, asks,
}

program : Unit {0}
unfolding get insert remove contains_key filter find contains any saturating_add ℕ_discrete
    dec_token dec_octets dec_source host_source to_ipv4_mapped new reap_expired count_source
    check_ip_quota ports_from port_pool free_ports candidates candidate_ports activate_reaped
    activate_with_recovery end_lease snapshot save finish_registration try_ports try_candidates
    register_with_recovery disconnect end pending_registration disarm answer_registration from_quic
program = tt

abbrev registration : Registration
registration = record { public_port = 10000; token_id = host; session_id = 1 }

abbrev registered : ServerState ℕ
registered = (register_with_recovery fresh host (some key) home 1000 (some 7) free written).0

registered_run :
    register_with_recovery fresh host (some key) home 1000 (some 7) free written
    ≡ (registered, ok registration)
unfolding program
registered_run = refl

register_with_recovery-IsRegistered_example :
    IsRegistered host (some key) home 1000 (some 7) free written registered registration
register_with_recovery-IsRegistered_example =
    register_with_recovery-IsRegistered host (some key) home 1000 (some 7) free written fresh
      registered registration registered_run

abbrev unsaved : ServerState ℕ
unsaved =
    (register_with_recovery fresh host (some key) home 1000 (some 7) free (not_written (io 5))).0

unsaved_run :
    register_with_recovery fresh host (some key) home 1000 (some 7) free (not_written (io 5))
    ≡ (unsaved, err (io 5))
unfolding program
unsaved_run = refl

register_with_recovery-err_example :
    ((unsaved.leases ≡ fresh.leases) ⊎ (unsaved.leases ≡ reap_expired fresh.leases 1000))
    × (unsaved.active_connections ≡ fresh.active_connections)
register_with_recovery-err_example =
    register_with_recovery-err host (some key) home 1000 (some 7) free (not_written (io 5)) fresh
      unsaved (io 5) unsaved_run

abbrev tunnel : Tunnel ℕ
tunnel = tunnel_of (arrival delivers) 25565 registration

opened_run : (from_quic digest text (arrival delivers) fresh asks).answer ≡ ok (some tunnel)
unfolding program
opened_run = refl

from_quic-IsOpened_example :
    IsOpened digest text
      (arrival delivers)
      fresh
      asks
      (from_quic digest text (arrival delivers) fresh asks)
      tunnel
from_quic-IsOpened_example =
    from_quic-IsOpened digest text (arrival delivers) fresh asks tunnel opened_run

canceled_run :
    (from_quic digest text (arrival breaks) fresh asks).dropped
    ≡ some (pending_registration registration)
unfolding program
canceled_run = refl

armed : (pending_registration registration).armed ≡ true
unfolding program
armed = refl

from_quic-IsCanceled_example :
    IsCanceled digest text
      (arrival breaks)
      fresh
      (from_quic digest text (arrival breaks) fresh asks)
      (pending_registration registration)
      2000
      written
from_quic-IsCanceled_example =
    from_quic-IsCanceled digest text (arrival breaks) fresh asks (pending_registration registration)
      2000 written canceled_run armed

run_new-IsCounted_example :
    IsCounted 4
      (Slots.run (Admission.new 4, []) (Slots.connects home ∷ Slots.leaves (host_source home) ∷ []))
run_new-IsCounted_example =
    run_new-IsCounted 4 (Slots.connects home ∷ Slots.leaves (host_source home) ∷ []) (omega arith)

abbrev requests : List (Request ℕ)
requests =
    registers host (some key) home 1000 (some 7) free written
    ∷ recovers key successor home 2000 (not_written (io 5))
    ∷ recovers key successor home 3000 written
    ∷ ends host 1 4000 written
    ∷ []

no_connections : Connected fresh
unfolding program
no_connections = record { live = λ k s c e. cc }

run-Connected_example : IsWellFormed (run fresh requests).leases × Connected (run fresh requests)
run-Connected_example = run-Connected fresh requests new-IsWellFormed no_connections

unhealthy : unsaved.persistence_healthy ≡ false
unfolding program
unhealthy = refl

run-IsBlocked_example :
    IsBlocked unsaved.leases (run unsaved (registers host none home 2000 none free written ∷ []))
run-IsBlocked_example =
    run-IsBlocked unsaved.leases (registers host none home 2000 none free written ∷ []) unsaved
      (tt, tt) (record { unhealthy = unhealthy; gains = λ k e. e })
