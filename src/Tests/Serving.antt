-- ===== src/Tests/Serving.antt =====
-- Runs of the relay with all its tasks at concrete inputs: crates/server/src/relay.rs.
use gamenet.Base.{
  ℕ, ◌≡◌, refl, some, List, [], ◌∷◌, ok, ℕ_discrete, filter, find, contains, any, saturating_add,
  arith, All,
}
use gamenet.HashMap.{get, insert, remove, contains_key}
use gamenet.Address.{host_source, to_ipv4_mapped, dec_octets, dec_source}
use gamenet.Errors.{io}
use gamenet.Lease.{
  dec_token, active, Lease, new, reap_expired, count_source, check_ip_quota, ports_from, port_pool,
  free_ports, candidates, candidate_ports, activate_reaped, activate_with_recovery,
  end as end_lease,
}
use gamenet.Lease.Live.{IsLive}
use gamenet.Lease.Records.{restore, restore_all, snapshot}
use gamenet.Admission
use gamenet.Relay.{bind, accept_incoming, registration_ends}
use gamenet.State.{
  written, not_written, save, finish_registration, try_ports, try_candidates,
  register_with_recovery, disconnect, end, load_or_new, refresh_and_save,
}
use gamenet.Tunnel.{
  Tunnel, pending_registration, disarm, answer_registration, from_quic, accept_player,
  player_leaves, abort_players, clean_up, cleanup,
}
use gamenet.Tunnel.Running.{accepted, closed, accept_players, run_round}
use gamenet.Relay.Serving.{
  Serving, Event, refreshes, arrives, registers, settles, tunnel, cleans_up, serve, pick,
  is_waiting, step, run,
}
use gamenet.Relay.Serving.Owners.{Owns}
use gamenet.Relay.Serving.Owned.{run-serve-Owns}
use gamenet.Relay.Serving.Shared.{IsShared, run-serve-IsShared}
use gamenet.Relay.Serving.Draining.{IsOwn, IsQuiet, run-serve-drains}
use gamenet.Lease.Runs.{new-IsWellFormed}
use gamenet.State.Promise.{IsPromised}
use gamenet.Relay.Serving.Returning.{cleans_up-promises}
use gamenet.Tests.Sample.{host, key, home, fresh, digest, text, arrival, delivers, asks}

program : Unit {0}
unfolding get insert remove contains_key filter find contains any saturating_add ℕ_discrete
    dec_token dec_octets dec_source host_source to_ipv4_mapped new reap_expired count_source
    check_ip_quota ports_from port_pool free_ports candidates candidate_ports activate_reaped
    activate_with_recovery end_lease snapshot save finish_registration try_ports try_candidates
    register_with_recovery disconnect end pending_registration disarm answer_registration from_quic
    Admission.new Admission.try_acquire Admission.drop_permit bind accept_incoming registration_ends
    accept_player player_leaves abort_players clean_up cleanup accept_players run_round serve pick
    is_waiting step run restore restore_all load_or_new refresh_and_save
program = tt

-- A host arrives, registers and plays; one that cannot be told of its port is canceled.
abbrev events : List (Event ℕ)
events =
    arrives home
    ∷ registers (arrival delivers) asks
    ∷ settles 0
    ∷ tunnel 0 (accepted delivers)
    ∷ refreshes 1500 (not_written (io 5))
    ∷ []

abbrev serving : Serving ℕ
serving = run digest text (serve fresh) events

nothing_saved : restore [] 500 ≡ ok fresh.leases
unfolding program
nothing_saved = refl

started : load_or_new [] (ok fresh.leases) ≡ ok fresh
unfolding program
started = refl

live : IsLive serving.state.leases host 1
unfolding program
live = record {
  lease = record {
    port = 10000;
    last_ip = some home;
    retired_token_ids = [];
    recovery_id = some key;
    status = active 1;
  };
  found = refl;
  running = refl;
}

-- The host leaves, and its claim is in grace.
left : (run digest text serving (tunnel 0 closed ∷ cleans_up 0 2000 written ∷ [])).stopped ≡ []
unfolding program
left = refl

run-serve-Owns_example : Owns serving host 1
run-serve-Owns_example =
    run-serve-Owns digest text [] [] 500 fresh.leases fresh events host 1 nothing_saved started live

run-serve-IsShared_example : IsShared serving
run-serve-IsShared_example = run-serve-IsShared digest text fresh events

run-serve-drains_example :
    (more : List (Event ℕ)) × All (IsOwn 3000 (not_written (io 5))) more
    × IsQuiet (run digest text (run digest text (serve fresh) events) more)
run-serve-drains_example =
    run-serve-drains digest text 3000 (not_written (io 5)) [] [] 500 fresh.leases fresh events
      nothing_saved started

-- The host of the tunnel goes; the relay cleans up, and saves before it comes back.
abbrev gone : List (Event ℕ)
gone =
    arrives home
    ∷ registers (arrival delivers) asks
    ∷ settles 0
    ∷ tunnel 0 (accepted delivers)
    ∷ tunnel 0 closed
    ∷ []

abbrev stopped_tunnel : Tunnel ℕ
stopped_tunnel = record {
  quic = 7;
  public_port = 10000;
  local_port = 25565;
  peer_ip = home;
  token_id = host;
  session_id = 1;
  stream_counter = 1;
  player_slots = 50;
  players = [];
}

abbrev lease : Lease
lease = record {
  port = 10000;
  last_ip = some home;
  retired_token_ids = [];
  recovery_id = some key;
  status = active 1;
}

stopped_run : pick 0 (run digest text (serve fresh) gone).stopped ≡ some (stopped_tunnel, [])
unfolding program
stopped_run = refl

lease_run : get dec_token host (run digest text (serve fresh) gone).state.leases.leases ≡ some lease
unfolding program
lease_run = refl

cleans_up-promises_example :
    IsPromised
      (run digest text
        (step digest text (run digest text (serve fresh) gone) (cleans_up 0 2000 written))
        (refreshes 60000 (not_written (io 5)) ∷ [])).state
      host
      home
      300000
      10000
unfolding saturating_add
cleans_up-promises_example =
    cleans_up-promises digest text fresh gone (refreshes 60000 (not_written (io 5)) ∷ []) 0 2000
      300000 written stopped_tunnel [] lease home home new-IsWellFormed stopped_run lease_run refl
      refl (refl, tt) (omega arith) refl
