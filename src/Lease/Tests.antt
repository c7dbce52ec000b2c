-- ===== src/Lease/Tests.antt =====
-- Runs of the lease table at concrete inputs, and the theorems applied there.
use gamenet.Base.{
  ℕ, ◌≤◌, ◌≡◌, ◌≢◌, refl, ap, subst, true, none, some, List, [], ◌∷◌, ok, ℕ_discrete, filter, find,
  contains, any, saturating_add, length, arith,
}
use gamenet.HashMap.{get, insert, remove, contains_key}
use gamenet.Address.{IpAddr, host_source, to_ipv4_mapped, dec_octets, dec_source}
use gamenet.Lease.{
  TokenId, dec_token, grace, Lease, LeaseTable, new, reap_expired, count_source, check_ip_quota,
  ports_from, port_pool, free_ports, candidates, candidate_ports, activate_reaped,
  activate_with_recovery, end,
}
use gamenet.Lease.Claims.{
  rotate_reaped, rotate_claim, recover_found, recover_reaped, recover_claim, transferred,
  RecoveryResult,
}
use gamenet.Lease.Records.{snapshot, restore, restore_one, restore_all, add_retired}
use gamenet.Lease.Runs.{
  Call, activates, ends, rotates, step, run, run_new-IsWellFormed, new-IsWellFormed,
}
use gamenet.Lease.WellFormed.{IsWellFormed}
use gamenet.Lease.Quota.{IsWithinQuota, run-IsWithinQuota, new-IsWithinQuota}
use gamenet.Lease.Records.{snapshot, restore}
use gamenet.Lease.Restore.{restore-run}
use gamenet.Lease.Reserved.{activate_with_recovery-others}
use gamenet.Lease.Revoked.{IsMoved, rotate_claim-IsMoved}

program : Unit {0}
unfolding get insert remove contains_key filter find contains any saturating_add ℕ_discrete
    dec_token dec_octets dec_source host_source to_ipv4_mapped new reap_expired count_source
    check_ip_quota ports_from port_pool free_ports candidates candidate_ports activate_reaped
    activate_with_recovery end rotate_reaped rotate_claim recover_found recover_reaped recover_claim
    snapshot restore restore_one restore_all add_retired step run
program = tt

abbrev host : TokenId
host = record { bytes = 1 ∷ [] }

abbrev successor : TokenId
successor = record { bytes = 2 ∷ [] }

abbrev key : TokenId
key = record { bytes = 3 ∷ [] }

abbrev home : IpAddr
home = IpAddr.v4 (192 ∷ 0 ∷ 2 ∷ 1 ∷ [])

-- A host registers at 1000, stops at 2000 and rotates its identity at 3000.
abbrev history : List Call
history =
    activates host (some key) home 10000 1000 ∷ ends host 1 2000 ∷ rotates host successor 3000 ∷ []

abbrev rotated : LeaseTable
rotated = record {
  leases =
      (
        successor,
        record {
          port = 10000;
          last_ip = some home;
          retired_token_ids = host ∷ [];
          recovery_id = some key;
          status = grace 302000;
        },
      )
      ∷ [];
  next_session_id = 1;
}

history_test : run new history ≡ rotated
unfolding program
history_test = refl

run_new-IsWellFormed_example : IsWellFormed (run new history)
run_new-IsWellFormed_example = run_new-IsWellFormed history

-- A stranger from elsewhere, and a host that has stopped.
abbrev away : IpAddr
away = IpAddr.v4 (198 ∷ 51 ∷ 100 ∷ 7 ∷ [])

abbrev stopped : List Call
stopped = activates host (some key) home 10000 1000 ∷ ends host 1 2000 ∷ []

abbrev idle : Lease
idle = record {
  port = 10000;
  last_ip = some home;
  retired_token_ids = [];
  recovery_id = some key;
  status = grace 302000;
}

abbrev stopped_table : LeaseTable
stopped_table = record { leases = (host, idle) ∷ []; next_session_id = 1 }

stopped_test : run new stopped ≡ stopped_table
unfolding program
stopped_test = refl

stopped_table-IsWellFormed : IsWellFormed stopped_table
stopped_table-IsWellFormed = subst IsWellFormed stopped_test (run_new-IsWellFormed stopped)

host_lease : get dec_token host stopped_table.leases ≡ some idle
unfolding program
host_lease = refl

others_run :
    activate_with_recovery stopped_table successor none away 10001 3000
    ≡ ((activate_with_recovery stopped_table successor none away 10001 3000).0, ok 2)
unfolding program
others_run = refl

other_host : successor ≢ host
other_host e =
    let k : ◌≡◌ {A = List ℕ} (2 ∷ []) (1 ∷ []) = ap (λ (t : TokenId). t.bytes) e in ground arith

activate_with_recovery-others_example :
    ◌≢◌ {A = ℕ} 10001 10000
    × (get dec_token host
          (activate_with_recovery stopped_table successor none away 10001 3000).0.leases
        ≡ some idle)
activate_with_recovery-others_example =
    activate_with_recovery-others stopped_table host successor idle none away 10001 3000
      (activate_with_recovery stopped_table successor none away 10001 3000).0 2
      stopped_table-IsWellFormed host_lease refl other_host others_run

abbrev recovery : RecoveryResult
recovery = record { port = 10000; displaced = none; changed = true }

rotation_run :
    rotate_claim stopped_table host successor 3000
    ≡ ((rotate_claim stopped_table host successor 3000).0, ok (transferred 10000))
unfolding program
rotation_run = refl

rotate_claim-IsMoved_example :
    IsMoved
      (reap_expired stopped_table 3000)
      (rotate_claim stopped_table host successor 3000).0
      host
      successor
      10000
rotate_claim-IsMoved_example =
    rotate_claim-IsMoved stopped_table host successor 3000
      (rotate_claim stopped_table host successor 3000).0 10000 rotation_run

run-IsWithinQuota_example : IsWithinQuota (run new history)
run-IsWithinQuota_example = run-IsWithinQuota new history new-IsWellFormed new-IsWithinQuota

restore-run_example :
    (length (snapshot (run new history) 4000) ≤ 1000)
    × ((t' : LeaseTable) × (restore (snapshot (run new history) 4000) 5000 ≡ ok t'))
restore-run_example = restore-run history 4000 5000
