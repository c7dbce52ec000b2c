-- ===== src/Lease/Runs.antt =====
-- Histories of the lease table: any sequence of the calls that crates/server/src/state.rs makes.
use gamenet.Base.{ℕ, Option, List, [], ◌∷◌}
use gamenet.Address.{IpAddr}
use gamenet.Lease.{
  TokenId, SessionId, LeaseTable, new, reap_expired, candidate_ports, activate_with_recovery, end,
}
use gamenet.Lease.Claims.{rotate_claim, recover_claim}
use gamenet.Lease.WellFormed.{IsWellFormed}
use gamenet.Lease.WellFormed.Facts.{reap_expired-IsWellFormed}
use gamenet.Lease.WellFormed.Activate.{activate_with_recovery-IsWellFormed, end-IsWellFormed}
use gamenet.Lease.WellFormed.Move.{rotate_claim-IsWellFormed, recover_claim-IsWellFormed}

-- A call of an operation, with its arguments and the time last.
pub data Call : Type 0 where
  reaps : ℕ → Call
  asks : TokenId → IpAddr → ℕ → Call
  activates : TokenId → Option TokenId → IpAddr → ℕ → ℕ → Call
  ends : TokenId → SessionId → ℕ → Call
  rotates : TokenId → TokenId → ℕ → Call
  recovers : TokenId → TokenId → IpAddr → ℕ → Call

unfoldable pub step : LeaseTable → Call → LeaseTable
step t (reaps now) = reap_expired t now
step t (asks token ip now) = (candidate_ports t token ip now).0
step t (activates token r ip port now) = (activate_with_recovery t token r ip port now).0
step t (ends token s now) = (end t token s now).0
step t (rotates old k now) = (rotate_claim t old k now).0
step t (recovers r k ip now) = (recover_claim t r k ip now).0

unfoldable pub run : LeaseTable → List Call → LeaseTable
run t [] = t
run t (c ∷ cs) = run (step t c) cs

pub new-IsWellFormed : IsWellFormed new
unfolding new
new-IsWellFormed = record { entries = tt; apart = tt }

-- Every operation, with any arguments and whether it succeeds or fails, takes a well-formed table
-- to a well-formed table.
pub step-IsWellFormed : (t : LeaseTable) (c : Call) → IsWellFormed t → IsWellFormed (step t c)
unfolding step candidate_ports
step-IsWellFormed t (reaps now) w = reap_expired-IsWellFormed t now w
step-IsWellFormed t (asks token ip now) w = reap_expired-IsWellFormed t now w
step-IsWellFormed t (activates token r ip port now) w =
    activate_with_recovery-IsWellFormed t token r ip port now w
step-IsWellFormed t (ends token s now) w = end-IsWellFormed t token s now w
step-IsWellFormed t (rotates old k now) w = rotate_claim-IsWellFormed t old k now w
step-IsWellFormed t (recovers r k ip now) w = recover_claim-IsWellFormed t r k ip now w

pub run-IsWellFormed : (t : LeaseTable) (cs : List Call) → IsWellFormed t → IsWellFormed (run t cs)
unfolding run
run-IsWellFormed t [] w = w
run-IsWellFormed t (c ∷ cs) w = run-IsWellFormed (step t c) cs (step-IsWellFormed t c w)

-- From the empty table on, every sequence of calls, with any arguments, leads to a well-formed table:
-- every port is in the pool and promised once; no two claims share an identity, a recovery key or a
-- session; and no identity that was retired owns a claim or is retired twice.
pub run_new-IsWellFormed : (cs : List Call) → IsWellFormed (run new cs)
run_new-IsWellFormed cs = run-IsWellFormed new cs new-IsWellFormed
