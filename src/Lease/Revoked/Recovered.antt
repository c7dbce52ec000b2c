-- ===== src/Lease/Revoked/Recovered.antt =====
-- An identity whose claim a recovery has moved is refused, and its sessions are stale:
-- crates/server/src/lease.rs.
use gamenet.Base.{ℕ, ◌≡◌, true, false, some, saturating_add}
use gamenet.HashMap.{HashMap, get}
use gamenet.Address.{IpAddr}
use gamenet.Lease.{
  TokenId, dec_token, SessionId, grace, Lease, LeaseTable, is_recovery, grace_ms, end,
}
use gamenet.Lease.Claims.{RecoveryResult, displaced_by}
use gamenet.Lease.Revoked.{IsRefused}

-- What a recovery at `now` that changes the owner leaves: the claim that enrolled the key is the new
-- identity's, on the port of the answer, in grace for five minutes; the old identity is refused as
-- long as the claim lives, and the end of any of its sessions changes nothing.
pub record IsRecovered (t t' : LeaseTable) (key new : TokenId) (ip : IpAddr) (now : ℕ)
    (r : RecoveryResult) : Type 0 where
  pub old : TokenId
  pub before : Lease
  pub owned : get dec_token old t.leases ≡ some before
  pub enrolled_by : is_recovery key before.recovery_id ≡ true
  pub displaced : r.displaced ≡ displaced_by old before.status
  pub lease : Lease
  pub found : get dec_token new t'.leases ≡ some lease
  pub kept_port : (lease.port ≡ r.port) × (lease.port ≡ before.port)
  pub in_grace : lease.status ≡ grace (saturating_add now grace_ms)
  pub charged : lease.last_ip ≡ some ip
  pub refused : IsRefused t' old lease.status
  pub stale : (s : SessionId) (later : ℕ) → end t' old s later ≡ (t', false)
