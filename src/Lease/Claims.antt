-- ===== src/Lease/Claims.antt =====
-- crates/server/src/lease.rs: `rotate_claim` and `recover_claim`, which move a port claim to
-- another identity.
use gamenet.Base.{
  ℕ, Bool, true, false, not, Option, none, some, List, [], ◌∷◌, ◌++◌, if◌then◌else◌, holds, ltb,
  saturating_add, find, contains, is_empty, length, drop, Result, ok, err, ◌>>◌, ensure,
}
use gamenet.HashMap.{HashMap, get, insert, remove, contains_key}
use gamenet.Address.{IpAddr, host_source}
use gamenet.Errors.{
  Error, same_identity, new_owns_claim, new_was_rotated, old_already_rotated, host_active,
  already_rotated_once, no_matching_claim, new_was_retired,
}
use gamenet.Lease.{
  TokenId, dec_token, SessionId, LeaseStatus, active, grace, Lease, LeaseTable, Entry, reap_expired,
  is_grace, is_retired, is_recovery, charged_to, check_ip_quota, commit, grace_ms,
  max_retired_identities,
}

pub data RotationResult : Type 0 where
  transferred : ℕ → RotationResult
  unchanged : Option ℕ → RotationResult

-- `RotationResult::port`.
abbrev pub port : RotationResult → Option ℕ
port (transferred p) = some p
port (unchanged p) = p

abbrev pub move_claim : LeaseTable → TokenId → TokenId → Lease → LeaseTable
move_claim t old new lease = record t {
  leases = insert dec_token new lease (remove dec_token old t.leases);
}

abbrev pub retire : Lease → TokenId → Lease
retire l old = record l { retired_token_ids = l.retired_token_ids ++ old ∷ [] }

-- `rotate_claim` once the expired leases are gone.
unfoldable pub rotate_reaped :
    LeaseTable → TokenId → TokenId → Result Error (LeaseTable × RotationResult)
rotate_reaped t old new = do
  ensure (not (holds (dec_token old new))) same_identity
  elim (get dec_token new t.leases) [
    | some lease ↦
        if contains dec_token lease.retired_token_ids old
        then ok (t, unchanged (some lease.port))
        else err new_owns_claim
    | none ↦ do
      ensure (not (is_retired new t.leases)) new_was_rotated
      ensure (not (is_retired old t.leases)) old_already_rotated
      elim (get dec_token old t.leases) [
        | none ↦ ok (t, unchanged none)
        | some lease ↦ do
          ensure (is_grace lease.status) host_active
          ensure (is_empty lease.retired_token_ids) already_rotated_once
          ok (move_claim t old new (retire lease old), transferred lease.port)
      ]
  ]

unfoldable pub rotate_claim :
    LeaseTable → TokenId → TokenId → ℕ → LeaseTable × Result Error RotationResult
rotate_claim t old new now = let t' = reap_expired t now in commit t' (rotate_reaped t' old new)

pub record RecoveryResult : Type 0 where
  pub port : ℕ
  pub displaced : Option (TokenId × SessionId)
  pub changed : Bool

-- The entry that enrolled the recovery key.
abbrev pub enrolled : TokenId → HashMap TokenId Lease → Option Entry
enrolled r = find (λ e. is_recovery r e.1.recovery_id)

abbrev pub displaced_by : TokenId → LeaseStatus → Option (TokenId × SessionId)
displaced_by old (active s) = some (old, s)
displaced_by old (grace t) = none

-- The `if lease.retired_token_ids.len() > MAX_RETIRED_IDENTITIES` of `recover_claim`.
abbrev pub cap_retired : List TokenId → List TokenId
cap_retired ids = if ltb max_retired_identities (length ids) then drop 1 ids else ids

abbrev pub recovered_lease : Lease → TokenId → IpAddr → ℕ → Lease
recovered_lease l old ip now = record l {
  status = grace (saturating_add now grace_ms);
  last_ip = some ip;
  retired_token_ids = cap_retired (l.retired_token_ids ++ old ∷ []);
}

-- `recover_claim` from the entry that the key has found.
unfoldable pub recover_found :
    LeaseTable → Entry → TokenId → IpAddr → ℕ → Result Error (LeaseTable × RecoveryResult)
recover_found t (old, lease) new ip now =
    if holds (dec_token old new)
    then ok (t, record { port = lease.port; displaced = none; changed = false })
    else do
      ensure (not (contains_key dec_token new t.leases)) new_owns_claim
      ensure (not (is_retired new t.leases)) new_was_retired
      check_ip_quota t ip (charged_to (host_source ip) lease.last_ip)
      ok (
        move_claim t old new (recovered_lease lease old ip now),
        record { port = lease.port; displaced = displaced_by old lease.status; changed = true },
      )

-- `recover_claim` once the expired leases are gone.
unfoldable pub recover_reaped :
    LeaseTable → TokenId → TokenId → IpAddr → ℕ → Result Error (LeaseTable × RecoveryResult)
recover_reaped t r new ip now = elim (enrolled r t.leases) [
  | none ↦ err no_matching_claim
  | some e ↦ recover_found t e new ip now
]

unfoldable pub recover_claim :
    LeaseTable → TokenId → TokenId → IpAddr → ℕ → LeaseTable × Result Error RecoveryResult
recover_claim t r new ip now =
    let t' = reap_expired t now in commit t' (recover_reaped t' r new ip now)
