-- ===== src/Lease/Records.antt =====
-- crates/server/src/lease.rs: `snapshot` and `restore`, between the table and the saved records.
use gamenet.Base.{
  ℕ, ◌+◌, ◌-◌, Bool, not, ◌&&◌, Option, none, some, List, [], ◌∷◌, map, if◌then◌else◌, holds, leb,
  saturating_add, any, contains, length, Result, ok, ◌>>=◌, ◌>>◌, ensure, ℕ_discrete,
}
use gamenet.HashMap.{insert}
use gamenet.Address.{IpAddr}
use gamenet.Errors.{
  Error, too_many_leases, invalid_port, duplicate_port, duplicate_token, duplicate_recovery_key,
  too_many_retired, retires_itself, duplicate_retired, retired_overlap,
}
use gamenet.Lease.{
  TokenId, dec_token, LeaseStatus, active, grace, Lease, LeaseTable, Entry, new, grace_ms,
  max_retired_identities, port_start, port_end,
}

pub record LeaseRecord : Type 0 where
  pub token_id : TokenId
  pub retired_token_ids : List TokenId
  pub recovery_id : Option TokenId
  pub port : ℕ
  pub last_ip : Option IpAddr
  pub expires_at_ms : ℕ

abbrev pub expiry : ℕ → LeaseStatus → ℕ
expiry now (active s) = saturating_add now grace_ms
expiry now (grace t) = t

abbrev pub to_record : ℕ → Entry → LeaseRecord
to_record now (token, l) = record {
  token_id = token;
  retired_token_ids = l.retired_token_ids;
  recovery_id = l.recovery_id;
  port = l.port;
  last_ip = l.last_ip;
  expires_at_ms = expiry now l.status;
}

unfoldable pub snapshot : LeaseTable → ℕ → List LeaseRecord
snapshot t now = map (to_record now) t.leases

-- The sets that `restore` fills while it reads the records, and the table that it builds.
pub record Restored : Type 0 where
  pub table : LeaseTable
  pub ports : List ℕ
  pub tokens : List TokenId
  pub retired : List TokenId
  pub recovery_ids : List TokenId

abbrev pub add_recovery : List TokenId → Option TokenId → Result Error (List TokenId)
add_recovery ids none = ok ids
add_recovery ids (some r) = do
  ensure (not (contains dec_token ids r)) duplicate_recovery_key
  ok (r ∷ ids)

-- `for old in &record.retired_token_ids`.
unfoldable pub add_retired : TokenId → List TokenId → List TokenId → Result Error (List TokenId)
add_retired token seen [] = ok seen
add_retired token seen (old ∷ ids) = do
  ensure (not (holds (dec_token old token))) retires_itself
  ensure (not (contains dec_token seen old)) duplicate_retired
  add_retired token (old ∷ seen) ids

abbrev pub in_pool : ℕ → Bool
in_pool p = leb port_start p && leb p port_end

abbrev pub restored_entry : LeaseRecord → Lease
restored_entry r = record {
  port = r.port;
  last_ip = r.last_ip;
  retired_token_ids = r.retired_token_ids;
  recovery_id = r.recovery_id;
  status = grace r.expires_at_ms;
}

-- An expired record is checked, and then skipped.
abbrev pub add_unexpired : ℕ → LeaseRecord → LeaseTable → LeaseTable
add_unexpired now r t =
    if leb r.expires_at_ms now
    then t
    else record t { leases = insert dec_token r.token_id (restored_entry r) t.leases }

-- The body of the loop over the records.
unfoldable pub restore_one : ℕ → Restored → LeaseRecord → Result Error Restored
restore_one now s r = do
  ensure (in_pool r.port) invalid_port
  ensure (not (contains ℕ_discrete s.ports r.port)) duplicate_port
  ensure (not (contains dec_token s.tokens r.token_id)) duplicate_token
  recovery_ids ← add_recovery s.recovery_ids r.recovery_id
  ensure (leb (length r.retired_token_ids) max_retired_identities) too_many_retired
  retired ← add_retired r.token_id s.retired r.retired_token_ids
  ok (record {
    table = add_unexpired now r s.table;
    ports = r.port ∷ s.ports;
    tokens = r.token_id ∷ s.tokens;
    retired = retired;
    recovery_ids = recovery_ids;
  })

unfoldable pub restore_all : ℕ → Restored → List LeaseRecord → Result Error Restored
restore_all now s [] = ok s
restore_all now s (r ∷ rs) = do s' ← restore_one now s r; restore_all now s' rs

abbrev pub nothing_restored : Restored
unfolding new
nothing_restored = record { table = new; ports = []; tokens = []; retired = []; recovery_ids = [] }

unfoldable pub restore : List LeaseRecord → ℕ → Result Error LeaseTable
restore records now = do
  ensure (leb (length records) (port_end - port_start + 1)) too_many_leases
  s ← restore_all now nothing_restored records
  ensure (not (any (contains dec_token s.retired) s.tokens)) retired_overlap
  ok s.table
