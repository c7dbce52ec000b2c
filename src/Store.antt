-- ===== src/Store.antt =====
-- crates/server/src/lease_store.rs: the file of the lease table, and the import of the old format;
-- the child module `Disk` has what reads and writes the file. The crate `serde_json` is a
-- parameter.
pub mod Records
pub mod Disk
pub mod Reload
pub mod Saved
pub mod Loading
pub mod Started
pub mod Backup
use gamenet.Base.{
  ℕ, ◌≡◌, Bool, true, false, not, ◌&&◌, ◌||◌, Option, none, some, List, [], ◌∷◌, ◌++◌, map, ◌==◌,
  if◌then◌else◌, ltb, leb, holds, any, contains, length, take, saturating_add, Result, ok, err,
  ◌>>=◌, ◌>>◌, ensure, ℕ_discrete,
}
use gamenet.Address.{IpAddr}
use gamenet.Errors.{
  Error, io, invalid_fingerprint, state_too_large, unsupported_version, too_many_legacy,
  invalid_legacy_port, duplicate_legacy_port, duplicate_legacy_token, backup_not_regular,
  backup_differs, no_file_name,
}
use gamenet.Hex.{Text, hex_32, parse_hex_32}
use gamenet.Lease.{TokenId, from_token, LeaseTable, new, grace_ms}
use gamenet.Lease.Records.{LeaseRecord, in_pool, snapshot, restore}
use gamenet.Identity.{dec_bytes}

abbrev pub max_state_bytes : ℕ
max_state_bytes = 1048576

pub record PersistedLease : Type 0 where
  pub token_id : Text
  pub retired_token_id : Option Text
  pub retired_token_ids : List Text
  pub recovery_id : Option Text
  pub port : ℕ
  pub last_ip : Option IpAddr
  pub expires_at_ms : ℕ

pub record PersistedV2 : Type 0 where
  pub version : ℕ
  pub leases : List PersistedLease

abbrev pub LegacyState : Type 0
LegacyState = List (Text × ℕ)

-- What is called of `serde_json`, over its type of values.
pub record Json (V : Type 0) : Type 0 where
  pub to_vec_pretty : PersistedV2 → Result Error (List ℕ)
  pub from_slice : List ℕ → Result Error V
  pub has_version : V → Bool
  pub to_v2 : V → Result Error PersistedV2
  pub to_legacy : V → Result Error LegacyState

abbrev pub hex_of : Option TokenId → Option Text
hex_of none = none
hex_of (some id) = some (hex_32 id.bytes)

unfoldable pub from_record : LeaseRecord → PersistedLease
from_record r = record {
  token_id = hex_32 r.token_id.bytes;
  retired_token_id = none;
  retired_token_ids = map (λ (id : TokenId). hex_32 id.bytes) r.retired_token_ids;
  recovery_id = hex_of r.recovery_id;
  port = r.port;
  last_ip = r.last_ip;
  expires_at_ms = r.expires_at_ms;
}

-- `parse_hex_32(&id).map(TokenId)`.
abbrev pub parse_id : Text → Result Error TokenId
parse_id hex = do bytes ← parse_hex_32 hex; ok (record { bytes = bytes })

unfoldable pub parse_ids : List Text → Result Error (List TokenId)
parse_ids [] = ok []
parse_ids (hex ∷ texts) = do id ← parse_id hex; ids ← parse_ids texts; ok (id ∷ ids)

abbrev pub parse_option : Option Text → Result Error (Option TokenId)
parse_option none = ok none
parse_option (some hex) = do id ← parse_id hex; ok (some id)

abbrev pub to_list : Option Text → List Text
to_list none = []
to_list (some hex) = hex ∷ []

-- `is_ascii_hexdigit` and not `is_ascii_uppercase`.
abbrev pub is_lower_hex : ℕ → Bool
is_lower_hex c = (leb b'0' c && leb c b'9') || (leb b'a' c && leb c b'f')

unfoldable pub into_record : PersistedLease → Result Error LeaseRecord
into_record p = do
  ensure (not (any (λ c. not (is_lower_hex c)) p.token_id)) invalid_fingerprint
  token_id ← parse_id p.token_id
  retired ← parse_ids (p.retired_token_ids ++ to_list p.retired_token_id)
  recovery_id ← parse_option p.recovery_id
  ok (record {
    token_id = token_id;
    retired_token_ids = retired;
    recovery_id = recovery_id;
    port = p.port;
    last_ip = p.last_ip;
    expires_at_ms = p.expires_at_ms;
  })

unfoldable pub into_records : List PersistedLease → Result Error (List LeaseRecord)
into_records [] = ok []
into_records (p ∷ ps) = do r ← into_record p; rs ← into_records ps; ok (r ∷ rs)

-- `sort_by_key(|lease| lease.port)`, which is stable.
abbrev pub insert_by_port : PersistedLease → List PersistedLease → List PersistedLease
insert_by_port p [] = p ∷ []
insert_by_port p (q ∷ qs) =
    let rest = insert_by_port p qs in if leb p.port q.port then p ∷ q ∷ qs else q ∷ rest

unfoldable pub sort_by_port : List PersistedLease → List PersistedLease
sort_by_port [] = []
sort_by_port (p ∷ ps) = insert_by_port p (sort_by_port ps)

-- The sets that `migrate_legacy` fills, and its records.
unfoldable pub migrate_all :
    (List ℕ → List ℕ) → ℕ → List (List ℕ) → List ℕ → LegacyState → Result Error (List LeaseRecord)
migrate_all sha256 now tokens ports [] = ok []
migrate_all sha256 now tokens ports ((hex, port) ∷ legacy) = do
  ensure (in_pool port) invalid_legacy_port
  ensure (not (contains ℕ_discrete ports port)) duplicate_legacy_port
  token ← parse_hex_32 hex
  ensure (not (contains dec_bytes tokens token)) duplicate_legacy_token
  records ← migrate_all sha256 now (token ∷ tokens) (port ∷ ports) legacy
  let migrated : LeaseRecord = record {
    token_id = from_token sha256 token;
    retired_token_ids = [];
    recovery_id = none;
    port = port;
    last_ip = none;
    expires_at_ms = saturating_add now grace_ms;
  }
  ok (migrated ∷ records)

unfoldable pub migrate_legacy : (List ℕ → List ℕ) → LegacyState → ℕ → Result Error LeaseTable
migrate_legacy sha256 legacy now = do
  ensure (leb (length legacy) 1000) too_many_legacy
  records ← migrate_all sha256 now [] [] legacy
  restore records now

-- What a state file says: a table, or the old format's table, which is to be saved in the new one.
pub data Loaded : Type 0 where
  current migrated : LeaseTable → Loaded

abbrev pub parse_v2 : PersistedV2 → ℕ → Result Error LeaseTable
parse_v2 persisted now = do
  ensure (persisted.version == 2) unsupported_version
  records ← into_records persisted.leases
  restore records now

module _ {V : Type 0} (json : Json V) (sha256 : List ℕ → List ℕ) where
  abbrev pub parse_current : V → ℕ → Result Error Loaded
  parse_current value now = do
    persisted ← json.to_v2 value
    table ← parse_v2 persisted now
    ok (current table)

  abbrev pub parse_legacy : V → ℕ → Result Error Loaded
  parse_legacy value now = do
    legacy ← json.to_legacy value
    table ← migrate_legacy sha256 legacy now
    ok (migrated table)

  -- `load_or_create` from the bytes to the table.
  unfoldable pub parse_state : List ℕ → ℕ → Result Error Loaded
  parse_state bytes now = do
    ensure (leb (length bytes) max_state_bytes) state_too_large
    value ← json.from_slice bytes
    if json.has_version value then parse_current value now else parse_legacy value now

  -- The bytes that `save` writes.
  unfoldable pub encode_state : List LeaseRecord → Result Error (List ℕ)
  encode_state records = do
    bytes ←
        json.to_vec_pretty (record { version = 2; leases = sort_by_port (map from_record records) })
    ensure (leb (length bytes) max_state_bytes) state_too_large
    ok bytes
