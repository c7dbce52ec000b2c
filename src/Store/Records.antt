-- ===== src/Store/Records.antt =====
-- The records of a state file, and what reading them back gives.
use gamenet.Base.{
  ℕ, ◌≡◌, refl, false, not, Option, none, some, List, [], ◌∷◌, ◌++◌, map, All, any, any-of-false,
  All-weaken, ok, arith,
}
use gamenet.Hex.{hex_32}
use gamenet.Hex.Codes.{IsToken, hex_32-IsLowerHex, IsLowerHex, parse_hex_32-hex_32}
use gamenet.Lease.{TokenId}
use gamenet.Lease.Records.{LeaseRecord}
use gamenet.Store.{
  from_record, into_record, into_records, parse_id, parse_ids, parse_option, hex_of, is_lower_hex,
}

-- The fingerprints of a record are 32 bytes each.
abbrev pub HasKey : Option TokenId → Type 0
HasKey none = Unit
HasKey (some id) = IsToken id.bytes

pub record IsRecord (r : LeaseRecord) : Type 0 where
  pub token : IsToken r.token_id.bytes
  pub retired : All (λ (id : TokenId). IsToken id.bytes) r.retired_token_ids
  pub recovery : HasKey r.recovery_id

parse_id-hex : (id : TokenId) → IsToken id.bytes → parse_id (hex_32 id.bytes) ≡ ok id
parse_id-hex id h = rw (parse_hex_32-hex_32 id.bytes h)

parse_ids-hex :
    (ids : List TokenId)
    → All (λ (id : TokenId). IsToken id.bytes) ids
    → parse_ids (map (λ (id : TokenId). hex_32 id.bytes) ids ++ []) ≡ ok ids
unfolding parse_ids
parse_ids-hex [] h = refl
parse_ids-hex (id ∷ ids) h = rw (parse_id-hex id h.0, parse_ids-hex ids h.1)

parse_option-hex : (o : Option TokenId) → HasKey o → parse_option (hex_of o) ≡ ok o
parse_option-hex none h = refl
parse_option-hex (some id) h = rw (parse_id-hex id h)

lower_fingerprint :
    (bytes : List ℕ) → IsToken bytes → any (λ c. not (is_lower_hex c)) (hex_32 bytes) ≡ false
lower_fingerprint bytes h =
    any-of-false (λ c. not (is_lower_hex c)) (hex_32 bytes)
      (All-weaken IsLowerHex (λ c. not (is_lower_hex c) ≡ false) (hex_32 bytes)
        (λ c l. ground arith) (hex_32-IsLowerHex bytes h.octets))

-- A record whose fingerprints are 32 bytes each is written as text and read back as it was.
pub into_record-from_record : (r : LeaseRecord) → IsRecord r → into_record (from_record r) ≡ ok r
unfolding into_record from_record
into_record-from_record r h = rw (
  lower_fingerprint r.token_id.bytes h.token,
  parse_id-hex r.token_id h.token,
  parse_ids-hex r.retired_token_ids h.retired,
  parse_option-hex r.recovery_id h.recovery,
)

pub into_records-from_record :
    (rs : List LeaseRecord) → All IsRecord rs → into_records (map from_record rs) ≡ ok rs
unfolding into_records
into_records-from_record [] h = refl
into_records-from_record (r ∷ rs) h =
    rw (into_record-from_record r h.0, into_records-from_record rs h.1)
