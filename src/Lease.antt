-- ===== src/Lease.antt =====
-- crates/server/src/lease.rs: the lease table, and its operations up to `end`. Rotation, recovery
-- and the saved records are in the child modules. An operation that the code declares with
-- `&mut self` returns the table that it leaves, also beside an error. A `TokenId` is the list of
-- the 32 bytes of the fingerprint; times are `u64` milliseconds.
pub mod Claims
pub mod WellFormed
pub mod Runs
mod Tests
pub mod Restore
pub mod Accepted
pub mod Capacity
pub mod Quota
pub mod Records
pub mod Reserved
pub mod Revoked
pub mod Live
pub mod Sessions
pub mod Promised
use gamenet.Base.{
  ℕ, zero, suc, ◌+◌, ◌≡◌, refl, Bool, true, false, not, ◌&&◌, ◌||◌, Option, none, some, List, [],
  ◌∷◌, map, if◌then◌else◌, holds, ltb, leb, ◌==◌, u64_max, saturating_add, any, filter, contains,
  is_empty, length, Result, ok, err, ◌>>=◌, ◌>>◌, ensure, ℕ_discrete,
}
use gamenet.HashMap.{HashMap, get, insert}
use gamenet.Address.{IpAddr, HostSource, host_source, dec_source}
use gamenet.Errors.{
  Error, claim_rotated, already_active, port_pool_exhausted, port_not_available, too_many_tunnels,
  recovery_key_taken, recovery_key_mismatch, session_id_exhausted,
}

abbrev pub port_start : ℕ
port_start = 10000

abbrev pub port_end : ℕ
port_end = 10999

abbrev pub max_tunnels_per_ip : ℕ
max_tunnels_per_ip = 2

abbrev pub grace_ms : ℕ
grace_ms = 300000

abbrev pub max_retired_identities : ℕ
max_retired_identities = 8

pub record TokenId : Type 0 where
  pub bytes : List ℕ

unfoldable pub dec_token : Discrete TokenId
dec_token = hlevel ℕ_discrete

-- `TokenId::from_token`, over the SHA-256 of the crate `ring`.
abbrev pub from_token : (List ℕ → List ℕ) → List ℕ → TokenId
from_token sha256 token = record { bytes = sha256 token }

-- `==` on `Option<TokenId>`.
abbrev pub is_recovery : TokenId → Option TokenId → Bool
is_recovery r none = false
is_recovery r (some x) = holds (dec_token x r)

abbrev pub SessionId : Type 0
SessionId = ℕ

pub data LeaseStatus : Type 0 where
  active : SessionId → LeaseStatus
  grace : ℕ → LeaseStatus

pub record Lease : Type 0 where
  pub port : ℕ
  pub last_ip : Option IpAddr
  pub retired_token_ids : List TokenId
  pub recovery_id : Option TokenId
  pub status : LeaseStatus

pub record LeaseTable : Type 0 where
  pub leases : HashMap TokenId Lease
  pub next_session_id : ℕ

abbrev pub Entry : Type 0
Entry = TokenId × Lease

unfoldable pub new : LeaseTable
new = record { leases = []; next_session_id = 0 }

abbrev pub is_grace : LeaseStatus → Bool
is_grace (active s) = false
is_grace (grace t) = true

abbrev pub is_expired : ℕ → LeaseStatus → Bool
is_expired now (active s) = false
is_expired now (grace t) = leb t now

unfoldable pub reap_expired : LeaseTable → ℕ → LeaseTable
reap_expired t now = record t { leases = filter (λ e. not (is_expired now e.1.status)) t.leases }

-- Some lease has retired the identity.
abbrev pub is_retired : TokenId → HashMap TokenId Lease → Bool
is_retired token = any (λ e. contains dec_token e.1.retired_token_ids token)

-- `lease.last_ip.map(HostSource::from) == Some(source)`.
abbrev pub charged_to : HostSource → Option IpAddr → Bool
charged_to s none = false
charged_to s (some ip) = holds (dec_source (host_source ip) s)

unfoldable pub count_source : HostSource → HashMap TokenId Lease → ℕ
count_source s m = length (filter (λ e. charged_to s e.1.last_ip) m)

unfoldable pub check_ip_quota : LeaseTable → IpAddr → Bool → Result Error (Unit {0})
check_ip_quota t ip already_counted =
    ensure (already_counted || ltb (count_source (host_source ip) t.leases) max_tunnels_per_ip)
      (too_many_tunnels ip)

-- `start..start + n`.
unfoldable pub ports_from : ℕ → ℕ → List ℕ
ports_from start zero = []
ports_from start (suc n) = start ∷ ports_from (start + 1) n

-- `PORT_START..=PORT_END`.
unfoldable pub port_pool : List ℕ
port_pool = ports_from port_start 1000

unfoldable pub free_ports : HashMap TokenId Lease → List ℕ
free_ports m = filter (λ p. not (contains ℕ_discrete (map (λ e. e.1.port) m) p)) port_pool

-- `candidate_ports` once the expired leases are gone.
unfoldable pub candidates : LeaseTable → TokenId → IpAddr → Result Error (List ℕ)
candidates t token ip = do
  ensure (not (is_retired token t.leases)) claim_rotated
  elim (get dec_token token t.leases) [
    | some lease ↦ do
      ensure (is_grace lease.status) already_active
      check_ip_quota t ip (charged_to (host_source ip) lease.last_ip)
      ok (lease.port ∷ [])
    | none ↦ do
      check_ip_quota t ip false
      ensure (not (is_empty (free_ports t.leases))) port_pool_exhausted
      ok (free_ports t.leases)
  ]

unfoldable pub candidate_ports :
    LeaseTable → TokenId → IpAddr → ℕ → LeaseTable × Result Error (List ℕ)
candidate_ports t token ip now = let t' = reap_expired t now in (t', candidates t' token ip)

-- An error leaves the table that the operation has reaped.
abbrev pub commit {ℓ} :
    {A : Type ℓ} → LeaseTable → Result Error (LeaseTable × A) → LeaseTable × Result Error A
commit t (ok (t', a)) = (t', ok a)
commit t (err e) = (t, err e)

abbrev pub enrolled_key : Option Lease → Option TokenId
enrolled_key none = none
enrolled_key (some l) = l.recovery_id

abbrev pub retired_of : Option Lease → List TokenId
retired_of none = []
retired_of (some l) = l.retired_token_ids

-- Another claim has enrolled the key.
abbrev pub owned_elsewhere : TokenId → TokenId → HashMap TokenId Lease → Bool
owned_elsewhere token r =
    any (λ e. not (holds (dec_token e.0 token)) && is_recovery r e.1.recovery_id)

abbrev pub check_key_free : LeaseTable → TokenId → Option TokenId → Result Error (Unit {0})
check_key_free t token none = ok tt
check_key_free t token (some r) = ensure (not (owned_elsewhere token r t.leases)) recovery_key_taken

abbrev pub check_key_match : Option TokenId → Option TokenId → Result Error (Unit {0})
check_key_match (some enrolled) (some presented) =
    ensure (holds (dec_token enrolled presented)) recovery_key_mismatch
check_key_match (some enrolled) none = ok tt
check_key_match none presented = ok tt

-- `Option::or`.
abbrev pub or_key : Option TokenId → Option TokenId → Option TokenId
or_key none b = b
or_key (some a) b = some a

-- `u64::checked_add(1)`.
abbrev pub next_session : ℕ → Result Error ℕ
next_session n = if ltb n u64_max then ok (n + 1) else err session_id_exhausted

-- `activate_with_recovery` once the expired leases are gone.
unfoldable pub activate_reaped :
    LeaseTable → TokenId → Option TokenId → IpAddr → ℕ → Result Error (LeaseTable × SessionId)
activate_reaped t token recovery_id ip port = do
  ports ← candidates t token ip
  ensure (contains ℕ_discrete ports port) port_not_available
  check_key_free t token recovery_id
  let existing = get dec_token token t.leases
  check_key_match (enrolled_key existing) recovery_id
  session ← next_session t.next_session_id
  let lease : Lease = record {
    port = port;
    last_ip = some ip;
    retired_token_ids = retired_of existing;
    recovery_id = or_key (enrolled_key existing) recovery_id;
    status = active session;
  }
  ok (record { leases = insert dec_token token lease t.leases; next_session_id = session }, session)

unfoldable pub activate_with_recovery :
    LeaseTable → TokenId → Option TokenId → IpAddr → ℕ → ℕ → LeaseTable × Result Error SessionId
activate_with_recovery t token recovery_id ip port now =
    let t' = reap_expired t now in commit t' (activate_reaped t' token recovery_id ip port)

abbrev pub runs_session : SessionId → LeaseStatus → Bool
runs_session s (active current) = current == s
runs_session s (grace t) = false

unfoldable pub end : LeaseTable → TokenId → SessionId → ℕ → LeaseTable × Bool
end t token session now = elim (get dec_token token t.leases) [
  | none ↦ (t, false)
  | some lease ↦
      if runs_session session lease.status
      then (
        record t {
          leases =
              insert dec_token token (record lease { status = grace (saturating_add now grace_ms) })
                t.leases;
        },
        true,
      )
      else (t, false)
]
