-- ===== src/Relay.antt =====
-- crates/server/src/relay.rs: the choice of the TLS certificate, and the admission of connections
-- that have not registered yet, with the permit of the relay and that of the network. A connection
-- holds both until its registration ends, in whatever way.
pub mod Admitting
pub mod Serving
use gamenet.Base.{
  ℕ, zero, suc, ◌+◌, ◌-◌, ◌≡◌, Bool, true, false, Option, none, some, List, [], ◌∷◌, ◌==◌,
  if◌then◌else◌, Result, ok, err,
}
use gamenet.Address.{IpAddr, HostSource}
use gamenet.Admission.{PendingByIp, new, try_acquire, drop_permit}
use gamenet.Admission.Slots.{held, give_back}
use gamenet.Errors.{Error, no_certificate, incomplete_pair}

abbrev pub pending_limit : ℕ
pending_limit = 128

abbrev pub pending_per_ip_limit : ℕ
pending_per_ip_limit = 4

abbrev pub global_player_limit : ℕ
global_player_limit = 2000

-- What `tls_server_config` loads.
pub data Certificate (P : Type 0) : Type 0 where
  from_files : P → P → Certificate P
  self_signed : Certificate P

-- The configuration itself is made by `crypto.rs`.
unfoldable pub tls_server_config :
    {P : Type 0} → Option P → Option P → Bool → Result Error (Certificate P)
tls_server_config (some cert) (some key) development = ok (from_files cert key)
tls_server_config none none true = ok self_signed
tls_server_config none none false = err no_certificate
tls_server_config (some cert) none development = err incomplete_pair
tls_server_config none (some key) development = err incomplete_pair

-- The permits of the relay, and the networks of the connections that are registering.
pub record RelayServer : Type 0 where
  pub pending : ℕ
  pub pending_by_ip : PendingByIp
  pub registering : List HostSource

-- `bind_with_config_and_state_path`.
unfoldable pub bind : RelayServer
bind = record {
  pending = pending_limit;
  pending_by_ip = new pending_per_ip_limit;
  registering = [];
}

-- The permit of the relay is dropped when there is none for the network.
abbrev pub admit : RelayServer → ℕ → PendingByIp × Option HostSource → RelayServer × Bool
admit r left (by_ip, none) = (record r { pending_by_ip = by_ip }, false)
admit r left (by_ip, some source) =
    (record r { pending = left; pending_by_ip = by_ip; registering = source ∷ r.registering }, true)

abbrev pub acquire : RelayServer → IpAddr → ℕ → RelayServer × Bool
acquire r ip zero = (r, false)
acquire r ip (suc left) = admit r left (try_acquire r.pending_by_ip ip)

-- The branch of `run` for an incoming connection: whether it is taken.
unfoldable pub accept_incoming : RelayServer → IpAddr → RelayServer × Bool
accept_incoming r ip = acquire r ip r.pending

-- `drop((permit, ip_permit))`, of a connection that is registering.
unfoldable pub registration_ends : RelayServer → HostSource → RelayServer
registration_ends r source = if held source r.registering == 0 then r else record {
  pending = r.pending + 1;
  pending_by_ip = drop_permit r.pending_by_ip source;
  registering = give_back source r.registering;
}
