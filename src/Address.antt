-- ===== src/Address.antt =====
-- IP addresses, and the network that an address is charged to: `HostSource` of
-- crates/server/src/host_admission.rs. An address is the list of its octets.
use gamenet.Base.{
  ℕ, ◌≡◌, refl, Option, none, some, List, [], ◌∷◌, if◌then◌else◌, holds, take, drop, ℕ_discrete,
}

abbrev pub Octets : Type 0
Octets = List ℕ

pub data IpAddr : Type 0 where
  v4 : Octets → IpAddr
  v6 : Octets → IpAddr

pub data HostSource : Type 0 where
  v4 : Octets → HostSource
  v6 : Octets → HostSource

unfoldable pub dec_octets : Discrete Octets
dec_octets = hlevel ℕ_discrete

unfoldable pub dec_source : Discrete HostSource
dec_source = hlevel ℕ_discrete

-- `std::net::Ipv6Addr::to_ipv4_mapped`: the last four octets of `::ffff:a.b.c.d`.
mapped_prefix : Octets
mapped_prefix = 0 ∷ 0 ∷ 0 ∷ 0 ∷ 0 ∷ 0 ∷ 0 ∷ 0 ∷ 0 ∷ 0 ∷ 255 ∷ 255 ∷ []

unfoldable pub to_ipv4_mapped : Octets → Option Octets
unfolding mapped_prefix
to_ipv4_mapped octets =
    if holds (dec_octets (take 12 octets) mapped_prefix) then some (drop 12 octets) else none

unfoldable pub host_source : IpAddr → HostSource
host_source (IpAddr.v4 octets) = HostSource.v4 octets
host_source (IpAddr.v6 octets) = elim (to_ipv4_mapped octets) [
  | some mapped ↦ HostSource.v4 mapped
  | none ↦ HostSource.v6 (take 8 octets)
]

mapped_test :
    host_source
      (IpAddr.v6 (0 ∷ 0 ∷ 0 ∷ 0 ∷ 0 ∷ 0 ∷ 0 ∷ 0 ∷ 0 ∷ 0 ∷ 255 ∷ 255 ∷ 192 ∷ 0 ∷ 2 ∷ 1 ∷ []))
    ≡ HostSource.v4 (192 ∷ 0 ∷ 2 ∷ 1 ∷ [])
unfolding host_source to_ipv4_mapped dec_octets ℕ_discrete
mapped_test = refl
