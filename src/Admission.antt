-- ===== src/Admission.antt =====
-- crates/server/src/host_admission.rs: the slots for connections that have not registered, counted
-- for each network. A permit is the network that it was given for; to drop it gives the slot back.
pub mod Slots
use gamenet.Base.{
  ℕ, ◌+◌, ◌-◌, ◌≡◌, Bool, Option, none, some, List, [], ◌∷◌, ◌==◌, leb, if◌then◌else◌, u64_max,
}
use gamenet.HashMap.{HashMap, get, insert, remove}
use gamenet.Address.{IpAddr, HostSource, host_source, dec_source}

pub record PendingByIp : Type 0 where
  pub limit : ℕ
  pub counts : HashMap HostSource ℕ

unfoldable pub new : ℕ → PendingByIp
new limit = record { limit = limit; counts = [] }

-- `counts.entry(source).or_default()`.
abbrev pub or_zero : Option ℕ → ℕ
or_zero none = 0
or_zero (some n) = n

-- `active_for`.
unfoldable pub active_for : PendingByIp → HostSource → ℕ
active_for p s = or_zero (get dec_source s p.counts)

-- A refusal leaves the entry that `or_default` has made.
unfoldable pub try_acquire : PendingByIp → IpAddr → PendingByIp × Option HostSource
try_acquire p ip =
    let source = host_source ip in
    let count = or_zero (get dec_source source p.counts) in
    if leb p.limit count
    then (record p { counts = insert dec_source source count p.counts }, none)
    else (record p { counts = insert dec_source source (count + 1) p.counts }, some source)

-- `*count -= 1` on a `usize`, which wraps where overflow is not checked.
abbrev pub decrement : ℕ → ℕ
decrement count = if count == 0 then u64_max else count - 1

abbrev pub set_count : HostSource → ℕ → HashMap HostSource ℕ → HashMap HostSource ℕ
set_count source count m =
    if count == 0 then remove dec_source source m else insert dec_source source count m

-- `PendingHostPermit::drop`.
unfoldable pub drop_permit : PendingByIp → HostSource → PendingByIp
drop_permit p source = elim (get dec_source source p.counts) [
  | none ↦ p
  | some count ↦ record p { counts = set_count source (decrement count) p.counts }
]
