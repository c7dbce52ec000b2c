-- ===== src/Lease/Quota/Counting.antt =====
-- The claims that are charged to a network, when a claim goes and another comes:
-- crates/server/src/lease.rs.
use gamenet.Base.{
  ℕ, ◌+◌, ◌≤◌, ◌<◌, ◌≡◌, Bool, true, false, ◌||◌, some, [], ◌∷◌, inl, inr, arith, holds_of,
  holds_of_not, holds-eq-true, if◌then◌else◌, ltb, filter, Bool-cases,
}
use gamenet.HashMap.{HashMap, get, insert, remove}
use gamenet.Address.{IpAddr, HostSource, host_source, dec_source}
use gamenet.Lease.{
  TokenId, dec_token, Lease, LeaseTable, Entry, charged_to, count_source, max_tunnels_per_ip,
}
use gamenet.Lease.WellFormed.Activate.{HasRoom}

-- No network is charged with more tunnels than it may have.
pub record IsWithinQuota (t : LeaseTable) : Type 0 where
  pub limit : (s : HostSource) → count_source s t.leases ≤ max_tunnels_per_ip

pub count_source-filter-le :
    (s : HostSource) (p : Entry → Bool) (m : HashMap TokenId Lease)
    → count_source s (filter p m) ≤ count_source s m
unfolding count_source filter
count_source-filter-le s p [] = omega arith
count_source-filter-le s p (e ∷ m) = ground (arith, count_source-filter-le s p m)

pub count_source-remove-le :
    (s : HostSource) (k : TokenId) (m : HashMap TokenId Lease)
    → count_source s (remove dec_token k m) ≤ count_source s m
unfolding remove
count_source-remove-le s k m = count_source-filter-le s _ m

-- To remove a claim frees its place.
pub count_source-remove :
    (s : HostSource) (k : TokenId) (m : HashMap TokenId Lease) (l : Lease)
    → get dec_token k m ≡ some l
    → charged_to s l.last_ip ≡ true
    → count_source s (remove dec_token k m) + 1 ≤ count_source s m
unfolding count_source remove get filter
count_source-remove s k [] l e h = cc
count_source-remove s k (x ∷ m) l e h = elim (dec_token x.0 k) [
  | yes p ↦
      let same : x.1 ≡ l = ground (arith, holds_of (dec_token x.0 k) p) in
      let here : charged_to s x.1.last_ip ≡ true = rw same h in
      rw (holds_of (dec_token x.0 k) p, here) (omega (arith, count_source-remove-le s k m))
  | no p ↦
      let there : get dec_token k m ≡ some l = ground (arith, holds_of_not (dec_token x.0 k) p) in
      ground (arith, holds_of_not (dec_token x.0 k) p, count_source-remove s k m l there h)
]

pub count_source-insert :
    (s : HostSource) (k : TokenId) (l : Lease) (m : HashMap TokenId Lease)
    → count_source s (insert dec_token k l m)
      ≡ (if charged_to s l.last_ip then 1 else 0) + count_source s (remove dec_token k m)
unfolding count_source insert filter
count_source-insert s k l m = ground arith

-- A claim that stays on its network.
pub replaced-le :
    (s : HostSource) (k k' : TokenId) (l l' : Lease) (m : HashMap TokenId Lease)
    → get dec_token k m ≡ some l
    → charged_to s l'.last_ip ≡ charged_to s l.last_ip
    → count_source s (insert dec_token k' l' (remove dec_token k m)) ≤ count_source s m
replaced-le s k k' l l' m e same = elim (Bool-cases (charged_to s l.last_ip)) [
  | inl c ↦
      rw (count_source-insert, same, c)
        (omega (
          arith,
          count_source-remove s k m l e c,
          count_source-remove-le s k' (remove dec_token k m),
        ))
  | inr c ↦
      rw (count_source-insert, same, c)
        (omega
          (arith, count_source-remove-le s k m, count_source-remove-le s k' (remove dec_token k m)))
]

pub kept-le :
    (s : HostSource) (k : TokenId) (l l' : Lease) (m : HashMap TokenId Lease)
    → get dec_token k m ≡ some l
    → charged_to s l'.last_ip ≡ charged_to s l.last_ip
    → count_source s (insert dec_token k l' m) ≤ count_source s m
kept-le s k l l' m e same = elim (Bool-cases (charged_to s l.last_ip)) [
  | inl c ↦ rw (count_source-insert, same, c) (omega (arith, count_source-remove s k m l e c))
  | inr c ↦ rw (count_source-insert, same, c) (omega (arith, count_source-remove-le s k m))
]

pub charged_to-other :
    (s : HostSource) (ip : IpAddr) → charged_to s (some ip) ≡ true → host_source ip ≡ s
charged_to-other s ip h = holds-eq-true (dec_source (host_source ip) s) h

-- Room for one more claim on the network of `ip`, once `left` has replaced the claims of `t`.
pub record Admits (t : LeaseTable) (ip : IpAddr) (left : HashMap TokenId Lease) : Type 0 where
  pub counted : Bool
  pub room : HasRoom t ip counted
  pub fewer : (s : HostSource) → count_source s left ≤ count_source s t.leases
  pub replaces :
      counted ≡ true
      → count_source (host_source ip) left + 1 ≤ count_source (host_source ip) t.leases

pub below_limit : (b : Bool) (n : ℕ) → b ≡ false → (b || ltb n max_tunnels_per_ip) ≡ true → n < 2
below_limit b n e h = ground arith

pub admitted-le :
    (t : LeaseTable) (ip : IpAddr) (k : TokenId) (l : Lease) (m : HashMap TokenId Lease)
    (s : HostSource)
    → IsWithinQuota t
    → Admits t ip (remove dec_token k m)
    → l.last_ip ≡ some ip
    → count_source s (insert dec_token k l m) ≤ max_tunnels_per_ip
admitted-le t ip k l m s q a e = elim (Bool-cases (charged_to s l.last_ip)) [
  | inl c ↦
      let here : host_source ip ≡ s = holds-eq-true (dec_source (host_source ip) s) (rw e at c) in
      rw (count_source-insert, c)
        (rw (← here) (elim (Bool-cases a.counted) [
          | inl y ↦ omega (arith, a.replaces y, q.limit (host_source ip))
          | inr n ↦ omega (
            arith,
            below_limit a.counted (count_source (host_source ip) t.leases) n a.room,
            a.fewer (host_source ip),
          )
        ]))
  | inr c ↦ rw (count_source-insert, c) (omega (arith, a.fewer s, q.limit s))
]
