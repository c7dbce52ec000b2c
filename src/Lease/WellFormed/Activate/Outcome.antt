-- ===== src/Lease/WellFormed/Activate/Outcome.antt =====
-- What an activation that succeeds has found and has written: crates/server/src/lease.rs.
use gamenet.Base.{
  ℕ, ◌+◌, ◌≡◌, refl, ◌⊎◌, Bool, true, false, ◌||◌, Option, none, some, List, [], ◌∷◌, inl, inr,
  arith, ltb, contains, Option-cases, ℕ_discrete, Result, ok, err,
}
use gamenet.HashMap.{get, insert}
use gamenet.Address.{IpAddr, host_source}
use gamenet.Errors.{Error}
use gamenet.Lease.{
  TokenId, dec_token, SessionId, active, Lease, LeaseTable, is_retired, is_grace, free_ports,
  candidates, check_ip_quota, charged_to, count_source, max_tunnels_per_ip, activate_reaped,
  enrolled_key, retired_of, or_key, check_key_free, check_key_match,
}

-- The test of `check_ip_quota`.
abbrev pub HasRoom : LeaseTable → IpAddr → Bool → Type 0
HasRoom t ip counted =
    (counted || ltb (count_source (host_source ip) t.leases) max_tunnels_per_ip) ≡ true

abbrev pub OffersTo : LeaseTable → TokenId → IpAddr → List ℕ → Type 0
OffersTo t token ip ports =
    ((l : Lease) × (get dec_token token t.leases ≡ some l)
      × (is_grace l.status ≡ true)
      × (ports ≡ l.port ∷ [])
      × HasRoom t ip (charged_to (host_source ip) l.last_ip))
    ⊎ ((get dec_token token t.leases ≡ none) × (ports ≡ free_ports t.leases) × HasRoom t ip false)

-- Either the identity resumes its own port, or it has no claim and is offered the free ports.
pub candidates-eq-ok :
    (t : LeaseTable) (token : TokenId) (ip : IpAddr) (ports : List ℕ)
    → candidates t token ip ≡ ok ports
    → (is_retired token t.leases ≡ false) × OffersTo t token ip ports
unfolding candidates check_ip_quota
candidates-eq-ok t token ip ports h = elim (Option-cases (get dec_token token t.leases)) [
  | inl e ↦ (ground arith, inr (e, ground arith, ground arith))
  | inr (l, e) ↦ (ground arith, inl (l, e, ground arith, ground arith, ground arith))
]

-- The lease that an activation writes.
abbrev pub activated : Option Lease → Option TokenId → IpAddr → ℕ → SessionId → Lease
activated existing r ip port s = record {
  port = port;
  last_ip = some ip;
  retired_token_ids = retired_of existing;
  recovery_id = or_key (enrolled_key existing) r;
  status = active s;
}

pub activate_reaped-eq-ok :
    (t : LeaseTable) (token : TokenId) (r : Option TokenId) (ip : IpAddr) (port : ℕ)
    (t' : LeaseTable) (s : SessionId)
    → activate_reaped t token r ip port ≡ ok (t', s)
    → (ports : List ℕ) × (candidates t token ip ≡ ok ports)
      × (contains ℕ_discrete ports port ≡ true)
      × (check_key_free t token r ≡ ok tt)
      × (check_key_match (enrolled_key (get dec_token token t.leases)) r ≡ ok tt)
      × (s ≡ t.next_session_id + 1)
      × (t' ≡ record {
        leases =
            insert dec_token token (activated (get dec_token token t.leases) r ip port s) t.leases;
        next_session_id = s;
      })
unfolding activate_reaped
activate_reaped-eq-ok t token r ip port t' s h = go (candidates t token ip) refl
  where
    go :
        (c : Result Error (List ℕ))
        → candidates t token ip ≡ c
        → (ports : List ℕ) × (candidates t token ip ≡ ok ports)
          × (contains ℕ_discrete ports port ≡ true)
          × (check_key_free t token r ≡ ok tt)
          × (check_key_match (enrolled_key (get dec_token token t.leases)) r ≡ ok tt)
          × (s ≡ t.next_session_id + 1)
          × (t' ≡ record {
            leases =
                insert dec_token token
                  (activated (get dec_token token t.leases) r ip port s)
                  t.leases;
            next_session_id = s;
          })
    go (err e) c = absurd (ground arith)
    go (ok ports) c =
        (ports, c, ground arith, ground arith, ground arith, ground arith, ground arith)
