-- ===== src/Lease/Quota.antt =====
-- The limit on tunnels for each network.
mod Counting
use gamenet.Base.{
  ℕ, ◌+◌, ◌≤◌, ◌<◌, ◌≡◌, refl, Bool, true, false, ◌||◌, Option, some, List, [], ◌∷◌, inl, inr,
  arith, holds_of, holds_of_not, holds-eq-true, if◌then◌else◌, ltb, filter, Bool-cases,
  Option-cases, ok,
}
use gamenet.HashMap.{HashMap, get, insert, remove}
use gamenet.Address.{IpAddr, HostSource, host_source, dec_source}
use gamenet.Lease.{
  TokenId, dec_token, SessionId, Lease, LeaseTable, Entry, new, reap_expired, charged_to,
  count_source, check_ip_quota, max_tunnels_per_ip, candidate_ports, activate_reaped,
  activate_with_recovery, end, runs_session,
}
use gamenet.Lease.Claims.{
  RotationResult, RecoveryResult, rotate_reaped, rotate_claim, recover_found, recover_reaped,
  recover_claim, enrolled,
}
use gamenet.Lease.Runs.{
  Call, reaps, asks, activates, ends, rotates, recovers, step, run, step-IsWellFormed,
}
use gamenet.Lease.WellFormed.{IsWellFormed}
use gamenet.Lease.WellFormed.Facts.{commit-keeps, reap_expired-IsWellFormed}
use gamenet.Lease.WellFormed.Activate.{HasRoom, candidates-eq-ok, activate_reaped-eq-ok}
use gamenet.Lease.WellFormed.Move.{rotate_reaped-eq-ok, recover_found-eq-ok, enrolled-get}
pub use gamenet.Lease.Quota.Counting.{IsWithinQuota}
use gamenet.Lease.Quota.Counting.{
  count_source-filter-le, count_source-remove-le, count_source-remove, count_source-insert,
  replaced-le, kept-le, charged_to-other, Admits, below_limit, admitted-le,
}

reap_expired-IsWithinQuota :
    (t : LeaseTable) (now : ℕ) → IsWithinQuota t → IsWithinQuota (reap_expired t now)
unfolding reap_expired
reap_expired-IsWithinQuota t now q = record {
  limit = λ s. omega (arith, count_source-filter-le s _ t.leases, q.limit s);
}

activate_reaped-IsWithinQuota :
    (t : LeaseTable) (token : TokenId) (r : Option TokenId) (ip : IpAddr) (port : ℕ)
    (t' : LeaseTable) (s : SessionId)
    → IsWithinQuota t
    → activate_reaped t token r ip port ≡ ok (t', s)
    → IsWithinQuota t'
activate_reaped-IsWithinQuota t token r ip port t' s q h =
    let (ports, offered, _, _, _, _, made) = activate_reaped-eq-ok t token r ip port t' s h in
    let admits : Admits t ip (remove dec_token token t.leases) =
      elim ((candidates-eq-ok t token ip ports offered).1) [
        | inl (l, e, _, _, room) ↦ record {
          counted = charged_to (host_source ip) l.last_ip;
          room = room;
          fewer = λ s. count_source-remove-le s token t.leases;
          replaces = count_source-remove (host_source ip) token t.leases l e;
        }
        | inr (_, _, room) ↦ record {
          counted = false;
          room = room;
          fewer = λ s. count_source-remove-le s token t.leases;
          replaces = λ e. cc;
        }
      ] in
    rw made (record { limit = λ s. admitted-le t ip token _ t.leases s q admits refl })

end-IsWithinQuota :
    (t : LeaseTable) (token : TokenId) (s : SessionId) (now : ℕ)
    → IsWithinQuota t
    → IsWithinQuota (end t token s now).0
unfolding end
end-IsWithinQuota t token s now q = elim (Option-cases (get dec_token token t.leases)) [
  | inl e ↦ rw (e, end) q
  | inr (l, e) ↦ elim (Bool-cases (runs_session s l.status)) [
    | inl r ↦
        rw (e, end, r)
          (record { limit = λ s. omega (arith, kept-le s token l _ t.leases e refl, q.limit s) })
    | inr r ↦ rw (e, end, r) q
  ]
]

rotate_reaped-IsWithinQuota :
    (t : LeaseTable) (old k : TokenId) (t' : LeaseTable) (r : RotationResult)
    → IsWithinQuota t
    → rotate_reaped t old k ≡ ok (t', r)
    → IsWithinQuota t'
rotate_reaped-IsWithinQuota t old k t' r q h = elim (rotate_reaped-eq-ok t old k t' r h) [
  | inl (e, _, _) ↦ rw e q
  | inr (l, m, e, _) ↦ rw e (record {
    limit = λ s. omega (arith, replaced-le s old k l _ t.leases m.found refl, q.limit s);
  })
]

recover_found-IsWithinQuota :
    (t : LeaseTable) (old : TokenId) (l : Lease) (k : TokenId) (ip : IpAddr) (now : ℕ)
    (t' : LeaseTable) (r : RecoveryResult)
    → IsWithinQuota t
    → get dec_token old t.leases ≡ some l
    → recover_found t (old, l) k ip now ≡ ok (t', r)
    → IsWithinQuota t'
unfolding check_ip_quota
recover_found-IsWithinQuota t old l k ip now t' r q found h =
    elim (recover_found-eq-ok t old l k ip now t' r h) [
      | inl (e, _, _) ↦ rw e q
      | inr (m, e, _) ↦
          let without = remove dec_token old t.leases in
          let admits : Admits t ip (remove dec_token k without) = record {
            counted = charged_to (host_source ip) l.last_ip;
            room = ground (arith, m.quota);
            fewer = λ s.
                omega (
                  arith,
                  count_source-remove-le s k without,
                  count_source-remove-le s old t.leases,
                );
            replaces = λ c. omega (
              arith,
              count_source-remove (host_source ip) old t.leases l found c,
              count_source-remove-le (host_source ip) k without,
            );
          } in
          rw e (record { limit = λ s. admitted-le t ip k _ without s q admits refl })
    ]

recover_reaped-IsWithinQuota :
    (t : LeaseTable) (r k : TokenId) (ip : IpAddr) (now : ℕ) (t' : LeaseTable) (a : RecoveryResult)
    → IsWellFormed t
    → IsWithinQuota t
    → recover_reaped t r k ip now ≡ ok (t', a)
    → IsWithinQuota t'
unfolding recover_reaped
recover_reaped-IsWithinQuota t r k ip now t' a w q h = elim (Option-cases (enrolled r t.leases)) [
  | inl e ↦ absurd (ground arith)
  | inr ((old, l), e) ↦
      recover_found-IsWithinQuota t old l k ip now t' a q (enrolled-get t r old l w e)
        (rw (e, recover_reaped) at h)
]

-- No operation lets a network have more than two tunnels, active or in grace.
pub step-IsWithinQuota :
    (t : LeaseTable) (c : Call) → IsWellFormed t → IsWithinQuota t → IsWithinQuota (step t c)
unfolding step candidate_ports activate_with_recovery rotate_claim recover_claim
step-IsWithinQuota t (reaps now) w q = reap_expired-IsWithinQuota t now q
step-IsWithinQuota t (asks token ip now) w q = reap_expired-IsWithinQuota t now q
step-IsWithinQuota t (activates token r ip port now) w q =
    let q' = reap_expired-IsWithinQuota t now q in
    commit-keeps IsWithinQuota (reap_expired t now) _ q'
      λ t' s. activate_reaped-IsWithinQuota (reap_expired t now) token r ip port t' s q'
step-IsWithinQuota t (ends token s now) w q = end-IsWithinQuota t token s now q
step-IsWithinQuota t (rotates old k now) w q =
    let q' = reap_expired-IsWithinQuota t now q in
    commit-keeps IsWithinQuota (reap_expired t now) _ q'
      λ t' r. rotate_reaped-IsWithinQuota (reap_expired t now) old k t' r q'
step-IsWithinQuota t (recovers r k ip now) w q =
    let q' = reap_expired-IsWithinQuota t now q in
    commit-keeps IsWithinQuota (reap_expired t now) _ q' λ t' a.
      recover_reaped-IsWithinQuota (reap_expired t now) r k ip now t' a
        (reap_expired-IsWellFormed t now w) q'

-- From a well-formed table that charges no network with more than two claims, every sequence of
-- calls leads to a table that charges none with more than two.
pub run-IsWithinQuota :
    (t : LeaseTable) (cs : List Call) → IsWellFormed t → IsWithinQuota t → IsWithinQuota (run t cs)
unfolding run
run-IsWithinQuota t [] w q = q
run-IsWithinQuota t (c ∷ cs) w q =
    run-IsWithinQuota (step t c) cs (step-IsWellFormed t c w) (step-IsWithinQuota t c w q)

pub new-IsWithinQuota : IsWithinQuota new
unfolding new count_source filter
new-IsWithinQuota = record { limit = λ s. omega arith }
