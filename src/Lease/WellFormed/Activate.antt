-- ===== src/Lease/WellFormed/Activate.antt =====
-- `candidate_ports`, `activate_with_recovery` and `end` keep a table well formed.
mod Outcome
use gamenet.Base.{
  ℕ, ◌+◌, ◌≡◌, refl, ◌≢◌, ◌⊎◌, Bool, true, false, not, ◌&&◌, ◌||◌, Option, none, some, List, [],
  ◌∷◌, inl, inr, arith, holds, holds_of, holds-eq-true, ltb, contains, any-eq-false, All, NotIn,
  All-weaken, All-zip, Bool-cases, Option-cases, ℕ_discrete, Result, ok, err,
}
use gamenet.HashMap.{HashMap, get, insert, remove, All-get, All-remove, remove_ne}
use gamenet.Address.{IpAddr, host_source}
use gamenet.Errors.{Error}
use gamenet.Lease.{
  TokenId, dec_token, SessionId, LeaseStatus, active, grace, Lease, LeaseTable, reap_expired,
  is_retired, is_grace, is_recovery, free_ports, candidates, check_ip_quota, charged_to,
  count_source, max_tunnels_per_ip, activate_reaped, activate_with_recovery, end, enrolled_key,
  retired_of, or_key, check_key_free, check_key_match, runs_session,
}
use gamenet.Lease.WellFormed.{IsEntry, Apart, IsWellFormed, SessionUpTo, OtherKey, OtherSession}
use gamenet.Lease.WellFormed.Facts.{
  All-contains, commit-keeps, insert-IsWellFormed, get-Apart, not_retired, free_ports-contains,
  reap_expired-IsWellFormed,
}
pub use gamenet.Lease.WellFormed.Activate.Outcome.{
  HasRoom, OffersTo, candidates-eq-ok, activated, activate_reaped-eq-ok,
}

OtherKey_of_is_recovery :
    (r : TokenId) (o : Option TokenId) → is_recovery r o ≡ false → OtherKey (some r) o
OtherKey_of_is_recovery r none h = tt
OtherKey_of_is_recovery r (some x) h = λ e. ground (arith, holds_of (dec_token x r) e)

-- A key that passes the check is in no other claim.
key_free :
    (t : LeaseTable) (token : TokenId) (r : Option TokenId)
    → check_key_free t token r ≡ ok tt
    → All (λ e. OtherKey r e.1.recovery_id) (remove dec_token token t.leases)
key_free t token none h =
    All-weaken _ _ (remove dec_token token t.leases) (λ e _. tt)
      (remove_ne dec_token token t.leases)
key_free t token (some r) h =
    All-zip (λ e. (not (holds (dec_token e.0 token)) && is_recovery r e.1.recovery_id) ≡ false)
      (λ e. e.0 ≢ token) (λ e. OtherKey (some r) e.1.recovery_id) (remove dec_token token t.leases)
      (λ e f n.
        OtherKey_of_is_recovery r e.1.recovery_id
          (ground (arith, holds-eq-true (dec_token e.0 token))))
      (All-remove dec_token _ token t.leases (any-eq-false _ t.leases (ground arith)))
      (remove_ne dec_token token t.leases)

OtherKey-or_key : (a b c : Option TokenId) → OtherKey a c → OtherKey b c → OtherKey (or_key a b) c
OtherKey-or_key none b c h k = k
OtherKey-or_key (some a) b c h k = h

fresh_session : (n : ℕ) (s : LeaseStatus) → SessionUpTo n s → OtherSession (active (n + 1)) s
fresh_session n (active s) h = λ e. omega arith
fresh_session n (grace t) h = tt

module _ (t : LeaseTable) (token : TokenId) (r : Option TokenId) (ip : IpAddr) (port : ℕ)
    (w : IsWellFormed t)
    (free : All (λ e. OtherKey r e.1.recovery_id) (remove dec_token token t.leases)) where
  abbrev s : SessionId
  s = t.next_session_id + 1

  abbrev rest : HashMap TokenId Lease
  rest = remove dec_token token t.leases

  fresh : All (λ e. OtherSession (active s) e.1.status) rest
  fresh =
      All-weaken (IsEntry t.next_session_id) _ rest
        (λ e i. fresh_session t.next_session_id e.1.status i.session)
        (All-remove dec_token _ token t.leases w.entries)

  resumed-Apart :
      (l : Lease)
      → get dec_token token t.leases ≡ some l
      → All (Apart (token, activated (some l) r ip l.port s)) rest
  resumed-Apart l e =
      All-zip (λ e. OtherKey r e.1.recovery_id × OtherSession (active s) e.1.status)
        (Apart (token, l)) _ rest
        (λ e f a. record {
          key = a.key;
          port = a.port;
          recovery = OtherKey-or_key l.recovery_id r e.1.recovery_id a.recovery f.0;
          retired = a.retired;
          left = a.left;
          right = a.right;
          session = f.1;
        })
        (All-zip _ _ _ rest (λ e f g. (f, g)) free fresh) (get-Apart t token w e)

  fresh-Apart :
      All (λ e. e.1.port ≢ port) t.leases
      → All (λ e. NotIn token e.1.retired_token_ids) t.leases
      → All (Apart (token, activated none r ip port s)) rest
  fresh-Apart p n =
      All-zip (λ e. OtherKey r e.1.recovery_id × OtherSession (active s) e.1.status)
        (λ e. (e.1.port ≢ port) × NotIn token e.1.retired_token_ids × (e.0 ≢ token)) _ rest
        (λ e f a. record {
          key = a.2;
          port = a.0;
          recovery = f.0;
          retired = tt;
          left = a.1;
          right = tt;
          session = f.1;
        })
        (All-zip _ _ _ rest (λ e f g. (f, g)) free fresh)
        (All-zip _ (λ e. NotIn token e.1.retired_token_ids × (e.0 ≢ token)) _ rest
          (λ e f g. (f, g.0, g.1)) (All-remove dec_token _ token t.leases p)
          (All-zip _ _ _ rest (λ e f g. (f, g)) (All-remove dec_token _ token t.leases n)
            (remove_ne dec_token token t.leases)))

  resumed-IsWellFormed :
      (l : Lease)
      → get dec_token token t.leases ≡ some l
      → IsWellFormed (record {
        leases = insert dec_token token (activated (some l) r ip l.port s) t.leases;
        next_session_id = s;
      })
  resumed-IsWellFormed l e =
      let i : IsEntry t.next_session_id (token, l) =
        All-get dec_token (IsEntry t.next_session_id) token t.leases w.entries e in
      insert-IsWellFormed t token _ (t.next_session_id + 1) (omega arith) w
        (record {
          from_start = i.from_start;
          to_end = i.to_end;
          own = i.own;
          distinct = i.distinct;
          capped = i.capped;
          session = omega arith;
        })
        (resumed-Apart l e)

  fresh-IsWellFormed :
      is_retired token t.leases ≡ false
      → contains ℕ_discrete (free_ports t.leases) port ≡ true
      → IsWellFormed (record {
        leases = insert dec_token token (activated none r ip port s) t.leases;
        next_session_id = s;
      })
  fresh-IsWellFormed n c =
      let (start, stop, free_port) = free_ports-contains port t.leases c in
      insert-IsWellFormed t token _ (t.next_session_id + 1) (omega arith) w
        (record {
          from_start = start;
          to_end = stop;
          own = tt;
          distinct = tt;
          capped = omega arith;
          session = omega arith;
        })
        (fresh-Apart free_port (not_retired token t.leases n))

only_port : (a b : ℕ) (xs : List ℕ) → xs ≡ a ∷ [] → contains ℕ_discrete xs b ≡ true → b ≡ a
only_port a b xs q c = All-contains (λ x. x ≡ a) ℕ_discrete (a ∷ []) b (refl, tt) (rw q at c)

activate_reaped-IsWellFormed :
    (t : LeaseTable) (token : TokenId) (r : Option TokenId) (ip : IpAddr) (port : ℕ)
    (t' : LeaseTable) (s : SessionId)
    → IsWellFormed t
    → activate_reaped t token r ip port ≡ ok (t', s)
    → IsWellFormed t'
activate_reaped-IsWellFormed t token r ip port t' s w h =
    let (ports, offered, chosen, free, _, session, made) =
      activate_reaped-eq-ok t token r ip port t' s h in
    let (kept, offers) = candidates-eq-ok t token ip ports offered in
    let others = key_free t token r free in
    rw made (
      rw session (elim offers [
        | inl (l, e, _, only, _) ↦
            let p : port ≡ l.port = only_port l.port port ports only chosen in
            rw e (rw p (resumed-IsWellFormed t token r ip port w others l e))
        | inr (e, all, _) ↦
            rw e (fresh-IsWellFormed t token r ip port w others kept (rw all at chosen))
      ]))

-- `activate_with_recovery` keeps the table well formed, whether it succeeds or not.
pub activate_with_recovery-IsWellFormed :
    (t : LeaseTable) (token : TokenId) (r : Option TokenId) (ip : IpAddr) (port now : ℕ)
    → IsWellFormed t
    → IsWellFormed (activate_with_recovery t token r ip port now).0
unfolding activate_with_recovery
activate_with_recovery-IsWellFormed t token r ip port now w =
    let w' = reap_expired-IsWellFormed t now w in
    commit-keeps IsWellFormed (reap_expired t now) _ w'
      λ t' s h. activate_reaped-IsWellFormed (reap_expired t now) token r ip port t' s w' h

ended-Apart :
    (token : TokenId) (l : Lease) (expires : ℕ) (m : HashMap TokenId Lease)
    → All (Apart (token, l)) m
    → All (Apart (token, record l { status = grace expires })) m
ended-Apart token l expires m h =
    All-weaken (Apart (token, l)) _ m
      (λ e a. record {
        key = a.key;
        port = a.port;
        recovery = a.recovery;
        retired = a.retired;
        left = a.left;
        right = a.right;
        session = tt;
      })
      h

ended-IsWellFormed :
    (t : LeaseTable) (token : TokenId) (l : Lease) (expires : ℕ)
    → IsWellFormed t
    → get dec_token token t.leases ≡ some l
    → IsWellFormed (record t {
      leases = insert dec_token token (record l { status = grace expires }) t.leases;
    })
ended-IsWellFormed t token l expires w e =
    let i : IsEntry t.next_session_id (token, l) =
      All-get dec_token (IsEntry t.next_session_id) token t.leases w.entries e in
    insert-IsWellFormed t token _ t.next_session_id (omega arith) w
      (record {
        from_start = i.from_start;
        to_end = i.to_end;
        own = i.own;
        distinct = i.distinct;
        capped = i.capped;
        session = tt;
      })
      (ended-Apart token l expires _ (get-Apart t token w e))

-- `end` keeps the table well formed.
pub end-IsWellFormed :
    (t : LeaseTable) (token : TokenId) (s : SessionId) (now : ℕ)
    → IsWellFormed t
    → IsWellFormed (end t token s now).0
unfolding end
end-IsWellFormed t token s now w = elim (Option-cases (get dec_token token t.leases)) [
  | inl e ↦ rw (e, end) w
  | inr (l, e) ↦ elim (Bool-cases (runs_session s l.status)) [
    | inl r ↦ rw (e, end, r) (ended-IsWellFormed t token l _ w e)
    | inr r ↦ rw (e, end, r) w
  ]
]
