-- ===== src/State/Blocked.antt =====
-- While the relay cannot save its state, it makes no new promise: crates/server/src/state.rs.
use gamenet.Base.{
  ℕ, ◌≡◌, refl, sym, ap, ◌∙◌, Bool, true, false, Option, none, some, List, [], ◌∷◌, if◌then◌else◌,
  All, saturating_add, arith,
}
use gamenet.HashMap.{get, insert, get-insert_ne}
use gamenet.Lease.{
  TokenId, dec_token, SessionId, Lease, LeaseTable, grace, grace_ms, runs_session, end as end_lease,
}
use gamenet.Lease.Records.{LeaseRecord}
use gamenet.State.{
  ServerState, SaveOutcome, written, not_written, written_unsynced, save, end,
  register_with_recovery, rotate, recover,
}
use gamenet.State.Runs.{Request, registers, ends, rotates, recovers, refreshes, step, run}

-- No identity gains a claim.
abbrev pub NoneGains : LeaseTable → LeaseTable → Type 0
NoneGains t t' = (k : TokenId) → get dec_token k t.leases ≡ none → get dec_token k t'.leases ≡ none

end_lease-NoneGains :
    (t : LeaseTable) (token : TokenId) (s : SessionId) (now : ℕ)
    → NoneGains t (end_lease t token s now).0
unfolding end_lease
end_lease-NoneGains t token s now k absent = go (get dec_token token t.leases) refl
  where
    left : Bool → Lease → LeaseTable × Bool
    left b l =
        if b
        then (
          record t {
            leases =
                insert dec_token token (record l { status = grace (saturating_add now grace_ms) })
                  t.leases;
          },
          true,
        )
        else (t, false)

    ended :
        (l : Lease) (b : Bool)
        → get dec_token token t.leases ≡ some l
        → get dec_token k (left b l).0.leases ≡ none
    ended l true e =
        get-insert_ne dec_token token k (record l { status = grace (saturating_add now grace_ms) })
          t.leases
          (λ z. let q : some l ≡ none = sym e ∙ ap (λ x. get dec_token x t.leases) z ∙ absent in cc)
        ∙ absent
    ended l false e = absent

    go :
        (o : Option Lease)
        → get dec_token token t.leases ≡ o
        → get dec_token k (end_lease t token s now).0.leases ≡ none
    go none e = rw (e, end_lease) absent
    go (some l) e = rw (e, end_lease) (ended l (runs_session s l.status) e)

module _ {C : Type 0} where
  -- The storage is unhealthy, and nobody has a claim that the earlier table has not.
  pub record IsBlocked (t : LeaseTable) (st : ServerState C) : Type 0 where
    pub unhealthy : st.persistence_healthy ≡ false
    pub gains : NoneGains t st.leases

  save-IsBlocked :
      {A : Type 0} (t : LeaseTable) (o : SaveOutcome) (records : List LeaseRecord)
      (st : ServerState C) (a : A)
      → IsBlocked t st
      → IsBlocked t (save o records st st a).0
  unfolding save
  save-IsBlocked t written records st a h = record { unhealthy = h.unhealthy; gains = h.gains }
  save-IsBlocked t (not_written e) records st a h = record { unhealthy = refl; gains = h.gains }
  save-IsBlocked t (written_unsynced e) records st a h = record {
    unhealthy = refl;
    gains = h.gains;
  }

  if-IsBlocked :
      {A : Type 0} (t : LeaseTable) (b : Bool) (x y : ServerState C × A)
      → IsBlocked t x.0
      → IsBlocked t y.0
      → IsBlocked t (if b then x else y).0
  if-IsBlocked t true x y h k = h
  if-IsBlocked t false x y h k = k

  refused-IsBlocked :
      {A : Type 0} (t : LeaseTable) (b : Bool) (x y : ServerState C × A)
      → b ≡ false
      → IsBlocked t y.0
      → IsBlocked t (if b then x else y).0
  refused-IsBlocked t true x y e k = absurd (ground (arith, e))
  refused-IsBlocked t false x y e k = k

  end-IsBlocked :
      (t : LeaseTable) (st : ServerState C) (token : TokenId) (s : SessionId) (now : ℕ)
      (o : SaveOutcome)
      → IsBlocked t st
      → IsBlocked t (end st token s now o).0
  unfolding end
  end-IsBlocked t st token s now o h =
      if-IsBlocked t (end_lease st.leases token s now).1 _ _
        (save-IsBlocked t o _ _ true (record {
          unhealthy = h.unhealthy;
          gains = λ k e. end_lease-NoneGains st.leases token s now k (h.gains k e);
        }))
        h

  -- A request other than the timer's.
  abbrev pub IsRequest : Request C → Type 0
  IsRequest (refreshes now o) = ⊥
  IsRequest (registers token r ip now c bind o) = Unit
  IsRequest (ends token s now o) = Unit
  IsRequest (rotates old new now o) = Unit
  IsRequest (recovers r new ip now o) = Unit

  step-IsBlocked :
      (t : LeaseTable) (st : ServerState C) (q : Request C)
      → IsRequest q
      → IsBlocked t st
      → IsBlocked t (step st q)
  unfolding step register_with_recovery rotate recover
  step-IsBlocked t st (refreshes now o) n h = absurd n
  step-IsBlocked t st (registers token r ip now c bind o) n h =
      refused-IsBlocked t st.persistence_healthy _ _ h.unhealthy h
  step-IsBlocked t st (ends token s now o) n h = end-IsBlocked t st token s now o h
  step-IsBlocked t st (rotates old new now o) n h =
      refused-IsBlocked t st.persistence_healthy _ _ h.unhealthy h
  step-IsBlocked t st (recovers r new ip now o) n h =
      refused-IsBlocked t st.persistence_healthy _ _ h.unhealthy h

  -- From a state whose storage is unhealthy, as a write that failed has left it, every sequence of
  -- requests without the timer leaves it unhealthy, and gives a claim to no identity that has none.
  pub run-IsBlocked :
      (t : LeaseTable) (qs : List (Request C)) (st : ServerState C)
      → All IsRequest qs
      → IsBlocked t st
      → IsBlocked t (run st qs)
  unfolding run
  run-IsBlocked t [] st n h = h
  run-IsBlocked t (q ∷ qs) st n h = run-IsBlocked t qs (step st q) n.1 (step-IsBlocked t st q n.0 h)
