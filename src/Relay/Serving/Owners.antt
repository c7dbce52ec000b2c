-- ===== src/Relay/Serving/Owners.antt =====
-- The tasks that will end a session, and how the events move a session from one task to another.
use gamenet.Base.{
  ℕ, ◌≡◌, ◌∙◌, ◌⊎◌, inl, inr, true, false, Bool, Option, none, some, List, All, All-weaken, Result,
}
use gamenet.Errors.{Error}
use gamenet.Lease.{TokenId, SessionId, LeaseStatus, active, grace, LeaseTable}
use gamenet.Lease.Sessions.{Owned, RunsOnly}
use gamenet.Lease.WellFormed.{IsWellFormed}
use gamenet.State.Connected.{Connected}
use gamenet.Tunnel.{Tunnel, PendingRegistration}
use gamenet.Tunnel.Requests.{HandedOver}
use gamenet.Relay.Serving.{Serving, Answering, pick, put, opened, spawned, settle, rejoin}
use gamenet.Relay.Serving.Tasks.{Any, Any-pick, Any-put}

module _ {C : Type 0} (k : TokenId) (s : SessionId) where
  abbrev pub OfTunnel : Tunnel C → Type 0
  OfTunnel t = (t.token_id ≡ k) × (t.session_id ≡ s)

abbrev pub OfPending : TokenId → SessionId → PendingRegistration → Type 0
OfPending k s p = (p.token_id ≡ k) × (p.session_id ≡ s)

abbrev pub OfDropped : TokenId → SessionId → Option PendingRegistration → Type 0
OfDropped k s none = ⊥
OfDropped k s (some p) = OfPending k s p

module _ {C : Type 0} where
  -- The session is that of a registration that is about to end, of a tunnel that runs, of one that is
  -- about to be cleaned up, or of a canceled registration that is about to be cleaned up.
  abbrev pub Owns : Serving C → TokenId → SessionId → Type 0
  Owns s k n =
      Any (λ (a : Answering C). OfDropped k n a.dropped) s.answering
      ⊎ Any (OfTunnel k n) s.tunnels
      ⊎ Any (OfTunnel k n) s.stopped
      ⊎ Any (OfPending k n) s.canceled

  pub record IsOwned (s : Serving C) : Type 0 where
    pub well_formed : IsWellFormed s.state.leases
    pub connected : Connected s.state
    pub handed : All (λ (a : Answering C). HandedOver a.dropped a.answer) s.answering
    pub armed : All (λ (p : PendingRegistration). p.armed ≡ true) s.canceled
    pub sessions : RunsOnly (Owns s) s.state.leases

-- More sessions are allowed.
pub RunsOnly-weaken :
    (Q Q' : TokenId → SessionId → Type 0) (t : LeaseTable)
    → ((k : TokenId) (n : SessionId) → Q k n → Q' k n)
    → RunsOnly Q t
    → RunsOnly Q' t
RunsOnly-weaken Q Q' t f h =
    All-weaken (λ e. Owned Q e.0 e.1.status) (λ e. Owned Q' e.0 e.1.status) t.leases
      (λ e. owned e.0 e.1.status) h
  where
    owned : (k : TokenId) (st : LeaseStatus) → Owned Q k st → Owned Q' k st
    owned k (active n) o = f k n o
    owned k (grace u) o = tt

module _ {C : Type 0} (k : TokenId) (n : SessionId) where
  -- What a registration hands over goes to the tunnel or to the clean-up.
  settled :
      (p : Option PendingRegistration) (answer : Result Error (Option (Tunnel C)))
      (tunnels : List (Tunnel C)) (canceled : List PendingRegistration)
      → HandedOver p answer
      → OfDropped k n p
      → Any (OfTunnel k n) (put (opened answer) tunnels)
        ⊎ Any (OfPending k n) (put (spawned p) canceled)
  settled none answer tunnels canceled h o = absurd o
  settled (some p) answer tunnels canceled (inl armed) o = inr (rw (armed, spawned) (inl o))
  settled (some p) answer tunnels canceled (inr (t, e, token, session)) o =
      inl (rw e (inl (token ∙ o.0, session ∙ o.1)))

  pub settle-Owns :
      (s : Serving C) (i : ℕ) (a : Answering C) (rest : List (Answering C))
      → pick i s.answering ≡ some (a, rest)
      → HandedOver a.dropped a.answer
      → Owns s k n
      → Owns (settle s a rest) k n
  settle-Owns s i a rest e h (inl o) =
      elim (Any-pick (λ (x : Answering C). OfDropped k n x.dropped) i s.answering a rest e o) [
        | inl here ↦ elim (settled a.dropped a.answer s.tunnels s.canceled h here) [
          | inl t ↦ inr (inl t)
          | inr p ↦ inr (inr (inr p))
        ]
        | inr there ↦ inl there
      ]
  settle-Owns s i a rest e h (inr (inl o)) =
      inr (inl (Any-put (OfTunnel k n) (opened a.answer) s.tunnels o))
  settle-Owns s i a rest e h (inr (inr (inl o))) = inr (inr (inl o))
  settle-Owns s i a rest e h (inr (inr (inr o))) =
      inr (inr (inr (Any-put (OfPending k n) (spawned a.dropped) s.canceled o)))

  pub rejoin-Owns :
      (s : Serving C) (i : ℕ) (t : Tunnel C) (rest : List (Tunnel C)) (r : (Tunnel C × ℕ) × Bool)
      → pick i s.tunnels ≡ some (t, rest)
      → (r.0.0.token_id ≡ t.token_id) × (r.0.0.session_id ≡ t.session_id)
      → Owns s k n
      → Owns (rejoin s rest r) k n
  rejoin-Owns s i t rest ((t', global), b) e (token, session) o = go b o
    where
      mine : OfTunnel k n t → OfTunnel k n t'
      mine h = (token ∙ h.0, session ∙ h.1)

      go : (b : Bool) → Owns s k n → Owns (rejoin s rest ((t', global), b)) k n
      go true (inl x) = inl x
      go true (inr (inl x)) = elim (Any-pick (OfTunnel k n) i s.tunnels t rest e x) [
        | inl here ↦ inr (inl (inl (mine here)))
        | inr there ↦ inr (inl (inr there))
      ]
      go true (inr (inr (inl x))) = inr (inr (inl x))
      go true (inr (inr (inr x))) = inr (inr (inr x))
      go false (inl x) = inl x
      go false (inr (inl x)) = elim (Any-pick (OfTunnel k n) i s.tunnels t rest e x) [
        | inl here ↦ inr (inr (inl (inl (mine here))))
        | inr there ↦ inr (inl there)
      ]
      go false (inr (inr (inl x))) = inr (inr (inl (inr x)))
      go false (inr (inr (inr x))) = inr (inr (inr x))
