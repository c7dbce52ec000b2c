-- ===== src/Relay/Serving/Owned/Steps.antt =====
-- The tasks that own the sessions, after a step of one of them: crates/server/src/relay.rs.
use gamenet.Base.{
  ℕ, ◌≡◌, refl, sym, inl, inr, true, false, Bool, Option, none, some, List, if◌then◌else◌, All,
}
use gamenet.Lease.{TokenId, SessionId}
use gamenet.Lease.Sessions.{RunsOnly}
use gamenet.State.{SaveOutcome}
use gamenet.State.Sessions.{end-RunsOnly_state}
use gamenet.Tunnel.{Tunnel, PendingRegistration, clean_up, cleanup}
use gamenet.Tunnel.Requests.{HandedOver}
use gamenet.Relay.Serving.{Serving, Answering, pick, put, spawned, settle, rejoin}
use gamenet.Relay.Serving.Tasks.{Any-pick, All-pick}
use gamenet.Relay.Serving.Owners.{
  OfTunnel, OfPending, Owns, IsOwned, RunsOnly-weaken, settle-Owns, rejoin-Owns,
}

-- What an event keeps beside the soundness of the table.
pub record Tasks {C : Type 0} (s : Serving C) : Type 0 where
  pub handed : All (λ (a : Answering C). HandedOver a.dropped a.answer) s.answering
  pub armed : All (λ (p : PendingRegistration). p.armed ≡ true) s.canceled
  pub sessions : RunsOnly (Owns s) s.state.leases

module _ {C : Type 0} (s : Serving C) (o : IsOwned s) where
  pub same : Tasks s
  same = record { handed = o.handed; armed = o.armed; sessions = o.sessions }

  spawned-armed :
      (p : Option PendingRegistration)
      → All (λ (x : PendingRegistration). x.armed ≡ true) (put (spawned p) s.canceled)
  spawned-armed none = o.armed
  spawned-armed (some p) = go p.armed refl
    where
      go :
          (b : Bool)
          → p.armed ≡ b
          → All
              (λ (x : PendingRegistration). x.armed ≡ true)
              (put (if b then some p else none) s.canceled)
      go true e = (e, o.armed)
      go false e = o.armed

  pub settles-Tasks :
      (n : ℕ) (a : Answering C) (rest : List (Answering C))
      → pick n s.answering ≡ some (a, rest)
      → Tasks (settle s a rest)
  settles-Tasks n a rest e =
      let (h, others) =
        All-pick (λ (x : Answering C). HandedOver x.dropped x.answer) n s.answering a rest e
          o.handed in
      record {
        handed = others;
        armed = spawned-armed a.dropped;
        sessions =
            RunsOnly-weaken (Owns s) (Owns (settle s a rest)) s.state.leases
              (λ k m x. settle-Owns k m s n a rest e h x) o.sessions;
      }

  pub tunnel-Tasks :
      (n : ℕ) (t : Tunnel C) (rest : List (Tunnel C)) (r : (Tunnel C × ℕ) × Bool)
      → pick n s.tunnels ≡ some (t, rest)
      → (r.0.0.token_id ≡ t.token_id) × (r.0.0.session_id ≡ t.session_id)
      → Tasks (rejoin s rest r)
  tunnel-Tasks n t rest ((t', global), true) e same = record {
    handed = o.handed;
    armed = o.armed;
    sessions =
        RunsOnly-weaken (Owns s) (Owns (rejoin s rest ((t', global), true))) s.state.leases
          (λ k m x. rejoin-Owns k m s n t rest ((t', global), true) e same x) o.sessions;
  }
  tunnel-Tasks n t rest ((t', global), false) e same = record {
    handed = o.handed;
    armed = o.armed;
    sessions =
        RunsOnly-weaken (Owns s) (Owns (rejoin s rest ((t', global), false))) s.state.leases
          (λ k m x. rejoin-Owns k m s n t rest ((t', global), false) e same x) o.sessions;
  }

  -- The session of a stopped tunnel is gone once it is cleaned up.
  pub cleans_up-Tasks :
      (n : ℕ) (t : Tunnel C) (rest : List (Tunnel C)) (now : ℕ) (save : SaveOutcome)
      → pick n s.stopped ≡ some (t, rest)
      → Tasks (record s { state = (cleanup s.state t now save).0; stopped = rest })
  unfolding cleanup
  cleans_up-Tasks n t rest now save e = record {
    handed = o.handed;
    armed = o.armed;
    sessions =
        end-RunsOnly_state (Owns s)
          (Owns (record s { state = (cleanup s.state t now save).0; stopped = rest })) t.token_id
          t.session_id others s.state now save o.well_formed o.sessions;
  }
    where
      others :
          (k : TokenId) (m : SessionId)
          → ¬ ((k ≡ t.token_id) × (m ≡ t.session_id))
          → Owns s k m
          → Owns (record s { state = (cleanup s.state t now save).0; stopped = rest }) k m
      others k m n' (inl x) = inl x
      others k m n' (inr (inl x)) = inr (inl x)
      others k m n' (inr (inr (inl x))) = elim (Any-pick (OfTunnel k m) n s.stopped t rest e x) [
        | inl (token, session) ↦ absurd (n' (sym token, sym session))
        | inr there ↦ inr (inr (inl there))
      ]
      others k m n' (inr (inr (inr x))) = inr (inr (inr x))

  pub cancels-Tasks :
      (n : ℕ) (p : PendingRegistration) (rest : List PendingRegistration) (now : ℕ)
      (save : SaveOutcome)
      → pick n s.canceled ≡ some (p, rest)
      → Tasks (record s { state = clean_up s.state (some p) now save; canceled = rest })
  unfolding clean_up
  cancels-Tasks n p rest now save e =
      let (armed, left) =
        All-pick (λ (x : PendingRegistration). x.armed ≡ true) n s.canceled p rest e o.armed in
      record {
        handed = o.handed;
        armed = left;
        sessions = rw armed (
            end-RunsOnly_state (Owns s)
              (Owns (record s { state = clean_up s.state (some p) now save; canceled = rest }))
              p.token_id p.session_id others s.state now save o.well_formed o.sessions);
      }
    where
      others :
          (k : TokenId) (m : SessionId)
          → ¬ ((k ≡ p.token_id) × (m ≡ p.session_id))
          → Owns s k m
          → Owns (record s { state = clean_up s.state (some p) now save; canceled = rest }) k m
      others k m n' (inl x) = inl x
      others k m n' (inr (inl x)) = inr (inl x)
      others k m n' (inr (inr (inl x))) = inr (inr (inl x))
      others k m n' (inr (inr (inr x))) = elim (Any-pick (OfPending k m) n s.canceled p rest e x) [
        | inl (token, session) ↦ absurd (n' (sym token, sym session))
        | inr there ↦ inr (inr (inr there))
      ]
