-- ===== src/Relay/Serving/Owned.antt =====
-- No session is orphaned: whichever runs belongs to a task that will end it.
mod Steps
use gamenet.Base.{
  ℕ, ◌≡◌, refl, sym, subst, inl, inr, true, false, Bool, Option, none, some, List, [], ◌∷◌,
  if◌then◌else◌, Bool-cases, Option-cases, All, Result, ok,
}
use gamenet.Address.{host_source}
use gamenet.Errors.{Error}
use gamenet.Lease.{TokenId, SessionId, LeaseTable}
use gamenet.Lease.Accepted.{restore-IsWellFormed}
use gamenet.Lease.Records.{LeaseRecord, restore}
use gamenet.Lease.Live.{IsLive}
use gamenet.Lease.Sessions.{RunsOnly, RunsOnly-IsLive}
use gamenet.Lease.Sessions.Restored.{restore-RunsOnly}
use gamenet.Lease.WellFormed.{IsWellFormed}
use gamenet.Protocol.{ControlMessage}
use gamenet.State.{ServerState, SaveOutcome, load_or_new}
use gamenet.Store.Started.{load_or_new-Connected}
use gamenet.State.Connected.{Connected}
use gamenet.State.Connections.{run-Connected}
use gamenet.State.Sessions.{refresh-RunsOnly, end-RunsOnly_state}
use gamenet.Tunnel.{Tunnel, Arrival, PendingRegistration, from_quic, clean_up, cleanup}
use gamenet.Tunnel.Running.{run_round, run_round-IsRound}
use gamenet.Tunnel.Requests.{HandedOver, from_quic-IsAnswered}
use gamenet.Relay.Serving.{
  Serving, Answering, Event, refreshes, arrives, gives_up, registers, settles, tunnel, cleans_up,
  cancels, pick, put, is_waiting, spawned, settle, answered, rejoin, step, run, serve,
}
use gamenet.Relay.Serving.Tasks.{Any-pick, All-pick}
use gamenet.Relay.Serving.Requests.{requests_of, step-state}
use gamenet.Relay.Serving.Owners.{
  OfTunnel, OfPending, OfDropped, Owns, IsOwned, RunsOnly-weaken, settle-Owns, rejoin-Owns,
}
use gamenet.Relay.Serving.Owned.Steps.{
  Tasks, same, settles-Tasks, tunnel-Tasks, cleans_up-Tasks, cancels-Tasks,
}

module _ {C : Type 0} (sha256 : List ℕ → List ℕ) (to_string : Error → List ℕ) where
  registers-Tasks :
      (s : Serving C) (a : Arrival C) (m : Result Error (Option ControlMessage))
      → IsOwned s
      → Tasks (answered s (host_source a.peer_ip) (from_quic sha256 to_string a s.state m))
  registers-Tasks s a m o =
      let s' = answered s (host_source a.peer_ip) (from_quic sha256 to_string a s.state m) in
      let before = RunsOnly-weaken (Owns s) (Owns s') s.state.leases more o.sessions in
      let done = from_quic-IsAnswered sha256 to_string a s.state (Owns s') before m in
      record { handed = (done.handed, o.handed); armed = o.armed; sessions = done.sessions own }
    where
      s'' : Serving C
      s'' = answered s (host_source a.peer_ip) (from_quic sha256 to_string a s.state m)

      more : (k : TokenId) (n : SessionId) → Owns s k n → Owns s'' k n
      more k n (inl x) = inl (inr x)
      more k n (inr x) = inr x

      own :
          (p : PendingRegistration)
          → (from_quic sha256 to_string a s.state m).dropped ≡ some p
          → Owns s'' p.token_id p.session_id
      own p e = inl (inl (subst (OfDropped p.token_id p.session_id) (sym e) (refl, refl)))

  step-Tasks : (s : Serving C) (e : Event C) → IsOwned s → Tasks (step sha256 to_string s e)
  unfolding step
  step-Tasks s (refreshes now save) o = record {
    handed = o.handed;
    armed = o.armed;
    sessions = refresh-RunsOnly (Owns s) s.state now save o.sessions;
  }
  step-Tasks s (arrives ip) o = record { handed = o.handed; armed = o.armed; sessions = o.sessions }
  step-Tasks s (gives_up source) o = elim (Bool-cases (is_waiting s source)) [
    | inl e ↦ rw (e, step) (record { handed = o.handed; armed = o.armed; sessions = o.sessions })
    | inr e ↦ rw (e, step) (same s o)
  ]
  step-Tasks s (registers a m) o = elim (Bool-cases (is_waiting s (host_source a.peer_ip))) [
    | inl e ↦ rw (e, step) (registers-Tasks s a m o)
    | inr e ↦ rw (e, step) (same s o)
  ]
  step-Tasks s (settles n) o = elim (Option-cases (pick n s.answering)) [
    | inl e ↦ rw (e, step) (same s o)
    | inr ((a, rest), e) ↦ rw (e, step) (settles-Tasks s o n a rest e)
  ]
  step-Tasks s (tunnel n e) o = elim (Option-cases (pick n s.tunnels)) [
    | inl q ↦ rw (q, step) (same s o)
    | inr ((t, rest), q) ↦
        let r = run_round-IsRound t s.global_players e in
        rw (q, step)
          (tunnel-Tasks s o n t rest (run_round t s.global_players e) q
            (r.same_token, r.same_session))
  ]
  step-Tasks s (cleans_up n now save) o = elim (Option-cases (pick n s.stopped)) [
    | inl e ↦ rw (e, step) (same s o)
    | inr ((t, rest), e) ↦ rw (e, step) (cleans_up-Tasks s o n t rest now save e)
  ]
  step-Tasks s (cancels n now save) o = elim (Option-cases (pick n s.canceled)) [
    | inl e ↦ rw (e, step) (same s o)
    | inr ((p, rest), e) ↦ rw (e, step) (cancels-Tasks s o n p rest now save e)
  ]

  -- When the relay starts, no session runs.
  pub serve-IsOwned :
      (records saved : List LeaseRecord) (now : ℕ) (t : LeaseTable) (st : ServerState C)
      → restore records now ≡ ok t
      → load_or_new saved (ok t) ≡ ok st
      → IsOwned (serve st)
  unfolding serve
  serve-IsOwned records saved now t st restored started =
      let (same, connected) = load_or_new-Connected saved t st started in
      record {
        well_formed = subst IsWellFormed same (restore-IsWellFormed records now t restored).0;
        connected = connected;
        handed = tt;
        armed = tt;
        sessions = subst (RunsOnly (Owns (serve st))) same (
            RunsOnly-weaken (λ k n. ⊥) (Owns (serve st)) t (λ k n x. absurd x)
              (restore-RunsOnly (λ k n. ⊥) records now t restored));
      }

  step-IsOwned : (s : Serving C) (e : Event C) → IsOwned s → IsOwned (step sha256 to_string s e)
  step-IsOwned s e o =
      let tasks = step-Tasks s e o in
      let (w, c) =
        run-Connected s.state (requests_of sha256 to_string s e) o.well_formed o.connected in
      let state = sym (step-state sha256 to_string s e) in
      record {
        well_formed = subst (λ (st : ServerState C). IsWellFormed st.leases) state w;
        connected = subst Connected state c;
        handed = tasks.handed;
        armed = tasks.armed;
        sessions = tasks.sessions;
      }

  pub run-IsOwned :
      (s : Serving C) (es : List (Event C)) → IsOwned s → IsOwned (run sha256 to_string s es)
  unfolding run
  run-IsOwned s [] o = o
  run-IsOwned s (e ∷ es) o = run-IsOwned (step sha256 to_string s e) es (step-IsOwned s e o)

  -- No session is orphaned. From a start with the saved records on, however the tasks of the relay
  -- interleave, and whatever writes, binds and messages fail: the session of a claim that runs is
  -- that of a registration that is ending, of a tunnel that runs, or of a tunnel or a canceled
  -- registration whose clean-up is still to come.
  pub run-serve-Owns :
      (records saved : List LeaseRecord) (now : ℕ) (t : LeaseTable) (st : ServerState C)
      (es : List (Event C)) (k : TokenId) (n : SessionId)
      → restore records now ≡ ok t
      → load_or_new saved (ok t) ≡ ok st
      → IsLive (run sha256 to_string (serve st) es).state.leases k n
      → Owns (run sha256 to_string (serve st) es) k n
  unfolding serve
  run-serve-Owns records saved now t st es k n restored started live =
      RunsOnly-IsLive (Owns (run sha256 to_string (serve st) es))
        (run sha256 to_string (serve st) es).state.leases k n
        (run-IsOwned (serve st) es (serve-IsOwned records saved now t st restored started)).sessions
        live
