-- ===== src/Relay/Serving/Requests.antt =====
-- The relay with all its tasks refines the server state with its requests.
use gamenet.Base.{
  ℕ, ◌≡◌, refl, sym, ap, ◌∙◌, true, false, Option, none, some, List, [], ◌∷◌, ◌++◌, inl, inr,
  if◌then◌else◌, Bool-cases, Option-cases, Bool,
}
use gamenet.Address.{host_source}
use gamenet.Errors.{Error}
use gamenet.State.{ServerState}
use gamenet.State.Runs.{Request, ends, refreshes as refreshes_state}
use gamenet.State.Runs
use gamenet.Tunnel.{Tunnel, PendingRegistration, clean_up, cleanup}
use gamenet.Tunnel.Running.{run_round}
use gamenet.Tunnel.Requests.{requests, from_quic-run}
use gamenet.Relay.Serving.{
  Serving, Event, refreshes, arrives, gives_up, registers, settles, tunnel, cleans_up, cancels,
  pick, is_waiting, rejoin, step, run,
}

module _ {C : Type 0} where
  abbrev pub end_of :
      Option (Tunnel C × List (Tunnel C)) → (Tunnel C → Request C) → List (Request C)
  end_of none ask = []
  end_of (some (t, rest)) ask = ask t ∷ []

  abbrev pub end_of_canceled :
      Option (PendingRegistration × List PendingRegistration)
      → (PendingRegistration → Request C)
      → List (Request C)
  end_of_canceled none ask = []
  end_of_canceled (some (p, rest)) ask = if p.armed then ask p ∷ [] else []

  run-append :
      (st : ServerState C) (qs rs : List (Request C))
      → Runs.run st (qs ++ rs) ≡ Runs.run (Runs.run st qs) rs
  unfolding Runs.run
  run-append st [] rs = refl
  run-append st (q ∷ qs) rs = run-append (Runs.step st q) qs rs

  rejoin-state :
      (s : Serving C) (rest : List (Tunnel C)) (r : (Tunnel C × ℕ) × Bool)
      → (rejoin s rest r).state ≡ s.state
  rejoin-state s rest ((t, global), true) = refl
  rejoin-state s rest ((t, global), false) = refl

module _ {C : Type 0} (sha256 : List ℕ → List ℕ) (to_string : Error → List ℕ) where
  -- The requests to the server state that an event makes: one, or none.
  abbrev pub requests_of : Serving C → Event C → List (Request C)
  requests_of s (refreshes now save) = refreshes_state now save ∷ []
  requests_of s (arrives ip) = []
  requests_of s (gives_up source) = []
  requests_of s (registers a msg) =
      if is_waiting s (host_source a.peer_ip) then requests sha256 to_string a msg else []
  requests_of s (settles n) = []
  requests_of s (tunnel n e) = []
  requests_of s (cleans_up n now save) =
      end_of (pick n s.stopped) (λ t. ends t.token_id t.session_id now save)
  requests_of s (cancels n now save) =
      end_of_canceled (pick n s.canceled) (λ p. ends p.token_id p.session_id now save)

  abbrev pub history : Serving C → List (Event C) → List (Request C)
  history s [] = []
  history s (e ∷ es) = let rest = history (step sha256 to_string s e) es in requests_of s e ++ rest

  pub step-state :
      (s : Serving C) (e : Event C)
      → (step sha256 to_string s e).state ≡ Runs.run s.state (requests_of s e)
  unfolding step Runs.run Runs.step clean_up cleanup
  step-state s (refreshes now save) = refl
  step-state s (arrives ip) = refl
  step-state s (gives_up source) = elim (Bool-cases (is_waiting s source)) [
    | inl e ↦ rw e refl
    | inr e ↦ rw e refl
  ]
  step-state s (registers a msg) = elim (Bool-cases (is_waiting s (host_source a.peer_ip))) [
    | inl e ↦ rw e (from_quic-run sha256 to_string a s.state msg)
    | inr e ↦ rw e refl
  ]
  step-state s (settles n) = elim (Option-cases (pick n s.answering)) [
    | inl e ↦ rw (e, step) refl
    | inr ((a, rest), e) ↦ rw (e, step) refl
  ]
  step-state s (tunnel n e) = elim (Option-cases (pick n s.tunnels)) [
    | inl q ↦ rw (q, step) refl
    | inr ((t, rest), q) ↦ rw (q, step) (rejoin-state s rest (run_round t s.global_players e))
  ]
  step-state s (cleans_up n now save) = elim (Option-cases (pick n s.stopped)) [
    | inl e ↦ rw (e, step) refl
    | inr ((t, rest), e) ↦ rw (e, step) refl
  ]
  step-state s (cancels n now save) = elim (Option-cases (pick n s.canceled)) [
    | inl e ↦ rw (e, step) refl
    | inr ((p, rest), e) ↦ elim (Bool-cases p.armed) [
      | inl b ↦ rw (e, step) (rw b refl)
      | inr b ↦ rw (e, step) (rw b refl)
    ]
  ]

  -- However the tasks of the relay interleave, the server state goes through the requests of their
  -- events, one after the other: the first messages that ask for something, the clean-ups, and the
  -- timer, with the outcomes of their writes and binds.
  pub run-Refines :
      (s : Serving C) (es : List (Event C))
      → (run sha256 to_string s es).state ≡ Runs.run s.state (history s es)
  unfolding run Runs.run
  run-Refines s [] = refl
  run-Refines s (e ∷ es) =
      run-Refines (step sha256 to_string s e) es
      ∙ ap (λ st. Runs.run st (history (step sha256 to_string s e) es)) (step-state s e)
      ∙ sym (run-append s.state (requests_of s e) (history (step sha256 to_string s e) es))
