-- ===== src/Relay/Serving.antt =====
-- crates/server/src/relay.rs: the loop of `run`, and the tasks that it spawns. A task is a value in one
-- of the lists of `Serving`, by what it waits for; each event is a step of the loop or of one task,
-- so a sequence of events is an interleaving. A time-out of a registration is the failure of the
-- call that it waits in: before the first message it is `gives_up`, while a port is bound it is a
-- refusal of the bind, and while the host is told it is an error of `deliver`.
pub mod Tasks
pub mod Requests
pub mod Owners
pub mod Owned
pub mod Permits
pub mod Shared
pub mod Draining
pub mod Returning
use gamenet.Base.{
  ℕ, zero, suc, ◌+◌, ◌≡◌, Bool, true, false, Option, none, some, List, [], ◌∷◌, not, ◌==◌,
  if◌then◌else◌, Result, ok, err,
}
use gamenet.Address.{IpAddr, HostSource, host_source}
use gamenet.Admission.Slots.{held, give_back}
use gamenet.Errors.{Error}
use gamenet.Protocol.{ControlMessage}
use gamenet.Relay.{RelayServer, global_player_limit, bind, accept_incoming, registration_ends}
use gamenet.State.{ServerState, SaveOutcome, refresh_and_save}
use gamenet.Tunnel.{Tunnel, Arrival, Outcome, PendingRegistration, from_quic, clean_up, cleanup}
use gamenet.Tunnel.Running.{LoopEvent, run_round}

-- A registration that has been given its first message: the network of its permit, and what is left
-- to do when `from_quic` returns.
pub record Answering (C : Type 0) : Type 0 where
  pub source : HostSource
  pub dropped : Option PendingRegistration
  pub answer : Result Error (Option (Tunnel C))

-- The relay; the registrations that have no first message yet, each by the network of its permit, and
-- those that end; the tunnels that run and those that have stopped and are not cleaned up yet; and
-- the clean-ups of canceled registrations.
pub record Serving (C : Type 0) : Type 0 where
  pub state : ServerState C
  pub admission : RelayServer
  pub global_players : ℕ
  pub waiting : List HostSource
  pub answering : List (Answering C)
  pub tunnels : List (Tunnel C)
  pub stopped : List (Tunnel C)
  pub canceled : List PendingRegistration

unfoldable pub serve : {C : Type 0} → ServerState C → Serving C
serve st = record {
  state = st;
  admission = bind;
  global_players = global_player_limit;
  waiting = [];
  answering = [];
  tunnels = [];
  stopped = [];
  canceled = [];
}

pub data Event (C : Type 0) : Type 0 where
  refreshes : ℕ → SaveOutcome → Event C
  arrives : IpAddr → Event C
  gives_up : HostSource → Event C
  registers : Arrival C → Result Error (Option ControlMessage) → Event C
  settles : ℕ → Event C
  tunnel : ℕ → LoopEvent → Event C
  cleans_up : ℕ → ℕ → SaveOutcome → Event C
  cancels : ℕ → ℕ → SaveOutcome → Event C

-- The clean-up that the drop of an armed registration spawns.
abbrev pub spawned : Option PendingRegistration → Option PendingRegistration
spawned none = none
spawned (some p) = if p.armed then some p else none

module _ {A : Type 0} where
  abbrev pub keep : A → Option (A × List A) → Option (A × List A)
  keep x none = none
  keep x (some (a, rest)) = some (a, x ∷ rest)

  -- The task with this number, and the others.
  unfoldable pub pick : ℕ → List A → Option (A × List A)
  pick n [] = none
  pick zero (x ∷ xs) = some (x, xs)
  pick (suc n) (x ∷ xs) = keep x (pick n xs)

  abbrev pub put : Option A → List A → List A
  put none xs = xs
  put (some x) xs = x ∷ xs

module _ {C : Type 0} where
  -- Some connection of the network is admitted and has no first message yet.
  unfoldable pub is_waiting : Serving C → HostSource → Bool
  is_waiting s source = not (held source s.waiting == 0)

  -- An admitted connection is a task that waits for its first message.
  abbrev pub admitted : Serving C → IpAddr → RelayServer × Bool → Serving C
  admitted s ip (r, accepted) = record s {
    admission = r;
    waiting = if accepted then host_source ip ∷ s.waiting else s.waiting;
  }

  -- The registration ends before its first message, by its time-out or by an error.
  abbrev pub give_up : Serving C → HostSource → Serving C
  give_up s source = record s {
    admission = registration_ends s.admission source;
    waiting = give_back source s.waiting;
  }

  -- The `Ok(Ok(Some(tunnel)))` of the registration.
  abbrev pub opened : Result Error (Option (Tunnel C)) → Option (Tunnel C)
  opened (ok t) = t
  opened (err e) = none

  -- The permits are dropped, and the task goes on with the tunnel.
  abbrev pub settle : Serving C → Answering C → List (Answering C) → Serving C
  settle s a rest = record s {
    admission = registration_ends s.admission a.source;
    answering = rest;
    tunnels = put (opened a.answer) s.tunnels;
    canceled = put (spawned a.dropped) s.canceled;
  }

  abbrev pub answered : Serving C → HostSource → Outcome C → Serving C
  answered s source o = record s {
    state = o.state;
    waiting = give_back source s.waiting;
    answering = record { source = source; dropped = o.dropped; answer = o.answer } ∷ s.answering;
  }

  -- `run` of the tunnel goes on, or returns.
  abbrev pub rejoin : Serving C → List (Tunnel C) → (Tunnel C × ℕ) × Bool → Serving C
  rejoin s rest ((t, global), true) = record s { global_players = global; tunnels = t ∷ rest }
  rejoin s rest ((t, global), false) = record s {
    global_players = global;
    tunnels = rest;
    stopped = t ∷ s.stopped;
  }

module _ {C : Type 0} (sha256 : List ℕ → List ℕ) (to_string : Error → List ℕ) where
  unfoldable pub step : Serving C → Event C → Serving C
  step s (refreshes now save) = record s { state = (refresh_and_save s.state now save).0 }
  step s (arrives ip) = admitted s ip (accept_incoming s.admission ip)
  step s (gives_up source) = if is_waiting s source then give_up s source else s
  step s (registers a msg) =
      if is_waiting s (host_source a.peer_ip)
      then answered s (host_source a.peer_ip) (from_quic sha256 to_string a s.state msg)
      else s
  step s (settles n) = elim (pick n s.answering) [ none ↦ s | some (a, rest) ↦ settle s a rest ]
  step s (tunnel n e) = elim (pick n s.tunnels) [
    | none ↦ s
    | some (t, rest) ↦ rejoin s rest (run_round t s.global_players e)
  ]
  step s (cleans_up n now save) = elim (pick n s.stopped) [
    | none ↦ s
    | some (t, rest) ↦ record s { state = (cleanup s.state t now save).0; stopped = rest }
  ]
  step s (cancels n now save) = elim (pick n s.canceled) [
    | none ↦ s
    | some (p, rest) ↦ record s { state = clean_up s.state (some p) now save; canceled = rest }
  ]

  unfoldable pub run : Serving C → List (Event C) → Serving C
  run s [] = s
  run s (e ∷ es) = run (step s e) es
