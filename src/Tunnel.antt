-- ===== src/Tunnel.antt =====
-- crates/server/src/tunnel.rs: what the relay does with the first message of a host, and the player
-- slots of a tunnel. The QUIC connection is the parameter `C`; whether a message is delivered and how
-- the control stream ends are arguments, and so is the text of an error. A semaphore is the number
-- of its permits that are left. The clean-up that a dropped `PendingRegistration` spawns is the
-- function `clean_up`, which runs at some later time.
pub mod FirstMessage
pub mod Players
pub mod CleanUp
pub mod Running
pub mod Requests
use gamenet.Base.{
  ℕ, zero, suc, ◌+◌, ◌-◌, ◌≡◌, Bool, true, false, not, ◌||◌, Option, none, some, List, [], ◌∷◌,
  ◌++◌, ◌==◌, if◌then◌else◌, saturating_add, length, filter, holds, Result, ok, err, ℕ_discrete,
}
use gamenet.Address.{IpAddr}
use gamenet.Errors.{Error, no_registration, unexpected_message, only_tcp}
use gamenet.Protocol.{
  Protocol, tcp, udp, ControlMessage, register, tunnel_ready, new_connection, error,
  rotate_identity, identity_rotated, recover_identity, identity_recovered,
}
use gamenet.Lease.{TokenId, SessionId, from_token}
use gamenet.State.{
  ServerState, SaveOutcome, BindOutcome, Registration, register_with_recovery, end, rotate, recover,
}

abbrev pub max_concurrent_players : ℕ
max_concurrent_players = 50

pub record PendingRegistration : Type 0 where
  pub token_id : TokenId
  pub session_id : SessionId
  pub armed : Bool

-- `PendingRegistration::new`.
unfoldable pub pending_registration : Registration → PendingRegistration
pending_registration r = record { token_id = r.token_id; session_id = r.session_id; armed = true }

unfoldable pub disarm : PendingRegistration → PendingRegistration
disarm p = record p { armed = false }

-- What a host and its relay do to each other besides the state, in order.
pub data Effect (C : Type 0) : Type 0 where
  sends : ControlMessage → Effect C
  closes : C → Effect C

pub record Tunnel (C : Type 0) : Type 0 where
  pub quic : C
  pub public_port : ℕ
  pub local_port : ℕ
  pub peer_ip : IpAddr
  pub token_id : TokenId
  pub session_id : SessionId
  pub stream_counter : ℕ
  pub player_slots : ℕ
  pub players : List ℕ

-- What the relay is given when a host connects.
pub record Arrival (C : Type 0) : Type 0 where
  pub connection : C
  pub peer_ip : IpAddr
  pub now : ℕ
  pub bind : ℕ → BindOutcome
  pub save : SaveOutcome
  -- The error of `send_msg`, and of the end of the stream.
  pub deliver : ControlMessage → Option Error
  pub stop : Option Error

-- The state, the effects, the registration that is dropped, and the answer.
pub record Outcome (C : Type 0) : Type 0 where
  pub state : ServerState C
  pub effects : List (Effect C)
  pub dropped : Option PendingRegistration
  pub answer : Result Error (Option (Tunnel C))

abbrev pub is_tcp : Protocol → Bool
is_tcp tcp = true
is_tcp udp = false

module _ {C : Type 0} where
  -- `send_msg`: the message that is delivered.
  abbrev pub delivered : Arrival C → ControlMessage → List (Effect C)
  delivered a msg = elim (a.deliver msg) [ none ↦ sends msg ∷ [] | some e ↦ [] ]

  -- `finish` and `stopped` on the control stream.
  abbrev pub stopped : Arrival C → Result Error (Option (Tunnel C))
  stopped a = elim a.stop [ none ↦ ok none | some e ↦ err e ]

  abbrev pub failed : ServerState C → List (Effect C) → Error → Outcome C
  failed st effects e = record { state = st; effects = effects; dropped = none; answer = err e }

  -- A message that has to be delivered before the stream ends.
  abbrev pub answer_with : Arrival C → ServerState C → List (Effect C) → ControlMessage → Outcome C
  answer_with a st before msg = elim (a.deliver msg) [
    | none ↦ record {
      state = st;
      effects = before ++ sends msg ∷ [];
      dropped = none;
      answer = stopped a;
    }
    | some e ↦ failed st before e
  ]

  abbrev pub close_old : Option C → List (Effect C)
  close_old none = []
  close_old (some c) = closes c ∷ []

  abbrev pub tunnel_of : Arrival C → ℕ → Registration → Tunnel C
  tunnel_of a local_port r = record {
    quic = a.connection;
    public_port = r.public_port;
    local_port = local_port;
    peer_ip = a.peer_ip;
    token_id = r.token_id;
    session_id = r.session_id;
    stream_counter = 0;
    player_slots = max_concurrent_players;
    players = [];
  }

module _ {C : Type 0} (to_string : Error → List ℕ) where
  -- `send_registration_error`, which ignores its own failures.
  abbrev pub send_registration_error : Arrival C → Error → List (Effect C)
  send_registration_error a e = delivered a (error (to_string e))

  -- Once the error is delivered the stream has ended, so that the second `finish` may fail; that is an
  -- error of `stop`.
  abbrev pub refuse : Arrival C → ServerState C → Error → Outcome C
  refuse a st e = record {
    state = st;
    effects = send_registration_error a e;
    dropped = none;
    answer = stopped a;
  }

  unfoldable pub answer_rotation : Arrival C → ServerState C × Result Error (Option ℕ) → Outcome C
  answer_rotation a (st, ok public_port) = answer_with a st [] (identity_rotated public_port)
  answer_rotation a (st, err e) = refuse a st e

  unfoldable pub answer_recovery :
      Arrival C → ServerState C × Result Error (ℕ × Option C) → Outcome C
  answer_recovery a (st, ok (public_port, old)) =
      answer_with a st (close_old old) (identity_recovered public_port)
  answer_recovery a (st, err e) = refuse a st e

  unfoldable pub answer_registration :
      Arrival C → ℕ → ServerState C × Result Error Registration → Outcome C
  answer_registration a local_port (st, err e) = failed st (send_registration_error a e) e
  answer_registration a local_port (st, ok r) = elim (a.deliver (tunnel_ready r.public_port)) [
    | none ↦ record {
      state = st;
      effects = sends (tunnel_ready r.public_port) ∷ [];
      dropped = some (disarm (pending_registration r));
      answer = ok (some (tunnel_of a local_port r));
    }
    | some e ↦ record {
      state = st;
      effects = [];
      dropped = some (pending_registration r);
      answer = err e;
    }
  ]

module _ {C : Type 0} (sha256 : List ℕ → List ℕ) (to_string : Error → List ℕ) where
  abbrev pub handle_register :
      Arrival C → ServerState C → Protocol → ℕ → List ℕ → List ℕ → Outcome C
  handle_register a st protocol local_port token recovery_id =
      if not (is_tcp protocol) || (local_port == 0)
      then failed st (send_registration_error to_string a only_tcp) only_tcp
      else answer_registration to_string a local_port (
          register_with_recovery st (from_token sha256 token)
            (some (record { bytes = recovery_id })) a.peer_ip a.now (some a.connection) a.bind
            a.save)

  -- `from_quic`, from what `recv_msg` has given.
  unfoldable pub from_quic :
      Arrival C → ServerState C → Result Error (Option ControlMessage) → Outcome C
  from_quic a st (err e) = failed st [] e
  from_quic a st (ok none) = failed st [] no_registration
  from_quic a st (ok (some (register protocol local_port token recovery_id))) =
      handle_register a st protocol local_port token recovery_id
  from_quic a st (ok (some (rotate_identity old k))) =
      answer_rotation to_string a
        (rotate st (from_token sha256 old) (from_token sha256 k) a.now a.save)
  from_quic a st (ok (some (recover_identity secret k))) =
      answer_recovery to_string a
        (recover st (from_token sha256 secret) (from_token sha256 k) a.peer_ip a.now a.save)
  from_quic a st (ok (some (tunnel_ready p))) = failed st [] unexpected_message
  from_quic a st (ok (some (new_connection n))) = failed st [] unexpected_message
  from_quic a st (ok (some (error text))) = failed st [] unexpected_message
  from_quic a st (ok (some (identity_rotated p))) = failed st [] unexpected_message
  from_quic a st (ok (some (identity_recovered p))) = failed st [] unexpected_message

-- `try_acquire_owned`.
abbrev pub try_acquire : ℕ → Option ℕ
try_acquire zero = none
try_acquire (suc n) = some n

-- The player with this number, of those that run.
abbrev pub remove_player : ℕ → List ℕ → Option (List ℕ)
remove_player p [] = none
remove_player p (q ∷ qs) =
    let rest = remove_player p qs in
    if q == p then some qs else elim rest [ none ↦ none | some ps ↦ some (q ∷ ps) ]

module _ {C : Type 0} where
  -- `PendingRegistration::drop`, in a runtime that still runs.
  unfoldable pub clean_up :
      ServerState C → Option PendingRegistration → ℕ → SaveOutcome → ServerState C
  clean_up st none now o = st
  clean_up st (some p) now o = if p.armed then (end st p.token_id p.session_id now o).0 else st

  -- `cleanup`.
  unfoldable pub cleanup :
      ServerState C → Tunnel C → ℕ → SaveOutcome → ServerState C × Result Error Bool
  cleanup st t now o = end st t.token_id t.session_id now o

  abbrev pub announce :
      Tunnel C → ℕ → ℕ → ℕ → Option Error → (Tunnel C × ℕ) × Result Error (Unit {0})
  announce t counter slots global none = (
    (
      record t { stream_counter = counter; player_slots = slots; players = counter ∷ t.players },
      global,
    ),
    ok tt,
  )
  announce t counter slots global (some e) =
      -- Both permits are dropped.
      ((record t { stream_counter = counter; player_slots = slots + 1 }, global + 1), err e)

  -- `accept_player`, with the permits that the relay has left, and how `send_msg` ends.
  unfoldable pub accept_player :
      Tunnel C → ℕ → (ControlMessage → Option Error) → (Tunnel C × ℕ) × Result Error (Unit {0})
  accept_player t global deliver = elim (try_acquire t.player_slots) [
    | none ↦ ((t, global), ok tt)
    | some slots ↦ elim (try_acquire global) [
      | none ↦ ((t, global), ok tt)
      | some global' ↦
          let counter = saturating_add t.stream_counter 1 in
          announce t counter slots global' (deliver (new_connection counter))
    ]
  ]

  -- A player leaves: its task ends, and drops its permits.
  unfoldable pub player_leaves : Tunnel C → ℕ → ℕ → Tunnel C × ℕ
  player_leaves t global p = elim (remove_player p t.players) [
    | none ↦ (t, global)
    | some players ↦ (record t { players = players; player_slots = t.player_slots + 1 }, global + 1)
  ]

  -- The end of `run`: all players are aborted, and awaited.
  unfoldable pub abort_players : Tunnel C → ℕ → Tunnel C × ℕ
  abort_players t global = (
    record t { players = []; player_slots = t.player_slots + length t.players },
    global + length t.players,
  )
