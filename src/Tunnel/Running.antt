-- ===== src/Tunnel/Running.antt =====
-- crates/server/src/tunnel.rs: `accept_players` and `run`. What the `select!` of the loop finds ready
-- is an event; the bytes of the players are carried elsewhere.
use gamenet.Base.{
  ℕ, ◌≡◌, refl, Bool, true, false, Option, none, some, length, Result, ok, err, ◌+◌, arith,
}
use gamenet.Errors.{Error}
use gamenet.Protocol.{ControlMessage}
use gamenet.Tunnel.{Tunnel, accept_player, player_leaves, abort_players}
use gamenet.Tunnel.Players.{Event, joins, leaves, step, step-IsConserved, IsConserved}

-- The host closes its connection; a player connects, with how its announcement ends; the listener
-- fails; the task of a player ends.
pub data LoopEvent : Type 0 where
  closed : LoopEvent
  accepted : (ControlMessage → Option Error) → LoopEvent
  accept_fails : Error → LoopEvent
  completed : ℕ → LoopEvent

module _ {C : Type 0} where
  abbrev pub after_player :
      (Tunnel C × ℕ) × Result Error (Unit {0}) → (Tunnel C × ℕ) × Option (Result Error (Unit {0}))
  after_player (s, ok done) = (s, none)
  after_player (s, err e) = (s, some (err e))

  -- A round of the loop of `accept_players`, and what it returns when it ends.
  unfoldable pub accept_players :
      Tunnel C → ℕ → LoopEvent → (Tunnel C × ℕ) × Option (Result Error (Unit {0}))
  accept_players t global closed = ((t, global), some (ok tt))
  accept_players t global (accepted deliver) = after_player (accept_player t global deliver)
  accept_players t global (accept_fails e) = ((t, global), some (err e))
  accept_players t global (completed p) = (player_leaves t global p, none)

  -- `run` goes on, or it has aborted the players.
  abbrev pub stop_players :
      (Tunnel C × ℕ) × Option (Result Error (Unit {0})) → (Tunnel C × ℕ) × Bool
  stop_players (s, none) = (s, true)
  stop_players ((t, global), some result) = (abort_players t global, false)

  unfoldable pub run_round : Tunnel C → ℕ → LoopEvent → (Tunnel C × ℕ) × Bool
  run_round t global e = stop_players (accept_players t global e)

  -- A round neither makes nor loses permits, and a loop that has ended has no players.
  pub record IsRound (t t' : Tunnel C) (global global' : ℕ) (goes_on : Bool) : Type 0 where
    pub own : t'.player_slots + length t'.players ≡ t.player_slots + length t.players
    pub shared : global' + length t'.players ≡ global + length t.players
    pub same_token : t'.token_id ≡ t.token_id
    pub same_session : t'.session_id ≡ t.session_id
    pub stopped : goes_on ≡ false → length t'.players ≡ 0

  joined_ids :
      (t : Tunnel C) (global : ℕ) (deliver : ControlMessage → Option Error)
      → ((accept_player t global deliver).0.0.token_id ≡ t.token_id)
        × ((accept_player t global deliver).0.0.session_id ≡ t.session_id)
  unfolding accept_player
  joined_ids t global deliver = ground arith

  left_ids :
      (t : Tunnel C) (global p : ℕ)
      → ((player_leaves t global p).0.token_id ≡ t.token_id)
        × ((player_leaves t global p).0.session_id ≡ t.session_id)
  unfolding player_leaves
  left_ids t global p = ground arith

  -- The conservation of permits by an event of the players, from what there is.
  kept :
      (t : Tunnel C) (global : ℕ) (e : Event)
      → IsConserved
          (t.player_slots + length t.players)
          (global + length t.players)
          (step (t, global) e)
  kept t global e =
      step-IsConserved (t.player_slots + length t.players) (global + length t.players) (t, global) e
        (record { own = refl; shared = refl })

  accepted-IsRound :
      (t : Tunnel C) (global : ℕ) (deliver : ControlMessage → Option Error)
      (r : (Tunnel C × ℕ) × Result Error (Unit {0}))
      → accept_player t global deliver ≡ r
      → IsConserved (t.player_slots + length t.players) (global + length t.players) r.0
      → (r.0.0.token_id ≡ t.token_id) × (r.0.0.session_id ≡ t.session_id)
      → IsRound t
          (stop_players (after_player r)).0.0
          global
          (stop_players (after_player r)).0.1
          (stop_players (after_player r)).1
  unfolding abort_players
  accepted-IsRound t global deliver (s, ok done) q h (token, session) = record {
    own = h.own;
    shared = h.shared;
    same_token = token;
    same_session = session;
    stopped = λ z. cc;
  }
  accepted-IsRound t global deliver (s, err e) q h (token, session) = record {
    own = omega (arith, h.own);
    shared = omega (arith, h.shared);
    same_token = token;
    same_session = session;
    stopped = λ z. refl;
  }

  pub run_round-IsRound :
      (t : Tunnel C) (global : ℕ) (e : LoopEvent)
      → IsRound t
          (run_round t global e).0.0
          global
          (run_round t global e).0.1
          (run_round t global e).1
  unfolding run_round accept_players abort_players step
  run_round-IsRound t global closed = record {
    own = omega arith;
    shared = omega arith;
    same_token = refl;
    same_session = refl;
    stopped = λ z. refl;
  }
  run_round-IsRound t global (accepted deliver) =
      accepted-IsRound t global deliver (accept_player t global deliver) refl
        (kept t global (joins deliver)) (joined_ids t global deliver)
  run_round-IsRound t global (accept_fails e) = record {
    own = omega arith;
    shared = omega arith;
    same_token = refl;
    same_session = refl;
    stopped = λ z. refl;
  }
  run_round-IsRound t global (completed p) = record {
    own = (kept t global (leaves p)).own;
    shared = (kept t global (leaves p)).shared;
    same_token = (left_ids t global p).0;
    same_session = (left_ids t global p).1;
    stopped = λ z. cc;
  }
