-- ===== src/Relay/Serving/Shared.antt =====
-- The permits that the tasks of the relay share: crates/server/src/relay.rs and tunnel.rs.
use gamenet.Base.{
  ℕ, ◌+◌, ◌≡◌, refl, ap, ◌∙◌, true, false, Bool, Option, none, some, List, [], ◌∷◌, inl, inr,
  Bool-cases, Option-cases, All, length, Result, ok, err, arith,
}
use gamenet.Address.{HostSource, host_source}
use gamenet.Errors.{Error}
use gamenet.Protocol.{ControlMessage}
use gamenet.State.{ServerState}
use gamenet.Tunnel.{Tunnel, Arrival, max_concurrent_players, from_quic}
use gamenet.Tunnel.FirstMessage.{from_quic-IsOpened}
use gamenet.Tunnel.Running.{run_round, IsRound, run_round-IsRound}
use gamenet.Relay.{RelayServer, global_player_limit}
use gamenet.Relay.Serving.{
  Serving, Answering, Event, refreshes, arrives, gives_up, registers, settles, tunnel, cleans_up,
  cancels, pick, put, is_waiting, opened, settle, rejoin, step, run, serve,
}
use gamenet.Relay.Serving.Permits.{
  IsHeld, bind-IsHeld, arrives-IsHeld, give_up-IsHeld, registers-IsHeld, settle-IsHeld,
}
use gamenet.Relay.Serving.Tasks.{All-pick, sum, sum-pick}

module _ {C : Type 0} where
  abbrev pub players_of : Tunnel C → ℕ
  players_of t = length t.players

  -- A tunnel has 50 permits, each left or held by a player.
  abbrev pub HasSlots : Tunnel C → Type 0
  HasSlots t = t.player_slots + length t.players ≡ max_concurrent_players

  -- A tunnel that is handed over has no players yet.
  abbrev pub IsFresh : Option (Tunnel C) → Type 0
  IsFresh none = Unit {0}
  IsFresh (some t) = (t.player_slots ≡ max_concurrent_players) × (length t.players ≡ 0)

  pub record IsShared (s : Serving C) : Type 0 where
    pub registering : IsHeld s.admission s.waiting s.answering
    pub own : All HasSlots s.tunnels
    pub idle : All (λ (t : Tunnel C). length t.players ≡ 0) s.stopped
    pub fresh : All (λ (a : Answering C). IsFresh (opened a.answer)) s.answering
    pub shared : s.global_players + sum players_of s.tunnels ≡ global_player_limit

  rejoin-IsShared :
      (s : Serving C) (n : ℕ) (t : Tunnel C) (rest : List (Tunnel C)) (t' : Tunnel C) (global : ℕ)
      (b : Bool)
      → pick n s.tunnels ≡ some (t, rest)
      → IsRound t t' s.global_players global b
      → IsShared s
      → IsShared (rejoin s rest ((t', global), b))
  rejoin-IsShared s n t rest t' global b e r h = go b refl
    where
      others : HasSlots t × All HasSlots rest
      others = All-pick HasSlots n s.tunnels t rest e h.own

      total : sum players_of s.tunnels ≡ length t.players + sum players_of rest
      total = sum-pick players_of n s.tunnels t rest e

      go : (c : Bool) → b ≡ c → IsShared (rejoin s rest ((t', global), c))
      go true q = record {
        registering = h.registering;
        own = (r.own ∙ others.0, others.1);
        idle = h.idle;
        fresh = h.fresh;
        shared = omega (arith, r.shared, total, h.shared);
      }
      go false q = record {
        registering = h.registering;
        own = others.1;
        idle = (r.stopped q, h.idle);
        fresh = h.fresh;
        shared = omega (arith, r.shared, r.stopped q, total, h.shared);
      }

  settle-IsShared :
      (s : Serving C) (n : ℕ) (a : Answering C) (rest : List (Answering C))
      → pick n s.answering ≡ some (a, rest)
      → IsShared s
      → IsShared (settle s a rest)
  settle-IsShared s n a rest e h =
      let (new, left) =
        All-pick (λ (x : Answering C). IsFresh (opened x.answer)) n s.answering a rest e h.fresh in
      record {
        registering = settle-IsHeld s n a rest e h.registering;
        own = slots (opened a.answer) new;
        idle = h.idle;
        fresh = left;
        shared = total (opened a.answer) new;
      }
    where
      slots : (o : Option (Tunnel C)) → IsFresh o → All HasSlots (put o s.tunnels)
      slots none f = h.own
      slots (some t) f = (omega (arith, f.0, f.1), h.own)

      total :
          (o : Option (Tunnel C))
          → IsFresh o
          → s.global_players + sum players_of (put o s.tunnels) ≡ global_player_limit
      total none f = h.shared
      total (some t) f = omega (arith, f.1, h.shared)

module _ {C : Type 0} (sha256 : List ℕ → List ℕ) (to_string : Error → List ℕ) where
  opened-IsFresh :
      (a : Arrival C) (st : ServerState C) (m : Result Error (Option ControlMessage))
      → IsFresh (opened (from_quic sha256 to_string a st m).answer)
  opened-IsFresh a st m = go (from_quic sha256 to_string a st m).answer refl
    where
      go :
          (r : Result Error (Option (Tunnel C)))
          → (from_quic sha256 to_string a st m).answer ≡ r
          → IsFresh (opened r)
      go (err e) q = tt
      go (ok none) q = tt
      go (ok (some t)) q =
          let h = from_quic-IsOpened sha256 to_string a st m t q in
          (h.slots, ap (λ (ps : List ℕ). length ps) h.nobody)

  -- Nothing that is shared changes.
  unchanged : (s : Serving C) (st : ServerState C) → IsShared s → IsShared (record s { state = st })
  unchanged s st h = record {
    registering = h.registering;
    own = h.own;
    idle = h.idle;
    fresh = h.fresh;
    shared = h.shared;
  }

  admits :
      (s : Serving C) (r : RelayServer) (w : List HostSource)
      → IsHeld r w s.answering
      → IsShared s
      → IsShared (record s { admission = r; waiting = w })
  admits s r w a h = record {
    registering = a;
    own = h.own;
    idle = h.idle;
    fresh = h.fresh;
    shared = h.shared;
  }

  step-IsShared : (s : Serving C) (e : Event C) → IsShared s → IsShared (step sha256 to_string s e)
  unfolding step
  step-IsShared s (refreshes now save) h = unchanged s _ h
  step-IsShared s (arrives ip) h = admits s _ _ (arrives-IsHeld s ip h.registering) h
  step-IsShared s (gives_up source) h = elim (Bool-cases (is_waiting s source)) [
    | inl e ↦ rw (e, step) (admits s _ _ (give_up-IsHeld s source e h.registering) h)
    | inr e ↦ rw (e, step) h
  ]
  step-IsShared s (registers a m) h = elim (Bool-cases (is_waiting s (host_source a.peer_ip))) [
    | inl e ↦
        let o = from_quic sha256 to_string a s.state m in
        let task : Answering C = record {
          source = host_source a.peer_ip;
          dropped = o.dropped;
          answer = o.answer;
        } in
        rw (e, step)
          (record {
            registering = registers-IsHeld s task e h.registering;
            own = h.own;
            idle = h.idle;
            fresh = (opened-IsFresh a s.state m, h.fresh);
            shared = h.shared;
          })
    | inr e ↦ rw (e, step) h
  ]
  step-IsShared s (settles n) h = elim (Option-cases (pick n s.answering)) [
    | inl e ↦ rw (e, step) h
    | inr ((a, rest), e) ↦ rw (e, step) (settle-IsShared s n a rest e h)
  ]
  step-IsShared s (tunnel n e) h = elim (Option-cases (pick n s.tunnels)) [
    | inl q ↦ rw (q, step) h
    | inr ((t, rest), q) ↦
        let r = run_round t s.global_players e in
        rw (q, step)
          (rejoin-IsShared s n t rest r.0.0 r.0.1 r.1 q (run_round-IsRound t s.global_players e) h)
  ]
  step-IsShared s (cleans_up n now save) h = elim (Option-cases (pick n s.stopped)) [
    | inl e ↦ rw (e, step) h
    | inr ((t, rest), e) ↦
        rw (e, step)
          (record {
            registering = h.registering;
            own = h.own;
            idle =
                (All-pick (λ (x : Tunnel C). length x.players ≡ 0) n s.stopped t rest e h.idle).1;
            fresh = h.fresh;
            shared = h.shared;
          })
  ]
  step-IsShared s (cancels n now save) h = elim (Option-cases (pick n s.canceled)) [
    | inl e ↦ rw (e, step) h
    | inr ((p, rest), e) ↦
        rw (e, step)
          (record {
            registering = h.registering;
            own = h.own;
            idle = h.idle;
            fresh = h.fresh;
            shared = h.shared;
          })
  ]

  pub run-IsShared :
      (s : Serving C) (es : List (Event C)) → IsShared s → IsShared (run sha256 to_string s es)
  unfolding run
  run-IsShared s [] h = h
  run-IsShared s (e ∷ es) h = run-IsShared (step sha256 to_string s e) es (step-IsShared s e h)

  -- From the start of the relay on, however its tasks interleave and end, no permit is lost or made.
  -- The 128 of the relay are left, or held by the registrations that wait for a first message or
  -- answer one; each network is counted for its own registrations of these, at most four, and no
  -- count is kept at zero. The 50 of each tunnel and the 2000 of all tunnels are left or held by
  -- players, and a tunnel that has stopped has no players.
  pub run-serve-IsShared :
      (st : ServerState C) (es : List (Event C)) → IsShared (run sha256 to_string (serve st) es)
  unfolding serve
  run-serve-IsShared st es =
      run-IsShared (serve st) es
        (record { registering = bind-IsHeld; own = tt; idle = tt; fresh = tt; shared = refl })
