-- ===== src/Tunnel/Players.antt =====
-- The player slots of a tunnel: every permit is either left or held by a player that is running.
use gamenet.Base.{
  ℕ, zero, suc, ◌+◌, ◌≡◌, refl, ◌∙◌, ap, Option, none, some, List, [], ◌∷◌, inl, inr, ◌==◌,
  Bool-cases, Option-cases, length, saturating_add, arith,
}
use gamenet.Errors.{Error}
use gamenet.Protocol.{ControlMessage, new_connection}
use gamenet.Tunnel.{Tunnel, announce, accept_player, remove_player, player_leaves, abort_players}

-- A player connects, with how its announcement ends; a player leaves; the tunnel stops.
pub data Event : Type 0 where
  joins : (ControlMessage → Option Error) → Event
  leaves : ℕ → Event
  stops : Event

length-remove_player :
    (p : ℕ) (qs rest : List ℕ) → remove_player p qs ≡ some rest → length qs ≡ suc (length rest)
length-remove_player p [] rest h = absurd (ground arith)
length-remove_player p (q ∷ qs) rest h = elim (Bool-cases (q == p)) [
  | inl e ↦ let same : qs ≡ rest = ground arith in ap (λ xs. suc (length xs)) same
  | inr e ↦ elim (Option-cases (remove_player p qs)) [
    | inl n ↦ absurd (ground arith)
    | inr (ps, found) ↦
        let same : q ∷ ps ≡ rest = ground arith in
        ap suc (length-remove_player p qs ps found) ∙ ap (λ xs. suc (length xs)) same
  ]
]

module _ {C : Type 0} where
  unfoldable pub step : Tunnel C × ℕ → Event → Tunnel C × ℕ
  step (t, global) (joins deliver) = (accept_player t global deliver).0
  step (t, global) (leaves p) = player_leaves t global p
  step (t, global) stops = abort_players t global

  unfoldable pub run : Tunnel C × ℕ → List Event → Tunnel C × ℕ
  run s [] = s
  run s (e ∷ es) = run (step s e) es

  -- `slots` permits of the tunnel and `total` of the relay are left or held by its players.
  pub record IsConserved (slots total : ℕ) (s : Tunnel C × ℕ) : Type 0 where
    pub own : s.0.player_slots + length s.0.players ≡ slots
    pub shared : s.1 + length s.0.players ≡ total

  module _ (slots total : ℕ) where
    joins-IsConserved :
        (t : Tunnel C) (global : ℕ) (deliver : ControlMessage → Option Error)
        → IsConserved slots total (t, global)
        → IsConserved slots total (accept_player t global deliver).0
    unfolding accept_player
    joins-IsConserved t global deliver h = go t.player_slots global refl refl
      where
        go :
            (own shared : ℕ)
            → t.player_slots ≡ own
            → global ≡ shared
            → IsConserved slots total (accept_player t global deliver).0
        go zero shared e f = rw (e, accept_player) h
        go (suc own) zero e f = rw (e, f, accept_player) h
        go (suc own) (suc shared) e f =
            rw (e, f, accept_player)
              (announced (deliver (new_connection (saturating_add t.stream_counter 1))))
          where
            announced :
                (o : Option Error)
                → IsConserved slots total
                    (announce t (saturating_add t.stream_counter 1) own shared o).0
            announced none = record {
              own = omega (arith, e, h.own);
              shared = omega (arith, f, h.shared);
            }
            announced (some x) = record {
              own = omega (arith, e, h.own);
              shared = omega (arith, f, h.shared);
            }

    leaves-IsConserved :
        (t : Tunnel C) (global p : ℕ)
        → IsConserved slots total (t, global)
        → IsConserved slots total (player_leaves t global p)
    unfolding player_leaves
    leaves-IsConserved t global p h = elim (Option-cases (remove_player p t.players)) [
      | inl e ↦ rw (e, player_leaves) h
      | inr (rest, e) ↦
          rw (e, player_leaves)
            (record {
              own = omega (arith, length-remove_player p t.players rest e, h.own);
              shared = omega (arith, length-remove_player p t.players rest e, h.shared);
            })
    ]

    pub step-IsConserved :
        (s : Tunnel C × ℕ) (e : Event)
        → IsConserved slots total s
        → IsConserved slots total (step s e)
    unfolding step abort_players
    step-IsConserved (t, global) (joins deliver) h = joins-IsConserved t global deliver h
    step-IsConserved (t, global) (leaves p) h = leaves-IsConserved t global p h
    step-IsConserved (t, global) stops h = record {
      own = omega (arith, h.own);
      shared = omega (arith, h.shared);
    }

    -- Whatever players join and leave, and whatever announcements fail, no permit of the tunnel or
    -- of the relay is lost or made: those left and the players that run add up to what they did
    -- before.
    pub run-IsConserved :
        (s : Tunnel C × ℕ) (es : List Event)
        → IsConserved slots total s
        → IsConserved slots total (run s es)
    unfolding run
    run-IsConserved s [] h = h
    run-IsConserved s (e ∷ es) h = run-IsConserved (step s e) es (step-IsConserved s e h)
