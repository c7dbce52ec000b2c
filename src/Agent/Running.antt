-- ===== src/Agent/Running.antt =====
-- crates/cli/src/tunnel.rs: `AgentTunnel` and its `run`. What the `select!` of the loop finds ready is
-- an event; a player is the number of its stream, with the local port that it is bridged to.
use gamenet.Base.{
  append_assoc, append-nil, ℕ, ◌≡◌, refl, sym, ap, ◌∙◌, Bool, true, false, not, List, [], ◌∷◌, ◌++◌,
  ◌==◌, filter, any, All, inl, inr, Bool-cases, if◌then◌else◌, arith,
}
use gamenet.Errors.{Error}

pub record AgentTunnel : Type 0 where
  pub local_port : ℕ
  pub control_task : Bool
  pub players : List (ℕ × ℕ)
  pub closed : Bool

-- A tunnel that runs, with these players.
abbrev pub running : ℕ → List (ℕ × ℕ) → AgentTunnel
running local_port players = record {
  local_port = local_port;
  control_task = true;
  players = players;
  closed = false;
}

-- What `connect` returns.
abbrev pub connected : ℕ → AgentTunnel
connected local_port = running local_port []

-- The relay opens a stream; it has closed the connection; the control stream ends; the task of a player
-- ends.
pub data LoopEvent : Type 0 where
  accepted : ℕ → LoopEvent
  accept_fails : Error → LoopEvent
  control_ends : LoopEvent
  completed : ℕ → LoopEvent

-- Behind the loop: close, and abort the tasks.
unfoldable pub stop : AgentTunnel → AgentTunnel
stop t = record t { control_task = false; players = []; closed = true }

abbrev pub without : ℕ → List (ℕ × ℕ) → List (ℕ × ℕ)
without stream = filter (λ p. not (p.0 == stream))

-- A round, and whether the loop goes on.
unfoldable pub run_round : AgentTunnel → LoopEvent → AgentTunnel × Bool
run_round t (accepted stream) =
    (record t { players = t.players ++ (stream, t.local_port) ∷ [] }, true)
run_round t (accept_fails e) = (stop t, false)
run_round t control_ends = (stop t, false)
run_round t (completed stream) = (record t { players = without stream t.players }, true)

-- `run`, as far as the events go.
unfoldable pub run : AgentTunnel → List LoopEvent → AgentTunnel × Bool
run t [] = (t, true)
run t (e ∷ es) =
    let next = run_round t e in let rest = run next.0 es in if next.1 then rest else next

-- The loop goes on.
abbrev pub GoesOn : LoopEvent → Type 0
GoesOn (accepted stream) = Unit {0}
GoesOn (accept_fails e) = ⊥
GoesOn control_ends = ⊥
GoesOn (completed stream) = Unit {0}

-- The task of this player has ended.
abbrev pub completes : ℕ → LoopEvent → Bool
completes stream (accepted s) = false
completes stream (accept_fails e) = false
completes stream control_ends = false
completes stream (completed s) = stream == s

-- The players of a history, without the loop: those that no later event completes.
abbrev pub left : List LoopEvent → List (ℕ × ℕ) → List (ℕ × ℕ)
left es = filter (λ p. not (any (completes p.0) es))

abbrev pub playing : ℕ → List LoopEvent → List (ℕ × ℕ)
playing local_port [] = []
playing local_port (accepted stream ∷ es) =
    left es ((stream, local_port) ∷ []) ++ playing local_port es
playing local_port (accept_fails e ∷ es) = playing local_port es
playing local_port (control_ends ∷ es) = playing local_port es
playing local_port (completed stream ∷ es) = playing local_port es

left_nil : (ps : List (ℕ × ℕ)) → left [] ps ≡ ps
unfolding filter any
left_nil [] = refl
left_nil (p ∷ ps) = ap (λ qs. p ∷ qs) (left_nil ps)

left-append :
    (es : List LoopEvent) (ps qs : List (ℕ × ℕ)) → left es (ps ++ qs) ≡ left es ps ++ left es qs
unfolding filter
left-append es [] qs = refl
left-append es (p ∷ ps) qs = elim (Bool-cases (any (completes p.0) es)) [
  | inl b ↦ rw b (left-append es ps qs)
  | inr b ↦ rw b (ap (λ xs. p ∷ xs) (left-append es ps qs))
]

left-accepted :
    (stream : ℕ) (es : List LoopEvent) (ps : List (ℕ × ℕ))
    → left (accepted stream ∷ es) ps ≡ left es ps
unfolding filter any
left-accepted stream es [] = refl
left-accepted stream es (p ∷ ps) = ground (arith, left-accepted stream es ps)

left-completed :
    (stream : ℕ) (es : List LoopEvent) (ps : List (ℕ × ℕ))
    → left (completed stream ∷ es) ps ≡ left es (without stream ps)
unfolding filter any
left-completed stream es [] = refl
left-completed stream es (p ∷ ps) = ground (arith, left-completed stream es ps)

run-running :
    (port : ℕ) (ps : List (ℕ × ℕ)) (es : List LoopEvent)
    → All GoesOn es
    → run (running port ps) es ≡ (running port (left es ps ++ playing port es), true)
unfolding run run_round
run-running port ps [] h =
    ap (λ qs. (running port qs, true)) (sym (append-nil (left [] ps) ∙ left_nil ps))
run-running port ps (accepted stream ∷ es) (_, h) =
    run-running port (ps ++ (stream, port) ∷ []) es h
    ∙ ap (λ qs. (running port qs, true))
        (ap (λ qs. qs ++ playing port es)
            (left-append es ps ((stream, port) ∷ [])
              ∙ ap (λ qs. qs ++ left es ((stream, port) ∷ [])) (sym (left-accepted stream es ps)))
          ∙ append_assoc (left (accepted stream ∷ es) ps) (left es ((stream, port) ∷ []))
              (playing port es))
run-running port ps (accept_fails e ∷ es) (h, _) = absurd h
run-running port ps (control_ends ∷ es) (h, _) = absurd h
run-running port ps (completed stream ∷ es) (_, h) =
    run-running port (without stream ps) es h
    ∙ ap (λ qs. (running port (qs ++ playing port es), true)) (sym (left-completed stream es ps))

-- What is left of a tunnel that has ended.
abbrev pub ended : ℕ → AgentTunnel
ended local_port = record {
  local_port = local_port;
  control_task = false;
  players = [];
  closed = true;
}

run-ends :
    (port : ℕ) (ps : List (ℕ × ℕ)) (es : List LoopEvent) (e : LoopEvent) (rest : List LoopEvent)
    → All GoesOn es
    → ¬ GoesOn e
    → run (running port ps) (es ++ e ∷ rest) ≡ (ended port, false)
unfolding run run_round stop
run-ends port ps [] (accepted stream) rest h n = absurd (n tt)
run-ends port ps [] (accept_fails x) rest h n = refl
run-ends port ps [] control_ends rest h n = refl
run-ends port ps [] (completed stream) rest h n = absurd (n tt)
run-ends port ps (accepted stream ∷ es) e rest (_, h) n =
    run-ends port (ps ++ (stream, port) ∷ []) es e rest h n
run-ends port ps (accept_fails x ∷ es) e rest (h, _) n = absurd h
run-ends port ps (control_ends ∷ es) e rest (h, _) n = absurd h
run-ends port ps (completed stream ∷ es) e rest (_, h) n =
    run-ends port (without stream ps) es e rest h n

-- As long as streams are accepted and players end, the loop of a host's tunnel goes on, with the tasks
-- of exactly the streams that were accepted and have not ended, in their order and each bridged to the
-- local port of the tunnel; and at the first event that a closed connection or the end of the control
-- stream brings it ends, with the connection closed and no task left.
pub run-connected :
    (local_port : ℕ) (es : List LoopEvent)
    → All GoesOn es
    → (run (connected local_port) es ≡ (running local_port (playing local_port es), true))
      × ((e : LoopEvent) (rest : List LoopEvent)
          → ¬ GoesOn e
          → run (connected local_port) (es ++ e ∷ rest) ≡ (ended local_port, false))
unfolding filter
run-connected local_port es h =
    (run-running local_port [] es h, λ e rest n. run-ends local_port [] es e rest h n)
