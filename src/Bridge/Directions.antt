-- ===== src/Bridge/Directions.antt =====
-- A direction of a bridge alone: crates/core/src/bridge.rs.
use gamenet.Base.{
  append_assoc, append-nil, ℕ, ◌≡◌, refl, sym, ap, ◌∙◌, Bool, true, false, List, [], ◌∷◌, ◌++◌,
}
use gamenet.Bridge.{
  Direction, to_quic, to_tcp, HalfEvent, copied, ends, shut, fails, Phase, copying, shutting,
  finished, Half, half_step, is_finished,
}

-- The events of a direction.
abbrev pub of_quic : List (Direction × HalfEvent) → List HalfEvent
of_quic [] = []
of_quic ((to_quic, e) ∷ es) = e ∷ of_quic es
of_quic ((to_tcp, e) ∷ es) = of_quic es

abbrev pub of_tcp : List (Direction × HalfEvent) → List HalfEvent
of_tcp [] = []
of_tcp ((to_quic, e) ∷ es) = of_tcp es
of_tcp ((to_tcp, e) ∷ es) = e ∷ of_tcp es

-- The bytes that the reader has given before its end.
abbrev pub carried : List HalfEvent → List ℕ
carried [] = []
carried (copied bytes ∷ es) = bytes ++ carried es
carried (ends ∷ es) = []
carried (shut ∷ es) = carried es
carried (fails x ∷ es) = carried es

abbrev pub shuts : List HalfEvent → Bool
shuts [] = false
shuts (copied bytes ∷ es) = shuts es
shuts (ends ∷ es) = shuts es
shuts (shut ∷ es) = true
shuts (fails x ∷ es) = shuts es

-- The reader has come to its end, and the writer has been shut down after that.
abbrev pub closes : List HalfEvent → Bool
closes [] = false
closes (copied bytes ∷ es) = closes es
closes (ends ∷ es) = shuts es
closes (shut ∷ es) = closes es
closes (fails x ∷ es) = closes es

abbrev pub IsFailure : Direction × HalfEvent → Type 0
IsFailure (d, copied bytes) = ⊥
IsFailure (d, ends) = ⊥
IsFailure (d, shut) = ⊥
IsFailure (d, fails x) = Unit {0}

-- A direction alone.
abbrev pub alone : Half → List HalfEvent → Half
alone h [] = h
alone h (e ∷ es) = alone (half_step h e) es

abbrev pub half : List ℕ → Phase → Half
half bytes phase = record { written = bytes; phase = phase }

alone-finished : (w : List ℕ) (es : List HalfEvent) → alone (half w finished) es ≡ half w finished
alone-finished w [] = refl
alone-finished w (e ∷ es) = alone-finished w es

alone-shutting :
    (w : List ℕ) (es : List HalfEvent)
    → ((alone (half w shutting) es).written ≡ w)
      × (is_finished (alone (half w shutting) es).phase ≡ shuts es)
alone-shutting w [] = (refl, refl)
alone-shutting w (copied bytes ∷ es) = alone-shutting w es
alone-shutting w (ends ∷ es) = alone-shutting w es
alone-shutting w (shut ∷ es) = (
  ap (λ (h : Half). h.written) (alone-finished w es),
  ap (λ (h : Half). is_finished h.phase) (alone-finished w es),
)
alone-shutting w (fails x ∷ es) = alone-shutting w es

pub alone-copying :
    (w : List ℕ) (es : List HalfEvent)
    → ((alone (half w copying) es).written ≡ w ++ carried es)
      × (is_finished (alone (half w copying) es).phase ≡ closes es)
alone-copying w [] = (sym (append-nil w), refl)
alone-copying w (copied bytes ∷ es) =
    let (a, b) = alone-copying (w ++ bytes) es in (a ∙ append_assoc w bytes (carried es), b)
alone-copying w (ends ∷ es) = let (a, b) = alone-shutting w es in (a ∙ sym (append-nil w), b)
alone-copying w (shut ∷ es) = alone-copying w es
alone-copying w (fails x ∷ es) = alone-copying w es
