-- ===== src/Bridge/Interleaved.antt =====
-- Each direction of a bridge is carried as if it were alone: crates/core/src/bridge.rs.
use gamenet.Base.{
  ◌≡◌, refl, sym, ap, ◌∙◌, true, false, ◌&&◌, Option, none, some, List, [], ◌∷◌, ◌++◌, All, inl,
  inr, Bool-cases, Result, err, arith,
}
use gamenet.Errors.{Error}
use gamenet.Bridge.{
  Direction, to_quic, to_tcp, HalfEvent, copied, ends, shut, fails, Phase, copying, shutting,
  finished, Half, half_step, failure, is_finished, Bridge, when, joined, advance, step, run, idle,
  copy_halves,
}
use gamenet.Bridge.Directions.{of_quic, of_tcp, carried, closes, IsFailure, alone, alone-copying}

-- What the bridge has returned is what its directions say.
abbrev bridge : Half → Half → Bridge
bridge q t = record {
  quic = q;
  tcp = t;
  result = when (is_finished q.phase && is_finished t.phase);
}

failure-none : (p : Phase) (d : Direction) (e : HalfEvent) → ¬ IsFailure (d, e) → failure p e ≡ none
failure-none copying d (copied bytes) n = refl
failure-none copying d ends n = refl
failure-none copying d shut n = refl
failure-none copying d (fails x) n = absurd (n tt)
failure-none shutting d (copied bytes) n = refl
failure-none shutting d ends n = refl
failure-none shutting d shut n = refl
failure-none shutting d (fails x) n = absurd (n tt)
failure-none finished d e n = refl

failure-some : (p : Phase) (x : Error) → is_finished p ≡ false → failure p (fails x) ≡ some x
failure-some copying x h = refl
failure-some shutting x h = refl
failure-some finished x h = absurd (ground arith)

is_finished-eq-true : (p : Phase) → is_finished p ≡ true → p ≡ finished
is_finished-eq-true copying h = absurd (ground arith)
is_finished-eq-true shutting h = absurd (ground arith)
is_finished-eq-true finished h = refl

half_step-finished : (h : Half) (e : HalfEvent) → is_finished h.phase ≡ true → half_step h e ≡ h
half_step-finished h e f = rw (is_finished-eq-true h.phase f) refl

-- A round of the bridge that is not a failure.
step-to_quic :
    (q t : Half) (e : HalfEvent)
    → ¬ IsFailure (to_quic, e)
    → step (bridge q t) (to_quic, e) ≡ bridge (half_step q e) t
unfolding step
step-to_quic q t e n = elim (Bool-cases (is_finished q.phase && is_finished t.phase)) [
  | inl b ↦
      let done : is_finished q.phase ≡ true = ground arith in
      rw (b, step) (ap (λ h. bridge h t) (sym (half_step-finished q e done)))
  | inr b ↦ rw (b, step) (rw (failure-none q.phase to_quic e n) refl)
]

step-to_tcp :
    (q t : Half) (e : HalfEvent)
    → ¬ IsFailure (to_tcp, e)
    → step (bridge q t) (to_tcp, e) ≡ bridge q (half_step t e)
unfolding step
step-to_tcp q t e n = elim (Bool-cases (is_finished q.phase && is_finished t.phase)) [
  | inl b ↦
      let done : is_finished t.phase ≡ true = ground arith in
      rw (b, step) (ap (λ h. bridge q h) (sym (half_step-finished t e done)))
  | inr b ↦ rw (b, step) (rw (failure-none t.phase to_tcp e n) refl)
]

run-bridge :
    (q t : Half) (es : List (Direction × HalfEvent))
    → All (λ e. ¬ IsFailure e) es
    → run (bridge q t) es ≡ bridge (alone q (of_quic es)) (alone t (of_tcp es))
unfolding run
run-bridge q t [] n = refl
run-bridge q t ((to_quic, e) ∷ es) (n, ns) =
    ap (λ b. run b es) (step-to_quic q t e n) ∙ run-bridge (half_step q e) t es ns
run-bridge q t ((to_tcp, e) ∷ es) (n, ns) =
    ap (λ b. run b es) (step-to_tcp q t e n) ∙ run-bridge q (half_step t e) es ns

run-append :
    (b : Bridge) (es fs : List (Direction × HalfEvent)) → run b (es ++ fs) ≡ run (run b es) fs
unfolding run
run-append b [] fs = refl
run-append b (e ∷ es) fs = run-append (step b e) es fs

-- A bridge that has returned.
step-returned :
    (b : Bridge) (r : Result Error (Unit {0})) (e : Direction × HalfEvent)
    → b.result ≡ some r
    → step b e ≡ b
unfolding step
step-returned b r (d, e) h =
    ap (λ (o : Option (Result Error (Unit {0}))). elim o [ none ↦ advance b d e | some r' ↦ b ]) h

run-returned :
    (b : Bridge) (r : Result Error (Unit {0})) (es : List (Direction × HalfEvent))
    → b.result ≡ some r
    → run b es ≡ b
unfolding run
run-returned b r [] h = refl
run-returned b r (e ∷ es) h = ap (λ c. run c es) (step-returned b r e h) ∙ run-returned b r es h

-- What a bridge has done while no call has failed, and what the first failure of a direction that is
-- not finished does.
pub record IsBridged (es : List (Direction × HalfEvent)) : Type 0 where
  pub quic : (copy_halves es).quic.written ≡ carried (of_quic es)
  pub tcp : (copy_halves es).tcp.written ≡ carried (of_tcp es)
  pub returned : (copy_halves es).result ≡ when (closes (of_quic es) && closes (of_tcp es))
  pub failed_quic :
      (x : Error) (rest : List (Direction × HalfEvent))
      → closes (of_quic es) ≡ false
      → (copy_halves (es ++ (to_quic, fails x) ∷ rest)).result ≡ some (err x)
  pub failed_tcp :
      (x : Error) (rest : List (Direction × HalfEvent))
      → closes (of_tcp es) ≡ false
      → (copy_halves (es ++ (to_tcp, fails x) ∷ rest)).result ≡ some (err x)

step-fails_quic :
    (q t : Half) (x : Error)
    → is_finished q.phase ≡ false
    → step (bridge q t) (to_quic, fails x) ≡ joined (half_step q (fails x)) t (some x)
unfolding step
step-fails_quic q t x h =
    let running : (is_finished q.phase && is_finished t.phase) ≡ false = ground arith in
    rw (running, step) (rw (failure-some q.phase x h) refl)

fails-quic :
    (q t : Half) (x : Error) (rest : List (Direction × HalfEvent))
    → is_finished q.phase ≡ false
    → (run (bridge q t) ((to_quic, fails x) ∷ rest)).result ≡ some (err x)
unfolding run
fails-quic q t x rest h =
    ap (λ b. (run b rest).result) (step-fails_quic q t x h)
    ∙ ap (λ (b : Bridge). b.result)
        (run-returned (joined (half_step q (fails x)) t (some x)) (err x) rest refl)

step-fails_tcp :
    (q t : Half) (x : Error)
    → is_finished t.phase ≡ false
    → step (bridge q t) (to_tcp, fails x) ≡ joined q (half_step t (fails x)) (some x)
unfolding step
step-fails_tcp q t x h =
    let running : (is_finished q.phase && is_finished t.phase) ≡ false = ground arith in
    rw (running, step) (rw (failure-some t.phase x h) refl)

fails-tcp :
    (q t : Half) (x : Error) (rest : List (Direction × HalfEvent))
    → is_finished t.phase ≡ false
    → (run (bridge q t) ((to_tcp, fails x) ∷ rest)).result ≡ some (err x)
unfolding run
fails-tcp q t x rest h =
    ap (λ b. (run b rest).result) (step-fails_tcp q t x h)
    ∙ ap (λ (b : Bridge). b.result)
        (run-returned (joined q (half_step t (fails x)) (some x)) (err x) rest refl)

-- While no call fails, and in whatever order the calls of the two directions end: each writer has
-- received exactly the bytes that its reader has given before its end, in order, also when the other
-- direction is closed already; and the bridge has returned, with success, when both readers have ended
-- and both writers were shut down after that, and not before. A call that fails in a direction that is
-- not closed ends the bridge with its error.
pub copy_halves-IsBridged :
    (es : List (Direction × HalfEvent)) → All (λ e. ¬ IsFailure e) es → IsBridged es
unfolding copy_halves
copy_halves-IsBridged es n =
    let q = alone idle (of_quic es) in
    let t = alone idle (of_tcp es) in
    let ran = run-bridge idle idle es n in
    let (quic, quic_closed) = alone-copying [] (of_quic es) in
    let (tcp, tcp_closed) = alone-copying [] (of_tcp es) in
    record {
      quic = ap (λ (b : Bridge). b.quic.written) ran ∙ quic;
      tcp = ap (λ (b : Bridge). b.tcp.written) ran ∙ tcp;
      returned =
          ap (λ (b : Bridge). b.result) ran
          ∙ ap (λ x. when (x && is_finished t.phase)) quic_closed
          ∙ ap (λ x. when (closes (of_quic es) && x)) tcp_closed;
      failed_quic = λ x rest h.
          ap (λ (b : Bridge). b.result) (run-append _ es ((to_quic, fails x) ∷ rest))
          ∙ ap (λ (b : Bridge). (run b ((to_quic, fails x) ∷ rest)).result) ran
          ∙ fails-quic q t x rest (quic_closed ∙ h);
      failed_tcp = λ x rest h.
          ap (λ (b : Bridge). b.result) (run-append _ es ((to_tcp, fails x) ∷ rest))
          ∙ ap (λ (b : Bridge). (run b ((to_tcp, fails x) ∷ rest)).result) ran
          ∙ fails-tcp q t x rest (tcp_closed ∙ h);
    }
