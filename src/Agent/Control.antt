-- ===== src/Agent/Control.antt =====
-- crates/cli/src/tunnel.rs: `handle_control_messages`, which reads the control stream to its end. The
-- players that it logs are the numbers of their streams. The loop runs on fuel, `none` when that is
-- used up.
use gamenet.Base.{
  ℕ, zero, suc, ◌≤◌, ◌<◌, ◌≡◌, refl, ap, Option, none, some, List, [], ◌∷◌, ◌++◌, length,
  length-append, ltb, Result, ok, err, ◌>>=◌, >>=-eq-ok, Bool-cases, inl, inr, arith, All,
}
use gamenet.Errors.{Error}
use gamenet.Protocol.{
  ControlMessage, register, tunnel_ready, new_connection, error, rotate_identity, identity_rotated,
  recover_identity, identity_recovered,
}
use gamenet.Message.{
  Bytes, Codec, to_be_bytes, send_msg, read_exact, frame_length, recv_payload, recv_msg,
  max_control_msg_bytes,
}
use gamenet.Message.Frames.{Carries, recv_msg-send_msg}

-- The players of a message, before those of the rest of the stream.
abbrev pub joined : ControlMessage → List ℕ → List ℕ
joined (new_connection stream_id) players = stream_id ∷ players
joined (register p l t r) players = players
joined (tunnel_ready p) players = players
joined (error text) players = players
joined (rotate_identity a b) players = players
joined (identity_rotated p) players = players
joined (recover_identity a b) players = players
joined (identity_recovered p) players = players

-- The players that are logged, and how the loop ends.
abbrev pub Log : Type 0
Log = List ℕ × Result Error (Unit {0})

abbrev pub log : ControlMessage → Option Log → Option Log
log msg none = none
log msg (some (players, end)) = some (joined msg players, end)

unfoldable pub handle_control_messages : Codec → ℕ → Bytes → Option Log
handle_control_messages codec zero reader = none
handle_control_messages codec (suc fuel) reader = elim (recv_msg codec reader) [
  | err e ↦ some ([], err e)
  | ok (none, rest) ↦ some ([], ok tt)
  | ok (some msg, rest) ↦ log msg (handle_control_messages codec fuel rest)
]

read_exact-length :
    (n : ℕ) (reader read rest : Bytes)
    → read_exact n reader ≡ ok (read, rest)
    → length rest ≤ length reader
unfolding read_exact
read_exact-length zero reader read rest h =
    let same : reader ≡ rest = ground arith in omega (arith, ap length same)
read_exact-length (suc n) [] read rest h = absurd (ground arith)
read_exact-length (suc n) (b ∷ reader) read rest h =
    let ((read', rest'), e, k) = >>=-eq-ok (read_exact n reader) (λ (r, s). ok (b ∷ r, s)) h in
    let same : rest' ≡ rest = ground arith in
    omega (arith, ap length same, read_exact-length n reader read' rest' e)

recv_payload-length :
    (codec : Codec) (len : ℕ) (reader rest : Bytes) (o : Option ControlMessage)
    → recv_payload codec len reader ≡ ok (o, rest)
    → length rest ≤ length reader
unfolding recv_payload
recv_payload-length codec len reader rest o h = elim (Bool-cases (ltb max_control_msg_bytes len)) [
  | inl e ↦ absurd (ground arith)
  | inr e ↦
      let ((payload, rest'), read, k) =
        >>=-eq-ok (read_exact len reader)
          (λ (payload, rest). codec.deserialize payload >>= λ msg. ok (some msg, rest))
          (rw (e, recv_payload) at h) in
      let (msg, _, k') = >>=-eq-ok (codec.deserialize payload) (λ msg. ok (some msg, rest')) k in
      let same : rest' ≡ rest = ground arith in
      omega (arith, ap length same, read_exact-length len reader payload rest' read)
]

-- A message takes at least one byte of the stream.
recv_msg-shorter :
    (codec : Codec) (reader rest : Bytes) (msg : ControlMessage)
    → recv_msg codec reader ≡ ok (some msg, rest)
    → length rest < length reader
unfolding recv_msg
recv_msg-shorter codec [] rest msg h = absurd (ground arith)
recv_msg-shorter codec (a ∷ reader) rest msg h =
    let ((size, reader'), read, k) =
      >>=-eq-ok (read_exact 3 reader)
        (λ (size, reader'). frame_length a size >>= λ len. recv_payload codec len reader') h in
    let (len, _, k') = >>=-eq-ok (frame_length a size) (λ len. recv_payload codec len reader') k in
    omega (
      arith,
      read_exact-length 3 reader size reader' read,
      recv_payload-length codec len reader' rest (some msg) k',
    )

log-eq-some :
    (msg : ControlMessage) (o : Option Log)
    → ((l : Log) × (o ≡ some l))
    → (l : Log) × (log msg o ≡ some l)
log-eq-some msg o ((players, end), e) = ((joined msg players, end), rw e refl)

-- Whatever bytes the control stream brings, the loop comes to its end: as many rounds as there are
-- bytes, and one more, are enough.
pub handle_control_messages-ends :
    (codec : Codec) (fuel : ℕ) (reader : Bytes)
    → length reader < fuel
    → (l : Log) × (handle_control_messages codec fuel reader ≡ some l)
unfolding handle_control_messages
handle_control_messages-ends codec zero reader h = absurd (omega arith)
handle_control_messages-ends codec (suc fuel) reader h =
    go (λ rest k. handle_control_messages-ends codec fuel rest k) (recv_msg codec reader) refl
  where
    go :
        ((rest : Bytes)
          → length rest < fuel
          → (l : Log) × (handle_control_messages codec fuel rest ≡ some l))
        → (r : Result Error (Option ControlMessage × Bytes)) → recv_msg codec reader ≡ r
        → (l : Log) × (handle_control_messages codec (suc fuel) reader ≡ some l)
    go again (err e) q = (([], err e), rw (q, handle_control_messages) refl)
    go again (ok (none, rest)) q = (([], ok tt), rw (q, handle_control_messages) refl)
    go again (ok (some msg, rest)) q =
        let shorter = recv_msg-shorter codec reader rest msg q in
        rw (q, handle_control_messages)
          (log-eq-some msg (handle_control_messages codec fuel rest) (again rest (omega arith)))

-- The messages that a relay sends, one after the other, before it closes the stream.
unfoldable pub send_all : Codec → List ControlMessage → Result Error Bytes
send_all codec [] = ok []
send_all codec (msg ∷ msgs) = do
  bytes ← send_msg codec msg
  rest ← send_all codec msgs
  ok (bytes ++ rest)

-- The players that the messages announce.
abbrev pub announced : List ControlMessage → List ℕ
announced [] = []
announced (msg ∷ msgs) = joined msg (announced msgs)

send_msg-nonempty :
    (codec : Codec) (msg : ControlMessage) (bytes : Bytes)
    → send_msg codec msg ≡ ok bytes
    → 0 < length bytes
unfolding send_msg to_be_bytes
send_msg-nonempty codec msg bytes h =
    let (payload, _, k) = >>=-eq-ok (codec.serialize msg) _ h in
    omega (arith, ap (λ (r : Result Error Bytes). size r) k)
  where
    size : Result Error Bytes → ℕ
    size (ok b) = length b
    size (err e) = 0

-- The host logs the players that the relay has announced, in their order, and ends without an error
-- when the relay closes the stream, if the codec carries each message in at most 64 KiB.
pub handle_control_messages-send_all :
    (codec : Codec) (msgs : List ControlMessage) (bytes : Bytes) (fuel : ℕ)
    → All (λ msg. (payload : Bytes) × Carries codec msg payload) msgs
    → send_all codec msgs ≡ ok bytes
    → length bytes < fuel
    → handle_control_messages codec fuel bytes ≡ some (announced msgs, ok tt)
unfolding handle_control_messages send_all
handle_control_messages-send_all codec msgs bytes zero c h f = absurd (omega arith)
handle_control_messages-send_all codec [] bytes (suc fuel) c h f =
    let same : bytes ≡ [] = ground arith in
    rw (same, handle_control_messages) (unfold recv_msg in refl)
handle_control_messages-send_all codec (msg ∷ msgs) bytes (suc fuel) c h f =
    let ((payload, carries), cs) = c in
    let (frame, sent, h₁) = >>=-eq-ok (send_msg codec msg) _ h in
    let (others, all, h₂) = >>=-eq-ok (send_all codec msgs) (λ rest. ok (frame ++ rest)) h₁ in
    let same : bytes ≡ frame ++ others = ground arith in
    let received = recv_msg-send_msg codec msg payload frame others carries sent in
    let size = send_msg-nonempty codec msg frame sent in
    let shorter : length others < fuel =
      omega (arith, ap length same, length-append frame others) in
    let rest = handle_control_messages-send_all codec msgs others fuel cs all shorter in
    rw same (rw (received, handle_control_messages) (rw rest refl))
