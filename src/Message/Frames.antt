-- ===== src/Message/Frames.antt =====
-- What is sent is received, frame by frame.
use gamenet.Base.{
  ℕ, zero, suc, ◌+◌, ◌/◌, ◌%◌, ◌^◌, ◌≤◌, ◌<◌, ◌≡◌, refl, ap, ◌∙◌, true, false, some, [], ◌∷◌, ◌++◌,
  arith, ltb, length, take, ok, err,
}
use gamenet.Errors.{message_too_large, unexpected_eof}
use gamenet.Protocol.{ControlMessage}
use gamenet.Message.{
  Bytes, max_control_msg_bytes, Codec, to_be_bytes, from_be_bytes, send_msg, read_exact,
  frame_length, recv_payload, recv_msg,
}

from_to_be_bytes :
    (n : ℕ)
    → n < 2 ^ 32
    → from_be_bytes (n / 16777216 % 256) (n / 65536 % 256) (n / 256 % 256) (n % 256) ≡ n
unfolding from_be_bytes
from_to_be_bytes n h = omega arith

read_exact-append : (xs ys : Bytes) → read_exact (length xs) (xs ++ ys) ≡ ok (xs, ys)
unfolding read_exact
read_exact-append [] ys = refl
read_exact-append (x ∷ xs) ys = rw (read_exact-append xs ys)

read_exact_short : (n : ℕ) (xs : Bytes) → length xs < n → read_exact n xs ≡ err unexpected_eof
unfolding read_exact
read_exact_short zero xs h = absurd (omega arith)
read_exact_short (suc n) [] h = refl
read_exact_short (suc n) (x ∷ xs) h = rw (read_exact_short n xs (omega arith))

-- A frame of a length in 32 bits.
recv_frame :
    (codec : Codec) (n : ℕ) (reader : Bytes)
    → n < 2 ^ 32
    → recv_msg codec (to_be_bytes n ++ reader) ≡ recv_payload codec n reader
unfolding recv_msg to_be_bytes read_exact frame_length
recv_frame codec n reader h = rw (from_to_be_bytes n h)

-- The codec takes the message to a payload that fits a frame, and back.
pub record Carries (codec : Codec) (msg : ControlMessage) (payload : Bytes) : Type 0 where
  pub there : codec.serialize msg ≡ ok payload
  pub back : codec.deserialize payload ≡ ok msg
  pub fits : length payload ≤ max_control_msg_bytes

send_msg-frame :
    (codec : Codec) (msg : ControlMessage) (payload : Bytes)
    → codec.serialize msg ≡ ok payload
    → length payload < 2 ^ 32
    → send_msg codec msg ≡ ok (to_be_bytes (length payload) ++ payload)
unfolding send_msg
send_msg-frame codec msg payload e h =
    let low : length payload % 2 ^ 32 ≡ length payload = omega arith in rw (e, low)

to_be_bytes-append :
    (n : ℕ) (xs ys : Bytes) → (to_be_bytes n ++ xs) ++ ys ≡ to_be_bytes n ++ (xs ++ ys)
unfolding to_be_bytes
to_be_bytes-append n xs ys = refl

-- Whatever the stream goes on with, a message that is sent is the next one received, and the rest
-- of the stream is left, if the codec carries the message in a payload of at most 64 KiB.
pub recv_msg-send_msg :
    (codec : Codec) (msg : ControlMessage) (payload bytes rest : Bytes)
    → Carries codec msg payload
    → send_msg codec msg ≡ ok bytes
    → recv_msg codec (bytes ++ rest) ≡ ok (some msg, rest)
unfolding recv_payload
recv_msg-send_msg codec msg payload bytes rest c h =
    let framed = send_msg-frame codec msg payload c.there (omega (arith, c.fits)) in
    let same : bytes ≡ to_be_bytes (length payload) ++ payload = ground (arith, framed) in
    let small : ltb max_control_msg_bytes (length payload) ≡ false = ground (arith, c.fits) in
    rw (same, to_be_bytes-append (length payload) payload rest)
      (recv_frame codec (length payload) (payload ++ rest) (omega (arith, c.fits))
        ∙ rw (small, read_exact-append payload rest, c.back))

take_be_bytes :
    (codec : Codec) (k n : ℕ) (xs : Bytes)
    → k < 4
    → 0 < k
    → recv_msg codec (take k (to_be_bytes n ++ xs)) ≡ err unexpected_eof
unfolding to_be_bytes recv_msg read_exact
take_be_bytes codec zero n xs h p = absurd (omega arith)
take_be_bytes codec (suc zero) n xs h p = refl
take_be_bytes codec (suc (suc zero)) n xs h p = refl
take_be_bytes codec (suc (suc (suc zero))) n xs h p = refl
take_be_bytes codec (suc (suc (suc (suc k)))) n xs h p = absurd (omega arith)

take-to_be_bytes :
    (k n : ℕ) (xs : Bytes)
    → take (suc (suc (suc (suc k)))) (to_be_bytes n ++ xs) ≡ to_be_bytes n ++ take k xs
unfolding to_be_bytes
take-to_be_bytes k n xs = refl

length-take-le : (k : ℕ) (xs : Bytes) → length (take k xs) ≤ k
length-take-le zero xs = omega arith
length-take-le (suc k) [] = omega arith
length-take-le (suc k) (x ∷ xs) = omega (arith, length-take-le k xs)

length-to_be_bytes : (n : ℕ) (xs : Bytes) → length (to_be_bytes n ++ xs) ≡ length xs + 4
unfolding to_be_bytes
length-to_be_bytes n xs = omega arith

-- When the codec carries a message in a payload of at most 64 KiB, and its frame breaks off after
-- at least one byte, in its length or in its payload, to receive it is the error of an early end,
-- and never a clean end of the stream.
pub recv_msg-truncated :
    (codec : Codec) (msg : ControlMessage) (payload bytes : Bytes) (k : ℕ)
    → Carries codec msg payload
    → send_msg codec msg ≡ ok bytes
    → 0 < k
    → k < length bytes
    → recv_msg codec (take k bytes) ≡ err unexpected_eof
unfolding recv_payload
recv_msg-truncated codec msg payload bytes k c h pos short =
    let framed = send_msg-frame codec msg payload c.there (omega (arith, c.fits)) in
    let same : bytes ≡ to_be_bytes (length payload) ++ payload = ground (arith, framed) in
    rw same (go k pos (omega (arith, ap length same, length-to_be_bytes (length payload) payload)))
  where
    small : ltb max_control_msg_bytes (length payload) ≡ false
    small = ground (arith, c.fits)

    go :
        (k : ℕ)
        → 0 < k
        → k < length payload + 4
        → recv_msg codec (take k (to_be_bytes (length payload) ++ payload)) ≡ err unexpected_eof
    go (suc (suc (suc (suc k)))) p q = rw (take-to_be_bytes k (length payload) payload) (
        recv_frame codec (length payload) (take k payload) (omega (arith, c.fits))
        ∙ rw (
          small,
          read_exact_short (length payload) (take k payload)
              (omega (arith, length-take-le k payload)),
        ))
    go (suc (suc (suc zero))) p q = take_be_bytes codec 3 (length payload) payload (omega arith) p
    go (suc (suc zero)) p q = take_be_bytes codec 2 (length payload) payload (omega arith) p
    go (suc zero) p q = take_be_bytes codec 1 (length payload) payload (omega arith) p
    go zero p q = absurd (omega arith)

-- A sender does not check the size: a payload of more than 64 KiB, and less than 4 GiB, is sent,
-- and the receiver refuses it by its length.
pub recv_msg-too_large :
    (codec : Codec) (msg : ControlMessage) (payload rest : Bytes)
    → codec.serialize msg ≡ ok payload
    → max_control_msg_bytes < length payload
    → length payload < 2 ^ 32
    → (bytes : Bytes) × (send_msg codec msg ≡ ok bytes)
      × (recv_msg codec (bytes ++ rest) ≡ err (message_too_large (length payload)))
unfolding recv_payload
recv_msg-too_large codec msg payload rest e large word =
    let big : ltb max_control_msg_bytes (length payload) ≡ true = ground arith in
    (
      to_be_bytes (length payload) ++ payload,
      send_msg-frame codec msg payload e word,
      rw (to_be_bytes-append (length payload) payload rest)
          (recv_frame codec (length payload) (payload ++ rest) word ∙ rw big),
    )
