-- ===== src/Message.antt =====
-- crates/core/src/message.rs: messages in frames, each behind its length in four bytes. The crate
-- `bincode` is a parameter. A reader is the bytes that will arrive before the end of the stream,
-- and is returned without those read.
pub mod Frames
use gamenet.Base.{
  ℕ, zero, suc, ◌+◌, ◌*◌, ◌/◌, ◌%◌, ◌^◌, ◌≡◌, Option, none, some, List, [], ◌∷◌, ◌++◌, ltb,
  if◌then◌else◌, length, Result, ok, err, ◌>>=◌,
}
use gamenet.Errors.{Error, message_too_large, unexpected_eof}
use gamenet.Protocol.{ControlMessage}

abbrev pub Bytes : Type 0
Bytes = List ℕ

abbrev pub max_control_msg_bytes : ℕ
max_control_msg_bytes = 64 * 1024

-- What is called of `bincode`.
pub record Codec : Type 0 where
  pub serialize : ControlMessage → Result Error Bytes
  pub deserialize : Bytes → Result Error ControlMessage

-- `u32::to_be_bytes`.
unfoldable pub to_be_bytes : ℕ → Bytes
to_be_bytes n = n / 16777216 % 256 ∷ n / 65536 % 256 ∷ n / 256 % 256 ∷ n % 256 ∷ []

-- `u32::from_be_bytes`.
unfoldable pub from_be_bytes : ℕ → ℕ → ℕ → ℕ → ℕ
from_be_bytes a b c d = a * 16777216 + b * 65536 + c * 256 + d

-- The bytes written; `as u32` keeps the low 32 bits of the length.
unfoldable pub send_msg : Codec → ControlMessage → Result Error Bytes
send_msg codec msg = do
  payload ← codec.serialize msg
  ok (to_be_bytes (length payload % 2 ^ 32) ++ payload)

-- `read_exact`.
unfoldable pub read_exact : ℕ → Bytes → Result Error (Bytes × Bytes)
read_exact zero reader = ok ([], reader)
read_exact (suc n) [] = err unexpected_eof
read_exact (suc n) (b ∷ reader) = do (read, rest) ← read_exact n reader; ok (b ∷ read, rest)

-- The four bytes of a length, of which the first has been read.
unfoldable pub frame_length : ℕ → Bytes → Result Error ℕ
frame_length a (b ∷ c ∷ d ∷ []) = ok (from_be_bytes a b c d)
frame_length a _ = err unexpected_eof

unfoldable pub recv_payload : Codec → ℕ → Bytes → Result Error (Option ControlMessage × Bytes)
recv_payload codec len reader =
    if ltb max_control_msg_bytes len then err (message_too_large len) else do
      (payload, rest) ← read_exact len reader
      msg ← codec.deserialize payload
      ok (some msg, rest)

-- The end of the stream is clean only between frames.
unfoldable pub recv_msg : Codec → Bytes → Result Error (Option ControlMessage × Bytes)
recv_msg codec [] = ok (none, [])
recv_msg codec (a ∷ reader) = do
  (rest_of_length, reader') ← read_exact 3 reader
  len ← frame_length a rest_of_length
  recv_payload codec len reader'
