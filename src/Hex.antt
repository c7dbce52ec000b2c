-- ===== src/Hex.antt =====
-- Hexadecimal text: `hex_32` and `parse_hex_32` of crates/server/src/lease_store.rs, and the
-- recovery code of crates/core/src/identity.rs. A text is the list of its code points.
pub mod Codes
use gamenet.Base.{
  ℕ, zero, suc, ◌+◌, ◌-◌, ◌*◌, ◌/◌, ◌%◌, ◌≡◌, Bool, true, false, not, ◌&&◌, ◌||◌, Option, none,
  some, List, [], ◌∷◌, ◌++◌, ◌==◌, ltb, leb, if◌then◌else◌, length, any, Result, ok, err, ◌>>=◌,
  ◌>>◌, ensure,
}
use gamenet.Errors.{Error, expected_hex, parse_int_error, code_not_hex_length, code_not_hex}

abbrev pub Text : Type 0
Text = List ℕ

abbrev pub hex_digit : ℕ → ℕ
hex_digit n = if ltb n 10 then b'0' + n else b'a' + n - 10

-- `write!(result, "{byte:02x}")` for each byte.
unfoldable pub hex_32 : List ℕ → Text
hex_32 [] = []
hex_32 (byte ∷ bytes) = hex_digit (byte / 16) ∷ hex_digit (byte % 16) ∷ hex_32 bytes

-- `char::to_digit(16)`.
unfoldable pub to_digit : ℕ → Option ℕ
to_digit c =
    if leb b'0' c && leb c b'9'
    then some (c - b'0')
    else if leb b'a' c && leb c b'f'
    then some (c - b'a' + 10)
    else if leb b'A' c && leb c b'F'
    then some (c - b'A' + 10)
    else none

abbrev pub two_digits : Option ℕ → Option ℕ → Option ℕ
two_digits (some a) (some b) = some (a * 16 + b)
two_digits (some a) none = none
two_digits none b = none

-- `u8::from_str_radix` on two characters: it takes a leading plus sign.
unfoldable pub from_str_radix : ℕ → ℕ → Option ℕ
from_str_radix a b = if a == b'+' then to_digit b else two_digits (to_digit a) (to_digit b)

unfoldable pub is_ascii : Text → Bool
is_ascii text = not (any (λ c. leb 128 c) text)

abbrev pub or_error : Error → Option ℕ → Result Error ℕ
or_error e none = err e
or_error e (some n) = ok n

-- The loop over the slots, two characters for each.
unfoldable pub parse_pairs : Error → Text → Result Error (List ℕ)
parse_pairs e [] = ok []
parse_pairs e (a ∷ []) = ok []
parse_pairs e (a ∷ b ∷ text) = do
  byte ← or_error e (from_str_radix a b)
  bytes ← parse_pairs e text
  ok (byte ∷ bytes)

unfoldable pub parse_hex_32 : Text → Result Error (List ℕ)
parse_hex_32 hex = do
  ensure (length hex == 64 && is_ascii hex) expected_hex
  parse_pairs parse_int_error hex

-- `char::is_whitespace`.
unfoldable pub is_whitespace : ℕ → Bool
is_whitespace c =
    (leb 9 c && leb c 13)
    || (c == 32
        || (c == 133
            || (c == 160
                || (c == 5760
                    || ((leb 8192 c && leb c 8202)
                        || (c == 8232
                            || (c == 8233 || (c == 8239 || (c == 8287 || c == 12288)))))))))

unfoldable pub trim_start : Text → Text
trim_start [] = []
trim_start (c ∷ text) = if is_whitespace c then trim_start text else c ∷ text

-- A character before the rest of a text that is trimmed at its end.
abbrev pub trim_before : ℕ → Text → Text
trim_before c [] = if is_whitespace c then [] else c ∷ []
trim_before c (d ∷ text) = c ∷ d ∷ text

unfoldable pub trim_end : Text → Text
trim_end [] = []
trim_end (c ∷ text) = trim_before c (trim_end text)

-- `str::trim`.
unfoldable pub trim : Text → Text
trim text = trim_end (trim_start text)

unfoldable pub format_recovery_code : List ℕ → Text
format_recovery_code secret = hex_32 secret

unfoldable pub parse_recovery_code : Text → Result Error (List ℕ)
parse_recovery_code code = do
  ensure (length (trim code) == 64 && is_ascii (trim code)) code_not_hex_length
  parse_pairs code_not_hex (trim code)
