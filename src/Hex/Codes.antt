-- ===== src/Hex/Codes.antt =====
-- Every secret survives its code, and which codes are read.
use gamenet.Base.{
  ℕ, ◌+◌, ◌-◌, ◌*◌, ◌/◌, ◌%◌, ◌≤◌, ◌<◌, ◌≡◌, refl, ap, ◌∙◌, ◌⊎◌, true, false, some, List, [], ◌∷◌,
  ◌++◌, inl, inr, arith, ◌==◌, ltb, leb, length, any, any-of-false, All, All-weaken, Bool-cases, ok,
}
use gamenet.Errors.{Error, parse_int_error, code_not_hex}
use gamenet.Hex.{
  Text, hex_digit, hex_32, to_digit, from_str_radix, is_ascii, parse_pairs, parse_hex_32,
  is_whitespace, trim_start, trim_before, trim_end, trim, format_recovery_code, parse_recovery_code,
}

pub record IsToken (bytes : List ℕ) : Type 0 where
  pub sized : length bytes ≡ 32
  pub octets : All (λ b. b < 256) bytes

to_digit-hex_digit : (n : ℕ) → n < 16 → to_digit (hex_digit n) ≡ some n
unfolding to_digit
to_digit-hex_digit n h = ground arith

from_str_radix-hex_digit :
    (b : ℕ) → b < 256 → from_str_radix (hex_digit (b / 16)) (hex_digit (b % 16)) ≡ some b
unfolding from_str_radix
from_str_radix-hex_digit b h =
    let plain : (hex_digit (b / 16) == b'+') ≡ false = ground arith in
    rw (plain, to_digit-hex_digit (b / 16) (omega arith), to_digit-hex_digit (b % 16) (omega arith))
      (ap some (omega arith))

parse_pairs-hex_32 :
    (e : Error) (bytes : List ℕ)
    → All (λ b. b < 256) bytes
    → parse_pairs e (hex_32 bytes) ≡ ok bytes
unfolding parse_pairs hex_32
parse_pairs-hex_32 e [] h = refl
parse_pairs-hex_32 e (b ∷ bytes) h =
    rw (from_str_radix-hex_digit b h.0, parse_pairs-hex_32 e bytes h.1)

length-hex_32 : (bytes : List ℕ) → length (hex_32 bytes) ≡ 2 * length bytes
unfolding hex_32
length-hex_32 [] = refl
length-hex_32 (b ∷ bytes) = omega (arith, length-hex_32 bytes)

-- The characters that `hex_32` writes.
abbrev pub IsLowerHex : ℕ → Type 0
IsLowerHex c = ((b'0' ≤ c) × (c ≤ b'9')) ⊎ ((b'a' ≤ c) × (c ≤ b'f'))

hex_digit-IsLowerHex : (n : ℕ) → n < 16 → IsLowerHex (hex_digit n)
hex_digit-IsLowerHex n h = elim (Bool-cases (ltb n 10)) [
  | inl e ↦ inl (ground arith, ground arith)
  | inr e ↦ inr (ground arith, ground arith)
]

pub hex_32-IsLowerHex : (bytes : List ℕ) → All (λ b. b < 256) bytes → All IsLowerHex (hex_32 bytes)
unfolding hex_32
hex_32-IsLowerHex [] h = tt
hex_32-IsLowerHex (b ∷ bytes) h = (
  hex_digit-IsLowerHex (b / 16) (omega (arith, h.0)),
  (hex_digit-IsLowerHex (b % 16) (omega arith), hex_32-IsLowerHex bytes h.1),
)

is_ascii-lower : (text : Text) → All IsLowerHex text → is_ascii text ≡ true
unfolding is_ascii
is_ascii-lower text h = rw (
    any-of-false (λ c. leb 128 c) text
      (All-weaken IsLowerHex (λ c. leb 128 c ≡ false) text (λ c l. ground arith) h))

-- A fingerprint of 32 bytes that is written to the lease state is read back.
pub parse_hex_32-hex_32 : (bytes : List ℕ) → IsToken bytes → parse_hex_32 (hex_32 bytes) ≡ ok bytes
unfolding parse_hex_32
parse_hex_32-hex_32 bytes t =
    let long : (length (hex_32 bytes) == 64) ≡ true =
      ground (arith, length-hex_32 bytes, t.sized) in
    rw (long, is_ascii-lower (hex_32 bytes) (hex_32-IsLowerHex bytes t.octets))
      (parse_pairs-hex_32 parse_int_error bytes t.octets)

lower-not_whitespace : (c : ℕ) → IsLowerHex c → is_whitespace c ≡ false
unfolding is_whitespace
lower-not_whitespace c h = ground arith

trim_start_clean : (text : Text) → All (λ c. is_whitespace c ≡ false) text → trim_start text ≡ text
unfolding trim_start
trim_start_clean [] h = refl
trim_start_clean (c ∷ text) h = rw h.0

trim_end_clean : (text : Text) → All (λ c. is_whitespace c ≡ false) text → trim_end text ≡ text
unfolding trim_end
trim_end_clean [] h = refl
trim_end_clean (c ∷ text) h = rw (trim_end_clean text h.1) (kept text)
  where
    kept : (t : Text) → trim_before c t ≡ c ∷ t
    kept [] = rw h.0
    kept (d ∷ t) = refl

trim_clean : (text : Text) → All IsLowerHex text → trim text ≡ text
unfolding trim
trim_clean text h =
    let clean = All-weaken IsLowerHex (λ c. is_whitespace c ≡ false) text lower-not_whitespace h in
    rw (trim_start_clean text clean) (trim_end_clean text clean)

-- White space that a paste leaves around a code.
trim_start_blank :
    (blank text : Text)
    → All (λ c. is_whitespace c ≡ true) blank
    → trim_start (blank ++ text) ≡ trim_start text
unfolding trim_start
trim_start_blank [] text h = refl
trim_start_blank (c ∷ blank) text h = rw h.0 (trim_start_blank blank text h.1)

trim_end_blank : (blank : Text) → All (λ c. is_whitespace c ≡ true) blank → trim_end blank ≡ []
unfolding trim_end
trim_end_blank [] h = refl
trim_end_blank (c ∷ blank) h = rw (trim_end_blank blank h.1, h.0)

trim_end-append_blank :
    (text blank : Text)
    → All (λ c. is_whitespace c ≡ true) blank
    → trim_end (text ++ blank) ≡ trim_end text
unfolding trim_end
trim_end-append_blank [] blank h = trim_end_blank blank h
trim_end-append_blank (c ∷ text) blank h = rw (trim_end-append_blank text blank h)

trim_start-append :
    (c : ℕ) (text blank : Text)
    → is_whitespace c ≡ false
    → trim_start ((c ∷ text) ++ blank) ≡ (c ∷ text) ++ blank
unfolding trim_start
trim_start-append c text blank h = rw h

trim_around :
    (before after : Text) (c : ℕ) (text : Text)
    → All (λ c. is_whitespace c ≡ true) before
    → All (λ c. is_whitespace c ≡ true) after
    → All IsLowerHex (c ∷ text)
    → trim (before ++ ((c ∷ text) ++ after)) ≡ c ∷ text
unfolding trim
trim_around before after c text b a h =
    rw
      (
        trim_start_blank before ((c ∷ text) ++ after) b,
        trim_start-append c text after (lower-not_whitespace c h.0),
      )
      (trim_end-append_blank (c ∷ text) after a
        ∙ trim_end_clean (c ∷ text) (
            All-weaken IsLowerHex (λ c. is_whitespace c ≡ false) (c ∷ text) lower-not_whitespace h))

-- The code that `show-recovery-code` prints is read back as the same 32 bytes, also with white
-- space around it.
pub parse_recovery_code-format :
    (before after : Text) (secret : List ℕ)
    → IsToken secret
    → All (λ c. is_whitespace c ≡ true) before
    → All (λ c. is_whitespace c ≡ true) after
    → parse_recovery_code (before ++ (format_recovery_code secret ++ after)) ≡ ok secret
unfolding parse_recovery_code format_recovery_code
parse_recovery_code-format before after [] t b a = absurd (omega (arith, t.sized))
parse_recovery_code-format before after (x ∷ xs) t b a =
    let long : (length (hex_32 (x ∷ xs)) == 64) ≡ true =
      ground (arith, length-hex_32 (x ∷ xs), t.sized) in
    rw (code, long, is_ascii-lower (hex_32 (x ∷ xs)) lower)
      (parse_pairs-hex_32 code_not_hex (x ∷ xs) t.octets)
  where
    lower : All IsLowerHex (hex_32 (x ∷ xs))
    lower = hex_32-IsLowerHex (x ∷ xs) t.octets

    code : trim (before ++ (hex_32 (x ∷ xs) ++ after)) ≡ hex_32 (x ∷ xs)
    code = unfold hex_32 in trim_around before after _ _ b a lower

to_digit-lower : (c : ℕ) → IsLowerHex c → (n : ℕ) × (to_digit c ≡ some n)
unfolding to_digit
to_digit-lower c (inl h) = (c - b'0', ground arith)
to_digit-lower c (inr h) = (c - b'a' + 10, ground arith)

lower-not_plus : (c : ℕ) → IsLowerHex c → (c == b'+') ≡ false
lower-not_plus c h = ground arith

parse_pairs-lower :
    (e : Error) (text : Text)
    → All IsLowerHex text
    → (bytes : List ℕ) × (parse_pairs e text ≡ ok bytes)
unfolding parse_pairs from_str_radix
parse_pairs-lower e [] h = ([], refl)
parse_pairs-lower e (a ∷ []) h = ([], refl)
parse_pairs-lower e (a ∷ b ∷ text) h =
    let (m, p) = to_digit-lower a h.0 in
    let (n, q) = to_digit-lower b h.1.0 in
    let (bytes, r) = parse_pairs-lower e text h.1.1 in
    ((m * 16 + n) ∷ bytes, rw (lower-not_plus a h.0, p, q, r))

-- The text is 64 characters in ASCII and none of them is white space.
code_text :
    (c d : ℕ) (text : Text)
    → length text ≡ 62
    → c < 128
    → is_whitespace c ≡ false
    → All IsLowerHex (d ∷ text)
    → parse_recovery_code (c ∷ d ∷ text) ≡ parse_pairs code_not_hex (c ∷ d ∷ text)
unfolding parse_recovery_code trim is_ascii
code_text c d text len small dark h =
    let whole : All (λ x. is_whitespace x ≡ false) (c ∷ d ∷ text) = (
      dark,
      All-weaken IsLowerHex (λ x. is_whitespace x ≡ false) (d ∷ text) lower-not_whitespace h,
    ) in
    let ascii : any (λ x. leb 128 x) (c ∷ d ∷ text) ≡ false =
      any-of-false (λ x. leb 128 x) (c ∷ d ∷ text)
        (
          ground arith,
          All-weaken IsLowerHex (λ x. leb 128 x ≡ false) (d ∷ text) (λ x l. ground arith) h,
        ) in
    let long : (length (c ∷ d ∷ text) == 64) ≡ true = ground (arith, len) in
    rw (trim_start_clean (c ∷ d ∷ text) whole)
      (rw (trim_end_clean (c ∷ d ∷ text) whole) (rw (long, ascii)))

-- A plus sign is no hexadecimal digit, yet a code of a plus sign and 63 lower-case hexadecimal
-- digits is read, as if the plus sign were a zero.
pub parse_recovery_code-plus :
    (d : ℕ) (text : Text)
    → length text ≡ 62
    → All IsLowerHex (d ∷ text)
    → (secret : List ℕ) × (parse_recovery_code (b'+' ∷ d ∷ text) ≡ ok secret)
      × (parse_recovery_code (b'0' ∷ d ∷ text) ≡ ok secret)
unfolding parse_pairs from_str_radix is_whitespace
parse_recovery_code-plus d text len h =
    let (n, p) = to_digit-lower d h.0 in
    let (bytes, q) = parse_pairs-lower code_not_hex text h.1 in
    let add : 0 + n ≡ n = omega arith in
    let zero : to_digit b'0' ≡ some 0 = to_digit-hex_digit 0 (omega arith) in
    (
      n ∷ bytes,
      code_text b'+' d text len (omega arith) refl h ∙ rw (p, q),
      code_text b'0' d text len (omega arith) refl h ∙ rw (zero, p, q, add),
    )
