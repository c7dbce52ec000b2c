-- ===== src/Presets.antt =====
-- crates/core/src/presets.rs, and `local_port_for` of crates/cli/src/main.rs: the local port of a
-- tunnel. A text is the list of its code points.
pub mod LocalPort
use gamenet.Base.{
  ℕ, ◌+◌, ◌≡◌, Bool, true, false, not, ◌&&◌, Option, none, some, List, [], ◌∷◌, ◌==◌, leb,
  if◌then◌else◌, find, Result, ok, err, ◌>>=◌, ◌>>◌, ensure,
}
use gamenet.Errors.{Error, unknown_game, udp_game, no_port_given, zero_port}
use gamenet.Hex.{Text}
use gamenet.Protocol.{Protocol, tcp, udp}

pub record GamePreset : Type 0 where
  pub name : Text
  pub protocol : Protocol
  pub default_port : ℕ

abbrev pub minecraft : Text
minecraft = b'm' ∷ b'i' ∷ b'n' ∷ b'e' ∷ b'c' ∷ b'r' ∷ b'a' ∷ b'f' ∷ b't' ∷ []

abbrev pub bedrock : Text
bedrock = b'b' ∷ b'e' ∷ b'd' ∷ b'r' ∷ b'o' ∷ b'c' ∷ b'k' ∷ []

abbrev pub valheim : Text
valheim = b'v' ∷ b'a' ∷ b'l' ∷ b'h' ∷ b'e' ∷ b'i' ∷ b'm' ∷ []

abbrev pub terraria : Text
terraria = b't' ∷ b'e' ∷ b'r' ∷ b'r' ∷ b'a' ∷ b'r' ∷ b'i' ∷ b'a' ∷ []

abbrev pub factorio : Text
factorio = b'f' ∷ b'a' ∷ b'c' ∷ b't' ∷ b'o' ∷ b'r' ∷ b'i' ∷ b'o' ∷ []

-- `PRESETS`.
unfoldable pub presets : List GamePreset
presets =
    record { name = minecraft; protocol = tcp; default_port = 25565 }
    ∷ record { name = bedrock; protocol = udp; default_port = 19132 }
    ∷ record { name = valheim; protocol = udp; default_port = 2456 }
    ∷ record { name = terraria; protocol = tcp; default_port = 7777 }
    ∷ record { name = factorio; protocol = udp; default_port = 34197 }
    ∷ []

-- `to_ascii_lowercase` of a code point.
abbrev pub to_lower : ℕ → ℕ
to_lower c = if leb b'A' c && leb c b'Z' then c + 32 else c

-- `eq_ignore_ascii_case`.
unfoldable pub eq_ignore_ascii_case : Text → Text → Bool
eq_ignore_ascii_case [] [] = true
eq_ignore_ascii_case [] (d ∷ t) = false
eq_ignore_ascii_case (c ∷ s) [] = false
eq_ignore_ascii_case (c ∷ s) (d ∷ t) = (to_lower c == to_lower d) && eq_ignore_ascii_case s t

unfoldable pub find_preset : Text → Option GamePreset
find_preset name = find (λ p. eq_ignore_ascii_case p.name name) presets

abbrev pub look_up : Option Text → Result Error (Option GamePreset)
look_up none = ok none
look_up (some name) = elim (find_preset name) [ none ↦ err unknown_game | some p ↦ ok (some p) ]

abbrev pub is_tcp : Protocol → Bool
is_tcp tcp = true
is_tcp udp = false

abbrev pub check_protocol : Option GamePreset → Result Error (Unit {0})
check_protocol none = ok tt
check_protocol (some p) = ensure (is_tcp p.protocol) udp_game

-- `port.or_else(|| preset.map(|preset| preset.default_port))`.
abbrev pub chosen : Option ℕ → Option GamePreset → Result Error ℕ
chosen (some port) preset = ok port
chosen none (some p) = ok p.default_port
chosen none none = err no_port_given

unfoldable pub local_port_for : Option Text → Option ℕ → Result Error ℕ
local_port_for game port = do
  preset ← look_up game
  check_protocol preset
  local_port ← chosen port preset
  ensure (not (local_port == 0)) zero_port
  ok local_port
