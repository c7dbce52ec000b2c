-- ===== src/Tests/Sample.antt =====
-- Values that the tests share: hosts, a fresh server state, and a host that arrives at the relay.
use gamenet.Base.{
  ℕ, zero, suc, ◌<◌, ◌≡◌, refl, ap, true, Option, none, some, List, [], ◌∷◌, length, All, arith,
  Result, ok,
}
use gamenet.Address.{IpAddr}
use gamenet.Errors.{Error, io}
use gamenet.Identity.{FileSystem, Faults}
use gamenet.Agent.{Relay}
use gamenet.Protocol.{error, ControlMessage, register, tcp, new_connection}
use gamenet.Message.{Codec, Bytes}
use gamenet.Message.Frames.{Carries}
use gamenet.Hex.{is_whitespace}
use gamenet.Hex.Codes.{IsToken}
use gamenet.Lease.{TokenId, new}
use gamenet.State.{ServerState, written, BindOutcome, bound}
use gamenet.Tunnel.{Arrival}

abbrev pub host : TokenId
host = record { bytes = 1 ∷ [] }

abbrev pub successor : TokenId
successor = record { bytes = 2 ∷ [] }

abbrev pub key : TokenId
key = record { bytes = 3 ∷ [] }

abbrev pub home : IpAddr
home = IpAddr.v4 (192 ∷ 0 ∷ 2 ∷ 1 ∷ [])

-- A connection is a number.
abbrev pub fresh : ServerState ℕ
fresh = record { leases = new; disk = []; persistence_healthy = true; active_connections = [] }

abbrev pub free : ℕ → BindOutcome
free port = bound

-- `ring` as a function that keeps the bytes, and the text of every error empty.
abbrev pub digest : List ℕ → List ℕ
digest bytes = bytes

abbrev pub text : Error → List ℕ
text e = []

abbrev pub arrival : (ControlMessage → Option Error) → Arrival ℕ
arrival deliver = record {
  connection = 7;
  peer_ip = home;
  now = 1000;
  bind = free;
  save = written;
  deliver = deliver;
  stop = none;
}

abbrev pub delivers : ControlMessage → Option Error
delivers m = none

abbrev pub breaks : ControlMessage → Option Error
breaks m = some (io 32)

abbrev pub asks : Result Error (Option ControlMessage)
asks = ok (some (register tcp 25565 (1 ∷ []) (3 ∷ [])))

abbrev pub zeros : ℕ → List ℕ
zeros zero = []
zeros (suc n) = 0 ∷ zeros n

pub length-zeros : (n : ℕ) → length (zeros n) ≡ n
length-zeros zero = refl
length-zeros (suc n) = ap suc (length-zeros n)

pub octets-zeros : (n : ℕ) → All (λ b. b < 256) (zeros n)
octets-zeros zero = tt
octets-zeros (suc n) = (omega arith, octets-zeros n)

pub secret : IsToken (zeros 32)
secret = record { sized = refl; octets = octets-zeros 32 }

pub blank : is_whitespace 10 ≡ true
unfolding is_whitespace
blank = refl

-- A codec that writes one byte for a player, and reads it back.
abbrev pub codec : Codec
codec = record { serialize = λ m. ok (7 ∷ 8 ∷ []); deserialize = λ bytes. ok (new_connection 7) }

pub carried : Carries codec (new_connection 7) (7 ∷ 8 ∷ [])
carried = record { there = refl; back = refl; fits = omega arith }

abbrev pub frame : Bytes
frame = 0 ∷ 0 ∷ 0 ∷ 2 ∷ 7 ∷ 8 ∷ []

abbrev pub candidate : List ℕ
candidate = 1 ∷ zeros 31

abbrev pub digits : ℕ → List ℕ
digits zero = []
digits (suc n) = b'f' ∷ digits n

-- A file system without files, and an operating system that refuses nothing.
abbrev pub empty_disk : FileSystem
empty_disk q = none

abbrev pub no_faults : Faults
no_faults op = none

-- A relay that refuses every request.
abbrev pub refuses : Relay
refuses m = ok (some (error []))
