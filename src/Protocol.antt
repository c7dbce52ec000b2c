-- ===== src/Protocol.antt =====
-- crates/core/src/protocol.rs: the messages between host and relay.
use gamenet.Base.{ℕ, Option, List}

pub data Protocol : Type 0 where
  tcp udp : Protocol

-- 32 bytes.
abbrev pub TunnelToken : Type 0
TunnelToken = List ℕ

pub data ControlMessage : Type 0 where
  register : Protocol → ℕ → TunnelToken → List ℕ → ControlMessage
  tunnel_ready : ℕ → ControlMessage
  new_connection : ℕ → ControlMessage
  error : List ℕ → ControlMessage
  rotate_identity : TunnelToken → TunnelToken → ControlMessage
  identity_rotated : Option ℕ → ControlMessage
  recover_identity : TunnelToken → TunnelToken → ControlMessage
  identity_recovered : ℕ → ControlMessage
