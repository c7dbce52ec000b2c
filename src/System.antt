-- ===== src/System.antt =====
-- A host and the relay together: `AgentTunnel::connect` of crates/cli/src/tunnel.rs, answered by
-- `Tunnel::from_quic` of crates/server/src/tunnel.rs over the state of the relay.
pub mod Reconnects
use gamenet.Base.{ℕ, List, [], ◌∷◌, none, some, ok}
use gamenet.Errors.{Error}
use gamenet.Agent.{Answer, Relay}
use gamenet.State.{ServerState}
use gamenet.Tunnel.{Arrival, Effect, sends, closes, from_quic}

-- What the host receives on its stream: the first message, or its end.
abbrev pub heard : {C : Type 0} → List (Effect C) → Answer
heard [] = ok none
heard (sends msg ∷ effects) = ok (some msg)
heard (closes c ∷ effects) = heard effects

-- The relay in a state, as a host that arrives sees it.
abbrev pub relay_of :
    {C : Type 0} → (List ℕ → List ℕ) → (Error → List ℕ) → Arrival C → ServerState C → Relay
relay_of sha256 to_string a st msg = heard (from_quic sha256 to_string a st (ok (some msg))).effects
