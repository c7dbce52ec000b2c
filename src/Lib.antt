-- ===== src/Lib.antt =====
-- A verification library of gamenet, a relay that gives a game server behind a router a public TCP
-- port. A host keeps an identity of 32 secret bytes; the relay promises a port to the identity's
-- fingerprint, keeps the promise for five minutes after the host has gone, and lets the host rotate
-- the identity, or recover the promise with a separate key.
--
-- The relay, crates/server/src:
--   Lease (lease.rs): `LeaseTable` with its operations; those with `&mut self` return the table that
--     they leave, also beside an error. The claims that move to another identity are in
--     Lease/Claims, the saved records in Lease/Records. Lease/WellFormed says what a table keeps;
--     Lease/Runs, Quota, Capacity, Reserved, Promised, Revoked, Live, Restore and Accepted prove it
--     and what follows.
--   Address, Admission (host_admission.rs): the network of an address, and the slots for hosts that
--     have not registered.
--   State (state.rs): the table behind its store, and the connections. How a write of the store and
--     a bind of a port end are arguments, so a theorem for all arguments covers every failure. The
--     field `disk` holds the records that were written last. State/Runs has every sequence of
--     requests; Connections and Blocked follow the connections and a failed write,
--     Promise a host that comes back, Restart one that comes back to a relay that has started again.
--   Store (lease_store.rs): records to and from text, the import of the old format, and in
--     Store/Disk the reading and writing of the file; Store/Reload, Saved, Loading and Backup say what
--     they lead to, and Store/Started has `load_or_new` on the files.
--   Tunnel (tunnel.rs): what the relay does with a host's first message, the clean-up of a
--     registration that was canceled, the player slots, and in Tunnel/Running the loop of `run`.
--   Relay (relay.rs): the choice of a certificate, the admission of connections, and in Relay/Serving
--     the loop of `run` with the tasks that it spawns: what waits for what is in lists, and each event
--     is a step of the loop or of one task. Its children say whose each session is, which tasks hold
--     the permits and that none is lost, that all tasks can end, and that a host comes back to its
--     port.
-- The host, crates/cli/src and crates/core/src:
--   Identity (crates/core/src/identity.rs): the identity's files, in a monad over a file system whose
--     calls the operating system may refuse. Identity/Paths has the paths of the user's files;
--     Identity/Files says what stays whatever is refused, Success, Rotation, Recovery, Stable and
--     Retry what success means.
--   Agent (crates/cli/src/tunnel.rs and main.rs): rotation and recovery against any relay, and the
--     delays of the reconnect loop. Agent/Control is the loop over the control stream, Agent/Running
--     the loop over the streams of players, Agent/Hosting the `host` command with its attempts to
--     connect, Agent/Backup the code that is shown, Agent/Main the commands of `main`.
--   Presets (crates/core/src/presets.rs, `local_port_for` of crates/cli/src/main.rs): the local port
--     of a game.
-- Both:
--   System: the host's attempt to connect, answered by the relay, and a host that comes back.
-- Shared:
--   Bridge (crates/core/src/bridge.rs and the callers in crates/server/src and crates/cli/src): the two
--     directions of a player's bytes.
--   Protocol, Message (crates/core/src/protocol.rs, message.rs): the messages and their frames.
--   Hex (`hex_32` and `parse_hex_32` of lease_store.rs, the recovery code of identity.rs).
--   Base, HashMap, Errors: lists, results, maps, and one error for each message of the code.
--
-- Tests and Lease/Tests run the definitions at concrete inputs.
--
-- Numbers are natural numbers; `u64` times saturate at `u64_max`, session numbers are checked
-- against it, and lengths of frames wrap at `2 ^ 32`, as in the code. A `HashMap` is an association
-- list, which is iterated in its order; a real map has no particular one. Only the loop over the
-- control stream runs on fuel, for which Agent/Control gives a bound; every other loop of the code
-- that is modelled goes through a list.
--
-- Parameters stand for `bincode`, `serde_json`, the SHA-256 of `ring`, the text of an error, the
-- bytes that `getrandom` draws, and a QUIC connection. Sequences of events stand for the `select!`
-- loops, so every order of the events of a loop is covered. The clock is an argument of each operation.
--
-- Not modelled: crypto.rs and identity/windows_acl.rs (calls of rustls, quinn and Win32), how tokio
-- copies bytes, the parsing of the command line, name resolution, the start of the relay at its fixed
-- port, and logging. Paths are those of a system whose separator is a slash.
pub mod Base
pub mod HashMap
pub mod Address
pub mod Bridge
pub mod Errors
pub mod Protocol
pub mod Message
pub mod Hex
pub mod Identity
pub mod Lease
pub mod Admission
pub mod State
pub mod Store
pub mod Tunnel
pub mod Relay
pub mod Agent
pub mod Presets
pub mod System
pub mod Tests
