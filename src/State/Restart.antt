-- ===== src/State/Restart.antt =====
-- A port is kept when the relay starts again: crates/server/src/state.rs over its store.
use gamenet.Base.{ℕ}
use gamenet.Lease.{grace, Lease}
use gamenet.Lease.Records.{expiry}

-- The claim as it is loaded: its host has the rest of its time.
abbrev pub restarted : Lease → ℕ → Lease
restarted l now = record l { status = grace (expiry now l.status) }
