-- ===== src/Bridge.antt =====
-- crates/core/src/bridge.rs and its two callers, the bridge.rs of crates/server/src and
-- crates/cli/src: `copy_halves`, the two directions between a TCP and a QUIC stream, under
-- `try_join!`. What `copy` and `shutdown` of `tokio` do is an event of their direction, in any order.
pub mod Directions
pub mod Interleaved
use gamenet.Base.{
  ℕ, Bool, true, false, ◌&&◌, Option, none, some, List, [], ◌∷◌, ◌++◌, Result, ok, err,
}
use gamenet.Errors.{Error}

-- `to_quic` and `to_tcp`.
pub data Direction : Type 0 where
  to_quic : Direction
  to_tcp : Direction

-- `copy` has read bytes and written them; the reader is at its end; the writer is shut down; a call has
-- failed.
pub data HalfEvent : Type 0 where
  copied : List ℕ → HalfEvent
  ends : HalfEvent
  shut : HalfEvent
  fails : Error → HalfEvent

pub data Phase : Type 0 where
  copying : Phase
  shutting : Phase
  finished : Phase

pub record Half : Type 0 where
  pub written : List ℕ
  pub phase : Phase

-- A direction awaits one call at a time; an event of another call does not occur, and changes nothing.
abbrev pub half_step : Half → HalfEvent → Half
half_step h e = next h.phase e
  where
    next : Phase → HalfEvent → Half
    next copying (copied bytes) = record h { written = h.written ++ bytes }
    next copying ends = record h { phase = shutting }
    next copying shut = h
    next copying (fails x) = h
    next shutting (copied bytes) = h
    next shutting ends = h
    next shutting shut = record h { phase = finished }
    next shutting (fails x) = h
    next finished e = h

-- The error that ends the bridge: that of a direction which is not finished.
abbrev pub failure : Phase → HalfEvent → Option Error
failure copying (fails x) = some x
failure shutting (fails x) = some x
failure finished e = none
failure copying (copied bytes) = none
failure copying ends = none
failure copying shut = none
failure shutting (copied bytes) = none
failure shutting ends = none
failure shutting shut = none

abbrev pub is_finished : Phase → Bool
is_finished copying = false
is_finished shutting = false
is_finished finished = true

-- The two directions, and what `copy_halves` has returned.
pub record Bridge : Type 0 where
  pub quic : Half
  pub tcp : Half
  pub result : Option (Result Error (Unit {0}))

abbrev pub when : Bool → Option (Result Error (Unit {0}))
when true = some (ok tt)
when false = none

-- `try_join!`: both directions are finished, or the first error.
abbrev pub joined : Half → Half → Option Error → Bridge
joined q t none = record {
  quic = q;
  tcp = t;
  result = when (is_finished q.phase && is_finished t.phase);
}
joined q t (some e) = record { quic = q; tcp = t; result = some (err e) }

abbrev pub advance : Bridge → Direction → HalfEvent → Bridge
advance b to_quic e = joined (half_step b.quic e) b.tcp (failure b.quic.phase e)
advance b to_tcp e = joined b.quic (half_step b.tcp e) (failure b.tcp.phase e)

-- A bridge that has returned does nothing more.
unfoldable pub step : Bridge → Direction × HalfEvent → Bridge
step b (d, e) = elim b.result [ none ↦ advance b d e | some r ↦ b ]

unfoldable pub run : Bridge → List (Direction × HalfEvent) → Bridge
run b [] = b
run b (e ∷ es) = run (step b e) es

abbrev pub idle : Half
idle = record { written = []; phase = copying }

unfoldable pub copy_halves : List (Direction × HalfEvent) → Bridge
copy_halves = run (record { quic = idle; tcp = idle; result = none })

-- crates/server/src/bridge.rs.
unfoldable pub bridge_tcp_to_quic : List (Direction × HalfEvent) → Option (Result Error (Unit {0}))
bridge_tcp_to_quic es = (copy_halves es).result

-- crates/cli/src/bridge.rs, from how the connection to the local port ends.
unfoldable pub bridge_to_local :
    Option Error → List (Direction × HalfEvent) → Option (Result Error (Unit {0}))
bridge_to_local none es = (copy_halves es).result
bridge_to_local (some e) es = some (err e)
