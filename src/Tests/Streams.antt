-- ===== src/Tests/Streams.antt =====
-- Runs of the control stream, of a host's tunnel and of a bridge at concrete inputs: crates/cli/src and
-- crates/core/src/bridge.rs.
use gamenet.Base.{false, ◌≡◌, refl, true, some, List, [], ◌∷◌, ◌++◌, ok, take, arith}
use gamenet.Agent.Control.{Log, handle_control_messages, handle_control_messages-ends}
use gamenet.Agent.Running.{
  LoopEvent, accepted, completed, running, connected, ended, run, GoesOn, playing, run-connected,
}
use gamenet.Bridge.{
  Direction, to_quic, to_tcp, HalfEvent, copied, ends, shut, copy_halves, run as run_bridge,
  step as step_bridge,
}
use gamenet.Bridge.Interleaved.{IsBridged, copy_halves-IsBridged}
use gamenet.Tests.Sample.{codec, frame}

-- A control stream of one frame and a half.
handle_control_messages-ends_example :
    (l : Log) × (handle_control_messages codec 10 (frame ++ take 3 frame) ≡ some l)
handle_control_messages-ends_example =
    handle_control_messages-ends codec 10 (frame ++ take 3 frame) (omega arith)

-- A tunnel with two players, the first of which leaves before the relay closes the connection.
abbrev played : List LoopEvent
played = accepted 4 ∷ accepted 8 ∷ completed 4 ∷ []

run-connected_example :
    (run (connected 25565) played ≡ (running 25565 (playing 25565 played), true))
    × ((e : LoopEvent) (rest : List LoopEvent)
        → ¬ GoesOn e
        → run (connected 25565) (played ++ e ∷ rest) ≡ (ended 25565, false))
run-connected_example = run-connected 25565 played (tt, (tt, (tt, tt)))

-- A player that closes its half first, and still receives the answer.
abbrev half_closed : List (Direction × HalfEvent)
half_closed =
    (to_quic, copied (1 ∷ 2 ∷ []))
    ∷ (to_quic, ends)
    ∷ (to_tcp, copied (3 ∷ []))
    ∷ (to_quic, shut)
    ∷ (to_tcp, copied (4 ∷ []))
    ∷ (to_tcp, ends)
    ∷ (to_tcp, shut)
    ∷ []

copy_halves-IsBridged_example : IsBridged half_closed
copy_halves-IsBridged_example =
    copy_halves-IsBridged half_closed
      ((λ f. f), ((λ f. f), ((λ f. f), ((λ f. f), ((λ f. f), ((λ f. f), ((λ f. f), tt)))))))

half_closed_run :
    ((copy_halves half_closed).tcp.written ≡ 3 ∷ 4 ∷ [])
    × ((copy_halves half_closed).result ≡ some (ok tt))
unfolding copy_halves run_bridge step_bridge
half_closed_run = (refl, refl)
