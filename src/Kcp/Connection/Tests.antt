-- ===== src/Kcp/Connection/Tests.antt =====
-- Runs of Connection from a new one.
use v2root_core.Base.{ℕ, ◌<◌, true, List, [], ◌∷◌, arith}
use v2root_core.Base.Outcome.{Completes}
use v2root_core.Kcp.Segment.{
  data_seg, new_data_segment, cmd_seg, new_cmd_only_segment, command_terminate,
}
use v2root_core.Kcp.Sending.{Settings}
use v2root_core.Kcp.Connection.{Connection, new_connection, flush}
use v2root_core.Kcp.Connection.States.{rank}
use v2root_core.Kcp.Connection.Faults.{IsSound, new_connection-IsSound}
use v2root_core.Kcp.Connection.Runs.{
  Call, closing, flushing, terminating_task, receiving, run, Advances, run-new_connection,
}
use v2root_core.Kcp.Connection.Shutdown.{flush_advances}

abbrev settings : Settings
settings = record { conversation = 7; congestion = true; in_flight = 40; buffer = 16 }

abbrev start : Connection
start = new_connection settings 50 40

-- The peer terminates, and the connection flushes until it ends.
abbrev calls : List (ℕ × Call)
calls =
    (
      10,
      receiving (cmd_seg (record new_cmd_only_segment { conv = 7; cmd = command_terminate }) ∷ []),
    )
    ∷ (5000, flushing)
    ∷ (14000, flushing)
    ∷ (14001, terminating_task)
    ∷ []

-- What the application and the peer may still do then.
abbrev later : List (ℕ × Call)
later =
    (14002, closing) ∷ (15000, receiving (data_seg new_data_segment ∷ [])) ∷ (16000, flushing) ∷ []

run-new_connection_example : Completes (λ b. Completes (Advances b) (run later b)) (run calls start)
run-new_connection_example = run-new_connection settings 50 40 calls later

flush_advances_example :
    Completes (λ d. (rank start.state < rank d.state) × IsSound d) (flush 40000 start)
unfolding new_connection
flush_advances_example =
    flush_advances 40000 start (new_connection-IsSound settings 50 40) (λ e. ground (arith, e))
      (λ e. ground (arith, e)) (record { quiet = omega arith; lasting = omega arith })
