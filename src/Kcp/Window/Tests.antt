-- ===== src/Kcp/Window/Tests.antt =====
-- Runs of SendingWindow on a window of three segments.
use v2root_core.Base.{ℕ, ◌≡◌, refl, true, some, [], ◌∷◌, map, arith, take}
use v2root_core.Kcp.Segment.{DataSegment, new_data_segment}
use v2root_core.Kcp.Window.{SendingWindow, clear, remove, flush, resent, is_waiting}
use v2root_core.Kcp.Window.Order.{clear-keep_from, remove-without}
use v2root_core.Kcp.Window.Flush.{budget, due, stamped, flush-due}

abbrev numbered : ℕ → ℕ → ℕ → DataSegment
numbered number timeout transmit = record new_data_segment {
  number = number;
  timeout = timeout;
  transmit = transmit;
  payload = some (number ∷ []);
}

abbrev three : SendingWindow
three = record {
  cache = numbered 3 0 0 ∷ numbered 4 900 1 ∷ numbered 5 100 2 ∷ [];
  total_in_flight_size = 2;
}

clear-keep_from_example :
    clear three 4
    ≡ record { cache = numbered 4 900 1 ∷ numbered 5 100 2 ∷ []; total_in_flight_size = 2 }
clear-keep_from_example = clear-keep_from 4 3 6 three (ground arith)

remove-without_example :
    remove three 4
    ≡ (record { cache = numbered 3 0 0 ∷ numbered 5 100 2 ∷ []; total_in_flight_size = 1 }, true)
remove-without_example = remove-without 4 3 6 three (ground arith)

flush-due_example :
    ((flush (λ seg. seg) three 500 100 8).written
      ≡ map (resent (λ seg. seg) 500 100) (take (budget 8) (due 500 three.cache)))
    × ((flush (λ seg. seg) three 500 100 8).window.cache
        ≡ stamped (resent (λ seg. seg) 500 100) 500 (budget 8) three.cache)
flush-due_example = flush-due (λ seg. seg) 500 100 8 three (omega arith)

due_now : due 500 three.cache ≡ numbered 3 0 0 ∷ numbered 5 100 2 ∷ []
unfolding is_waiting
due_now = refl
