-- ===== src/Kcp/Sending/Tests.antt =====
-- Runs of SendingWorker on a worker with two segments in its window.
use v2root_core.Base.{
  ℕ, ◌≡◌, ◌≤◌, ◌<◌, ◌⊎◌, refl, true, false, Option, some, List, [], ◌∷◌, length, arith,
}
use v2root_core.Kcp.Segment.{DataSegment, AckSegment, new_data_segment}
use v2root_core.Kcp.Rtt.{RoundTripInfo}
use v2root_core.Kcp.Sending.{
  Settings, SendingWorker, flush, flush_limit, is_outside, on_packet_loss, process_segment,
}
use v2root_core.Kcp.Sending.Invariant.{IsSending, process_segment-IsSending}
use v2root_core.Kcp.Sending.Limits.{
  flush_limit-allowance, length-flush-le, on_packet_loss_bounds, is_outside_iff,
}

abbrev settings : Settings
settings = record { conversation = 7; congestion = true; in_flight = 40; buffer = 16 }

abbrev numbered : ℕ → DataSegment
numbered number = record new_data_segment { number = number; payload = some (number ∷ []) }

abbrev busy : SendingWorker
busy = record {
  window = record { cache = numbered 4 ∷ numbered 6 ∷ []; total_in_flight_size = 0 };
  first_unacknowledged = 4;
  next_number = 7;
  remote_next_number = 36;
  control_window = 20;
  fast_resend = 2;
  window_size = 16;
  first_unacknowledged_updated = false;
  closed = false;
}

abbrev HasOwnNumber : ℕ → Option (List ℕ) → Type 0
HasOwnNumber n p = p ≡ some (n ∷ [])

abbrev acks : AckSegment
acks = record {
  conv = 7;
  option = 0;
  receiving_window = 40;
  receiving_next = 4;
  timestamp = 90;
  number_list = 6 ∷ 3 ∷ [];
}

abbrev estimate : RoundTripInfo
estimate = record { variation = 20; srtt = 80; rto = 200; min_rtt = 50; updated_timestamp = 0 }

busy-IsSending : IsSending HasOwnNumber busy
busy-IsSending = record {
  ascends = ground arith;
  ordered = omega arith;
  payloads = (refl, (refl, tt));
}

process_segment-IsSending_example :
    IsSending HasOwnNumber (process_segment busy estimate 100 acks 200).0
process_segment-IsSending_example =
    process_segment-IsSending HasOwnNumber busy estimate 100 acks 200 busy-IsSending

flush_limit-allowance_example : flush_limit settings busy ≡ 400
flush_limit-allowance_example =
    flush_limit-allowance settings busy (omega arith) (omega arith) (omega arith)

length-flush-le_example : length (flush settings false 200 busy 50).written ≤ 400
length-flush-le_example =
    length-flush-le settings false 200 busy 50 (omega arith) (omega arith) (omega arith)
      (omega arith)

on_packet_loss_bounds_example :
    let v = (on_packet_loss settings 200 busy 20).control_window in
    (16 ≤ v) × (v ≤ 80) × ((20 < 15) ⊎ (v ≤ 20)) × ((5 < 20) ⊎ (20 ≤ v))
on_packet_loss_bounds_example =
    on_packet_loss_bounds settings 200 busy 20 refl (omega arith) (omega arith) (omega arith)
      (omega arith, omega arith)

is_outside_iff_example : is_outside busy 9 ≡ true
is_outside_iff_example =
    is_outside_iff busy 3 9 (omega arith) (omega arith) (omega arith) (omega arith) (omega arith)
