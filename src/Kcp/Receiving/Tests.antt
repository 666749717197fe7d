-- ===== src/Kcp/Receiving/Tests.antt =====
-- Runs of ReceivingWorker with a gap in its window.
use v2root_core.Base.{ℕ, ◌+◌, ◌%◌, ◌^◌, ◌≡◌, refl, some, none, List, [], ◌∷◌, length, if◌then◌else◌}
use v2root_core.Kcp.Segment.{DataSegment, new_data_segment}
use v2root_core.Kcp.AckList.{new_ack_list}
use v2root_core.Kcp.AckList.Clear.{new_ack_list-Holds}
use v2root_core.Kcp.Receiving.{ReceivingWorker, find, read_multi_buffer}
use v2root_core.Kcp.Receiving.Stream.{
  Carries, consecutive, among, IsReceiving, read_multi_buffer-consecutive,
}

-- The stream whose payload number `n` is `n`, twice.
abbrev stream : ℕ → List ℕ
stream n = n ∷ n ∷ []

abbrev numbered : ℕ → DataSegment
numbered number = record new_data_segment { number = number; payload = some (stream number) }

abbrev gap : ReceivingWorker
gap = record {
  left_over = none;
  window = (5, numbered 5) ∷ (3, numbered 3) ∷ (2, numbered 2) ∷ [];
  acklist = new_ack_list;
  next_number = 2;
  window_size = 8;
}

gap-IsReceiving : IsReceiving stream gap
gap-IsReceiving = record {
  carries = (refl, (refl, (refl, tt)));
  entries = [];
  acks = new_ack_list-Holds;
}

read_multi_buffer-consecutive_example :
    let (mb, v) = read_multi_buffer gap in
    (mb ≡ consecutive stream 2 (length mb))
    × (v.next_number % 2 ^ 32 ≡ (2 + length mb) % 2 ^ 32)
    × (find v.window v.next_number ≡ none)
    × (find v.window 5 ≡ (if among 2 (length mb) 5 then none else some (numbered 5)))
    × Carries stream v.window
read_multi_buffer-consecutive_example =
    read_multi_buffer-consecutive stream gap 5 refl (refl, (refl, (refl, tt)))
