-- ===== src/Kcp/Segment/Tests.antt =====
-- Runs of segment.go on concrete bytes.
use v2root_core.Base.{ℕ, ◌≡◌, refl, some, List, [], ◌∷◌, ◌++◌, arith}
use v2root_core.Base.Outcome.{done, invalid, panic, ◌>>=◌}
use v2root_core.Kcp.Segment.{
  DataSegment, AckSegment, data_seg, ack_seg, new_data_segment, serialize, read_segment,
}
use v2root_core.Kcp.Segment.RoundTrip.{read_segment-serialize, read_segment-empty_payload}
use v2root_core.Kcp.Segment.Total.{Ensures, ReadsSegment, read_segment-Ensures}

abbrev sample : DataSegment
sample = record {
  conv = 258;
  option = 1;
  timestamp = 70000;
  number = 5;
  sending_next = 4;
  payload = some (10 ∷ 20 ∷ []);
  timeout = 9;
  transmit = 1;
}

abbrev sample_ack : AckSegment
sample_ack = record {
  conv = 1;
  option = 0;
  receiving_window = 32;
  receiving_next = 2;
  timestamp = 9;
  number_list = 3 ∷ 5 ∷ [];
}

abbrev ping_bytes : List ℕ
ping_bytes = 0 ∷ 1 ∷ 3 ∷ 0 ∷ 0 ∷ 0 ∷ 0 ∷ 1 ∷ 0 ∷ 0 ∷ 0 ∷ 2 ∷ 0 ∷ 0 ∷ 0 ∷ 100 ∷ 77 ∷ []

serialized :
    serialize (data_seg sample)
    ≡ done (1 ∷ 2 ∷ 1 ∷ 1 ∷ 0 ∷ 1 ∷ 17 ∷ 112 ∷ 0 ∷ 0 ∷ 0 ∷ 5 ∷ 0 ∷ 0 ∷ 0 ∷ 4 ∷ 0 ∷ 2 ∷ 10 ∷ 20 ∷ [])
unfolding serialize
serialized = refl

read_segment-serialize_example :
    (serialize (ack_seg sample_ack) >>= λ b. read_segment (b ++ 7 ∷ []))
    ≡ done (ack_seg sample_ack, 7 ∷ [])
read_segment-serialize_example = read_segment-serialize (ack_seg sample_ack) (7 ∷ []) (ground arith)

abbrev emptied : DataSegment
emptied = record new_data_segment { conv = 7; payload = some [] }

-- A nil payload.
unfilled : serialize (data_seg new_data_segment) ≡ panic
unfolding serialize
unfilled = refl

read_segment-empty_payload_example : (serialize (data_seg emptied) >>= read_segment) ≡ invalid
read_segment-empty_payload_example = read_segment-empty_payload emptied refl

read_segment-Ensures_example : Ensures (ReadsSegment 17) (read_segment ping_bytes)
read_segment-Ensures_example = read_segment-Ensures ping_bytes (ground arith)
