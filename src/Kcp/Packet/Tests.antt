-- ===== src/Kcp/Packet/Tests.antt =====
-- Runs of the packet reader and writer with a header of two bytes and a cipher that only adds a tag.
use v2root_core.Base.{ℕ, ◌≡◌, refl, Option, none, some, List, [], ◌∷◌, All, arith}
use v2root_core.Base.Outcome.{done, ◌>>=◌, Completes}
use v2root_core.Kcp.Segment.{
  Segment, ack_seg, cmd_seg, new_cmd_only_segment, command_ping, serialize,
}
use v2root_core.Kcp.Segment.RoundTrip.{IsWireSegment}
use v2root_core.Kcp.Segment.Total.{IsReadSegment}
use v2root_core.Kcp.Packet.{Header, Aead, read, write, sealing_room}
use v2root_core.Kcp.Packet.Sealing.{IsHeader, IsAead}
use v2root_core.Kcp.Packet.Reading.{serialize_all, read-serialize_all, read-write, read-Completes}

abbrev header : Header
header = record { size = 2; bytes = 9 ∷ 8 ∷ [] }

abbrev untag : List ℕ → Option (List ℕ)
untag [] = none
untag (tag ∷ b) = some b

abbrev tagging : Aead
tagging = record {
  nonce_size = 1;
  overhead = 1;
  seal = λ room nonce b. 42 ∷ b;
  opened = λ nonce b. untag b;
}

abbrev ack : Segment
ack = ack_seg (record {
  conv = 1;
  option = 0;
  receiving_window = 32;
  receiving_next = 2;
  timestamp = 9;
  number_list = 3 ∷ 5 ∷ [];
})

abbrev ping : Segment
ping = cmd_seg (record new_cmd_only_segment { conv = 1; cmd = command_ping })

abbrev both : List Segment
both = ack ∷ ping ∷ []

header-IsHeader : IsHeader header
header-IsHeader = record { sized = refl }

tagging-IsAead : (room : ℕ) (b : List ℕ) → IsAead tagging room b
tagging-IsAead room b = record {
  opens = λ nonce e. refl;
  grows = λ nonce e. omega arith;
  ignores = λ z nonce nonce'. refl;
}

both-IsWireSegment : All IsWireSegment both
both-IsWireSegment = (ground arith, (ground arith, tt))

abbrev both_bytes : List ℕ
both_bytes =
    0 ∷ 1 ∷ 0 ∷ 0 ∷ 0 ∷ 0 ∷ 0 ∷ 32 ∷ 0 ∷ 0 ∷ 0 ∷ 2 ∷ 0 ∷ 0 ∷ 0 ∷ 9 ∷ 2 ∷ 0 ∷ 0 ∷ 0 ∷ 3 ∷ 0 ∷ 0 ∷ 0
    ∷ 5 ∷ 0 ∷ 1 ∷ 3 ∷ 0 ∷ 0 ∷ 0 ∷ 0 ∷ 0 ∷ 0 ∷ 0 ∷ 0 ∷ 0 ∷ 0 ∷ 0 ∷ 0 ∷ 0 ∷ []

both_serialized : serialize_all both ≡ done both_bytes
unfolding serialize
both_serialized = refl

read-serialize_all_example : (serialize_all both >>= read none none) ≡ done both
read-serialize_all_example = read-serialize_all both both-IsWireSegment

read-write_example :
    (write (some header) (some tagging) (7 ∷ []) both_bytes >>= read (some header) (some tagging))
    ≡ done both
read-write_example =
    read-write header tagging (7 ∷ []) ack (ping ∷ []) both_bytes header-IsHeader
      (tagging-IsAead (sealing_room (some header) tagging) both_bytes) refl both-IsWireSegment
      both_serialized (omega arith)

read-Completes_example :
    Completes (All IsReadSegment) (read (some header) none (9 ∷ 8 ∷ 0 ∷ 1 ∷ 0 ∷ 0 ∷ 5 ∷ []))
read-Completes_example =
    read-Completes (some header) none (9 ∷ 8 ∷ 0 ∷ 1 ∷ 0 ∷ 0 ∷ 5 ∷ []) tt (ground arith)
