-- ===== src/Kcp/Segment.antt =====
-- transport/internet/kcp/segment.go: the three kinds of segment and their wire format.
-- A payload is the content of a buf.Buffer; `none` is the nil pointer.
pub mod RoundTrip
pub mod Total
mod Tests
use v2root_core.Base.{
  ℕ, zero, suc, ◌+◌, ◌*◌, ◌%◌, ◌^◌, Bool, Option, none, some, List, [], ◌∷◌, ◌++◌, length, take,
  ltb, ◌==◌, if◌then◌else◌, not,
}
use v2root_core.Base.Words.{sub32}
use v2root_core.Base.Bytes.{byte_at, uint16, uint32, put_uint16, put_uint32, slice_from, slice_to}
use v2root_core.Base.Outcome.{Outcome, done, panic, ensure, ◌>>=◌, ◌>>◌}

-- CommandACK, CommandData, CommandTerminate, CommandPing.
abbrev pub command_ack : ℕ
command_ack = 0

abbrev pub command_data : ℕ
command_data = 1

abbrev pub command_terminate : ℕ
command_terminate = 2

abbrev pub command_ping : ℕ
command_ping = 3

abbrev pub segment_option_close : ℕ
segment_option_close = 1

-- buf.Size: a managed buffer holds 8192 bytes, and `Write` drops what does not fit.
abbrev pub buffer_size : ℕ
buffer_size = 8192

pub record DataSegment : Type 0 where
  pub conv : ℕ
  pub option : ℕ
  pub timestamp : ℕ
  pub number : ℕ
  pub sending_next : ℕ
  pub payload : Option (List ℕ)
  pub timeout : ℕ
  pub transmit : ℕ

pub record AckSegment : Type 0 where
  pub conv : ℕ
  pub option : ℕ
  pub receiving_window : ℕ
  pub receiving_next : ℕ
  pub timestamp : ℕ
  pub number_list : List ℕ

pub record CmdOnlySegment : Type 0 where
  pub conv : ℕ
  pub cmd : ℕ
  pub option : ℕ
  pub sending_next : ℕ
  pub receiving_next : ℕ
  pub peer_rto : ℕ

pub data Segment : Type 0 where
  data_seg : DataSegment → Segment
  ack_seg : AckSegment → Segment
  cmd_seg : CmdOnlySegment → Segment

abbrev pub new_data_segment : DataSegment
new_data_segment = record {
  conv = 0;
  option = 0;
  timestamp = 0;
  number = 0;
  sending_next = 0;
  payload = none;
  timeout = 0;
  transmit = 0;
}

abbrev pub new_ack_segment : AckSegment
new_ack_segment = record {
  conv = 0;
  option = 0;
  receiving_window = 0;
  receiving_next = 0;
  timestamp = 0;
  number_list = [];
}

abbrev pub new_cmd_only_segment : CmdOnlySegment
new_cmd_only_segment = record {
  conv = 0;
  cmd = 0;
  option = 0;
  sending_next = 0;
  receiving_next = 0;
  peer_rto = 0;
}

-- `Data`: the payload's buffer, a new one if there was none.
abbrev pub content : Option (List ℕ) → List ℕ
content none = []
content (some bytes) = bytes

-- `Detach`: the payload, taken out.
abbrev pub detach : DataSegment → Option (List ℕ) × DataSegment
detach s = (s.payload, record s { payload = none })

abbrev pub put_timestamp : AckSegment → ℕ → AckSegment
put_timestamp s timestamp =
    if ltb (sub32 timestamp s.timestamp) 0x7FFFFFFF then record s { timestamp = timestamp } else s

abbrev pub put_number : AckSegment → ℕ → AckSegment
put_number s number = record s { number_list = s.number_list ++ number ∷ [] }

abbrev pub ack_number_limit : ℕ
ack_number_limit = 128

abbrev pub is_full : AckSegment → Bool
is_full s = length s.number_list == ack_number_limit

abbrev pub is_empty : AckSegment → Bool
is_empty s = length s.number_list == 0

abbrev pub conversation : Segment → ℕ
conversation (data_seg s) = s.conv
conversation (ack_seg s) = s.conv
conversation (cmd_seg s) = s.conv

abbrev pub command : Segment → ℕ
command (data_seg s) = command_data
command (ack_seg s) = command_ack
command (cmd_seg s) = s.cmd

unfoldable pub byte_size : Segment → ℕ
byte_size (data_seg s) = 2 + 1 + 1 + 4 + 4 + 4 + 2 + length (content s.payload)
byte_size (ack_seg s) = 2 + 1 + 1 + 4 + 4 + 4 + 1 + length s.number_list * 4
byte_size (cmd_seg s) = 2 + 1 + 1 + 4 + 4 + 4

put_numbers : List ℕ → List ℕ
put_numbers [] = []
put_numbers (n ∷ ns) = put_uint32 n ++ put_numbers ns

-- With the payload's bytes.
serialize_data : DataSegment → List ℕ → List ℕ
serialize_data s payload =
    put_uint16 s.conv
    ++ (command_data ∷ s.option % 256 ∷ [])
    ++ (put_uint32 s.timestamp
        ++ (put_uint32 s.number
            ++ (put_uint32 s.sending_next ++ (put_uint16 (length payload % 2 ^ 16) ++ payload))))

serialize_ack : AckSegment → List ℕ
unfolding put_numbers
serialize_ack s =
    put_uint16 s.conv
    ++ (command_ack ∷ s.option % 256 ∷ [])
    ++ (put_uint32 s.receiving_window
        ++ (put_uint32 s.receiving_next
            ++ (put_uint32 s.timestamp
                ++ (length s.number_list % 256 ∷ put_numbers s.number_list))))

serialize_cmd : CmdOnlySegment → List ℕ
serialize_cmd s =
    put_uint16 s.conv
    ++ (s.cmd % 256 ∷ s.option % 256 ∷ [])
    ++ (put_uint32 s.sending_next ++ (put_uint32 s.receiving_next ++ put_uint32 s.peer_rto))

-- What `Serialize` stores in a slice of `byte_size` bytes. The bytes of a nil payload are asked for, which
-- panics.
unfoldable pub serialize : Segment → Outcome (List ℕ)
unfolding serialize_data serialize_ack serialize_cmd
serialize (data_seg s) = elim s.payload [
  | none ↦ panic
  | some payload ↦ done (serialize_data s payload)
]
serialize (ack_seg s) = done (serialize_ack s)
serialize (cmd_seg s) = done (serialize_cmd s)

parse_data : ℕ → ℕ → List ℕ → Outcome (Segment × List ℕ)
parse_data conv opt buf0 = do
  ensure (not (ltb (length buf0) 15))
  timestamp ← uint32 buf0
  buf1 ← slice_from 4 buf0
  number ← uint32 buf1
  buf2 ← slice_from 4 buf1
  sending_next ← uint32 buf2
  buf3 ← slice_from 4 buf2
  data_len ← uint16 buf3
  buf4 ← slice_from 2 buf3
  ensure (not (ltb (length buf4) data_len))
  written ← slice_to data_len buf4
  extra ← slice_from data_len buf4
  done (
    data_seg (record new_data_segment {
      conv = conv;
      option = opt;
      timestamp = timestamp;
      number = number;
      sending_next = sending_next;
      payload = some (take buffer_size written);
    }),
    extra,
  )

-- `for i := 0; i < count; i++ { s.PutNumber(...) }`
parse_numbers : ℕ → AckSegment → List ℕ → Outcome (AckSegment × List ℕ)
parse_numbers zero s buf = done (s, buf)
parse_numbers (suc count) s buf = do
  number ← uint32 buf
  rest ← slice_from 4 buf
  parse_numbers count (put_number s number) rest

parse_ack : ℕ → ℕ → List ℕ → Outcome (Segment × List ℕ)
parse_ack conv opt buf0 = do
  ensure (not (ltb (length buf0) 13))
  receiving_window ← uint32 buf0
  buf1 ← slice_from 4 buf0
  receiving_next ← uint32 buf1
  buf2 ← slice_from 4 buf1
  timestamp ← uint32 buf2
  buf3 ← slice_from 4 buf2
  count ← byte_at 0 buf3
  buf4 ← slice_from 1 buf3
  ensure (not (ltb (length buf4) (count * 4)))
  (s, extra) ←
      parse_numbers count
        (record new_ack_segment {
          conv = conv;
          option = opt;
          receiving_window = receiving_window;
          receiving_next = receiving_next;
          timestamp = timestamp;
        })
        buf4
  done (ack_seg s, extra)

parse_cmd : ℕ → ℕ → ℕ → List ℕ → Outcome (Segment × List ℕ)
parse_cmd conv cmd opt buf0 = do
  ensure (not (ltb (length buf0) 12))
  sending_next ← uint32 buf0
  buf1 ← slice_from 4 buf0
  receiving_next ← uint32 buf1
  buf2 ← slice_from 4 buf1
  peer_rto ← uint32 buf2
  buf3 ← slice_from 4 buf2
  done (
    cmd_seg (record {
      conv = conv;
      cmd = cmd;
      option = opt;
      sending_next = sending_next;
      receiving_next = receiving_next;
      peer_rto = peer_rto;
    }),
    buf3,
  )

-- The segment's own `parse`, chosen by the command.
parse : ℕ → ℕ → ℕ → List ℕ → Outcome (Segment × List ℕ)
parse conv cmd opt buf =
    if cmd == command_data
    then parse_data conv opt buf
    else if cmd == command_ack
    then parse_ack conv opt buf
    else parse_cmd conv cmd opt buf

-- `ReadSegment`: `invalid` is its nil segment.
pub read_segment : List ℕ → Outcome (Segment × List ℕ)
unfolding parse
read_segment buf0 = do
  ensure (not (ltb (length buf0) 4))
  conv ← uint16 buf0
  buf1 ← slice_from 2 buf0
  cmd ← byte_at 0 buf1
  opt ← byte_at 1 buf1
  buf2 ← slice_from 2 buf1
  parse conv cmd opt buf2
