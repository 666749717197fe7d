-- ===== src/Kcp/Segment/RoundTrip.antt =====
-- segment.go: `ReadSegment` reads back what `Serialize` wrote.
use v2root_core.Base.{
  ℕ, ◌+◌, ◌*◌, ◌/◌, ◌%◌, ◌^◌, ◌≤◌, ◌<◌, ◌≡◌, ◌≢◌, refl, ap, ◌∙◌, some, List, [], ◌∷◌, ◌++◌, length,
  take, All, arith, inl, inr, Option-cases, length-append, take_all, take-append, drop-append,
  ge→ltb, ◌+◌,
}
use mathlib.Core.List.{append-nil, append_assoc}
use v2root_core.Base.Words.{IsByte, IsU16, IsU32}
use v2root_core.Base.Bytes.{slice_from, slice_to, slice_to-take, slice_from-drop}
use v2root_core.Base.Outcome.{done, invalid, ◌>>=◌}
use v2root_core.Kcp.Segment.{
  DataSegment, AckSegment, CmdOnlySegment, Segment, data_seg, ack_seg, cmd_seg, content, put_number,
  byte_size, new_data_segment, buffer_size, serialize, serialize_data, serialize_ack, serialize_cmd,
  put_numbers, parse_data, parse_numbers, parse_ack, parse_cmd, read_segment, command_data,
  command_ack,
}

-- The fields fit the widths of the wire format; a data segment's payload fits a buffer.
abbrev pub IsWireSegment : Segment → Type 0
IsWireSegment (data_seg s) =
    IsU16 s.conv
    × IsByte s.option
    × IsU32 s.timestamp
    × IsU32 s.number
    × IsU32 s.sending_next
    × (1 ≤ length (content s.payload))
    × (length (content s.payload) ≤ buffer_size)
IsWireSegment (ack_seg s) =
    IsU16 s.conv
    × IsByte s.option
    × IsU32 s.receiving_window
    × IsU32 s.receiving_next
    × IsU32 s.timestamp
    × (length s.number_list < 256)
    × All IsU32 s.number_list
IsWireSegment (cmd_seg s) =
    IsU16 s.conv
    × IsByte s.cmd
    × (s.cmd ≢ command_data)
    × (s.cmd ≢ command_ack)
    × IsByte s.option
    × IsU32 s.sending_next
    × IsU32 s.receiving_next
    × IsU32 s.peer_rto

-- The segment without the sender's own bookkeeping, which is not sent.
abbrev pub on_wire : Segment → Segment
on_wire (data_seg s) =
    data_seg (record s { payload = some (content s.payload); timeout = 0; transmit = 0 })
on_wire (ack_seg s) = ack_seg s
on_wire (cmd_seg s) = cmd_seg s

-- The bytes of a segment; a nil payload counts as empty.
pub bytes_of : Segment → List ℕ
unfolding serialize_data serialize_ack serialize_cmd
bytes_of (data_seg s) = serialize_data s (content s.payload)
bytes_of (ack_seg s) = serialize_ack s
bytes_of (cmd_seg s) = serialize_cmd s

word16 : (v : ℕ) → IsU16 v → v / 256 % 256 * 256 + v % 256 ≡ v
word16 v h = omega arith

byte : (v : ℕ) → IsByte v → v % 256 ≡ v
byte v h = omega arith

word32 :
    (v : ℕ)
    → IsU32 v
    → v / 2 ^ 24 % 256 * 2 ^ 24 + v / 2 ^ 16 % 256 * 2 ^ 16 + v / 256 % 256 * 256 + v % 256 ≡ v
word32 v h = omega arith

read-serialize_cmd :
    (s : CmdOnlySegment) (rest : List ℕ)
    → IsWireSegment (cmd_seg s)
    → read_segment (bytes_of (cmd_seg s) ++ rest) ≡ done (cmd_seg s, rest)
unfolding read_segment bytes_of parse_cmd
read-serialize_cmd s rest w = ground arith

slice_to-append : (xs ys : List ℕ) → slice_to (length xs) (xs ++ ys) ≡ done xs
slice_to-append xs ys =
    slice_to-take (length xs) (xs ++ ys) (omega (arith, length-append xs ys))
    ∙ ap done (take-append xs ys)

slice_from-append : (xs ys : List ℕ) → slice_from (length xs) (xs ++ ys) ≡ done ys
slice_from-append xs ys =
    slice_from-drop (length xs) (xs ++ ys) (omega (arith, length-append xs ys))
    ∙ ap done (drop-append xs ys)

-- Three words, a length and that many bytes.
parse_data-fields :
    (conv opt a b c d e f g h i j k l m n : ℕ) (xs rest : List ℕ)
    → 1 ≤ length xs
    → m * 256 + n ≡ length xs
    → parse_data conv opt (a ∷ b ∷ c ∷ d ∷ e ∷ f ∷ g ∷ h ∷ i ∷ j ∷ k ∷ l ∷ m ∷ n ∷ xs ++ rest)
      ≡ done (
        data_seg (record new_data_segment {
          conv = conv;
          option = opt;
          timestamp = a * 2 ^ 24 + b * 2 ^ 16 + c * 256 + d;
          number = e * 2 ^ 24 + f * 2 ^ 16 + g * 256 + h;
          sending_next = i * 2 ^ 24 + j * 2 ^ 16 + k * 256 + l;
          payload = some (take buffer_size xs);
        }),
        rest,
      )
unfolding parse_data
parse_data-fields conv opt a b c d e f g h i j k l m n xs rest pos len = rw (
  len,
  ge→ltb (length (a ∷ b ∷ c ∷ d ∷ e ∷ f ∷ g ∷ h ∷ i ∷ j ∷ k ∷ l ∷ m ∷ n ∷ xs ++ rest)) 15
      (omega (arith, length-append xs rest)),
  slice_to-append xs rest,
  slice_from-append xs rest,
  ge→ltb (length (xs ++ rest)) (length xs) (omega (arith, length-append xs rest)),
)

read-serialize_data :
    (s : DataSegment) (rest : List ℕ)
    → IsWireSegment (data_seg s)
    → read_segment (bytes_of (data_seg s) ++ rest) ≡ done (on_wire (data_seg s), rest)
unfolding read_segment bytes_of
read-serialize_data s rest (hc, ho, ht, hn, hs, hl, hp) = ground (
  arith,
  word32 s.timestamp ht,
  word32 s.number hn,
  word32 s.sending_next hs,
  word16 s.conv hc,
  byte s.option ho,
  take_all buffer_size (content s.payload) hp,
  parse_data-fields (s.conv) s.option (s.timestamp / 2 ^ 24 % 256) (s.timestamp / 2 ^ 16 % 256)
      (s.timestamp / 256 % 256) (s.timestamp % 256) (s.number / 2 ^ 24 % 256)
      (s.number / 2 ^ 16 % 256) (s.number / 256 % 256) (s.number % 256)
      (s.sending_next / 2 ^ 24 % 256) (s.sending_next / 2 ^ 16 % 256) (s.sending_next / 256 % 256)
      (s.sending_next % 256) (length (content s.payload) % 2 ^ 16 / 256 % 256)
      (length (content s.payload) % 2 ^ 16 % 256) (content s.payload) rest,
)

parse_numbers-put :
    (ns : List ℕ) (s : AckSegment) (rest : List ℕ)
    → All IsU32 ns
    → parse_numbers (length ns) s (put_numbers ns ++ rest)
      ≡ done (record s { number_list = s.number_list ++ ns }, rest)
unfolding parse_numbers put_numbers
parse_numbers-put [] s rest h = rw (append-nil)
parse_numbers-put (n ∷ ns) s rest h =
    rw (word32 n h.0, parse_numbers-put ns (put_number s n) rest h.1, append_assoc)

length-put_numbers : (ns : List ℕ) → length (put_numbers ns) ≡ length ns * 4
unfolding put_numbers
length-put_numbers [] = refl
length-put_numbers (n ∷ ns) = omega (arith, length-put_numbers ns)

-- Three words, a count and that many words.
parse_ack-fields :
    (conv opt a b c d e f g h i j k l : ℕ) (ns rest : List ℕ)
    → All IsU32 ns
    → parse_ack conv opt
        (a ∷ b ∷ c ∷ d ∷ e ∷ f ∷ g ∷ h ∷ i ∷ j ∷ k ∷ l ∷ length ns ∷ put_numbers ns ++ rest)
      ≡ done (
        ack_seg (record {
          conv = conv;
          option = opt;
          receiving_window = a * 2 ^ 24 + b * 2 ^ 16 + c * 256 + d;
          receiving_next = e * 2 ^ 24 + f * 2 ^ 16 + g * 256 + h;
          timestamp = i * 2 ^ 24 + j * 2 ^ 16 + k * 256 + l;
          number_list = ns;
        }),
        rest,
      )
unfolding parse_ack
parse_ack-fields conv opt a b c d e f g h i j k l ns rest w = rw (
  ge→ltb
      (length (a ∷ b ∷ c ∷ d ∷ e ∷ f ∷ g ∷ h ∷ i ∷ j ∷ k ∷ l ∷ length ns ∷ put_numbers ns ++ rest))
      13 (omega arith),
  ge→ltb (length (put_numbers ns ++ rest)) (length ns * 4)
      (omega (arith, length-append (put_numbers ns) rest, length-put_numbers ns)),
  parse_numbers-put ns
      (record {
        conv = conv;
        option = opt;
        receiving_window = a * 2 ^ 24 + b * 2 ^ 16 + c * 256 + d;
        receiving_next = e * 2 ^ 24 + f * 2 ^ 16 + g * 256 + h;
        timestamp = i * 2 ^ 24 + j * 2 ^ 16 + k * 256 + l;
        number_list = [];
      })
      rest w,
)

read-serialize_ack :
    (s : AckSegment) (rest : List ℕ)
    → IsWireSegment (ack_seg s)
    → read_segment (bytes_of (ack_seg s) ++ rest) ≡ done (ack_seg s, rest)
unfolding read_segment bytes_of
read-serialize_ack s rest (hc, ho, hw, hn, ht, hl, hs) = ground (
  arith,
  word32 s.receiving_window hw,
  word32 s.receiving_next hn,
  word32 s.timestamp ht,
  word16 s.conv hc,
  byte s.option ho,
  byte (length s.number_list) hl,
  parse_ack-fields s.conv s.option (s.receiving_window / 2 ^ 24 % 256)
      (s.receiving_window / 2 ^ 16 % 256) (s.receiving_window / 256 % 256)
      (s.receiving_window % 256) (s.receiving_next / 2 ^ 24 % 256) (s.receiving_next / 2 ^ 16 % 256)
      (s.receiving_next / 256 % 256) (s.receiving_next % 256) (s.timestamp / 2 ^ 24 % 256)
      (s.timestamp / 2 ^ 16 % 256) (s.timestamp / 256 % 256) (s.timestamp % 256) s.number_list rest
      hs,
)

pub read_segment-bytes_of :
    (s : Segment) (rest : List ℕ)
    → IsWireSegment s
    → read_segment (bytes_of s ++ rest) ≡ done (on_wire s, rest)
read_segment-bytes_of (data_seg s) rest w = read-serialize_data s rest w
read_segment-bytes_of (ack_seg s) rest w = read-serialize_ack s rest w
read_segment-bytes_of (cmd_seg s) rest w = read-serialize_cmd s rest w

-- A segment that fits the wire format is serialised without a panic.
pub serialize-bytes_of : (s : Segment) → IsWireSegment s → serialize s ≡ done (bytes_of s)
unfolding serialize bytes_of
serialize-bytes_of (data_seg s) (hc, ho, ht, hn, hs, hl, hp) = elim (Option-cases s.payload) [
  | inl e ↦ absurd (omega (arith, hl, ap (λ p. length (content p)) e))
  | inr (payload, e) ↦ rw (e, serialize) refl
]
serialize-bytes_of (ack_seg s) w = refl
serialize-bytes_of (cmd_seg s) w = refl

-- A segment that fits the wire format is serialised, and `read_segment` applied to the bytes,
-- followed by any others, returns that segment without its local bookkeeping, and the others.
pub read_segment-serialize :
    (s : Segment) (rest : List ℕ)
    → IsWireSegment s
    → (serialize s >>= λ b. read_segment (b ++ rest)) ≡ done (on_wire s, rest)
read_segment-serialize s rest w =
    ap (λ m. m >>= λ b. read_segment (b ++ rest)) (serialize-bytes_of s w)
    ∙ read_segment-bytes_of s rest w

-- A segment takes as many bytes as `byte_size` says, whatever its fields are.
pub length-bytes_of : (s : Segment) → length (bytes_of s) ≡ byte_size s
unfolding bytes_of byte_size
length-bytes_of (data_seg s) = omega arith
length-bytes_of (ack_seg s) = omega (arith, length-put_numbers s.number_list)
length-bytes_of (cmd_seg s) = omega arith

-- A data segment with an empty payload that ends its packet is serialised and then refused: `parse` wants
-- 15 bytes after the common header, and such a segment has 14.
pub read_segment-empty_payload :
    (s : DataSegment) → s.payload ≡ some [] → (serialize (data_seg s) >>= read_segment) ≡ invalid
unfolding read_segment serialize parse_data
read_segment-empty_payload s h = rw (h, serialize) refl
