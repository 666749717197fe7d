-- ===== src/Kcp/Packet/Reading.antt =====
-- Reading a datagram: any bytes, serialised segments, and what the packet writer made.
use v2root_core.Base.{
  ℕ, zero, suc, ◌+◌, ◌≤◌, ◌<◌, ◌≡◌, refl, sym, ap, ◌∙◌, Option, none, some, List, [], ◌∷◌, ◌++◌,
  map, length, take, drop, All, arith, Bool-cases, inl, inr, leb, length-append, All-drop,
  Option-cases,
}
use mathlib.Core.Path.{subst}
use v2root_core.Base.Words.{IsByte}
use v2root_core.Base.Outcome.{Outcome, done, invalid, panic, ◌>>=◌, Completes}
use v2root_core.Kcp.Segment.{
  Segment, data_seg, ack_seg, cmd_seg, read_segment, serialize, byte_size, buffer_size,
}
use v2root_core.Kcp.Segment.RoundTrip.{
  IsWireSegment, on_wire, bytes_of, serialize-bytes_of, read_segment-bytes_of, length-bytes_of,
}
use v2root_core.Kcp.Segment.Total.{Ensures, IsReadSegment, ReadsSegment, read_segment-Ensures}
use v2root_core.Kcp.Packet.{
  Header, Aead, read_segments, strip_header, open_packet, read, write, sealing_room,
}
use v2root_core.Kcp.Packet.Sealing.{
  IsHeader, IsAead, read_opened, read_refused, read_unopened, read-written,
}

-- Several segments serialised, one after the other.
abbrev pub serialize_all : List Segment → Outcome (List ℕ)
serialize_all [] = done []
serialize_all (s ∷ ss) = serialize s >>= λ b. serialize_all ss >>= λ bs. done (b ++ bs)

abbrev pub all_bytes : List Segment → List ℕ
all_bytes [] = []
all_bytes (s ∷ ss) = bytes_of s ++ all_bytes ss

serialize_all-bytes :
    (ss : List Segment) → All IsWireSegment ss → serialize_all ss ≡ done (all_bytes ss)
serialize_all-bytes [] w = refl
serialize_all-bytes (s ∷ ss) (w, ws) =
    ap (λ m. m >>= λ b. serialize_all ss >>= λ bs. done (b ++ bs)) (serialize-bytes_of s w)
    ∙ ap (λ m. m >>= λ bs. done (bytes_of s ++ bs)) (serialize_all-bytes ss ws)

size_pos : (s : Segment) → 0 < byte_size s
unfolding byte_size
size_pos (data_seg s) = omega arith
size_pos (ack_seg s) = omega arith
size_pos (cmd_seg s) = omega arith

-- One round on bytes that are not empty.
read_round :
    (fuel : ℕ) (b : List ℕ) (seg : Segment) (rest : List ℕ) (segs : List Segment)
    → 0 < length b
    → read_segment b ≡ done (seg, rest)
    → read_segments fuel rest ≡ done segs
    → read_segments (suc fuel) b ≡ done (seg ∷ segs)
unfolding read_segments
read_round fuel [] seg rest segs h e r = absurd (omega arith)
read_round fuel (x ∷ b) seg rest segs h e r = rw (e, read_segments, r) refl

read_segments-empty : (fuel : ℕ) → read_segments fuel [] ≡ done []
unfolding read_segments
read_segments-empty zero = refl
read_segments-empty (suc fuel) = refl

read_segments-serialize :
    (ss : List Segment) (fuel : ℕ)
    → All IsWireSegment ss
    → length (all_bytes ss) ≤ fuel
    → read_segments fuel (all_bytes ss) ≡ done (map on_wire ss)
read_segments-serialize [] fuel w h = read_segments-empty fuel
read_segments-serialize (s ∷ ss) zero w h =
    absurd (omega (arith, length-append (bytes_of s) (all_bytes ss), length-bytes_of s, size_pos s))
read_segments-serialize (s ∷ ss) (suc fuel) (w, ws) h =
    let n : length (bytes_of s ++ all_bytes ss) ≡ byte_size s + length (all_bytes ss) =
      omega (arith, length-append (bytes_of s) (all_bytes ss), length-bytes_of s) in
    read_round fuel (bytes_of s ++ all_bytes ss) (on_wire s) (all_bytes ss) (map on_wire ss)
      (omega (arith, n, size_pos s)) (read_segment-bytes_of s (all_bytes ss) w)
      (read_segments-serialize ss fuel ws (omega (arith, n, size_pos s)))

-- A packet without header and cipher that holds segments which fit the wire format, one after the
-- other, is read as those segments, in order and without their local bookkeeping.
pub read-serialize_all :
    (ss : List Segment)
    → All IsWireSegment ss
    → (serialize_all ss >>= read none none) ≡ done (map on_wire ss)
unfolding read strip_header open_packet
read-serialize_all ss w =
    ap (λ m. m >>= read none none) (serialize_all-bytes ss w)
    ∙ read_segments-serialize ss (length (all_bytes ss)) w (omega arith)

-- Where it fits a buffer, the datagram that the writer makes of a packet `b` of segments that fit the
-- wire format, at least one, is read by the reader with the same header and cipher as those segments;
-- the cipher keeps its promises for `b` in the capacity that it is given.
pub read-write :
    (h : Header) (s : Aead) (nonce : List ℕ) (seg : Segment) (ss : List Segment) (b : List ℕ)
    → IsHeader h
    → IsAead s (sealing_room (some h) s) b
    → length nonce ≡ s.nonce_size
    → All IsWireSegment (seg ∷ ss)
    → serialize_all (seg ∷ ss) ≡ done b
    → h.size + (s.nonce_size + (s.overhead + length b)) ≤ buffer_size
    → (write (some h) (some s) nonce b >>= read (some h) (some s)) ≡ done (map on_wire (seg ∷ ss))
read-write h s nonce seg ss b ih is n w e f =
    let same : b ≡ all_bytes (seg ∷ ss) =
      subst (Completes (λ c. b ≡ c)) (sym e ∙ serialize_all-bytes (seg ∷ ss) w) refl in
    let pos : 0 < length b = omega (
      arith,
      ap length same,
      length-append (bytes_of seg) (all_bytes ss),
      length-bytes_of seg,
      size_pos seg,
    ) in
    read-written h s nonce b ih is n pos f
    ∙ ap (λ c. read_segments (length c) c) same
    ∙ read_segments-serialize (seg ∷ ss) (length (all_bytes (seg ∷ ss))) w (omega arith)

Completes-cons :
    (seg : Segment) (m : Outcome (List Segment))
    → IsReadSegment seg
    → Completes (All IsReadSegment) m
    → Completes (All IsReadSegment) (m >>= λ segs. done (seg ∷ segs))
Completes-cons seg (done segs) i h = (i, h)
Completes-cons seg invalid i h = h
Completes-cons seg panic i h = h

after_read :
    (fuel n : ℕ) (m : Outcome (Segment × List ℕ))
    → Ensures (ReadsSegment n) m
    → ((b : List ℕ) → All IsByte b → Completes (All IsReadSegment) (read_segments fuel b))
    → Completes (All IsReadSegment) (elim m [
      | done (seg, rest) ↦ read_segments fuel rest >>= λ segs. done (seg ∷ segs)
      | invalid ↦ done []
      | panic ↦ panic
    ])
after_read fuel n (done (seg, rest)) (i, w, _) h =
    Completes-cons seg (read_segments fuel rest) i (h rest w)
after_read fuel n invalid i h = tt
after_read fuel n panic i h = absurd i

read_segments-Completes :
    (fuel : ℕ) (b : List ℕ) → All IsByte b → Completes (All IsReadSegment) (read_segments fuel b)
unfolding read_segments
read_segments-Completes zero b w = tt
read_segments-Completes (suc fuel) [] w = tt
read_segments-Completes (suc fuel) (x ∷ b) w =
    after_read fuel (length (x ∷ b)) (read_segment (x ∷ b)) (read_segment-Ensures (x ∷ b) w)
      (read_segments-Completes fuel)

-- Bytes, if there are any.
abbrev pub Opened : Option (List ℕ) → Type 0
Opened none = Unit {0}
Opened (some b) = All IsByte b

-- A cipher that opens to bytes.
abbrev pub OpensToBytes : Option Aead → Type 0
OpensToBytes none = Unit {0}
OpensToBytes (some s) = (nonce b : List ℕ) → Opened (s.opened nonce b)

strip_header-Opened :
    (header : Option Header) (b : List ℕ) → All IsByte b → Opened (strip_header header b)
unfolding strip_header
strip_header-Opened none b w = w
strip_header-Opened (some h) b w = elim (Bool-cases (leb (length b) h.size)) [
  | inl e ↦ rw e tt
  | inr e ↦ rw e (All-drop IsByte h.size b w)
]

open_packet-Opened :
    (security : Option Aead) (b : List ℕ)
    → OpensToBytes security
    → All IsByte b
    → Opened (open_packet security b)
unfolding open_packet
open_packet-Opened none b o w = w
open_packet-Opened (some s) b o w = elim (Bool-cases (leb (length b) (s.nonce_size + s.overhead))) [
  | inl e ↦ rw e tt
  | inr e ↦ rw e (o (take s.nonce_size b) (drop s.nonce_size b))
]

-- On any bytes, with any header and any cipher that opens to bytes, the reader completes without an
-- access out of range, and the fields of every segment that it returns are within their widths.
pub read-Completes :
    (header : Option Header) (security : Option Aead) (b : List ℕ)
    → OpensToBytes security
    → All IsByte b
    → Completes (All IsReadSegment) (read header security b)
read-Completes header security b o w = elim (Option-cases (strip_header header b)) [
  | inl e ↦ subst (Completes (All IsReadSegment)) (sym (read_refused header security b e)) tt
  | inr (b1, e) ↦ elim (Option-cases (open_packet security b1)) [
    | inl f ↦
        subst (Completes (All IsReadSegment)) (sym (read_unopened header security b b1 e f)) tt
    | inr (b2, f) ↦
        subst (Completes (All IsReadSegment)) (sym (read_opened header security b b1 b2 e f)) (
          read_segments-Completes (length b2) b2 (
            subst Opened f
              (open_packet-Opened security b1 o (subst Opened e (strip_header-Opened header b w)))))
  ]
]
