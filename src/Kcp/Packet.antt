-- ===== src/Kcp/Packet.antt =====
-- transport/internet/kcp/io.go, KCPPacketReader and KCPPacketWriter, and SimpleSegmentWriter.Write of
-- output.go: what a datagram holds. The packet header, the AEAD and the random nonce are not of this
-- package and are parameters: `none` stands for a nil header or cipher.
pub mod Sealing
pub mod Reading
mod Tests
use v2root_core.Base.{
  ℕ, zero, suc, ◌+◌, ◌-◌, ◌==◌, ◌*◌, Bool, Option, none, some, List, [], ◌∷◌, ◌++◌, length, take,
  drop, ltb, leb, if◌then◌else◌,
}
use v2root_core.Base.Outcome.{Outcome, done, invalid, panic, ◌>>=◌}
use v2root_core.Kcp.Segment.{Segment, read_segment, serialize, byte_size, buffer_size}

-- internet.PacketHeader: what `Serialize` writes into `Size` bytes.
pub record Header : Type 0 where
  pub size : ℕ
  pub bytes : List ℕ

-- cipher.AEAD without additional data. `seal` is what `Seal` leaves in a slice of `overhead` bytes more
-- than the plain text has, to which it appends in place; its first argument is the slice's capacity,
-- then come the nonce and the plain text. `opened` is `none` on an authentication error.
pub record Aead : Type 0 where
  pub nonce_size : ℕ
  pub overhead : ℕ
  pub seal : ℕ → List ℕ → List ℕ → List ℕ
  pub opened : List ℕ → List ℕ → Option (List ℕ)

-- The loop of `Read`, `fuel` rounds at most; each round takes four bytes at least.
pub read_segments : ℕ → List ℕ → Outcome (List Segment)
read_segments zero b = done []
read_segments (suc fuel) [] = done []
read_segments (suc fuel) (x ∷ b) = elim (read_segment (x ∷ b)) [
  | done (seg, rest) ↦ read_segments fuel rest >>= λ segs. done (seg ∷ segs)
  | invalid ↦ done []
  | panic ↦ panic
]

-- The header taken off; `none` is the early return.
pub strip_header : Option Header → List ℕ → Option (List ℕ)
strip_header none b = some b
strip_header (some h) b = if leb (length b) h.size then none else some (drop h.size b)

pub open_packet : Option Aead → List ℕ → Option (List ℕ)
open_packet none b = some b
open_packet (some s) b =
    if leb (length b) (s.nonce_size + s.overhead)
    then none
    else s.opened (take s.nonce_size b) (drop s.nonce_size b)

-- `Read`
pub read : Option Header → Option Aead → List ℕ → Outcome (List Segment)
unfolding strip_header open_packet read_segments
read header security b = elim (strip_header header b) [
  | none ↦ done []
  | some b1 ↦ elim (open_packet security b1) [
    | none ↦ done []
    | some b2 ↦ read_segments (length b2) b2
  ]
]

pub header_size : Option Header → ℕ
header_size none = 0
header_size (some h) = h.size

-- `Overhead`
pub overhead : Option Header → Option Aead → ℕ
unfolding header_size
overhead header none = header_size header
overhead header (some s) = header_size header + s.overhead

pub header_bytes : Option Header → List ℕ
header_bytes none = []
header_bytes (some h) = h.bytes

-- `bb.BytesFrom(-nonceSize)`: the nonce that was drawn, but all that is in the buffer, the header, if
-- the nonce has no bytes.
pub sealing_nonce : Option Header → Aead → List ℕ → List ℕ
unfolding header_bytes
sealing_nonce header s nonce = if s.nonce_size == 0 then header_bytes header else nonce

-- The capacity that is left for what is sealed.
pub sealing_room : Option Header → Aead → ℕ
unfolding header_size
sealing_room header s = buffer_size - (header_size header + s.nonce_size)

-- The datagram that `Write` sends, with the nonce that is drawn. It is put together in one buffer:
-- `Extend` and the nonce past the buffer's end panic, a plain `Write` is cut there.
pub write : Option Header → Option Aead → List ℕ → List ℕ → Outcome (List ℕ)
unfolding header_bytes header_size sealing_nonce sealing_room
write header none nonce b =
    if ltb buffer_size (header_size header)
    then panic
    else done (take buffer_size (header_bytes header ++ b))
write header (some s) nonce b =
    if ltb buffer_size (header_size header + (s.nonce_size + (s.overhead + length b)))
    then panic
    else done (
        header_bytes header
        ++ (nonce ++ s.seal (sealing_room header s) (sealing_nonce header s nonce) b))

-- `SimpleSegmentWriter.Write`: the packet for a segment.
pub segment_packet : Segment → Outcome (List ℕ)
segment_packet seg = if ltb buffer_size (byte_size seg) then panic else serialize seg
