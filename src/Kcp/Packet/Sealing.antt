-- ===== src/Kcp/Packet/Sealing.antt =====
-- What the packet writer seals, taken apart again by the reader.
use v2root_core.Base.{
  ℕ, ◌+◌, ◌≤◌, ◌<◌, ◌≡◌, refl, sym, ap, ◌∙◌, Option, none, some, List, [], ◌++◌, length, take, drop,
  arith, Bool-cases, inl, inr, ◌==◌, length-append, take-append, drop-append, ge→ltb, gt→leb,
}
use v2root_core.Base.Outcome.{done, ◌>>=◌}
use v2root_core.Kcp.Segment.{buffer_size}
use v2root_core.Kcp.Packet.{
  Header, Aead, read_segments, strip_header, open_packet, header_bytes, header_size, read, write,
  sealing_nonce, sealing_room,
}

-- A header has its size.
pub record IsHeader (h : Header) : Type 0 where
  pub sized : length h.bytes ≡ h.size

-- What a cipher promises for the plain text `b` in a capacity of `room`: what was sealed is opened with
-- the same nonce, and has the overhead as its growth. One whose nonce has no bytes does not look at it.
pub record IsAead (s : Aead) (room : ℕ) (b : List ℕ) : Type 0 where
  pub opens :
      (nonce : List ℕ) → length nonce ≡ s.nonce_size → s.opened nonce (s.seal room nonce b) ≡ some b
  pub grows :
      (nonce : List ℕ)
      → length nonce ≡ s.nonce_size
      → length (s.seal room nonce b) ≡ s.overhead + length b
  pub ignores :
      s.nonce_size ≡ 0 → (nonce nonce' : List ℕ) → s.seal room nonce b ≡ s.seal room nonce' b

strip_long :
    (h : Header) (b : List ℕ) → h.size < length b → strip_header (some h) b ≡ some (drop h.size b)
unfolding strip_header
strip_long h b l = rw (gt→leb (length b) h.size l) refl

open_long :
    (s : Aead) (b : List ℕ)
    → s.nonce_size + s.overhead < length b
    → open_packet (some s) b ≡ s.opened (take s.nonce_size b) (drop s.nonce_size b)
unfolding open_packet
open_long s b l = rw (gt→leb (length b) (s.nonce_size + s.overhead) l) refl

pub read_opened :
    (header : Option Header) (security : Option Aead) (b b1 b2 : List ℕ)
    → strip_header header b ≡ some b1
    → open_packet security b1 ≡ some b2
    → read header security b ≡ read_segments (length b2) b2
unfolding read
read_opened header security b b1 b2 e f = rw (e, read, f) refl

pub read_refused :
    (header : Option Header) (security : Option Aead) (b : List ℕ)
    → strip_header header b ≡ none
    → read header security b ≡ done []
unfolding read
read_refused header security b e = rw (e, read) refl

pub read_unopened :
    (header : Option Header) (security : Option Aead) (b b1 : List ℕ)
    → strip_header header b ≡ some b1
    → open_packet security b1 ≡ none
    → read header security b ≡ done []
unfolding read
read_unopened header security b b1 e f = rw (e, read, f) refl

-- The nonce that is sealed with does for the one that is sent.
seal-nonce :
    (header : Option Header) (s : Aead) (nonce b : List ℕ)
    → IsAead s (sealing_room header s) b
    → s.seal (sealing_room header s) (sealing_nonce header s nonce) b
      ≡ s.seal (sealing_room header s) nonce b
unfolding sealing_nonce
seal-nonce header s nonce b is = elim (Bool-cases (s.nonce_size == 0)) [
  | inl e ↦ is.ignores (ground (arith, e)) (sealing_nonce header s nonce) nonce
  | inr e ↦ rw (e, sealing_nonce) refl
]

write_fits :
    (h : Header) (s : Aead) (nonce b : List ℕ)
    → h.size + (s.nonce_size + (s.overhead + length b)) ≤ buffer_size
    → IsAead s (sealing_room (some h) s) b
    → write (some h) (some s) nonce b
      ≡ done (h.bytes ++ (nonce ++ s.seal (sealing_room (some h) s) nonce b))
unfolding write header_bytes header_size
write_fits h s nonce b f is =
    rw (ge→ltb buffer_size (h.size + (s.nonce_size + (s.overhead + length b))) f)
      (ap (λ c. done (h.bytes ++ (nonce ++ c))) (seal-nonce (some h) s nonce b is))

-- Bytes that are not empty are written with a header and a cipher, and read up to the loop.
pub read-written :
    (h : Header) (s : Aead) (nonce b : List ℕ)
    → IsHeader h
    → IsAead s (sealing_room (some h) s) b
    → length nonce ≡ s.nonce_size
    → 0 < length b
    → h.size + (s.nonce_size + (s.overhead + length b)) ≤ buffer_size
    → (write (some h) (some s) nonce b >>= read (some h) (some s)) ≡ read_segments (length b) b
read-written h s nonce b ih is n pos f =
    let sealed : List ℕ = s.seal (sealing_room (some h) s) nonce b in
    let g : length sealed ≡ s.overhead + length b = is.grows nonce n in
    let l1 : length (h.bytes ++ (nonce ++ sealed)) ≡ h.size + (s.nonce_size + length sealed) =
      omega
        (arith, length-append h.bytes (nonce ++ sealed), length-append nonce sealed, ih.sized, n) in
    let l2 : length (nonce ++ sealed) ≡ s.nonce_size + length sealed =
      omega (arith, length-append nonce sealed, n) in
    let whole : List ℕ = h.bytes ++ (nonce ++ sealed) in
    let e1 : strip_header (some h) whole ≡ some (nonce ++ sealed) =
      strip_long h whole (omega (arith, l1, g, pos))
      ∙ ap (λ k. some (drop k whole)) (sym ih.sized)
      ∙ ap some (drop-append h.bytes (nonce ++ sealed)) in
    let e2 : open_packet (some s) (nonce ++ sealed) ≡ some b =
      open_long s (nonce ++ sealed) (omega (arith, l2, g, pos))
      ∙ ap (λ k. s.opened (take k (nonce ++ sealed)) (drop k (nonce ++ sealed))) (sym n)
      ∙ rw (take-append nonce sealed, drop-append nonce sealed) (is.opens nonce n) in
    ap (λ m. m >>= read (some h) (some s)) (write_fits h s nonce b f is)
    ∙ read_opened (some h) (some s) whole (nonce ++ sealed) b e1 e2
