-- ===== src/Kcp/Segment/Total.antt =====
-- segment.go: `ReadSegment` on any bytes, from a peer or not.
use v2root_core.Base.{
  ℕ, zero, suc, ◌+◌, ◌==◌, ◌*◌, ◌≤◌, ◌<◌, ◌≡◌, ◌≢◌, List, [], ◌∷◌, length, take, drop, All, arith,
  length-append, length-drop, length-take, All-take, All-drop, ltb, not, Bool-cases, inl, inr,
  ltb→ge, All-append,
}
use v2root_core.Base.Words.{IsByte, IsU16, IsU32}
use v2root_core.Base.Bytes.{
  byte_at, byte_at-done, uint16, uint16-done, uint32, uint32-done, slice_from, slice_to,
  slice_to-take, slice_from-drop,
}
use v2root_core.Base.Outcome.{Outcome, done, invalid, panic, ensure, ◌>>=◌, ◌>>◌}
use v2root_core.Kcp.Segment.{
  AckSegment, Segment, data_seg, ack_seg, cmd_seg, content, put_number, buffer_size, parse_data,
  parse_numbers, parse_ack, parse_cmd, parse, read_segment, command_data, command_ack,
}

-- `r` is no panic, and a value that it returns satisfies `P`.
abbrev pub Ensures {ℓ} : {A : Type ℓ} → (A → Type 0) → Outcome A → Type 0
Ensures P (done a) = P a
Ensures P invalid = Unit
Ensures P panic = ⊥

-- The fields that were read fit their widths.
abbrev pub IsReadSegment : Segment → Type 0
IsReadSegment (data_seg s) =
    IsU16 s.conv
    × IsByte s.option
    × IsU32 s.timestamp
    × IsU32 s.number
    × IsU32 s.sending_next
    × (length (content s.payload) ≤ buffer_size)
    × All IsByte (content s.payload)
IsReadSegment (ack_seg s) =
    IsU16 s.conv
    × IsByte s.option
    × IsU32 s.receiving_window
    × IsU32 s.receiving_next
    × IsU32 s.timestamp
    × (length s.number_list < 256)
    × All IsU32 s.number_list
IsReadSegment (cmd_seg s) =
    IsU16 s.conv
    × IsByte s.cmd
    × (s.cmd ≢ command_data)
    × (s.cmd ≢ command_ack)
    × IsByte s.option
    × IsU32 s.sending_next
    × IsU32 s.receiving_next
    × IsU32 s.peer_rto

-- What holds of a segment read from `n` bytes, and of the bytes left over.
abbrev Reads : ℕ → Segment × List ℕ → Type 0
Reads n (s, extra) = IsReadSegment s × All IsByte extra × (length extra ≤ n)

-- A read at the front of a slice that is long enough, and the slice behind it.
module _ {ℓ} {B : Type ℓ} (P : B → Type 0) (bs : List ℕ) (w : All IsByte bs) where
  Ensures-uint32 :
      (f : ℕ → Outcome B)
      → 4 ≤ length bs
      → ((v : ℕ) → IsU32 v → Ensures P (f v))
      → Ensures P (uint32 bs >>= f)
  Ensures-uint32 f h k = let (v, e, hv) = uint32-done bs h w in rw e (k v hv)

  Ensures-uint16 :
      (f : ℕ → Outcome B)
      → 2 ≤ length bs
      → ((v : ℕ) → IsU16 v → Ensures P (f v))
      → Ensures P (uint16 bs >>= f)
  Ensures-uint16 f h k = let (v, e, hv) = uint16-done bs h w in rw e (k v hv)

  Ensures-byte_at :
      (i : ℕ) (f : ℕ → Outcome B)
      → suc i ≤ length bs
      → ((v : ℕ) → IsByte v → Ensures P (f v))
      → Ensures P (byte_at i bs >>= f)
  Ensures-byte_at i f h k = let (v, e, hv) = byte_at-done i bs h w in rw e (k v hv)

  Ensures-slice_from :
      (n : ℕ) (f : List ℕ → Outcome B)
      → n ≤ length bs
      → ((cs : List ℕ) → All IsByte cs → length cs + n ≡ length bs → Ensures P (f cs))
      → Ensures P (slice_from n bs >>= f)
  Ensures-slice_from n f h k =
      rw (slice_from-drop n bs h)
        (k (drop n bs) (All-drop _ n bs w) (omega (arith, length-drop n bs)))

  Ensures-slice_to :
      (n : ℕ) (f : List ℕ → Outcome B)
      → n ≤ length bs
      → ((cs : List ℕ) → All IsByte cs → length cs ≡ n → Ensures P (f cs))
      → Ensures P (slice_to n bs >>= f)
  Ensures-slice_to n f h k =
      rw (slice_to-take n bs h)
        (k (take n bs) (All-take _ n bs w) (omega (arith, length-take n bs)))

  Ensures-ensure :
      (n : ℕ) (f : Outcome B)
      → (n ≤ length bs → Ensures P f)
      → Ensures P (ensure (not (ltb (length bs) n)) >> f)
  Ensures-ensure n f k = elim (Bool-cases (ltb (length bs) n)) [
    | inl e ↦ rw e tt
    | inr e ↦ rw e (k (ltb→ge _ _ e))
  ]

Ensures-mono {ℓ} :
    {A : Type ℓ} (P Q : A → Type 0) (r : Outcome A)
    → Ensures P r
    → ((a : A) → P a → Q a)
    → Ensures Q r
Ensures-mono P Q (done a) h k = k a h
Ensures-mono P Q invalid h k = tt
Ensures-mono P Q panic h k = h

Ensures-bind {ℓ κ} :
    {A : Type ℓ} {B : Type κ} (P : A → Type 0) (Q : B → Type 0) (r : Outcome A) (f : A → Outcome B)
    → Ensures P r
    → ((a : A) → P a → Ensures Q (f a))
    → Ensures Q (r >>= f)
Ensures-bind P Q (done a) f h k = k a h
Ensures-bind P Q invalid f h k = tt
Ensures-bind P Q panic f h k = h

parse_cmd-Ensures :
    (conv cmd opt : ℕ) (bs : List ℕ)
    → IsU16 conv
    → IsByte cmd
    → cmd ≢ command_data
    → cmd ≢ command_ack
    → IsByte opt
    → All IsByte bs
    → Ensures (Reads (length bs)) (parse_cmd conv cmd opt bs)
unfolding parse_cmd
parse_cmd-Ensures conv cmd opt bs hc hm hd ha ho w = Ensures-ensure _ bs w 12 _ λ h0.
    Ensures-uint32 _ bs w _ (omega arith) λ v1 h1.
      Ensures-slice_from _ bs w 4 _ (omega arith) λ bs1 w1 l1.
        Ensures-uint32 _ bs1 w1 _ (omega arith) λ v2 h2.
          Ensures-slice_from _ bs1 w1 4 _ (omega arith) λ bs2 w2 l2.
            Ensures-uint32 _ bs2 w2 _ (omega arith) λ v3 h3.
              Ensures-slice_from _ bs2 w2 4 _ (omega arith)
                λ bs3 w3 l3. ((hc, hm, hd, ha, ho, h1, h2, h3), w3, omega arith)

parse_data-Ensures :
    (conv opt : ℕ) (bs : List ℕ)
    → IsU16 conv
    → IsByte opt
    → All IsByte bs
    → Ensures (Reads (length bs)) (parse_data conv opt bs)
unfolding parse_data
parse_data-Ensures conv opt bs hc ho w = Ensures-ensure _ bs w 15 _ λ h0.
    Ensures-uint32 _ bs w _ (omega arith) λ v1 h1.
      Ensures-slice_from _ bs w 4 _ (omega arith) λ bs1 w1 l1.
        Ensures-uint32 _ bs1 w1 _ (omega arith) λ v2 h2.
          Ensures-slice_from _ bs1 w1 4 _ (omega arith) λ bs2 w2 l2.
            Ensures-uint32 _ bs2 w2 _ (omega arith) λ v3 h3.
              Ensures-slice_from _ bs2 w2 4 _ (omega arith) λ bs3 w3 l3.
                Ensures-uint16 _ bs3 w3 _ (omega arith) λ n hn.
                  Ensures-slice_from _ bs3 w3 2 _ (omega arith) λ bs4 w4 l4.
                    Ensures-ensure _ bs4 w4 n _ λ h4.
                      Ensures-slice_to _ bs4 w4 n _ (omega arith) λ cs wc lc.
                        Ensures-slice_from _ bs4 w4 n _ (omega arith) λ bs5 w5 l5. (
                          (
                            hc,
                            ho,
                            h1,
                            h2,
                            h3,
                            omega (arith, length-take buffer_size cs),
                            All-take _ buffer_size cs wc,
                          ),
                          w5,
                          omega arith,
                        )

abbrev ReadsAck : ℕ → AckSegment × List ℕ → Type 0
ReadsAck n (s, extra) = IsReadSegment (ack_seg s) × All IsByte extra × (length extra ≤ n)

parse_numbers-Ensures :
    (count : ℕ) (s : AckSegment) (bs : List ℕ)
    → All IsByte bs
    → count * 4 ≤ length bs
    → length s.number_list + count < 256
    → IsReadSegment (ack_seg s)
    → Ensures (ReadsAck (length bs)) (parse_numbers count s bs)
unfolding parse_numbers
parse_numbers-Ensures zero s bs w h l r = (r, w, omega arith)
parse_numbers-Ensures (suc count) s bs w h l (hc, ho, hw, hn, ht, hl, hs) =
    Ensures-uint32 _ bs w _ (omega arith) λ v hv.
      Ensures-slice_from _ bs w 4 _ (omega arith) λ bs1 w1 l1.
        Ensures-mono (ReadsAck (length bs1)) (ReadsAck (length bs)) _
          (parse_numbers-Ensures count (put_number s v) bs1 w1 (omega arith)
            (omega (arith, length-append s.number_list (v ∷ [])))
            (
              hc,
              ho,
              hw,
              hn,
              ht,
              omega (arith, length-append s.number_list (v ∷ [])),
              All-append _ s.number_list (v ∷ []) hs (hv, tt),
            ))
          λ p q. (q.0, q.1, omega arith)

parse_ack-Ensures :
    (conv opt : ℕ) (bs : List ℕ)
    → IsU16 conv
    → IsByte opt
    → All IsByte bs
    → Ensures (Reads (length bs)) (parse_ack conv opt bs)
unfolding parse_ack
parse_ack-Ensures conv opt bs hc ho w = Ensures-ensure _ bs w 13 _ λ h0.
    Ensures-uint32 _ bs w _ (omega arith) λ v1 h1.
      Ensures-slice_from _ bs w 4 _ (omega arith) λ bs1 w1 l1.
        Ensures-uint32 _ bs1 w1 _ (omega arith) λ v2 h2.
          Ensures-slice_from _ bs1 w1 4 _ (omega arith) λ bs2 w2 l2.
            Ensures-uint32 _ bs2 w2 _ (omega arith) λ v3 h3.
              Ensures-slice_from _ bs2 w2 4 _ (omega arith) λ bs3 w3 l3.
                Ensures-byte_at _ bs3 w3 0 _ (omega arith) λ n hn.
                  Ensures-slice_from _ bs3 w3 1 _ (omega arith) λ bs4 w4 l4.
                    Ensures-ensure _ bs4 w4 (n * 4) _ λ h4.
                      Ensures-bind (ReadsAck (length bs4)) (Reads (length bs)) _ _
                        (parse_numbers-Ensures n
                          (record {
                            conv = conv;
                            option = opt;
                            receiving_window = v1;
                            receiving_next = v2;
                            timestamp = v3;
                            number_list = [];
                          })
                          bs4 w4 h4 (omega arith) (hc, ho, h1, h2, h3, omega arith, tt))
                        λ p q. (q.0, q.1, omega arith)

parse-Ensures :
    (conv cmd opt : ℕ) (bs : List ℕ)
    → IsU16 conv
    → IsByte cmd
    → IsByte opt
    → All IsByte bs
    → Ensures (Reads (length bs)) (parse conv cmd opt bs)
unfolding parse
parse-Ensures conv cmd opt bs hc hm ho w = elim (Bool-cases (cmd == command_data)) [
  | inl e ↦ rw e (parse_data-Ensures conv opt bs hc ho w)
  | inr e ↦ rw e (elim (Bool-cases (cmd == command_ack)) [
    | inl a ↦ rw a (parse_ack-Ensures conv opt bs hc ho w)
    | inr a ↦ rw a (parse_cmd-Ensures conv cmd opt bs hc hm (ground arith) (ground arith) ho w)
  ])
]

abbrev pub ReadsSegment : ℕ → Segment × List ℕ → Type 0
ReadsSegment n (s, extra) = IsReadSegment s × All IsByte extra × (length extra + 4 ≤ n)

-- On any bytes `read_segment` makes no access out of range; a segment that it returns has fields
-- within their widths, a payload that fits a buffer and at most 255 numbers, and the bytes left
-- over are at least four fewer than those it was given.
pub read_segment-Ensures :
    (bs : List ℕ) → All IsByte bs → Ensures (ReadsSegment (length bs)) (read_segment bs)
unfolding read_segment
read_segment-Ensures bs w = Ensures-ensure _ bs w 4 _ λ h0.
    Ensures-uint16 _ bs w _ (omega arith) λ conv hc.
      Ensures-slice_from _ bs w 2 _ (omega arith) λ bs1 w1 l1.
        Ensures-byte_at _ bs1 w1 0 _ (omega arith) λ cmd hm.
          Ensures-byte_at _ bs1 w1 1 _ (omega arith) λ opt ho.
            Ensures-slice_from _ bs1 w1 2 _ (omega arith) λ bs2 w2 l2.
              Ensures-mono _ (ReadsSegment (length bs)) _
                (parse-Ensures conv cmd opt bs2 hc hm ho w2) λ p q. (q.0, q.1, omega arith)
