-- ===== src/Kcp/Receiving/Prefix.antt =====
-- ReceivingWorker as one end of a stream: what it holds is what was accepted at the other end.
use v2root_core.Base.{
  ℕ, zero, suc, ◌^◌, ◌≤◌, ◌<◌, ◌≡◌, refl, sym, ap, ◌∙◌, Option, none, some, List, [], ◌∷◌, ◌++◌,
  length, take, get_elem?, leb, arith, Bool-cases, inl, inr, Option-cases,
}
use mathlib.Core.List.{append-nil, append_assoc}
use v2root_core.Base.Words.{add32, sub32}
use v2root_core.Base.Outcome.{done}
use v2root_core.Kcp.Segment.{DataSegment, content}
use v2root_core.Kcp.AckList
use v2root_core.Kcp.AckList.Clear.{clear-Holds, add-Holds}
use v2root_core.Kcp.Receiving.{
  ReceivingWorker, ReceivingWindow, set, remove, read_loop, read_window, read_multi_buffer,
  process_segment, process_sending_next,
}
use v2root_core.Kcp.Receiving.Acks.{HasEntries}
use v2root_core.Kcp.Receiving.Map.{
  AllEntries, find-AllEntries, set-AllEntries, remove-AllEntries, remove-find,
}

-- The payload is the one that was accepted under the number.
abbrev pub IsAccepted : List (List ℕ) → ℕ → Option (List ℕ) → Type 0
IsAccepted bs n p = (n < length bs) × (p ≡ get_elem? bs n)

abbrev pub HoldsAccepted : List (List ℕ) → ReceivingWindow → Type 0
HoldsAccepted bs = AllEntries (λ id seg. IsAccepted bs id seg.payload)

get_elem?-content :
    (bs : List (List ℕ)) (n : ℕ) → n < length bs → get_elem? bs n ≡ some (content (get_elem? bs n))
get_elem?-content [] n h = absurd (omega arith)
get_elem?-content (x ∷ bs) zero h = refl
get_elem?-content (x ∷ bs) (suc n) h = get_elem?-content bs n (omega arith)

take-suc :
    (bs : List (List ℕ)) (n : ℕ) (b : List ℕ)
    → get_elem? bs n ≡ some b
    → take (suc n) bs ≡ take n bs ++ b ∷ []
take-suc [] n b h = cc
take-suc (x ∷ bs) zero b h = ap (λ y. y ∷ []) (ground (arith, h))
take-suc (x ∷ bs) (suc n) b h = ap (◌∷◌ x) (take-suc bs n b h)

module _ (bs : List (List ℕ)) (small : length bs < 2 ^ 32) where
  read_loop-take :
      (fuel : ℕ) (w : ReceivingWindow) (next : ℕ)
      → HoldsAccepted bs w
      → next ≤ length bs
      → let (mb, w', next') = read_loop fuel w next in
        (take next bs ++ mb ≡ take next' bs) × (next' ≤ length bs) × HoldsAccepted bs w'
  unfolding read_loop
  read_loop-take zero w next a h = (append-nil _, h, a)
  read_loop-take (suc fuel) w next a h = elim (Option-cases (remove w next).1) [
    | inl e ↦ rw (e, read_loop) (append-nil _, h, a)
    | inr (seg, e) ↦
        let (lt, p) =
          find-AllEntries (λ id s. IsAccepted bs id s.payload) w next a
            (sym (remove-find w next next).0 ∙ e) in
        let step : add32 next 1 ≡ suc next = omega (arith, small) in
        let (mb, le, a') =
          read_loop-take fuel (remove w next).0 (add32 next 1) (remove-AllEntries _ w next a)
            (omega arith) in
        rw (e, read_loop)
          (
            sym (append_assoc (take next bs) (content seg.payload ∷ []) _)
                ∙ ap (λ t. t ++ (read_loop fuel (remove w next).0 (add32 next 1)).0)
                    (sym (
                        take-suc bs next (content seg.payload)
                          (get_elem?-content bs next lt ∙ ap (λ q. some (content q)) (sym p)))
                      ∙ ap (λ n. take n bs) (sym step))
                ∙ mb,
            le,
            a',
          )
  ]

  -- A read extends the prefix that was handed out.
  pub read_multi_buffer-take :
      (w : ReceivingWorker)
      → w.left_over ≡ none
      → HoldsAccepted bs w.window
      → w.next_number ≤ length bs
      → let (mb, v) = read_multi_buffer w in
        (take w.next_number bs ++ mb ≡ take v.next_number bs)
        × (v.next_number ≤ length bs)
        × HoldsAccepted bs v.window
  unfolding read_multi_buffer read_window
  read_multi_buffer-take w e a h =
      rw (e, read_multi_buffer) (read_loop-take (length w.window) w.window w.next_number a h)

pub read_multi_buffer-HasEntries :
    (w : ReceivingWorker) → HasEntries w → HasEntries (read_multi_buffer w).1
unfolding read_multi_buffer read_window
read_multi_buffer-HasEntries w (es, h) = (es, ground (arith, h))

-- What holds of each entry and of an arriving segment holds of each entry afterwards.
pub process_segment-AllEntries :
    (P : ℕ → DataSegment → Type 0) (w : ReceivingWorker) (seg : DataSegment)
    → P seg.number seg
    → AllEntries P w.window
    → HasEntries w
    → (v : ReceivingWorker) × (process_segment w seg ≡ done v)
      × HasEntries v
      × AllEntries P v.window
      × (v.next_number ≡ w.next_number)
unfolding process_segment
process_segment-AllEntries P w seg p a (es, h) =
    elim (Bool-cases (leb w.window_size (sub32 seg.number w.next_number))) [
      | inl e ↦ (w, rw e, (es, h), a, refl)
      | inr e ↦
          let (l, cleared, held) = clear-Holds seg.sending_next w.acklist es h in
          (
            record w {
              acklist = AckList.add l seg.number seg.timestamp;
              window = (set w.window seg.number seg).0;
            },
            rw (e, cleared),
            (_, add-Holds l _ seg.number seg.timestamp held),
            set-AllEntries P w.window seg.number seg p a,
            refl,
          )
    ]

pub process_sending_next-AllEntries :
    (P : ℕ → DataSegment → Type 0) (w : ReceivingWorker) (number : ℕ)
    → AllEntries P w.window
    → HasEntries w
    → (v : ReceivingWorker) × (process_sending_next w number ≡ done v)
      × HasEntries v
      × AllEntries P v.window
      × (v.next_number ≡ w.next_number)
unfolding process_sending_next
process_sending_next-AllEntries P w number a (es, h) =
    let (l, cleared, held) = clear-Holds number w.acklist es h in
    (record w { acklist = l }, rw cleared, (_, held), a, refl)
