-- ===== src/Kcp/Receiving/Stream.antt =====
-- The stream that the receiver takes in and hands to its reader, whatever the order, the gaps and the
-- repetitions in which the segments arrive.
use v2root_core.Base.{
  Bool, false, ◌||◌, Option, some, ◌++◌, ◌==◌, if◌then◌else◌, ℕ, zero, suc, ◌+◌, ◌%◌, ◌^◌, ◌≤◌, ◌≡◌,
  refl, sym, ◌∙◌, none, List, [], ◌∷◌, length, leb, arith, inl, inr, Option-cases,
}
use mathlib.Core.Path.{ap₂}
use v2root_core.Base.Words.{add32, sub32}
use v2root_core.Base.Outcome.{done}
use v2root_core.Kcp.Segment.{DataSegment, content}
use v2root_core.Kcp.AckList
use v2root_core.Kcp.Receiving.{
  ReceivingWorker, ReceivingWindow, find, remove, read_loop, read_window, read_multi_buffer,
  process_sending_next,
}
use v2root_core.Kcp.AckList.Clear.{Entry, Holds, clear-Holds, kept}
use v2root_core.Kcp.Receiving.Map.{
  AllEntries, find-AllEntries, remove-AllEntries, remove-find, length-remove,
}

-- The `n` payloads of the stream `f` from number `start` on; the numbers wrap.
abbrev pub consecutive : (ℕ → List ℕ) → ℕ → ℕ → List (List ℕ)
consecutive f start zero = []
consecutive f start (suc n) = f start ∷ consecutive f (add32 start 1) n

-- Each entry carries the payload that the stream has at its number.
abbrev pub Carries : (ℕ → List ℕ) → ReceivingWindow → Type 0
Carries f = AllEntries (λ id seg. content seg.payload ≡ f id)

-- Whether a number is among the `n` from `start` on.
abbrev pub among : ℕ → ℕ → ℕ → Bool
among start zero id = false
among start (suc n) id = start == id || among (add32 start 1) n id

-- The loop takes out the numbers it counts, and no other.
read_loop-find :
    (fuel : ℕ) (w : ReceivingWindow) (next id : ℕ)
    → find (read_loop fuel w next).1 id
      ≡ (if among next (length (read_loop fuel w next).0) id then none else find w id)
unfolding read_loop
read_loop-find zero w next id = refl
read_loop-find (suc fuel) w next id = elim (Option-cases (remove w next).1) [
  | inl e ↦ rw (e, read_loop) refl
  | inr (seg, e) ↦
      rw (e, read_loop)
        (ground (
          arith,
          read_loop-find fuel (remove w next).0 (add32 next 1) id,
          (remove-find w next id).1,
        ))
]

module _ (f : ℕ → List ℕ) where
  -- What the loop hands out is consecutive, and it ends because the next number is missing.
  pub read_loop-consecutive :
      (fuel : ℕ) (w : ReceivingWindow) (next : ℕ)
      → length w ≤ fuel
      → Carries f w
      → ((read_loop fuel w next).0 ≡ consecutive f next (length (read_loop fuel w next).0))
        × ((read_loop fuel w next).2 % 2 ^ 32 ≡ (next + length (read_loop fuel w next).0) % 2 ^ 32)
        × (find (read_loop fuel w next).1 (read_loop fuel w next).2 ≡ none)
        × Carries f (read_loop fuel w next).1
  unfolding read_loop
  read_loop-consecutive zero [] next h c = (refl, ground arith, refl, c)
  read_loop-consecutive zero (e ∷ w) next h c = absurd (omega arith)
  read_loop-consecutive (suc fuel) w next h c = elim (Option-cases (remove w next).1) [
    | inl e ↦ rw (e, read_loop) (refl, omega arith, sym (remove-find w next next).0 ∙ e, c)
    | inr (seg, e) ↦
        let (mb, nx, gone, c') =
          read_loop-consecutive fuel (remove w next).0 (add32 next 1)
            (omega (arith, length-remove w next seg e)) (remove-AllEntries _ w next c) in
        rw (e, read_loop)
          (
            ap₂ ◌∷◌ (find-AllEntries _ w next c (sym (remove-find w next next).0 ∙ e)) mb,
            omega arith,
            gone,
            c',
          )
  ]

  -- With nothing left over, a read takes out the longest run of consecutive payloads from
  -- `nextNumber` on, counts `nextNumber` past it to a number that is missing, and leaves what the window
  -- has under any other number than those.
  pub read_multi_buffer-consecutive :
      (w : ReceivingWorker) (id : ℕ)
      → w.left_over ≡ none
      → Carries f w.window
      → let (mb, v) = read_multi_buffer w in
        (mb ≡ consecutive f w.next_number (length mb))
        × (v.next_number % 2 ^ 32 ≡ (w.next_number + length mb) % 2 ^ 32)
        × (find v.window v.next_number ≡ none)
        × (find v.window id
            ≡ (if among w.next_number (length mb) id then none else find w.window id))
        × Carries f v.window
  unfolding read_multi_buffer read_window
  read_multi_buffer-consecutive w id e c =
      let (mb, next, gone, carried) =
        read_loop-consecutive (length w.window) w.window w.next_number (omega arith) c in
      rw (e, read_multi_buffer)
        (mb, next, gone, read_loop-find (length w.window) w.window w.next_number id, carried)

-- The window carries the stream, and the acknowledgement list's slices hold entries.
pub record IsReceiving (f : ℕ → List ℕ) (w : ReceivingWorker) : Type 0 where
  pub carries : Carries f w.window
  pub entries : List Entry
  pub acks : Holds w.acklist entries

-- What the window has under `id` after a segment within it: the segment, if its number was not there.
abbrev pub stored : ReceivingWorker → DataSegment → ℕ → Option DataSegment
stored w seg id =
    if leb w.window_size (sub32 seg.number w.next_number)
    then find w.window id
    else if seg.number == id
    then (elim (find w.window seg.number) [ none ↦ some seg | some old ↦ some old ])
    else find w.window id

-- What is to be acknowledged after a segment within the window: the segment too, and no more what the
-- sender's number covers.
abbrev pub noted : ReceivingWorker → DataSegment → List Entry → List Entry
noted w seg es =
    if leb w.window_size (sub32 seg.number w.next_number)
    then es
    else kept seg.sending_next es
      ++ record { number = seg.number; timestamp = seg.timestamp; next_flush = 0 } ∷ []

module _ (f : ℕ → List ℕ) where
  pub process_sending_next-IsReceiving :
      (w : ReceivingWorker) (number : ℕ)
      → IsReceiving f w
      → (v : ReceivingWorker) × (process_sending_next w number ≡ done v)
        × IsReceiving f v
        × (v.next_number ≡ w.next_number)
        × (v.left_over ≡ w.left_over)
  unfolding process_sending_next
  process_sending_next-IsReceiving w number r =
      let (l, cleared, holds) = clear-Holds number w.acklist r.entries r.acks in
      (
        record w { acklist = l },
        rw cleared,
        record { carries = r.carries; entries = _; acks = holds },
        refl,
        refl,
      )
