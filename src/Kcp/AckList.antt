-- ===== src/Kcp/AckList.antt =====
-- transport/internet/kcp/receiving.go, AckList: the numbers to acknowledge, in three slices of the
-- same length. A slice is a list; an index out of range panics.
pub mod Clear
pub mod Flush
mod Tests
use v2root_core.Base.{
  ℕ, zero, suc, ◌+◌, ◌-◌, ◌/◌, Bool, true, false, ◌||◌, not, Option, none, some, List, [], ◌∷◌,
  ◌++◌, length, take, ltb, ◌==◌, if◌then◌else◌,
}
use v2root_core.Base.Words.{add32}
use v2root_core.Base.Outcome.{Outcome, done, invalid, panic, ◌>>=◌}
use v2root_core.Base.Arrays.{index, set}
use v2root_core.Kcp.Segment.{
  AckSegment, new_ack_segment, put_number, put_timestamp, is_full, is_empty,
}

pub record AckList : Type 0 where
  pub timestamps : List ℕ
  pub numbers : List ℕ
  pub next_flush : List ℕ
  pub flush_candidates : List ℕ
  pub dirty : Bool

-- The capacity that `NewAckList` gives `flushCandidates`.
abbrev pub candidates_cap : ℕ
candidates_cap = 128

unfoldable pub new_ack_list : AckList
new_ack_list = record {
  timestamps = [];
  numbers = [];
  next_flush = [];
  flush_candidates = [];
  dirty = false;
}

unfoldable pub add : AckList → ℕ → ℕ → AckList
add l number timestamp = record l {
  timestamps = l.timestamps ++ timestamp ∷ [];
  numbers = l.numbers ++ number ∷ [];
  next_flush = l.next_flush ++ 0 ∷ [];
  dirty = true;
}

-- `dst[count] = src[i]` in one slice.
pub move : List ℕ → ℕ → ℕ → Outcome (List ℕ)
move xs count i = do x ← index xs i; set xs count x

pub move_entry : AckList → ℕ → ℕ → Outcome AckList
move_entry l count i = do
  numbers ← move l.numbers count i
  timestamps ← move l.timestamps count i
  next_flush ← move l.next_flush count i
  done (record l { numbers = numbers; timestamps = timestamps; next_flush = next_flush })

-- One round of the loop of `Clear`: the list and `count`.
unfoldable pub clear_entry : ℕ → AckList → ℕ → ℕ → Outcome (AckList × ℕ)
clear_entry una l i count = do
  number ← index l.numbers i
  let moved = (if i == count then done l else move_entry l count i)
  (if ltb number una then done (l, count) else (moved >>= λ l'. done (l', count + 1)))

-- The loop with `rounds` indices left.
unfoldable pub clear_loop : ℕ → ℕ → AckList → ℕ → ℕ → Outcome (AckList × ℕ)
clear_loop zero una l i count = done (l, count)
clear_loop (suc rounds) una l i count = do
  (l', count') ← clear_entry una l i count
  clear_loop rounds una l' (i + 1) count'

unfoldable pub clear : AckList → ℕ → Outcome AckList
unfolding clear_loop
clear l una = do
  (l', count) ← clear_loop (length l.numbers) una l 0 0
  done (
      if ltb count (length l'.numbers)
      then record l' {
        numbers = take count l'.numbers;
        timestamps = take count l'.timestamps;
        next_flush = take count l'.next_flush;
        dirty = true;
      }
      else l')

-- The variables of the loop of `Flush`: the list, the segment that is filled, and those written.
pub record Flushing : Type 0 where
  pub list : AckList
  pub seg : AckSegment
  pub written : List AckSegment

pub resend_delay : ℕ → ℕ
resend_delay rto = if ltb (rto / 2) 20 then 20 else rto / 2

keep_candidate : AckList → ℕ → AckList
keep_candidate l number =
    if ltb (length l.flush_candidates) candidates_cap
    then record l { flush_candidates = l.flush_candidates ++ number ∷ [] }
    else l

-- A full segment is written and a new one begun. `write` is the worker's `Write`.
write_if_full : (AckSegment → AckSegment) → Flushing → Flushing
write_if_full write s =
    if is_full s.seg
    then record {
      list = record s.list { dirty = false };
      seg = new_ack_segment;
      written = s.written ++ write s.seg ∷ [];
    }
    else s

take_entry : (AckSegment → AckSegment) → ℕ → ℕ → Flushing → ℕ → ℕ → Outcome Flushing
take_entry write current rto s i number = do
  timestamp ← index s.list.timestamps i
  next_flush ← set s.list.next_flush i (add32 current (resend_delay rto))
  done (
      write_if_full write (record s {
        list = record s.list { next_flush = next_flush };
        seg = put_timestamp (put_number s.seg number) timestamp;
      }))

-- One round of the loop of `Flush`.
flush_entry : (AckSegment → AckSegment) → ℕ → ℕ → Flushing → ℕ → Outcome Flushing
unfolding take_entry
flush_entry write current rto s i = do
  next ← index s.list.next_flush i
  number ← index s.list.numbers i
  (if ltb current next
      then done (record s { list = keep_candidate s.list number })
      else take_entry write current rto s i number)

flush_loop : (AckSegment → AckSegment) → ℕ → ℕ → ℕ → ℕ → Flushing → Outcome Flushing
flush_loop write current rto zero i s = done s
flush_loop write current rto (suc rounds) i s = do
  s' ← flush_entry write current rto s i
  flush_loop write current rto rounds (i + 1) s'

-- `for _, number := range l.flushCandidates { if seg.IsFull() { break }; seg.PutNumber(number) }`
fill : AckSegment → List ℕ → AckSegment
fill seg [] = seg
fill seg (number ∷ numbers) =
    let filled = fill (put_number seg number) numbers in if is_full seg then seg else filled

pub flush : (AckSegment → AckSegment) → AckList → ℕ → ℕ → Outcome (AckList × List AckSegment)
flush write l0 current rto = do
  s ←
      flush_loop write current rto (length l0.numbers) 0
        (record { list = record l0 { flush_candidates = [] }; seg = new_ack_segment; written = [] })
  done (
      if s.list.dirty || not (is_empty s.seg)
      then (
        record s.list { dirty = false },
        s.written ++ write (fill s.seg s.list.flush_candidates) ∷ [],
      )
      else (s.list, s.written))
