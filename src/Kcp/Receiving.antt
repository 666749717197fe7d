-- ===== src/Kcp/Receiving.antt =====
-- transport/internet/kcp/receiving.go, ReceivingWindow and ReceivingWorker, with the functions of
-- common/buf/multi_buffer.go that a read uses. A MultiBuffer is the list of its buffers' contents;
-- the map of the window is an association list.
pub mod Map
pub mod Acks
pub mod Stream
pub mod Bytes
pub mod Prefix
mod Tests
use v2root_core.Base.{
  ℕ, zero, suc, ◌+◌, ◌-◌, Bool, true, false, ◌&&◌, not, Option, none, some, List, [], ◌∷◌, ◌++◌,
  length, take, drop, ltb, leb, ◌==◌, if◌then◌else◌,
}
use v2root_core.Base.Words.{add32, sub32}
use v2root_core.Base.Outcome.{Outcome, done, ◌>>=◌}
use v2root_core.Kcp.Segment.{DataSegment, AckSegment, content, segment_option_close}
use v2root_core.Kcp.AckList
use v2root_core.Kcp.AckList.{AckList, new_ack_list}

abbrev pub ReceivingWindow : Type 0
ReceivingWindow = List (ℕ × DataSegment)

abbrev pub find : ReceivingWindow → ℕ → Option DataSegment
find [] id = none
find ((k, seg) ∷ w) id = if k == id then some seg else find w id

pub has : ReceivingWindow → ℕ → Bool
has w id = elim (find w id) [ none ↦ false | some _ ↦ true ]

unfoldable pub set : ReceivingWindow → ℕ → DataSegment → ReceivingWindow × Bool
set w id seg = elim (find w id) [ none ↦ ((id, seg) ∷ w, true) | some _ ↦ (w, false) ]

-- `delete(w.cache, id)`
unfoldable pub delete : ReceivingWindow → ℕ → ReceivingWindow
delete [] id = []
delete ((k, seg) ∷ w) id = let rest = delete w id in if k == id then rest else (k, seg) ∷ rest

unfoldable pub remove : ReceivingWindow → ℕ → ReceivingWindow × Option DataSegment
unfolding delete
remove w id = elim (find w id) [ none ↦ (w, none) | some seg ↦ (delete w id, some seg) ]

pub record ReceivingWorker : Type 0 where
  pub left_over : Option (List (List ℕ))
  pub window : ReceivingWindow
  pub acklist : AckList
  pub next_number : ℕ
  pub window_size : ℕ

-- The argument is the result of GetReceivingInFlightSize.
unfoldable pub new_receiving_worker : ℕ → ReceivingWorker
new_receiving_worker in_flight = record {
  left_over = none;
  window = [];
  acklist = new_ack_list;
  next_number = 0;
  window_size = in_flight;
}

pub release : ReceivingWorker → ReceivingWorker
release w = record w { left_over = none }

pub process_sending_next : ReceivingWorker → ℕ → Outcome ReceivingWorker
process_sending_next w number = do
  acklist ← AckList.clear w.acklist number
  done (record w { acklist = acklist })

unfoldable pub process_segment : ReceivingWorker → DataSegment → Outcome ReceivingWorker
process_segment w seg =
    let cleared = AckList.clear w.acklist seg.sending_next in
    if leb w.window_size (sub32 seg.number w.next_number)
    then done w
    else (cleared >>= λ acklist. done (record w {
      acklist = AckList.add acklist seg.number seg.timestamp;
      window = (set w.window seg.number seg).0;
    }))

-- The loop of `ReadMultiBuffer` with `fuel` rounds at most: the buffers taken out, the window and
-- `nextNumber`. Each round takes an entry out, so as many rounds as there are entries are enough.
unfoldable pub read_loop : ℕ → ReceivingWindow → ℕ → List (List ℕ) × ReceivingWindow × ℕ
read_loop zero w next = ([], w, next)
read_loop (suc fuel) w next = elim (remove w next).1 [
  | none ↦ ([], w, next)
  | some seg ↦
      let (mb, w', next') = read_loop fuel (remove w next).0 (add32 next 1) in
      (content seg.payload ∷ mb, w', next')
]

unfoldable pub read_window : ReceivingWorker → List (List ℕ) × ReceivingWorker
read_window w =
    let (mb, window, next) = read_loop (length w.window) w.window w.next_number in
    (mb, record w { window = window; next_number = next })

unfoldable pub read_multi_buffer : ReceivingWorker → List (List ℕ) × ReceivingWorker
unfolding read_window
read_multi_buffer w = elim w.left_over [
  | some mb ↦ (mb, record w { left_over = none })
  | none ↦ read_window w
]

-- `buf.SplitBytes(mb, b)` for a slice `b` of `n` bytes: the leftover, and the bytes copied.
pub split_bytes : List (List ℕ) → ℕ → List (List ℕ) × List ℕ
split_bytes [] n = ([], [])
split_bytes (p ∷ ps) n =
    let (rest, out) = split_bytes ps (n - length p) in
    if leb (length p) n then (rest, p ++ out) else (drop n p ∷ ps, take n p)

abbrev pub all_empty : List (List ℕ) → Bool
all_empty [] = true
all_empty (p ∷ ps) = length p == 0 && all_empty ps

-- `Read` into a slice of `n` bytes: the bytes stored, and the worker.
pub read : ReceivingWorker → ℕ → List ℕ × ReceivingWorker
read w n =
    let (mb, w') = read_multi_buffer w in
    let (rest, out) = split_bytes mb n in
    if all_empty mb
    then ([], w')
    else if all_empty rest
    then (out, w')
    else (out, record w' { left_over = some rest })

pub is_data_available : ReceivingWorker → Bool
is_data_available w = has w.window w.next_number

-- `Write` before it hands the segment to the connection's output.
pub write : ℕ → Bool → ReceivingWorker → AckSegment → AckSegment
write conversation ready_to_close w seg = record seg {
  conv = conversation;
  receiving_next = w.next_number;
  receiving_window = add32 w.next_number w.window_size;
  option = if ready_to_close then segment_option_close else 0;
}

pub flush : ℕ → Bool → ℕ → ReceivingWorker → ℕ → Outcome (ReceivingWorker × List AckSegment)
flush conversation ready_to_close rto w current = do
  (acklist, written) ← AckList.flush (write conversation ready_to_close w) w.acklist current rto
  done (record w { acklist = acklist }, written)

pub update_necessary : ReceivingWorker → Bool
update_necessary w = ltb 0 (length w.acklist.numbers)
