-- ===== src/Kcp/Window.antt =====
-- transport/internet/kcp/sending.go, SendingWindow: the segments that wait for an acknowledgement.
-- The list is `cache`, front first. A visitor that mutates the segments it is shown returns them;
-- `write` stands for the window's writer, which fills in a segment's header and sends it.
pub mod Order
pub mod Flush
mod Tests
use v2root_core.Base.{
  ℕ, suc, ◌+◌, ◌-◌, ◌*◌, ◌/◌, Bool, true, false, ◌&&◌, ◌||◌, not, Option, none, some, List, [], ◌∷◌,
  ◌++◌, length, ltb, leb, ◌==◌, if◌then◌else◌,
}
use v2root_core.Base.Words.{add32, sub32, mul32}
use v2root_core.Kcp.Segment.{DataSegment, new_data_segment}

pub record SendingWindow : Type 0 where
  pub cache : List DataSegment
  pub total_in_flight_size : ℕ

abbrev pub new_sending_window : SendingWindow
new_sending_window = record { cache = []; total_in_flight_size = 0 }

pub release : SendingWindow → SendingWindow
release w = record w { cache = [] }

abbrev pub len : SendingWindow → ℕ
len w = length w.cache

abbrev pub null : List DataSegment → Bool
null [] = true
null (_ ∷ _) = false

abbrev pub is_empty : SendingWindow → Bool
is_empty w = null w.cache

unfoldable pub push : SendingWindow → ℕ → List ℕ → SendingWindow
push w number b = record w {
  cache = w.cache ++ record new_data_segment { number = number; payload = some b } ∷ [];
}

-- `FirstNumber`, which the callers guard by `IsEmpty`; `none` is its nil dereference.
abbrev pub first_number : SendingWindow → Option ℕ
first_number w = elim w.cache [ [] ↦ none | seg ∷ _ ↦ some seg.number ]

pub clear_cache : ℕ → List DataSegment → List DataSegment
clear_cache una [] = []
clear_cache una (seg ∷ rest) =
    let cleared = clear_cache una rest in if leb una seg.number then seg ∷ rest else cleared

pub clear : SendingWindow → ℕ → SendingWindow
clear w una = record w { cache = clear_cache una w.cache }

-- `Visit`: front to back, until the visitor answers false. The visitor's captured variables are
-- the state `S`.
unfoldable pub visit {ℓ} :
    {S : Type ℓ}
    → (S → DataSegment → S × DataSegment × Bool)
    → S
    → List DataSegment
    → S × List DataSegment
visit visitor s [] = (s, [])
visit visitor s (seg ∷ rest) =
    let (s', seg', more) = visitor s seg in
    let (t, rest') = visit visitor s' rest in if more then (t, seg' ∷ rest') else (s', seg' ∷ rest)

-- `number` is at or before the segment's own.
pub fast_ack_stops : ℕ → DataSegment → Bool
fast_ack_stops number seg = number == seg.number || ltb 0x7FFFFFFF (sub32 number seg.number)

pub fast_ack_visitor : ℕ → ℕ → Unit {0} → DataSegment → Unit {0} × DataSegment × Bool
unfolding fast_ack_stops
fast_ack_visitor number rto s seg =
    if fast_ack_stops number seg
    then (s, seg, false)
    else if ltb 0 seg.transmit && ltb (rto / 3) seg.timeout
    then (s, record seg { timeout = sub32 seg.timeout (rto / 3) }, true)
    else (s, seg, true)

pub handle_fast_ack : SendingWindow → ℕ → ℕ → SendingWindow
unfolding visit fast_ack_visitor
handle_fast_ack w number rto = record w {
  cache = (visit (fast_ack_visitor number rto) tt w.cache).1;
}

-- The variables that the visitor of `Flush` captures, and the segments that it has written.
pub record Flushing : Type 0 where
  pub lost : ℕ
  pub in_flight_size : ℕ
  pub total : ℕ
  pub written : List DataSegment

-- Its resend time has not come.
unfoldable pub is_waiting : ℕ → DataSegment → Bool
is_waiting current seg = leb 0x7FFFFFFF (sub32 current seg.timeout)

unfoldable pub resent : (DataSegment → DataSegment) → ℕ → ℕ → DataSegment → DataSegment
resent write current rto seg = write (record seg {
  timeout = add32 current rto;
  timestamp = current;
  transmit = add32 seg.transmit 1;
})

unfoldable pub flush_visitor :
    (DataSegment → DataSegment) → ℕ → ℕ → ℕ → Flushing → DataSegment → Flushing × DataSegment × Bool
flush_visitor write current rto max_in_flight_size s seg =
    if is_waiting current seg then (s, seg, true) else (
      record {
        lost = if seg.transmit == 0 then s.lost else add32 s.lost 1;
        in_flight_size = add32 s.in_flight_size 1;
        total = if seg.transmit == 0 then add32 s.total 1 else s.total;
        written = s.written ++ resent write current rto seg ∷ [];
      },
      resent write current rto seg,
      ltb (add32 s.in_flight_size 1) max_in_flight_size,
    )

-- The window, the segments written, and the loss rate if one is reported.
pub record Flushed : Type 0 where
  pub window : SendingWindow
  pub written : List DataSegment
  pub loss_rate : Option ℕ

unfoldable pub flush : (DataSegment → DataSegment) → SendingWindow → ℕ → ℕ → ℕ → Flushed
flush write w current rto max_in_flight_size =
    if is_empty w
    then record { window = w; written = []; loss_rate = none }
    else (let (s, cache) =
          visit (flush_visitor write current rto max_in_flight_size)
            (record { lost = 0; in_flight_size = 0; total = w.total_in_flight_size; written = [] })
            w.cache in
        record {
          window = record { cache = cache; total_in_flight_size = s.total };
          written = s.written;
          loss_rate =
              if ltb 0 s.in_flight_size && not (s.total == 0)
              then some (mul32 s.lost 100 / s.total)
              else none;
        })

-- `none`: the number is not there.
pub remove_cache : ℕ → List DataSegment → Option (List DataSegment)
remove_cache number [] = none
remove_cache number (seg ∷ rest) =
    let later = remove_cache number rest in
    if ltb number seg.number
    then none
    else if seg.number == number
    then some rest
    else elim later [ none ↦ none | some rest' ↦ some (seg ∷ rest') ]

pub remove : SendingWindow → ℕ → SendingWindow × Bool
remove w number = elim (remove_cache number w.cache) [
  | none ↦ (w, false)
  | some cache ↦ (
    record {
      cache = cache;
      total_in_flight_size =
          if ltb 0 w.total_in_flight_size
          then w.total_in_flight_size - 1
          else w.total_in_flight_size;
    },
    true,
  )
]
