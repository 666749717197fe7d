-- ===== src/Kcp/Sending.antt =====
-- transport/internet/kcp/sending.go, SendingWorker. A method takes what it reads of its connection
-- as arguments: the settings, whether the state is StateReadyToClose, and the timeout. It returns
-- the new worker and what it does to the connection.
pub mod Invariant
pub mod Limits
pub mod Numbers
mod Tests
use v2root_core.Base.{
  ℕ, ◌+◌, ◌*◌, ◌/◌, Bool, true, false, ◌&&◌, ◌||◌, not, Option, none, some, List, [], ◌∷◌, length,
  ltb, leb, ◌==◌, if◌then◌else◌,
}
use v2root_core.Base.Words.{add32, sub32, mul32}
use v2root_core.Kcp.Segment.{DataSegment, AckSegment, is_empty, segment_option_close}
use v2root_core.Kcp.Rtt.{RoundTripInfo, update, timeout}
use v2root_core.Kcp.Window
use v2root_core.Kcp.Window.{SendingWindow, Flushed, new_sending_window}

-- What the worker asks of the connection's metadata and configuration: `in_flight` is the result of
-- GetSendingInFlightSize, `buffer` that of GetSendingBufferSize.
pub record Settings : Type 0 where
  pub conversation : ℕ
  pub congestion : Bool
  pub in_flight : ℕ
  pub buffer : ℕ

pub record SendingWorker : Type 0 where
  pub window : SendingWindow
  pub first_unacknowledged : ℕ
  pub next_number : ℕ
  pub remote_next_number : ℕ
  pub control_window : ℕ
  pub fast_resend : ℕ
  pub window_size : ℕ
  pub first_unacknowledged_updated : Bool
  pub closed : Bool

unfoldable pub new_sending_worker : Settings → SendingWorker
new_sending_worker c = record {
  window = new_sending_window;
  first_unacknowledged = 0;
  next_number = 0;
  remote_next_number = 32;
  control_window = c.in_flight;
  fast_resend = 2;
  window_size = c.buffer;
  first_unacknowledged_updated = false;
  closed = false;
}

pub release : SendingWorker → SendingWorker
release w = record w { window = Window.release w.window; closed = true }

-- The number of the segment in front, or the next one to be given out.
pub front_number : List DataSegment → ℕ → ℕ
front_number [] next = next
front_number (seg ∷ _) next = seg.number

pub find_first_unacknowledged : SendingWorker → SendingWorker
find_first_unacknowledged w =
    let first = front_number w.window.cache w.next_number in
    record w {
      first_unacknowledged = first;
      first_unacknowledged_updated =
          not (w.first_unacknowledged == first) || w.first_unacknowledged_updated;
    }

pub process_receiving_next : SendingWorker → ℕ → SendingWorker
process_receiving_next w next_number =
    find_first_unacknowledged (record w { window = Window.clear w.window next_number })

pub is_outside : SendingWorker → ℕ → Bool
is_outside w number =
    ltb 0x7FFFFFFF (sub32 number w.first_unacknowledged)
    || ltb (sub32 number w.next_number) 0x7FFFFFFF

pub process_ack : SendingWorker → ℕ → SendingWorker × Bool
process_ack w number =
    if is_outside w number
    then (w, false)
    else (let (window, removed) = Window.remove w.window number in
        if removed
        then (find_first_unacknowledged (record w { window = window }), true)
        else (record w { window = window }, false))

-- The loop over the numbers: the worker, `maxack` and `maxackRemoved`.
pub process_numbers : SendingWorker → ℕ → Bool → List ℕ → SendingWorker × ℕ × Bool
process_numbers w maxack maxack_removed [] = (w, maxack, maxack_removed)
process_numbers w maxack maxack_removed (number ∷ numbers) =
    let (w', removed) = process_ack w number in
    let larger = ltb maxack number in
    process_numbers w' (if larger then number else maxack)
      (if larger then removed else maxack_removed) numbers

pub process_segment :
    SendingWorker → RoundTripInfo → ℕ → AckSegment → ℕ → SendingWorker × RoundTripInfo
process_segment w rtt current seg rto =
    if w.closed
    then (w, rtt)
    else (let remote =
          if ltb w.remote_next_number seg.receiving_window
          then seg.receiving_window
          else w.remote_next_number in
        let w1 =
          process_receiving_next (record w { remote_next_number = remote }) seg.receiving_next in
        if is_empty seg
        then (w1, rtt)
        else (let (w2, maxack, removed) = process_numbers w1 0 false seg.number_list in
            if removed
            then (
              record w2 { window = Window.handle_fast_ack w2.window maxack rto },
              if ltb (sub32 current seg.timestamp) 10000
                  then update rtt (sub32 current seg.timestamp) current
                  else rtt,
            )
            else (w2, rtt)))

unfoldable pub push : SendingWorker → List ℕ → SendingWorker × Bool
push w b =
    if w.closed
    then (w, false)
    else if ltb w.window_size (Window.len w.window)
    then (w, false)
    else (
      record w {
        window = Window.push w.window w.next_number b;
        next_number = add32 w.next_number 1;
      },
      true,
    )

-- `Write` before it hands the segment to the connection's output.
unfoldable pub write : Settings → Bool → ℕ → DataSegment → DataSegment
write c ready_to_close first seg = record seg {
  conv = c.conversation;
  sending_next = first;
  option = if ready_to_close then segment_option_close else 0;
}

unfoldable pub on_packet_loss : Settings → ℕ → SendingWorker → ℕ → SendingWorker
on_packet_loss c rto w loss_rate =
    if not c.congestion || rto == 0
    then w
    else (let cw1 =
          if leb 15 loss_rate
          then mul32 3 w.control_window / 4
          else if leb loss_rate 5
          then add32 w.control_window (w.control_window / 4)
          else w.control_window in
        let cw2 = if ltb cw1 16 then 16 else cw1 in
        record w {
          control_window = if ltb (mul32 2 c.in_flight) cw2 then mul32 2 c.in_flight else cw2;
        })

-- `cwnd` as `Flush` computes it.
unfoldable pub flush_limit : Settings → SendingWorker → ℕ
flush_limit c w =
    let room = sub32 w.remote_next_number w.first_unacknowledged in
    let cwnd1 = if ltb room c.in_flight then room else c.in_flight in
    let cwnd2 = if c.congestion && ltb w.control_window cwnd1 then w.control_window else cwnd1 in
    mul32 cwnd2 20

-- The worker, the segments written, and whether a ping follows.
pub record FlushedWorker : Type 0 where
  pub worker : SendingWorker
  pub written : List DataSegment
  pub ping : Bool

unfoldable pub report_loss : Settings → ℕ → SendingWorker → Option ℕ → SendingWorker
report_loss c rto w none = w
report_loss c rto w (some rate) = on_packet_loss c rto w rate

unfoldable pub flush_open : Settings → Bool → ℕ → SendingWorker → ℕ → FlushedWorker
unfolding report_loss
flush_open c ready_to_close rto w current =
    if Window.is_empty w.window
    then record {
      worker = record w { first_unacknowledged_updated = false };
      written = [];
      ping = w.first_unacknowledged_updated;
    }
    else (let r =
          Window.flush (write c ready_to_close w.first_unacknowledged) w.window current rto
            (flush_limit c w) in
        let w' = report_loss c rto (record w { window = r.window }) r.loss_rate in
        record {
          worker = record w' { first_unacknowledged_updated = false };
          written = r.written;
          ping = false;
        })

unfoldable pub flush : Settings → Bool → ℕ → SendingWorker → ℕ → FlushedWorker
unfolding flush_open
flush c ready_to_close rto w current =
    if w.closed
    then record { worker = w; written = []; ping = false }
    else flush_open c ready_to_close rto w current

pub close_write : SendingWorker → SendingWorker
close_write w = record w { window = Window.clear w.window 0xFFFFFFFF }

pub update_necessary : SendingWorker → Bool
update_necessary w = not (Window.is_empty w.window)
