-- ===== src/Kcp/Sending/Limits.antt =====
-- SendingWorker: flow control, congestion control, and which acknowledgements count.
use v2root_core.Base.{
  ℕ, ◌+◌, ◌-◌, ◌*◌, ◌%◌, ◌≤◌, ◌<◌, ◌^◌, ◌≡◌, Bool, true, false, List, length, ltb, if◌then◌else◌,
  arith, not, ◌⊎◌,
}
use v2root_core.Base.Words.{IsU32, sub32}
use v2root_core.Kcp.Window
use v2root_core.Kcp.Window.{Flushed}
use v2root_core.Kcp.Window.Flush.{budget, flush-length-le}
use v2root_core.Kcp.Sending.{
  Settings, SendingWorker, is_outside, push, write, on_packet_loss, flush_open, flush, flush_limit,
}

-- The number of segments that a flush may send before the magic factor: what the peer's window has
-- room for, the configured in-flight size and, under congestion control, the control window.
abbrev pub allowance : Settings → SendingWorker → ℕ
allowance c w =
    let room = w.remote_next_number - w.first_unacknowledged in
    let flow = if ltb room c.in_flight then room else c.in_flight in
    if c.congestion then (if ltb w.control_window flow then w.control_window else flow) else flow

-- Where the peer's window is not behind the worker and the product fits 32 bits, the limit that
-- `Flush` computes on uint32 is twenty times the allowance.
pub flush_limit-allowance :
    (c : Settings) (w : SendingWorker)
    → w.first_unacknowledged ≤ w.remote_next_number
    → IsU32 w.remote_next_number
    → c.in_flight * 20 < 2 ^ 32
    → flush_limit c w ≡ allowance c w * 20
unfolding flush_limit
flush_limit-allowance c w h r f = ground arith

-- Flow control: a flush sends at most twenty times the allowance, but never forbids a single
-- segment. Nothing is sent after `Release`.
pub length-flush-le :
    (c : Settings) (ready_to_close : Bool) (rto : ℕ) (w : SendingWorker) (current : ℕ)
    → length w.window.cache < 2 ^ 32
    → w.first_unacknowledged ≤ w.remote_next_number
    → IsU32 w.remote_next_number
    → c.in_flight * 20 < 2 ^ 32
    → length (flush c ready_to_close rto w current).written
      ≤ (if w.closed then 0 else budget (allowance c w * 20))
unfolding flush flush_open
length-flush-le c ready_to_close rto w current n h r f = ground (
  arith,
  flush_limit-allowance c w h r f,
  flush-length-le (write c ready_to_close w.first_unacknowledged) current rto (flush_limit c w)
      w.window n,
)

-- With congestion control on, a positive retransmission timeout, an in-flight size of at least 8 of
-- which eight times fits 32 bits, and a control window that is already between 16 and twice the
-- in-flight size, a loss report keeps it between those. A report of at least 15 percent never widens
-- the window, and one of at most 5 percent never narrows it.
pub on_packet_loss_bounds :
    (c : Settings) (rto : ℕ) (w : SendingWorker) (rate : ℕ)
    → c.congestion ≡ true
    → 0 < rto
    → 8 ≤ c.in_flight
    → c.in_flight * 8 < 2 ^ 32
    → (16 ≤ w.control_window) × (w.control_window ≤ 2 * c.in_flight)
    → let v = (on_packet_loss c rto w rate).control_window in
      (16 ≤ v)
      × (v ≤ 2 * c.in_flight)
      × ((rate < 15) ⊎ (v ≤ w.control_window))
      × ((5 < rate) ⊎ (w.control_window ≤ v))
unfolding on_packet_loss
on_packet_loss_bounds c rto w rate g t i f b =
    (ground arith, ground arith, ground arith, ground arith)

-- With at least one and fewer than 2^31 - 1 numbers handed out ahead of the acknowledged ones, an acknowledgement
-- is considered exactly if its number lies between `first_unacknowledged` and `next_number`, also
-- where the numbers wrap around: the window then covers the `d` numbers from `first` on.
pub is_outside_iff :
    (w : SendingWorker) (d number : ℕ)
    → IsU32 w.first_unacknowledged
    → IsU32 number
    → 0 < d
    → d < 0x7FFFFFFF
    → w.next_number ≡ (w.first_unacknowledged + d) % 2 ^ 32
    → is_outside w number ≡ not (ltb (sub32 number w.first_unacknowledged) d)
unfolding is_outside
is_outside_iff w d number hf hn hp hd e = ground arith

-- `Push` takes a buffer exactly if the worker is open and holds no more segments than its window
-- size; the buffer is then last in the window, under the next number.
pub push_iff :
    (w : SendingWorker) (b : List ℕ)
    → (((push w b).1 ≡ true)
        × (w.closed ≡ false)
        × (length w.window.cache ≤ w.window_size)
        × ((push w b).0.next_number ≡ (w.next_number + 1) % 2 ^ 32)
        × ((push w b).0.window ≡ Window.push w.window w.next_number b))
      ⊎ (((push w b).0 ≡ w)
          × ((push w b).1 ≡ false)
          × ((w.closed ≡ true) ⊎ (w.window_size < length w.window.cache)))
unfolding push
push_iff w b = ground arith
