-- ===== src/Kcp/Sending/Numbers.antt =====
-- SendingWorker: only `Push` hands out numbers.
use v2root_core.Base.{
  ℕ, ◌+◌, ◌%◌, ◌^◌, ◌≡◌, refl, ◌∙◌, Bool, true, false, Option, none, some, List, [], ◌∷◌, arith,
  if◌then◌else◌, ltb,
}
use v2root_core.Kcp.Segment.{AckSegment}
use v2root_core.Kcp.Rtt.{RoundTripInfo}
use v2root_core.Kcp.Window
use v2root_core.Kcp.Window.{Flushed}
use v2root_core.Kcp.Sending.{
  Settings, SendingWorker, find_first_unacknowledged, process_receiving_next, process_ack,
  process_numbers, process_segment, push, on_packet_loss, report_loss, flush_open, flush,
  flush_limit, write, close_write,
}

pub push_next :
    (w : SendingWorker) (b : List ℕ)
    → (push w b).1 ≡ true
    → (push w b).0.next_number ≡ (w.next_number + 1) % 2 ^ 32
unfolding push
push_next w b h = ground arith

pub process_receiving_next_next :
    (w : SendingWorker) (n : ℕ) → (process_receiving_next w n).next_number ≡ w.next_number
unfolding process_receiving_next find_first_unacknowledged
process_receiving_next_next w n = refl

process_ack_next : (w : SendingWorker) (n : ℕ) → (process_ack w n).0.next_number ≡ w.next_number
unfolding process_ack find_first_unacknowledged
process_ack_next w n = ground arith

process_numbers_next :
    (w : SendingWorker) (m : ℕ) (r : Bool) (ns : List ℕ)
    → (process_numbers w m r ns).0.next_number ≡ w.next_number
unfolding process_numbers
process_numbers_next w m r [] = refl
process_numbers_next w m r (n ∷ ns) =
    process_numbers_next (process_ack w n).0 _ _ ns ∙ process_ack_next w n

pub process_segment_next :
    (w : SendingWorker) (rtt : RoundTripInfo) (now : ℕ) (seg : AckSegment) (rto : ℕ)
    → (process_segment w rtt now seg rto).0.next_number ≡ w.next_number
unfolding process_segment
process_segment_next w rtt now seg rto = ground (
  arith,
  process_receiving_next_next (record w { remote_next_number = remote }) seg.receiving_next,
  process_numbers_next
      (process_receiving_next (record w { remote_next_number = remote }) seg.receiving_next) 0 false
      seg.number_list,
)
  where
    remote : ℕ
    remote =
        if ltb w.remote_next_number seg.receiving_window
        then seg.receiving_window
        else w.remote_next_number

report_loss_next :
    (c : Settings) (rto : ℕ) (w : SendingWorker) (rate : Option ℕ)
    → (report_loss c rto w rate).next_number ≡ w.next_number
unfolding report_loss on_packet_loss
report_loss_next c rto w none = refl
report_loss_next c rto w (some rate) = ground arith

pub flush_next :
    (c : Settings) (closing : Bool) (rto : ℕ) (w : SendingWorker) (now : ℕ)
    → (flush c closing rto w now).worker.next_number ≡ w.next_number
unfolding flush flush_open
flush_next c closing rto w now =
    ground (arith, report_loss_next c rto (record w { window = r.window }) r.loss_rate)
  where
    r : Flushed
    r = Window.flush (write c closing w.first_unacknowledged) w.window now rto (flush_limit c w)

pub close_write_next : (w : SendingWorker) → (close_write w).next_number ≡ w.next_number
unfolding close_write
close_write_next w = refl
