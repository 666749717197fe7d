-- ===== src/Kcp/Link/Tests.antt =====
-- A run of a link: two buffers are pushed and flushed, arrive in the wrong order, and are read.
use v2root_core.Base.{ℕ, ◌≡◌, ◌≤◌, refl, true, false, some, List, [], ◌∷◌, ◌++◌, take, arith}
use v2root_core.Base.Outcome.{Outcome, done, invalid, panic}
use v2root_core.Kcp.Segment.{DataSegment}
use v2root_core.Base.Arrays
use v2root_core.Kcp.Window
use v2root_core.Kcp.AckList
use v2root_core.Kcp.Sending
use v2root_core.Kcp.Sending.{Settings, SendingWorker}
use v2root_core.Kcp.Receiving
use v2root_core.Kcp.Receiving.{ReceivingWorker}
use v2root_core.Kcp.Link.{
  Link, new_link, Reaches, here, next, pushes, flushes, receives, reads, arrived,
}
use v2root_core.Kcp.Link.Delivery.{delivered-prefix}

abbrev settings : Settings
settings = record { conversation = 7; congestion = true; in_flight = 40; buffer = 16 }

abbrev start : Link
start = new_link settings 8

abbrev one_pushed : Link
one_pushed = record start {
  sender = (Sending.push start.sender (1 ∷ [])).0;
  accepted = (1 ∷ []) ∷ [];
}

abbrev two_pushed : Link
two_pushed = record one_pushed {
  sender = (Sending.push one_pushed.sender (2 ∷ [])).0;
  accepted = (1 ∷ []) ∷ (2 ∷ []) ∷ [];
}

abbrev flushed : Link
flushed = record two_pushed {
  sender = (Sending.flush settings false 100 two_pushed.sender 50).worker;
  wire = (Sending.flush settings false 100 two_pushed.sender 50).written;
}

-- The segments on the wire.
abbrev sent : ℕ → List ℕ → DataSegment
sent number payload = record {
  conv = 7;
  option = 0;
  timestamp = 50;
  number = number;
  sending_next = 0;
  payload = some payload;
  timeout = 150;
  transmit = 1;
}

abbrev value_of : Outcome ReceivingWorker → ReceivingWorker → ReceivingWorker
value_of (done w) other = w
value_of invalid other = other
value_of panic other = other

abbrev hears : Link → DataSegment → Link
hears l seg = record l {
  receiver = value_of (Receiving.process_segment l.receiver (arrived seg)) l.receiver;
}

abbrev one_heard : Link
one_heard = hears flushed (sent 1 (2 ∷ []))

abbrev two_heard : Link
two_heard = hears one_heard (sent 0 (1 ∷ []))

abbrev finished : Link
finished = record two_heard {
  receiver = (Receiving.read_multi_buffer two_heard.receiver).1;
  delivered = [] ++ (Receiving.read_multi_buffer two_heard.receiver).0;
}

start-finished : Reaches start finished
unfolding new_link Sending.new_sending_worker Receiving.new_receiving_worker Sending.push
    Sending.flush Sending.flush_open Sending.flush_limit Sending.write Sending.report_loss
    Sending.on_packet_loss Window.push Window.flush Window.visit Window.flush_visitor
    Window.is_waiting Window.resent Receiving.process_segment Receiving.set
    Receiving.read_multi_buffer Receiving.read_window Receiving.read_loop Receiving.remove
    Receiving.delete AckList.clear AckList.clear_loop AckList.clear_entry AckList.add
    AckList.new_ack_list Arrays.index
start-finished =
    next
      (next
        (next
          (next
            (next (next here (pushes (1 ∷ []) refl (omega arith)))
              (pushes (2 ∷ []) refl (omega arith)))
            (flushes settings false 100 50))
          (receives (sent 0 (1 ∷ []) ∷ []) [] (sent 1 (2 ∷ [])) one_heard.receiver refl refl))
        (receives [] (sent 1 (2 ∷ []) ∷ []) (sent 0 (1 ∷ [])) two_heard.receiver refl refl))
      (reads refl)

delivered-prefix_example :
    (finished.delivered ≡ take finished.receiver.next_number ((1 ∷ []) ∷ (2 ∷ []) ∷ []))
    × (finished.receiver.next_number ≤ 2)
delivered-prefix_example = delivered-prefix settings 8 finished start-finished
