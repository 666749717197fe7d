-- ===== src/Kcp/Link.antt =====
-- A sending worker (sending.go) and a receiving worker (receiving.go) of two connections, joined by
-- a network that loses, repeats, delays and reorders what it carries, and that may forge
-- acknowledgements. A data segment arrives as the wire format carries it: without the sender's
-- resend time and count.
pub mod Delivery
mod Tests
use v2root_core.Base.{ℕ, ◌+◌, ◌<◌, ◌^◌, ◌≡◌, Bool, true, none, List, [], ◌∷◌, ◌++◌, length}
use v2root_core.Base.Outcome.{done}
use v2root_core.Kcp.Segment.{DataSegment, AckSegment}
use v2root_core.Kcp.Rtt.{RoundTripInfo}
use v2root_core.Kcp.Sending
use v2root_core.Kcp.Sending.{Settings, SendingWorker, new_sending_worker}
use v2root_core.Kcp.Receiving
use v2root_core.Kcp.Receiving.{ReceivingWorker, new_receiving_worker}

-- `accepted` holds the buffers that `Push` took, `wire` every data segment that was ever written,
-- `delivered` what the reader was handed.
pub record Link : Type 0 where
  pub sender : SendingWorker
  pub accepted : List (List ℕ)
  pub wire : List DataSegment
  pub receiver : ReceivingWorker
  pub delivered : List (List ℕ)

pub new_link : Settings → ℕ → Link
new_link s in_flight = record {
  sender = new_sending_worker s;
  accepted = [];
  wire = [];
  receiver = new_receiving_worker in_flight;
  delivered = [];
}

-- What the network makes of a segment.
abbrev pub arrived : DataSegment → DataSegment
arrived seg = record seg { timeout = 0; transmit = 0 }

pub data Step (l : Link) : Link → Type 0 where
  pushes :
      (b : List ℕ)
      → (Sending.push l.sender b).1 ≡ true
      → length l.accepted + 1 < 2 ^ 32
      → Step l (record l { sender = (Sending.push l.sender b).0; accepted = l.accepted ++ b ∷ [] })
  flushes :
      (s : Settings) (closing : Bool) (rto now : ℕ)
      → Step l (record l {
        sender = (Sending.flush s closing rto l.sender now).worker;
        wire = l.wire ++ (Sending.flush s closing rto l.sender now).written;
      })
  hears_ack :
      (rtt : RoundTripInfo) (now rto : ℕ) (seg : AckSegment)
      → Step l (record l { sender = (Sending.process_segment l.sender rtt now seg rto).0 })
  hears_next :
      (number : ℕ) → Step l (record l { sender = Sending.process_receiving_next l.sender number })
  stops_writing : Step l (record l { sender = Sending.close_write l.sender })
  receives :
      (front back : List DataSegment) (seg : DataSegment) (w : ReceivingWorker)
      → l.wire ≡ front ++ seg ∷ back
      → Receiving.process_segment l.receiver (arrived seg) ≡ done w
      → Step l (record l { receiver = w })
  forgets_acks :
      (number : ℕ) (w : ReceivingWorker)
      → Receiving.process_sending_next l.receiver number ≡ done w
      → Step l (record l { receiver = w })
  reads :
      l.receiver.left_over ≡ none
      → Step l (record l {
        receiver = (Receiving.read_multi_buffer l.receiver).1;
        delivered = l.delivered ++ (Receiving.read_multi_buffer l.receiver).0;
      })

pub data Reaches (l : Link) : Link → Type 0 where
  here : Reaches l l
  next : {m n : Link} → Reaches l m → Step m n → Reaches l n
