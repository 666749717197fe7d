-- ===== src/Kcp/Link/Delivery.antt =====
-- The stream that a receiver delivers is a prefix of the one that its sender accepted.
use v2root_core.Base.{
  ℕ, zero, suc, ◌+◌, ◌^◌, ◌≤◌, ◌<◌, ◌≡◌, refl, sym, ap, ◌∙◌, true, Option, none, some, List, [],
  ◌∷◌, ◌++◌, length, take, get_elem?, All, All-append, arith, length-append,
}
use mathlib.Core.Path.{subst}
use v2root_core.Base.Outcome.{done}
use v2root_core.Kcp.Segment.{DataSegment}
use v2root_core.Kcp.Sending
use v2root_core.Kcp.Sending.{Settings, SendingWorker}
use v2root_core.Kcp.Sending.Invariant.{
  IsSending, new_sending_worker-IsSending, push-IsSending, flush-IsSending,
  process_segment-IsSending, process_receiving_next-IsSending, close_write-IsSending,
  flush-AllData_written, IsSending-map,
}
use v2root_core.Kcp.Sending.Numbers.{
  push_next, flush_next, process_segment_next, process_receiving_next_next, close_write_next,
}
use v2root_core.Kcp.Receiving
use v2root_core.Kcp.Receiving.{ReceivingWorker, find}
use v2root_core.Kcp.Receiving.Acks.{HasEntries, new_receiving_worker-HasEntries}
use v2root_core.Kcp.Receiving.Prefix.{
  IsAccepted, HoldsAccepted, read_multi_buffer-take, read_multi_buffer-HasEntries,
  process_segment-AllEntries, process_sending_next-AllEntries,
}
use v2root_core.Kcp.Window.Order.{AllData, AllData-map}
use v2root_core.Kcp.Receiving.Map.{AllEntries-map}
use v2root_core.Kcp.Link.{
  Link, new_link, Step, pushes, flushes, hears_ack, hears_next, stops_writing, receives,
  forgets_acks, reads, Reaches, here, next, arrived,
}

pub record IsLinked (l : Link) : Type 0 where
  pub sending : IsSending (IsAccepted l.accepted) l.sender
  pub counted : l.sender.next_number ≡ length l.accepted
  pub small : length l.accepted < 2 ^ 32
  pub wired : AllData (IsAccepted l.accepted) l.wire
  pub received : HoldsAccepted l.accepted l.receiver.window
  pub acks : HasEntries l.receiver
  pub behind : l.receiver.next_number ≤ length l.accepted
  pub prefix : l.delivered ≡ take l.receiver.next_number l.accepted

get_elem?-append :
    (bs : List (List ℕ)) (b : List ℕ) (n : ℕ)
    → n < length bs
    → get_elem? (bs ++ b ∷ []) n ≡ get_elem? bs n
get_elem?-append [] b n h = absurd (omega arith)
get_elem?-append (x ∷ bs) b zero h = refl
get_elem?-append (x ∷ bs) b (suc n) h = get_elem?-append bs b n (omega arith)

take-append_le :
    (bs : List (List ℕ)) (b : List ℕ) (n : ℕ) → n ≤ length bs → take n (bs ++ b ∷ []) ≡ take n bs
take-append_le bs b zero h = refl
take-append_le [] b (suc n) h = absurd (omega arith)
take-append_le (x ∷ bs) b (suc n) h = ap (◌∷◌ x) (take-append_le bs b n (omega arith))

IsAccepted-append :
    (bs : List (List ℕ)) (b : List ℕ) (n : ℕ) (p : Option (List ℕ))
    → IsAccepted bs n p
    → IsAccepted (bs ++ b ∷ []) n p
IsAccepted-append bs b n p (lt, e) =
    (omega (arith, length-append bs (b ∷ [])), e ∙ sym (get_elem?-append bs b n lt))

get_elem?_end : (bs : List (List ℕ)) (b : List ℕ) → get_elem? (bs ++ b ∷ []) (length bs) ≡ some b
get_elem?_end [] b = refl
get_elem?_end (x ∷ bs) b = get_elem?_end bs b

All-middle :
    (P : DataSegment → Type 0) (xs ys : List DataSegment) (x : DataSegment)
    → All P (xs ++ x ∷ ys)
    → P x
All-middle P [] ys x a = a.0
All-middle P (z ∷ xs) ys x a = All-middle P xs ys x a.1

done-injective : {v w : ReceivingWorker} → done v ≡ done w → v ≡ w
done-injective e = cc

-- A receiver that took in something new, without handing anything out.
with_receiver :
    (l : Link) (v w : ReceivingWorker)
    → IsLinked l
    → done v ≡ done w
    → HasEntries v
    → HoldsAccepted l.accepted v.window
    → v.next_number ≡ l.receiver.next_number
    → IsLinked (record l { receiver = w })
with_receiver l v w i e h a n =
    subst (λ u. IsLinked (record l { receiver = u })) (done-injective e)
      (record {
        sending = i.sending;
        counted = i.counted;
        small = i.small;
        wired = i.wired;
        received = a;
        acks = h;
        behind = omega (arith, i.behind, n);
        prefix = rw n i.prefix;
      })

-- A sender that moved without a push.
with_sender :
    (l : Link) (w : SendingWorker) (more : List DataSegment)
    → IsLinked l
    → IsSending (IsAccepted l.accepted) w
    → w.next_number ≡ l.sender.next_number
    → AllData (IsAccepted l.accepted) more
    → IsLinked (record l { sender = w; wire = l.wire ++ more })
with_sender l w more i s n a = record {
  sending = s;
  counted = n ∙ i.counted;
  small = i.small;
  wired = All-append _ l.wire more i.wired a;
  received = i.received;
  acks = i.acks;
  behind = i.behind;
  prefix = i.prefix;
}

with_new_sender :
    (l : Link) (w : SendingWorker)
    → IsLinked l
    → IsSending (IsAccepted l.accepted) w
    → w.next_number ≡ l.sender.next_number
    → IsLinked (record l { sender = w })
with_new_sender l w i s n = record {
  sending = s;
  counted = n ∙ i.counted;
  small = i.small;
  wired = i.wired;
  received = i.received;
  acks = i.acks;
  behind = i.behind;
  prefix = i.prefix;
}

new_link-IsLinked : (s : Settings) (in_flight : ℕ) → IsLinked (new_link s in_flight)
unfolding new_link Sending.new_sending_worker Receiving.new_receiving_worker
new_link-IsLinked s in_flight = record {
  sending = new_sending_worker-IsSending _ s;
  counted = refl;
  small = omega arith;
  wired = tt;
  received = tt;
  acks = new_receiving_worker-HasEntries in_flight;
  behind = omega arith;
  prefix = refl;
}

-- A taken buffer: nothing that was accepted before moves.
pushed :
    (l : Link) (b : List ℕ)
    → IsLinked l
    → (Sending.push l.sender b).1 ≡ true
    → length l.accepted + 1 < 2 ^ 32
    → IsLinked (record l { sender = (Sending.push l.sender b).0; accepted = l.accepted ++ b ∷ [] })
pushed l b i t h = record {
  sending =
      push-IsSending _ l.sender b
        (IsSending-map _ _ l.sender (IsAccepted-append l.accepted b) i.sending)
        (omega (arith, i.counted, h))
        (
          omega (arith, i.counted, length-append l.accepted (b ∷ [])),
          rw i.counted (sym (get_elem?_end l.accepted b)),
        );
  counted = push_next l.sender b t ∙ omega (arith, i.counted, h, length-append l.accepted (b ∷ []));
  small = omega (arith, h, length-append l.accepted (b ∷ []));
  wired = AllData-map _ _ l.wire (IsAccepted-append l.accepted b) i.wired;
  received =
      AllEntries-map _ _ l.receiver.window (λ n seg. IsAccepted-append l.accepted b n seg.payload)
        i.received;
  acks = i.acks;
  behind = omega (arith, i.behind, length-append l.accepted (b ∷ []));
  prefix = i.prefix ∙ sym (take-append_le l.accepted b l.receiver.next_number i.behind);
}

read :
    (l : Link)
    → IsLinked l
    → l.receiver.left_over ≡ none
    → IsLinked (record l {
      receiver = (Receiving.read_multi_buffer l.receiver).1;
      delivered = l.delivered ++ (Receiving.read_multi_buffer l.receiver).0;
    })
read l i e =
    let (handed, le, held) =
      read_multi_buffer-take l.accepted i.small l.receiver e i.received i.behind in
    record {
      sending = i.sending;
      counted = i.counted;
      small = i.small;
      wired = i.wired;
      received = held;
      acks = read_multi_buffer-HasEntries l.receiver i.acks;
      behind = le;
      prefix = ap (λ d. d ++ (Receiving.read_multi_buffer l.receiver).0) i.prefix ∙ handed;
    }

Step-IsLinked : {l m : Link} → Step l m → IsLinked l → IsLinked m
Step-IsLinked {l} (pushes b t h) i = pushed l b i t h
Step-IsLinked {l} (flushes s closing rto now) i =
    with_sender l (Sending.flush s closing rto l.sender now).worker
      (Sending.flush s closing rto l.sender now).written i
      (flush-IsSending _ s closing rto l.sender now i.sending)
      (flush_next s closing rto l.sender now)
      (flush-AllData_written _ s closing rto l.sender now i.sending)
Step-IsLinked {l} (hears_ack rtt now rto seg) i =
    with_new_sender l (Sending.process_segment l.sender rtt now seg rto).0 i
      (process_segment-IsSending _ l.sender rtt now seg rto i.sending)
      (process_segment_next l.sender rtt now seg rto)
Step-IsLinked {l} (hears_next number) i =
    with_new_sender l (Sending.process_receiving_next l.sender number) i
      (process_receiving_next-IsSending _ l.sender number i.sending)
      (process_receiving_next_next l.sender number)
Step-IsLinked {l} stops_writing i =
    with_new_sender l (Sending.close_write l.sender) i (close_write-IsSending _ l.sender i.sending)
      (close_write_next l.sender)
Step-IsLinked {l} (receives front back seg w onto e) i =
    let (v, d, h, a, n) =
      process_segment-AllEntries (λ n s. IsAccepted l.accepted n s.payload) l.receiver (arrived seg)
        (All-middle _ front back seg (subst (AllData (IsAccepted l.accepted)) onto i.wired))
        i.received i.acks in
    with_receiver l v w i (sym d ∙ e) h a n
Step-IsLinked {l} (forgets_acks number w e) i =
    let (v, d, h, a, n) =
      process_sending_next-AllEntries (λ n s. IsAccepted l.accepted n s.payload) l.receiver number
        i.received i.acks in
    with_receiver l v w i (sym d ∙ e) h a n
Step-IsLinked {l} (reads e) i = read l i e

Reaches-IsLinked : {l m : Link} → Reaches l m → IsLinked l → IsLinked m
Reaches-IsLinked here i = i
Reaches-IsLinked (next r s) i = Step-IsLinked s (Reaches-IsLinked r i)

-- Over a network that loses, repeats, delays and reorders data segments, and with any
-- acknowledgements at all, what the reader was handed is the sequence of the first `nextNumber`
-- buffers that `Push` took: nothing is lost, repeated, reordered or altered in between. Fewer than
-- 2^32 buffers are pushed.
pub delivered-prefix :
    (s : Settings) (in_flight : ℕ) (l : Link)
    → Reaches (new_link s in_flight) l
    → (l.delivered ≡ take l.receiver.next_number l.accepted)
      × (l.receiver.next_number ≤ length l.accepted)
delivered-prefix s in_flight l r =
    let i = Reaches-IsLinked r (new_link-IsLinked s in_flight) in (i.prefix, i.behind)

-- In any link that was reached, any data segment at all is taken in by the receiver without a fault.
pub receives-done :
    (s : Settings) (in_flight : ℕ) (l : Link) (seg : DataSegment)
    → Reaches (new_link s in_flight) l
    → (w : ReceivingWorker) × (Receiving.process_segment l.receiver seg ≡ done w)
receives-done s in_flight l seg r =
    let i = Reaches-IsLinked r (new_link-IsLinked s in_flight) in
    let (v, d, _, _, _) =
      process_segment-AllEntries (λ _ _. Unit {0}) l.receiver seg tt
        (AllEntries-map _ _ l.receiver.window (λ _ _ _. tt) i.received) i.acks in
    (v, d)
