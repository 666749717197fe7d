-- ===== src/Kcp/Receiving/Acks.antt =====
-- ReceivingWorker: the slices of the acknowledgement list keep one length, so no method faults.
use v2root_core.Base.{ℕ, ◌≡◌, refl, Bool, List, [], leb, Bool-cases, inl, inr}
use v2root_core.Base.Words.{sub32}
use v2root_core.Base.Outcome.{done}
use v2root_core.Kcp.Segment.{DataSegment, AckSegment}
use v2root_core.Kcp.AckList
use v2root_core.Kcp.AckList.{AckList}
use v2root_core.Kcp.AckList.Clear.{Entry, Holds, clear-Holds, add-Holds, new_ack_list-Holds}
use v2root_core.Kcp.AckList.Flush.{flush-postponed}
use v2root_core.Kcp.Receiving.{
  ReceivingWorker, new_receiving_worker, process_segment, process_sending_next, release, set, write,
  flush,
}

abbrev pub HasEntries : ReceivingWorker → Type 0
HasEntries w = (es : List Entry) × Holds w.acklist es

pub new_receiving_worker-HasEntries : (n : ℕ) → HasEntries (new_receiving_worker n)
unfolding new_receiving_worker
new_receiving_worker-HasEntries n = ([], new_ack_list-Holds)

pub process_segment-HasEntries :
    (w : ReceivingWorker) (seg : DataSegment)
    → HasEntries w
    → (v : ReceivingWorker) × (process_segment w seg ≡ done v) × HasEntries v
unfolding process_segment
process_segment-HasEntries w seg (es, h) =
    elim (Bool-cases (leb w.window_size (sub32 seg.number w.next_number))) [
      | inl e ↦ (w, rw e, (es, h))
      | inr e ↦
          let (l, cleared, held) = clear-Holds seg.sending_next w.acklist es h in
          (
            record w {
              acklist = AckList.add l seg.number seg.timestamp;
              window = (set w.window seg.number seg).0;
            },
            rw (e, cleared),
            (_, add-Holds l _ seg.number seg.timestamp held),
          )
    ]

pub process_sending_next-HasEntries :
    (w : ReceivingWorker) (number : ℕ)
    → HasEntries w
    → (v : ReceivingWorker) × (process_sending_next w number ≡ done v) × HasEntries v
unfolding process_sending_next
process_sending_next-HasEntries w number (es, h) =
    let (l, cleared, held) = clear-Holds number w.acklist es h in
    (record w { acklist = l }, rw cleared, (_, held))

pub flush-HasEntries :
    (conversation : ℕ) (closing : Bool) (rto : ℕ) (w : ReceivingWorker) (now : ℕ)
    → HasEntries w
    → (v : ReceivingWorker) × (acks : List AckSegment) × (flush conversation closing rto w now
        ≡ done (v, acks))
      × HasEntries v
unfolding flush
flush-HasEntries conversation closing rto w now (es, h) =
    let (l, acks, flushed, held, _, _, _) =
      flush-postponed (write conversation closing w) now rto w.acklist es
        (λ seg. unfold write in refl) h in
    (record w { acklist = l }, acks, rw flushed, (_, held))

pub release-HasEntries : (w : ReceivingWorker) → HasEntries w → HasEntries (release w)
unfolding release
release-HasEntries w h = h
