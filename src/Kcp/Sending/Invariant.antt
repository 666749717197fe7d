-- ===== src/Kcp/Sending/Invariant.antt =====
-- SendingWorker: what every method keeps of the window and of the numbers around it.
use v2root_core.Base.{
  ℕ, ◌+◌, ◌≤◌, ◌<◌, ◌^◌, refl, Bool, false, Option, none, some, List, [], ◌∷◌, ltb, if◌then◌else◌,
  arith,
}
use v2root_core.Kcp.Segment.{DataSegment, AckSegment}
use v2root_core.Kcp.Rtt.{RoundTripInfo}
use v2root_core.Kcp.Window
use v2root_core.Kcp.Window.{SendingWindow, Flushed}
use v2root_core.Kcp.Window.Order.{
  Ascends, AllData, AllData-map, clear-Ascends, clear-AllData, remove-Ascends, remove-AllData,
  handle_fast_ack-Ascends, handle_fast_ack-AllData, push-Ascends, push-AllData,
}
use v2root_core.Kcp.Window.Flush.{WriteKeepsData, flush-Ascends, flush-AllData, flush-written}
use v2root_core.Kcp.Sending.{
  Settings, SendingWorker, new_sending_worker, front_number, find_first_unacknowledged,
  process_receiving_next, process_ack, process_numbers, process_segment, push, write,
  on_packet_loss, report_loss, flush_open, flush, flush_limit, close_write,
}

-- The numbers in the window ascend from `first_unacknowledged` and stay below `next_number`; `P`
-- holds of each segment's number and payload.
pub record IsSending (P : ℕ → Option (List ℕ) → Type 0) (w : SendingWorker) : Type 0 where
  pub ascends : Ascends w.first_unacknowledged w.next_number w.window.cache
  pub ordered : w.first_unacknowledged ≤ w.next_number
  pub payloads : AllData P w.window.cache

front_number-le :
    (lo hi : ℕ) (c : List DataSegment)
    → lo ≤ hi
    → Ascends lo hi c
    → (lo ≤ front_number c hi) × (front_number c hi ≤ hi)
unfolding front_number
front_number-le lo hi [] l a = omega arith
front_number-le lo hi (seg ∷ c) l a = omega arith

front_number-Ascends :
    (lo hi : ℕ) (c : List DataSegment) → Ascends lo hi c → Ascends (front_number c hi) hi c
unfolding front_number
front_number-Ascends lo hi [] a = tt
front_number-Ascends lo hi (seg ∷ c) (a, b, r) = (omega arith, b, r)

write-KeepsData :
    (c : Settings) (ready_to_close : Bool) (first : ℕ)
    → WriteKeepsData (write c ready_to_close first)
unfolding write
write-KeepsData c ready_to_close first seg = (refl, refl)

pub IsSending-map :
    (P Q : ℕ → Option (List ℕ) → Type 0) (w : SendingWorker)
    → ((n : ℕ) (p : Option (List ℕ)) → P n p → Q n p)
    → IsSending P w
    → IsSending Q w
IsSending-map P Q w f i = record {
  ascends = i.ascends;
  ordered = i.ordered;
  payloads = AllData-map P Q w.window.cache f i.payloads;
}

module _ (P : ℕ → Option (List ℕ) → Type 0) where
  pub new_sending_worker-IsSending : (c : Settings) → IsSending P (new_sending_worker c)
  unfolding new_sending_worker
  new_sending_worker-IsSending c = record { ascends = tt; ordered = omega arith; payloads = tt }

  -- A window with smaller content, and the front number found anew.
  find_first-IsSending :
      (w : SendingWorker) (win : SendingWindow)
      → IsSending P w
      → Ascends w.first_unacknowledged w.next_number win.cache
      → AllData P win.cache
      → IsSending P (find_first_unacknowledged (record w { window = win }))
  unfolding find_first_unacknowledged
  find_first-IsSending w win i a d = record {
    ascends = front_number-Ascends w.first_unacknowledged w.next_number win.cache a;
    ordered = (front_number-le w.first_unacknowledged w.next_number win.cache i.ordered a).1;
    payloads = d;
  }

  pub process_receiving_next-IsSending :
      (w : SendingWorker) (number : ℕ)
      → IsSending P w
      → IsSending P (process_receiving_next w number)
  unfolding process_receiving_next
  process_receiving_next-IsSending w number i =
      find_first-IsSending w (Window.clear w.window number) i
        (clear-Ascends number w.first_unacknowledged w.next_number w.window i.ascends).1
        (clear-AllData P number w.first_unacknowledged w.next_number w.window i.ascends i.payloads)

  process_ack-IsSending :
      (w : SendingWorker) (number : ℕ) → IsSending P w → IsSending P (process_ack w number).0
  unfolding process_ack
  process_ack-IsSending w number i = ground (
    arith,
    find_first-IsSending w (Window.remove w.window number).0 i
        (remove-Ascends number w.first_unacknowledged w.next_number w.window i.ascends)
        (remove-AllData P number w.first_unacknowledged w.next_number w.window i.ascends
          i.payloads),
    remove-Ascends number w.first_unacknowledged w.next_number w.window i.ascends,
    remove-AllData P number w.first_unacknowledged w.next_number w.window i.ascends i.payloads,
  )

  process_numbers-IsSending :
      (w : SendingWorker) (maxack : ℕ) (removed : Bool) (ns : List ℕ)
      → IsSending P w
      → IsSending P (process_numbers w maxack removed ns).0
  unfolding process_numbers
  process_numbers-IsSending w maxack removed [] i = i
  process_numbers-IsSending w maxack removed (n ∷ ns) i =
      process_numbers-IsSending (process_ack w n).0 _ _ ns (process_ack-IsSending w n i)

  handle_fast_ack-IsSending :
      (w : SendingWorker) (number rto : ℕ)
      → IsSending P w
      → IsSending P (record w { window = Window.handle_fast_ack w.window number rto })
  handle_fast_ack-IsSending w number rto i = record {
    ascends = handle_fast_ack-Ascends w.window number rto _ _ i.ascends;
    ordered = i.ordered;
    payloads = handle_fast_ack-AllData P w.window number rto i.payloads;
  }

  -- Any acknowledgement, from the peer or forged, keeps the window within its numbers.
  pub process_segment-IsSending :
      (w : SendingWorker) (rtt : RoundTripInfo) (current : ℕ) (seg : AckSegment) (rto : ℕ)
      → IsSending P w
      → IsSending P (process_segment w rtt current seg rto).0
  unfolding process_segment
  process_segment-IsSending w rtt current seg rto i = ground (arith, i1, i2, i3)
    where
      remote : ℕ
      remote =
          if ltb w.remote_next_number seg.receiving_window
          then seg.receiving_window
          else w.remote_next_number

      w1 : SendingWorker
      w1 = process_receiving_next (record w { remote_next_number = remote }) seg.receiving_next

      i1 : IsSending P w1
      i1 =
          process_receiving_next-IsSending _ seg.receiving_next
            (record { ascends = i.ascends; ordered = i.ordered; payloads = i.payloads })

      i2 : IsSending P (process_numbers w1 0 false seg.number_list).0
      i2 = process_numbers-IsSending w1 0 false seg.number_list i1

      i3 : IsSending P (record (process_numbers w1 0 false seg.number_list).0 {
        window =
            Window.handle_fast_ack
              (process_numbers w1 0 false seg.number_list).0.window
              (process_numbers w1 0 false seg.number_list).1
              rto;
      })
      i3 = handle_fast_ack-IsSending _ _ rto i2

  -- A buffer that is taken gets the next number, which must not wrap.
  pub push-IsSending :
      (w : SendingWorker) (b : List ℕ)
      → IsSending P w
      → w.next_number + 1 < 2 ^ 32
      → P w.next_number (some b)
      → IsSending P (push w b).0
  unfolding push
  push-IsSending w b i h p = ground (
    arith,
    push-Ascends w.window w.first_unacknowledged w.next_number b i.ordered i.ascends,
    push-AllData P w.window w.next_number b p i.payloads,
  )

  on_packet_loss-IsSending :
      (c : Settings) (rto : ℕ) (w : SendingWorker) (rate : Option ℕ)
      → IsSending P w
      → IsSending P (report_loss c rto w rate)
  unfolding report_loss on_packet_loss
  on_packet_loss-IsSending c rto w none i = i
  on_packet_loss-IsSending c rto w (some rate) i = ground (arith, i)

  pub flush-IsSending :
      (c : Settings) (ready_to_close : Bool) (rto : ℕ) (w : SendingWorker) (current : ℕ)
      → IsSending P w
      → IsSending P (flush c ready_to_close rto w current).worker
  unfolding flush flush_open
  flush-IsSending c ready_to_close rto w current i = ground (arith, i, lossy)
    where
      r : Flushed
      r =
          Window.flush (write c ready_to_close w.first_unacknowledged) w.window current rto
            (flush_limit c w)

      lossy : IsSending P (report_loss c rto (record w { window = r.window }) r.loss_rate)
      lossy = on_packet_loss-IsSending c rto _ r.loss_rate (record {
        ascends =
            flush-Ascends _ (write-KeepsData c ready_to_close w.first_unacknowledged) w.window
              current rto _ _ _ i.ascends;
        ordered = i.ordered;
        payloads =
            flush-AllData _ (write-KeepsData c ready_to_close w.first_unacknowledged) w.window
              current rto _ P i.payloads;
      })

  pub flush-AllData_written :
      (c : Settings) (ready_to_close : Bool) (rto : ℕ) (w : SendingWorker) (current : ℕ)
      → IsSending P w
      → AllData P (flush c ready_to_close rto w current).written
  unfolding flush flush_open
  flush-AllData_written c ready_to_close rto w current i = ground (
    arith,
    flush-written (write c ready_to_close w.first_unacknowledged) current rto (flush_limit c w) P
        (write-KeepsData c ready_to_close w.first_unacknowledged) w.window i.payloads,
  )

  pub close_write-IsSending : (w : SendingWorker) → IsSending P w → IsSending P (close_write w)
  unfolding close_write
  close_write-IsSending w i = record {
    ascends = (clear-Ascends 0xFFFFFFFF w.first_unacknowledged w.next_number w.window i.ascends).1;
    ordered = i.ordered;
    payloads =
        clear-AllData P 0xFFFFFFFF w.first_unacknowledged w.next_number w.window i.ascends
          i.payloads;
  }
