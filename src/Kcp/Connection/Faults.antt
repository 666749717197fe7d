-- ===== src/Kcp/Connection/Faults.antt =====
-- Connection: whatever a peer sends and whenever a call comes, no call faults.
use v2root_core.Base.{ℕ, ◌≡◌, refl, sym, ◌∙◌, List, [], ◌∷◌, ◌==◌, arith, Bool-cases, inl, inr}
use mathlib.Core.Path.{subst}
use v2root_core.Base.Outcome.{Completes, Completes-bind}
use v2root_core.Kcp.Segment.{Segment, CmdOnlySegment, data_seg, ack_seg, cmd_seg, conversation}
use v2root_core.Kcp.Receiving
use v2root_core.Kcp.Receiving.{ReceivingWorker}
use v2root_core.Kcp.Receiving.Acks.{
  HasEntries, process_segment-HasEntries, process_sending_next-HasEntries, flush-HasEntries,
}
use v2root_core.Kcp.Rtt
use v2root_core.Kcp.Sending.{Settings}
use v2root_core.Kcp.Connection.{
  State, active, ready_to_close, peer_closed, terminating, peer_terminating, terminated, Connection,
  is, set_state, close, close_from, on_peer_closed, on_peer_closed_from, handle_option, ping,
  on_terminate, terminate_command, input_segment, input_loop, input, close_idle, finish_closing,
  flush_terminating, leave_peer_terminating, leave_ready_to_close, flush_receiving, flush_sending,
  ping_if_due, flush_open, flush, new_connection,
}

-- The acknowledgement list's slices hold entries, so they have one length.
abbrev pub IsSound : Connection → Type 0
IsSound c = HasEntries c.receiving

pub new_connection-IsSound : (s : Settings) (tti n : ℕ) → IsSound (new_connection s tti n)
unfolding new_connection
new_connection-IsSound s tti n = Receiving.Acks.new_receiving_worker-HasEntries n

-- The state machine does not touch the receiving worker.
set_state-receiving :
    (now : ℕ) (s : State) (c : Connection) → (set_state now s c).receiving ≡ c.receiving
unfolding set_state
set_state-receiving now active c = refl
set_state-receiving now ready_to_close c = refl
set_state-receiving now peer_closed c = refl
set_state-receiving now terminating c = refl
set_state-receiving now peer_terminating c = refl
set_state-receiving now terminated c = refl

close_from-receiving :
    (s : State) (now : ℕ) (c : Connection) → (close_from s now c).0.receiving ≡ c.receiving
unfolding close_from
close_from-receiving active now c = set_state-receiving now ready_to_close c
close_from-receiving ready_to_close now c = refl
close_from-receiving peer_closed now c = set_state-receiving now terminating c
close_from-receiving terminating now c = refl
close_from-receiving peer_terminating now c = set_state-receiving now terminated c
close_from-receiving terminated now c = refl

pub close-receiving : (now : ℕ) (c : Connection) → (close now c).0.receiving ≡ c.receiving
unfolding close
close-receiving now c = close_from-receiving c.state now _

on_peer_closed_from-receiving :
    (s : State) (now : ℕ) (c : Connection) → (on_peer_closed_from s now c).receiving ≡ c.receiving
unfolding on_peer_closed_from
on_peer_closed_from-receiving active now c = set_state-receiving now peer_closed c
on_peer_closed_from-receiving ready_to_close now c = set_state-receiving now terminating c
on_peer_closed_from-receiving _ now c = refl

handle_option-receiving :
    (now opt : ℕ) (c : Connection) → (handle_option now opt c).receiving ≡ c.receiving
unfolding handle_option on_peer_closed
handle_option-receiving now opt c = ground (arith, on_peer_closed_from-receiving c.state now c)

on_terminate-receiving :
    (s : State) (now : ℕ) (c : Connection) → (on_terminate s now c).receiving ≡ c.receiving
unfolding on_terminate
on_terminate-receiving active now c = set_state-receiving now peer_terminating c
on_terminate-receiving peer_closed now c = set_state-receiving now peer_terminating c
on_terminate-receiving ready_to_close now c = set_state-receiving now terminating c
on_terminate-receiving terminating now c = set_state-receiving now terminated c
on_terminate-receiving peer_terminating now c = refl
on_terminate-receiving terminated now c = refl

terminate_command-receiving :
    (now : ℕ) (seg : CmdOnlySegment) (c : Connection)
    → (terminate_command now seg c).receiving ≡ c.receiving
unfolding terminate_command
terminate_command-receiving now seg c = ground (arith, on_terminate-receiving c.state now c)

pub carry : {r s : ReceivingWorker} → s ≡ r → HasEntries r → HasEntries s
carry e s = subst HasEntries (sym e) s

input_segment-IsSound :
    (now : ℕ) (seg : Segment) (c : Connection)
    → IsSound c
    → Completes IsSound (input_segment now seg c)
unfolding input_segment
input_segment-IsSound now (data_seg seg) c s =
    let (v, e, h) =
      process_segment-HasEntries (handle_option now seg.option c).receiving seg
        (carry (handle_option-receiving now seg.option c) s) in
    rw e h
input_segment-IsSound now (ack_seg seg) c s = carry (handle_option-receiving now seg.option c) s
input_segment-IsSound now (cmd_seg seg) c s =
    let c' : Connection = terminate_command now seg (handle_option now seg.option c) in
    let (v, e, h) = process_sending_next-HasEntries c'.receiving seg.sending_next (
      carry
        (terminate_command-receiving now seg (handle_option now seg.option c)
          ∙ handle_option-receiving now seg.option c)
        s) in
    rw e h

input_loop-IsSound :
    (now : ℕ) (segs : List Segment) (c : Connection)
    → IsSound c
    → Completes IsSound (input_loop now segs c)
unfolding input_loop
input_loop-IsSound now [] c s = s
input_loop-IsSound now (seg ∷ segs) c s =
    elim (Bool-cases (conversation seg == c.settings.conversation)) [
      | inl e ↦ rw e (
          Completes-bind IsSound IsSound (input_segment now seg c) _
            (input_segment-IsSound now seg c s) (λ d. input_loop-IsSound now segs d))
      | inr e ↦ rw e s
    ]

pub input-IsSound :
    (now : ℕ) (segs : List Segment) (c : Connection)
    → IsSound c
    → Completes IsSound (input now segs c)
unfolding input
input-IsSound now segs c s = input_loop-IsSound now segs _ s

-- The parts of a flush before and after the acknowledgements.
before-receiving :
    (now : ℕ) (c : Connection) → (finish_closing now (close_idle now c)).receiving ≡ c.receiving
unfolding finish_closing close_idle
before-receiving now c =
    ground (arith, close-receiving now c, set_state-receiving now terminating (close_idle now c))

flush_terminating-receiving :
    (now : ℕ) (c : Connection) → (flush_terminating now c).receiving ≡ c.receiving
unfolding flush_terminating ping
flush_terminating-receiving now c =
    ground (arith, set_state-receiving now terminated (ping now 2 c))

leave-receiving :
    (now : ℕ) (c : Connection)
    → (leave_ready_to_close now (leave_peer_terminating now c)).receiving ≡ c.receiving
unfolding leave_ready_to_close leave_peer_terminating
leave-receiving now c = ground (
  arith,
  set_state-receiving now terminating c,
  set_state-receiving now terminating (leave_peer_terminating now c),
)

after-receiving :
    (now : ℕ) (c : Connection) → (ping_if_due now (flush_sending now c)).receiving ≡ c.receiving
unfolding ping_if_due flush_sending ping
after-receiving now c = ground arith

flush_open-IsSound : (now : ℕ) (c : Connection) → IsSound c → Completes IsSound (flush_open now c)
unfolding flush_open flush_receiving
flush_open-IsSound now c s =
    let d : Connection = leave_ready_to_close now (leave_peer_terminating now c) in
    let (v, acks, e, h) =
      flush-HasEntries d.settings.conversation (is d.state ready_to_close)
        (Rtt.timeout d.round_trip) d.receiving now (carry (leave-receiving now c) s) in
    rw e (carry (after-receiving now _) h)

pub flush-IsSound : (now : ℕ) (c : Connection) → IsSound c → Completes IsSound (flush now c)
unfolding flush
flush-IsSound now c s = elim (Bool-cases (is c.state terminated)) [
  | inl e ↦ rw e s
  | inr e ↦ rw e (elim (Bool-cases (is d.state terminating)) [
    | inl t ↦ rw t (carry (flush_terminating-receiving now d ∙ before-receiving now c) s)
    | inr t ↦ rw t (flush_open-IsSound now d (carry (before-receiving now c) s))
  ])
]
  where
    d : Connection
    d = finish_closing now (close_idle now c)
