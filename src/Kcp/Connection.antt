-- ===== src/Kcp/Connection.antt =====
-- transport/internet/kcp/connection.go, Connection: the state machine of a connection, the input of
-- segments and the periodic flush. `now` is the result of Elapsed; the clock stands still within one
-- call. What a call does to the outside, in order, is a list of effects. Logging is left out.
pub mod States
pub mod Faults
pub mod Runs
pub mod Shutdown
mod Tests
use Prim.Native.Nat.{bit_and}
use v2root_core.Base.{
  ℕ, Bool, true, false, ◌&&◌, ◌||◌, not, Option, none, some, List, [], ◌∷◌, ◌++◌, map, ltb, leb,
  ◌==◌, if◌then◌else◌,
}
use v2root_core.Base.Words.{sub32}
use v2root_core.Base.Outcome.{Outcome, done, ◌>>=◌}
use v2root_core.Kcp.Segment.{
  Segment, DataSegment, AckSegment, CmdOnlySegment, data_seg, ack_seg, cmd_seg,
  new_cmd_only_segment, conversation, segment_option_close, command_terminate, command_ping,
}
use v2root_core.Kcp.Rtt
use v2root_core.Kcp.Rtt.{RoundTripInfo, new_round_trip_info}
use v2root_core.Kcp.Sending
use v2root_core.Kcp.Sending.{Settings, SendingWorker}
use v2root_core.Kcp.Receiving
use v2root_core.Kcp.Receiving.{ReceivingWorker}

pub data State : Type 0 where
  active ready_to_close peer_closed terminating peer_terminating terminated : State

-- The sending of a segment, `Signal` on the two notifiers, `WakeUp` and `SetInterval(time.Second)`
-- on the updaters, `go c.Terminate()`, and the closer's `Close`.
pub data Effect : Type 0 where
  send : Segment → Effect
  signal_input signal_output wake_data wake_ping slow_ping spawn_terminate close_transport : Effect

pub record Connection : Type 0 where
  pub settings : Settings
  pub state : State
  pub state_begin_time : ℕ
  pub last_incoming_time : ℕ
  pub last_ping_time : ℕ
  pub round_trip : RoundTripInfo
  pub receiving : ReceivingWorker
  pub sending : SendingWorker
  pub effects : List Effect

-- `NewConnection`: the TTI and the result of GetReceivingInFlightSize are given.
pub new_connection : Settings → ℕ → ℕ → Connection
new_connection settings tti receiving_in_flight = record {
  settings = settings;
  state = active;
  state_begin_time = 0;
  last_incoming_time = 0;
  last_ping_time = 0;
  round_trip = new_round_trip_info tti;
  receiving = Receiving.new_receiving_worker receiving_in_flight;
  sending = Sending.new_sending_worker settings;
  effects = wake_ping ∷ [];
}

abbrev pub emit : Connection → List Effect → Connection
emit c es = record c { effects = c.effects ++ es }

-- The constants of type State, and their comparison.
abbrev pub code : State → ℕ
code active = 0
code ready_to_close = 1
code peer_closed = 2
code terminating = 3
code peer_terminating = 4
code terminated = 5

abbrev pub is : State → State → Bool
is s t = code s == code t

pub close_write : Connection → Connection
close_write c = record c { sending = Sending.close_write c.sending }

-- What entering a state does besides setting it.
pub enter : State → Connection → Connection
unfolding close_write
enter active c = c
enter ready_to_close c = c
enter peer_closed c = close_write c
enter terminating c = emit (close_write c) (slow_ping ∷ [])
enter peer_terminating c = emit (close_write c) (slow_ping ∷ [])
enter terminated c = emit (close_write c) (slow_ping ∷ wake_data ∷ wake_ping ∷ spawn_terminate ∷ [])

pub set_state : ℕ → State → Connection → Connection
unfolding enter
set_state now state c = enter state (record c { state = state; state_begin_time = now })

-- `Close`: false is ErrClosedConnection.
pub close_from : State → ℕ → Connection → Connection × Bool
close_from ready_to_close now c = (c, false)
close_from terminating now c = (c, false)
close_from terminated now c = (c, false)
close_from active now c = (set_state now ready_to_close c, true)
close_from peer_closed now c = (set_state now terminating c, true)
close_from peer_terminating now c = (set_state now terminated c, true)

pub close : ℕ → Connection → Connection × Bool
unfolding close_from
close now c = close_from c.state now (emit c (signal_input ∷ signal_output ∷ []))

-- `Terminate`
pub terminate : Connection → Connection
terminate c =
    emit
      (record c { sending = Sending.release c.sending; receiving = Receiving.release c.receiving })
      (signal_input ∷ signal_output ∷ close_transport ∷ [])

pub on_peer_closed_from : State → ℕ → Connection → Connection
on_peer_closed_from ready_to_close now c = set_state now terminating c
on_peer_closed_from active now c = set_state now peer_closed c
on_peer_closed_from _ now c = c

pub on_peer_closed : ℕ → Connection → Connection
unfolding on_peer_closed_from
on_peer_closed now c = on_peer_closed_from c.state now c

pub handle_option : ℕ → ℕ → Connection → Connection
unfolding on_peer_closed
handle_option now opt c =
    if bit_and opt segment_option_close == segment_option_close then on_peer_closed now c else c

-- `Ping`
pub ping : ℕ → ℕ → Connection → Connection
ping now cmd c =
    record (emit c (
      send (
        cmd_seg (record new_cmd_only_segment {
          conv = c.settings.conversation;
          cmd = cmd;
          receiving_next = c.receiving.next_number;
          sending_next = c.sending.first_unacknowledged;
          peer_rto = Rtt.timeout c.round_trip;
          option = if is c.state ready_to_close then segment_option_close else 0;
        }))
      ∷ [])) { last_ping_time = now }

pub input_data : ℕ → DataSegment → Connection → Outcome Connection
input_data now seg c0 = do
  let c = handle_option now seg.option c0
  receiving ← Receiving.process_segment c.receiving seg
  done (
      let signals = if Receiving.is_data_available receiving then signal_input ∷ [] else [] in
      emit (record c { receiving = receiving }) (signals ++ wake_data ∷ []))

pub input_ack : ℕ → AckSegment → Connection → Connection
input_ack now seg c0 =
    let c = handle_option now seg.option c0 in
    let (sending, round_trip) =
      Sending.process_segment c.sending c.round_trip now seg (Rtt.timeout c.round_trip) in
    emit (record c { sending = sending; round_trip = round_trip }) (signal_output ∷ wake_data ∷ [])

-- A terminate command, by the state.
pub on_terminate : State → ℕ → Connection → Connection
on_terminate active now c = set_state now peer_terminating c
on_terminate peer_closed now c = set_state now peer_terminating c
on_terminate ready_to_close now c = set_state now terminating c
on_terminate terminating now c = set_state now terminated c
on_terminate peer_terminating now c = c
on_terminate terminated now c = c

pub terminate_command : ℕ → CmdOnlySegment → Connection → Connection
unfolding on_terminate
terminate_command now seg c = if seg.cmd == command_terminate then on_terminate c.state now c else c

pub input_cmd : ℕ → CmdOnlySegment → Connection → Outcome Connection
input_cmd now seg c0 = do
  let c = terminate_command now seg (handle_option now seg.option c0)
  receiving ← Receiving.process_sending_next c.receiving seg.sending_next
  done (
      let signals =
        if seg.option == segment_option_close || seg.cmd == command_terminate
        then signal_input ∷ signal_output ∷ []
        else [] in
      emit
        (record c {
          sending = Sending.process_receiving_next c.sending seg.receiving_next;
          receiving = receiving;
          round_trip = Rtt.update_peer_rto c.round_trip seg.peer_rto now;
        })
        signals)

pub input_segment : ℕ → Segment → Connection → Outcome Connection
unfolding input_data input_ack input_cmd
input_segment now (data_seg seg) c = input_data now seg c
input_segment now (ack_seg seg) c = done (input_ack now seg c)
input_segment now (cmd_seg seg) c = input_cmd now seg c

-- The loop stops at a segment of another conversation.
pub input_loop : ℕ → List Segment → Connection → Outcome Connection
input_loop now [] c = done c
input_loop now (seg ∷ segs) c =
    let rest = (input_segment now seg c >>= λ c'. input_loop now segs c') in
    if conversation seg == c.settings.conversation then rest else done c

pub input : ℕ → List Segment → Connection → Outcome Connection
unfolding input_loop
input now segs c = input_loop now segs (record c { last_incoming_time = now })

-- The parts of `flush`, in order: an idle connection is closed, a closed one with nothing to send
-- terminates, and states that have lasted too long move on.
pub close_idle : ℕ → Connection → Connection
close_idle now c =
    if is c.state active && leb 30000 (sub32 now c.last_incoming_time) then (close now c).0 else c

pub finish_closing : ℕ → Connection → Connection
finish_closing now c =
    if is c.state ready_to_close && not (Sending.update_necessary c.sending)
    then set_state now terminating c
    else c

-- The terminating branch, which ends the call.
pub flush_terminating : ℕ → Connection → Connection
flush_terminating now c =
    let pinged = ping now command_terminate c in
    if ltb 8000 (sub32 now pinged.state_begin_time) then set_state now terminated pinged else pinged

pub leave_peer_terminating : ℕ → Connection → Connection
leave_peer_terminating now c =
    if is c.state peer_terminating && ltb 4000 (sub32 now c.state_begin_time)
    then set_state now terminating c
    else c

pub leave_ready_to_close : ℕ → Connection → Connection
leave_ready_to_close now c =
    if is c.state ready_to_close && ltb 15000 (sub32 now c.state_begin_time)
    then set_state now terminating c
    else c

pub flush_receiving : ℕ → Connection → Outcome Connection
flush_receiving now c = do
  (receiving, acks) ←
      Receiving.flush c.settings.conversation (is c.state ready_to_close) (Rtt.timeout c.round_trip)
        c.receiving now
  done (emit (record c { receiving = receiving }) (map (λ seg. send (ack_seg seg)) acks))

pub flush_sending : ℕ → Connection → Connection
flush_sending now c =
    let r =
      Sending.flush c.settings (is c.state ready_to_close) (Rtt.timeout c.round_trip) c.sending
        now in
    let c' = emit (record c { sending = r.worker }) (map (λ seg. send (data_seg seg)) r.written) in
    if r.ping then ping now command_ping c' else c'

pub ping_if_due : ℕ → Connection → Connection
ping_if_due now c = if leb 3000 (sub32 now c.last_ping_time) then ping now command_ping c else c

pub flush_open : ℕ → Connection → Outcome Connection
flush_open now c0 = do
  c1 ← flush_receiving now (leave_ready_to_close now (leave_peer_terminating now c0))
  done (ping_if_due now (flush_sending now c1))

pub flush : ℕ → Connection → Outcome Connection
flush now c0 =
    let c = finish_closing now (close_idle now c0) in
    if is c0.state terminated
    then done c0
    else if is c.state terminating
    then done (flush_terminating now c)
    else flush_open now c
