-- ===== src/Kcp/Connection/States.antt =====
-- Connection: which state may follow which. Every call moves along the protocol's transitions.
use v2root_core.Base.{
  ℕ, ◌<◌, ◌≡◌, refl, Bool, true, false, ◌&&◌, ◌∙◌, sym, List, [], ◌∷◌, ◌==◌, if◌then◌else◌, arith,
  Bool-cases, inl, inr, ◌⊎◌,
}
use mathlib.Core.Path.{subst}
use v2root_core.Base.Outcome.{Outcome, done, invalid, panic, ◌>>=◌}
use v2root_core.Kcp.Segment.{
  Segment, CmdOnlySegment, data_seg, ack_seg, cmd_seg, conversation, command_terminate,
}
use v2root_core.Kcp.Rtt
use v2root_core.Kcp.Receiving
use v2root_core.Kcp.Receiving.{ReceivingWorker}
use v2root_core.Kcp.Connection.{
  State, active, ready_to_close, peer_closed, terminating, peer_terminating, terminated, Connection,
  set_state, close, close_from, on_peer_closed, on_peer_closed_from, handle_option, ping,
  on_terminate, terminate_command, input_segment, input_loop, input, close_idle, finish_closing,
  flush_terminating, leave_peer_terminating, leave_ready_to_close, flush_receiving, flush_sending,
  ping_if_due, flush_open, flush, is,
}

-- One transition of the protocol.
pub data Next : State → State → Type 0 where
  closes : Next active ready_to_close
  peer_closes : Next active peer_closed
  peer_terminates : Next active peer_terminating
  peer_terminates_closed : Next peer_closed peer_terminating
  ends_closing : Next ready_to_close terminating
  closes_peer_closed : Next peer_closed terminating
  closes_peer_terminating : Next peer_terminating terminated
  peer_terminating_lasts : Next peer_terminating terminating
  ends : Next terminating terminated

-- Any number of them.
pub data Leads (s : State) : State → Type 0 where
  stays : Leads s s
  moves : {t u : State} → Leads s t → Next t u → Leads s u

pub Leads-trans : {s t u : State} → Leads s t → Leads t u → Leads s u
Leads-trans p stays = p
Leads-trans p (moves q n) = moves (Leads-trans p q) n

-- How far a state is from the start.
abbrev pub rank : State → ℕ
rank active = 0
rank ready_to_close = 1
rank peer_closed = 1
rank peer_terminating = 2
rank terminating = 3
rank terminated = 4

Next-rank : {s t : State} → Next s t → rank s < rank t
Next-rank closes = omega arith
Next-rank peer_closes = omega arith
Next-rank peer_terminates = omega arith
Next-rank peer_terminates_closed = omega arith
Next-rank ends_closing = omega arith
Next-rank closes_peer_closed = omega arith
Next-rank closes_peer_terminating = omega arith
Next-rank peer_terminating_lasts = omega arith
Next-rank ends = omega arith

-- No state is entered twice: a chain of transitions stands still or goes up.
pub Leads-rank : {s t : State} → Leads s t → (s ≡ t) ⊎ (rank s < rank t)
Leads-rank stays = inl refl
Leads-rank (moves p n) = inr (ground (arith, Leads-rank p, Next-rank n))

one : {s t : State} → Next s t → Leads s t
one n = moves stays n

pub set_state-state : (now : ℕ) (s : State) (c : Connection) → (set_state now s c).state ≡ s
unfolding set_state
set_state-state now active c = refl
set_state-state now ready_to_close c = refl
set_state-state now peer_closed c = refl
set_state-state now terminating c = refl
set_state-state now peer_terminating c = refl
set_state-state now terminated c = refl

-- The state that a connection's own is led to.
abbrev pub LeadsTo : Connection → Connection → Type 0
LeadsTo c d = Leads c.state d.state

to_state : {s t : State} (now : ℕ) (c : Connection) → Next s t → Leads s (set_state now t c).state
to_state {s} {t} now c n = subst (Leads s) (sym (set_state-state now t c)) (one n)

close_from-Leads :
    (s : State) (now : ℕ) (c : Connection) → c.state ≡ s → Leads s (close_from s now c).0.state
unfolding close_from
close_from-Leads active now c e = to_state now c closes
close_from-Leads ready_to_close now c e = rw e stays
close_from-Leads peer_closed now c e = to_state now c closes_peer_closed
close_from-Leads terminating now c e = rw e stays
close_from-Leads peer_terminating now c e = to_state now c closes_peer_terminating
close_from-Leads terminated now c e = rw e stays

pub close-Leads : (now : ℕ) (c : Connection) → LeadsTo c (close now c).0
unfolding close
close-Leads now c = close_from-Leads c.state now _ refl

if-Leads :
    {s : State} (x y : Connection) (b : Bool)
    → Leads s x.state
    → Leads s y.state
    → Leads s (if b then x else y).state
if-Leads x y true p q = p
if-Leads x y false p q = q

on_peer_closed_from-Leads :
    (s : State) (now : ℕ) (c : Connection)
    → c.state ≡ s
    → Leads s (on_peer_closed_from s now c).state
unfolding on_peer_closed_from
on_peer_closed_from-Leads active now c e = to_state now c peer_closes
on_peer_closed_from-Leads ready_to_close now c e = to_state now c ends_closing
on_peer_closed_from-Leads _ now c e = rw e stays

handle_option-Leads : (now opt : ℕ) (c : Connection) → LeadsTo c (handle_option now opt c)
unfolding handle_option on_peer_closed
handle_option-Leads now opt c = if-Leads _ _ _ (on_peer_closed_from-Leads c.state now c refl) stays

on_terminate-Leads :
    (s : State) (now : ℕ) (c : Connection) → c.state ≡ s → Leads s (on_terminate s now c).state
unfolding on_terminate
on_terminate-Leads active now c e = to_state now c peer_terminates
on_terminate-Leads peer_closed now c e = to_state now c peer_terminates_closed
on_terminate-Leads ready_to_close now c e = to_state now c ends_closing
on_terminate-Leads terminating now c e = to_state now c ends
on_terminate-Leads peer_terminating now c e = rw e stays
on_terminate-Leads terminated now c e = rw e stays

terminate_command-Leads :
    (now : ℕ) (seg : CmdOnlySegment) (c : Connection) → LeadsTo c (terminate_command now seg c)
unfolding terminate_command
terminate_command-Leads now seg c = if-Leads _ _ _ (on_terminate-Leads c.state now c refl) stays

-- The value that a call returns, if it returns one.
abbrev pub Returns {ℓ} : {A : Type ℓ} → (A → Type 0) → Outcome A → Type 0
Returns P (done a) = P a
Returns P invalid = Unit
Returns P panic = Unit

Returns-bind {ℓ κ} :
    {A : Type ℓ} {B : Type κ} (P : B → Type 0) (m : Outcome A) (f : A → Outcome B)
    → ((a : A) → Returns P (f a))
    → Returns P (m >>= f)
Returns-bind P (done a) f h = h a
Returns-bind P invalid f h = tt
Returns-bind P panic f h = tt

input_segment-Leads :
    (now : ℕ) (seg : Segment) (c : Connection) → Returns (LeadsTo c) (input_segment now seg c)
unfolding input_segment
input_segment-Leads now (data_seg seg) c =
    Returns-bind (LeadsTo c)
      (Receiving.process_segment (handle_option now seg.option c).receiving seg) _
      λ r. handle_option-Leads now seg.option c
input_segment-Leads now (ack_seg seg) c = handle_option-Leads now seg.option c
input_segment-Leads now (cmd_seg seg) c =
    Returns-bind (LeadsTo c)
      (Receiving.process_sending_next
        (terminate_command now seg (handle_option now seg.option c)).receiving seg.sending_next)
      _
      λ r.
        Leads-trans (handle_option-Leads now seg.option c)
          (terminate_command-Leads now seg (handle_option now seg.option c))

pub Returns-mono {ℓ} :
    {A : Type ℓ} {P Q : A → Type 0} (m : Outcome A)
    → ((a : A) → P a → Q a)
    → Returns P m
    → Returns Q m
Returns-mono (done a) f h = f a h
Returns-mono invalid f h = tt
Returns-mono panic f h = tt

Returns-then :
    (c : Connection) (m : Outcome Connection) (f : Connection → Outcome Connection)
    → Returns (LeadsTo c) m
    → ((d : Connection) → Returns (LeadsTo d) (f d))
    → Returns (LeadsTo c) (m >>= f)
Returns-then c (done d) f h k = Returns-mono (f d) (λ e l. Leads-trans h l) (k d)
Returns-then c invalid f h k = tt
Returns-then c panic f h k = tt

input_loop-Leads :
    (now : ℕ) (segs : List Segment) (c : Connection) → Returns (LeadsTo c) (input_loop now segs c)
unfolding input_loop
input_loop-Leads now [] c = stays
input_loop-Leads now (seg ∷ segs) c =
    elim (Bool-cases (conversation seg == c.settings.conversation)) [
      | inl e ↦ rw e (
          Returns-then c (input_segment now seg c) _ (input_segment-Leads now seg c)
            (λ d. input_loop-Leads now segs d))
      | inr e ↦ rw e stays
    ]

pub input-Leads :
    (now : ℕ) (segs : List Segment) (c : Connection) → Returns (LeadsTo c) (input now segs c)
unfolding input
input-Leads now segs c = input_loop-Leads now segs _

pub is→eq : (s t : State) → is s t ≡ true → s ≡ t
is→eq s t h = ground (arith, h)

-- A transition taken under a test of the state.
guarded :
    {t : State} (s : State) (now : ℕ) (c : Connection) (b : Bool)
    → Next s t
    → Leads c.state (if is c.state s && b then set_state now t c else c).state
guarded {t} s now c b n = elim (Bool-cases (is c.state s && b)) [
  | inl e ↦ rw e (
      subst (λ r. Leads r (set_state now t c).state) (sym (is→eq c.state s (ground (arith, e))))
        (to_state now c n))
  | inr e ↦ rw e stays
]

close_idle-Leads : (now : ℕ) (c : Connection) → LeadsTo c (close_idle now c)
unfolding close_idle
close_idle-Leads now c = if-Leads _ _ _ (close-Leads now c) stays

pub flush_terminating-Leads :
    (now : ℕ) (c : Connection) → c.state ≡ terminating → LeadsTo c (flush_terminating now c)
unfolding flush_terminating ping
flush_terminating-Leads now c e =
    if-Leads (set_state now terminated (ping now command_terminate c))
      (ping now command_terminate c) _
      (subst (λ s. Leads s (set_state now terminated (ping now command_terminate c)).state) (sym e)
        (to_state now _ ends))
      stays

pub finish_closing-Leads : (now : ℕ) (c : Connection) → LeadsTo c (finish_closing now c)
unfolding finish_closing
finish_closing-Leads now c = guarded ready_to_close now c _ ends_closing

pub leave_peer_terminating-Leads :
    (now : ℕ) (c : Connection) → LeadsTo c (leave_peer_terminating now c)
unfolding leave_peer_terminating
leave_peer_terminating-Leads now c = guarded peer_terminating now c _ peer_terminating_lasts

pub leave_ready_to_close-Leads : (now : ℕ) (c : Connection) → LeadsTo c (leave_ready_to_close now c)
unfolding leave_ready_to_close
leave_ready_to_close-Leads now c = guarded ready_to_close now c _ ends_closing

same : (c d : Connection) → d.state ≡ c.state → LeadsTo c d
same c d e = subst (Leads c.state) (sym e) stays

flush_sending-state : (now : ℕ) (c : Connection) → (flush_sending now c).state ≡ c.state
unfolding flush_sending ping
flush_sending-state now c = ground arith

ping_if_due-state : (now : ℕ) (c : Connection) → (ping_if_due now c).state ≡ c.state
unfolding ping_if_due ping
ping_if_due-state now c = ground arith

flush_receiving-Leads : (now : ℕ) (c : Connection) → Returns (LeadsTo c) (flush_receiving now c)
unfolding flush_receiving
flush_receiving-Leads now c =
    Returns-bind (LeadsTo c)
      (Receiving.flush c.settings.conversation (is c.state ready_to_close)
        (Rtt.timeout c.round_trip) c.receiving now)
      _ λ r. stays

pub flush_open-Leads : (now : ℕ) (c : Connection) → Returns (LeadsTo c) (flush_open now c)
unfolding flush_open
flush_open-Leads now c =
    let c1 : Connection = leave_peer_terminating now c in
    let c2 : Connection = leave_ready_to_close now c1 in
    Returns-mono (flush_receiving now c2 >>= λ d. done (ping_if_due now (flush_sending now d)))
      (λ d l.
        Leads-trans (leave_peer_terminating-Leads now c)
          (Leads-trans (leave_ready_to_close-Leads now c1) l))
      (Returns-then c2 (flush_receiving now c2) (λ d. done (ping_if_due now (flush_sending now d)))
        (flush_receiving-Leads now c2)
        λ d.
          same d (ping_if_due now (flush_sending now d))
            (ping_if_due-state now (flush_sending now d) ∙ flush_sending-state now d))

-- A flush, at any time and in any state, moves along transitions.
pub flush-Leads : (now : ℕ) (c : Connection) → Returns (LeadsTo c) (flush now c)
unfolding flush
flush-Leads now c = elim (Bool-cases (is c.state terminated)) [
  | inl e ↦ rw e stays
  | inr e ↦ rw e (elim (Bool-cases (is d.state terminating)) [
    | inl t ↦
        rw t (Leads-trans before (flush_terminating-Leads now d (is→eq d.state terminating t)))
    | inr t ↦
        rw t
          (Returns-mono (flush_open now d) (λ u l. Leads-trans before l) (flush_open-Leads now d))
  ])
]
  where
    d : Connection
    d = finish_closing now (close_idle now c)

    before : LeadsTo c d
    before = Leads-trans (close_idle-Leads now c) (finish_closing-Leads now (close_idle now c))

-- The part of an open flush after the timeouts of the two waiting states.
pub after_leaving-Leads :
    (now : ℕ) (c : Connection)
    → Returns (LeadsTo (leave_ready_to_close now (leave_peer_terminating now c))) (flush_open now c)
unfolding flush_open
after_leaving-Leads now c =
    let c2 : Connection = leave_ready_to_close now (leave_peer_terminating now c) in
    Returns-then c2 (flush_receiving now c2) (λ d. done (ping_if_due now (flush_sending now d)))
      (flush_receiving-Leads now c2)
      λ d.
        same d (ping_if_due now (flush_sending now d))
          (ping_if_due-state now (flush_sending now d) ∙ flush_sending-state now d)
