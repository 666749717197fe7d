-- ===== src/Kcp/Connection/Runs.antt =====
-- Connection: any sequence of calls, at any times, with any input.
use v2root_core.Base.{ℕ, ◌≡◌, ◌<◌, sym, List, [], ◌∷◌, inl, inr, ◌⊎◌}
use v2root_core.Base.Outcome.{Outcome, done, invalid, panic, ◌>>=◌, Completes, Completes-bind}
use v2root_core.Kcp.Segment.{Segment}
use v2root_core.Kcp.Sending.{Settings}
use v2root_core.Kcp.Receiving.Acks.{release-HasEntries}
use v2root_core.Kcp.Connection.{Connection, new_connection, close, input, flush, terminate}
use v2root_core.Kcp.Connection.States.{
  stays, Leads-trans, Leads-rank, rank, LeadsTo, Returns, close-Leads, input-Leads, flush-Leads,
}
use v2root_core.Kcp.Connection.Faults.{
  IsSound, new_connection-IsSound, close-receiving, input-IsSound, flush-IsSound, carry,
}

-- `Close`, `Input` and the updater's task. `Terminate` runs once the state is StateTerminated.
pub data Call : Type 0 where
  closing flushing terminating_task : Call
  receiving : List Segment → Call

pub call : ℕ → Call → Connection → Outcome Connection
call now closing c = done (close now c).0
call now flushing c = flush now c
call now terminating_task c = done (terminate c)
call now (receiving segs) c = input now segs c

pub run : List (ℕ × Call) → Connection → Outcome Connection
run [] c = done c
run ((now, k) ∷ ks) c = call now k c >>= λ d. run ks d

pub both {ℓ} :
    {A : Type ℓ} (P Q : A → Type 0) (m : Outcome A)
    → Completes P m
    → Returns Q m
    → Completes (λ a. Q a × P a) m
both P Q (done a) h k = (k, h)
both P Q invalid h k = absurd h
both P Q panic h k = absurd h

-- Where a connection may be after calls: it came along transitions and is sound.
abbrev pub Follows : Connection → Connection → Type 0
Follows c d = LeadsTo c d × IsSound d

call-Follows :
    (now : ℕ) (k : Call) (c : Connection) → IsSound c → Completes (Follows c) (call now k c)
unfolding call terminate
call-Follows now closing c s = (close-Leads now c, carry (close-receiving now c) s)
call-Follows now flushing c s =
    both IsSound (LeadsTo c) (flush now c) (flush-IsSound now c s) (flush-Leads now c)
call-Follows now terminating_task c s = (stays, release-HasEntries c.receiving s)
call-Follows now (receiving segs) c s =
    both IsSound (LeadsTo c) (input now segs c) (input-IsSound now segs c s)
      (input-Leads now segs c)

run-Follows :
    (ks : List (ℕ × Call)) (b c : Connection) → Follows b c → Completes (Follows b) (run ks c)
unfolding run
run-Follows [] b c f = f
run-Follows ((now, k) ∷ ks) b c (l, s) =
    Completes-bind (Follows c) (Follows b) (call now k c) _ (call-Follows now k c s)
      λ d f. run-Follows ks b d (Leads-trans l f.0, f.1)

weaken {ℓ} :
    {A : Type ℓ} (P Q : A → Type 0) (m : Outcome A)
    → Completes P m
    → ((a : A) → P a → Q a)
    → Completes Q m
weaken P Q (done a) h k = k a h
weaken P Q invalid h k = h
weaken P Q panic h k = h

-- What further calls do to a connection: they lead along transitions to a sound one, in the same
-- state or in one of higher rank.
abbrev pub Advances : Connection → Connection → Type 0
Advances b d = LeadsTo b d × ((d.state ≡ b.state) ⊎ (rank b.state < rank d.state)) × IsSound d

run-Advances :
    (ls : List (ℕ × Call)) (b : Connection) → IsSound b → Completes (Advances b) (run ls b)
run-Advances ls b s =
    weaken (Follows b) (Advances b) (run ls b) (run-Follows ls b b (stays, s))
      λ d f. (f.0, elim (Leads-rank f.0) [ inl e ↦ inl (sym e) | inr lt ↦ inr lt ], f.1)

-- Any sequence of calls on a new connection, at any times and with any segments, completes without a
-- fault. From the connection that it gives, any further calls complete as well, and lead along
-- transitions of the protocol to a sound connection that is in the same state or in one of higher
-- rank: no state is entered again once it was left.
pub run-new_connection :
    (s : Settings) (tti in_flight : ℕ) (ks ls : List (ℕ × Call))
    → Completes (λ b. Completes (Advances b) (run ls b)) (run ks (new_connection s tti in_flight))
run-new_connection s tti in_flight ks ls =
    weaken (Follows start) _ (run ks start)
      (run-Follows ks start start (stays, new_connection-IsSound s tti in_flight))
      λ b f. run-Advances ls b f.1
  where
    start : Connection
    start = new_connection s tti in_flight
