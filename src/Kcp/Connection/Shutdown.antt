-- ===== src/Kcp/Connection/Shutdown.antt =====
-- Connection: the timeouts of `flush` end a connection that hears nothing.
use v2root_core.Base.{
  ℕ, suc, ◌≡◌, ◌≢◌, ◌≤◌, ◌<◌, refl, sym, ap, ◌∙◌, true, false, ◌&&◌, not, arith, inl, inr, lt→ltb,
  le→leb, Bool-cases,
}
use mathlib.Core.Path.{subst}
use mathlib.Core.Bool.{false≢true}
use v2root_core.Base.Words.{sub32}
use v2root_core.Base.Outcome.{Outcome, Completes}
use v2root_core.Kcp.Sending
use v2root_core.Kcp.Connection.{
  State, active, ready_to_close, peer_closed, terminating, peer_terminating, terminated, Connection,
  is, close, close_from, close_idle, finish_closing, flush_terminating, flush_open,
  leave_peer_terminating, leave_ready_to_close, flush, ping,
}
use v2root_core.Kcp.Connection.States.{
  Leads, Leads-rank, rank, LeadsTo, Returns, Returns-mono, set_state-state, flush_terminating-Leads,
  leave_ready_to_close-Leads, finish_closing-Leads, leave_peer_terminating-Leads,
  after_leaving-Leads, is→eq,
}
use v2root_core.Kcp.Connection.Faults.{IsSound, flush-IsSound}
use v2root_core.Kcp.Connection.Runs.{both}

Leads-rank-le : {s t : State} → Leads s t → rank s ≤ rank t
Leads-rank-le l = ground (arith, Leads-rank l)

-- At least `n` far at the end.
abbrev Beyond : ℕ → Connection → Type 0
Beyond n d = n ≤ rank d.state

beyond :
    (n : ℕ) (c : Connection) (m : Outcome Connection)
    → n ≤ rank c.state
    → Returns (LeadsTo c) m
    → Returns (Beyond n) m
beyond n c m h r = Returns-mono m (λ d l. omega (arith, h, Leads-rank-le l)) r

-- Nothing came in for 30 seconds, and the state has lasted for more than 15.
pub record IsOverdue (now : ℕ) (c : Connection) : Type 0 where
  pub quiet : 30000 ≤ sub32 now c.last_incoming_time
  pub lasting : 15000 < sub32 now c.state_begin_time

-- The test of a state that is known.
is_true : (s t : State) → s ≡ t → is s t ≡ true
is_true s t e = ground (arith, e)

is_false : (s t u : State) → s ≡ t → is t u ≡ false → is s u ≡ false
is_false s t u e h = subst (λ r. is r u ≡ false) (sym e) h

module _ (now : ℕ) (c : Connection) where
  close_idle-active :
      c.state ≡ active
      → 30000 ≤ sub32 now c.last_incoming_time
      → (close_idle now c).state ≡ ready_to_close
  unfolding close_idle close close_from
  close_idle-active e q =
      rw (is_true c.state active e, le→leb 30000 (sub32 now c.last_incoming_time) q, close_idle, e)
        (set_state-state now ready_to_close _)

  close_idle_other : is c.state active ≡ false → close_idle now c ≡ c
  unfolding close_idle
  close_idle_other h = rw h

  finish_closing_other : is c.state ready_to_close ≡ false → finish_closing now c ≡ c
  unfolding finish_closing
  finish_closing_other h = rw h

  leave_peer_terminating_other :
      is c.state peer_terminating ≡ false → leave_peer_terminating now c ≡ c
  unfolding leave_peer_terminating
  leave_peer_terminating_other h = rw h

  leave_peer_terminating_late :
      c.state ≡ peer_terminating
      → 15000 < sub32 now c.state_begin_time
      → (leave_peer_terminating now c).state ≡ terminating
  unfolding leave_peer_terminating
  leave_peer_terminating_late e h =
      rw
        (
          is_true c.state peer_terminating e,
          lt→ltb 4000 (sub32 now c.state_begin_time) (omega (arith, h)),
          leave_peer_terminating,
        )
        (set_state-state now terminating c)

  leave_ready_to_close_late :
      c.state ≡ ready_to_close
      → 15000 < sub32 now c.state_begin_time
      → (leave_ready_to_close now c).state ≡ terminating
  unfolding leave_ready_to_close
  leave_ready_to_close_late e h =
      rw
        (
          is_true c.state ready_to_close e,
          lt→ltb 15000 (sub32 now c.state_begin_time) h,
          leave_ready_to_close,
        )
        (set_state-state now terminating c)

  flush_terminating_late :
      15000 < sub32 now c.state_begin_time → (flush_terminating now c).state ≡ terminated
  unfolding flush_terminating ping
  flush_terminating_late h =
      rw (lt→ltb 8000 (sub32 now c.state_begin_time) (omega (arith, h)), flush_terminating)
        (set_state-state now terminated _)

  -- The two ways through a flush of a connection that is not terminated.
  flush_by :
      (n : ℕ) (d : Connection)
      → is c.state terminated ≡ false
      → finish_closing now (close_idle now c) ≡ d
      → (is d.state terminating ≡ true → n ≤ rank (flush_terminating now d).state)
      → (is d.state terminating ≡ false
          → n ≤ rank (leave_ready_to_close now (leave_peer_terminating now d)).state)
      → Returns (Beyond n) (flush now c)
  unfolding flush
  flush_by n d h e one two = elim (Bool-cases (is d.state terminating)) [
    | inl t ↦ rw (h, flush, e, t) (one t)
    | inr t ↦
        rw (h, flush, e, t)
          (beyond n (leave_ready_to_close now (leave_peer_terminating now d)) (flush_open now d)
            (two t) (after_leaving-Leads now d))
  ]

  leaving-rank : rank c.state ≤ rank (leave_ready_to_close now (leave_peer_terminating now c)).state
  leaving-rank = omega (
    arith,
    Leads-rank-le (leave_peer_terminating-Leads now c),
    Leads-rank-le (leave_ready_to_close-Leads now (leave_peer_terminating now c)),
  )

-- A closed connection that still has something to send.
still_closing :
    (now : ℕ) (c : Connection)
    → c.state ≡ ready_to_close
    → 15000 < sub32 now c.state_begin_time
    → is (finish_closing now c).state terminating ≡ false
    → 2 ≤ rank (leave_ready_to_close now (leave_peer_terminating now (finish_closing now c))).state
unfolding finish_closing
still_closing now c e h t =
    elim (Bool-cases (is c.state ready_to_close && not (Sending.update_necessary c.sending))) [
      | inl f ↦ absurd (
          false≢true (
            sym (rw (f, finish_closing) at t)
            ∙ is_true _ terminating (set_state-state now terminating c)))
      | inr f ↦
          rw
            (
              f,
              finish_closing,
              leave_peer_terminating_other now c
                  (is_false c.state ready_to_close peer_terminating e refl),
            )
            (omega (arith, ap rank (leave_ready_to_close_late now c e h)))
    ]

advance_from :
    (s : State) (now : ℕ) (c : Connection)
    → c.state ≡ s
    → s ≢ terminated
    → s ≢ peer_closed
    → IsOverdue now c
    → Returns (Beyond (suc (rank s))) (flush now c)
advance_from active now c e h k o =
    let d : Connection = finish_closing now (close_idle now c) in
    let far : 1 ≤ rank d.state = omega (
      arith,
      Leads-rank-le (finish_closing-Leads now (close_idle now c)),
      ap rank (close_idle-active now c e o.quiet),
    ) in
    flush_by now c 1 d (is_false c.state active terminated e refl) refl
      (λ t.
        omega
          (arith, far, Leads-rank-le (flush_terminating-Leads now d (is→eq d.state terminating t))))
      (λ t. omega (arith, far, leaving-rank now d))
advance_from ready_to_close now c e h k o =
    flush_by now c 2 (finish_closing now c) (is_false c.state ready_to_close terminated e refl)
      (ap (finish_closing now)
        (close_idle_other now c (is_false c.state ready_to_close active e refl)))
      (λ t. omega (
        arith,
        ap rank (is→eq (finish_closing now c).state terminating t),
        Leads-rank-le (
            flush_terminating-Leads now (finish_closing now c)
              (is→eq (finish_closing now c).state terminating t)),
      ))
      (λ t. still_closing now c e o.lasting t)
advance_from peer_closed now c e h k o = absurd (k refl)
advance_from terminating now c e h k o =
    flush_by now c 4 c (is_false c.state terminating terminated e refl)
      (subst (λ d. finish_closing now d ≡ c)
        (sym (close_idle_other now c (is_false c.state terminating active e refl)))
        (finish_closing_other now c (is_false c.state terminating ready_to_close e refl)))
      (λ t. rw (flush_terminating_late now c o.lasting) (omega arith))
      (λ t. absurd (false≢true (sym t ∙ is_true c.state terminating e)))
advance_from peer_terminating now c e h k o =
    flush_by now c 3 c (is_false c.state peer_terminating terminated e refl)
      (subst (λ d. finish_closing now d ≡ c)
        (sym (close_idle_other now c (is_false c.state peer_terminating active e refl)))
        (finish_closing_other now c (is_false c.state peer_terminating ready_to_close e refl)))
      (λ t. absurd (false≢true (sym (is_false c.state peer_terminating terminating e refl) ∙ t)))
      (λ t. omega (
        arith,
        ap rank (leave_peer_terminating_late now c e o.lasting),
        Leads-rank-le (leave_ready_to_close-Leads now (leave_peer_terminating now c)),
      ))
advance_from terminated now c e h k o = absurd (h refl)

-- A sound connection that is overdue and neither terminated nor merely closed by the peer is moved
-- on by the next flush, which completes: its rank in the order of states, from active to terminated,
-- grows, and it is still sound. Overdue means 30 seconds without input and more than 15 in the state.
pub flush_advances :
    (now : ℕ) (c : Connection)
    → IsSound c
    → c.state ≢ terminated
    → c.state ≢ peer_closed
    → IsOverdue now c
    → Completes (λ d. (rank c.state < rank d.state) × IsSound d) (flush now c)
flush_advances now c s h k o =
    both IsSound (Beyond (suc (rank c.state))) (flush now c) (flush-IsSound now c s)
      (advance_from c.state now c refl h k o)
