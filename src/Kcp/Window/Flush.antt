-- ===== src/Kcp/Window/Flush.antt =====
-- SendingWindow.Flush: which segments a flush sends, and what it leaves behind.
use v2root_core.Base.{
  ℕ, zero, suc, ◌+◌, ◌-◌, ◌^◌, ◌≤◌, ◌<◌, ◌≡◌, refl, sym, ap, List, [], ◌∷◌, ◌++◌, length, take, map,
  ltb, if◌then◌else◌, arith, Bool-cases, inl, inr, take-nil, length-take, length-map, Option,
  All-append,
}
use mathlib.Core.Path.{subst}
use mathlib.Core.List.{append-nil, append_assoc}
use v2root_core.Base.Words.{add32}
use v2root_core.Kcp.Segment.{DataSegment}
use v2root_core.Kcp.Window.{
  SendingWindow, Flushing, is_waiting, resent, flush_visitor, visit, flush,
}
use v2root_core.Kcp.Window.Order.{KeepsData, Ascends, AllData, visit-Ascends, visit-AllData}

-- The segments whose resend time has come.
abbrev pub due : ℕ → List DataSegment → List DataSegment
due current [] = []
due current (seg ∷ rest) =
    if is_waiting current seg then due current rest else seg ∷ due current rest

-- The cache in which the first `k` due segments were replaced by `f` of them.
abbrev pub stamped : (DataSegment → DataSegment) → ℕ → ℕ → List DataSegment → List DataSegment
stamped f current k [] = []
stamped f current zero (seg ∷ rest) = seg ∷ rest
stamped f current (suc k) (seg ∷ rest) =
    if is_waiting current seg
    then seg ∷ stamped f current (suc k) rest
    else f seg ∷ stamped f current k rest

stamped_zero :
    (f : DataSegment → DataSegment) (current : ℕ) (c : List DataSegment) → stamped f current 0 c ≡ c
stamped_zero f current [] = refl
stamped_zero f current (s ∷ c) = refl

-- At least one segment is sent, whatever the limit is.
abbrev pub budget : ℕ → ℕ
budget m = if ltb 1 m then m else 1

module _ (write : DataSegment → DataSegment) (current rto m : ℕ) where
  visit-flush :
      (c : List DataSegment) (s : Flushing) (k : ℕ)
      → s.in_flight_size + suc k ≡ budget m
      → s.in_flight_size + length c < 2 ^ 32
      → ((visit (flush_visitor write current rto m) s c).0.written
          ≡ s.written ++ map (resent write current rto) (take (suc k) (due current c)))
        × ((visit (flush_visitor write current rto m) s c).0.in_flight_size
            ≡ s.in_flight_size + length (take (suc k) (due current c)))
        × ((visit (flush_visitor write current rto m) s c).1
            ≡ stamped (resent write current rto) current (suc k) c)
  unfolding visit flush_visitor
  visit-flush [] s k h f = (sym (append-nil s.written), omega arith, refl)
  visit-flush (seg ∷ c) s zero h f = elim (Bool-cases (is_waiting current seg)) [
    | inl e ↦ ground (arith, e, visit-flush c s zero h (omega arith))
    | inr e ↦ ground (arith, e, stamped_zero (resent write current rto) current c)
  ]
  visit-flush (seg ∷ c) s (suc k) h f = elim (Bool-cases (is_waiting current seg)) [
    | inl e ↦ ground (arith, e, visit-flush c s (suc k) h (omega arith))
    | inr e ↦ ground (
      arith,
      e,
      append_assoc s.written (resent write current rto seg ∷ [])
          (map (resent write current rto) (take (suc k) (due current c))),
      visit-flush c (flush_visitor write current rto m s seg).0 k (ground (arith, e))
          (ground (arith, e)),
    )
  ]

  flush_cases :
      (c : List DataSegment) (total : ℕ)
      → length c < 2 ^ 32
      → let r = flush write (record { cache = c; total_in_flight_size = total }) current rto m in
        (r.written ≡ map (resent write current rto) (take (budget m) (due current c)))
        × (r.window.cache ≡ stamped (resent write current rto) current (budget m) c)
  unfolding flush
  flush_cases [] total h = (rw take-nil, refl)
  flush_cases (seg ∷ c) total h = ground (
    arith,
    visit-flush (seg ∷ c) (record { lost = 0; in_flight_size = 0; total = total; written = [] })
        (budget m - 1) (ground arith) (omega arith),
  )

  -- The segments sent by a flush with in-flight limit `m` are the first ones, at most `m` and at
  -- least one, of those whose resend time has come, each stamped with the time, the new resend time
  -- and one more transmission; they are replaced in the cache, and every other segment stays as it
  -- was. The window holds fewer than 2^32 segments.
  pub flush-due :
      (w : SendingWindow)
      → length w.cache < 2 ^ 32
      → ((flush write w current rto m).written
          ≡ map (resent write current rto) (take (budget m) (due current w.cache)))
        × ((flush write w current rto m).window.cache
            ≡ stamped (resent write current rto) current (budget m) w.cache)
  flush-due w h = flush_cases w.cache w.total_in_flight_size h

pub flush-length-le :
    (write : DataSegment → DataSegment) (current rto m : ℕ) (w : SendingWindow)
    → length w.cache < 2 ^ 32
    → length (flush write w current rto m).written ≤ budget m
flush-length-le write current rto m w h = omega (
  arith,
  ap length (flush-due write current rto m w h).0,
  length-map (take (budget m) (due current w.cache)) (resent write current rto),
  length-take (budget m) (due current w.cache),
)

-- What `write` must not touch.
abbrev pub WriteKeepsData : (DataSegment → DataSegment) → Type 0
WriteKeepsData write =
    (seg : DataSegment) → ((write seg).number ≡ seg.number) × ((write seg).payload ≡ seg.payload)

flush-KeepsData :
    (write : DataSegment → DataSegment) (current rto m : ℕ)
    → WriteKeepsData write
    → KeepsData (flush_visitor write current rto m)
unfolding flush_visitor resent
flush-KeepsData write current rto m k s seg = ground (
  arith,
  k (record seg {
    timeout = add32 current rto;
    timestamp = current;
    transmit = add32 seg.transmit 1;
  }),
)

module _ (write : DataSegment → DataSegment) (k : WriteKeepsData write) (w : SendingWindow)
    (current rto m : ℕ) where
  pub flush-Ascends :
      (lo hi : ℕ) → Ascends lo hi w.cache → Ascends lo hi (flush write w current rto m).window.cache
  unfolding flush
  flush-Ascends lo hi a = ground (
    arith,
    visit-Ascends (flush_visitor write current rto m) (flush-KeepsData write current rto m k)
        (record { lost = 0; in_flight_size = 0; total = w.total_in_flight_size; written = [] }) lo
        hi w.cache a,
  )

  pub flush-AllData :
      (P : ℕ → Option (List ℕ) → Type 0)
      → AllData P w.cache
      → AllData P (flush write w current rto m).window.cache
  unfolding flush
  flush-AllData P a = ground (
    arith,
    visit-AllData (flush_visitor write current rto m) (flush-KeepsData write current rto m k) P
        (record { lost = 0; in_flight_size = 0; total = w.total_in_flight_size; written = [] })
        w.cache a,
  )

-- What is written is a segment of the window, but for its header's fields.
visit-written :
    (write : DataSegment → DataSegment) (current rto m : ℕ) (P : ℕ → Option (List ℕ) → Type 0)
    → WriteKeepsData write
    → (s : Flushing) (c : List DataSegment) → AllData P s.written
    → AllData P c
    → AllData P (visit (flush_visitor write current rto m) s c).0.written
unfolding visit flush_visitor resent
visit-written write current rto m P k s [] d a = d
visit-written write current rto m P k s (seg ∷ c) d (a, b) =
    elim (Bool-cases (is_waiting current seg)) [
      | inl e ↦ ground (arith, e, visit-written write current rto m P k s c d b)
      | inr e ↦
          let (number, payload) = k (record seg {
            timeout = add32 current rto;
            timestamp = current;
            transmit = add32 seg.transmit 1;
          }) in
          let d' = All-append _ s.written (resent write current rto seg ∷ []) d (
            subst (λ n. P n (resent write current rto seg).payload) (sym number)
                (subst (P seg.number) (sym payload) a),
            tt,
          ) in
          ground (
            arith,
            e,
            d',
            visit-written write current rto m P k (flush_visitor write current rto m s seg).0 c
                (ground (arith, e, d')) b,
          )
    ]

pub flush-written :
    (write : DataSegment → DataSegment) (current rto m : ℕ) (P : ℕ → Option (List ℕ) → Type 0)
    → WriteKeepsData write
    → (w : SendingWindow) → AllData P w.cache
    → AllData P (flush write w current rto m).written
unfolding flush
flush-written write current rto m P k w a = ground (
  arith,
  visit-written write current rto m P k
      (record { lost = 0; in_flight_size = 0; total = w.total_in_flight_size; written = [] })
      w.cache tt a,
)
