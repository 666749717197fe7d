-- ===== src/Kcp/AckList/Flush.antt =====
-- AckList.Flush: it indexes within its slices, and every segment that it writes is within the limit.
use v2root_core.Base.{
  ℕ, ◌+◌, ◌≤◌, ◌<◌, ◌≡◌, refl, sym, ap, ◌∙◌, false, ◌||◌, not, List, [], ◌∷◌, ◌++◌, length, All,
  All-append, ltb, if◌then◌else◌, map, arith, Bool-cases, inl, inr, length-append, length-map,
}
use mathlib.Core.Path.{subst}
use mathlib.Core.List.{append_assoc}
use v2root_core.Base.Words.{add32}
use v2root_core.Base.Outcome.{done}
use v2root_core.Base.Arrays.{index, set}
use v2root_core.Kcp.Segment.{
  AckSegment, new_ack_segment, put_number, put_timestamp, is_full, is_empty, ack_number_limit,
}
use v2root_core.Kcp.AckList.{
  AckList, Flushing, flush, flush_entry, flush_loop, keep_candidate, write_if_full, resend_delay,
  fill, candidates_cap,
}
use v2root_core.Kcp.AckList.Clear.{Entry, Holds, index-map, set-map}

snoc : (xs ys : List Entry) (e : Entry) → xs ++ e ∷ ys ≡ (xs ++ e ∷ []) ++ ys
snoc xs ys e = sym (append_assoc xs (e ∷ []) ys)

length_snoc : (xs : List Entry) (e : Entry) → length (xs ++ e ∷ []) ≡ length xs + 1
length_snoc xs e = omega (arith, length-append xs (e ∷ []))

-- The entry after a flush at `current`: one whose time has come gets its next one.
abbrev pub postponed : ℕ → ℕ → Entry → Entry
postponed current rto e =
    if ltb current e.next_flush
    then e
    else record e { next_flush = add32 current (resend_delay rto) }

abbrev Fits : AckSegment → Type 0
Fits seg = length seg.number_list ≤ ack_number_limit

-- The state of the loop over the entries `es`, the segment that is being filled not yet full.
record IsFlushing (es : List Entry) (s : Flushing) : Type 0 where
  holds : Holds s.list es
  room : length s.seg.number_list < ack_number_limit
  fits : All Fits s.written
  candidates : length s.list.flush_candidates ≤ candidates_cap

length-put :
    (seg : AckSegment) (number timestamp : ℕ)
    → length (put_timestamp (put_number seg number) timestamp).number_list
      ≡ length seg.number_list + 1
length-put seg number timestamp = ground (arith, length-append seg.number_list (number ∷ []))

keep_candidate-IsFlushing :
    (s : Flushing) (es : List Entry) (number : ℕ)
    → IsFlushing es s
    → IsFlushing es (record s { list = keep_candidate s.list number })
unfolding keep_candidate
keep_candidate-IsFlushing s es number r =
    elim (Bool-cases (ltb (length s.list.flush_candidates) candidates_cap)) [
      | inl e ↦ rw e (record {
        holds =
            ap
              (λ (m : AckList). record m {
                flush_candidates = s.list.flush_candidates ++ number ∷ [];
              })
              r.holds;
        room = r.room;
        fits = r.fits;
        candidates = ground (arith, e, length-append s.list.flush_candidates (number ∷ []));
      })
      | inr e ↦
          rw e (record { holds = r.holds; room = r.room; fits = r.fits; candidates = r.candidates })
    ]

-- An entry of the slices, read through the entries.
module _ (l : AckList) (pre post : List Entry) (e : Entry) (h : Holds l (pre ++ e ∷ post)) where
  index_next : index l.next_flush (length pre) ≡ done e.next_flush
  index_next =
      ap (λ m. index m.next_flush (length pre)) h ∙ index-map (λ d. d.next_flush) pre e post

  index_number : index l.numbers (length pre) ≡ done e.number
  index_number = ap (λ m. index m.numbers (length pre)) h ∙ index-map (λ d. d.number) pre e post

  index_timestamp : index l.timestamps (length pre) ≡ done e.timestamp
  index_timestamp =
      ap (λ m. index m.timestamps (length pre)) h ∙ index-map (λ d. d.timestamp) pre e post

  set_next :
      (v : ℕ)
      → set l.next_flush (length pre) v
        ≡ done (map (λ d. d.next_flush) (pre ++ record e { next_flush = v } ∷ post))
  set_next v =
      ap (λ m. set m.next_flush (length pre) v) h
      ∙ set-map (λ d. d.next_flush) pre e post (record e { next_flush = v })

  map-replace :
      (g : Entry → ℕ) (v : ℕ) (qs : List Entry)
      → g (record e { next_flush = v }) ≡ g e
      → map g (qs ++ record e { next_flush = v } ∷ post) ≡ map g (qs ++ e ∷ post)
  map-replace g v [] k = ap (λ x. x ∷ map g post) k
  map-replace g v (q ∷ qs) k = ap (◌∷◌ (g q)) (map-replace g v qs k)

  Holds-set :
      (v : ℕ)
      → Holds
          (record l {
            next_flush = map (λ d. d.next_flush) (pre ++ record e { next_flush = v } ∷ post);
          })
          (pre ++ record e { next_flush = v } ∷ post)
  Holds-set v =
      rw (map-replace (λ d. d.number) v pre refl, map-replace (λ d. d.timestamp) v pre refl)
        (ap
          (λ (m : AckList). record m {
            next_flush = map (λ d. d.next_flush) (pre ++ record e { next_flush = v } ∷ post);
          })
          h)

module _ (write : AckSegment → AckSegment) (current rto : ℕ)
    (same : (seg : AckSegment) → (write seg).number_list ≡ seg.number_list) where
  write_if_full-IsFlushing :
      (s : Flushing) (es : List Entry)
      → Holds s.list es
      → Fits s.seg
      → All Fits s.written
      → length s.list.flush_candidates ≤ candidates_cap
      → IsFlushing es (write_if_full write s)
  unfolding write_if_full
  write_if_full-IsFlushing s es h l a c = elim (Bool-cases (is_full s.seg)) [
    | inl e ↦ rw e (record {
      holds = ap (λ (m : AckList). record m { dirty = false }) h;
      room = omega arith;
      fits = All-append Fits s.written (write s.seg ∷ []) a (rw (same s.seg) l, tt);
      candidates = c;
    })
    | inr e ↦ rw e (record { holds = h; room = ground (arith, e); fits = a; candidates = c })
  ]

  flush_entry-IsFlushing :
      (s : Flushing) (pre post : List Entry) (e : Entry)
      → IsFlushing (pre ++ e ∷ post) s
      → (s' : Flushing) × (flush_entry write current rto s (length pre) ≡ done s')
        × IsFlushing (pre ++ postponed current rto e ∷ post) s'
  unfolding flush_entry
  flush_entry-IsFlushing s pre post e r = elim (Bool-cases (ltb current e.next_flush)) [
    | inl h ↦ rw h (
      record s { list = keep_candidate s.list e.number },
      rw (index_next s.list pre post e r.holds, index_number s.list pre post e r.holds, h),
      keep_candidate-IsFlushing s (pre ++ e ∷ post) e.number r,
    )
    | inr h ↦
        let s1 : Flushing = record s {
          list = record s.list {
            next_flush =
                map (λ d. d.next_flush)
                  (pre ++ record e { next_flush = add32 current (resend_delay rto) } ∷ post);
          };
          seg = put_timestamp (put_number s.seg e.number) e.timestamp;
        } in
        rw h (
          write_if_full write s1,
          rw (
            index_next s.list pre post e r.holds,
            index_number s.list pre post e r.holds,
            h,
            index_timestamp s.list pre post e r.holds,
            set_next s.list pre post e r.holds (add32 current (resend_delay rto)),
          ),
          write_if_full-IsFlushing s1 _
              (Holds-set s.list pre post e r.holds (add32 current (resend_delay rto)))
              (omega (arith, r.room, length-put s.seg e.number e.timestamp)) r.fits r.candidates,
        )
  ]

  flush_loop-IsFlushing :
      (rest pre : List Entry) (s : Flushing)
      → IsFlushing (pre ++ rest) s
      → (s' : Flushing) × (flush_loop write current rto (length rest) (length pre) s ≡ done s')
        × IsFlushing (pre ++ map (postponed current rto) rest) s'
  unfolding flush_loop
  flush_loop-IsFlushing [] pre s r = (s, refl, r)
  flush_loop-IsFlushing (e ∷ rest) pre s r =
      let (s1, eq, r1) = flush_entry-IsFlushing s pre rest e r in
      let (s2, eq2, r2) =
        flush_loop-IsFlushing rest (pre ++ postponed current rto e ∷ []) s1
          (subst (λ es. IsFlushing es s1) (snoc pre rest (postponed current rto e)) r1) in
      (
        s2,
        rw eq (rw (length_snoc pre (postponed current rto e)) at eq2),
        subst (λ es. IsFlushing es s2)
            (sym (snoc pre (map (postponed current rto) rest) (postponed current rto e))) r2,
      )

fill-Fits : (numbers : List ℕ) (seg : AckSegment) → Fits seg → Fits (fill seg numbers)
unfolding fill
fill-Fits [] seg h = h
fill-Fits (n ∷ numbers) seg h =
    ground (arith, length-append seg.number_list (n ∷ []), fill-Fits numbers (put_number seg n))

-- On slices that hold the entries `es` a flush makes no access out of range. It leaves the same
-- entries, where each whose time had come has its next time set; no segment that it writes has
-- more than 128 numbers, so each fits the count byte of the wire format; the candidates stay within
-- their capacity, and unless nothing was to be said the list is clean.
pub flush-postponed :
    (write : AckSegment → AckSegment) (current rto : ℕ) (l : AckList) (es : List Entry)
    → ((seg : AckSegment) → (write seg).number_list ≡ seg.number_list)
    → Holds l es
    → (l' : AckList) × (written : List AckSegment) × (flush write l current rto
        ≡ done (l', written))
      × Holds l' (map (postponed current rto) es)
      × All (λ seg. length seg.number_list ≤ ack_number_limit) written
      × (length l'.flush_candidates ≤ candidates_cap)
      × (l'.dirty ≡ false)
unfolding flush
flush-postponed write current rto l es same h =
    let (s, eq, r) =
      flush_loop-IsFlushing write current rto same es []
        (record { list = record l { flush_candidates = [] }; seg = new_ack_segment; written = [] })
        (record {
          holds = ap (λ (m : AckList). record m { flush_candidates = [] }) h;
          room = omega arith;
          fits = tt;
          candidates = omega arith;
        }) in
    let len : length l.numbers ≡ length es =
      ap (λ (m : AckList). length m.numbers) h ∙ length-map es (λ e. e.number) in
    elim (Bool-cases (s.list.dirty || not (is_empty s.seg))) [
      | inl t ↦ (
        record s.list { dirty = false },
        s.written ++ write (fill s.seg s.list.flush_candidates) ∷ [],
        rw (len, eq, t),
        ap (λ (m : AckList). record m { dirty = false }) r.holds,
        All-append Fits s.written _ r.fits (
          rw (same (fill s.seg s.list.flush_candidates))
              (fill-Fits s.list.flush_candidates s.seg (omega (arith, r.room))),
          tt,
        ),
        r.candidates,
        refl,
      )
      | inr t ↦
          (s.list, s.written, rw (len, eq, t), r.holds, r.fits, r.candidates, ground (arith, t))
    ]
