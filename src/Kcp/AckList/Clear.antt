-- ===== src/Kcp/AckList/Clear.antt =====
-- AckList.Clear: the compaction in place keeps exactly the entries from `una` on.
use v2root_core.Base.{
  ℕ, ◌+◌, ◌≡◌, refl, ap, ◌∙◌, true, false, ◌||◌, ge→ltb, lt→ltb, List, [], ◌∷◌, ◌++◌, length, take,
  ltb, if◌then◌else◌, map, arith, Bool-cases, inl, inr, eq→==, ne→==, length-append, length-map,
}
use mathlib.Core.Path.{ap₂}
use mathlib.Core.List.{append-nil, append_assoc, map-append}
use v2root_core.Base.Outcome.{done, ◌>>=◌}
use v2root_core.Base.Arrays.{index, set}
use v2root_core.Kcp.AckList.{
  AckList, clear, clear_entry, clear_loop, move, move_entry, add, new_ack_list,
}

-- The three slices seen as one list of entries.
pub record Entry : Type 0 where
  pub number : ℕ
  pub timestamp : ℕ
  pub next_flush : ℕ

abbrev pub with_entries : AckList → List Entry → AckList
with_entries l es = record l {
  numbers = map (λ e. e.number) es;
  timestamps = map (λ e. e.timestamp) es;
  next_flush = map (λ e. e.next_flush) es;
}

-- The slices have the same length, and hold these entries.
abbrev pub Holds : AckList → List Entry → Type 0
Holds l es = l ≡ with_entries l es

abbrev pub kept : ℕ → List Entry → List Entry
kept una [] = []
kept una (e ∷ es) = if ltb e.number una then kept una es else e ∷ kept una es

-- The value `index front` of a slice that is taken apart there.
module _ (f : Entry → ℕ) where
  pub index-map :
      (xs : List Entry) (e : Entry) (ys : List Entry)
      → index (map f (xs ++ e ∷ ys)) (length xs) ≡ done (f e)
  unfolding index
  index-map [] e ys = refl
  index-map (x ∷ xs) e ys = index-map xs e ys

  pub set-map :
      (xs : List Entry) (e : Entry) (ys : List Entry) (d : Entry)
      → set (map f (xs ++ e ∷ ys)) (length xs) (f d) ≡ done (map f (xs ++ d ∷ ys))
  unfolding set
  set-map [] e ys d = refl
  set-map (x ∷ xs) e ys d = ap (λ r. r >>= λ zs. done (f x ∷ zs)) (set-map xs e ys d)

  move-map :
      (front js rest : List Entry) (j e : Entry)
      → move (map f ((front ++ j ∷ js) ++ e ∷ rest)) (length front) (length (front ++ j ∷ js))
        ≡ done (map f ((front ++ e ∷ js) ++ e ∷ rest))
  unfolding move
  move-map front js rest j e = rw (
    index-map (front ++ j ∷ js) e rest,
    append_assoc,
    set-map front j (js ++ e ∷ rest) e,
    append_assoc front (e ∷ js) (e ∷ rest),
  )

move_entry-entries :
    (l : AckList) (front js rest : List Entry) (j e : Entry)
    → move_entry
        (with_entries l ((front ++ j ∷ js) ++ e ∷ rest))
        (length front)
        (length (front ++ j ∷ js))
      ≡ done (with_entries l ((front ++ e ∷ js) ++ e ∷ rest))
unfolding move_entry
move_entry-entries l front js rest j e = rw (
  move-map (λ e. e.number) front js rest j e,
  move-map (λ e. e.timestamp) front js rest j e,
  move-map (λ e. e.next_flush) front js rest j e,
)

snoc : (xs ys zs : List Entry) (e : Entry) → (xs ++ ys) ++ e ∷ zs ≡ (xs ++ (ys ++ e ∷ [])) ++ zs
snoc xs ys zs e = simp (append_assoc)

module _ (una : ℕ) (l : AckList) (front junk : List Entry) (e : Entry) (rest : List Entry) where
  clear_entry-dropped :
      ltb e.number una ≡ true
      → clear_entry una
          (with_entries l ((front ++ junk) ++ e ∷ rest))
          (length (front ++ junk))
          (length front)
        ≡ done (with_entries l ((front ++ (junk ++ e ∷ [])) ++ rest), length front)
  unfolding clear_entry
  clear_entry-dropped h =
      rw (index-map (λ d. d.number) (front ++ junk) e rest, h, snoc front junk rest e)

  clear_entry-here :
      ltb e.number una ≡ false
      → clear_entry una
          (with_entries l ((front ++ []) ++ e ∷ rest))
          (length (front ++ []))
          (length front)
        ≡ done (with_entries l (((front ++ e ∷ []) ++ []) ++ rest), length (front ++ e ∷ []))
  unfolding clear_entry
  clear_entry-here h =
      rw
        (
          index-map (λ d. d.number) (front ++ []) e rest,
          h,
          eq→== (length (front ++ [])) (length front) (rw (append-nil front) refl),
        )
        (ap₂ (λ es n. done (with_entries l es, n)) (simp (append-nil, append_assoc))
          (omega (arith, length-append front (e ∷ []))))

module _ (una : ℕ) (l : AckList) (front js : List Entry) (j e : Entry) (rest : List Entry) where
  clear_entry-moved :
      ltb e.number una ≡ false
      → clear_entry una
          (with_entries l ((front ++ j ∷ js) ++ e ∷ rest))
          (length (front ++ j ∷ js))
          (length front)
        ≡ done (
          with_entries l (((front ++ e ∷ []) ++ (js ++ e ∷ [])) ++ rest),
          length (front ++ e ∷ []),
        )
  unfolding clear_entry
  clear_entry-moved h =
      rw
        (
          index-map (λ d. d.number) (front ++ j ∷ js) e rest,
          h,
          ne→== (length (front ++ j ∷ js)) (length front)
              (λ q. omega (arith, length-append front (j ∷ js))),
          move_entry-entries l front js rest j e,
        )
        (ap₂ (λ es n. done (with_entries l es, n)) (simp append_assoc)
          (omega (arith, length-append front (e ∷ []))))

-- The outcome of the loop: `all` is what it keeps, and the slices hold it in front.
abbrev LoopKeeps : ℕ → AckList → List Entry → List Entry → List Entry → List Entry → Type 0
LoopKeeps una l rest front junk all =
    (junk' : List Entry) × (clear_loop (length rest) una (with_entries l ((front ++ junk) ++ rest))
        (length (front ++ junk)) (length front)
      ≡ done (with_entries l (all ++ junk'), length all))
    × (length (front ++ junk) + length rest ≡ length (all ++ junk'))

-- One round leads to the loop over the rest.
LoopKeeps-step :
    (una : ℕ) (l : AckList) (e : Entry) (rest front junk front' junk' all : List Entry)
    → clear_entry una
        (with_entries l ((front ++ junk) ++ e ∷ rest))
        (length (front ++ junk))
        (length front)
      ≡ done (with_entries l ((front' ++ junk') ++ rest), length front')
    → length (front' ++ junk') ≡ length (front ++ junk) + 1
    → LoopKeeps una l rest front' junk' all
    → LoopKeeps una l (e ∷ rest) front junk all
unfolding clear_loop
LoopKeeps-step una l e rest front junk front' junk' all step len (j, eq, sum) =
    (j, rw (step, ← len) eq, omega arith)

here :
    (una : ℕ) (l : AckList) (e : Entry) (rest front junk : List Entry)
    → ltb e.number una ≡ false
    → ((js : List Entry)
        → LoopKeeps una l rest (front ++ e ∷ []) js ((front ++ e ∷ []) ++ kept una rest))
    → LoopKeeps una l (e ∷ rest) front junk ((front ++ e ∷ []) ++ kept una rest)
here una l e rest front [] h ih =
    LoopKeeps-step una l e rest front [] (front ++ e ∷ []) [] _
      (clear_entry-here una l front [] e rest h)
      (simp append-nil (omega (arith, length-append front (e ∷ [])))) (ih [])
here una l e rest front (j ∷ js) h ih =
    LoopKeeps-step una l e rest front (j ∷ js) (front ++ e ∷ []) (js ++ e ∷ []) _
      (clear_entry-moved una l front js j e rest h)
      (omega (
        arith,
        length-append front (j ∷ js),
        length-append (front ++ e ∷ []) (js ++ e ∷ []),
        length-append js (e ∷ []),
        length-append front (e ∷ []),
      ))
      (ih (js ++ e ∷ []))

-- `front` was kept and stands at the front, `junk` is what was dropped or moved, `rest` is to come.
clear_loop-kept :
    (una : ℕ) (l : AckList) (rest front junk : List Entry)
    → LoopKeeps una l rest front junk (front ++ kept una rest)
unfolding clear_loop
clear_loop-kept una l [] front junk = (junk, simp append-nil, simp append-nil (omega arith))
clear_loop-kept una l (e ∷ rest) front junk = elim (Bool-cases (ltb e.number una)) [
  | inl h ↦ rw h (
      LoopKeeps-step una l e rest front junk front (junk ++ e ∷ []) _
        (clear_entry-dropped una l front junk e rest h)
        (omega (
          arith,
          length-append front (junk ++ e ∷ []),
          length-append junk (e ∷ []),
          length-append front junk,
        ))
        (clear_loop-kept una l rest front (junk ++ e ∷ [])))
  | inr h ↦
      rw (h, ← append_assoc front (e ∷ []) (kept una rest))
        (here una l e rest front junk h (λ js. clear_loop-kept una l rest (front ++ e ∷ []) js))
]

take-map : (f : Entry → ℕ) (xs ys : List Entry) → take (length xs) (map f (xs ++ ys)) ≡ map f xs
take-map f [] ys = refl
take-map f (x ∷ xs) ys = ap (◌∷◌ (f x)) (take-map f xs ys)

-- The list that `Clear` makes of a loop's outcome.
finish :
    (l : AckList) (all junk : List Entry)
    → (if ltb (length all) (length (map (λ e. e.number) (all ++ junk)))
        then record l {
          numbers = take (length all) (map (λ e. e.number) (all ++ junk));
          timestamps = take (length all) (map (λ e. e.timestamp) (all ++ junk));
          next_flush = take (length all) (map (λ e. e.next_flush) (all ++ junk));
          dirty = true;
        }
        else with_entries l (all ++ junk))
      ≡ record (with_entries l all) { dirty = ltb (length all) (length (all ++ junk)) || l.dirty }
finish l all [] = simp append-nil (
    rw (
      ge→ltb (length all) (length (map (λ e. e.number) all))
          (omega (arith, length-map all (λ (e : Entry). e.number))),
      ge→ltb (length all) (length all) (omega arith),
    ))
finish l all (j ∷ js) = rw (
  lt→ltb (length all) (length (map (λ e. e.number) (all ++ j ∷ js))) (
      omega
        (arith, length-map (all ++ j ∷ js) (λ (e : Entry). e.number), length-append all (j ∷ js))),
  lt→ltb (length all) (length (all ++ j ∷ js)) (omega (arith, length-append all (j ∷ js))),
  take-map (λ e. e.number) all (j ∷ js),
  take-map (λ e. e.timestamp) all (j ∷ js),
  take-map (λ e. e.next_flush) all (j ∷ js),
)

-- On three slices that hold the entries `es`, `Clear` never indexes out of range and leaves
-- exactly the entries whose number is at least `una`, in their order, in slices cut to their number;
-- the list becomes dirty if an entry was dropped.
pub clear-kept :
    (una : ℕ) (l : AckList) (es : List Entry)
    → clear (with_entries l es) una
      ≡ done (record (with_entries l (kept una es)) {
        dirty = ltb (length (kept una es)) (length es) || l.dirty;
      })
unfolding clear
clear-kept una l es =
    let (junk, eq, sum) = clear_loop-kept una l es [] [] in
    rw (
      length-map es (λ e. e.number),
      eq,
      finish l (kept una es) junk,
      (let e : length (kept una es ++ junk) ≡ length es = omega arith in e),
    )

pub clear-Holds :
    (una : ℕ) (l : AckList) (es : List Entry)
    → Holds l es
    → (l' : AckList) × (clear l una ≡ done l') × Holds l' (kept una es)
clear-Holds una l es h = (_, ap (λ m. clear m una) h ∙ clear-kept una l es, refl)

pub add-Holds :
    (l : AckList) (es : List Entry) (number timestamp : ℕ)
    → Holds l es
    → Holds
        (add l number timestamp)
        (es ++ record { number = number; timestamp = timestamp; next_flush = 0 } ∷ [])
unfolding add
add-Holds l es number timestamp h =
    rw (map-append, map-append, map-append) (ap (λ m. add m number timestamp) h)

pub new_ack_list-Holds : Holds new_ack_list []
unfolding new_ack_list
new_ack_list-Holds = refl
