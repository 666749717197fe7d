-- ===== src/Kcp/Window/Order.antt =====
-- SendingWindow: its numbers ascend, so its loops, which stop early, find what a full search finds.
use v2root_core.Base.{
  ℕ, suc, ◌≤◌, ◌<◌, ◌≡◌, refl, Bool, true, false, ◌||◌, Option, none, some, List, [], ◌∷◌, ◌++◌,
  leb, ◌==◌, if◌then◌else◌, arith, All, All-append, map, ◌-◌,
}
use v2root_core.Kcp.Segment.{DataSegment}
use v2root_core.Kcp.Window.{
  SendingWindow, clear_cache, remove_cache, remove, clear, push, visit, handle_fast_ack,
  fast_ack_visitor,
}

-- The numbers ascend from `lo` on and stay below `hi`.
abbrev pub Ascends : ℕ → ℕ → List DataSegment → Type 0
Ascends lo hi [] = Unit {0}
Ascends lo hi (seg ∷ rest) =
    (lo ≤ seg.number) × (seg.number < hi) × Ascends (suc seg.number) hi rest

-- A fact about the number and the payload of each segment, which no operation changes.
abbrev pub AllData : (ℕ → Option (List ℕ) → Type 0) → List DataSegment → Type 0
AllData P = All (λ seg. P seg.number seg.payload)

pub AllData-map :
    (P Q : ℕ → Option (List ℕ) → Type 0) (c : List DataSegment)
    → ((n : ℕ) (p : Option (List ℕ)) → P n p → Q n p)
    → AllData P c
    → AllData Q c
AllData-map P Q [] f a = tt
AllData-map P Q (seg ∷ c) f (a, b) = (f seg.number seg.payload a, AllData-map P Q c f b)

pub Ascends-mono :
    (lo lo' hi hi' : ℕ) (c : List DataSegment)
    → lo' ≤ lo
    → hi ≤ hi'
    → Ascends lo hi c
    → Ascends lo' hi' c
Ascends-mono lo lo' hi hi' [] l h a = tt
Ascends-mono lo lo' hi hi' (seg ∷ rest) l h (a, b, c) = (
  omega arith,
  omega arith,
  Ascends-mono (suc seg.number) (suc seg.number) hi hi' rest (omega arith) h c,
)

pub Ascends-push :
    (lo hi : ℕ) (c : List DataSegment) (seg : DataSegment)
    → lo ≤ hi
    → seg.number ≡ hi
    → Ascends lo hi c
    → Ascends lo (suc hi) (c ++ seg ∷ [])
Ascends-push lo hi [] seg l e a = (omega arith, omega arith, tt)
Ascends-push lo hi (s ∷ rest) seg l e (a, b, c) =
    (a, omega arith, Ascends-push (suc s.number) hi rest seg (omega arith) e c)

pub Ascends-clear_cache :
    (una lo hi : ℕ) (c : List DataSegment) → Ascends lo hi c → Ascends una hi (clear_cache una c)
unfolding clear_cache
Ascends-clear_cache una lo hi [] a = tt
Ascends-clear_cache una lo hi (s ∷ rest) (a, b, c) =
    ground (arith, Ascends-clear_cache una (suc s.number) hi rest c)

pub Ascends-clear_cache_lo :
    (una lo hi : ℕ) (c : List DataSegment) → Ascends lo hi c → Ascends lo hi (clear_cache una c)
unfolding clear_cache
Ascends-clear_cache_lo una lo hi [] a = tt
Ascends-clear_cache_lo una lo hi (s ∷ rest) (a, b, c) = ground (
  arith,
  Ascends-mono (suc s.number) lo hi hi (clear_cache una rest) (omega arith) (omega arith)
      (Ascends-clear_cache_lo una (suc s.number) hi rest c),
)

-- The reference: every segment whose number is at least `una`, and all but those numbered `n`.
abbrev pub keep_from : ℕ → List DataSegment → List DataSegment
keep_from una [] = []
keep_from una (seg ∷ rest) =
    if leb una seg.number then seg ∷ keep_from una rest else keep_from una rest

abbrev pub without : ℕ → List DataSegment → List DataSegment
without n [] = []
without n (seg ∷ rest) = if seg.number == n then without n rest else seg ∷ without n rest

abbrev pub has_number : ℕ → List DataSegment → Bool
has_number n [] = false
has_number n (seg ∷ rest) = seg.number == n || has_number n rest

keep_from_all : (una hi : ℕ) (c : List DataSegment) → Ascends una hi c → keep_from una c ≡ c
keep_from_all una hi [] a = refl
keep_from_all una hi (s ∷ rest) (a, b, c) = ground (
  arith,
  keep_from_all una hi rest
      (Ascends-mono (suc s.number) una hi hi rest (omega arith) (omega arith) c),
)

without_all : (n lo hi : ℕ) (c : List DataSegment) → n < lo → Ascends lo hi c → without n c ≡ c
without_all n lo hi [] h a = refl
without_all n lo hi (s ∷ rest) h (a, b, c) =
    ground (arith, without_all n (suc s.number) hi rest (omega arith) c)

has_number_below :
    (n lo hi : ℕ) (c : List DataSegment) → n < lo → Ascends lo hi c → has_number n c ≡ false
has_number_below n lo hi [] h a = refl
has_number_below n lo hi (s ∷ rest) h (a, b, c) =
    ground (arith, has_number_below n (suc s.number) hi rest (omega arith) c)

clear_cache-keep_from :
    (una lo hi : ℕ) (c : List DataSegment) → Ascends lo hi c → clear_cache una c ≡ keep_from una c
unfolding clear_cache
clear_cache-keep_from una lo hi [] a = refl
clear_cache-keep_from una lo hi (s ∷ rest) (a, b, c) = ground (
  arith,
  clear_cache-keep_from una (suc s.number) hi rest c,
  λ (h : una ≤ s.number).
      keep_from_all una hi rest
        (Ascends-mono (suc s.number) una hi hi rest (omega arith) (omega arith) c),
)

-- What a removal of `n` gives: the rest, if `n` was there.
abbrev removal : ℕ → List DataSegment → Option (List DataSegment)
removal n c = if has_number n c then some (without n c) else none

remove_cache-removal :
    (n lo hi : ℕ) (c : List DataSegment) → Ascends lo hi c → remove_cache n c ≡ removal n c
unfolding remove_cache
remove_cache-removal n lo hi [] a = refl
remove_cache-removal n lo hi (s ∷ rest) (a, b, c) = ground (
  arith,
  remove_cache-removal n (suc s.number) hi rest c,
  without_all n (suc s.number) hi rest,
  has_number_below n (suc s.number) hi rest,
)

without-Ascends :
    (n lo hi : ℕ) (c : List DataSegment) → Ascends lo hi c → Ascends lo hi (without n c)
without-Ascends n lo hi [] a = tt
without-Ascends n lo hi (s ∷ rest) (a, b, c) = ground (
  arith,
  without-Ascends n (suc s.number) hi rest c,
  Ascends-mono (suc s.number) lo hi hi (without n rest) (omega arith) (omega arith),
)

without-AllData :
    (P : ℕ → Option (List ℕ) → Type 0) (n : ℕ) (c : List DataSegment)
    → AllData P c
    → AllData P (without n c)
without-AllData P n [] a = tt
without-AllData P n (s ∷ rest) (a, b) = ground (arith, without-AllData P n rest b)

keep_from-AllData :
    (P : ℕ → Option (List ℕ) → Type 0) (n : ℕ) (c : List DataSegment)
    → AllData P c
    → AllData P (keep_from n c)
keep_from-AllData P n [] a = tt
keep_from-AllData P n (s ∷ rest) (a, b) = ground (arith, keep_from-AllData P n rest b)

-- On a window in ascending order `Clear`, which stops at the first number that is not below `una`,
-- drops exactly the segments below it.
pub clear-keep_from :
    (una lo hi : ℕ) (w : SendingWindow)
    → Ascends lo hi w.cache
    → clear w una ≡ record w { cache = keep_from una w.cache }
unfolding clear
clear-keep_from una lo hi w a = rw (clear_cache-keep_from una lo hi w.cache a)

-- On a window in ascending order `Remove`, which stops at the first larger number, answers true
-- exactly if the number is there; then it takes that one segment out and counts one less in
-- flight, down to 0, and otherwise it changes nothing.
pub remove-without :
    (n lo hi : ℕ) (w : SendingWindow)
    → Ascends lo hi w.cache
    → remove w n ≡ (
        if has_number n w.cache
        then (
          record { cache = without n w.cache; total_in_flight_size = w.total_in_flight_size - 1 },
          true,
        )
        else (w, false))
unfolding remove
remove-without n lo hi w a = ground (arith, remove_cache-removal n lo hi w.cache a)

pub remove-Ascends :
    (n lo hi : ℕ) (w : SendingWindow) → Ascends lo hi w.cache → Ascends lo hi (remove w n).0.cache
remove-Ascends n lo hi w a =
    rw (remove-without n lo hi w a) (ground (arith, without-Ascends n lo hi w.cache a))

pub clear-Ascends :
    (una lo hi : ℕ) (w : SendingWindow)
    → Ascends lo hi w.cache
    → Ascends una hi (clear w una).cache × Ascends lo hi (clear w una).cache
unfolding clear
clear-Ascends una lo hi w a =
    (Ascends-clear_cache una lo hi w.cache a, Ascends-clear_cache_lo una lo hi w.cache a)

pub remove-AllData :
    (P : ℕ → Option (List ℕ) → Type 0) (n lo hi : ℕ) (w : SendingWindow)
    → Ascends lo hi w.cache
    → AllData P w.cache
    → AllData P (remove w n).0.cache
remove-AllData P n lo hi w a h =
    rw (remove-without n lo hi w a) (ground (arith, without-AllData P n w.cache h))

pub clear-AllData :
    (P : ℕ → Option (List ℕ) → Type 0) (una lo hi : ℕ) (w : SendingWindow)
    → Ascends lo hi w.cache
    → AllData P w.cache
    → AllData P (clear w una).cache
clear-AllData P una lo hi w a h =
    rw (clear-keep_from una lo hi w a) (keep_from-AllData P una w.cache h)

-- A visitor that keeps numbers and payloads keeps what is said of them.
abbrev pub KeepsData {ℓ} : {S : Type ℓ} → (S → DataSegment → S × DataSegment × Bool) → Type ℓ
KeepsData {S} f =
    (s : S) (seg : DataSegment)
    → ((f s seg).1.number ≡ seg.number) × ((f s seg).1.payload ≡ seg.payload)

pub visit-Ascends {ℓ} :
    {S : Type ℓ} (f : S → DataSegment → S × DataSegment × Bool)
    → KeepsData f
    → (s : S) (lo hi : ℕ) (c : List DataSegment) → Ascends lo hi c
    → Ascends lo hi (visit f s c).1
unfolding visit
visit-Ascends f k s lo hi [] a = tt
visit-Ascends f k s lo hi (seg ∷ rest) (a, b, c) =
    ground (arith, k s seg, visit-Ascends f k (f s seg).0 (suc seg.number) hi rest c)

pub visit-AllData {ℓ} :
    {S : Type ℓ} (f : S → DataSegment → S × DataSegment × Bool)
    → KeepsData f
    → (P : ℕ → Option (List ℕ) → Type 0) (s : S) (c : List DataSegment) → AllData P c
    → AllData P (visit f s c).1
unfolding visit
visit-AllData f k P s [] a = tt
visit-AllData f k P s (seg ∷ rest) (a, b) =
    ground (arith, k s seg, visit-AllData f k P (f s seg).0 rest b)

pub visit-empty {ℓ} :
    {S : Type ℓ} (f : S → DataSegment → S × DataSegment × Bool)
    → KeepsData f
    → (s : S) (c : List DataSegment)
    → map (λ seg. seg.number) (visit f s c).1 ≡ map (λ seg. seg.number) c
unfolding visit
visit-empty f k s [] = refl
visit-empty f k s (seg ∷ rest) = ground (arith, k s seg, visit-empty f k (f s seg).0 rest)

pub fast_ack-KeepsData : (number rto : ℕ) → KeepsData (fast_ack_visitor number rto)
unfolding fast_ack_visitor
fast_ack-KeepsData number rto s seg = ground arith

pub handle_fast_ack-Ascends :
    (w : SendingWindow) (number rto lo hi : ℕ)
    → Ascends lo hi w.cache
    → Ascends lo hi (handle_fast_ack w number rto).cache
unfolding handle_fast_ack
handle_fast_ack-Ascends w number rto lo hi a =
    visit-Ascends (fast_ack_visitor number rto) (fast_ack-KeepsData number rto) tt lo hi w.cache a

pub handle_fast_ack-AllData :
    (P : ℕ → Option (List ℕ) → Type 0) (w : SendingWindow) (number rto : ℕ)
    → AllData P w.cache
    → AllData P (handle_fast_ack w number rto).cache
unfolding handle_fast_ack
handle_fast_ack-AllData P w number rto a =
    visit-AllData (fast_ack_visitor number rto) (fast_ack-KeepsData number rto) P tt w.cache a

pub push-Ascends :
    (w : SendingWindow) (lo hi : ℕ) (b : List ℕ)
    → lo ≤ hi
    → Ascends lo hi w.cache
    → Ascends lo (suc hi) (push w hi b).cache
unfolding push
push-Ascends w lo hi b l a = Ascends-push lo hi w.cache _ l refl a

pub push-AllData :
    (P : ℕ → Option (List ℕ) → Type 0) (w : SendingWindow) (n : ℕ) (b : List ℕ)
    → P n (some b)
    → AllData P w.cache
    → AllData P (push w n b).cache
unfolding push
push-AllData P w n b p a = All-append _ w.cache _ a (p, tt)
