-- ===== src/Buf/MultiBuffer/Bytes.antt =====
-- MultiBuffer: what each operation does to the bytes, their order and the sizes of the buffers.
use v2root_core.Base.{
  ℕ, zero, suc, ◌+◌, ◌-◌, ◌≤◌, ◌≡◌, refl, sym, ap, ◌∙◌, List, [], ◌∷◌, ◌++◌, length, take, drop,
  ◌<◌, ◌⊎◌, ne→==, All, ltb, arith, Bool-cases, inl, inr, length-take, length-drop, length-append,
}
use mathlib.Core.List.{append-nil, append_assoc}
use v2root_core.Base.Outcome.{Outcome, done, invalid, panic, ◌>>=◌, Completes}
use v2root_core.Kcp.Segment.{buffer_size}
use v2root_core.Kcp.Receiving.Bytes.{concat, take-drop}
use v2root_core.Buf.MultiBuffer.{
  MultiBuffer, fill_buffers, merge_bytes, copy, compact_loop, compact, split_multi, len,
}

abbrev pub Fits : MultiBuffer → Type 0
Fits = All (λ b. length b ≤ buffer_size)

concat-append : (xs ys : MultiBuffer) → concat (xs ++ ys) ≡ concat xs ++ concat ys
concat-append [] ys = refl
concat-append (x ∷ xs) ys =
    ap (◌++◌ x) (concat-append xs ys) ∙ sym (append_assoc x (concat xs) (concat ys))

-- `Len` counts the bytes.
len-concat : (mb : MultiBuffer) → len mb ≡ length (concat mb)
unfolding len
len-concat [] = refl
len-concat (b ∷ bs) = omega (arith, len-concat bs, length-append b (concat bs))

fill_buffers-concat :
    (fuel : ℕ) (src : List ℕ)
    → length src ≤ fuel
    → (concat (fill_buffers fuel src) ≡ src) × Fits (fill_buffers fuel src)
unfolding fill_buffers
fill_buffers-concat zero [] h = (refl, tt)
fill_buffers-concat zero (x ∷ src) h = absurd (omega arith)
fill_buffers-concat (suc fuel) [] h = (refl, tt)
fill_buffers-concat (suc fuel) (x ∷ src) h =
    let (c, f) =
      fill_buffers-concat fuel (drop buffer_size (x ∷ src))
        (omega (arith, length-drop buffer_size (x ∷ src))) in
    (
      ap (◌++◌ (take buffer_size (x ∷ src))) c ∙ take-drop buffer_size (x ∷ src),
      (omega (arith, length-take buffer_size (x ∷ src)), f),
    )

-- `MergeBytes` appends the bytes, and no buffer is filled past its size.
pub merge_bytes-concat :
    (mb : MultiBuffer) (src : List ℕ)
    → Fits mb
    → (concat (merge_bytes mb src) ≡ concat mb ++ src) × Fits (merge_bytes mb src)
unfolding merge_bytes
merge_bytes-concat [] src f = fill_buffers-concat (length src) src (omega arith)
merge_bytes-concat (b ∷ []) src f =
    let (c, g) =
      fill_buffers-concat (length src) (drop (buffer_size - length b) src)
        (omega (arith, length-drop (buffer_size - length b) src)) in
    (
      ap (◌++◌ (b ++ take (buffer_size - length b) src)) c
          ∙ append_assoc b _ _
          ∙ ap (◌++◌ b) (take-drop (buffer_size - length b) src)
          ∙ ap (λ t. t ++ src) (sym (append-nil b)),
      (
        omega (
          arith,
          f.0,
          length-append b (take (buffer_size - length b) src),
          length-take (buffer_size - length b) src,
        ),
        g,
      ),
    )
merge_bytes-concat (b ∷ c ∷ bs) src (f, g) =
    let (e, h) = merge_bytes-concat (c ∷ bs) src g in
    (ap (◌++◌ b) e ∙ sym (append_assoc b (concat (c ∷ bs)) src), (f, h))

-- No buffer is empty.
abbrev pub NonEmpty : MultiBuffer → Type 0
NonEmpty = All (λ b. 0 < length b)

-- What `Compact` makes of the bytes `content` of at most `count` buffers.
abbrev pub Compacted : List ℕ → ℕ → MultiBuffer → Type 0
Compacted content count mb = (concat mb ≡ content) × Fits mb × (length mb ≤ count)

Compacted-cons :
    (last content : List ℕ) (count : ℕ) (m : Outcome MultiBuffer)
    → length last ≤ buffer_size
    → Completes (Compacted content count) m
    → Completes (Compacted (last ++ content) (suc count)) (m >>= λ mb. done (last ∷ mb))
Compacted-cons last content count (done mb) h (c, f, n) =
    (ap (◌++◌ last) c, (h, f), omega (arith, n))
Compacted-cons last content count invalid h k = k
Compacted-cons last content count panic h k = k

Compacted-joined :
    (content content' : List ℕ) (count : ℕ) (m : Outcome MultiBuffer)
    → content ≡ content'
    → Completes (Compacted content count) m
    → Completes (Compacted content' (suc count)) m
Compacted-joined content content' count (done mb) e (c, f, n) = (c ∙ e, f, omega (arith, n))
Compacted-joined content content' count invalid e k = k
Compacted-joined content content' count panic e k = k

compact_loop-Compacted :
    (last : List ℕ) (bs : MultiBuffer)
    → length last ≤ buffer_size
    → Fits bs
    → NonEmpty bs
    → Completes (Compacted (last ++ concat bs) (suc (length bs))) (compact_loop last bs)
unfolding compact_loop
compact_loop-Compacted last [] h f p = (refl, (h, tt), omega arith)
compact_loop-Compacted last (b ∷ bs) h (g, f) (q, p) =
    elim (Bool-cases (ltb (buffer_size - length last) (length b))) [
      | inl e ↦ rw e (
          Compacted-cons last (b ++ concat bs) (suc (length bs)) (compact_loop b bs) h
            (compact_loop-Compacted b bs g f p))
      | inr e ↦
          rw (e, ne→== (length b) 0 (λ z. omega (arith, z, q)))
            (Compacted-joined ((last ++ b) ++ concat bs) (last ++ (b ++ concat bs))
              (suc (length bs)) (compact_loop (last ++ b) bs) (append_assoc last b (concat bs))
              (compact_loop-Compacted (last ++ b) bs (ground (arith, e, length-append last b)) f p))
    ]

-- With no empty buffer behind the first, and none past its size, `Compact` does not panic; it keeps the
-- bytes and their order, joins buffers only where they fit one, and gives at most as many buffers.
pub compact-concat :
    (b : List ℕ) (bs : MultiBuffer)
    → Fits (b ∷ bs)
    → NonEmpty bs
    → Completes (Compacted (concat (b ∷ bs)) (length (b ∷ bs))) (compact (b ∷ bs))
unfolding compact
compact-concat b bs (g, f) p = compact_loop-Compacted b bs g f p

-- Nothing more could be taken without taking more than `size` bytes.
abbrev pub Full : ℕ → MultiBuffer → MultiBuffer → Type 0
Full size [] taken = Unit {0}
Full size (b ∷ bs) taken = size < length (concat taken) + length b

-- The bytes of `taken` and `rest` are those of `mb`, and as many as fit in `size` were taken: whole
-- buffers while they fit, or exactly `size` bytes of a first buffer that is longer.
abbrev pub Splits : MultiBuffer → ℕ → MultiBuffer × MultiBuffer → Type 0
Splits mb size (rest, taken) =
    (concat taken ++ concat rest ≡ concat mb)
    × (length (concat taken) ≤ size)
    × ((length (concat taken) ≡ size) ⊎ ((taken ++ rest ≡ mb) × Full size rest taken))

-- `SplitMulti` cuts the list in two, the first part with at most `i` buffers.
pub split_multi-append :
    (mb : MultiBuffer) (i : ℕ)
    → let (front, back) = split_multi mb i in (front ++ back ≡ mb) × (length front ≤ i)
unfolding split_multi
split_multi-append mb i = ground (arith, take-drop_multi i mb, append-nil mb, length-take i mb)
  where
    take-drop_multi : (n : ℕ) (xs : MultiBuffer) → take n xs ++ drop n xs ≡ xs
    take-drop_multi zero xs = refl
    take-drop_multi (suc n) [] = refl
    take-drop_multi (suc n) (x ∷ xs) = ap (◌∷◌ x) (take-drop_multi n xs)

take-append_le : (n : ℕ) (xs ys : List ℕ) → n ≤ length xs → take n (xs ++ ys) ≡ take n xs
take-append_le zero xs ys h = refl
take-append_le (suc n) [] ys h = absurd (omega arith)
take-append_le (suc n) (x ∷ xs) ys h = ap (◌∷◌ x) (take-append_le n xs ys (omega arith))

take-append_ge :
    (n : ℕ) (xs ys : List ℕ) → length xs ≤ n → take n (xs ++ ys) ≡ xs ++ take (n - length xs) ys
take-append_ge n [] ys h = ap (λ k. take k ys) (omega arith)
take-append_ge zero (x ∷ xs) ys h = absurd (omega arith)
take-append_ge (suc n) (x ∷ xs) ys h =
    ap (◌∷◌ x) (take-append_ge n xs ys (omega arith))
    ∙ ap (λ k. x ∷ (xs ++ take k ys)) (omega arith)

-- `Copy` stores the first bytes, as many as fit the slice.
pub copy-take : (mb : MultiBuffer) (n : ℕ) → copy mb n ≡ take n (concat mb)
unfolding copy
copy-take [] zero = refl
copy-take [] (suc n) = refl
copy-take (b ∷ bs) n = elim (Bool-cases (ltb n (length b))) [
  | inl e ↦ rw e (sym (take-append_le n b (concat bs) (ground (arith, e))))
  | inr e ↦ rw e (
      ap (◌++◌ b) (copy-take bs (n - length b))
      ∙ sym (take-append_ge n b (concat bs) (ground (arith, e))))
]
