-- ===== src/Buf/MultiBuffer.antt =====
-- common/buf/multi_buffer.go: a MultiBuffer is the list of its buffers' contents; a nil MultiBuffer is
-- the empty list. A buffer comes from the pool with `buffer_size` bytes (Size in buffer.go).
-- `merge_bytes` and `compact` take the buffers to start at the front of those bytes, so that
-- `Available` is what the content leaves of them: a buffer that was advanced has less room than here.
-- Release of a buffer is left out.
pub mod Bytes
mod Tests
use v2root_core.Base.{
  ℕ, zero, suc, ◌+◌, ◌-◌, Bool, Option, none, some, List, [], ◌∷◌, ◌++◌, length, take, drop, ltb,
  leb, ◌==◌, if◌then◌else◌,
}
use v2root_core.Base.Outcome.{Outcome, done, panic, ◌>>=◌}
use v2root_core.Kcp.Segment.{buffer_size}

abbrev pub MultiBuffer : Type 0
MultiBuffer = List (List ℕ)

-- The new `dest` and `src`.
pub merge_multi : MultiBuffer → MultiBuffer → MultiBuffer × MultiBuffer
merge_multi dest src = (dest ++ src, [])

-- The loop of `MergeBytes`: new buffers, as full as they get. `fuel` bounds the rounds; each takes
-- a byte at least.
pub fill_buffers : ℕ → List ℕ → MultiBuffer
fill_buffers zero src = []
fill_buffers (suc fuel) [] = []
fill_buffers (suc fuel) (x ∷ src) =
    take buffer_size (x ∷ src) ∷ fill_buffers fuel (drop buffer_size (x ∷ src))

-- `MergeBytes`: the last buffer takes what fits, the rest goes to new ones.
pub merge_bytes : MultiBuffer → List ℕ → MultiBuffer
unfolding fill_buffers
merge_bytes [] src = fill_buffers (length src) src
merge_bytes (b ∷ []) src =
    let room = buffer_size - length b in
    (b ++ take room src) ∷ fill_buffers (length src) (drop room src)
merge_bytes (b ∷ c ∷ bs) src = b ∷ merge_bytes (c ∷ bs) src

-- `Copy` into `n` bytes: the bytes stored.
pub copy : MultiBuffer → ℕ → List ℕ
copy [] n = []
copy (b ∷ bs) n =
    let rest = copy bs (n - length b) in if ltb n (length b) then take n b else b ++ rest

pub split_first : MultiBuffer → MultiBuffer × Option (List ℕ)
split_first [] = ([], none)
split_first (b ∷ bs) = (bs, some b)

-- Into a slice of `n` bytes: the rest, and the bytes stored.
pub split_first_bytes : MultiBuffer → ℕ → MultiBuffer × List ℕ
split_first_bytes mb n =
    let (rest, b) = split_first mb in
    elim b [ none ↦ (rest, []) | some bytes ↦ (rest, take n bytes) ]

-- The loop of `Compact` with `last`. A buffer that is empty fits always, but to read it gives io.EOF, on
-- which `Must2` panics.
pub compact_loop : List ℕ → MultiBuffer → Outcome MultiBuffer
compact_loop last [] = done (last ∷ [])
compact_loop last (b ∷ bs) =
    let kept = compact_loop b bs >>= λ mb. done (last ∷ mb) in
    let joined = compact_loop (last ++ b) bs in
    if ltb (buffer_size - length last) (length b)
    then kept
    else if length b == 0
    then panic
    else joined

pub compact : MultiBuffer → Outcome MultiBuffer
unfolding compact_loop
compact [] = done []
compact (b ∷ bs) = compact_loop b bs

-- The loop of `SplitSize`: the rest, and the whole buffers taken.
pub split_whole : ℕ → MultiBuffer → ℕ → MultiBuffer × MultiBuffer
split_whole total [] size = ([], [])
split_whole total (b ∷ bs) size =
    let (rest, taken) = split_whole (total + length b) bs size in
    if ltb size (total + length b) then (b ∷ bs, []) else (rest, b ∷ taken)

-- `SplitSize` for a size that is not negative. `Extend` of a new buffer past its end panics.
pub split_size : MultiBuffer → ℕ → Outcome (MultiBuffer × MultiBuffer)
unfolding split_whole
split_size [] size = done ([], [])
split_size (b ∷ bs) size =
    if ltb size (length b)
    then if ltb buffer_size size then panic else done (drop size b ∷ bs, take size b ∷ [])
    else done (split_whole 0 (b ∷ bs) size)

-- `SplitMulti` for an index that is not negative.
pub split_multi : MultiBuffer → ℕ → MultiBuffer × MultiBuffer
split_multi mb i = if ltb i (length mb) then (take i mb, drop i mb) else (mb, [])

pub len : MultiBuffer → ℕ
len [] = 0
len (b ∷ bs) = length b + len bs
