-- ===== src/Buf/Buffer.antt =====
-- common/buf/buffer.go, Buffer. The fields `v`, `start` and `end` are given by the three parts that
-- they cut `v` into: the bytes before `start`, the content, and the bytes from `end` on. An index that
-- is negative in the source, counting from the end, is not modelled; nor are the pools.
pub mod Contents
mod Tests
use v2root_core.Base.{
  ℕ, zero, suc, ◌+◌, Bool, true, false, List, [], ◌∷◌, ◌++◌, length, take, drop, ltb, leb, ◌==◌,
  if◌then◌else◌,
}
use v2root_core.Base.Outcome.{Outcome, done, panic}

pub record Buffer : Type 0 where
  pub before : List ℕ
  pub content : List ℕ
  pub after : List ℕ

-- The field `v`.
abbrev pub storage : Buffer → List ℕ
storage b = b.before ++ (b.content ++ b.after)

-- `Clear`: `start` and `end` are 0.
pub clear : Buffer → Buffer
clear b = record { before = []; content = []; after = storage b }

pub bytes : Buffer → List ℕ
bytes b = b.content

abbrev pub zeroed : ℕ → List ℕ
zeroed zero = []
zeroed (suc n) = 0 ∷ zeroed n

-- `Extend`, which zeroes the new part.
pub extend : Buffer → ℕ → Outcome Buffer
extend b n =
    if ltb (length b.after) n
    then panic
    else done (record b { content = b.content ++ zeroed n; after = drop n b.after })

-- `Advance`, with `Check`.
pub advance : Buffer → ℕ → Buffer
advance b n = record b { before = b.before ++ take n b.content; content = drop n b.content }

pub len : Buffer → ℕ
len b = length b.content

pub cap : Buffer → ℕ
cap b = length (storage b)

pub available : Buffer → ℕ
available b = length b.after

pub is_empty : Buffer → Bool
unfolding len
is_empty b = len b == 0

pub is_full : Buffer → Bool
is_full b = length b.after == 0

-- `Write`: the buffer, and false for ErrBufferFull.
pub write : Buffer → List ℕ → Buffer × Bool
write b src = (
  record b { content = b.content ++ take (length b.after) src; after = drop (length src) b.after },
  leb (length src) (length b.after),
)

-- `Read` into `n` bytes: the bytes stored, the buffer, and false for io.EOF.
pub read : Buffer → ℕ → List ℕ × Buffer × Bool
unfolding clear advance
read b n =
    if length b.content == 0
    then ([], b, false)
    else (take n b.content, (if leb (length b.content) n then clear b else advance b n), true)
