-- ===== src/Kcp/Authenticator.antt =====
-- transport/internet/kcp/crypt.go, SimpleAuthenticator, and xor.go (the assembly of amd64 is another
-- implementation of the same two functions). The hash, hash/fnv's New32a, is a parameter.
pub mod Sealing
mod Tests
use Prim.Native.Nat.{bit_xor}
use v2root_core.Base.{
  ℕ, zero, suc, ◌-◌, ◌%◌, ◌^◌, not, List, [], ◌∷◌, ◌++◌, length, take, ◌==◌, if◌then◌else◌,
}
use v2root_core.Base.Bytes.{uint16, uint32, put_uint16, put_uint32, slice_from}
use v2root_core.Base.Outcome.{Outcome, done, ensure, ◌>>=◌, ◌>>◌}

-- The loop of `xorfwd`, which goes up: the four bytes before are those already changed.
pub forward : ℕ → ℕ → ℕ → ℕ → List ℕ → List ℕ
forward a b c d [] = []
forward a b c d (x ∷ xs) = bit_xor x a ∷ forward b c d (bit_xor x a) xs

pub xorfwd : List ℕ → List ℕ
unfolding forward
xorfwd (a ∷ b ∷ c ∷ d ∷ xs) = a ∷ b ∷ c ∷ d ∷ forward a b c d xs
xorfwd xs = xs

-- The loop of `xorbkd`, which goes down: the four bytes before are not changed yet.
pub backward : ℕ → ℕ → ℕ → ℕ → List ℕ → List ℕ
backward a b c d [] = []
backward a b c d (x ∷ xs) = bit_xor x a ∷ backward b c d x xs

pub xorbkd : List ℕ → List ℕ
unfolding backward
xorbkd (a ∷ b ∷ c ∷ d ∷ xs) = a ∷ b ∷ c ∷ d ∷ backward a b c d xs
xorbkd xs = xs

abbrev pub zeros : ℕ → List ℕ
zeros zero = []
zeros (suc n) = 0 ∷ zeros n

-- What both methods do around the exclusive or: pad to a multiple of four bytes, and cut again.
pub padded : (List ℕ → List ℕ) → List ℕ → List ℕ
padded xor dst =
    let xtra = 4 - length dst % 4 in
    if xtra == 4 then xor dst else take (length dst) (xor (dst ++ zeros xtra))

-- `Seal`, with no destination, nonce or additional data.
pub seal : (List ℕ → ℕ) → List ℕ → List ℕ
unfolding padded xorfwd
seal hash plain =
    let body = put_uint16 (length plain % 2 ^ 16) ++ plain in
    padded xorfwd (put_uint32 (hash body) ++ body)

-- The rest of `Open`, on the bytes after the exclusive or. A packet has six bytes at least, which
-- the packet reader makes sure of.
pub verified : (List ℕ → ℕ) → List ℕ → Outcome (List ℕ)
verified hash dst = do
  body ← slice_from 4 dst
  sum ← uint32 dst
  ensure (sum == hash body)
  len ← uint16 body
  plain ← slice_from 6 dst
  ensure (length plain == len)
  done plain

-- `Open`
pub opened : (List ℕ → ℕ) → List ℕ → Outcome (List ℕ)
unfolding padded xorbkd
opened hash cipher_text = verified hash (padded xorbkd cipher_text)
