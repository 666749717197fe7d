-- ===== src/Base/Bytes.antt =====
-- Byte slices as lists of numbers, and encoding/binary's big-endian words.
-- An access or a slice expression out of range panics.
use Prim.Native.Nat.{ℕ, zero, suc, ◌+◌, ◌*◌, ◌/◌, ◌%◌, ◌^◌, ◌≤◌}
use mathlib.Core.Path.{◌≡◌, refl}
use mathlib.Core.List.{List, [], ◌∷◌}
use native.Mathlib.Omega.{arith}
use v2root_core.Base.Words.{IsByte, IsU16, IsU32}
use v2root_core.Base.Outcome.{Outcome, done, invalid, panic}
use v2root_core.Base.Lists.{length, take, drop, All}

-- `buf[0]`, `buf[1]` by index.
abbrev pub byte_at : ℕ → List ℕ → Outcome ℕ
byte_at i [] = panic
byte_at zero (b ∷ bs) = done b
byte_at (suc i) (b ∷ bs) = byte_at i bs

-- `binary.BigEndian.Uint16(buf)` and `Uint32(buf)`.
abbrev pub uint16 : List ℕ → Outcome ℕ
uint16 (a ∷ b ∷ _) = done (a * 256 + b)
uint16 _ = panic

abbrev pub uint32 : List ℕ → Outcome ℕ
uint32 (a ∷ b ∷ c ∷ d ∷ _) = done (a * 2 ^ 24 + b * 2 ^ 16 + c * 256 + d)
uint32 _ = panic

-- The bytes that `PutUint16` and `PutUint32` store.
abbrev pub put_uint16 : ℕ → List ℕ
put_uint16 v = v / 256 % 256 ∷ v % 256 ∷ []

abbrev pub put_uint32 : ℕ → List ℕ
put_uint32 v = v / 2 ^ 24 % 256 ∷ v / 2 ^ 16 % 256 ∷ v / 256 % 256 ∷ v % 256 ∷ []

-- `buf[n:]` and `buf[:n]`.
abbrev pub slice_from : ℕ → List ℕ → Outcome (List ℕ)
slice_from zero bs = done bs
slice_from (suc n) [] = panic
slice_from (suc n) (b ∷ bs) = slice_from n bs

abbrev pub slice_to : ℕ → List ℕ → Outcome (List ℕ)
slice_to n bs = elim (slice_from n bs) [
  | done _ ↦ done (take n bs)
  | invalid ↦ invalid
  | panic ↦ panic
]

pub uint32-done :
    (bs : List ℕ) → 4 ≤ length bs → All IsByte bs → (v : ℕ) × (uint32 bs ≡ done v) × IsU32 v
uint32-done [] h b = absurd (omega arith)
uint32-done (a ∷ []) h b = absurd (omega arith)
uint32-done (a ∷ a2 ∷ []) h b = absurd (omega arith)
uint32-done (a ∷ a2 ∷ a3 ∷ []) h b = absurd (omega arith)
uint32-done (a ∷ a2 ∷ a3 ∷ a4 ∷ r) h b = (_, refl, omega arith)

pub uint16-done :
    (bs : List ℕ) → 2 ≤ length bs → All IsByte bs → (v : ℕ) × (uint16 bs ≡ done v) × IsU16 v
uint16-done [] h b = absurd (omega arith)
uint16-done (a ∷ []) h b = absurd (omega arith)
uint16-done (a ∷ a2 ∷ r) h b = (_, refl, omega arith)

pub byte_at-done :
    (i : ℕ) (bs : List ℕ)
    → suc i ≤ length bs
    → All IsByte bs
    → (v : ℕ) × (byte_at i bs ≡ done v) × IsByte v
byte_at-done i [] h b = absurd (omega arith)
byte_at-done zero (x ∷ bs) h b = (x, refl, b.0)
byte_at-done (suc i) (x ∷ bs) h b = byte_at-done i bs (omega arith) b.1

pub slice_from-drop : (n : ℕ) (bs : List ℕ) → n ≤ length bs → slice_from n bs ≡ done (drop n bs)
slice_from-drop zero bs h = refl
slice_from-drop (suc n) [] h = absurd (omega arith)
slice_from-drop (suc n) (b ∷ bs) h = slice_from-drop n bs (omega arith)

pub slice_to-take : (n : ℕ) (bs : List ℕ) → n ≤ length bs → slice_to n bs ≡ done (take n bs)
slice_to-take n bs h = rw (slice_from-drop n bs h, slice_to)
