-- ===== src/Base/Outcome.antt =====
-- What a Go function over slices does: it returns a value, reports failure by its boolean or error
-- result, or panics (an index or a slice bound out of range, a division by zero).
use mathlib.Core.Bool.{Bool, true, false}

pub data Outcome {ℓ} (A : Type ℓ) : Type ℓ where
  done : A → Outcome A
  invalid : Outcome A
  panic : Outcome A

infixl 5 ◌>>=◌ ◌>>◌
abbrev pub ◌>>=◌ {ℓ κ} : {A : Type ℓ} {B : Type κ} → Outcome A → (A → Outcome B) → Outcome B
done a >>= f = f a
invalid >>= f = invalid
panic >>= f = panic

abbrev pub ◌>>◌ {ℓ} : {B : Type ℓ} → Outcome (Unit {0}) → Outcome B → Outcome B
m >> k = m >>= λ _. k

-- `if !test { return false }`.
abbrev pub ensure : Bool → Outcome (Unit {0})
ensure true = done tt
ensure false = invalid

-- `r` is a value that satisfies `P`.
abbrev pub Completes {ℓ} : {A : Type ℓ} → (A → Type 0) → Outcome A → Type 0
Completes P (done a) = P a
Completes P invalid = ⊥
Completes P panic = ⊥

pub Completes-bind {ℓ κ} :
    {A : Type ℓ} {B : Type κ} (P : A → Type 0) (Q : B → Type 0) (m : Outcome A) (f : A → Outcome B)
    → Completes P m
    → ((a : A) → P a → Completes Q (f a))
    → Completes Q (m >>= f)
Completes-bind P Q (done a) f h k = k a h
Completes-bind P Q invalid f h k = absurd h
Completes-bind P Q panic f h k = absurd h
