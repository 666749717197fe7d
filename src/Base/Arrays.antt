-- ===== src/Base/Arrays.antt =====
-- Slices with access by index. An index out of range panics.
use Prim.Native.Nat.{ℕ, zero, suc}
use mathlib.Core.Path.{◌≡◌, refl, ap}
use mathlib.Core.List.{List, [], ◌∷◌, ◌++◌}
use v2root_core.Base.Outcome.{Outcome, done, panic, ◌>>=◌}
use v2root_core.Base.Lists.{length}

module _ {ℓ} {A : Type ℓ} where
  unfoldable pub index : List A → ℕ → Outcome A
  index [] i = panic
  index (x ∷ xs) zero = done x
  index (x ∷ xs) (suc i) = index xs i

  unfoldable pub set : List A → ℕ → A → Outcome (List A)
  set [] i v = panic
  set (x ∷ xs) zero v = done (v ∷ xs)
  set (x ∷ xs) (suc i) v = set xs i v >>= λ ys. done (x ∷ ys)

  pub index-append : (xs : List A) (y : A) (ys : List A) → index (xs ++ y ∷ ys) (length xs) ≡ done y
  unfolding index
  index-append [] y ys = refl
  index-append (x ∷ xs) y ys = index-append xs y ys

  pub set-append :
      (xs : List A) (y : A) (ys : List A) (v : A)
      → set (xs ++ y ∷ ys) (length xs) v ≡ done (xs ++ v ∷ ys)
  unfolding set
  set-append [] y ys v = refl
  set-append (x ∷ xs) y ys v = ap (λ r. r >>= λ zs. done (x ∷ zs)) (set-append xs y ys v)
