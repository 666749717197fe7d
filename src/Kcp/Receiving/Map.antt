-- ===== src/Kcp/Receiving/Map.antt =====
-- ReceivingWindow as a map.
use v2root_core.Base.{
  ℕ, ◌≤◌, ◌<◌, ◌≡◌, ap, none, some, [], ◌∷◌, length, ◌==◌, if◌then◌else◌, arith, All, Bool-cases,
  inl, inr,
}
use v2root_core.Kcp.Segment.{DataSegment}
use v2root_core.Kcp.Receiving.{ReceivingWindow, find, set, delete, remove}

pub find-set :
    (w : ReceivingWindow) (id j : ℕ) (seg : DataSegment)
    → find (set w id seg).0 j
      ≡ (if id == j then (elim (find w id) [ none ↦ some seg | some old ↦ some old ]) else find w j)
unfolding set
find-set w id j seg = ground (arith, λ (e : id ≡ j). ap (find w) e)

find-delete :
    (w : ReceivingWindow) (id j : ℕ) → find (delete w id) j ≡ (if id == j then none else find w j)
unfolding delete
find-delete [] id j = ground arith
find-delete ((k, seg) ∷ w) id j = ground (arith, find-delete w id j)

-- `Remove` hands out what the map has under the number and leaves every other number alone.
pub remove-find :
    (w : ReceivingWindow) (id j : ℕ)
    → ((remove w id).1 ≡ find w id)
      × (find (remove w id).0 j ≡ (if id == j then none else find w j))
unfolding remove
remove-find w id j = ground (arith, find-delete w id j, λ (e : id ≡ j). ap (find w) e)

length-delete : (w : ReceivingWindow) (id : ℕ) → length (delete w id) ≤ length w
unfolding delete
length-delete [] id = omega arith
length-delete ((k, seg) ∷ w) id = ground (arith, length-delete w id)

length-delete-lt :
    (w : ReceivingWindow) (id : ℕ) (seg : DataSegment)
    → find w id ≡ some seg
    → length (delete w id) < length w
unfolding delete
length-delete-lt [] id s h = cc
length-delete-lt ((k, seg) ∷ w) id s h = ground (arith, length-delete w id, length-delete-lt w id s)

pub length-remove :
    (w : ReceivingWindow) (id : ℕ) (seg : DataSegment)
    → (remove w id).1 ≡ some seg
    → length (remove w id).0 < length w
unfolding remove
length-remove w id s h = ground (arith, length-delete-lt w id s)

-- A fact about each entry.
abbrev pub AllEntries : (ℕ → DataSegment → Type 0) → ReceivingWindow → Type 0
AllEntries P = All (λ e. P e.0 e.1)

module _ (P : ℕ → DataSegment → Type 0) where
  pub find-AllEntries :
      (w : ReceivingWindow) (id : ℕ) {seg : DataSegment}
      → AllEntries P w
      → find w id ≡ some seg
      → P id seg
  find-AllEntries [] id a h = cc
  find-AllEntries ((k, s) ∷ w) id a h = elim (Bool-cases (k == id)) [
    | inl e ↦ ground (arith, e, h, a.0)
    | inr e ↦ find-AllEntries w id a.1 (ground (arith, e, h))
  ]

  pub set-AllEntries :
      (w : ReceivingWindow) (id : ℕ) (seg : DataSegment)
      → P id seg
      → AllEntries P w
      → AllEntries P (set w id seg).0
  unfolding set
  set-AllEntries w id seg p a = ground (arith, p, a)

  delete-AllEntries : (w : ReceivingWindow) (id : ℕ) → AllEntries P w → AllEntries P (delete w id)
  unfolding delete
  delete-AllEntries [] id a = tt
  delete-AllEntries ((k, s) ∷ w) id a = ground (arith, a.0, delete-AllEntries w id a.1)

  pub remove-AllEntries :
      (w : ReceivingWindow) (id : ℕ) → AllEntries P w → AllEntries P (remove w id).0
  unfolding remove
  remove-AllEntries w id a = ground (arith, a, delete-AllEntries w id a)

pub AllEntries-map :
    (P Q : ℕ → DataSegment → Type 0) (w : ReceivingWindow)
    → ((n : ℕ) (seg : DataSegment) → P n seg → Q n seg)
    → AllEntries P w
    → AllEntries Q w
AllEntries-map P Q [] f a = tt
AllEntries-map P Q ((k, seg) ∷ w) f (a, b) = (f k seg a, AllEntries-map P Q w f b)
