-- ===== src/Kcp/Receiving/Bytes.antt =====
-- `SplitBytes` and `Read`: no byte is lost, made up or moved.
use v2root_core.Base.{ℕ, ◌≡◌, refl, ap, Option, none, some, List, [], ◌∷◌, ◌++◌, take, drop}
use Prim.Native.Nat.{zero, suc}
use v2root_core.Kcp.Receiving.{ReceivingWorker, read_multi_buffer}

-- The bytes of a MultiBuffer.
abbrev pub concat : List (List ℕ) → List ℕ
concat [] = []
concat (p ∷ ps) = p ++ concat ps

pub take-drop : (n : ℕ) (xs : List ℕ) → take n xs ++ drop n xs ≡ xs
take-drop zero xs = refl
take-drop (suc n) [] = refl
take-drop (suc n) (x ∷ xs) = ap (◌∷◌ x) (take-drop n xs)

-- The bytes that a reader of the worker sees before any new segment.
abbrev pub pending : ReceivingWorker → List ℕ
pending w = concat (read_multi_buffer w).0

abbrev pub left_bytes : Option (List (List ℕ)) → List ℕ
left_bytes none = []
left_bytes (some mb) = concat mb
