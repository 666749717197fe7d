-- ===== src/Buf/MultiBuffer/Tests.antt =====
-- Runs of MultiBuffer on three buffers.
use v2root_core.Base.{◌≡◌, [], ◌∷◌, arith}
use v2root_core.Base.Outcome.{Completes}
use v2root_core.Kcp.Receiving.Bytes.{concat}
use v2root_core.Buf.MultiBuffer.{MultiBuffer, merge_bytes, compact}
use v2root_core.Buf.MultiBuffer.Bytes.{
  Fits, NonEmpty, Compacted, merge_bytes-concat, compact-concat,
}

abbrev three : MultiBuffer
three = (1 ∷ 2 ∷ []) ∷ [] ∷ (3 ∷ 4 ∷ 5 ∷ []) ∷ []

three-Fits : Fits three
three-Fits = (omega arith, (omega arith, (omega arith, tt)))

merge_bytes-concat_example :
    (concat (merge_bytes three (6 ∷ 7 ∷ [])) ≡ 1 ∷ 2 ∷ 3 ∷ 4 ∷ 5 ∷ 6 ∷ 7 ∷ [])
    × Fits (merge_bytes three (6 ∷ 7 ∷ []))
merge_bytes-concat_example = merge_bytes-concat three (6 ∷ 7 ∷ []) three-Fits

abbrev two : MultiBuffer
two = (3 ∷ 4 ∷ 5 ∷ []) ∷ (6 ∷ []) ∷ []

two-NonEmpty : NonEmpty two
two-NonEmpty = (omega arith, (omega arith, tt))

first_two-Fits : Fits ((1 ∷ 2 ∷ []) ∷ two)
first_two-Fits = (omega arith, (omega arith, (omega arith, tt)))

compact-concat_example :
    Completes (Compacted (1 ∷ 2 ∷ 3 ∷ 4 ∷ 5 ∷ 6 ∷ []) 3) (compact ((1 ∷ 2 ∷ []) ∷ two))
compact-concat_example = compact-concat (1 ∷ 2 ∷ []) two first_two-Fits two-NonEmpty
