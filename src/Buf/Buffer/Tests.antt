-- ===== src/Buf/Buffer/Tests.antt =====
-- Runs of Buffer with three bytes of content and two of room.
use v2root_core.Base.{◌-◌, ◌<◌, ◌≡◌, ◌⊎◌, [], ◌∷◌, ◌++◌, length, take, leb}
use Prim.Native.Nat.{min}
use v2root_core.Buf.Buffer.{Buffer, write, read, bytes, cap, available, len}
use v2root_core.Buf.Buffer.Contents.{write-bytes, read-bytes}

abbrev half : Buffer
half = record { before = 9 ∷ []; content = 1 ∷ 2 ∷ 3 ∷ []; after = 0 ∷ 0 ∷ [] }

write-bytes_example :
    let (b, all) = write half (4 ∷ 5 ∷ 6 ∷ []) in
    (bytes b ≡ bytes half ++ take (available half) (4 ∷ 5 ∷ 6 ∷ []))
    × (cap b ≡ cap half)
    × (available b ≡ available half - 3)
    × (all ≡ leb 3 (available half))
write-bytes_example = write-bytes half (4 ∷ 5 ∷ 6 ∷ [])

read-bytes_example :
    let (out, b, more) = read half 2 in
    (out ++ bytes b ≡ bytes half)
    × (length out ≡ min 2 (len half))
    × ((len half ≡ 0) ⊎ ((2 < len half) ⊎ (available b ≡ cap half)))
read-bytes_example = read-bytes half 2
