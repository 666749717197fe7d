-- ===== src/Buf/Buffer/Contents.antt =====
-- Buffer: it is a queue of bytes of a fixed capacity.
use v2root_core.Base.{
  ℕ, zero, suc, ◌-◌, ◌≤◌, ◌<◌, ◌≡◌, refl, sym, ap, ◌∙◌, List, [], ◌∷◌, ◌++◌, length, take, drop,
  leb, ◌==◌, arith, length-append, length-take, length-drop, Bool-cases, inl, inr, ◌⊎◌,
}
use Prim.Native.Nat.{min}
use v2root_core.Kcp.Receiving.Bytes.{take-drop}
use v2root_core.Buf.Buffer.{Buffer, clear, bytes, advance, len, cap, available, write, read}

-- `Write` appends as much of the data as there is room for, and reports whether that was all; the
-- capacity stays the same and the room shrinks by what was stored.
pub write-bytes :
    (b : Buffer) (src : List ℕ)
    → let (b', all) = write b src in
      (bytes b' ≡ bytes b ++ take (available b) src)
      × (cap b' ≡ cap b)
      × (available b' ≡ available b - length src)
      × (all ≡ leb (length src) (available b))
unfolding write bytes cap available
write-bytes b src = (
  refl,
  omega (
    arith,
    length-append b.before ((b.content ++ take (length b.after) src) ++ drop (length src) b.after),
    length-append (b.content ++ take (length b.after) src) (drop (length src) b.after),
    length-append b.content (take (length b.after) src),
    length-take (length b.after) src,
    length-drop (length src) b.after,
    length-append b.before (b.content ++ b.after),
    length-append b.content b.after,
  ),
  length-drop (length src) b.after,
  refl,
)

drop_all : (n : ℕ) (xs : List ℕ) → length xs ≤ n → drop n xs ≡ []
drop_all zero [] h = refl
drop_all zero (x ∷ xs) h = absurd (omega arith)
drop_all (suc n) [] h = refl
drop_all (suc n) (x ∷ xs) h = drop_all n xs (omega arith)

-- `Read` takes bytes off the front: they and the content that is left are the content there was, as
-- many as fit the slice are taken, and a buffer that was emptied has its whole capacity as room.
pub read-bytes :
    (b : Buffer) (n : ℕ)
    → let (out, b', more) = read b n in
      (out ++ bytes b' ≡ bytes b)
      × (length out ≡ min n (len b))
      × ((len b ≡ 0) ⊎ ((n < len b) ⊎ (available b' ≡ cap b)))
unfolding read bytes len cap available clear advance
read-bytes b n = elim (Bool-cases (length b.content == 0)) [
  | inl e ↦ rw e (refl, ground (arith, e), inl (ground (arith, e)))
  | inr e ↦ elim (Bool-cases (leb (length b.content) n)) [
    | inl f ↦
        rw (e, f)
          (
            ap (λ t. take n b.content ++ t) (sym (drop_all n b.content (ground (arith, f))))
                ∙ take-drop n b.content,
            length-take n b.content,
            inr (inr refl),
          )
    | inr f ↦
        rw (e, f) (take-drop n b.content, length-take n b.content, inr (inl (ground (arith, f))))
  ]
]
