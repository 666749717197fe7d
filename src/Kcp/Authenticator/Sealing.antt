-- ===== src/Kcp/Authenticator/Sealing.antt =====
-- SimpleAuthenticator: what is sealed is opened.
use Prim.Native.Nat.{bit_xor}
use v2root_core.Base.{
  ℕ, suc, ◌+◌, ◌-◌, ◌%◌, ◌^◌, ◌<◌, ◌≡◌, refl, ap, ◌∙◌, List, [], ◌∷◌, ◌++◌, length, take, arith,
}
use v2root_core.Base.Words.{IsU16, IsU32}
use v2root_core.Base.Xor.{bit_xor-bit_xor}
use v2root_core.Base.Bytes.{put_uint16, put_uint32}
use v2root_core.Base.Outcome.{done}
use v2root_core.Kcp.Authenticator.{
  forward, backward, xorfwd, xorbkd, zeros, padded, seal, verified, opened,
}

backward-forward : (a b c d : ℕ) (xs : List ℕ) → backward a b c d (forward a b c d xs) ≡ xs
unfolding forward backward
backward-forward a b c d [] = refl
backward-forward a b c d (x ∷ xs) =
    ap (λ y. y ∷ backward b c d (bit_xor x a) (forward b c d (bit_xor x a) xs))
      (bit_xor-bit_xor x a)
    ∙ ap (◌∷◌ x) (backward-forward b c d (bit_xor x a) xs)

forward-take :
    (a b c d : ℕ) (xs ys : List ℕ)
    → take (length xs) (forward a b c d (xs ++ ys)) ≡ forward a b c d xs
unfolding forward
forward-take a b c d [] ys = refl
forward-take a b c d (x ∷ xs) ys = ap (◌∷◌ (bit_xor x a)) (forward-take b c d (bit_xor x a) xs ys)

backward-take :
    (a b c d : ℕ) (xs ys : List ℕ)
    → take (length xs) (backward a b c d (xs ++ ys)) ≡ backward a b c d xs
unfolding backward
backward-take a b c d [] ys = refl
backward-take a b c d (x ∷ xs) ys = ap (◌∷◌ (bit_xor x a)) (backward-take b c d x xs ys)

length-forward : (a b c d : ℕ) (xs : List ℕ) → length (forward a b c d xs) ≡ length xs
unfolding forward
length-forward a b c d [] = refl
length-forward a b c d (x ∷ xs) = ap suc (length-forward b c d (bit_xor x a) xs)

-- The padding changes nothing: on four bytes and more.
padded-xorfwd :
    (a b c d : ℕ) (xs : List ℕ)
    → padded xorfwd (a ∷ b ∷ c ∷ d ∷ xs) ≡ a ∷ b ∷ c ∷ d ∷ forward a b c d xs
unfolding padded xorfwd
padded-xorfwd a b c d xs =
    ground (arith, forward-take a b c d xs (zeros (4 - length (a ∷ b ∷ c ∷ d ∷ xs) % 4)))

padded-xorbkd :
    (a b c d : ℕ) (xs : List ℕ)
    → padded xorbkd (a ∷ b ∷ c ∷ d ∷ xs) ≡ a ∷ b ∷ c ∷ d ∷ backward a b c d xs
unfolding padded xorbkd
padded-xorbkd a b c d xs =
    ground (arith, backward-take a b c d xs (zeros (4 - length (a ∷ b ∷ c ∷ d ∷ xs) % 4)))

padded-both :
    (a b c d : ℕ) (xs : List ℕ)
    → padded xorbkd (padded xorfwd (a ∷ b ∷ c ∷ d ∷ xs)) ≡ a ∷ b ∷ c ∷ d ∷ xs
padded-both a b c d xs =
    ap (padded xorbkd) (padded-xorfwd a b c d xs)
    ∙ padded-xorbkd a b c d (forward a b c d xs)
    ∙ ap (λ ys. a ∷ b ∷ c ∷ d ∷ ys) (backward-forward a b c d xs)

-- A hash, a length and that many bytes.
verified-fields :
    (hash : List ℕ → ℕ) (v l : ℕ) (plain : List ℕ)
    → IsU32 v
    → IsU16 l
    → hash (put_uint16 l ++ plain) ≡ v
    → length plain ≡ l
    → verified hash (put_uint32 v ++ (put_uint16 l ++ plain)) ≡ done plain
unfolding verified
verified-fields hash v l plain hv hl e f = ground (arith, e)

-- `Open` of what `Seal` made of fewer than 2^16 bytes is those bytes, for any hash of 32 bits.
pub opened-seal :
    (hash : List ℕ → ℕ) (plain : List ℕ)
    → ((b : List ℕ) → IsU32 (hash b))
    → length plain < 2 ^ 16
    → opened hash (seal hash plain) ≡ done plain
unfolding opened seal
opened-seal hash plain w h =
    ap (verified hash) (padded-both _ _ _ _ (put_uint16 (length plain % 2 ^ 16) ++ plain))
    ∙ verified-fields hash (hash (put_uint16 (length plain % 2 ^ 16) ++ plain))
        (length plain % 2 ^ 16) plain (w _) (omega arith) refl (omega arith)

length-padded :
    (a b c d : ℕ) (xs : List ℕ) → length (padded xorfwd (a ∷ b ∷ c ∷ d ∷ xs)) ≡ 4 + length xs
length-padded a b c d xs =
    omega (arith, ap length (padded-xorfwd a b c d xs), length-forward a b c d xs)

-- A sealed packet is six bytes longer than what was sealed.
pub length-seal : (hash : List ℕ → ℕ) (plain : List ℕ) → length (seal hash plain) ≡ 6 + length plain
unfolding seal
length-seal hash plain =
    length-padded _ _ _ _ (put_uint16 (length plain % 2 ^ 16) ++ plain) ∙ omega arith
