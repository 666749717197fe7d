-- ===== src/Kcp/Authenticator/Tests.antt =====
-- Runs of SimpleAuthenticator with a sum in place of the hash.
use v2root_core.Base.{ℕ, ◌+◌, ◌%◌, ◌^◌, ◌<◌, ◌≡◌, List, [], ◌∷◌, arith}
use v2root_core.Base.Outcome.{done}
use v2root_core.Kcp.Authenticator.{seal, opened}
use v2root_core.Kcp.Authenticator.Sealing.{opened-seal}

abbrev total : List ℕ → ℕ
total [] = 0
total (b ∷ bs) = (b + total bs) % 2 ^ 32

total-IsU32 : (bs : List ℕ) → total bs < 2 ^ 32
total-IsU32 [] = omega arith
total-IsU32 (b ∷ bs) = omega arith

opened-seal_example : opened total (seal total (1 ∷ 2 ∷ 3 ∷ [])) ≡ done (1 ∷ 2 ∷ 3 ∷ [])
opened-seal_example = opened-seal total (1 ∷ 2 ∷ 3 ∷ []) total-IsU32 (omega arith)
