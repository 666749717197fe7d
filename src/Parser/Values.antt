-- ===== src/Parser/Values.antt =====
-- net/url's Values, as v2root/parser.go uses it: one value under each key.
pub mod Laws
use Prim.Native.String.{String}
use text.Mathlib.Text.{◌==◌}
use v2root_core.Base.{Bool, not, List, [], ◌∷◌, if◌then◌else◌}

abbrev pub Values : Type 0
Values = List (String × String)

-- `Set`
unfoldable pub set : Values → String → String → Values
set [] k v = (k, v) ∷ []
set ((j, w) ∷ q) k v = let rest = set q k v in if j == k then (k, v) ∷ q else (j, w) ∷ rest

-- `Get`: a missing key gives the empty text.
unfoldable pub get : Values → String → String
get [] k = ""
get ((j, w) ∷ q) k = if j == k then w else get q k

-- `if test { query.Set(k, v) }`
unfoldable pub set_if : Bool → Values → String → String → Values
unfolding set
set_if test q k v = if test then set q k v else q

-- `if v != "" { query.Set(k, v) }`
unfoldable pub set_some : Values → String → String → Values
unfolding set_if
set_some q k v = set_if (not (v == "")) q k v
