-- ===== src/Parser/Values/Laws.antt =====
-- Values: what is found under a key after it or another one was set.
use Prim.Native.String.{String}
use text.Mathlib.Text.{◌==◌}
use text.Mathlib.TextEquality.{eq_iff}
use v2root_core.Base.{◌≡◌, refl, Bool, not, [], ◌∷◌, if◌then◌else◌, arith}
use v2root_core.Parser.Values.{Values, set, get, set_if, set_some}

pub get-set : (q : Values) (k v j : String) → get (set q k v) j ≡ (if k == j then v else get q j)
unfolding set get
get-set [] k v j = refl
get-set ((i, w) ∷ q) k v j = ground (arith, eq_iff k j, eq_iff i k, eq_iff i j, get-set q k v j)

pub get-set_if :
    (b : Bool) (q : Values) (k v j : String)
    → get (set_if b q k v) j ≡ (if k == j then (if b then v else get q j) else get q j)
unfolding set_if
get-set_if b q k v j = ground (arith, get-set q k v j)

-- A value that is set unless it is empty.
pub get-set_some :
    (q : Values) (k v j : String)
    → get (set_some q k v) j ≡ (if k == j then (if v == "" then get q j else v) else get q j)
unfolding set_some
get-set_some q k v j = ground (arith, get-set_if (not (v == "")) q k v j)
