-- ===== src/Parser/Query/Lists.antt =====
-- Lists and the HTTP header as a query holds them.
use Prim.Native.String.{String}
use text.Mathlib.Text.{◌==◌}
use text.Mathlib.TextEquality.{eq_iff}
use v2root_core.Base.{
  ◌≡◌, refl, sym, ap, ◌∙◌, Bool, true, false, Option, none, some, List, [], ◌∷◌, if◌then◌else◌,
  arith, Bool-cases, inl, inr,
}
use v2root_core.Parser.Text.{join, split}
use v2root_core.Parser.Text.Laws.{join-split, split-cons}
use v2root_core.Parser.Values.{Values, get}
use v2root_core.Parser.Values.Laws.{get-set}
use v2root_core.Parser.Types.{TcpSettings}
use v2root_core.Parser.Stream.{comma, list_of}
use v2root_core.Parser.Query.{hosts_query}
use v2root_core.Parser.Query.Gets.{text_of}

pub text_of-split : (v : String) → text_of (split comma v) "" ≡ v
text_of-split v =
    let (p, ps, e) = split-cons comma v in rw e (ap (join ",") (sym e) ∙ join-split "," v)

pub text_of-list_of : (v : String) → text_of (list_of v) "" ≡ v
text_of-list_of v = elim (Bool-cases (v == "")) [
  | inl h ↦ rw h (ground (arith, h, eq_iff v ""))
  | inr h ↦ rw h (text_of-split v)
]

-- A list of one host, or none.
abbrev pub host_of : String → Option (List String)
host_of v = if v == "" then none else some (v ∷ [])

pub get-hosts_query :
    (q : Values) (v : String) → get q "host" ≡ "" → get (hosts_query q (host_of v)) "host" ≡ v
unfolding hosts_query
get-hosts_query q v e = elim (Bool-cases (v == "")) [
  | inl h ↦ rw (h, hosts_query) (ground (arith, h, e, eq_iff v ""))
  | inr h ↦ rw (h, hosts_query) (get-set q "host" v "host")
]

-- The keys that no transport writes.
abbrev pub other_keys : List String
other_keys =
    "encryption" ∷ "flow" ∷ "type" ∷ "security" ∷ "sni" ∷ "alpn" ∷ "fp" ∷ "pbk" ∷ "sid" ∷ "spx" ∷ []

pub multi-restored : (b : Bool) → ((if b then "multi" else "") == "multi") ≡ b
multi-restored true = refl
multi-restored false = refl

-- The HTTP header, for either way to split a path.
abbrev pub http_tcp : (String → List String) → Values → TcpSettings
http_tcp path r = record {
  header = some (record {
    type = "http";
    request = some (record { path = path (get r "path"); hosts = host_of (get r "host") });
  });
}
