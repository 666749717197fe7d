-- ===== src/Parser/Text.antt =====
-- The functions of Go's strings, strconv and fmt that v2root/parser.go calls, on native texts.
pub mod Laws
use Prim.Native.Char.{Char, code}
use Prim.Native.String.{String, slice, find, len}
use Prim.Native.String as Text
use text.Mathlib.Text.{starts_with}
use v2root_core.Base.{
  ℕ, zero, suc, ◌+◌, ◌-◌, ◌*◌, ◌/◌, ◌%◌, ◌≤◌, ◌<◌, ◌^◌, ◌≡◌, refl, sym, ap, ◌∙◌, Bool, true, false,
  ◌&&◌, ◌||◌, not, Option, none, some, List, [], ◌∷◌, ltb, leb, ◌==◌, if◌then◌else◌, arith,
  Bool-cases, inl, inr,
}

-- A character in front of the first part.
abbrev onto_first : Char → List String → List String
onto_first c [] = Text.◌∷◌ c "" ∷ []
onto_first c (p ∷ ps) = Text.◌∷◌ c p ∷ ps

-- `strings.Split(s, sep)` for a separator of one character, given by its code.
unfoldable pub split : ℕ → String → List String
split sep Text.[] = "" ∷ []
split sep (Text.◌∷◌ c s) =
    let parts = split sep s in if code c == sep then "" ∷ parts else onto_first c parts

-- `strings.Join(parts, sep)` for a separator of one character.
unfoldable pub join : Char → List String → String
join sep [] = ""
join sep (p ∷ []) = p
join sep (p ∷ q ∷ ps) = Text.◌++◌ p (Text.◌∷◌ sep (join sep (q ∷ ps)))

-- The sum of several texts.
unfoldable pub concat : List String → String
concat [] = ""
concat (p ∷ ps) = Text.◌++◌ p (concat ps)

-- `strings.HasPrefix`, and `strings.TrimPrefix`.
abbrev pub has_prefix : String → String → Bool
has_prefix = starts_with

unfoldable pub trim_prefix : String → String → String
trim_prefix s p = if starts_with s p then slice s (len p) (len s) else s

-- `strings.Contains`.
unfoldable pub contains : String → String → Bool
contains s t = leb (find s t) (len s)

-- `strings.SplitN(s, sep, 2)`; `none` if the separator is missing.
unfoldable pub split_two : ℕ → String → Option (String × String)
split_two sep Text.[] = none
split_two sep (Text.◌∷◌ c s) =
    let rest = split_two sep s in
    if code c == sep
    then some ("", s)
    else elim rest [ none ↦ none | some (a, b) ↦ some (Text.◌∷◌ c a, b) ]

abbrev pub digit : ℕ → Char
digit zero = "0"
digit (suc zero) = "1"
digit (suc (suc zero)) = "2"
digit (suc (suc (suc zero))) = "3"
digit (suc (suc (suc (suc zero)))) = "4"
digit (suc (suc (suc (suc (suc zero))))) = "5"
digit (suc (suc (suc (suc (suc (suc zero)))))) = "6"
digit (suc (suc (suc (suc (suc (suc (suc zero))))))) = "7"
digit (suc (suc (suc (suc (suc (suc (suc (suc zero)))))))) = "8"
digit _ = "9"

-- `%d`, in front of the text `acc`. The last argument but one is fuel: as many rounds as the number
-- are more than it has digits.
pub print_onto : ℕ → ℕ → String → String
print_onto zero n acc = acc
print_onto (suc fuel) n acc =
    let rest = print_onto fuel (n / 10) (Text.◌∷◌ (digit (n % 10)) acc) in
    if ltb n 10 then Text.◌∷◌ (digit n) acc else rest

unfoldable pub print : ℕ → String
unfolding print_onto
print n = print_onto (suc n) n ""

abbrev pub is_digit : Char → Bool
is_digit c = leb 48 (code c) && leb (code c) 57

-- The slash and the backslash.
abbrev pub is_separator : Char → Bool
is_separator c = code c == 47 || code c == 92

-- The loop of `strconv.ParseUint(s, 10, 16)` from the value `v`.
pub parse_onto : ℕ → String → Option ℕ
parse_onto v Text.[] = some v
parse_onto v (Text.◌∷◌ c s) =
    let v' = v * 10 + (code c - 48) in
    let rest = parse_onto v' s in
    if not (is_digit c) then none else if ltb 65535 v' then none else rest

-- `strconv.ParseUint(s, 10, 16)`; `none` is its error.
unfoldable pub parse_uint16 : String → Option ℕ
unfolding parse_onto
parse_uint16 Text.[] = none
parse_uint16 (Text.◌∷◌ c s) = parse_onto 0 (Text.◌∷◌ c s)

-- `unicode.ToLower`, where its result is a letter of ASCII: besides the capital letters of ASCII there
-- are the Kelvin sign and the capital I with a dot. Every other letter is kept.
abbrev lower : ℕ → ℕ
lower c =
    if leb 65 c && leb c 90
    then c + 32
    else if c == 0x212A
    then 107
    else if c == 0x130
    then 105
    else c

-- `strings.ToLower(s) == t`, for a text `t` of ASCII.
unfoldable pub equal_fold : String → String → Bool
equal_fold Text.[] Text.[] = true
equal_fold Text.[] (Text.◌∷◌ d t) = false
equal_fold (Text.◌∷◌ c s) Text.[] = false
equal_fold (Text.◌∷◌ c s) (Text.◌∷◌ d t) = lower (code c) == code d && equal_fold s t
