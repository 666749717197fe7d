-- ===== src/Parser/Text/Laws.antt =====
-- Texts split and joined again, and numbers printed and read again.
use Prim.Native.Char.{Char, code}
use Prim.Native.String.{String}
use Prim.Native.String as Text
use text.Mathlib.TextEquality.{Char-path}
use text.Mathlib.TextLemmas as TextLemmas
use v2root_core.Base.{
  ℕ, zero, suc, ◌+◌, ◌-◌, ◌*◌, ◌/◌, ◌%◌, ◌≤◌, ◌<◌, ◌^◌, ◌≡◌, refl, sym, ap, ◌∙◌, some, List, [],
  ◌∷◌, ltb, ◌==◌, arith, Bool-cases, Option-cases, Option, none, inl, inr, le→leb, ge→ltb,
}
use v2root_core.Parser.Text.{
  split, join, digit, print, print_onto, parse_onto, parse_uint16, is_digit, split_two,
}

pub split-cons : (sep : ℕ) (s : String) → (p : String) × (ps : List String) × (split sep s ≡ p ∷ ps)
unfolding split
split-cons sep Text.[] = ("", [], refl)
split-cons sep (Text.◌∷◌ c s) =
    let (p, ps, e) = split-cons sep s in
    elim (Bool-cases (code c == sep)) [
      | inl h ↦ ("", split sep s, rw (h, split) refl)
      | inr h ↦ (Text.◌∷◌ c p, ps, rw (h, split, e) refl)
    ]

join_char :
    (sep c : Char) (p : String) (ps : List String)
    → join sep (Text.◌∷◌ c p ∷ ps) ≡ Text.◌∷◌ c (join sep (p ∷ ps))
unfolding join
join_char sep c p [] = refl
join_char sep c p (q ∷ ps) = TextLemmas.cons-append c p _

-- A text that was split at a character is joined to itself.
pub join-split : (sep : Char) (s : String) → join sep (split (code sep) s) ≡ s
unfolding split join
join-split sep Text.[] = refl
join-split sep (Text.◌∷◌ c s) =
    let (p, ps, e) = split-cons (code sep) s in
    elim (Bool-cases (code c == code sep)) [
      | inl h ↦
          rw (h, split, e)
            (TextLemmas.nil-append _
              ∙ ap (Text.◌∷◌ sep) (ap (join sep) (sym e) ∙ join-split sep s)
              ∙ ap (λ d. Text.◌∷◌ d s) (Char-path sep c (ground (arith, h))))
      | inr h ↦
          rw (h, split, e)
            (join_char sep c p ps ∙ ap (Text.◌∷◌ c) (ap (join sep) (sym e) ∙ join-split sep s))
    ]

code-digit : (n : ℕ) → n < 10 → code (digit n) ≡ 48 + n
code-digit zero h = refl
code-digit (suc zero) h = refl
code-digit (suc (suc zero)) h = refl
code-digit (suc (suc (suc zero))) h = refl
code-digit (suc (suc (suc (suc zero)))) h = refl
code-digit (suc (suc (suc (suc (suc zero))))) h = refl
code-digit (suc (suc (suc (suc (suc (suc zero)))))) h = refl
code-digit (suc (suc (suc (suc (suc (suc (suc zero))))))) h = refl
code-digit (suc (suc (suc (suc (suc (suc (suc (suc zero)))))))) h = refl
code-digit (suc (suc (suc (suc (suc (suc (suc (suc (suc zero))))))))) h = refl
code-digit (suc (suc (suc (suc (suc (suc (suc (suc (suc (suc n)))))))))) h = absurd (omega arith)

parse-digit :
    (v d : ℕ) (acc : String)
    → d < 10
    → v * 10 + d < 65536
    → parse_onto v (Text.◌∷◌ (digit d) acc) ≡ parse_onto (v * 10 + d) acc
unfolding parse_onto
parse-digit v d acc h w =
    rw
      (
        code-digit d h,
        le→leb 48 (48 + d) (omega arith),
        le→leb (48 + d) 57 (omega (arith, h)),
        (let e : 48 + d - 48 ≡ d = omega arith in e),
        ge→ltb 65535 (v * 10 + d) (omega (arith, w)),
      )
      refl

parse-print_onto :
    (fuel n : ℕ) (acc : String)
    → n < fuel
    → n < 65536
    → parse_onto 0 (print_onto fuel n acc) ≡ parse_onto n acc
unfolding print_onto
parse-print_onto zero n acc h w = absurd (omega arith)
parse-print_onto (suc fuel) n acc h w = elim (Bool-cases (ltb n 10)) [
  | inl e ↦
      rw (e, print_onto)
        (parse-digit 0 n acc (ground (arith, e)) (omega arith)
          ∙ ap (λ v. parse_onto v acc) (omega arith))
  | inr e ↦
      let big : 10 ≤ n = ground (arith, e) in
      rw (e, print_onto)
        (parse-print_onto fuel (n / 10) (Text.◌∷◌ (digit (n % 10)) acc) (omega (arith, h, big))
            (omega (arith, w))
          ∙ parse-digit (n / 10) (n % 10) acc (omega arith) (omega (arith, w))
          ∙ ap (λ v. parse_onto v acc) (omega arith))
]

print-cons :
    (fuel n : ℕ) (acc : String)
    → 0 < fuel
    → (c : Char) × (t : String) × (print_onto fuel n acc ≡ Text.◌∷◌ c t)
unfolding print_onto
print-cons zero n acc h = absurd (omega arith)
print-cons (suc zero) n acc h = elim (Bool-cases (ltb n 10)) [
  | inl e ↦ (digit n, acc, rw (e, print_onto) refl)
  | inr e ↦ (digit (n % 10), acc, rw (e, print_onto) refl)
]
print-cons (suc (suc fuel)) n acc h = elim (Bool-cases (ltb n 10)) [
  | inl e ↦ (digit n, acc, rw (e, print_onto) refl)
  | inr e ↦
      let (c, t, f) =
        print-cons (suc fuel) (n / 10) (Text.◌∷◌ (digit (n % 10)) acc) (omega arith) in
      (c, t, rw (e, print_onto) f)
]

parse_uint16-onto : (c : Char) (t s : String) → s ≡ Text.◌∷◌ c t → parse_uint16 s ≡ parse_onto 0 s
unfolding parse_uint16
parse_uint16-onto c t s e = rw e refl

-- A port that was printed is read again.
pub parse_uint16-print : (n : ℕ) → n < 2 ^ 16 → parse_uint16 (print n) ≡ some n
unfolding print parse_onto
parse_uint16-print n h =
    let (c, t, e) = print-cons (suc n) n "" (omega arith) in
    parse_uint16-onto c t (print n) e ∙ parse-print_onto (suc n) n "" (omega arith) h

parse_onto-bound : (v : ℕ) (s : String) (n : ℕ) → v < 65536 → parse_onto v s ≡ some n → n < 65536
unfolding parse_onto
parse_onto-bound v Text.[] n h e = ground (arith, e)
parse_onto-bound v (Text.◌∷◌ c s) n h e = elim (Bool-cases (is_digit c)) [
  | inl d ↦ elim (Bool-cases (ltb 65535 (v * 10 + (code c - 48)))) [
    | inl b ↦ ground (arith, e, d, b)
    | inr b ↦
        let step : parse_onto v (Text.◌∷◌ c s) ≡ parse_onto (v * 10 + (code c - 48)) s =
          rw (d, b) refl in
        parse_onto-bound (v * 10 + (code c - 48)) s n (ground (arith, b)) (sym step ∙ e)
  ]
  | inr d ↦ ground (arith, e, d)
]

-- A number that was read has 16 bits.
pub parse_uint16-bound : (s : String) (n : ℕ) → parse_uint16 s ≡ some n → n < 2 ^ 16
unfolding parse_uint16
parse_uint16-bound Text.[] n e = ground (arith, e)
parse_uint16-bound (Text.◌∷◌ c s) n e = parse_onto-bound 0 (Text.◌∷◌ c s) n (omega arith) e

pair-some :
    (a b c d : String)
    → (let e : Option (String × String) = some (a, b) in e ≡ some (c, d))
    → (a ≡ c) × (b ≡ d)
pair-some a b c d e = (ground (arith, e), ground (arith, e))

-- The two parts of a text, with the separator between them, are the text.
pub concat-split_two :
    (sep : Char) (s a b : String)
    → split_two (code sep) s ≡ some (a, b)
    → Text.◌++◌ a (Text.◌∷◌ sep b) ≡ s
unfolding split_two
concat-split_two sep Text.[] a b e = ground (arith, e)
concat-split_two sep (Text.◌∷◌ c s) a b e = elim (Bool-cases (code c == code sep)) [
  | inl h ↦
      let step : split_two (code sep) (Text.◌∷◌ c s) ≡ some ("", s) = rw (h, split_two) refl in
      let (ea, eb) = pair-some "" s a b (sym step ∙ e) in
      rw (sym ea, sym eb)
        (TextLemmas.nil-append (Text.◌∷◌ sep s)
          ∙ ap (λ d. Text.◌∷◌ d s) (Char-path sep c (ground (arith, h))))
  | inr h ↦ elim (Option-cases (split_two (code sep) s)) [
    | inl f ↦
        let step : split_two (code sep) (Text.◌∷◌ c s) ≡ none = rw (h, f, split_two) refl in
        ground (arith, sym step ∙ e)
    | inr ((a', b'), f) ↦
        let step : split_two (code sep) (Text.◌∷◌ c s) ≡ some (Text.◌∷◌ c a', b') =
          rw (h, f, split_two) refl in
        let (ea, eb) = pair-some (Text.◌∷◌ c a') b' a b (sym step ∙ e) in
        rw (sym ea, sym eb)
          (TextLemmas.cons-append c a' (Text.◌∷◌ sep b')
            ∙ ap (Text.◌∷◌ c) (concat-split_two sep s a' b' f))
  ]
]

-- More rounds than the number give no other text.
pub print_onto_fuel :
    (f g n : ℕ) (acc : String) → n < f → n < g → print_onto f n acc ≡ print_onto g n acc
unfolding print_onto
print_onto_fuel zero g n acc hf hg = absurd (omega arith)
print_onto_fuel (suc f) zero n acc hf hg = absurd (omega arith)
print_onto_fuel (suc f) (suc g) n acc hf hg = elim (Bool-cases (ltb n 10)) [
  | inl e ↦ rw e refl
  | inr e ↦ rw e (
      print_onto_fuel f g (n / 10) (Text.◌∷◌ (digit (n % 10)) acc) (ground (arith, e, hf))
        (ground (arith, e, hg)))
]
