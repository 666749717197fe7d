-- ===== src/Parser/Entry/Safe.antt =====
-- No parser panics on a link that begins with its scheme.
use Prim.Native.String.{String, find, len, slice}
use Prim.Native.String as Text
use Prim.Native.String.find as Find
use text.Mathlib.Text.{◌==◌, starts_with, when, is_le}
use text.Mathlib.TextEquality.{starts_with_iff}
use text.Mathlib.TextLemmas as TextLemmas
use v2root_core.Base.{
  ℕ, zero, suc, ge→ltb, ◌||◌, ◌+◌, ltb, ◌≡◌, ◌≢◌, refl, sym, ap, ◌∙◌, Bool, true, false, Option,
  none, some, arith, Bool-cases, inl, inr, Option-cases, if◌then◌else◌,
}
use v2root_core.Base.Outcome.{Outcome, done, invalid, panic, ◌>>=◌}
use Prim.Native.Nat.{compare}
use v2root_core.Parser.Text.{parse_uint16, trim_prefix, split_two, contains}
use v2root_core.Parser.Types.{ParseOptions}
use v2root_core.Parser.Stream.{stream, vless_tcp, trojan_tcp}
use v2root_core.Parser.Net.{Net, Url, Data}
use v2root_core.Parser.Links.{required, ParseArgs, username_of}
use v2root_core.Parser.Links.Vless.{parse_vless, vless_config}
use v2root_core.Parser.Links.Trojan.{parse_trojan}
use v2root_core.Parser.Links.Vmess.{parse_vmess, vmess_config, vmess_server, text_at, printed_at}
use v2root_core.Parser.Links.Shadowsocks.{
  before_at, encoded_part, decode, colon, plugin_auth, parse_shadowsocks_plugin, parse_shadowsocks,
}
use v2root_core.Parser.Entry.{dispatch, parse, args_of, default_mode, all_valid}

-- The outcome is a value or an error.
abbrev pub safe {ℓ} : {A : Type ℓ} → Outcome A → Bool
safe panic = false
safe _ = true

pub safe-bind {ℓ κ} :
    {A : Type ℓ} {B : Type κ} (m : Outcome A) (f : A → Outcome B)
    → safe m ≡ true
    → ((a : A) → safe (f a) ≡ true)
    → safe (m >>= f) ≡ true
safe-bind (done a) f h k = k a
safe-bind invalid f h k = refl
safe-bind panic f h k = ground (arith, h)

pub safe-required {ℓ κ} :
    {A : Type ℓ} {B : Type κ} (o : Option A) (f : A → Outcome B)
    → ((a : A) → safe (f a) ≡ true)
    → safe (required o >>= f) ≡ true
safe-required none f k = refl
safe-required (some a) f k = k a

pub safe-if {ℓ} :
    {A : Type ℓ} (b : Bool) (m n : Outcome A)
    → safe m ≡ true
    → safe n ≡ true
    → safe (if b then m else n) ≡ true
safe-if true m n h k = h
safe-if false m n h k = k

-- A link of the scheme, from the rest of it.
abbrev ss_link : String → String
ss_link r = Text.◌∷◌ "s" (Text.◌∷◌ "s" (Text.◌∷◌ ":" (Text.◌∷◌ "/" (Text.◌∷◌ "/" r))))

ss_link-eq : (raw : String) → starts_with raw "ss://" ≡ true → (r : String) × (raw ≡ ss_link r)
ss_link-eq raw h =
    let (r, e) = (starts_with_iff raw "ss://").0 h in
    (
      r,
      sym e
          ∙ TextLemmas.cons-append "s" "s://" r
          ∙ ap (Text.◌∷◌ "s") (TextLemmas.cons-append "s" "://" r)
          ∙ ap (λ z. Text.◌∷◌ "s" (Text.◌∷◌ "s" z)) (TextLemmas.cons-append ":" "//" r)
          ∙ ap (λ z. Text.◌∷◌ "s" (Text.◌∷◌ "s" (Text.◌∷◌ ":" z)))
              (TextLemmas.cons-append "/" "/" r)
          ∙ ap (λ z. Text.◌∷◌ "s" (Text.◌∷◌ "s" (Text.◌∷◌ ":" (Text.◌∷◌ "/" z))))
              (TextLemmas.cons-append "/" "" r)
          ∙ ap ss_link (TextLemmas.nil-append r),
    )

find-scheme : (r : String) → find (ss_link r) "ss://" ≡ 0
find-scheme r = Find.cons "s" (Text.◌∷◌ "s" (Text.◌∷◌ ":" (Text.◌∷◌ "/" (Text.◌∷◌ "/" r)))) "ss://"

-- The "@" stands behind the scheme.
find-at : (r : String) → find (ss_link r) "@" ≡ 5 + find r "@"
find-at r =
    let r1 : String = Text.◌∷◌ "/" r in
    let r2 : String = Text.◌∷◌ "/" r1 in
    let r3 : String = Text.◌∷◌ ":" r2 in
    let r4 : String = Text.◌∷◌ "s" r3 in
    let e1 : find r1 "@" ≡ 1 + find r "@" = Find.cons "/" r "@" in
    let e2 : find r2 "@" ≡ 1 + find r1 "@" = Find.cons "/" r1 "@" in
    let e3 : find r3 "@" ≡ 1 + find r2 "@" = Find.cons ":" r2 "@" in
    let e4 : find r4 "@" ≡ 1 + find r3 "@" = Find.cons "s" r3 "@" in
    let e5 : find (ss_link r) "@" ≡ 1 + find r4 "@" = Find.cons "s" r4 "@" in
    omega (arith, e1, e2, e3, e4, e5)

when-zero : (n : ℕ) → when {A = ℕ} (is_le (compare 0 n)) 0 ≡ some 0
when-zero zero = refl
when-zero (suc n) = ground arith

cut-safe :
    (b : Bool) (n : ℕ) (f : ℕ → String)
    → safe (required (when b (5 + n)) >>= λ i. if ltb i 5 then panic else done (f i)) ≡ true
cut-safe true n f = rw (ge→ltb (5 + n) 5 (omega arith)) refl
cut-safe false n f = refl

pub before_at-safe : (raw : String) → starts_with raw "ss://" ≡ true → safe (before_at raw) ≡ true
unfolding before_at
before_at-safe raw h =
    let (r, e) = ss_link-eq raw h in
    let zero_at : find raw "ss://" ≡ 0 = ap (λ z. find z "ss://") e ∙ find-scheme r in
    let at : find raw "@" ≡ 5 + find r "@" = ap (λ z. find z "@") e ∙ find-at r in
    rw (zero_at, when-zero (len raw), at)
      (cut-safe (is_le (compare (5 + find r "@") (len raw))) (find r "@") (λ i. slice raw 5 i))

-- Each parser in turn.
module _ (net : Net) (a : ParseArgs) (raw : String) where
  vless-safe : safe (parse_vless net a raw) ≡ true
  unfolding parse_vless vless_config
  vless-safe = safe-required (net.parse_url raw) _ λ u.
      safe-required (parse_uint16 u.port) _ λ port.
        safe-if _ (vless_config net a u port) invalid
          (safe-if (username_of u == "") _ _ refl
            (safe-required (stream vless_tcp "none" u.query) _ λ st. refl))
          refl

  trojan-safe : safe (parse_trojan net a raw) ≡ true
  unfolding parse_trojan
  trojan-safe = safe-required (net.parse_url raw) _ λ u.
      safe-required (parse_uint16 u.port) _
        λ port. safe-required (stream trojan_tcp "tls" u.query) _ λ st. refl

  vmess_server-safe : (d : Data) → safe (vmess_server d) ≡ true
  unfolding vmess_server
  vmess_server-safe d = safe-required (text_at d "add") _ λ address.
      safe-required (parse_uint16 (printed_at d "port")) _
        λ port. safe-required (text_at d "id") _ λ id. refl

  vmess-safe : safe (parse_vmess net a raw) ≡ true
  unfolding parse_vmess vmess_config
  vmess-safe =
      safe-if (starts_with raw "vmess://") _ invalid
        (safe-required (net.std_decode (trim_prefix raw "vmess://")) _ λ json.
          safe-required (net.read_json json) _
            λ d. safe-bind (vmess_server d) _ (vmess_server-safe d) λ settings. refl)
        refl

  plugin_auth-safe : (u : Url) → safe (plugin_auth net u) ≡ true
  unfolding plugin_auth
  plugin_auth-safe u = elim (Option-cases u.username) [
    | inl e ↦ rw e refl
    | inr (name, e) ↦ rw e (
        safe-required (decode net u.userinfo) _ λ decoded.
          elim (Option-cases (split_two colon decoded)) [
            | inl f ↦ rw f refl
            | inr (auth, f) ↦ rw f refl
          ])
  ]

  plugin-safe : safe (parse_shadowsocks_plugin net a raw) ≡ true
  unfolding parse_shadowsocks_plugin
  plugin-safe = safe-required (net.parse_url raw) _ λ u.
      safe-bind (plugin_auth net u) _ (plugin_auth-safe u)
        λ auth. safe-if (auth.0 == "" || auth.1 == "") invalid _ refl refl

  shadowsocks-safe : starts_with raw "ss://" ≡ true → safe (parse_shadowsocks net a raw) ≡ true
  unfolding parse_shadowsocks encoded_part
  shadowsocks-safe h = safe-if (contains raw "plugin=") _ _ plugin-safe (
      safe-required (net.parse_url raw) _ λ u.
        safe-bind (encoded_part u raw) _
          (safe-if (username_of u == "") (before_at raw) (done (username_of u))
            (before_at-safe raw h) refl)
          λ part.
            safe-required (decode net part) _
              λ decoded. safe-required (split_two colon decoded) _ λ auth. refl)

  pub dispatch-safe : safe (dispatch net a raw) ≡ true
  unfolding dispatch
  dispatch-safe = safe-if (starts_with raw "vless://") _ _ vless-safe (
      safe-if (starts_with raw "vmess://") _ _ vmess-safe (
        safe-if (starts_with raw "trojan://") _ _ trojan-safe
          (elim (Bool-cases (starts_with raw "ss://")) [
            | inl h ↦ safe-if (starts_with raw "ss://") _ invalid (shadowsocks-safe h) refl
            | inr h ↦ rw h refl
          ])))

all-safe : (net : Net) (opts : ParseOptions) → safe (parse net opts) ≡ true
unfolding parse
all-safe net opts =
    let a : ParseArgs = args_of net opts (default_mode opts.routing_mode) in
    safe-bind (dispatch net a opts.uri) _ (dispatch-safe net a opts.uri)
      λ config. safe-if (all_valid config.outbounds) (done config) invalid refl refl

-- `Parse` never panics, whatever the options are.
pub parse_never_panics : (net : Net) (opts : ParseOptions) → parse net opts ≢ panic
parse_never_panics net opts e = ground (arith, sym (all-safe net opts) ∙ ap safe e)
