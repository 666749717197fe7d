-- ===== src/Parser/Entry/Exported.antt =====
-- What Parse prints can be exported by JSONToConfigString.
use Prim.Native.String.{String}
use text.Mathlib.Text.{◌==◌}
use text.Mathlib.TextEquality.{eq_iff}
use v2root_core.Base.{
  ◌≡◌, refl, sym, ap, ◌∙◌, ◌⊎◌, true, false, Option, none, some, List, [], ◌∷◌, arith, Bool-cases,
  inl, inr,
}
use mathlib.Core.Path.{subst}
use v2root_core.Base.Outcome.{done}
use v2root_core.Parser.Types.{
  VlessVnext, TrojanServer, VmessVnext, ShadowsocksServer, StreamSettings, OutboundConfig,
  OutputConfig, ParseOptions,
}
use v2root_core.Parser.Validate.{
  as_vless, as_trojan, as_vmess, as_shadowsocks, vless_valid, trojan_valid, vmess_valid,
  shadowsocks_valid, validate_outbound,
}
use v2root_core.Parser.Net.{Net}
use v2root_core.Parser.Links.{with_plain}
use v2root_core.Parser.Export.{
  vless_uri_of, trojan_uri_of, shadowsocks_uri_of, build_vless_uri, build_trojan_uri,
  build_shadowsocks_uri, build_uri, config_string, first_outbound, first_proxy, stream_or_default,
}
use v2root_core.Parser.Export.Vmess.{vmess_uri_of, build_vmess_uri}
use v2root_core.Parser.Entry.{parse}
use v2root_core.Parser.Entry.WellFormed.{is_parsed, parse-WellFormed}

-- There is a link.
abbrev pub Given : Option String → Type 0
Given none = ⊥
Given (some link) = Unit {0}

List-cases {ℓ} : {A : Type ℓ} (xs : List A) → (xs ≡ []) ⊎ ((x : A) × (ys : List A) × (xs ≡ x ∷ ys))
List-cases [] = inl refl
List-cases (x ∷ xs) = inr (x, xs, refl)

module _ (net : Net) (ob : OutboundConfig) (st : StreamSettings) where
  vless-Given :
      (o : Option (List VlessVnext)) → vless_valid o ≡ true → Given (vless_uri_of net ob st o)
  vless-Given none h = ground (arith, h)
  vless-Given (some []) h = ground (arith, h)
  vless-Given (some (v ∷ vs)) h = elim (List-cases v.users) [
    | inl e ↦ (let f : vless_valid (some (v ∷ vs)) ≡ false = rw e refl in ground (arith, sym f ∙ h))
    | inr (u, us, e) ↦ rw e tt
  ]

  vmess-Given :
      (o : Option (List VmessVnext)) → vmess_valid o ≡ true → Given (vmess_uri_of net ob st o)
  vmess-Given none h = ground (arith, h)
  vmess-Given (some []) h = ground (arith, h)
  vmess-Given (some (v ∷ vs)) h = elim (List-cases v.users) [
    | inl e ↦ (let f : vmess_valid (some (v ∷ vs)) ≡ false = rw e refl in ground (arith, sym f ∙ h))
    | inr (u, us, e) ↦ rw e tt
  ]

  trojan-Given :
      (o : Option (List TrojanServer)) → trojan_valid o ≡ true → Given (trojan_uri_of net ob st o)
  trojan-Given none h = ground (arith, h)
  trojan-Given (some []) h = ground (arith, h)
  trojan-Given (some (s ∷ ss)) h = tt

  shadowsocks-Given :
      (o : Option (List ShadowsocksServer))
      → shadowsocks_valid o ≡ true
      → Given (shadowsocks_uri_of net ob st o)
  shadowsocks-Given none h = ground (arith, h)
  shadowsocks-Given (some []) h = ground (arith, h)
  shadowsocks-Given (some (s ∷ ss)) h = tt

  -- An outbound of a parsed protocol that is valid is exported.
  build_uri-Given :
      is_parsed ob.protocol ≡ true → validate_outbound ob ≡ true → Given (build_uri net ob st)
  unfolding build_uri validate_outbound build_vless_uri build_trojan_uri build_vmess_uri
      build_shadowsocks_uri
  build_uri-Given k h = elim (Bool-cases (ob.protocol == "vless")) [
    | inl a ↦ rw a (
        vless-Given (as_vless ob.settings) (
          (let f : validate_outbound ob ≡ vless_valid (as_vless ob.settings) = rw a refl in
            sym f ∙ h)))
    | inr a ↦ elim (Bool-cases (ob.protocol == "trojan")) [
      | inl b ↦
          rw (a, b)
            (trojan-Given (as_trojan ob.settings) (
              (let f : validate_outbound ob ≡ trojan_valid (as_trojan ob.settings) =
                  rw (a, b) refl in
                sym f ∙ h)))
      | inr b ↦ elim (Bool-cases (ob.protocol == "vmess")) [
        | inl c ↦
            rw (a, b, c)
              (vmess-Given (as_vmess ob.settings) (
                (let f : validate_outbound ob ≡ vmess_valid (as_vmess ob.settings) =
                    rw (a, b, c) refl in
                  sym f ∙ h)))
        | inr c ↦
            let d : (ob.protocol == "shadowsocks") ≡ true = ground (arith, k, a, b, c) in
            rw (a, b, c, d)
              (shadowsocks-Given (as_shadowsocks ob.settings) (
                (let f : validate_outbound ob ≡ shadowsocks_valid (as_shadowsocks ob.settings) =
                    rw (a, b, c, d) refl in
                  sym f ∙ h)))
      ]
    ]
  ]

parsed-some : (p : String) → is_parsed p ≡ true → (p == "") ≡ false
parsed-some p h = elim (Bool-cases (p == "")) [
  | inl a ↦ (let f : true ≡ false = sym h ∙ ap is_parsed ((eq_iff p "").0 a) in ground (arith, f))
  | inr a ↦ a
]

config_string-first_outbound :
    (net : Net) (config : OutputConfig) (ob : OutboundConfig)
    → first_outbound config.outbounds ≡ some ob
    → config_string net config ≡ build_uri net ob (stream_or_default ob)
unfolding config_string
config_string-first_outbound net config ob e = rw (e, config_string) refl

first_outbound-with_plain :
    (main : OutboundConfig)
    → main.tag ≡ "Proxy"
    → is_parsed main.protocol ≡ true
    → first_outbound (with_plain main) ≡ some main
unfolding first_outbound first_proxy with_plain
first_outbound-with_plain main t k = rw t (rw (parsed-some main.protocol k) refl)

-- What `Parse` prints has no outbound at all, or JSONToConfigString gives a link for it.
pub parse-Given :
    (net : Net) (opts : ParseOptions) (config : OutputConfig)
    → parse net opts ≡ done config
    → (config.outbounds ≡ []) ⊎ Given (config_string net config)
parse-Given net opts config e = elim ((parse-WellFormed net opts config e).0) [
  | inl o ↦ inl o
  | inr (main, (o, (t, (k, v)))) ↦ inr (
      subst Given
        (sym (
          config_string-first_outbound net config main
            (ap first_outbound o ∙ first_outbound-with_plain main t k)))
        (build_uri-Given net main (stream_or_default main) k v))
]
