-- ===== src/Parser/Entry/WellFormed.antt =====
-- What every configuration that Parse prints looks like.
use Prim.Native.String.{String}
use text.Mathlib.Text.{◌==◌, starts_with}
use v2root_core.Base.{
  ℕ, ◌<◌, ◌^◌, ltb, ◌≡◌, refl, sym, ap, ◌∙◌, ◌⊎◌, Bool, true, false, ◌||◌, Option, none, some, List,
  [], ◌∷◌, map, arith, Bool-cases, inl, inr, if◌then◌else◌, All,
}
use mathlib.Core.Path.{subst}
use v2root_core.Base.Outcome.{Outcome, done, invalid, panic, ◌>>=◌}
use v2root_core.Parser.Text.{parse_uint16, trim_prefix, split_two, contains}
use v2root_core.Parser.Types.{
  ParseOptions, OutputConfig, OutboundConfig, InboundConfig, DnsConfig, GeositeDnsRule,
}
use v2root_core.Parser.Dns.{default_dns_config_with_custom}
use v2root_core.Parser.Validate.{validate_outbound}
use v2root_core.Parser.Stream.{stream, vless_tcp, trojan_tcp}
use v2root_core.Parser.Net.{Net}
use v2root_core.Parser.Links.{
  required, ParseArgs, username_of, with_plain, config, inbounds, create_default_inbounds,
  proxy_outbound,
}
use v2root_core.Parser.Links.Vless.{parse_vless, vless_config}
use v2root_core.Parser.Links.Trojan.{parse_trojan}
use v2root_core.Parser.Links.Vmess.{parse_vmess, vmess_config, vmess_server}
use v2root_core.Parser.Links.Shadowsocks.{
  parse_shadowsocks_plugin, parse_shadowsocks, encoded_part, decode, colon, plugin_auth,
  shadowsocks_config,
}
use v2root_core.Parser.Entry.{dispatch, parse, args_of, default_mode, all_valid, port_of}

-- A value, if there is one, satisfies `P`.
abbrev Ensures {ℓ} : {A : Type ℓ} → (A → Type 0) → Outcome A → Type 0
Ensures P (done x) = P x
Ensures P _ = Unit {0}

Ensures-bind {ℓ κ} :
    {A : Type ℓ} {B : Type κ} (P : B → Type 0) (m : Outcome A) (f : A → Outcome B)
    → ((x : A) → Ensures P (f x))
    → Ensures P (m >>= f)
Ensures-bind P (done x) f k = k x
Ensures-bind P invalid f k = tt
Ensures-bind P panic f k = tt

Ensures-if {ℓ} :
    {A : Type ℓ} (P : A → Type 0) (b : Bool) (m n : Outcome A)
    → Ensures P m
    → Ensures P n
    → Ensures P (if b then m else n)
Ensures-if P true m n h k = h
Ensures-if P false m n h k = k

Ensures-done {ℓ} :
    {A : Type ℓ} (P : A → Type 0) (m : Outcome A) (x : A) → Ensures P m → m ≡ done x → P x
Ensures-done P m x h e = subst (Ensures P) e h

-- The four protocols that are parsed.
abbrev pub is_parsed : String → Bool
is_parsed p = p == "vless" || (p == "trojan" || (p == "vmess" || p == "shadowsocks"))

-- No outbound, or the proxy with the outbounds "Direct" and "Reject".
abbrev pub Outbounds : List OutboundConfig → Type 0
Outbounds outs =
    (outs ≡ [])
    ⊎ ((main : OutboundConfig) × ((outs ≡ with_plain main)
          × ((main.tag ≡ "Proxy") × (is_parsed main.protocol ≡ true))))

-- The two inbounds have the ports of the arguments.
abbrev Inbounds : ParseArgs → List InboundConfig → Type 0
Inbounds a ins = map (λ i. i.port) ins ≡ a.http_port ∷ a.socks_port ∷ []

abbrev Parsed : Net → ParseArgs → OutputConfig → Type 0
Parsed net a c =
    Outbounds c.outbounds
    × (Inbounds a c.inbounds
        × (c.dns
            ≡ default_dns_config_with_custom net.exists a.geosite_path a.custom_dns
                a.geosite_dns_rule))

module _ (net : Net) (a : ParseArgs) (raw : String) where
  vless-Parsed : Ensures (Parsed net a) (parse_vless net a raw)
  unfolding parse_vless vless_config config create_default_inbounds inbounds proxy_outbound
  vless-Parsed = Ensures-bind _ (required (net.parse_url raw)) _ λ u.
      Ensures-bind _ (required (parse_uint16 u.port)) _ λ port.
        Ensures-if _ _ (vless_config net a u port) invalid
          (Ensures-if _ (username_of u == "") _ _ (inl refl, (refl, refl))
            (Ensures-bind _ (required (stream vless_tcp "none" u.query)) _
              λ st. (inr (_, (refl, (refl, refl))), (refl, refl))))
          tt

  trojan-Parsed : Ensures (Parsed net a) (parse_trojan net a raw)
  unfolding parse_trojan config create_default_inbounds inbounds proxy_outbound
  trojan-Parsed = Ensures-bind _ (required (net.parse_url raw)) _ λ u.
      Ensures-bind _ (required (parse_uint16 u.port)) _ λ port.
        Ensures-bind _ (required (stream trojan_tcp "tls" u.query)) _
          λ st. (inr (_, (refl, (refl, refl))), (refl, refl))

  vmess-Parsed : Ensures (Parsed net a) (parse_vmess net a raw)
  unfolding parse_vmess vmess_config config create_default_inbounds inbounds proxy_outbound
  vmess-Parsed =
      Ensures-if _ (starts_with raw "vmess://") _ invalid
        (Ensures-bind _ (required (net.std_decode (trim_prefix raw "vmess://"))) _ λ json.
          Ensures-bind _ (required (net.read_json json)) _ λ d.
            Ensures-bind _ (vmess_server d) _
              λ settings. (inr (_, (refl, (refl, refl))), (refl, refl)))
        tt

  plugin-Parsed : Ensures (Parsed net a) (parse_shadowsocks_plugin net a raw)
  unfolding parse_shadowsocks_plugin shadowsocks_config config inbounds proxy_outbound
  plugin-Parsed = Ensures-bind _ (required (net.parse_url raw)) _ λ u.
      Ensures-bind _ (plugin_auth net u) _ λ auth.
        Ensures-if _ (auth.0 == "" || auth.1 == "") invalid _ tt
          (inr (_, (refl, (refl, refl))), (refl, refl))

  shadowsocks-Parsed : Ensures (Parsed net a) (parse_shadowsocks net a raw)
  unfolding parse_shadowsocks shadowsocks_config config inbounds proxy_outbound
  shadowsocks-Parsed = Ensures-if _ (contains raw "plugin=") _ _ plugin-Parsed (
      Ensures-bind _ (required (net.parse_url raw)) _ λ u.
        Ensures-bind _ (encoded_part u raw) _ λ part.
          Ensures-bind _ (required (decode net part)) _ λ decoded.
            Ensures-bind _ (required (split_two colon decoded)) _
              λ auth. (inr (_, (refl, (refl, refl))), (refl, refl)))

  dispatch-Parsed : Ensures (Parsed net a) (dispatch net a raw)
  unfolding dispatch
  dispatch-Parsed = Ensures-if _ (starts_with raw "vless://") _ _ vless-Parsed (
      Ensures-if _ (starts_with raw "vmess://") _ _ vmess-Parsed (
        Ensures-if _ (starts_with raw "trojan://") _ _ trojan-Parsed
          (Ensures-if _ (starts_with raw "ss://") _ invalid shadowsocks-Parsed tt)))

-- The DNS configuration maps no hosts.
abbrev pub NoHosts : Option DnsConfig → Type 0
NoHosts none = Unit {0}
NoHosts (some dns) = dns.hosts ≡ none

dns-NoHosts :
    (exists : String → Bool) (path : String) (custom : Option DnsConfig)
    (rule : Option GeositeDnsRule)
    → NoHosts (default_dns_config_with_custom exists path custom rule)
unfolding default_dns_config_with_custom
dns-NoHosts exists path none none = tt
dns-NoHosts exists path (some c) none = refl
dns-NoHosts exists path none (some r) = refl
dns-NoHosts exists path (some c) (some r) = refl

-- No outbound at all, or a proxy that is complete, with the outbounds "Direct" and "Reject"; ports of
-- 16 bits; no hosts.
abbrev pub WellFormed : OutputConfig → Type 0
WellFormed c =
    ((c.outbounds ≡ [])
      ⊎ ((main : OutboundConfig) × ((c.outbounds ≡ with_plain main)
            × ((main.tag ≡ "Proxy")
                × ((is_parsed main.protocol ≡ true) × (validate_outbound main ≡ true))))))
    × (All (λ p. p < 2 ^ 16) (map (λ i. i.port) c.inbounds) × NoHosts c.dns)

pub port_of-bound : (default port : ℕ) → default < 2 ^ 16 → port_of default port < 2 ^ 16
unfolding port_of
port_of-bound default port h = elim (Bool-cases (ltb 0 port)) [
  | inl e ↦ rw e (omega arith)
  | inr e ↦ rw e h
]

valid-main :
    (main : OutboundConfig) (outs : List OutboundConfig)
    → outs ≡ with_plain main
    → all_valid outs ≡ true
    → validate_outbound main ≡ true
unfolding all_valid with_plain
valid-main main outs e h = ground (arith, sym (ap all_valid e) ∙ h)

Ensures-then {ℓ κ} :
    {A : Type ℓ} {B : Type κ} (Q : A → Type 0) (P : B → Type 0) (m : Outcome A) (f : A → Outcome B)
    → Ensures Q m
    → ((x : A) → Q x → Ensures P (f x))
    → Ensures P (m >>= f)
Ensures-then Q P (done x) f h k = k x h
Ensures-then Q P invalid f h k = tt
Ensures-then Q P panic f h k = tt

validated :
    (net : Net) (opts : ParseOptions) (mode : String) (c : OutputConfig)
    → Parsed net (args_of net opts mode) c
    → Ensures WellFormed (if all_valid c.outbounds then done c else invalid)
unfolding args_of
validated net opts mode c (o, (i, d)) = elim (Bool-cases (all_valid c.outbounds)) [
  | inr h ↦ rw h tt
  | inl h ↦ rw h (
    elim o [
      | inl e ↦ inl e
      | inr (main, (e, (t, k))) ↦ inr (main, (e, (t, (k, valid-main main c.outbounds e h))))
    ],
    (
      rw i (
        port_of-bound 10809 opts.http_port (omega arith),
        (port_of-bound 10808 opts.socks_port (omega arith), tt),
      ),
      rw d (dns-NoHosts net.exists _ _ _),
    ),
  )
]

-- What `Parse` prints has no outbound at all, or a complete proxy of one of the four protocols with the
-- outbounds "Direct" and "Reject"; its inbound ports have 16 bits, and its DNS configuration maps no hosts.
pub parse-WellFormed :
    (net : Net) (opts : ParseOptions) (config : OutputConfig)
    → parse net opts ≡ done config
    → WellFormed config
unfolding parse
parse-WellFormed net opts config e =
    let mode : String = default_mode opts.routing_mode in
    Ensures-done WellFormed (parse net opts) config
      (Ensures-then (Parsed net (args_of net opts mode)) WellFormed
        (dispatch net (args_of net opts mode) opts.uri) _
        (dispatch-Parsed net (args_of net opts mode) opts.uri) (validated net opts mode))
      e
