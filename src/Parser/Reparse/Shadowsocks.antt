-- ===== src/Parser/Reparse/Shadowsocks.antt =====
-- Shadowsocks links: parseShadowsocks after buildShadowsocksURI.
use Prim.Native.String.{String}
use Prim.Native.String as Text
use text.Mathlib.Text.{◌==◌}
use text.Mathlib.TextEquality.{eq_iff}
use text.Mathlib.TextLemmas as TextLemmas
use v2root_core.Base.{
  ℕ, ◌<◌, ◌^◌, ◌≡◌, refl, sym, ap, ◌∙◌, false, some, [], ◌∷◌, arith, Bool-cases, inl, inr,
  Option-cases,
}
use v2root_core.Base.Outcome.{done}
use v2root_core.Parser.Text.{concat, print, parse_uint16, contains, split_two}
use v2root_core.Parser.Text.Laws.{parse_uint16-print, parse_uint16-bound, concat-split_two}
use v2root_core.Parser.Types.{OutputConfig}
use v2root_core.Parser.Net.{Net, Url}
use v2root_core.Parser.Links.{
  ParseArgs, config, with_plain, proxy_outbound, username_of, remark_of, must_parse_port,
}
use v2root_core.Parser.Links.Shadowsocks.{
  parse_shadowsocks, encoded_part, decode, colon, shadowsocks_server, shadowsocks_config,
  plain_stream,
}
use v2root_core.Parser.Export.{
  authority, fragment_part, plugin_part, config_string, build_uri, build_shadowsocks_uri,
  first_outbound, first_proxy, stream_or_default,
}
use v2root_core.Parser.Reparse.{Reads}

-- What is encoded in a link.
abbrev pub auth : String → String → String
auth method password = concat (method ∷ ":" ∷ password ∷ [])

-- The link that is written for the parts of a URL and its method and password.
abbrev pub shadowsocks_link : Net → Url → String → String → String
shadowsocks_link net u method password = concat (
    authority "ss" (net.url_encode (auth method password)) u.hostname (must_parse_port u.port)
    ∷ ""
    ∷ fragment_part net (remark_of net u)
    ∷ [])

must_parse_port-bound : (s : String) → must_parse_port s < 2 ^ 16
unfolding must_parse_port
must_parse_port-bound s = elim (Bool-cases (s == "")) [
  | inl h ↦ rw h (omega arith)
  | inr h ↦ elim (Option-cases (parse_uint16 s)) [
    | inl e ↦ rw (h, e) (omega arith)
    | inr (n, e) ↦ rw (h, e) (parse_uint16-bound s n e)
  ]
]

-- A port below 2^16 that was printed is read again by mustParsePort.
pub must_parse_port-print : (n : ℕ) → n < 2 ^ 16 → must_parse_port (print n) ≡ n
unfolding must_parse_port parse_uint16
must_parse_port-print n h = elim (Bool-cases (print n == "")) [
  | inl e ↦ ground (arith, parse_uint16-print n h, ap parse_uint16 ((eq_iff (print n) "").0 e))
  | inr e ↦ rw (e, parse_uint16-print n h) refl
]

auth-concat :
    (method password : String)
    → concat (method ∷ ":" ∷ password ∷ []) ≡ Text.◌++◌ method (Text.◌∷◌ ":" password)
unfolding concat
auth-concat method password = ap (Text.◌++◌ method) (
    TextLemmas.cons-append ":" "" (Text.◌++◌ password "")
    ∙ ap (Text.◌∷◌ ":")
        (TextLemmas.nil-append (Text.◌++◌ password "") ∙ TextLemmas.append-nil password))

module _ (net : Net) (a : ParseArgs) (raw : String) (u : Url)
    (part decoded method password : String) (plain : contains raw "plugin=" ≡ false)
    (eu : net.parse_url raw ≡ some u) (ee : encoded_part u raw ≡ done part)
    (ed : decode net part ≡ some decoded)
    (es : split_two colon decoded ≡ some (method, password)) where
  parse_shadowsocks-eq :
      parse_shadowsocks net a raw
      ≡ done (shadowsocks_config net a u (method, password) plain_stream)
  unfolding parse_shadowsocks
  parse_shadowsocks-eq = rw (plain, eu, ee, ed, es) refl

  config_string-parsed :
      config_string net (shadowsocks_config net a u (method, password) plain_stream)
      ≡ some (shadowsocks_link net u method password)
  unfolding config_string build_uri build_shadowsocks_uri first_outbound first_proxy
      stream_or_default config with_plain proxy_outbound shadowsocks_config shadowsocks_server
      plugin_part
  config_string-parsed = refl

  -- The method and the password are joined to what was decoded.
  auth-decoded : auth method password ≡ decoded
  unfolding colon
  auth-decoded = auth-concat method password ∙ concat-split_two ":" decoded method password es

server-same :
    (net : Net) (a : ParseArgs) (u u' : Url) (pair : String × String)
    → must_parse_port u'.port ≡ must_parse_port u.port
    → u'.hostname ≡ u.hostname
    → remark_of net u' ≡ remark_of net u
    → shadowsocks_config net a u' pair plain_stream ≡ shadowsocks_config net a u pair plain_stream
unfolding shadowsocks_config shadowsocks_server
server-same net a u u' pair p h r = rw (r, p, h) refl

-- A link without a plugin that was parsed is written for the configuration so that it is parsed to
-- the same configuration again, where net/url reads the parts of the written link and the encoding of
-- the method and the password is decoded to them.
pub parse_shadowsocks-config_string :
    (net : Net) (a : ParseArgs) (raw : String) (u u' : Url) (part decoded method password : String)
    (config : OutputConfig)
    → contains raw "plugin=" ≡ false
    → net.parse_url raw ≡ some u
    → encoded_part u raw ≡ done part
    → decode net part ≡ some decoded
    → split_two colon decoded ≡ some (method, password)
    → parse_shadowsocks net a raw ≡ done config
    → contains (shadowsocks_link net u method password) "plugin=" ≡ false
    → net.parse_url (shadowsocks_link net u method password) ≡ some u'
    → (net.url_encode (auth method password) == "") ≡ false
    → decode net (net.url_encode (auth method password)) ≡ some (auth method password)
    → Reads net u'
        (net.url_encode (auth method password))
        u.hostname
        (must_parse_port u.port)
        []
        (remark_of net u)
    → (config_string net config ≡ some (shadowsocks_link net u method password))
      × (parse_shadowsocks net a (shadowsocks_link net u method password) ≡ done config)
unfolding encoded_part username_of
parse_shadowsocks-config_string net a raw u u' part decoded method password config plain eu ee ed es
      h plain' eu' full back r =
    let link : String = shadowsocks_link net u method password in
    let eq = parse_shadowsocks-eq net a raw u part decoded method password plain eu ee ed es in
    let same : shadowsocks_config net a u (method, password) plain_stream ≡ config =
      ground (arith, sym eq ∙ h) in
    let joined : auth method password ≡ decoded =
      auth-decoded net a raw u part decoded method password plain eu ee ed es in
    let port : must_parse_port u'.port ≡ must_parse_port u.port =
      ap must_parse_port r.port_text
      ∙ must_parse_port-print (must_parse_port u.port) (must_parse_port-bound u.port) in
    let user : encoded_part u' link ≡ done (net.url_encode (auth method password)) =
      rw (r.username, full) refl in
    (
      ap (config_string net) (sym same)
          ∙ config_string-parsed net a raw u part decoded method password plain eu ee ed es,
      parse_shadowsocks-eq net a link u' (net.url_encode (auth method password)) decoded method
            password plain' eu' user (back ∙ ap some joined) es
          ∙ ap done
              (server-same net a u u' (method, password) port r.hostname r.remark_text ∙ same),
    )
