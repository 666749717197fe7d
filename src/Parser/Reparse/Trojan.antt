-- ===== src/Parser/Reparse/Trojan.antt =====
-- Trojan links: parseTrojan after buildTrojanURI.
use Prim.Native.String.{String}
use text.Mathlib.TextEquality.{eq_iff}
use v2root_core.Base.{ℕ, ◌≡◌, refl, sym, ap, ◌∙◌, some, [], ◌∷◌, arith}
use v2root_core.Base.Outcome.{done}
use v2root_core.Parser.Text.{concat, parse_uint16}
use v2root_core.Parser.Text.Laws.{parse_uint16-print, parse_uint16-bound}
use v2root_core.Parser.Values.Laws.{get-set_some}
use v2root_core.Parser.Values.{get, set_some}
use v2root_core.Parser.Types.{StreamSettings, OutputConfig}
use v2root_core.Parser.Stream.{stream, trojan_tcp}
use v2root_core.Parser.Net.{Net, Url}
use v2root_core.Parser.Links.{
  ParseArgs, config, create_default_inbounds, with_plain, proxy_outbound, username_of, remark_of,
}
use v2root_core.Parser.Links.Trojan.{parse_trojan, trojan_server}
use v2root_core.Parser.Export.{
  authority, query_part, fragment_part, trojan_query, config_string, build_uri, build_trojan_uri,
  first_outbound, first_proxy, stream_or_default,
}
use v2root_core.Parser.Query.Agree.{Exportable, Fresh}
use v2root_core.Parser.Query.TrojanRoundTrip.{stream-trojan_stream_query, trojan_stream_query-other}
use v2root_core.Parser.Reparse.{Reads}

-- The link that is written for the parts of a URL and its stream settings.
abbrev pub trojan_link : Net → Url → ℕ → StreamSettings → String
trojan_link net u port st = concat (
    authority "trojan" (username_of u) u.hostname port
    ∷ query_part net (trojan_query (get u.query "flow") st)
    ∷ fragment_part net (remark_of net u)
    ∷ [])

abbrev parsed : Net → ParseArgs → Url → ℕ → StreamSettings → OutputConfig
parsed net a u port st =
    config net a (create_default_inbounds a.http_port a.socks_port)
      (with_plain (proxy_outbound "trojan" (remark_of net u) (trojan_server u port) st))

module _ (net : Net) (a : ParseArgs) (raw : String) (u : Url) (port : ℕ) (st : StreamSettings)
    (eu : net.parse_url raw ≡ some u) (ep : parse_uint16 u.port ≡ some port)
    (es : stream trojan_tcp "tls" u.query ≡ some st) where
  parse_trojan-eq : parse_trojan net a raw ≡ done (parsed net a u port st)
  unfolding parse_trojan
  parse_trojan-eq = rw (eu, ep, es) refl

  config_string-parsed :
      config_string net (parsed net a u port st) ≡ some (trojan_link net u port st)
  unfolding config_string build_uri build_trojan_uri first_outbound first_proxy stream_or_default
      config with_plain proxy_outbound trojan_server
  config_string-parsed = refl

head-Fresh : (flow : String) → Fresh (set_some [] "flow" flow)
unfolding get
head-Fresh flow j a = ground (arith, a, get-set_some [] "flow" flow j)

head-flow : (flow : String) → get (set_some [] "flow" flow) "flow" ≡ flow
unfolding get
head-flow flow = ground (arith, get-set_some [] "flow" flow "flow", eq_iff flow "")

parsed-same :
    (net : Net) (a : ParseArgs) (u u' : Url) (port : ℕ) (st : StreamSettings)
    → username_of u' ≡ username_of u
    → u'.hostname ≡ u.hostname
    → remark_of net u' ≡ remark_of net u
    → get u'.query "flow" ≡ get u.query "flow"
    → parsed net a u' port st ≡ parsed net a u port st
unfolding trojan_server
parsed-same net a u u' port st n h r f = rw (r, n, f, h) refl

-- A link that was parsed, and whose settings a link can hold, is written for the configuration so that
-- it is parsed to the same configuration again, where net/url reads the parts of the written link.
pub parse_trojan-config_string :
    (net : Net) (a : ParseArgs) (raw : String) (u u' : Url) (port : ℕ) (st : StreamSettings)
    (config : OutputConfig)
    → net.parse_url raw ≡ some u
    → parse_uint16 u.port ≡ some port
    → stream trojan_tcp "tls" u.query ≡ some st
    → Exportable u.query
    → parse_trojan net a raw ≡ done config
    → net.parse_url (trojan_link net u port st) ≡ some u'
    → Reads net u'
        (username_of u)
        u.hostname
        port
        (trojan_query (get u.query "flow") st)
        (remark_of net u)
    → (config_string net config ≡ some (trojan_link net u port st))
      × (parse_trojan net a (trojan_link net u port st) ≡ done config)
unfolding trojan_query username_of
parse_trojan-config_string net a raw u u' port st config eu ep es ok h eu' r =
    let flow : String = get u.query "flow" in
    let same : parsed net a u port st ≡ config =
      ground (arith, sym (parse_trojan-eq net a raw u port st eu ep es) ∙ h) in
    let name : username_of u' ≡ username_of u = rw r.username refl in
    let flow' : get u'.query "flow" ≡ flow =
      r.query "flow"
      ∙ trojan_stream_query-other (set_some [] "flow" flow) st "flow" refl refl refl
      ∙ head-flow flow in
    let port' : parse_uint16 u'.port ≡ some port =
      ap parse_uint16 r.port_text ∙ parse_uint16-print port (parse_uint16-bound u.port port ep) in
    let stream' =
      stream-trojan_stream_query u.query (set_some [] "flow" flow) u'.query st (head-Fresh flow) ok
        es r.query in
    (
      ap (config_string net) (sym same) ∙ config_string-parsed net a raw u port st eu ep es,
      parse_trojan-eq net a (trojan_link net u port st) u' port st eu' port' stream'
          ∙ ap done (parsed-same net a u u' port st name r.hostname r.remark_text flow' ∙ same),
    )
