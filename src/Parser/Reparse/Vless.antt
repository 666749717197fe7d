-- ===== src/Parser/Reparse/Vless.antt =====
-- VLESS links: parseVless after buildVlessURI.
use Prim.Native.String.{String}
use text.Mathlib.Text.{◌==◌}
use text.Mathlib.TextEquality.{eq_iff}
use v2root_core.Base.{
  ℕ, ◌≡◌, refl, sym, ap, ◌∙◌, Bool, true, false, some, [], ◌∷◌, if◌then◌else◌, arith,
}
use v2root_core.Base.Outcome.{done, invalid}
use v2root_core.Parser.Text.{concat, parse_uint16}
use v2root_core.Parser.Text.Laws.{parse_uint16-print, parse_uint16-bound}
use v2root_core.Parser.Values.Laws.{get-set_some, get-set_if}
use v2root_core.Parser.Values.{Values, get, set_some, set_if}
use v2root_core.Parser.Types.{StreamSettings, OutputConfig}
use v2root_core.Parser.Stream.{stream, vless_tcp, or_default}
use v2root_core.Parser.Net.{Net, Url}
use v2root_core.Parser.Links.{
  ParseArgs, config, create_default_inbounds, with_plain, proxy_outbound, username_of, remark_of,
}
use v2root_core.Parser.Links.Vless.{parse_vless, vless_config, vless_server}
use v2root_core.Parser.Export.{
  authority, query_part, fragment_part, vless_query, config_string, build_uri, build_vless_uri,
  first_outbound, first_proxy, stream_or_default,
}
use v2root_core.Parser.Query.{differs}
use v2root_core.Parser.Query.RoundTrip.{vless_stream_query-other, stream-vless_stream_query}
use v2root_core.Parser.Query.Agree.{Exportable, Fresh}
use v2root_core.Parser.Reparse.{Reads}

-- The link that is written for the parts of a URL and its stream settings.
abbrev pub vless_link : Net → Url → ℕ → StreamSettings → String
vless_link net u port st = concat (
    authority "vless" (username_of u) u.hostname port
    ∷ query_part net
        (vless_query (or_default "none" (get u.query "encryption")) (get u.query "flow") st)
    ∷ fragment_part net (remark_of net u)
    ∷ [])

abbrev parsed : Net → ParseArgs → Url → ℕ → StreamSettings → OutputConfig
parsed net a u port st =
    config net a (create_default_inbounds a.http_port a.socks_port)
      (with_plain (proxy_outbound "vless" (remark_of net u) (vless_server u port) st))

module _ (net : Net) (a : ParseArgs) (raw : String) (u : Url) (port : ℕ) (st : StreamSettings)
    (eu : net.parse_url raw ≡ some u) (ep : parse_uint16 u.port ≡ some port)
    (es : stream vless_tcp "none" u.query ≡ some st) (en : (username_of u == "") ≡ false) where
  pub parse_vless-eq : parse_vless net a raw ≡ (
      if or_default "none" (get u.query "encryption") == "none"
      then done (parsed net a u port st)
      else invalid)
  unfolding parse_vless vless_config
  parse_vless-eq = rw (eu, ep, en, es) refl

  pub config_string-parsed :
      config_string net (parsed net a u port st) ≡ some (vless_link net u port st)
  unfolding config_string build_uri build_vless_uri first_outbound first_proxy stream_or_default
      config with_plain proxy_outbound vless_server
  config_string-parsed = refl

-- The keys in front of the stream settings.
abbrev head_query : String → String → Values
head_query encryption flow =
    set_some (set_if (differs "none" encryption) [] "encryption" encryption) "flow" flow

head-Fresh : (encryption flow : String) → Fresh (head_query encryption flow)
unfolding get
head-Fresh encryption flow j a = ground (
  arith,
  a,
  get-set_some (set_if (differs "none" encryption) [] "encryption" encryption) "flow" flow j,
  get-set_if (differs "none" encryption) [] "encryption" encryption j,
)

head-flow : (encryption flow : String) → get (head_query encryption flow) "flow" ≡ flow
unfolding get
head-flow encryption flow = ground (
  arith,
  get-set_some (set_if (differs "none" encryption) [] "encryption" encryption) "flow" flow "flow",
  get-set_if (differs "none" encryption) [] "encryption" encryption "flow",
  eq_iff flow "",
)

head-encryption :
    (encryption flow : String)
    → (encryption == "none") ≡ true
    → get (head_query encryption flow) "encryption" ≡ ""
unfolding get
head-encryption encryption flow e = ground (
  arith,
  e,
  get-set_some (set_if (differs "none" encryption) [] "encryption" encryption) "flow" flow
      "encryption",
  get-set_if (differs "none" encryption) [] "encryption" encryption "encryption",
)

invalid-done :
    (b : Bool) (c d : OutputConfig)
    → (if b then done c else invalid) ≡ done d
    → (b ≡ true) × (c ≡ d)
invalid-done true c d e = (refl, ground (arith, e))
invalid-done false c d e = ground (arith, e)

parsed-same :
    (net : Net) (a : ParseArgs) (u u' : Url) (port : ℕ) (st : StreamSettings)
    → username_of u' ≡ username_of u
    → u'.hostname ≡ u.hostname
    → remark_of net u' ≡ remark_of net u
    → or_default "none" (get u'.query "encryption") ≡ or_default "none" (get u.query "encryption")
    → get u'.query "flow" ≡ get u.query "flow"
    → parsed net a u' port st ≡ parsed net a u port st
unfolding vless_server
parsed-same net a u u' port st n h r e f = rw (r, n, e, f, h) refl

-- A link that was parsed to a configuration with a user, and whose settings a link can hold, is
-- written for that configuration so that it is parsed to the same configuration again, where net/url
-- reads the parts of the written link.
pub parse_vless-config_string :
    (net : Net) (a : ParseArgs) (raw : String) (u u' : Url) (port : ℕ) (st : StreamSettings)
    (config : OutputConfig)
    → net.parse_url raw ≡ some u
    → parse_uint16 u.port ≡ some port
    → stream vless_tcp "none" u.query ≡ some st
    → (username_of u == "") ≡ false
    → Exportable u.query
    → parse_vless net a raw ≡ done config
    → net.parse_url (vless_link net u port st) ≡ some u'
    → Reads net u'
        (username_of u)
        u.hostname
        port
        (vless_query (or_default "none" (get u.query "encryption")) (get u.query "flow") st)
        (remark_of net u)
    → (config_string net config ≡ some (vless_link net u port st))
      × (parse_vless net a (vless_link net u port st) ≡ done config)
unfolding vless_query username_of
parse_vless-config_string net a raw u u' port st config eu ep es en ok h eu' r =
    let enc : String = or_default "none" (get u.query "encryption") in
    let flow : String = get u.query "flow" in
    let eq = parse_vless-eq net a raw u port st eu ep es en in
    let (plain, same) = invalid-done (enc == "none") (parsed net a u port st) config (sym eq ∙ h) in
    let name : username_of u' ≡ username_of u = rw r.username refl in
    let encryption' : get u'.query "encryption" ≡ "" =
      r.query "encryption"
      ∙ vless_stream_query-other (head_query enc flow) st "encryption" refl refl refl
      ∙ head-encryption enc flow plain in
    let flow' : get u'.query "flow" ≡ flow =
      r.query "flow"
      ∙ vless_stream_query-other (head_query enc flow) st "flow" refl refl refl
      ∙ head-flow enc flow in
    let default : or_default "none" (get u'.query "encryption") ≡ enc =
      ap (or_default "none") encryption' ∙ ground (arith, plain, eq_iff enc "none") in
    let port' : parse_uint16 u'.port ≡ some port =
      ap parse_uint16 r.port_text ∙ parse_uint16-print port (parse_uint16-bound u.port port ep) in
    let stream' =
      stream-vless_stream_query u.query (head_query enc flow) u'.query st (head-Fresh enc flow) ok
        es r.query in
    (
      ap (config_string net) (sym same) ∙ config_string-parsed net a raw u port st eu ep es en,
      parse_vless-eq net a (vless_link net u port st) u' port st eu' port' stream'
            (ap (λ z. z == "") name ∙ en)
          ∙ rw (default, plain)
              (ap done (
                parsed-same net a u u' port st name r.hostname r.remark_text default flow' ∙ same)),
    )
