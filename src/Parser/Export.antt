-- ===== src/Parser/Export.antt =====
-- v2root/parser.go: JSONToConfigString from the configuration it reads, and buildVlessURI,
-- buildTrojanURI, buildVmessURI and buildShadowsocksURI with getPluginInfo.
pub mod Vmess
use Prim.Native.String.{String}
use text.Mathlib.Text.{◌==◌}
use v2root_core.Base.{
  ℕ, Bool, ◌&&◌, ◌||◌, not, Option, none, some, List, [], ◌∷◌, ◌++◌, if◌then◌else◌,
}
use v2root_core.Parser.Text.{concat, join, print}
use v2root_core.Parser.Values.{Values, set_if, set_some}
use v2root_core.Parser.Types.{
  VlessVnext, TrojanServer, ShadowsocksServer, StreamSettings, OutboundConfig, WsSettings,
  TlsSettings, OutputConfig,
}
use v2root_core.Parser.Validate.{as_vless, as_trojan, as_shadowsocks}
use v2root_core.Parser.Query.{vless_stream_query, trojan_stream_query, differs}
use v2root_core.Parser.Net.{Net}
use v2root_core.Parser.Export.Vmess.{build_vmess_uri}

-- "scheme://user@address:port"
pub authority : String → String → String → ℕ → String
unfolding concat print
authority scheme user address port =
    concat (scheme ∷ "://" ∷ user ∷ "@" ∷ address ∷ ":" ∷ print port ∷ [])

-- "?query", unless it is empty.
pub query_part : Net → Values → String
unfolding concat
query_part net [] = ""
query_part net (kv ∷ q) = concat ("?" ∷ net.encode_query (kv ∷ q) ∷ [])

-- "#remark", unless it is empty.
pub fragment_part : Net → String → String
unfolding concat
fragment_part net remark = if remark == "" then "" else concat ("#" ∷ net.path_escape remark ∷ [])

-- Nil stream settings count as TCP without security.
abbrev pub default_stream : StreamSettings
default_stream = record {
  network = "tcp";
  security = "none";
  tls = none;
  reality = none;
  tcp = none;
  ws = none;
  http = none;
  quic = none;
  kcp = none;
  grpc = none;
}

unfoldable pub stream_or_default : OutboundConfig → StreamSettings
stream_or_default ob = elim ob.stream_settings [ none ↦ default_stream | some st ↦ st ]

-- The query of a VLESS link.
unfoldable pub vless_query : String → String → StreamSettings → Values
unfolding vless_stream_query set_if set_some
vless_query encryption flow st =
    vless_stream_query
      (set_some (set_if (differs "none" encryption) [] "encryption" encryption) "flow" flow) st

abbrev pub vless_uri_of :
    Net → OutboundConfig → StreamSettings → Option (List VlessVnext) → Option String
vless_uri_of net ob st none = none
vless_uri_of net ob st (some []) = none
vless_uri_of net ob st (some (vnext ∷ vs)) = elim vnext.users [
  | [] ↦ none
  | user ∷ us ↦ some (
      concat (
        authority "vless" user.id vnext.address vnext.port
        ∷ query_part net (vless_query user.encryption user.flow st)
        ∷ fragment_part net ob.remark
        ∷ []))
]

unfoldable pub build_vless_uri : Net → OutboundConfig → StreamSettings → Option String
unfolding authority query_part fragment_part vless_query concat
build_vless_uri net ob st = vless_uri_of net ob st (as_vless ob.settings)

-- The query of a Trojan link.
unfoldable pub trojan_query : String → StreamSettings → Values
unfolding trojan_stream_query set_some
trojan_query flow st = trojan_stream_query (set_some [] "flow" flow) st

abbrev pub trojan_uri_of :
    Net → OutboundConfig → StreamSettings → Option (List TrojanServer) → Option String
trojan_uri_of net ob st none = none
trojan_uri_of net ob st (some []) = none
trojan_uri_of net ob st (some (server ∷ ss)) = some (
    concat (
      authority "trojan" server.password server.address server.port
      ∷ query_part net (trojan_query server.flow st)
      ∷ fragment_part net ob.remark
      ∷ []))

unfoldable pub build_trojan_uri : Net → OutboundConfig → StreamSettings → Option String
unfolding authority query_part fragment_part trojan_query concat
build_trojan_uri net ob st = trojan_uri_of net ob st (as_trojan ob.settings)

-- An option "key=value", unless the value is empty.
pub option_some : String → String → List String
unfolding concat
option_some key v = if v == "" then [] else concat (key ∷ v ∷ []) ∷ []

pub ws_options : Option WsSettings → List String
unfolding option_some
ws_options none = []
ws_options (some w) =
    elim w.host [ none ↦ [] | some h ↦ option_some "host=" h ] ++ option_some "path=" w.path

pub tls_options : Option TlsSettings → List String
unfolding option_some
tls_options none = []
tls_options (some t) = option_some "sni=" t.sni

-- `none`: the network is not "ws".
pub get_plugin_info : StreamSettings → Option String
unfolding ws_options tls_options concat join
get_plugin_info st =
    if st.network == "ws"
    then some (
        concat (
          "v2ray-plugin;"
          ∷ join ";" (
              (if st.security == "tls" then "tls" ∷ [] else [])
              ++ (ws_options st.ws ++ tls_options st.tls))
          ∷ []))
    else none

unfoldable pub plugin_part : Net → StreamSettings → String
unfolding get_plugin_info concat
plugin_part net st = if st.network == "tcp" then "" else elim (get_plugin_info st) [
  | none ↦ ""
  | some plugin ↦ concat ("?plugin=" ∷ net.query_escape plugin ∷ [])
]

abbrev pub shadowsocks_uri_of :
    Net → OutboundConfig → StreamSettings → Option (List ShadowsocksServer) → Option String
shadowsocks_uri_of net ob st none = none
shadowsocks_uri_of net ob st (some []) = none
shadowsocks_uri_of net ob st (some (server ∷ ss)) = some (
    concat (
      authority "ss" (net.url_encode (concat (server.method ∷ ":" ∷ server.password ∷ [])))
        server.address server.port
      ∷ plugin_part net st
      ∷ fragment_part net ob.remark
      ∷ []))

unfoldable pub build_shadowsocks_uri : Net → OutboundConfig → StreamSettings → Option String
unfolding authority plugin_part fragment_part concat
build_shadowsocks_uri net ob st = shadowsocks_uri_of net ob st (as_shadowsocks ob.settings)

-- The first outbound that is "Proxy", or neither "Direct" nor "Reject".
unfoldable pub first_proxy : List OutboundConfig → Option OutboundConfig
first_proxy [] = none
first_proxy (ob ∷ obs) =
    let rest = first_proxy obs in
    if ob.tag == "Proxy" || (not (ob.tag == "Direct") && not (ob.tag == "Reject"))
    then some ob
    else rest

-- Without one, or if it names no protocol, the first outbound of all.
unfoldable pub first_outbound : List OutboundConfig → Option OutboundConfig
unfolding first_proxy
first_outbound [] = none
first_outbound (ob ∷ obs) = elim (first_proxy (ob ∷ obs)) [
  | none ↦ some ob
  | some found ↦ if found.protocol == "" then some ob else some found
]

-- The switch on the protocol.
unfoldable pub build_uri : Net → OutboundConfig → StreamSettings → Option String
unfolding build_vless_uri build_trojan_uri build_vmess_uri build_shadowsocks_uri
build_uri net ob st =
    if ob.protocol == "vless"
    then build_vless_uri net ob st
    else if ob.protocol == "trojan"
    then build_trojan_uri net ob st
    else if ob.protocol == "vmess"
    then build_vmess_uri net ob st
    else if ob.protocol == "shadowsocks"
    then build_shadowsocks_uri net ob st
    else none

-- `JSONToConfigString`; `none` is the empty text.
unfoldable pub config_string : Net → OutputConfig → Option String
unfolding build_uri first_outbound stream_or_default
config_string net config = elim (first_outbound config.outbounds) [
  | none ↦ none
  | some ob ↦ build_uri net ob (stream_or_default ob)
]
