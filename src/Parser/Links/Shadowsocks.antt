-- ===== src/Parser/Links/Shadowsocks.antt =====
-- v2root/parser.go: parseShadowsocks and parseShadowsocksPlugin.
use Prim.Native.String.{String, slice}
use text.Mathlib.Text.{◌==◌, find?}
use v2root_core.Base.{
  ℕ, ◌+◌, ltb, Bool, true, false, ◌||◌, Option, none, some, List, [], ◌∷◌, if◌then◌else◌,
}
use v2root_core.Base.Outcome.{Outcome, done, invalid, panic, ◌>>=◌}
use v2root_core.Parser.Text.{contains, split, split_two, has_prefix, trim_prefix}
use v2root_core.Parser.Values.{Values, get}
use v2root_core.Parser.Types.{
  Settings, shadowsocks_settings, TlsSettings, WsSettings, StreamSettings, OutputConfig,
}
use v2root_core.Parser.Stream.{or_default}
use v2root_core.Parser.Net.{Net, Url}
use v2root_core.Parser.Links.{
  ParseArgs, required, inbounds, proxy_outbound, with_plain, config, remark_of, username_of,
  must_parse_port,
}

-- `rawURL[prefixIndex:atIndex]`, in bytes, which panics if the "@" stands in front of the prefix's end. An
-- index of -1 for a missing prefix gives 4.
unfoldable pub before_at : String → Outcome String
before_at raw_url = required (find? raw_url "@") >>= λ at_index.
    let prefix_index : ℕ = elim (find? raw_url "ss://") [ none ↦ 4 | some i ↦ i + 5 ] in
    if ltb at_index prefix_index then panic else done (slice raw_url prefix_index at_index)

unfoldable pub encoded_part : Url → String → Outcome String
unfolding username_of before_at
encoded_part u raw_url =
    let between = before_at raw_url in if username_of u == "" then between else done (username_of u)

-- RawURLEncoding, and StdEncoding if that fails.
pub decode : Net → String → Option String
decode net s = elim (net.raw_url_decode s) [ none ↦ net.std_decode s | some d ↦ some d ]

unfoldable pub colon : ℕ
colon = 58

unfoldable pub shadowsocks_server : Url → String → String → Settings
unfolding must_parse_port
shadowsocks_server u method password = shadowsocks_settings (
    record {
      address = u.hostname;
      port = must_parse_port u.port;
      method = method;
      password = password;
    }
    ∷ [])

abbrev pub plain_stream : StreamSettings
plain_stream = record {
  network = "tcp";
  security = "";
  tls = none;
  reality = none;
  tcp = none;
  ws = none;
  http = none;
  quic = none;
  kcp = none;
  grpc = none;
}

unfoldable pub shadowsocks_config :
    Net → ParseArgs → Url → String × String → StreamSettings → OutputConfig
unfolding inbounds shadowsocks_server proxy_outbound with_plain config remark_of
shadowsocks_config net a u (method, password) st =
    config net a (inbounds none a.http_port a.socks_port) (
      with_plain
        (proxy_outbound "shadowsocks" (remark_of net u) (shadowsocks_server u method password) st))

-- The options of v2ray-plugin: whether "tls" is among them, and the path and host.
pub add_option : Bool × WsSettings → String → Bool × WsSettings
unfolding trim_prefix
add_option (is_tls, ws) opt =
    if opt == "tls"
    then (true, ws)
    else if has_prefix opt "host="
    then (is_tls, record ws { host = some (trim_prefix opt "host=") })
    else if has_prefix opt "path="
    then (is_tls, record ws { path = trim_prefix opt "path=" })
    else (is_tls, ws)

pub add_options : Bool × WsSettings → List String → Bool × WsSettings
unfolding add_option
add_options acc [] = acc
add_options acc (opt ∷ opts) = add_options (add_option acc opt) opts

abbrev pub semicolon : ℕ
semicolon = 59

abbrev pub first_part : List String → String
first_part [] = ""
first_part (p ∷ ps) = p

abbrev pub ws_with : Values → WsSettings → WsSettings
ws_with q ws = record {
  path = or_default ws.path (get q "path");
  host = if get q "host" == "" then ws.host else some (get q "host");
}

abbrev pub plugin_tls : Values → TlsSettings
plugin_tls q = record {
  sni = get q "sni";
  alpn = [];
  fingerprint = get q "fp";
  allow_insecure = false;
}

-- The stream settings that the query's plugin gives.
pub plugin_stream : Values → StreamSettings
unfolding add_options
plugin_stream q =
    let parts = split semicolon (get q "plugin") in
    let (opt_tls, ws) = add_options (false, record { path = ""; host = none }) parts in
    let is_tls = opt_tls || get q "security" == "tls" in
    if first_part parts == "v2ray-plugin"
    then record plain_stream {
      network = "ws";
      security = if is_tls then "tls" else "";
      tls = if is_tls then some (plugin_tls q) else none;
      ws = some (ws_with q ws);
    }
    else plain_stream

-- The method and the password of the user; both empty without a user or a colon.
unfoldable pub plugin_auth : Net → Url → Outcome (String × String)
unfolding decode split_two colon
plugin_auth net u = elim u.username [
  | none ↦ done ("", "")
  | some name ↦ required (decode net u.userinfo) >>= λ decoded. elim (split_two colon decoded) [
    | none ↦ done ("", "")
    | some auth ↦ done auth
  ]
]

unfoldable pub parse_shadowsocks_plugin : Net → ParseArgs → String → Outcome OutputConfig
unfolding plugin_auth plugin_stream shadowsocks_config
parse_shadowsocks_plugin net a raw_url = required (net.parse_url raw_url) >>= λ u.
    plugin_auth net u >>= λ auth.
    if auth.0 == "" || auth.1 == ""
    then invalid
    else done (shadowsocks_config net a u auth (plugin_stream u.query))

unfoldable pub parse_shadowsocks : Net → ParseArgs → String → Outcome OutputConfig
unfolding parse_shadowsocks_plugin encoded_part decode split_two shadowsocks_config contains colon
parse_shadowsocks net a raw_url =
    if contains raw_url "plugin="
    then parse_shadowsocks_plugin net a raw_url
    else (required (net.parse_url raw_url) >>= λ u. encoded_part u raw_url >>= λ part.
        required (decode net part) >>= λ decoded. required (split_two colon decoded) >>= λ auth.
        done (shadowsocks_config net a u auth plain_stream))
