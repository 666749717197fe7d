-- ===== src/Parser/Links/Trojan.antt =====
-- v2root/parser.go: parseTrojan.
use Prim.Native.String.{String}
use v2root_core.Base.{ℕ, [], ◌∷◌}
use v2root_core.Base.Outcome.{Outcome, done, ◌>>=◌}
use v2root_core.Parser.Text.{parse_uint16}
use v2root_core.Parser.Values.{get}
use v2root_core.Parser.Types.{Settings, trojan_settings, OutputConfig}
use v2root_core.Parser.Stream.{stream, trojan_tcp}
use v2root_core.Parser.Net.{Net, Url}
use v2root_core.Parser.Links.{
  ParseArgs, required, create_default_inbounds, proxy_outbound, with_plain, config, remark_of,
  username_of,
}

unfoldable pub trojan_server : Url → ℕ → Settings
unfolding username_of
trojan_server u port = trojan_settings (
    record {
      address = u.hostname;
      port = port;
      password = username_of u;
      flow = get u.query "flow";
    }
    ∷ [])

unfoldable pub parse_trojan : Net → ParseArgs → String → Outcome OutputConfig
unfolding trojan_server parse_uint16 stream proxy_outbound with_plain config remark_of
    create_default_inbounds
parse_trojan net a raw_url = do
  u ← required (net.parse_url raw_url)
  port ← required (parse_uint16 u.port)
  st ← required (stream trojan_tcp "tls" u.query)
  done (
      config net a (create_default_inbounds a.http_port a.socks_port)
        (with_plain (proxy_outbound "trojan" (remark_of net u) (trojan_server u port) st)))
