-- ===== src/Parser/Links/Vless.antt =====
-- v2root/parser.go: parseVless.
use Prim.Native.String.{String}
use text.Mathlib.Text.{◌==◌}
use v2root_core.Base.{ℕ, [], ◌∷◌, if◌then◌else◌}
use v2root_core.Base.Outcome.{Outcome, done, invalid, ◌>>=◌}
use v2root_core.Parser.Text.{parse_uint16}
use v2root_core.Parser.Values.{get}
use v2root_core.Parser.Types.{Settings, vless_settings, OutputConfig}
use v2root_core.Parser.Stream.{stream, vless_tcp, or_default}
use v2root_core.Parser.Net.{Net, Url}
use v2root_core.Parser.Links.{
  ParseArgs, required, create_default_inbounds, proxy_outbound, with_plain, config, remark_of,
  username_of,
}

unfoldable pub vless_server : Url → ℕ → Settings
unfolding username_of
vless_server u port = vless_settings (
    record {
      address = u.hostname;
      port = port;
      users =
          record {
            id = username_of u;
            encryption = or_default "none" (get u.query "encryption");
            flow = get u.query "flow";
          }
          ∷ [];
    }
    ∷ [])

-- A link without a user has no outbound and no stream settings.
unfoldable pub vless_config : Net → ParseArgs → Url → ℕ → Outcome OutputConfig
unfolding vless_server stream proxy_outbound with_plain config remark_of username_of
    create_default_inbounds
vless_config net a u port =
    if username_of u == ""
    then done (config net a (create_default_inbounds a.http_port a.socks_port) [])
    else (required (stream vless_tcp "none" u.query) >>= λ st. done (
        config net a (create_default_inbounds a.http_port a.socks_port)
          (with_plain (proxy_outbound "vless" (remark_of net u) (vless_server u port) st))))

unfoldable pub parse_vless : Net → ParseArgs → String → Outcome OutputConfig
unfolding vless_config parse_uint16
parse_vless net a raw_url = do
  u ← required (net.parse_url raw_url)
  port ← required (parse_uint16 u.port)
  if or_default "none" (get u.query "encryption") == "none"
      then vless_config net a u port
      else invalid
