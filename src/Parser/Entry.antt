-- ===== src/Parser/Entry.antt =====
-- v2root/parser.go: Parse and its four siblings, from the options that their JSON argument holds to
-- the configuration that they print; the empty text that stands for an error is not told apart from
-- another error.
pub mod Safe
pub mod WellFormed
pub mod Exported
use Prim.Native.String.{String}
use Prim.Native.String as Text
use text.Mathlib.Text.{◌==◌}
use v2root_core.Base.{
  ℕ, ltb, ◌%◌, ◌^◌, Bool, true, ◌&&◌, not, Option, none, some, List, [], ◌∷◌, if◌then◌else◌,
}
use v2root_core.Base.Outcome.{Outcome, done, invalid, ◌>>=◌}
use v2root_core.Parser.Text.{has_prefix, is_separator}
use v2root_core.Parser.Types.{OutboundConfig, OutputConfig, GeositeDnsRule, ParseOptions}
use v2root_core.Parser.Validate.{validate_outbound}
use v2root_core.Parser.Net.{Net}
use v2root_core.Parser.Links.{ParseArgs}
use v2root_core.Parser.Links.Vless.{parse_vless}
use v2root_core.Parser.Links.Vmess.{parse_vmess}
use v2root_core.Parser.Links.Trojan.{parse_trojan}
use v2root_core.Parser.Links.Shadowsocks.{parse_shadowsocks}

-- The text in front of the last separator; `none` if `strings.LastIndexAny` is -1.
pub before_separator : String → Option String
before_separator Text.[] = none
before_separator (Text.◌∷◌ c s) =
    let rest = before_separator s in
    elim rest [ some p ↦ some (Text.◌∷◌ c p) | none ↦ if is_separator c then some "" else none ]

pub directory : String → String
unfolding before_separator
directory path = elim (before_separator path) [ none ↦ path | some dir ↦ dir ]

module _ (net : Net) where
  -- What the variable XRAY_LOCATION_ASSET is set to, if it is.
  pub asset_location : ParseOptions → Option String
  unfolding directory
  asset_location opts =
      if not (opts.geosite_file == "")
      then if net.exists opts.geosite_file then some (directory opts.geosite_file) else none
      else if not (opts.geosite_path == "") && net.exists opts.geosite_path
      then some (directory opts.geosite_path)
      else none

  -- The geosite file that exists goes before the path.
  pub geosite_path_of : ParseOptions → String
  geosite_path_of opts =
      if not (opts.geosite_file == "") && net.exists opts.geosite_file
      then opts.geosite_file
      else opts.geosite_path

pub dns_rule_of : ParseOptions → Option GeositeDnsRule
dns_rule_of opts =
    if not (opts.geosite_domain == "") && not (opts.geosite_dns == "")
    then some (record { domain = opts.geosite_domain; dns = opts.geosite_dns })
    else none

-- `uint16(port)` if the port is positive, else the default.
unfoldable pub port_of : ℕ → ℕ → ℕ
port_of default port = if ltb 0 port then port % 2 ^ 16 else default

-- The arguments, with the routing mode as given.
unfoldable pub args_of : Net → ParseOptions → String → ParseArgs
unfolding geosite_path_of dns_rule_of port_of
args_of net opts routing_mode = record {
  http_port = port_of 10809 opts.http_port;
  socks_port = port_of 10808 opts.socks_port;
  geosite_path = geosite_path_of net opts;
  custom_dns = opts.dns_config;
  geosite_dns_rule = dns_rule_of opts;
  geosite_rules = opts.geosite_rules;
  geoip_rules = opts.geoip_rules;
  routing_mode = routing_mode;
}

pub default_mode : String → String
default_mode mode = if mode == "" then "proxy" else mode

-- The parser for the link's scheme.
unfoldable pub dispatch : Net → ParseArgs → String → Outcome OutputConfig
unfolding parse_vless parse_vmess parse_trojan parse_shadowsocks
dispatch net a uri =
    if has_prefix uri "vless://"
    then parse_vless net a uri
    else if has_prefix uri "vmess://"
    then parse_vmess net a uri
    else if has_prefix uri "trojan://"
    then parse_trojan net a uri
    else if has_prefix uri "ss://"
    then parse_shadowsocks net a uri
    else invalid

-- The loop over the outbounds.
unfoldable pub all_valid : List OutboundConfig → Bool
unfolding validate_outbound
all_valid [] = true
all_valid (ob ∷ obs) = validate_outbound ob && all_valid obs

-- `Parse`
unfoldable pub parse : Net → ParseOptions → Outcome OutputConfig
unfolding dispatch args_of default_mode all_valid
parse net opts =
    dispatch net (args_of net opts (default_mode opts.routing_mode)) opts.uri >>= λ config.
    if all_valid config.outbounds then done config else invalid

-- What `ParseVless` and its siblings do with the parser of each: no default mode, no look at the scheme
-- and no validation.
pub parse_with :
    (Net → ParseArgs → String → Outcome OutputConfig) → Net → ParseOptions → Outcome OutputConfig
unfolding args_of
parse_with parser net opts = parser net (args_of net opts opts.routing_mode) opts.uri

-- `ParseVless`
pub export_vless : Net → ParseOptions → Outcome OutputConfig
unfolding parse_with parse_vless
export_vless = parse_with parse_vless

-- `ParseTrojan`
pub export_trojan : Net → ParseOptions → Outcome OutputConfig
unfolding parse_with parse_trojan
export_trojan = parse_with parse_trojan

-- `ParseVmess`
pub export_vmess : Net → ParseOptions → Outcome OutputConfig
unfolding parse_with parse_vmess
export_vmess = parse_with parse_vmess

-- `ParseShadowsocks`
unfoldable pub export_shadowsocks : Net → ParseOptions → Outcome OutputConfig
unfolding parse_with parse_shadowsocks
export_shadowsocks = parse_with parse_shadowsocks
