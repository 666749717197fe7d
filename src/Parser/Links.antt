-- ===== src/Parser/Links.antt =====
-- v2root/parser.go: what the parsers of the links share, createDefaultInbounds and mustParsePort.
pub mod Vless
pub mod Trojan
pub mod Vmess
pub mod Shadowsocks
use Prim.Native.String.{String}
use text.Mathlib.Text.{◌==◌}
use v2root_core.Base.{ℕ, Bool, true, Option, none, some, List, [], ◌∷◌, if◌then◌else◌}
use v2root_core.Base.Outcome.{Outcome, done, invalid}
use v2root_core.Parser.Text.{parse_uint16}
use v2root_core.Parser.Types.{
  Settings, no_settings, StreamSettings, OutboundConfig, SniffingSettings, InboundConfig, DnsConfig,
  OutputConfig, GeositeRule, GeoipRule, GeositeDnsRule,
}
use v2root_core.Parser.Routing.{build_routing_config}
use v2root_core.Parser.Dns.{default_dns_config_with_custom}
use v2root_core.Parser.Net.{Net, Url}

-- The parameters that the parsers have beside the link.
pub record ParseArgs : Type 0 where
  pub http_port : ℕ
  pub socks_port : ℕ
  pub geosite_path : String
  pub custom_dns : Option DnsConfig
  pub geosite_dns_rule : Option GeositeDnsRule
  pub geosite_rules : List GeositeRule
  pub geoip_rules : List GeoipRule
  pub routing_mode : String

-- `if err != nil { return nil, err }`
abbrev pub required {ℓ} : {A : Type ℓ} → Option A → Outcome A
required none = invalid
required (some a) = done a

pub default_sniffing : SniffingSettings
default_sniffing = record { enabled = true; dest_override = "http" ∷ "tls" ∷ "quic" ∷ [] }

-- The HTTP and the SOCKS inbound.
unfoldable pub inbounds : Option SniffingSettings → ℕ → ℕ → List InboundConfig
inbounds sniffing http_port socks_port =
    record { port = http_port; protocol = "http"; udp = none; sniffing = sniffing }
    ∷ record { port = socks_port; protocol = "socks"; udp = some true; sniffing = sniffing }
    ∷ []

unfoldable pub create_default_inbounds : ℕ → ℕ → List InboundConfig
unfolding inbounds default_sniffing
create_default_inbounds http_port socks_port = inbounds (some default_sniffing) http_port socks_port

-- The outbounds "Direct" and "Reject".
unfoldable pub plain_outbound : String → String → OutboundConfig
plain_outbound protocol tag = record {
  protocol = protocol;
  settings = no_settings;
  stream_settings = none;
  remark = "";
  tag = tag;
}

unfoldable pub proxy_outbound : String → String → Settings → StreamSettings → OutboundConfig
proxy_outbound protocol remark settings st = record {
  protocol = protocol;
  settings = settings;
  stream_settings = some st;
  remark = remark;
  tag = "Proxy";
}

unfoldable pub with_plain : OutboundConfig → List OutboundConfig
unfolding plain_outbound
with_plain main =
    main ∷ plain_outbound "freedom" "Direct" ∷ plain_outbound "blackhole" "Reject" ∷ []

-- The configuration with its DNS and routing.
unfoldable pub config : Net → ParseArgs → List InboundConfig → List OutboundConfig → OutputConfig
unfolding default_dns_config_with_custom build_routing_config
config net a ins outs = record {
  inbounds = ins;
  outbounds = outs;
  dns = default_dns_config_with_custom net.exists a.geosite_path a.custom_dns a.geosite_dns_rule;
  routing = some (build_routing_config a.geosite_rules a.geoip_rules a.routing_mode);
}

-- `remark, _ := url.PathUnescape(parsedURL.Fragment)`
unfoldable pub remark_of : Net → Url → String
remark_of net u = elim (net.path_unescape u.fragment) [ none ↦ "" | some r ↦ r ]

-- `User.Username()`, which allows a nil User.
unfoldable pub username_of : Url → String
username_of u = elim u.username [ none ↦ "" | some name ↦ name ]

unfoldable pub must_parse_port : String → ℕ
unfolding parse_uint16
must_parse_port port_str =
    if port_str == "" then 443 else elim (parse_uint16 port_str) [ none ↦ 443 | some port ↦ port ]
