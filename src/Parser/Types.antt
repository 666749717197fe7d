-- ===== src/Parser/Types.antt =====
-- v2root/parser.go: the configuration that a share link is parsed into. A pointer that may be nil is
-- an Option, `interface{}` a sum of what is stored in it, a map with one possible key the value under
-- it. Fields that are never set (of RealitySettings, InboundConfig and RoutingRule) are left out.
use Prim.Native.String.{String}
use v2root_core.Base.{ℕ, Bool, Option, List}

pub record VlessUser : Type 0 where
  pub id : String
  pub encryption : String
  pub flow : String

pub record VlessVnext : Type 0 where
  pub address : String
  pub port : ℕ
  pub users : List VlessUser

pub record TrojanServer : Type 0 where
  pub address : String
  pub port : ℕ
  pub password : String
  pub flow : String

pub record VmessUser : Type 0 where
  pub id : String
  pub alter_id : ℕ
  pub security : String

pub record VmessVnext : Type 0 where
  pub address : String
  pub port : ℕ
  pub users : List VmessUser

pub record ShadowsocksServer : Type 0 where
  pub address : String
  pub port : ℕ
  pub method : String
  pub password : String

-- What `Settings interface{}` holds: the settings of a protocol, nil, or JSON that fits none of them.
pub data Settings : Type 0 where
  vless_settings : List VlessVnext → Settings
  trojan_settings : List TrojanServer → Settings
  vmess_settings : List VmessVnext → Settings
  shadowsocks_settings : List ShadowsocksServer → Settings
  no_settings other_settings : Settings

pub record RealitySettings : Type 0 where
  pub sni : String
  pub fingerprint : String
  pub public_key : String
  pub short_id : String
  pub spider_x : String

pub record TlsSettings : Type 0 where
  pub sni : String
  pub alpn : List String
  pub fingerprint : String
  pub allow_insecure : Bool

-- The header's "Host" values; `none` if the map has no such key.
pub record RequestConfig : Type 0 where
  pub path : List String
  pub hosts : Option (List String)

pub record HeaderConfig : Type 0 where
  pub type : String
  pub request : Option RequestConfig

pub record TcpSettings : Type 0 where
  pub header : Option HeaderConfig

-- The "Host" header, `none` if the map is nil or has no such key.
pub record WsSettings : Type 0 where
  pub path : String
  pub host : Option String

pub record HttpSettings : Type 0 where
  pub path : String
  pub host : List String

pub record QuicSettings : Type 0 where
  pub security : String
  pub key : String
  pub header : Option HeaderConfig

pub record KcpSettings : Type 0 where
  pub seed : String
  pub header : Option HeaderConfig

pub record GrpcSettings : Type 0 where
  pub service_name : String
  pub multi_mode : Bool

pub record StreamSettings : Type 0 where
  pub network : String
  pub security : String
  pub tls : Option TlsSettings
  pub reality : Option RealitySettings
  pub tcp : Option TcpSettings
  pub ws : Option WsSettings
  pub http : Option HttpSettings
  pub quic : Option QuicSettings
  pub kcp : Option KcpSettings
  pub grpc : Option GrpcSettings

pub record OutboundConfig : Type 0 where
  pub protocol : String
  pub settings : Settings
  pub stream_settings : Option StreamSettings
  pub remark : String
  pub tag : String

pub record SniffingSettings : Type 0 where
  pub enabled : Bool
  pub dest_override : List String

-- `Settings` is empty, or has the key "udp".
pub record InboundConfig : Type 0 where
  pub port : ℕ
  pub protocol : String
  pub udp : Option Bool
  pub sniffing : Option SniffingSettings

-- An entry of `Servers`: an address with its domains, or any other JSON value.
pub data DnsServer : Type 0 where
  domain_server : String → List String → DnsServer
  other_server : String → DnsServer

pub record DnsConfig : Type 0 where
  pub servers : List DnsServer
  pub hosts : Option (List (String × String))
  pub client_ip : String
  pub tag : String
  pub strategy : String

pub record RoutingRule : Type 0 where
  pub type : String
  pub domain : List String
  pub ip : List String
  pub port : String
  pub outbound_tag : String

pub record RoutingConfig : Type 0 where
  pub domain_strategy : String
  pub rules : List RoutingRule

pub record OutputConfig : Type 0 where
  pub inbounds : List InboundConfig
  pub outbounds : List OutboundConfig
  pub dns : Option DnsConfig
  pub routing : Option RoutingConfig

pub record GeositeRule : Type 0 where
  pub domain : String
  pub action : String
  pub outbound_tag : String

pub record GeoipRule : Type 0 where
  pub country : String
  pub action : String
  pub outbound_tag : String

pub record GeositeDnsRule : Type 0 where
  pub domain : String
  pub dns : String

-- A port that is not positive counts as 0.
pub record ParseOptions : Type 0 where
  pub geosite_path : String
  pub geosite_file : String
  pub dns_config : Option DnsConfig
  pub geosite_domain : String
  pub geosite_dns : String
  pub http_port : ℕ
  pub socks_port : ℕ
  pub routing_mode : String
  pub uri : String
  pub geosite_rules : List GeositeRule
  pub geoip_rules : List GeoipRule
