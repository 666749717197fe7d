-- ===== src/Parser/Dns.antt =====
-- v2root/parser.go: defaultDNSConfigWithCustom. `exists` is `os.Stat` without an error.
pub mod Laws
use Prim.Native.String.{String}
use text.Mathlib.Text.{◌==◌}
use v2root_core.Base.{Bool, ◌&&◌, not, Option, none, some, List, [], ◌∷◌, if◌then◌else◌}
use v2root_core.Parser.Text.{concat}
use v2root_core.Parser.Types.{DnsServer, domain_server, DnsConfig, GeositeDnsRule}

-- The configuration without its hosts.
pub without_hosts : DnsConfig → DnsConfig
without_hosts custom = record custom { hosts = none }

module _ (exists : String → Bool) where
  -- The server for the geosite's domain goes in front.
  pub with_geosite : String → GeositeDnsRule → List DnsServer → List DnsServer
  with_geosite geosite_path rule servers =
      if not (geosite_path == "")
        && (not (rule.domain == "") && (not (rule.dns == "") && exists geosite_path))
      then domain_server rule.dns (concat ("geosite:" ∷ rule.domain ∷ []) ∷ []) ∷ servers
      else servers

  unfoldable pub default_dns_config_with_custom :
      String → Option DnsConfig → Option GeositeDnsRule → Option DnsConfig
  unfolding with_geosite without_hosts
  default_dns_config_with_custom geosite_path none none = none
  default_dns_config_with_custom geosite_path (some custom) none = some (without_hosts custom)
  default_dns_config_with_custom geosite_path none (some rule) = some (record {
    servers = with_geosite geosite_path rule [];
    hosts = none;
    client_ip = "";
    tag = "";
    strategy = "";
  })
  default_dns_config_with_custom geosite_path (some custom) (some rule) = some (record {
    servers = with_geosite geosite_path rule custom.servers;
    hosts = none;
    client_ip = custom.client_ip;
    tag = custom.tag;
    strategy = custom.strategy;
  })
