-- ===== src/Parser/Samples.antt =====
-- The links, options and configurations of the tests, and a small net/url that reads those links.
use Prim.Native.String.{String}
use text.Mathlib.Text.{◌==◌}
use v2root_core.Base.{true, false, Option, none, some, List, [], ◌∷◌, if◌then◌else◌}
use v2root_core.Parser.Text.{concat}
use v2root_core.Parser.Values.{Values}
use v2root_core.Parser.Types.{
  StreamSettings, OutputConfig, OutboundConfig, DnsConfig, ParseOptions, RoutingRule, GeositeRule,
  GeositeDnsRule, other_server, SniffingSettings, InboundConfig, no_settings, vless_settings,
  trojan_settings, shadowsocks_settings,
}
use v2root_core.Parser.Net.{Net, Url}
use v2root_core.Parser.Links.{ParseArgs}

-- "k=v" for each key, with "&" between them.
abbrev pub pairs : Values → String
pairs [] = ""
pairs ((k, v) ∷ []) = concat (k ∷ "=" ∷ v ∷ [])
pairs ((k, v) ∷ kv ∷ q) = concat (k ∷ "=" ∷ v ∷ "&" ∷ pairs (kv ∷ q) ∷ [])

abbrev pub url : String → String → Values → Url
url name port q = record {
  username = some name;
  userinfo = name;
  hostname = "h.org";
  port = port;
  query = q;
  fragment = "me";
}

abbrev pub ws_url : Url
ws_url =
    url "id" "0443" (("security", "tls") ∷ ("type", "ws") ∷ ("path", "/p") ∷ ("alpn", "h2,h3") ∷ [])

abbrev pub nobody : Url
nobody = record {
  username = none;
  userinfo = "";
  hostname = "";
  port = "";
  query = [];
  fragment = "";
}

abbrev pub nobody_at : Url
nobody_at = record {
  username = none;
  userinfo = "";
  hostname = "h.org";
  port = "443";
  query = [];
  fragment = "";
}

-- What is read of the links of the tests.
abbrev pub read_url : List (String × Url) → String → Option Url
read_url [] s = none
read_url ((t, u) ∷ m) s = if t == s then some u else read_url m s

abbrev pub toy_net : List (String × Url) → Net
toy_net m = record {
  parse_url = read_url m;
  path_unescape = some;
  path_escape = λ s. s;
  query_escape = λ s. s;
  encode_query = pairs;
  std_decode = λ s. none;
  std_encode = λ s. s;
  raw_url_decode = λ s. some s;
  url_encode = λ s. s;
  read_json = λ s. none;
  write_json = λ d. "";
  exists = λ s. s == "/geo/site.dat";
}

abbrev pub toy_args : ParseArgs
toy_args = record {
  http_port = 1;
  socks_port = 2;
  geosite_path = "";
  custom_dns = none;
  geosite_dns_rule = none;
  geosite_rules = [];
  geoip_rules = [];
  routing_mode = "proxy";
}

abbrev pub toy_opts : String → ParseOptions
toy_opts uri = record {
  geosite_path = "";
  geosite_file = "";
  dns_config = none;
  geosite_domain = "";
  geosite_dns = "";
  http_port = 1;
  socks_port = 65538;
  routing_mode = "";
  uri = uri;
  geosite_rules = [];
  geoip_rules = [];
}

abbrev pub vless_st : StreamSettings
vless_st = record {
  network = "ws";
  security = "tls";
  tls =
      some (record { sni = ""; alpn = "h2" ∷ "h3" ∷ []; fingerprint = ""; allow_insecure = false });
  reality = none;
  tcp = none;
  ws = some (record { path = "/p"; host = none });
  http = none;
  quic = none;
  kcp = none;
  grpc = none;
}

-- The links of `ws_url`, and the configuration of the first.
abbrev pub vless_text : String
vless_text = "vless://id@h.org:443?type=ws&security=tls&path=/p&alpn=h2,h3#me"

abbrev pub vless_again : Url
vless_again =
    url "id" "443" (("type", "ws") ∷ ("security", "tls") ∷ ("path", "/p") ∷ ("alpn", "h2,h3") ∷ [])

abbrev pub vless_net : Net
vless_net = toy_net (("vless://x", ws_url) ∷ (vless_text, vless_again) ∷ [])

abbrev pub toy_outbounds : OutboundConfig → List OutboundConfig
toy_outbounds main =
    main
    ∷ record {
      protocol = "freedom";
      settings = no_settings;
      stream_settings = none;
      remark = "";
      tag = "Direct";
    }
    ∷ record {
      protocol = "blackhole";
      settings = no_settings;
      stream_settings = none;
      remark = "";
      tag = "Reject";
    }
    ∷ []

abbrev pub toy_inbounds : Option SniffingSettings → List InboundConfig
toy_inbounds sniffing =
    record { port = 1; protocol = "http"; udp = none; sniffing = sniffing }
    ∷ record { port = 2; protocol = "socks"; udp = some true; sniffing = sniffing }
    ∷ []

abbrev pub toy_config : Option SniffingSettings → OutboundConfig → OutputConfig
toy_config sniffing main = record {
  inbounds = toy_inbounds sniffing;
  outbounds = toy_outbounds main;
  dns = none;
  routing = some (record {
    domain_strategy = "AsIs";
    rules =
        record { type = "field"; domain = []; ip = []; port = "0-65535"; outbound_tag = "Proxy" }
        ∷ [];
  });
}

abbrev pub toy_sniffing : Option SniffingSettings
toy_sniffing = some (record { enabled = true; dest_override = "http" ∷ "tls" ∷ "quic" ∷ [] })

abbrev pub vless_main : OutboundConfig
vless_main = record {
  protocol = "vless";
  settings = vless_settings (
      record {
        address = "h.org";
        port = 443;
        users = record { id = "id"; encryption = "none"; flow = "" } ∷ [];
      }
      ∷ []);
  stream_settings = some vless_st;
  remark = "me";
  tag = "Proxy";
}

abbrev pub trojan_st : StreamSettings
trojan_st = record {
  network = "tcp";
  security = "reality";
  tls = some (record { sni = "s.org"; alpn = []; fingerprint = ""; allow_insecure = false });
  reality =
      some (record {
        sni = "s.org";
        fingerprint = "";
        public_key = "K";
        short_id = "";
        spider_x = "";
      });
  tcp = some (record {
    header = some (record {
      type = "http";
      request = some (record { path = "/a" ∷ "/b" ∷ []; hosts = some ("c.org" ∷ []) });
    });
  });
  ws = none;
  http = none;
  quic = none;
  kcp = none;
  grpc = none;
}

abbrev pub trojan_keys : Values
trojan_keys =
    ("security", "reality")
    ∷ ("sni", "s.org")
    ∷ ("pbk", "K")
    ∷ ("headerType", "http")
    ∷ ("path", "/a,/b")
    ∷ ("host", "c.org")
    ∷ []

abbrev pub trojan_text : String
trojan_text =
    "trojan://pw@h.org:443?security=reality&sni=s.org&pbk=K&headerType=http&path=/a,/b&host=c.org#me"

abbrev pub trojan_net : Net
trojan_net = toy_net (
    ("trojan://x", url "pw" "443" (("type", "tcp") ∷ trojan_keys))
    ∷ (trojan_text, url "pw" "443" trojan_keys)
    ∷ [])

abbrev pub trojan_main : OutboundConfig
trojan_main = record {
  protocol = "trojan";
  settings =
      trojan_settings (record { address = "h.org"; port = 443; password = "pw"; flow = "" } ∷ []);
  stream_settings = some trojan_st;
  remark = "me";
  tag = "Proxy";
}

abbrev pub ss_text : String
ss_text = "ss://aes:pw@h.org:443#me"

abbrev pub ss_net : Net
ss_net = toy_net (("ss://x", url "aes:pw" "" []) ∷ (ss_text, url "aes:pw" "443" []) ∷ [])

abbrev pub ss_main : OutboundConfig
ss_main = record {
  protocol = "shadowsocks";
  settings =
      shadowsocks_settings
        (record { address = "h.org"; port = 443; method = "aes"; password = "pw" } ∷ []);
  stream_settings = some (record {
    network = "tcp";
    security = "";
    tls = none;
    reality = none;
    tcp = none;
    ws = none;
    http = none;
    quic = none;
    kcp = none;
    grpc = none;
  });
  remark = "me";
  tag = "Proxy";
}

abbrev pub sites : List GeositeRule
sites =
    record { domain = "ads"; action = "Block"; outbound_tag = "" }
    ∷ record { domain = "x"; action = ""; outbound_tag = "T" }
    ∷ []

abbrev pub toy_rules : List RoutingRule
toy_rules =
    record {
      type = "field";
      domain = "geosite:category-ads-all" ∷ [];
      ip = [];
      port = "";
      outbound_tag = "Reject";
    }
    ∷ record { type = "field"; domain = "geosite:x" ∷ []; ip = []; port = ""; outbound_tag = "T" }
    ∷ record { type = "field"; domain = []; ip = []; port = "0-65535"; outbound_tag = "Direct" }
    ∷ []

abbrev pub toy_dns : DnsConfig
toy_dns = record {
  servers = other_server "8.8.8.8" ∷ [];
  hosts = some (("a", "b") ∷ []);
  client_ip = "";
  tag = "t";
  strategy = "";
}

abbrev pub toy_dns_rule : GeositeDnsRule
toy_dns_rule = record { domain = "cn"; dns = "1.1.1.1" }
