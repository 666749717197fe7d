-- ===== src/Parser/Stream.antt =====
-- v2root/parser.go: the stream settings that the query of a share link gives, in parseVless and
-- parseTrojan, which are alike but for the HTTP header's path.
use Prim.Native.String.{String}
use text.Mathlib.Text.{◌==◌}
use v2root_core.Base.{ℕ, Bool, ◌||◌, Option, none, some, List, [], ◌∷◌, if◌then◌else◌}
use v2root_core.Parser.Text.{split}
use v2root_core.Parser.Values.{Values, get}
use v2root_core.Parser.Types.{
  StreamSettings, TlsSettings, RealitySettings, TcpSettings, HeaderConfig,
}

-- The cases of `switch network`.
pub data Network : Type 0 where
  tcp_network ws_network http_network quic_network kcp_network grpc_network other_network : Network

unfoldable pub network_case : String → Network
network_case network =
    if network == "tcp"
    then tcp_network
    else if network == "ws"
    then ws_network
    else if network == "http"
    then http_network
    else if network == "quic"
    then quic_network
    else if network == "kcp"
    then kcp_network
    else if network == "grpc"
    then grpc_network
    else other_network

-- `if v == "" { v = default }`
abbrev pub or_default : String → String → String
or_default default v = if v == "" then default else v

abbrev pub comma : ℕ
comma = 44

-- A list with commas, empty if the text is.
abbrev pub list_of : String → List String
list_of v = if v == "" then [] else split comma v

abbrev pub some_text : String → Option String
some_text v = if v == "" then none else some v

-- The HTTP header of parseVless; parseTrojan splits an empty path too.
unfoldable pub vless_tcp : Values → TcpSettings
vless_tcp q = record {
  header = some (record {
    type = "http";
    request = some (record {
      path = list_of (get q "path");
      hosts = if get q "host" == "" then none else some (get q "host" ∷ []);
    });
  });
}

unfoldable pub trojan_tcp : Values → TcpSettings
trojan_tcp q = record {
  header = some (record {
    type = "http";
    request = some (record {
      path = split comma (get q "path");
      hosts = if get q "host" == "" then none else some (get q "host" ∷ []);
    });
  });
}

abbrev pub header_of : String → Option HeaderConfig
header_of type = some (record { type = type; request = none })

-- The switch: each case sets a field of its own.
unfoldable pub transport :
    (Values → TcpSettings) → Network → Values → StreamSettings → StreamSettings
transport tcp tcp_network q st =
    if get q "headerType" == "http" then record st { tcp = some (tcp q) } else st
transport tcp ws_network q st = record st {
  ws = some (record { path = get q "path"; host = some_text (get q "host") });
}
transport tcp http_network q st = record st {
  http = some (record { path = get q "path"; host = list_of (get q "host") });
}
transport tcp quic_network q st = record st {
  quic = some (record {
    security = get q "quicSecurity";
    key = get q "key";
    header = header_of (get q "headerType");
  });
}
transport tcp kcp_network q st = record st {
  kcp = some (record { seed = get q "seed"; header = header_of (get q "headerType") });
}
transport tcp grpc_network q st = record st {
  grpc = some (record { service_name = get q "serviceName"; multi_mode = get q "mode" == "multi" });
}
transport tcp other_network q st = st

unfoldable pub tls_of : Values → TlsSettings
tls_of q = record {
  sni = get q "sni";
  alpn = list_of (get q "alpn");
  fingerprint = get q "fp";
  allow_insecure = get q "allowInsecure" == "1";
}

-- The server name is that of the TLS settings.
unfoldable pub reality_of : Values → RealitySettings
reality_of q = record {
  sni = get q "sni";
  fingerprint = get q "fp";
  public_key = get q "pbk";
  short_id = get q "sid";
  spider_x = get q "spx";
}

abbrev pub uses_tls : String → Bool
uses_tls security = security == "tls" || security == "reality"

-- The settings before the switch, with those of TLS and REALITY, which the code sets after it.
unfoldable pub base : Values → String → String → StreamSettings
unfolding tls_of reality_of
base q network security = record {
  network = network;
  security = security;
  tls = if uses_tls security then some (tls_of q) else none;
  reality = if security == "reality" then some (reality_of q) else none;
  tcp = none;
  ws = none;
  http = none;
  quic = none;
  kcp = none;
  grpc = none;
}

-- `none`: REALITY without the parameter "pbk".
unfoldable pub stream : (Values → TcpSettings) → String → Values → Option StreamSettings
unfolding transport base network_case
stream tcp default_security q =
    let security = or_default default_security (get q "security") in
    let network = or_default "tcp" (get q "type") in
    if security == "reality"
    then (if get q "pbk" == ""
        then none
        else some (transport tcp (network_case network) q (base q network security)))
    else some (transport tcp (network_case network) q (base q network security))
