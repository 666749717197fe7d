-- ===== src/Parser/Links/Vmess.antt =====
-- v2root/parser.go: parseVmess.
use Prim.Native.String.{String}
use text.Mathlib.Text.{◌==◌}
use v2root_core.Base.{ℕ, false, Option, none, some, [], ◌∷◌, if◌then◌else◌}
use v2root_core.Base.Outcome.{Outcome, done, invalid, ◌>>=◌}
use v2root_core.Parser.Text.{parse_uint16, has_prefix, trim_prefix, split}
use v2root_core.Parser.Types.{
  Settings, vmess_settings, TlsSettings, TcpSettings, HeaderConfig, StreamSettings, OutputConfig,
}
use v2root_core.Parser.Stream.{
  Network, tcp_network, ws_network, http_network, quic_network, kcp_network, grpc_network,
  other_network, network_case, comma, list_of, or_default,
}
use v2root_core.Parser.Net.{Net, text_value, other_value, Data}
use v2root_core.Parser.Links.{
  ParseArgs, required, create_default_inbounds, proxy_outbound, with_plain, config,
}

-- `data[key].(string)`
pub text_at : Data → String → Option String
text_at [] key = none
text_at ((k, text_value s) ∷ data') key = if k == key then some s else text_at data' key
text_at ((k, other_value s) ∷ data') key = if k == key then none else text_at data' key

-- `v, _ := data[key].(string)`
pub text_or_empty : Data → String → String
unfolding text_at
text_or_empty d key = elim (text_at d key) [ none ↦ "" | some s ↦ s ]

-- `fmt.Sprintf("%v", data[key])`
pub printed_at : Data → String → String
printed_at [] key = "<nil>"
printed_at ((k, text_value s) ∷ data') key = if k == key then s else printed_at data' key
printed_at ((k, other_value s) ∷ data') key = if k == key then s else printed_at data' key

-- Missing or wrong, the alterId counts as 0.
pub alter_id_of : Data → ℕ
unfolding printed_at parse_uint16
alter_id_of d = elim (parse_uint16 (printed_at d "aid")) [ none ↦ 0 | some aid ↦ aid ]

unfoldable pub vmess_server : Data → Outcome Settings
unfolding alter_id_of text_at printed_at parse_uint16
vmess_server d = do
  address ← required (text_at d "add")
  port ← required (parse_uint16 (printed_at d "port"))
  id ← required (text_at d "id")
  done (
      vmess_settings (
        record {
          address = address;
          port = port;
          users =
              record {
                id = id;
                alter_id = alter_id_of d;
                security = elim (text_at d "scy") [ none ↦ "auto" | some scy ↦ scy ];
              }
              ∷ [];
        }
        ∷ []))

pub vmess_tcp : Data → TcpSettings
unfolding text_at
vmess_tcp d = record {
  header = some (record {
    type = "http";
    request = some (record {
      path = elim (text_at d "path") [ none ↦ [] | some path ↦ split comma path ];
      hosts = elim (text_at d "host") [ none ↦ none | some host ↦ some (host ∷ []) ];
    });
  });
}

-- A header for a type that is not empty.
abbrev pub vmess_header : String → Option HeaderConfig
vmess_header h_type = if h_type == "" then none else some (record { type = h_type; request = none })

pub vmess_tls : Data → TlsSettings
unfolding text_or_empty
vmess_tls d = record {
  sni = text_or_empty d "sni";
  alpn = list_of (text_or_empty d "alpn");
  fingerprint = text_or_empty d "fp";
  allow_insecure = false;
}

-- The switch on the network.
pub vmess_transport : Network → Data → StreamSettings → StreamSettings
unfolding vmess_tcp text_at text_or_empty
vmess_transport tcp_network d st =
    if text_or_empty d "type" == "http" then record st { tcp = some (vmess_tcp d) } else st
vmess_transport ws_network d st = record st {
  ws = some (record { path = text_or_empty d "path"; host = text_at d "host" });
}
vmess_transport http_network d st = record st {
  http = some (record {
    path = text_or_empty d "path";
    host = elim (text_at d "host") [ none ↦ [] | some host ↦ split comma host ];
  });
}
vmess_transport quic_network d st = record st {
  quic = some (record {
    security = text_or_empty d "host";
    key = text_or_empty d "path";
    header = vmess_header (text_or_empty d "type");
  });
}
vmess_transport kcp_network d st = record st {
  kcp =
      some
        (record { seed = text_or_empty d "path"; header = vmess_header (text_or_empty d "type") });
}
vmess_transport grpc_network d st = record st {
  grpc = some (record {
    service_name = text_or_empty d "path";
    multi_mode = text_or_empty d "type" == "multi";
  });
}
vmess_transport other_network d st = st

-- The security is "tls" or empty.
pub vmess_base : Data → String → StreamSettings
unfolding vmess_tls text_or_empty
vmess_base d net = record {
  network = net;
  security = if text_or_empty d "tls" == "tls" then "tls" else "";
  tls = if text_or_empty d "tls" == "tls" then some (vmess_tls d) else none;
  reality = none;
  tcp = none;
  ws = none;
  http = none;
  quic = none;
  kcp = none;
  grpc = none;
}

pub vmess_stream : Data → StreamSettings
unfolding vmess_transport vmess_base text_or_empty network_case
vmess_stream d =
    let net = or_default "tcp" (text_or_empty d "net") in
    vmess_transport (network_case net) d (vmess_base d net)

unfoldable pub vmess_config : Net → ParseArgs → Data → Outcome OutputConfig
unfolding vmess_server vmess_stream text_or_empty proxy_outbound with_plain config
    create_default_inbounds
vmess_config net a d = do
  settings ← vmess_server d
  done (
      config net a (create_default_inbounds a.http_port a.socks_port)
        (with_plain (proxy_outbound "vmess" (text_or_empty d "ps") settings (vmess_stream d))))

unfoldable pub parse_vmess : Net → ParseArgs → String → Outcome OutputConfig
unfolding vmess_config trim_prefix
parse_vmess net a raw_url =
    if has_prefix raw_url "vmess://"
    then (required (net.std_decode (trim_prefix raw_url "vmess://")) >>= λ json_data.
        required (net.read_json json_data) >>= λ d. vmess_config net a d)
    else invalid
