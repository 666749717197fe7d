-- ===== src/Parser/Query.antt =====
-- v2root/parser.go: the query that buildVlessURI and buildTrojanURI write for the stream settings.
pub mod Gets
pub mod Lists
pub mod Parts
pub mod Agree
pub mod Restore
pub mod Secure
pub mod RoundTrip
pub mod TrojanRoundTrip
use Prim.Native.String.{String}
use text.Mathlib.Text.{◌==◌}
use v2root_core.Base.{
  Bool, true, false, ◌&&◌, not, Option, none, some, List, [], ◌∷◌, if◌then◌else◌,
}
use v2root_core.Parser.Text.{join}
use v2root_core.Parser.Values.{Values, set, set_if, set_some}
use v2root_core.Parser.Types.{
  StreamSettings, TlsSettings, RealitySettings, TcpSettings, HeaderConfig, RequestConfig,
  WsSettings, HttpSettings, QuicSettings, KcpSettings, GrpcSettings,
}
use v2root_core.Parser.Stream.{
  Network, tcp_network, ws_network, http_network, quic_network, kcp_network, grpc_network,
  other_network, network_case,
}

-- `if len(list) > 0 { query.Set(k, strings.Join(list, ",")) }`
unfoldable pub set_list : Values → String → List String → Values
set_list q k [] = q
set_list q k (p ∷ ps) = set q k (join "," (p ∷ ps))

unfoldable pub hosts_query : Values → Option (List String) → Values
hosts_query q none = q
hosts_query q (some []) = q
hosts_query q (some (h ∷ hs)) = set q "host" h

unfoldable pub request_query : Values → Option RequestConfig → Values
request_query q none = q
request_query q (some r) = hosts_query (set_list q "path" r.path) r.hosts

unfoldable pub tcp_query : Values → Option TcpSettings → Values
tcp_query q none = q
tcp_query q (some t) = elim t.header [
  | none ↦ q
  | some h ↦ request_query (set q "headerType" h.type) h.request
]

-- `host, ok := Headers["Host"]; ok && host != ""`
unfoldable pub ws_query : Values → Option WsSettings → Values
ws_query q none = q
ws_query q (some w) =
    let q1 = set_some q "path" w.path in elim w.host [ none ↦ q1 | some h ↦ set_some q1 "host" h ]

unfoldable pub http_query : Values → Option HttpSettings → Values
http_query q none = q
http_query q (some h) = set_list (set_some q "path" h.path) "host" h.host

unfoldable pub quic_query : Values → Option QuicSettings → Values
quic_query q none = q
quic_query q (some s) = set_some (set_some q "quicSecurity" s.security) "key" s.key

unfoldable pub kcp_query : Values → Option KcpSettings → Values
kcp_query q none = q
kcp_query q (some s) =
    let q1 = set_some q "seed" s.seed in
    elim s.header [ none ↦ q1 | some h ↦ set_some q1 "headerType" h.type ]

unfoldable pub grpc_query : Values → Option GrpcSettings → Values
grpc_query q none = q
grpc_query q (some s) = set_if s.multi_mode (set_some q "serviceName" s.service_name) "mode" "multi"

unfoldable pub tls_query : Values → Option TlsSettings → Values
tls_query q none = q
tls_query q (some t) = set_some (set_list (set_some q "sni" t.sni) "alpn" t.alpn) "fp" t.fingerprint

unfoldable pub reality_query : Values → Option RealitySettings → Values
reality_query q none = q
reality_query q (some r) =
    set_some
      (set_some (set_some (set_some (set_some q "sni" r.sni) "fp" r.fingerprint) "pbk" r.public_key)
        "sid" r.short_id)
      "spx" r.spider_x

-- Only where the security is "reality".
unfoldable pub reality_if : Values → StreamSettings → Values
unfolding reality_query
reality_if q st = if st.security == "reality" then reality_query q st.reality else q

-- `v != "" && v != default`
abbrev pub differs : String → String → Bool
differs default v = not (v == "") && not (v == default)

-- The stream settings in the order of buildVlessURI.
unfoldable pub vless_stream_query : Values → StreamSettings → Values
unfolding tcp_query ws_query http_query quic_query kcp_query grpc_query tls_query reality_if
vless_stream_query q0 st =
    let q1 = set_if (differs "tcp" st.network) q0 "type" st.network in
    let q2 = set_if (differs "none" st.security) q1 "security" st.security in
    let q3 = http_query (ws_query (tcp_query q2 st.tcp) st.ws) st.http in
    let q4 = grpc_query (kcp_query (quic_query q3 st.quic) st.kcp) st.grpc in
    reality_if (tls_query q4 st.tls) st

-- The switch of buildTrojanURI.
unfoldable pub trojan_transport : Network → Values → StreamSettings → Values
trojan_transport ws_network q st = ws_query q st.ws
trojan_transport http_network q st = http_query q st.http
trojan_transport quic_network q st = quic_query q st.quic
trojan_transport kcp_network q st = kcp_query q st.kcp
trojan_transport grpc_network q st = grpc_query q st.grpc
trojan_transport tcp_network q st = q
trojan_transport other_network q st = q

-- The stream settings in the order of buildTrojanURI.
unfoldable pub trojan_stream_query : Values → StreamSettings → Values
unfolding tcp_query tls_query reality_if trojan_transport
trojan_stream_query q0 st =
    let q1 = set_if (differs "tcp" st.network) q0 "type" st.network in
    let q2 = set_some q1 "security" st.security in
    let q3 = reality_if (tls_query q2 st.tls) st in
    trojan_transport (network_case st.network) (tcp_query q3 st.tcp) st
