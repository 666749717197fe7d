-- ===== src/Parser/Export/Vmess.antt =====
-- v2root/parser.go: buildVmessURI.
use Prim.Native.String.{String}
use text.Mathlib.Text.{◌==◌}
use v2root_core.Base.{Option, none, some, List, [], ◌∷◌, if◌then◌else◌}
use v2root_core.Parser.Text.{concat, join, print}
use v2root_core.Parser.Types.{
  VmessUser, VmessVnext, TlsSettings, TcpSettings, HeaderConfig, RequestConfig, WsSettings,
  HttpSettings, QuicSettings, KcpSettings, GrpcSettings, StreamSettings, OutboundConfig,
}
use v2root_core.Parser.Stream.{
  Network, tcp_network, ws_network, http_network, quic_network, kcp_network, grpc_network,
  other_network, network_case,
}
use v2root_core.Parser.Validate.{as_vmess}
use v2root_core.Parser.Net.{Net, Json, text_value, other_value, Data}

-- `data[key] = v`
pub put : Data → String → Json → Data
put [] k v = (k, v) ∷ []
put ((j, w) ∷ d) k v = let rest = put d k v in if j == k then (k, v) ∷ d else (j, w) ∷ rest

-- `if v != "" { data[key] = v }`
pub put_some : Data → String → String → Data
unfolding put
put_some d k v = if v == "" then d else put d k (text_value v)

pub put_list : Data → String → List String → Data
unfolding put
put_list d k [] = d
put_list d k (p ∷ ps) = put d k (text_value (join "," (p ∷ ps)))

pub put_tls : Data → Option TlsSettings → Data
unfolding put_some put_list
put_tls d none = d
put_tls d (some t) = put_some (put_list (put_some d "sni" t.sni) "alpn" t.alpn) "fp" t.fingerprint

pub put_host : Data → Option (List String) → Data
unfolding put
put_host d none = d
put_host d (some []) = d
put_host d (some (h ∷ hs)) = put d "host" (text_value h)

pub put_request : Data → Option RequestConfig → Data
unfolding put_list put_host
put_request d none = d
put_request d (some r) = put_host (put_list d "path" r.path) r.hosts

pub put_header : Data → Option HeaderConfig → Data
unfolding put_request
put_header d none = d
put_header d (some h) =
    if h.type == "http" then put_request (put d "type" (text_value "http")) h.request else d

pub put_tcp : Data → Option TcpSettings → Data
unfolding put_header
put_tcp d none = d
put_tcp d (some t) = put_header d t.header

pub put_ws : Data → Option WsSettings → Data
unfolding put put_some
put_ws d none = d
put_ws d (some w) =
    let d1 = put d "path" (text_value w.path) in
    elim w.host [ none ↦ d1 | some h ↦ put_some d1 "host" h ]

pub put_http : Data → Option HttpSettings → Data
unfolding put put_list
put_http d none = d
put_http d (some h) = put_list (put d "path" (text_value h.path)) "host" h.host

pub put_type : Data → Option HeaderConfig → Data
unfolding put
put_type d none = d
put_type d (some h) = put d "type" (text_value h.type)

pub put_quic : Data → Option QuicSettings → Data
unfolding put put_type
put_quic d none = d
put_quic d (some s) =
    put_type (put (put d "host" (text_value s.security)) "path" (text_value s.key)) s.header

pub put_kcp : Data → Option KcpSettings → Data
unfolding put put_type
put_kcp d none = d
put_kcp d (some s) = put_type (put d "path" (text_value s.seed)) s.header

pub put_grpc : Data → Option GrpcSettings → Data
unfolding put
put_grpc d none = d
put_grpc d (some s) =
    let d1 = put d "path" (text_value s.service_name) in
    if s.multi_mode then put d1 "type" (text_value "multi") else d1

-- The switch on the network.
pub put_transport : Network → Data → StreamSettings → Data
unfolding put_ws put_http put_quic put_kcp put_grpc
put_transport tcp_network d st = d
put_transport ws_network d st = put_ws d st.ws
put_transport http_network d st = put_http d st.http
put_transport quic_network d st = put_quic d st.quic
put_transport kcp_network d st = put_kcp d st.kcp
put_transport grpc_network d st = put_grpc d st.grpc
put_transport other_network d st = d

pub server_data : String → VmessVnext → VmessUser → String → Data
unfolding print
server_data remark vnext user network =
    ("v", text_value "2")
    ∷ ("ps", text_value remark)
    ∷ ("add", text_value vnext.address)
    ∷ ("port", other_value (print vnext.port))
    ∷ ("id", text_value user.id)
    ∷ ("aid", other_value (print user.alter_id))
    ∷ ("scy", text_value user.security)
    ∷ ("net", text_value network)
    ∷ ("type", text_value "none")
    ∷ []

pub vmess_data : String → VmessVnext → VmessUser → StreamSettings → Data
unfolding server_data put put_tls put_tcp put_transport network_case
vmess_data remark vnext user st =
    let d = server_data remark vnext user st.network in
    let d1 = if st.security == "tls" then put_tls (put d "tls" (text_value "tls")) st.tls else d in
    put_transport (network_case st.network) (put_tcp d1 st.tcp) st

abbrev pub vmess_uri_of :
    Net → OutboundConfig → StreamSettings → Option (List VmessVnext) → Option String
vmess_uri_of net ob st none = none
vmess_uri_of net ob st (some []) = none
vmess_uri_of net ob st (some (vnext ∷ vs)) = elim vnext.users [
  | [] ↦ none
  | user ∷ us ↦ some (
      concat
        ("vmess://" ∷ net.std_encode (net.write_json (vmess_data ob.remark vnext user st)) ∷ []))
]

unfoldable pub build_vmess_uri : Net → OutboundConfig → StreamSettings → Option String
unfolding vmess_data concat
build_vmess_uri net ob st = vmess_uri_of net ob st (as_vmess ob.settings)
