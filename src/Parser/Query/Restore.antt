-- ===== src/Parser/Query/Restore.antt =====
-- What a query that was written from stream settings gives back for each transport.
use Prim.Native.String.{String}
use text.Mathlib.Text.{◌==◌}
use v2root_core.Base.{◌≡◌, refl, ◌∙◌, true, some, List, Bool-cases, inl, inr}
use v2root_core.Parser.Values.{Values, get}
use v2root_core.Parser.Types.{StreamSettings, TcpSettings}
use v2root_core.Parser.Stream.{
  Network, tcp_network, ws_network, http_network, quic_network, kcp_network, grpc_network,
  other_network, transport, header_of, base,
}
use v2root_core.Parser.Query.{trojan_transport, tcp_query}
use v2root_core.Parser.Query.Gets.{absent, text_of, quic-other}
use v2root_core.Parser.Query.Lists.{other_keys, multi-restored, http_tcp}
use v2root_core.Parser.Query.Parts.{
  ws-path, ws-host, http-path, http-host, tcp_settings, tcp-header, tcp-path, tcp-host,
  quic-security, quic-key, kcp-seed, kcp-header, grpc-name, grpc-mode,
}

module _ (q q2 : Values) (empty : (j : String) → absent j other_keys ≡ true → get q2 j ≡ "") where
  module _ (q' : Values) (network security : String) where
    abbrev pub Written : (Values → TcpSettings) → Network → Type 0
    Written tcp k =
        let st = transport tcp k q (base q network security) in
        (j : String)
        → absent j other_keys ≡ true
        → get q' j ≡ get (trojan_transport k (tcp_query q2 st.tcp) st) j

    transport-tcp :
        (path : String → List String)
        → text_of (path (get q "path")) "" ≡ get q "path"
        → (st0 : StreamSettings) → Written (http_tcp path) tcp_network
        → transport (http_tcp path) tcp_network q' st0 ≡ transport (http_tcp path) tcp_network q st0
    unfolding transport base trojan_transport tcp_query
    transport-tcp path e st0 w = elim (Bool-cases (get q "headerType" == "http")) [
      | inl h ↦
          let w1 : (j : String)
              → absent j other_keys ≡ true
              → get q' j
                ≡ get (tcp_query q2 (some ((tcp_settings q q2 empty) (path (get q "path"))))) j =
            λ j a. w j a ∙ rw h refl in
          rw
            (
              w1 "headerType" refl ∙ (tcp-header q q2 empty) (path (get q "path")),
              w1 "path" refl ∙ (tcp-path q q2 empty) (path (get q "path")) e,
              w1 "host" refl ∙ (tcp-host q q2 empty) (path (get q "path")),
              h,
            )
            refl
      | inr h ↦
          let w1 : (j : String) → absent j other_keys ≡ true → get q' j ≡ get q2 j =
            λ j a. w j a ∙ rw h refl in
          rw (w1 "headerType" refl ∙ empty "headerType" refl, h) refl
    ]

    -- The settings are restored from what was written for them, but for the header of QUIC.
    pub transport-restored :
        (path : String → List String)
        → text_of (path (get q "path")) "" ≡ get q "path"
        → (k : Network) → ((let v : Network = quic_network in k ≡ v) → get q "headerType" ≡ "")
        → (st0 : StreamSettings) → Written (http_tcp path) k
        → transport (http_tcp path) k q' st0 ≡ transport (http_tcp path) k q st0
    unfolding transport base trojan_transport tcp_query
    transport-restored path e tcp_network c st0 w = transport-tcp path e st0 w
    transport-restored path e ws_network c st0 w =
        rw (w "path" refl ∙ (ws-path q q2 empty), w "host" refl ∙ (ws-host q q2 empty)) refl
    transport-restored path e http_network c st0 w =
        rw (w "path" refl ∙ (http-path q q2 empty), w "host" refl ∙ (http-host q q2 empty)) refl
    transport-restored path e quic_network c st0 w =
        rw
          (
            w "quicSecurity" refl ∙ (quic-security q q2 empty) (header_of (get q "headerType")),
            w "key" refl ∙ (quic-key q q2 empty) (header_of (get q "headerType")),
            w "headerType" refl
                ∙ quic-other q2 "headerType"
                    (some (record {
                      security = get q "quicSecurity";
                      key = get q "key";
                      header = header_of (get q "headerType");
                    }))
                    refl
                ∙ empty "headerType" refl,
            c refl,
          )
          refl
    transport-restored path e kcp_network c st0 w =
        rw (w "seed" refl ∙ (kcp-seed q q2 empty), w "headerType" refl ∙ (kcp-header q q2 empty))
          refl
    transport-restored path e grpc_network c st0 w =
        rw
          (
            w "serviceName" refl ∙ (grpc-name q q2 empty) (get q "mode" == "multi"),
            w "mode" refl ∙ (grpc-mode q q2 empty) (get q "mode" == "multi"),
            multi-restored (get q "mode" == "multi"),
          )
          refl
    transport-restored path e other_network c st0 w = refl
