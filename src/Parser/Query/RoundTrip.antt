-- ===== src/Parser/Query/RoundTrip.antt =====
-- Stream settings that were written to a query and are read from it again.
use Prim.Native.String.{String}
use v2root_core.Base.{◌≡◌, refl, sym, ap, ◌∙◌, true, some, [], ◌∷◌, if◌then◌else◌, arith}
use v2root_core.Parser.Values.{Values, get, set_if}
use v2root_core.Parser.Values.Laws.{get-set_if}
use v2root_core.Parser.Types.{StreamSettings}
use v2root_core.Parser.Stream.{network_case, list_of, vless_tcp, base, stream, or_default}
use v2root_core.Parser.Query.{
  trojan_transport, tcp_query, ws_query, http_query, quic_query, kcp_query, grpc_query, tls_query,
  reality_if, vless_stream_query, differs,
}
use v2root_core.Parser.Query.Gets.{
  absent, tcp-other, ws-other, http-other, quic-other, kcp-other, grpc-other,
}
use v2root_core.Parser.Query.Restore.{transport-restored}
use v2root_core.Parser.Query.Lists.{http_tcp, other_keys, text_of-list_of}
use v2root_core.Parser.Query.Secure.{open_keys, base-restored, pbk-restored}
use v2root_core.Parser.Query.Agree.{
  built, transport-keeps, one_transport, transport_keys, secure-other, secure-eq, Fresh, Exportable,
  quic_case, stream-agree, stream-built, or_default-some, default-restored, base-security,
}

-- The parts for the transports, as buildVlessURI writes them.
abbrev parts : Values → StreamSettings → Values
parts p st =
    grpc_query
      (kcp_query (quic_query (http_query (ws_query (tcp_query p st.tcp) st.ws) st.http) st.quic)
        st.kcp)
      st.grpc

parts-other :
    (p : Values) (st : StreamSettings) (j : String)
    → absent j transport_keys ≡ true
    → get (parts p st) j ≡ get p j
parts-other p st j a =
    let p1 : Values = tcp_query p st.tcp in
    let p2 : Values = ws_query p1 st.ws in
    let p3 : Values = http_query p2 st.http in
    let p4 : Values = quic_query p3 st.quic in
    let p5 : Values = kcp_query p4 st.kcp in
    grpc-other p5 j st.grpc (ground (arith, a))
    ∙ kcp-other p4 j st.kcp (ground (arith, a))
    ∙ quic-other p3 j st.quic (ground (arith, a))
    ∙ http-other p2 j st.http (ground (arith, a))
    ∙ ws-other p1 j st.ws (ground (arith, a))
    ∙ tcp-other p j st.tcp (ground (arith, a))

-- The type and the security in front of the parts, as buildVlessURI writes them.
abbrev vless_start : Values → String → String → Values
vless_start q0 network security =
    set_if (differs "none" security) (set_if (differs "tcp" network) q0 "type" network) "security"
      security

vless_stages :
    (q0 : Values) (st b : StreamSettings) (n s : String)
    → st.network ≡ n
    → st.security ≡ s
    → b.security ≡ s
    → st.tls ≡ b.tls
    → st.reality ≡ b.reality
    → vless_stream_query q0 st ≡ reality_if (tls_query (parts (vless_start q0 n s) st) b.tls) b
unfolding vless_stream_query
vless_stages q0 st b n s e f g t r =
    ap (λ z. reality_if (tls_query (parts z st) st.tls) st) (rw (e, f) refl)
    ∙ secure-eq (parts (vless_start q0 n s) st) st b (f ∙ sym g) t r

vless_start-blank :
    (q0 : Values)
    → Fresh q0
    → (n s j : String) → absent j ("encryption" ∷ "flow" ∷ "type" ∷ "security" ∷ []) ≡ true
    → get (vless_start q0 n s) j ≡ ""
vless_start-blank q0 fresh n s j a = ground (
  arith,
  a,
  get-set_if (differs "none" s) (set_if (differs "tcp" n) q0 "type" n) "security" s j,
  get-set_if (differs "tcp" n) q0 "type" n j,
  fresh j (ground (arith, a)),
)

start-type :
    (q0 : Values)
    → Fresh q0
    → (n s : String) → get (vless_start q0 n s) "type" ≡ (if differs "tcp" n then n else "")
start-type q0 fresh n s =
    get-set_if (differs "none" s) (set_if (differs "tcp" n) q0 "type" n) "security" s "type"
    ∙ get-set_if (differs "tcp" n) q0 "type" n "type"
    ∙ rw (fresh "type" refl) refl

start-security :
    (q0 : Values)
    → Fresh q0
    → (n s : String) → get (vless_start q0 n s) "security" ≡ (if differs "none" s then s else "")
start-security q0 fresh n s =
    get-set_if (differs "none" s) (set_if (differs "tcp" n) q0 "type" n) "security" s "security"
    ∙ rw (get-set_if (differs "tcp" n) q0 "type" n "security", fresh "security" refl) refl

module _ (q q0 q' : Values) (fresh : Fresh q0) (ok : Exportable q) where
  abbrev network : String
  network = or_default "tcp" (get q "type")

  abbrev security : String
  security = or_default "none" (get q "security")

  abbrev vless_built : StreamSettings
  vless_built = built (http_tcp list_of) q network security (network_case network)

  abbrev vless_parts : Values
  vless_parts = parts (vless_start q0 network security) vless_built

  -- The query, with the fields that no transport changes.
  vless_written :
      vless_stream_query q0 vless_built
      ≡ reality_if (tls_query vless_parts (base q network security).tls) (base q network security)
  vless_written =
      let (n, (s, (t, r))) =
        transport-keeps (http_tcp list_of) q network security (network_case network) in
      vless_stages q0 vless_built (base q network security) network security n s
        (base-security q network security) t r

  vless_parts-blank : (j : String) → absent j open_keys ≡ true → get vless_parts j ≡ ""
  vless_parts-blank j a =
      parts-other (vless_start q0 network security) vless_built j (ground (arith, a))
      ∙ vless_start-blank q0 fresh network security j (ground (arith, a))

  module _ (same : (j : String) → get q' j ≡ get (vless_stream_query q0 vless_built) j) where
    reads :
        (j : String)
        → get q' j
          ≡ get
              (reality_if
                (tls_query vless_parts (base q network security).tls)
                (base q network security))
              j
    reads j = same j ∙ ap (λ z. get z j) vless_written

    reads-parts :
        (j : String)
        → absent j ("sni" ∷ "alpn" ∷ "fp" ∷ "pbk" ∷ "sid" ∷ "spx" ∷ []) ≡ true
        → get q' j ≡ get vless_parts j
    reads-parts j a =
        reads j ∙ secure-other vless_parts (base q network security) (base q network security) j a

    reads-transport :
        (j : String)
        → absent j other_keys ≡ true
        → get q' j
          ≡ get
              (trojan_transport
                (network_case network)
                (tcp_query (vless_start q0 network security) vless_built.tcp)
                vless_built)
              j
    reads-transport j a =
        reads-parts j (ground (arith, a))
        ∙ ap (λ z. get z j)
            (one_transport (http_tcp list_of) q network security (network_case network)
              (vless_start q0 network security))

    reads-start :
        (j : String)
        → absent j ("sni" ∷ "alpn" ∷ "fp" ∷ "pbk" ∷ "sid" ∷ "spx" ∷ []) ≡ true
        → absent j transport_keys ≡ true
        → get q' j ≡ get (vless_start q0 network security) j
    reads-start j a b =
        reads-parts j a ∙ parts-other (vless_start q0 network security) vless_built j b

    type-restored : or_default "tcp" (get q' "type") ≡ network
    type-restored =
        default-restored "tcp" network (get q' "type") (or_default-some "tcp" (get q "type") refl)
          (reads-start "type" refl refl ∙ start-type q0 fresh network security)

    security-restored : or_default "none" (get q' "security") ≡ security
    security-restored =
        default-restored "none" security (get q' "security")
          (or_default-some "none" (get q "security") refl)
          (reads-start "security" refl refl ∙ start-security q0 fresh network security)

    vless_restored : stream (http_tcp list_of) "none" q' ≡ stream (http_tcp list_of) "none" q
    vless_restored =
        stream-agree (http_tcp list_of) "none" q q' type-restored security-restored
          (λ h. pbk-restored q vless_parts vless_parts-blank q' network security h (λ j a. reads j))
          (transport-restored q (vless_start q0 network security)
            (λ j a. vless_start-blank q0 fresh network security j (ground (arith, a))) q' network
            security list_of (text_of-list_of (get q "path")) (network_case network)
            (λ e. ok.1 (quic_case network e)) (base q network security) reads-transport)
          (base-restored q vless_parts vless_parts-blank q' network security ok.0 (λ j a. reads j))

-- Settings that a VLESS link gave are read again from the query that they are written to.
pub stream-vless_stream_query :
    (q q0 q' : Values) (st : StreamSettings)
    → Fresh q0
    → Exportable q
    → stream vless_tcp "none" q ≡ some st
    → ((j : String) → get q' j ≡ get (vless_stream_query q0 st) j)
    → stream vless_tcp "none" q' ≡ some st
unfolding vless_tcp
stream-vless_stream_query q q0 q' st fresh ok e same =
    vless_restored q q0 q' fresh ok (λ j.
      same j
      ∙ ap (λ z. get (vless_stream_query q0 z) j)
          (sym (stream-built (http_tcp list_of) "none" q q' st e)))
    ∙ e

-- A key of none of the parts keeps its value.
pub vless_stream_query-other :
    (q0 : Values) (st : StreamSettings) (j : String)
    → absent j ("type" ∷ "security" ∷ []) ≡ true
    → absent j transport_keys ≡ true
    → absent j ("sni" ∷ "alpn" ∷ "fp" ∷ "pbk" ∷ "sid" ∷ "spx" ∷ []) ≡ true
    → get (vless_stream_query q0 st) j ≡ get q0 j
unfolding vless_stream_query
vless_stream_query-other q0 st j a b c =
    secure-other (parts (vless_start q0 st.network st.security) st) st st j c
    ∙ parts-other (vless_start q0 st.network st.security) st j b
    ∙ ground (
      arith,
      a,
      get-set_if (differs "none" st.security)
          (set_if (differs "tcp" st.network) q0 "type" st.network) "security" st.security j,
      get-set_if (differs "tcp" st.network) q0 "type" st.network j,
    )
