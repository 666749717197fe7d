-- ===== src/Parser/Query/TrojanRoundTrip.antt =====
-- Stream settings that were written to the query of a Trojan link and are read from it again.
use Prim.Native.String.{String}
use text.Mathlib.Text.{◌==◌}
use v2root_core.Base.{◌≡◌, refl, sym, ap, ◌∙◌, true, false, some, [], ◌∷◌, if◌then◌else◌, arith}
use v2root_core.Parser.Values.{Values, get, set_if, set_some}
use v2root_core.Parser.Values.Laws.{get-set_some, get-set_if}
use v2root_core.Parser.Types.{StreamSettings}
use v2root_core.Parser.Stream.{
  Network, tcp_network, ws_network, http_network, quic_network, kcp_network, grpc_network,
  other_network, network_case, comma, trojan_tcp, base, stream, or_default,
}
use v2root_core.Parser.Text.{split}
use v2root_core.Parser.Query.{
  trojan_transport, tcp_query, tls_query, reality_if, trojan_stream_query, differs,
}
use v2root_core.Parser.Query.Gets.{
  absent, tcp-other, ws-other, http-other, quic-other, kcp-other, grpc-other,
}
use v2root_core.Parser.Query.Restore.{transport-restored}
use v2root_core.Parser.Query.Lists.{http_tcp, other_keys, text_of-split}
use v2root_core.Parser.Query.Secure.{open_keys, base-restored, pbk-restored}
use v2root_core.Parser.Query.Agree.{
  built, transport-keeps, transport_keys, secure-other, Fresh, Exportable, quic_case, stream-agree,
  stream-built, secure-eq, base-security, or_default-some, default-restored,
}

trojan_transport-other :
    (k : Network) (p : Values) (st : StreamSettings) (j : String)
    → absent j transport_keys ≡ true
    → get (trojan_transport k p st) j ≡ get p j
unfolding trojan_transport
trojan_transport-other tcp_network p st j a = refl
trojan_transport-other ws_network p st j a = ws-other p j st.ws (ground (arith, a))
trojan_transport-other http_network p st j a = http-other p j st.http (ground (arith, a))
trojan_transport-other quic_network p st j a = quic-other p j st.quic (ground (arith, a))
trojan_transport-other kcp_network p st j a = kcp-other p j st.kcp (ground (arith, a))
trojan_transport-other grpc_network p st j a = grpc-other p j st.grpc (ground (arith, a))
trojan_transport-other other_network p st j a = refl

open-transport : (j : String) → absent j open_keys ≡ true → absent j transport_keys ≡ true
open-transport j a = ground (arith, a)

transport-tcp :
    (j : String)
    → absent j transport_keys ≡ true
    → absent j ("headerType" ∷ "path" ∷ "host" ∷ []) ≡ true
transport-tcp j a = ground (arith, a)

open-start :
    (j : String)
    → absent j open_keys ≡ true
    → absent j ("encryption" ∷ "flow" ∷ "type" ∷ "security" ∷ []) ≡ true
open-start j a = ground (arith, a)

other-secure :
    (j : String)
    → absent j other_keys ≡ true
    → absent j ("sni" ∷ "alpn" ∷ "fp" ∷ "pbk" ∷ "sid" ∷ "spx" ∷ []) ≡ true
other-secure j a = ground (arith, a)

other-start :
    (j : String)
    → absent j other_keys ≡ true
    → absent j ("encryption" ∷ "flow" ∷ "type" ∷ "security" ∷ []) ≡ true
other-start j a = ground (arith, a)

-- The type and the security in front of the parts, as buildTrojanURI writes them.
abbrev trojan_start : Values → String → String → Values
trojan_start q0 network security =
    set_some (set_if (differs "tcp" network) q0 "type" network) "security" security

trojan_stages :
    (q0 : Values) (st b : StreamSettings) (n s : String)
    → st.network ≡ n
    → st.security ≡ s
    → b.security ≡ s
    → st.tls ≡ b.tls
    → st.reality ≡ b.reality
    → trojan_stream_query q0 st
      ≡ trojan_transport
          (network_case n)
          (tcp_query (reality_if (tls_query (trojan_start q0 n s) b.tls) b) st.tcp)
          st
unfolding trojan_stream_query
trojan_stages q0 st b n s e f g t r =
    ap
      (λ z.
        trojan_transport (network_case z)
          (tcp_query (reality_if (tls_query (trojan_start q0 z st.security) st.tls) st) st.tcp) st)
      e
    ∙ ap
        (λ z.
          trojan_transport (network_case n)
            (tcp_query (reality_if (tls_query (trojan_start q0 n z) st.tls) st) st.tcp) st)
        f
    ∙ ap (λ z. trojan_transport (network_case n) (tcp_query z st.tcp) st)
        (secure-eq (trojan_start q0 n s) st b (f ∙ sym g) t r)

module _ (q0 : Values) (fresh : Fresh q0) (n s : String) where
  start-type : get (trojan_start q0 n s) "type" ≡ (if differs "tcp" n then n else "")
  start-type =
      get-set_some (set_if (differs "tcp" n) q0 "type" n) "security" s "type"
      ∙ get-set_if (differs "tcp" n) q0 "type" n "type"
      ∙ rw (fresh "type" refl) refl

  start-security : (s == "") ≡ false → get (trojan_start q0 n s) "security" ≡ s
  start-security e =
      get-set_some (set_if (differs "tcp" n) q0 "type" n) "security" s "security" ∙ rw e refl

  start-blank :
      (j : String)
      → absent j ("encryption" ∷ "flow" ∷ "type" ∷ "security" ∷ []) ≡ true
      → get (trojan_start q0 n s) j ≡ ""
  start-blank j a = ground (
    arith,
    a,
    get-set_some (set_if (differs "tcp" n) q0 "type" n) "security" s j,
    get-set_if (differs "tcp" n) q0 "type" n j,
    fresh j (ground (arith, a)),
  )

module _ (q q0 q' : Values) (fresh : Fresh q0) (ok : Exportable q) where
  abbrev network : String
  network = or_default "tcp" (get q "type")

  abbrev security : String
  security = or_default "tls" (get q "security")

  abbrev trojan_built : StreamSettings
  trojan_built = built (http_tcp (split comma)) q network security (network_case network)

  abbrev secured : Values
  secured =
      reality_if (tls_query (trojan_start q0 network security) (base q network security).tls)
        (base q network security)

  trojan_written :
      trojan_stream_query q0 trojan_built
      ≡ trojan_transport (network_case network) (tcp_query secured trojan_built.tcp) trojan_built
  trojan_written =
      let (n, (s, (t, r))) =
        transport-keeps (http_tcp (split comma)) q network security (network_case network) in
      trojan_stages q0 trojan_built (base q network security) network security n s
        (base-security q network security) t r

  module _ (same : (j : String) → get q' j ≡ get (trojan_stream_query q0 trojan_built) j) where
    reads-transport :
        (j : String)
        → absent j other_keys ≡ true
        → get q' j
          ≡ get
              (trojan_transport
                (network_case network)
                (tcp_query secured trojan_built.tcp)
                trojan_built)
              j
    reads-transport j a = same j ∙ ap (λ z. get z j) trojan_written

    reads-secured : (j : String) → absent j transport_keys ≡ true → get q' j ≡ get secured j
    reads-secured j a =
        same j
        ∙ ap (λ z. get z j) trojan_written
        ∙ trojan_transport-other (network_case network) (tcp_query secured trojan_built.tcp)
            trojan_built j a
        ∙ tcp-other secured j trojan_built.tcp (ground (arith, a))

    reads-start :
        (j : String)
        → absent j ("sni" ∷ "alpn" ∷ "fp" ∷ "pbk" ∷ "sid" ∷ "spx" ∷ []) ≡ true
        → absent j transport_keys ≡ true
        → get q' j ≡ get (trojan_start q0 network security) j
    reads-start j a b =
        reads-secured j b
        ∙ secure-other (trojan_start q0 network security) (base q network security)
            (base q network security) j a

    type-restored : or_default "tcp" (get q' "type") ≡ network
    type-restored =
        default-restored "tcp" network (get q' "type") (or_default-some "tcp" (get q "type") refl)
          (reads-start "type" refl refl ∙ start-type q0 fresh network security)

    security-restored : or_default "tls" (get q' "security") ≡ security
    security-restored =
        ap (or_default "tls") (
          reads-start "security" refl refl
          ∙ start-security q0 fresh network security
              (or_default-some "tls" (get q "security") refl))
        ∙ rw (or_default-some "tls" (get q "security") refl) refl

    reads-open : (j : String) → absent j open_keys ≡ true → get q' j ≡ get secured j
    reads-open j a = reads-secured j (open-transport j a)

    trojan_restored :
        stream (http_tcp (split comma)) "tls" q' ≡ stream (http_tcp (split comma)) "tls" q
    trojan_restored =
        stream-agree (http_tcp (split comma)) "tls" q q' type-restored security-restored
          (λ h.
            pbk-restored q (trojan_start q0 network security) blank q' network security h
              reads-open)
          (transport-restored q secured secured-blank q' network security (split comma)
            (text_of-split (get q "path")) (network_case network) (λ e. ok.1 (quic_case network e))
            (base q network security) reads-transport)
          (base-restored q (trojan_start q0 network security) blank q' network security ok.0
            reads-open)
      where
        blank :
            (j : String) → absent j open_keys ≡ true → get (trojan_start q0 network security) j ≡ ""
        blank j a = start-blank q0 fresh network security j (open-start j a)

        secured-blank : (j : String) → absent j other_keys ≡ true → get secured j ≡ ""
        secured-blank j a =
            secure-other (trojan_start q0 network security) (base q network security)
              (base q network security) j (other-secure j a)
            ∙ start-blank q0 fresh network security j (other-start j a)

-- Settings that a Trojan link gave are read again from the query that they are written to.
pub stream-trojan_stream_query :
    (q q0 q' : Values) (st : StreamSettings)
    → Fresh q0
    → Exportable q
    → stream trojan_tcp "tls" q ≡ some st
    → ((j : String) → get q' j ≡ get (trojan_stream_query q0 st) j)
    → stream trojan_tcp "tls" q' ≡ some st
unfolding trojan_tcp
stream-trojan_stream_query q q0 q' st fresh ok e same =
    trojan_restored q q0 q' fresh ok (λ j.
      same j
      ∙ ap (λ z. get (trojan_stream_query q0 z) j)
          (sym (stream-built (http_tcp (split comma)) "tls" q q' st e)))
    ∙ e

-- A key of none of the parts keeps its value.
pub trojan_stream_query-other :
    (q0 : Values) (st : StreamSettings) (j : String)
    → absent j ("type" ∷ "security" ∷ []) ≡ true
    → absent j transport_keys ≡ true
    → absent j ("sni" ∷ "alpn" ∷ "fp" ∷ "pbk" ∷ "sid" ∷ "spx" ∷ []) ≡ true
    → get (trojan_stream_query q0 st) j ≡ get q0 j
unfolding trojan_stream_query
trojan_stream_query-other q0 st j a b c =
    let start = trojan_start q0 st.network st.security in
    let q3 = reality_if (tls_query start st.tls) st in
    trojan_transport-other (network_case st.network) (tcp_query q3 st.tcp) st j b
    ∙ tcp-other q3 j st.tcp (transport-tcp j b)
    ∙ secure-other start st st j c
    ∙ ground (
      arith,
      a,
      get-set_some (set_if (differs "tcp" st.network) q0 "type" st.network) "security" st.security
          j,
      get-set_if (differs "tcp" st.network) q0 "type" st.network j,
    )
