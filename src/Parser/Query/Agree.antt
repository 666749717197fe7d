-- ===== src/Parser/Query/Agree.antt =====
-- Settings that are read alike from two queries, and what a query that was written from settings holds.
use Prim.Native.String.{String}
use text.Mathlib.Text.{◌==◌}
use text.Mathlib.TextEquality.{eq_iff}
use v2root_core.Base.{
  ◌≡◌, refl, ◌∙◌, true, false, some, List, [], ◌∷◌, if◌then◌else◌, arith, Bool-cases, inl, inr,
}
use v2root_core.Parser.Values.{Values, get}
use v2root_core.Parser.Types.{StreamSettings, TcpSettings}
use v2root_core.Parser.Stream.{
  Network, tcp_network, ws_network, http_network, quic_network, kcp_network, grpc_network,
  other_network, network_case, transport, base, stream, or_default,
}
use v2root_core.Parser.Query.{
  trojan_transport, tcp_query, ws_query, http_query, quic_query, kcp_query, grpc_query, tls_query,
  reality_if, differs,
}
use v2root_core.Parser.Query.Gets.{absent, tls-other, reality_if-other}

module _ (tcp : Values → TcpSettings) (q : Values) (network security : String) where
  abbrev pub built : Network → StreamSettings
  built k = transport tcp k q (base q network security)

  -- A transport leaves the other fields.
  pub transport-keeps :
      (k : Network)
      → (built k).network ≡ network
        × ((built k).security ≡ security
            × ((built k).tls ≡ (base q network security).tls
                × (built k).reality ≡ (base q network security).reality))
  unfolding transport base
  transport-keeps tcp_network = elim (Bool-cases (get q "headerType" == "http")) [
    | inl h ↦ rw h (refl, (refl, (refl, refl)))
    | inr h ↦ rw h (refl, (refl, (refl, refl)))
  ]
  transport-keeps ws_network = (refl, (refl, (refl, refl)))
  transport-keeps http_network = (refl, (refl, (refl, refl)))
  transport-keeps quic_network = (refl, (refl, (refl, refl)))
  transport-keeps kcp_network = (refl, (refl, (refl, refl)))
  transport-keeps grpc_network = (refl, (refl, (refl, refl)))
  transport-keeps other_network = (refl, (refl, (refl, refl)))

  -- Only one of the parts is written.
  pub one_transport :
      (k : Network) (p : Values)
      → (let st = built k in
          grpc_query
            (kcp_query
              (quic_query (http_query (ws_query (tcp_query p st.tcp) st.ws) st.http) st.quic)
              st.kcp)
            st.grpc
          ≡ trojan_transport k (tcp_query p st.tcp) st)
  unfolding transport base trojan_transport tcp_query ws_query http_query quic_query kcp_query
      grpc_query
  one_transport tcp_network p = elim (Bool-cases (get q "headerType" == "http")) [
    | inl h ↦ rw h refl
    | inr h ↦ rw h refl
  ]
  one_transport ws_network p = refl
  one_transport http_network p = refl
  one_transport quic_network p = refl
  one_transport kcp_network p = refl
  one_transport grpc_network p = refl
  one_transport other_network p = refl

abbrev pub transport_keys : List String
transport_keys =
    "headerType" ∷ "path" ∷ "host" ∷ "quicSecurity" ∷ "key" ∷ "seed" ∷ "serviceName" ∷ "mode" ∷ []

pub secure-other :
    (p : Values) (st st' : StreamSettings) (j : String)
    → absent j ("sni" ∷ "alpn" ∷ "fp" ∷ "pbk" ∷ "sid" ∷ "spx" ∷ []) ≡ true
    → get (reality_if (tls_query p st.tls) st') j ≡ get p j
secure-other p st st' j a =
    reality_if-other (tls_query p st.tls) j st' (ground (arith, a))
    ∙ tls-other p j st.tls (ground (arith, a))

-- Only the security and the settings of TLS and REALITY are read.
pub secure-eq :
    (p : Values) (st b : StreamSettings)
    → st.security ≡ b.security
    → st.tls ≡ b.tls
    → st.reality ≡ b.reality
    → reality_if (tls_query p st.tls) st ≡ reality_if (tls_query p b.tls) b
unfolding reality_if
secure-eq p st b e f g = rw (e, f, g) refl

-- The keys that come before the stream settings hold nothing else.
abbrev pub Fresh : Values → Type 0
Fresh q0 = (j : String) → absent j ("encryption" ∷ "flow" ∷ []) ≡ true → get q0 j ≡ ""

-- What the settings are read from does not say more than a link can: certificates are checked, and
-- the network is not QUIC, or its header has no type.
abbrev pub Exportable : Values → Type 0
Exportable q =
    ((get q "allowInsecure" == "1") ≡ false)
    × ((or_default "tcp" (get q "type") == "quic") ≡ true → get q "headerType" ≡ "")

pub quic_case :
    (n : String) → (let v : Network = quic_network in network_case n ≡ v) → (n == "quic") ≡ true
unfolding network_case
quic_case n e = ground (arith, e)

module _ (tcp : Values → TcpSettings) (d : String) (q q' : Values) where
  -- Settings are read alike from two queries that agree on them.
  pub stream-agree :
      or_default "tcp" (get q' "type") ≡ or_default "tcp" (get q "type")
      → or_default d (get q' "security") ≡ or_default d (get q "security")
      → ((or_default d (get q "security") == "reality") ≡ true → get q' "pbk" ≡ get q "pbk")
      → (let n = or_default "tcp" (get q "type") in
          let s = or_default d (get q "security") in
          transport tcp (network_case n) q' (base q n s)
          ≡ transport tcp (network_case n) q (base q n s))
      → (let n = or_default "tcp" (get q "type") in
          let s = or_default d (get q "security") in base q' n s ≡ base q n s)
      → stream tcp d q' ≡ stream tcp d q
  unfolding stream
  stream-agree n s pbk t b = elim (Bool-cases (or_default d (get q "security") == "reality")) [
    | inl h ↦ rw (n, s, b, t, pbk h) refl
    | inr h ↦ rw (n, s, b, t, h) refl
  ]

  pub stream-built :
      (st : StreamSettings)
      → stream tcp d q ≡ some st
      → (let n = or_default "tcp" (get q "type") in
          let s = or_default d (get q "security") in built tcp q n s (network_case n) ≡ st)
  unfolding stream
  stream-built st e = ground (arith, e)

pub or_default-some : (d v : String) → (d == "") ≡ false → (or_default d v == "") ≡ false
or_default-some d v e = elim (Bool-cases (v == "")) [ inl h ↦ rw h e | inr h ↦ rw (h, h) refl ]

pub default-restored :
    (d v w : String) → (v == "") ≡ false → w ≡ (if differs d v then v else "") → or_default d w ≡ v
default-restored d v w e f = elim (Bool-cases (v == d)) [
  | inl h ↦ rw f (rw (e, h) (ground (arith, h, eq_iff v d)))
  | inr h ↦ rw f (rw (e, h, e) refl)
]

pub base-security : (q : Values) (n s : String) → (base q n s).security ≡ s
unfolding base
base-security q n s = refl
