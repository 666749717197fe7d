-- ===== src/Parser/Query/Gets.antt =====
-- What is found in a query after a part of the stream settings was written to it.
use Prim.Native.String.{String}
use text.Mathlib.Text.{◌==◌}
use v2root_core.Base.{
  ◌≡◌, refl, ◌∙◌, Bool, true, false, ◌&&◌, not, Option, none, some, List, [], ◌∷◌, if◌then◌else◌,
  arith, inl, inr, Option-cases,
}
use v2root_core.Parser.Text.{join}
use v2root_core.Parser.Values.{Values, get, set, set_some}
use v2root_core.Parser.Values.Laws.{get-set, get-set_if, get-set_some}
use v2root_core.Parser.Types.{
  StreamSettings, TlsSettings, RealitySettings, TcpSettings, RequestConfig, WsSettings,
  HttpSettings, QuicSettings, KcpSettings, GrpcSettings,
}
use v2root_core.Parser.Query.{
  set_list, hosts_query, request_query, tcp_query, ws_query, http_query, quic_query, kcp_query,
  grpc_query, tls_query, reality_query, reality_if,
}

-- None of the keys is `j`.
abbrev pub absent : String → List String → Bool
absent j [] = true
absent j (k ∷ ks) = not (k == j) && absent j ks

-- What a list is found as.
abbrev pub text_of : List String → String → String
text_of [] old = old
text_of (p ∷ ps) old = join "," (p ∷ ps)

pub get-set_list :
    (q : Values) (k j : String) (l : List String)
    → get (set_list q k l) j ≡ (if k == j then text_of l (get q j) else get q j)
unfolding set_list
get-set_list q k j [] = ground arith
get-set_list q k j (p ∷ ps) = get-set q k (join "," (p ∷ ps)) j

module _ (q : Values) (j : String) where
  pub get-set_other : (k v : String) → (k == j) ≡ false → get (set q k v) j ≡ get q j
  get-set_other k v h = rw (get-set q k v j, h) refl

  pub hosts-other :
      (h : Option (List String)) → absent j ("host" ∷ []) ≡ true → get (hosts_query q h) j ≡ get q j
  unfolding hosts_query
  hosts-other none a = refl
  hosts-other (some []) a = refl
  hosts-other (some (h ∷ hs)) a = get-set_other "host" h (ground (arith, a))

  pub tls-other :
      (t : Option TlsSettings)
      → absent j ("sni" ∷ "alpn" ∷ "fp" ∷ []) ≡ true
      → get (tls_query q t) j ≡ get q j
  unfolding tls_query
  tls-other none a = refl
  tls-other (some t) a = ground (
    arith,
    a,
    get-set_some (set_list (set_some q "sni" t.sni) "alpn" t.alpn) "fp" t.fingerprint j,
    get-set_list (set_some q "sni" t.sni) "alpn" j t.alpn,
    get-set_some q "sni" t.sni j,
  )

  pub reality-other :
      (t : Option RealitySettings)
      → absent j ("sni" ∷ "fp" ∷ "pbk" ∷ "sid" ∷ "spx" ∷ []) ≡ true
      → get (reality_query q t) j ≡ get q j
  unfolding reality_query
  reality-other none a = refl
  reality-other (some r) a = ground (
    arith,
    a,
    get-set_some
        (set_some
          (set_some (set_some (set_some q "sni" r.sni) "fp" r.fingerprint) "pbk" r.public_key) "sid"
          r.short_id)
        "spx" r.spider_x j,
    get-set_some
        (set_some (set_some (set_some q "sni" r.sni) "fp" r.fingerprint) "pbk" r.public_key) "sid"
        r.short_id j,
    get-set_some (set_some (set_some q "sni" r.sni) "fp" r.fingerprint) "pbk" r.public_key j,
    get-set_some (set_some q "sni" r.sni) "fp" r.fingerprint j,
    get-set_some q "sni" r.sni j,
  )

  pub ws-other :
      (t : Option WsSettings)
      → absent j ("path" ∷ "host" ∷ []) ≡ true
      → get (ws_query q t) j ≡ get q j
  unfolding ws_query
  ws-other none a = refl
  ws-other (some w) a = elim (Option-cases w.host) [
    | inl e ↦ rw (e, ws_query) (ground (arith, a, get-set_some q "path" w.path j))
    | inr (h, e) ↦
        rw (e, ws_query)
          (ground (
            arith,
            a,
            get-set_some (set_some q "path" w.path) "host" h j,
            get-set_some q "path" w.path j,
          ))
  ]

  pub http-other :
      (t : Option HttpSettings)
      → absent j ("path" ∷ "host" ∷ []) ≡ true
      → get (http_query q t) j ≡ get q j
  unfolding http_query
  http-other none a = refl
  http-other (some h) a = ground (
    arith,
    a,
    get-set_list (set_some q "path" h.path) "host" j h.host,
    get-set_some q "path" h.path j,
  )

  pub quic-other :
      (t : Option QuicSettings)
      → absent j ("quicSecurity" ∷ "key" ∷ []) ≡ true
      → get (quic_query q t) j ≡ get q j
  unfolding quic_query
  quic-other none a = refl
  quic-other (some s) a = ground (
    arith,
    a,
    get-set_some (set_some q "quicSecurity" s.security) "key" s.key j,
    get-set_some q "quicSecurity" s.security j,
  )

  pub kcp-other :
      (t : Option KcpSettings)
      → absent j ("seed" ∷ "headerType" ∷ []) ≡ true
      → get (kcp_query q t) j ≡ get q j
  unfolding kcp_query
  kcp-other none a = refl
  kcp-other (some s) a = elim (Option-cases s.header) [
    | inl e ↦ rw (e, kcp_query) (ground (arith, a, get-set_some q "seed" s.seed j))
    | inr (h, e) ↦
        rw (e, kcp_query)
          (ground (
            arith,
            a,
            get-set_some (set_some q "seed" s.seed) "headerType" h.type j,
            get-set_some q "seed" s.seed j,
          ))
  ]

  pub grpc-other :
      (t : Option GrpcSettings)
      → absent j ("serviceName" ∷ "mode" ∷ []) ≡ true
      → get (grpc_query q t) j ≡ get q j
  unfolding grpc_query
  grpc-other none a = refl
  grpc-other (some s) a = ground (
    arith,
    a,
    get-set_if s.multi_mode (set_some q "serviceName" s.service_name) "mode" "multi" j,
    get-set_some q "serviceName" s.service_name j,
  )

  pub reality_if-other :
      (st : StreamSettings)
      → absent j ("sni" ∷ "fp" ∷ "pbk" ∷ "sid" ∷ "spx" ∷ []) ≡ true
      → get (reality_if q st) j ≡ get q j
  unfolding reality_if
  reality_if-other st a = ground (arith, reality-other st.reality a)

pub request-other :
    (q : Values) (j : String) (r : Option RequestConfig)
    → absent j ("path" ∷ "host" ∷ []) ≡ true
    → get (request_query q r) j ≡ get q j
unfolding request_query
request-other q j none a = refl
request-other q j (some r) a =
    hosts-other (set_list q "path" r.path) j r.hosts (ground (arith, a))
    ∙ ground (arith, a, get-set_list q "path" j r.path)

module _ (q : Values) (j : String) where
  pub tcp-other :
      (t : Option TcpSettings)
      → absent j ("headerType" ∷ "path" ∷ "host" ∷ []) ≡ true
      → get (tcp_query q t) j ≡ get q j
  unfolding tcp_query
  tcp-other none a = refl
  tcp-other (some t) a = elim (Option-cases t.header) [
    | inl e ↦ rw (e, tcp_query) refl
    | inr (h, e) ↦
        rw (e, tcp_query)
          (request-other (set q "headerType" h.type) j h.request (ground (arith, a))
            ∙ get-set_other q j "headerType" h.type (ground (arith, a)))
  ]
