-- ===== src/Parser/Query/Parts.antt =====
-- What a query gives back for the settings of one transport that were written to it.
use Prim.Native.String.{String}
use text.Mathlib.Text.{◌==◌}
use text.Mathlib.TextEquality.{eq_iff}
use v2root_core.Base.{
  ◌≡◌, refl, ap, ◌∙◌, Bool, true, Option, some, List, if◌then◌else◌, arith, Bool-cases, inl, inr,
}
use v2root_core.Parser.Values.{Values, get, set, set_some}
use v2root_core.Parser.Values.Laws.{get-set, get-set_if, get-set_some}
use v2root_core.Parser.Types.{TcpSettings, HeaderConfig}
use v2root_core.Parser.Stream.{list_of, some_text, header_of}
use v2root_core.Parser.Query.{
  set_list, request_query, tcp_query, ws_query, http_query, quic_query, kcp_query, grpc_query,
}
use v2root_core.Parser.Query.Gets.{absent, text_of, get-set_list, request-other, hosts-other}
use v2root_core.Parser.Query.Lists.{text_of-list_of, host_of, get-hosts_query, other_keys}

module _ (q q2 : Values) (empty : (j : String) → absent j other_keys ≡ true → get q2 j ≡ "") where
  pub ws-path :
      get
        (ws_query q2 (some (record { path = get q "path"; host = some_text (get q "host") })))
        "path"
      ≡ get q "path"
  unfolding ws_query
  ws-path = elim (Bool-cases (get q "host" == "")) [
    | inl h ↦
        rw (h, ws_query)
          (ground (
            arith,
            get-set_some q2 "path" (get q "path") "path",
            empty "path" refl,
            eq_iff (get q "path") "",
          ))
    | inr h ↦
        rw (h, ws_query)
          (ground (
            arith,
            get-set_some (set_some q2 "path" (get q "path")) "host" (get q "host") "path",
            get-set_some q2 "path" (get q "path") "path",
            empty "path" refl,
            eq_iff (get q "path") "",
          ))
  ]

  pub ws-host :
      get
        (ws_query q2 (some (record { path = get q "path"; host = some_text (get q "host") })))
        "host"
      ≡ get q "host"
  unfolding ws_query
  ws-host = elim (Bool-cases (get q "host" == "")) [
    | inl h ↦
        rw (h, ws_query)
          (ground (
            arith,
            get-set_some q2 "path" (get q "path") "host",
            empty "host" refl,
            eq_iff (get q "host") "",
          ))
    | inr h ↦
        rw (h, ws_query)
          (ground (
            arith,
            get-set_some (set_some q2 "path" (get q "path")) "host" (get q "host") "host",
            get-set_some q2 "path" (get q "path") "host",
            empty "host" refl,
            eq_iff (get q "host") "",
          ))
  ]

  pub http-path :
      get
        (http_query q2 (some (record { path = get q "path"; host = list_of (get q "host") })))
        "path"
      ≡ get q "path"
  unfolding http_query
  http-path = ground (
    arith,
    get-set_list (set_some q2 "path" (get q "path")) "host" "path" (list_of (get q "host")),
    get-set_some q2 "path" (get q "path") "path",
    empty "path" refl,
    eq_iff (get q "path") "",
  )

  pub http-host :
      get
        (http_query q2 (some (record { path = get q "path"; host = list_of (get q "host") })))
        "host"
      ≡ get q "host"
  unfolding http_query
  http-host =
      get-set_list (set_some q2 "path" (get q "path")) "host" "host" (list_of (get q "host"))
      ∙ ap (text_of (list_of (get q "host")))
          (get-set_some q2 "path" (get q "path") "host" ∙ empty "host" refl)
      ∙ text_of-list_of (get q "host")

  module _ (path : List String) where
    abbrev pub tcp_settings : TcpSettings
    tcp_settings = record {
      header = some (record {
        type = "http";
        request = some (record { path = path; hosts = host_of (get q "host") });
      });
    }

    pub tcp-header : get (tcp_query q2 (some tcp_settings)) "headerType" ≡ "http"
    unfolding tcp_query
    tcp-header =
        request-other (set q2 "headerType" "http") "headerType"
          (some (record { path = path; hosts = host_of (get q "host") })) refl
        ∙ get-set q2 "headerType" "http" "headerType"

    pub tcp-path :
        text_of path "" ≡ get q "path"
        → get (tcp_query q2 (some tcp_settings)) "path" ≡ get q "path"
    unfolding tcp_query request_query
    tcp-path e =
        hosts-other (set_list (set q2 "headerType" "http") "path" path) "path"
          (host_of (get q "host")) refl
        ∙ get-set_list (set q2 "headerType" "http") "path" "path" path
        ∙ ap (text_of path) (get-set q2 "headerType" "http" "path" ∙ empty "path" refl)
        ∙ e

    pub tcp-host : get (tcp_query q2 (some tcp_settings)) "host" ≡ get q "host"
    unfolding tcp_query request_query
    tcp-host = get-hosts_query (set_list (set q2 "headerType" "http") "path" path) (get q "host") (
        get-set_list (set q2 "headerType" "http") "path" "host" path
        ∙ get-set q2 "headerType" "http" "host"
        ∙ empty "host" refl)

  pub quic-security :
      (h : Option HeaderConfig)
      → get
          (quic_query q2
            (some (record { security = get q "quicSecurity"; key = get q "key"; header = h })))
          "quicSecurity"
        ≡ get q "quicSecurity"
  unfolding quic_query
  quic-security h = ground (
    arith,
    get-set_some (set_some q2 "quicSecurity" (get q "quicSecurity")) "key" (get q "key")
        "quicSecurity",
    get-set_some q2 "quicSecurity" (get q "quicSecurity") "quicSecurity",
    empty "quicSecurity" refl,
    eq_iff (get q "quicSecurity") "",
  )

  pub quic-key :
      (h : Option HeaderConfig)
      → get
          (quic_query q2
            (some (record { security = get q "quicSecurity"; key = get q "key"; header = h })))
          "key"
        ≡ get q "key"
  unfolding quic_query
  quic-key h = ground (
    arith,
    get-set_some (set_some q2 "quicSecurity" (get q "quicSecurity")) "key" (get q "key") "key",
    get-set_some q2 "quicSecurity" (get q "quicSecurity") "key",
    empty "key" refl,
    eq_iff (get q "key") "",
  )

  pub kcp-seed :
      get
        (kcp_query q2
          (some (record { seed = get q "seed"; header = header_of (get q "headerType") })))
        "seed"
      ≡ get q "seed"
  unfolding kcp_query
  kcp-seed = ground (
    arith,
    get-set_some (set_some q2 "seed" (get q "seed")) "headerType" (get q "headerType") "seed",
    get-set_some q2 "seed" (get q "seed") "seed",
    empty "seed" refl,
    eq_iff (get q "seed") "",
  )

  pub kcp-header :
      get
        (kcp_query q2
          (some (record { seed = get q "seed"; header = header_of (get q "headerType") })))
        "headerType"
      ≡ get q "headerType"
  unfolding kcp_query
  kcp-header = ground (
    arith,
    get-set_some (set_some q2 "seed" (get q "seed")) "headerType" (get q "headerType") "headerType",
    get-set_some q2 "seed" (get q "seed") "headerType",
    empty "headerType" refl,
    eq_iff (get q "headerType") "",
  )

  pub grpc-name :
      (b : Bool)
      → get
          (grpc_query q2 (some (record { service_name = get q "serviceName"; multi_mode = b })))
          "serviceName"
        ≡ get q "serviceName"
  unfolding grpc_query
  grpc-name b = ground (
    arith,
    get-set_if b (set_some q2 "serviceName" (get q "serviceName")) "mode" "multi" "serviceName",
    get-set_some q2 "serviceName" (get q "serviceName") "serviceName",
    empty "serviceName" refl,
    eq_iff (get q "serviceName") "",
  )

  pub grpc-mode :
      (b : Bool)
      → get
          (grpc_query q2 (some (record { service_name = get q "serviceName"; multi_mode = b })))
          "mode"
        ≡ (if b then "multi" else "")
  unfolding grpc_query
  grpc-mode b = ground (
    arith,
    get-set_if b (set_some q2 "serviceName" (get q "serviceName")) "mode" "multi" "mode",
    get-set_some q2 "serviceName" (get q "serviceName") "mode",
    empty "mode" refl,
  )
