-- ===== src/Parser/Query/Secure.antt =====
-- What a query gives back for the TLS and REALITY settings that were written to it.
use Prim.Native.String.{String}
use text.Mathlib.Text.{◌==◌}
use text.Mathlib.TextEquality.{eq_iff}
use v2root_core.Base.{
  ◌≡◌, refl, ap, ◌∙◌, true, false, some, List, [], ◌∷◌, if◌then◌else◌, arith, Bool-cases, inl, inr,
}
use v2root_core.Parser.Values.{Values, get, set_some}
use v2root_core.Parser.Values.Laws.{get-set_some}
use v2root_core.Parser.Stream.{list_of, tls_of, reality_of, base, uses_tls}
use v2root_core.Parser.Query.{set_list, tls_query, reality_query, reality_if}
use v2root_core.Parser.Query.Gets.{absent, text_of, get-set_list}
use v2root_core.Parser.Query.Lists.{text_of-list_of}

-- The keys that neither writes.
abbrev pub open_keys : List String
open_keys =
    "encryption" ∷ "flow" ∷ "type" ∷ "security" ∷ "headerType" ∷ "path" ∷ "host" ∷ "quicSecurity"
    ∷ "key" ∷ "seed" ∷ "serviceName" ∷ "mode" ∷ []

module _ (q p : Values) (blank : (j : String) → absent j open_keys ≡ true → get p j ≡ "") where
  tls-alpn :
      get (set_list (set_some p "sni" (get q "sni")) "alpn" (list_of (get q "alpn"))) "alpn"
      ≡ get q "alpn"
  tls-alpn =
      get-set_list (set_some p "sni" (get q "sni")) "alpn" "alpn" (list_of (get q "alpn"))
      ∙ ap (text_of (list_of (get q "alpn")))
          (get-set_some p "sni" (get q "sni") "alpn" ∙ blank "alpn" refl)
      ∙ text_of-list_of (get q "alpn")

  get-tls_query :
      (j : String)
      → get (tls_query p (some (tls_of q))) j ≡ (
          if "fp" == j
          then get q "fp"
          else if "alpn" == j
          then get q "alpn"
          else if "sni" == j
          then get q "sni"
          else get p j)
  unfolding tls_query tls_of
  get-tls_query j = ground (
    arith,
    get-set_some (set_list (set_some p "sni" (get q "sni")) "alpn" (list_of (get q "alpn"))) "fp"
        (get q "fp") j,
    get-set_list (set_some p "sni" (get q "sni")) "alpn" j (list_of (get q "alpn")),
    get-set_some p "sni" (get q "sni") j,
    tls-alpn,
    blank "fp" refl,
    blank "sni" refl,
    eq_iff (get q "sni") "",
    eq_iff (get q "fp") "",
    eq_iff "fp" j,
    eq_iff "alpn" j,
    eq_iff "sni" j,
  )

  -- The server name and the fingerprint are written again, as they are.
  get-twice :
      (t : Values)
      → get t "sni" ≡ get q "sni"
      → get t "fp" ≡ get q "fp"
      → (j : String) → get (set_some (set_some t "sni" (get q "sni")) "fp" (get q "fp")) j ≡ get t j
  get-twice t e f j = ground (
    arith,
    get-set_some (set_some t "sni" (get q "sni")) "fp" (get q "fp") j,
    get-set_some t "sni" (get q "sni") j,
    e,
    f,
    eq_iff "fp" j,
    eq_iff "sni" j,
  )

  get-thrice :
      (t : Values)
      → get t "pbk" ≡ ""
      → get t "sid" ≡ ""
      → get t "spx" ≡ ""
      → (j : String)
      → get
          (set_some
            (set_some (set_some t "pbk" (get q "pbk")) "sid" (get q "sid"))
            "spx"
            (get q "spx"))
          j
        ≡ (if "spx" == j
            then get q "spx"
            else if "sid" == j
            then get q "sid"
            else if "pbk" == j
            then get q "pbk"
            else get t j)
  get-thrice t e f g j = ground (
    arith,
    get-set_some (set_some (set_some t "pbk" (get q "pbk")) "sid" (get q "sid")) "spx" (get q "spx")
        j,
    get-set_some (set_some t "pbk" (get q "pbk")) "sid" (get q "sid") j,
    get-set_some t "pbk" (get q "pbk") j,
    e,
    f,
    g,
    eq_iff "spx" j,
    eq_iff "sid" j,
    eq_iff "pbk" j,
    eq_iff (get q "spx") "",
    eq_iff (get q "sid") "",
    eq_iff (get q "pbk") "",
  )

  get-reality_query :
      (j : String)
      → get (reality_query (tls_query p (some (tls_of q))) (some (reality_of q))) j ≡ (
          if "spx" == j
          then get q "spx"
          else if "sid" == j
          then get q "sid"
          else if "pbk" == j
          then get q "pbk"
          else get (tls_query p (some (tls_of q))) j)
  unfolding reality_query reality_of
  get-reality_query j =
      let t : Values = tls_query p (some (tls_of q)) in
      let u : Values = set_some (set_some t "sni" (get q "sni")) "fp" (get q "fp") in
      let same : (i : String) → get u i ≡ get t i =
        get-twice t (get-tls_query "sni") (get-tls_query "fp") in
      get-thrice u (same "pbk" ∙ get-tls_query "pbk" ∙ blank "pbk" refl)
        (same "sid" ∙ get-tls_query "sid" ∙ blank "sid" refl)
        (same "spx" ∙ get-tls_query "spx" ∙ blank "spx" refl) j
      ∙ rw (same j) refl

  module _ (q' : Values) (network security : String) where
    -- What is in the query for the settings that `base` gives.
    abbrev pub SecureWritten : Type 0
    SecureWritten =
        let st = base q network security in
        (j : String)
        → absent j open_keys ≡ true
        → get q' j ≡ get (reality_if (tls_query p st.tls) st) j

    written-reality :
        (security == "reality") ≡ true
        → SecureWritten
        → (j : String) → absent j open_keys ≡ true
        → get q' j ≡ get (reality_query (tls_query p (some (tls_of q))) (some (reality_of q))) j
    unfolding reality_if base
    written-reality h w j a =
        let u : uses_tls security ≡ true = ground (arith, h) in w j a ∙ rw (u, h) refl

    written-tls :
        (security == "reality") ≡ false
        → uses_tls security ≡ true
        → SecureWritten
        → (j : String) → absent j open_keys ≡ true
        → get q' j ≡ get (tls_query p (some (tls_of q))) j
    unfolding reality_if base
    written-tls h u w j a = w j a ∙ rw (u, h) refl

    pub pbk-restored : (security == "reality") ≡ true → SecureWritten → get q' "pbk" ≡ get q "pbk"
    pbk-restored h w = written-reality h w "pbk" refl ∙ get-reality_query "pbk"

    pub base-restored :
        (get q "allowInsecure" == "1") ≡ false
        → SecureWritten
        → base q' network security ≡ base q network security
    unfolding base tls_of reality_of
    base-restored c w = elim (Bool-cases (security == "reality")) [
      | inl h ↦
          let r = written-reality h w in
          let g = get-reality_query in
          let t = get-tls_query in
          rw
            (
              r "sni" refl ∙ g "sni" ∙ t "sni",
              r "alpn" refl ∙ g "alpn" ∙ t "alpn",
              r "fp" refl ∙ g "fp" ∙ t "fp",
              r "pbk" refl ∙ g "pbk",
              r "sid" refl ∙ g "sid",
              r "spx" refl ∙ g "spx",
              r "allowInsecure" refl
                  ∙ g "allowInsecure"
                  ∙ t "allowInsecure"
                  ∙ blank "allowInsecure" refl,
              c,
            )
            refl
      | inr h ↦ elim (Bool-cases (uses_tls security)) [
        | inl u ↦
            let r = written-tls h u w in
            let t = get-tls_query in
            rw
              (
                h,
                r "sni" refl ∙ t "sni",
                r "alpn" refl ∙ t "alpn",
                r "fp" refl ∙ t "fp",
                r "allowInsecure" refl ∙ t "allowInsecure" ∙ blank "allowInsecure" refl,
                c,
              )
              refl
        | inr u ↦ rw (u, h) refl
      ]
    ]
