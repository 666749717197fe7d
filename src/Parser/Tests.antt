-- ===== src/Parser/Tests.antt =====
-- Tests of the share links, on the samples.
use Prim.Native.String.{String}
use text.Mathlib.Text.{◌==◌}
use v2root_core.Base.{Bool, false, true, ◌⊎◌, ◌≡◌, ◌≢◌, refl, arith, none, some, [], ◌∷◌, All}
use v2root_core.Base.Outcome.{done, panic}
use v2root_core.Parser.Text.{concat, split, equal_fold, print}
use v2root_core.Parser.Values.{get}
use v2root_core.Parser.Types.{OutputConfig, domain_server, other_server}
use v2root_core.Parser.Stream.{trojan_tcp}
use v2root_core.Parser.Query.{request_query, hosts_query, set_list, tls_query, ws_query}
use v2root_core.Parser.Routing.{build_routing_config}
use v2root_core.Parser.Routing.Laws.{Usable, decide, build_routing_config-wanted}
use v2root_core.Parser.Dns.{default_dns_config_with_custom}
use v2root_core.Parser.Dns.Laws.{Kept, default_dns_config_with_custom-Kept}
use v2root_core.Parser.Links.{must_parse_port}
use v2root_core.Parser.Links.Vless.{parse_vless}
use v2root_core.Parser.Links.Trojan.{parse_trojan}
use v2root_core.Parser.Entry.Safe.{parse_never_panics}
use v2root_core.Parser.Entry.Exported.{Given, parse-Given}
use v2root_core.Parser.Entry.WellFormed.{WellFormed, parse-WellFormed}
use v2root_core.Parser.Links.Shadowsocks.{parse_shadowsocks}
use v2root_core.Parser.Entry.{parse, export_shadowsocks}
use v2root_core.Parser.Export.{config_string, vless_query, trojan_query}
use v2root_core.Parser.Reparse.Vless.{parse_vless-config_string}
use v2root_core.Parser.Reparse.Trojan.{parse_trojan-config_string}
use v2root_core.Parser.Reparse.Shadowsocks.{parse_shadowsocks-config_string, must_parse_port-print}
use v2root_core.Parser.Samples.{
  url, ws_url, nobody, nobody_at, toy_net, toy_args, toy_opts, vless_st, vless_text, vless_again,
  vless_net, toy_config, toy_sniffing, vless_main, trojan_st, trojan_keys, trojan_text, trojan_net,
  trojan_main, ss_text, ss_net, ss_main, sites, toy_rules, toy_dns, toy_dns_rule,
}

-- ParseShadowsocks on a link whose "@" comes too early.
panics : export_shadowsocks (toy_net (("a@b", nobody) ∷ [])) (toy_opts "a@b") ≡ panic
unfolding export_shadowsocks
panics = refl

parse_vless-config_string_example :
    (config_string vless_net (toy_config toy_sniffing vless_main) ≡ some vless_text)
    × (parse_vless vless_net toy_args vless_text ≡ done (toy_config toy_sniffing vless_main))
unfolding parse_vless vless_query config_string get split equal_fold set_list tls_query ws_query
parse_vless-config_string_example =
    parse_vless-config_string vless_net toy_args "vless://x" ws_url vless_again 443 vless_st
      (toy_config toy_sniffing vless_main) refl refl refl refl (refl, λ e. refl) refl refl
      (record {
        username = refl;
        hostname = refl;
        port_text = refl;
        query = λ k. refl;
        remark_text = refl;
      })

parse_trojan-config_string_example :
    (config_string trojan_net (toy_config toy_sniffing trojan_main) ≡ some trojan_text)
    × (parse_trojan trojan_net toy_args trojan_text ≡ done (toy_config toy_sniffing trojan_main))
unfolding parse_trojan trojan_query config_string get split equal_fold trojan_tcp request_query
    hosts_query set_list
parse_trojan-config_string_example =
    parse_trojan-config_string trojan_net toy_args "trojan://x"
      (url "pw" "443" (("type", "tcp") ∷ trojan_keys)) (url "pw" "443" trojan_keys) 443 trojan_st
      (toy_config toy_sniffing trojan_main) refl refl refl (refl, λ e. ground (arith, e)) refl refl
      (record {
        username = refl;
        hostname = refl;
        port_text = refl;
        query = λ k. refl;
        remark_text = refl;
      })

parse_shadowsocks-config_string_example :
    (config_string ss_net (toy_config none ss_main) ≡ some ss_text)
    × (parse_shadowsocks ss_net toy_args ss_text ≡ done (toy_config none ss_main))
unfolding parse_shadowsocks config_string equal_fold
parse_shadowsocks-config_string_example =
    parse_shadowsocks-config_string ss_net toy_args "ss://x" (url "aes:pw" "" [])
      (url "aes:pw" "443" []) "aes:pw" "aes:pw" "aes" "pw" (toy_config none ss_main) refl refl refl
      refl refl refl refl refl refl refl
      (record {
        username = refl;
        hostname = refl;
        port_text = refl;
        query = λ k. refl;
        remark_text = refl;
      })

parse_never_panics_example : parse (toy_net (("a@b", nobody) ∷ [])) (toy_opts "a@b") ≢ panic
parse_never_panics_example = parse_never_panics (toy_net (("a@b", nobody) ∷ [])) (toy_opts "a@b")

parse-WellFormed_example : WellFormed (toy_config toy_sniffing trojan_main)
unfolding parse equal_fold get split trojan_tcp
parse-WellFormed_example =
    parse-WellFormed trojan_net (toy_opts trojan_text) (toy_config toy_sniffing trojan_main) refl

-- A VLESS link without a user is no error of `Parse`, but gives no outbound.
no_outbound :
    (c : OutputConfig)
    → parse (toy_net (("vless://h.org:443", nobody_at) ∷ [])) (toy_opts "vless://h.org:443")
      ≡ done c
    → c.outbounds ≡ []
unfolding parse equal_fold get split
no_outbound c e = ground (arith, e)

must_parse_port-print_example : must_parse_port (print 443) ≡ 443
must_parse_port-print_example = must_parse_port-print 443 (omega arith)

abbrev is_x : String → Bool
is_x s = s == "geosite:x"

build_routing_config-wanted_example :
    (decide is_x (λ s. false) (λ s. true) toy_rules ≡ some "T") × All Usable toy_rules
unfolding build_routing_config equal_fold concat
build_routing_config-wanted_example =
    build_routing_config-wanted is_x (λ s. false) (λ s. true) sites [] "direct" refl

default_dns_config_with_custom-Kept_example :
    Kept
      (λ s. s == "/geo/site.dat")
      "/geo/site.dat"
      (some toy_dns)
      (some toy_dns_rule)
      (some (record {
        servers = domain_server "1.1.1.1" ("geosite:cn" ∷ []) ∷ other_server "8.8.8.8" ∷ [];
        hosts = none;
        client_ip = "";
        tag = "t";
        strategy = "";
      }))
unfolding default_dns_config_with_custom concat
default_dns_config_with_custom-Kept_example =
    default_dns_config_with_custom-Kept (λ s. s == "/geo/site.dat") "/geo/site.dat" (some toy_dns)
      (some toy_dns_rule)

parse-Given_example :
    (toy_config toy_sniffing trojan_main).outbounds ≡ [] ⊎ Given (some trojan_text)
unfolding parse equal_fold get split trojan_tcp config_string trojan_query request_query hosts_query
    set_list
parse-Given_example =
    parse-Given trojan_net (toy_opts trojan_text) (toy_config toy_sniffing trojan_main) refl
