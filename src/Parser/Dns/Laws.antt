-- ===== src/Parser/Dns/Laws.antt =====
-- The DNS configuration keeps the custom servers, and maps no hosts.
use Prim.Native.String.{String}
use text.Mathlib.Text.{◌==◌}
use v2root_core.Base.{
  ◌≡◌, refl, Bool, true, false, ◌&&◌, ◌||◌, not, Option, none, some, List, [], ◌∷◌, ◌++◌,
  Bool-cases, inl, inr, if◌then◌else◌,
}
use v2root_core.Parser.Types.{DnsServer, domain_server, DnsConfig, GeositeDnsRule}
use v2root_core.Parser.Dns.{with_geosite, without_hosts, default_dns_config_with_custom}
use v2root_core.Parser.Text.{concat}

-- The servers that the custom configuration names.
abbrev pub custom_servers : Option DnsConfig → List DnsServer
custom_servers none = []
custom_servers (some c) = c.servers

-- The server of the rule, if the rule applies: the geosite file exists, and the rule names a domain
-- and a server.
abbrev pub rule_servers : (String → Bool) → String → Option GeositeDnsRule → List DnsServer
rule_servers exists path none = []
rule_servers exists path (some r) =
    if not (path == "") && (not (r.domain == "") && (not (r.dns == "") && exists path))
    then domain_server r.dns (concat ("geosite:" ∷ r.domain ∷ []) ∷ []) ∷ []
    else []

abbrev pub given : {A : Type 0} → Option A → Bool
given none = false
given (some _) = true

-- A text of the custom configuration, empty without one.
abbrev pub of_custom : (DnsConfig → String) → Option DnsConfig → String
of_custom f none = ""
of_custom f (some c) = f c

-- Without a result there is nothing to make it of; a result is made of what is given.
abbrev pub Kept :
    (String → Bool) → String → Option DnsConfig → Option GeositeDnsRule → Option DnsConfig → Type 0
Kept exists path custom rule none = (custom ≡ none) × (rule ≡ none)
Kept exists path custom rule (some d) =
    (given custom || given rule ≡ true)
    × (d.servers ≡ rule_servers exists path rule ++ custom_servers custom)
    × (d.hosts ≡ none)
    × (d.client_ip ≡ of_custom (λ c. c.client_ip) custom)
    × (d.tag ≡ of_custom (λ c. c.tag) custom)
    × (d.strategy ≡ of_custom (λ c. c.strategy) custom)

with_geosite-eq :
    (exists : String → Bool) (path : String) (r : GeositeDnsRule) (servers : List DnsServer)
    → with_geosite exists path r servers ≡ rule_servers exists path (some r) ++ servers
unfolding with_geosite
with_geosite-eq exists path r servers =
    elim (Bool-cases
      (not (path == "") && (not (r.domain == "") && (not (r.dns == "") && exists path)))) [
        | inl h ↦ rw h refl
        | inr h ↦ rw h refl
      ]

-- A DNS configuration is made exactly if there is a custom one or a rule. Its servers are that of the
-- rule, if it applies, in front of the custom ones; it maps no hosts; its client address, its tag and
-- its strategy are the custom ones, empty without a custom configuration.
pub default_dns_config_with_custom-Kept :
    (exists : String → Bool) (path : String) (custom : Option DnsConfig)
    (rule : Option GeositeDnsRule)
    → Kept exists path custom rule (default_dns_config_with_custom exists path custom rule)
unfolding default_dns_config_with_custom without_hosts
default_dns_config_with_custom-Kept exists path none none = (refl, refl)
default_dns_config_with_custom-Kept exists path (some c) none = (refl, refl, refl, refl, refl, refl)
default_dns_config_with_custom-Kept exists path none (some r) =
    (refl, with_geosite-eq exists path r [], refl, refl, refl, refl)
default_dns_config_with_custom-Kept exists path (some c) (some r) =
    (refl, with_geosite-eq exists path r c.servers, refl, refl, refl, refl)
