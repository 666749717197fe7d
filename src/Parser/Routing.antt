-- ===== src/Parser/Routing.antt =====
-- v2root/parser.go: getOutboundTag, predefinedGeositeCategories and buildRoutingConfig.
pub mod Laws
use Prim.Native.String.{String}
use text.Mathlib.Text.{◌==◌}
use v2root_core.Base.{◌||◌, List, [], ◌∷◌, ◌++◌, map, if◌then◌else◌}
use v2root_core.Parser.Text.{concat, equal_fold}
use v2root_core.Parser.Types.{RoutingRule, RoutingConfig, GeositeRule, GeoipRule}

-- The switch on `strings.ToLower(action)`.
pub action_tag : String → String
action_tag action =
    if equal_fold action "block" || equal_fold action "reject"
    then "Reject"
    else if equal_fold action "direct"
    then "Direct"
    else "Proxy"

pub get_outbound_tag : String → String → String
unfolding action_tag
get_outbound_tag action custom_tag = if custom_tag == "" then action_tag action else custom_tag

abbrev pub predefined_geosite_categories : List (String × String)
predefined_geosite_categories =
    ("ads", "category-ads-all")
    ∷ ("porn", "category-porn")
    ∷ ("media", "category-media")
    ∷ ("anticensorship", "category-anticensorship")
    ∷ ("vpn", "category-vpnservices")
    ∷ ("games", "category-games")
    ∷ ("dev", "category-dev")
    ∷ ("ai", "category-ai")
    ∷ ("malware", "category-malware")
    ∷ ("phishing", "category-phishing")
    ∷ ("messaging", "category-messaging")
    ∷ ("cn", "cn")
    ∷ ("not-cn", "geolocation-!cn")
    ∷ ("private", "private")
    ∷ ("win-spy", "win-spy")
    ∷ ("win-update", "win-update")
    ∷ []

-- `m[domain]`, or the domain itself if it is no key.
abbrev pub find_or_self : List (String × String) → String → String
find_or_self [] domain = domain
find_or_self ((k, v) ∷ m) domain = if k == domain then v else find_or_self m domain

pub geosite_rule : GeositeRule → RoutingRule
unfolding get_outbound_tag
geosite_rule gr = record {
  type = "field";
  domain = concat ("geosite:" ∷ find_or_self predefined_geosite_categories gr.domain ∷ []) ∷ [];
  ip = [];
  port = "";
  outbound_tag = get_outbound_tag gr.action gr.outbound_tag;
}

pub geoip_rule : GeoipRule → RoutingRule
unfolding get_outbound_tag
geoip_rule gr = record {
  type = "field";
  domain = [];
  ip = concat ("geoip:" ∷ gr.country ∷ []) ∷ [];
  port = "";
  outbound_tag = get_outbound_tag gr.action gr.outbound_tag;
}

-- The rule for everything else, if there is a default action.
pub fallback_rules : String → List RoutingRule
unfolding get_outbound_tag
fallback_rules default_action =
    if default_action == ""
    then []
    else record {
      type = "field";
      domain = [];
      ip = [];
      port = "0-65535";
      outbound_tag = get_outbound_tag default_action "";
    }
      ∷ []

unfoldable pub build_routing_config : List GeositeRule → List GeoipRule → String → RoutingConfig
unfolding geosite_rule geoip_rule fallback_rules
build_routing_config geosite_rules geoip_rules default_action = record {
  domain_strategy = "AsIs";
  rules =
      map geosite_rule geosite_rules
      ++ (map geoip_rule geoip_rules ++ fallback_rules default_action);
}
