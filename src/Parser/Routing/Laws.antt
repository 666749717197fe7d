-- ===== src/Parser/Routing/Laws.antt =====
-- What the rules of a routing configuration decide for a connection, and their form.
use Prim.Native.String.{String}
use text.Mathlib.Text.{◌==◌}
use v2root_core.Base.{
  ◌≡◌, refl, ap, Bool, true, ◌&&◌, Option, none, some, ◌⊎◌, false, ◌||◌, List, [], ◌∷◌, ◌++◌, map,
  Bool-cases, inl, inr, if◌then◌else◌, All, All-append, length,
}
use v2root_core.Parser.Text.{concat, equal_fold}
use v2root_core.Parser.Types.{RoutingRule, GeositeRule, GeoipRule}
use v2root_core.Parser.Routing.{
  action_tag, find_or_self, predefined_geosite_categories, get_outbound_tag, geosite_rule,
  geoip_rule, fallback_rules, build_routing_config,
}

-- One of the domains, the addresses and the ports is matched, the others are not looked at.
abbrev pub OneMatcher : RoutingRule → Type 0
OneMatcher r =
    ((length r.domain ≡ 1) × ((r.ip ≡ []) × (r.port ≡ "")))
    ⊎ (((r.domain ≡ []) × ((length r.ip ≡ 1) × (r.port ≡ "")))
        ⊎ ((r.domain ≡ []) × ((r.ip ≡ []) × (r.port ≡ "0-65535"))))

abbrev pub Usable : RoutingRule → Type 0
Usable r = (r.type ≡ "field") × (((r.outbound_tag == "") ≡ false) × OneMatcher r)

action_tag-some : (action : String) → (action_tag action == "") ≡ false
unfolding action_tag
action_tag-some action =
    elim (Bool-cases (equal_fold action "block" || equal_fold action "reject")) [
      | inl h ↦ rw h refl
      | inr h ↦ elim (Bool-cases (equal_fold action "direct")) [
        | inl g ↦ rw (h, g) refl
        | inr g ↦ rw (h, g) refl
      ]
    ]

tag-some : (action custom : String) → (get_outbound_tag action custom == "") ≡ false
unfolding get_outbound_tag
tag-some action custom = elim (Bool-cases (custom == "")) [
  | inl h ↦ rw h (action_tag-some action)
  | inr h ↦ rw (h, h) refl
]

All-map :
    {A : Type 0} (P : RoutingRule → Type 0) (f : A → RoutingRule)
    → ((x : A) → P (f x))
    → (xs : List A) → All P (map f xs)
All-map P f h [] = tt
All-map P f h (x ∷ xs) = (h x, All-map P f h xs)

geosite-Usable : (r : GeositeRule) → Usable (geosite_rule r)
unfolding geosite_rule
geosite-Usable r = (refl, (tag-some r.action r.outbound_tag, inl (refl, (refl, refl))))

geoip-Usable : (r : GeoipRule) → Usable (geoip_rule r)
unfolding geoip_rule
geoip-Usable r = (refl, (tag-some r.action r.outbound_tag, inr (inl (refl, (refl, refl)))))

fallback-Usable : (mode : String) → All Usable (fallback_rules mode)
unfolding fallback_rules
fallback-Usable mode = elim (Bool-cases (mode == "")) [
  | inl h ↦ rw h tt
  | inr h ↦ rw h ((refl, (tag-some mode "", inr (inr (refl, (refl, refl))))), tt)
]

-- The switch of getOutboundTag as a table.
abbrev tags : List (String × String)
tags = ("block", "Reject") ∷ ("reject", "Reject") ∷ ("direct", "Direct") ∷ []

abbrev tag_in : List (String × String) → String → String
tag_in [] action = "Proxy"
tag_in ((name, tag) ∷ table) action = if equal_fold action name then tag else tag_in table action

-- The custom tag, or else that of the action.
abbrev pub wanted_tag : String → String → String
wanted_tag action custom = if custom == "" then tag_in tags action else custom

get_outbound_tag-wanted :
    (action custom : String) → get_outbound_tag action custom ≡ wanted_tag action custom
unfolding get_outbound_tag action_tag
get_outbound_tag-wanted action custom = elim (Bool-cases (equal_fold action "block")) [
  | inl h ↦ rw h refl
  | inr h ↦ elim (Bool-cases (equal_fold action "reject")) [
    | inl g ↦ rw (h, g) refl
    | inr g ↦ rw (h, g) refl
  ]
]

-- A connection, seen by which texts of domains, of addresses and of ports it matches.
module _ (site address port_in : String → Bool) where
  -- A condition that is not given holds.
  abbrev pub some_holds : (String → Bool) → List String → Bool
  some_holds holds [] = true
  some_holds holds (x ∷ []) = holds x
  some_holds holds (x ∷ xs) = holds x || some_holds holds xs

  abbrev pub matches : RoutingRule → Bool
  matches r =
      r.type == "field"
      && (some_holds site r.domain && (some_holds address r.ip && (r.port == "" || port_in r.port)))

  -- The tag of the first rule that matches.
  abbrev pub decide : List RoutingRule → Option String
  decide [] = none
  decide (r ∷ rs) = if matches r then some r.outbound_tag else decide rs

  -- What is asked for: the first geosite rule whose category holds, otherwise the first geoip rule whose
  -- country does, otherwise the default action.
  abbrev pub wanted : List GeositeRule → List GeoipRule → String → Option String
  wanted [] [] mode = if mode == "" then none else some (wanted_tag mode "")
  wanted [] (r ∷ ips) mode =
      if address (concat ("geoip:" ∷ r.country ∷ []))
      then some (wanted_tag r.action r.outbound_tag)
      else wanted [] ips mode
  wanted (r ∷ sites) ips mode =
      if site (concat ("geosite:" ∷ find_or_self predefined_geosite_categories r.domain ∷ []))
      then some (wanted_tag r.action r.outbound_tag)
      else wanted sites ips mode

  and-true : (b : Bool) → (b && true) ≡ b
  and-true true = refl
  and-true false = refl

  decide-fallback :
      (mode : String) → port_in "0-65535" ≡ true → decide (fallback_rules mode) ≡ wanted [] [] mode
  unfolding fallback_rules
  decide-fallback mode p = elim (Bool-cases (mode == "")) [
    | inl h ↦ rw h refl
    | inr h ↦ rw (h, p) (ap some (get_outbound_tag-wanted mode ""))
  ]

  decide-geoip :
      (ips : List GeoipRule) (mode : String)
      → port_in "0-65535" ≡ true
      → decide (map geoip_rule ips ++ fallback_rules mode) ≡ wanted [] ips mode
  unfolding geoip_rule
  decide-geoip [] mode p = decide-fallback mode p
  decide-geoip (r ∷ ips) mode p =
      rw
        (
          and-true (address (concat ("geoip:" ∷ r.country ∷ []))),
          get_outbound_tag-wanted r.action r.outbound_tag,
          decide-geoip ips mode p,
        )
        refl

  decide-geosite :
      (sites : List GeositeRule) (ips : List GeoipRule) (mode : String)
      → port_in "0-65535" ≡ true
      → decide (map geosite_rule sites ++ (map geoip_rule ips ++ fallback_rules mode))
        ≡ wanted sites ips mode
  unfolding geosite_rule
  decide-geosite [] ips mode p = decide-geoip ips mode p
  decide-geosite (r ∷ sites) ips mode p =
      rw
        (
          and-true (
              site
                (concat ("geosite:" ∷ find_or_self predefined_geosite_categories r.domain ∷ []))),
          get_outbound_tag-wanted r.action r.outbound_tag,
          decide-geosite sites ips mode p,
        )
        refl

  -- Where "0-65535" holds of the port, the first rule that matches a connection has the tag that is
  -- asked for, if there is one: of the first geosite rule whose category holds, otherwise of the first
  -- geoip rule whose country does, otherwise of the default action; a rule's tag is its custom one,
  -- or else Reject for block and reject, Direct for direct, in any case of the letters, and Proxy for
  -- any other action. Every rule has the type field, an outbound tag that is not empty, and exactly one
  -- of a domain, an address and all ports to match.
  pub build_routing_config-wanted :
      (sites : List GeositeRule) (ips : List GeoipRule) (mode : String)
      → port_in "0-65535" ≡ true
      → (decide (build_routing_config sites ips mode).rules ≡ wanted sites ips mode)
        × All Usable (build_routing_config sites ips mode).rules
  unfolding build_routing_config
  build_routing_config-wanted sites ips mode p = (
    decide-geosite sites ips mode p,
    All-append Usable (map geosite_rule sites) _ (All-map Usable geosite_rule geosite-Usable sites)
        (All-append Usable (map geoip_rule ips) _ (All-map Usable geoip_rule geoip-Usable ips)
          (fallback-Usable mode)),
  )
