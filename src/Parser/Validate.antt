-- ===== src/Parser/Validate.antt =====
-- v2root/parser.go: validateOutbound, and the settings as another protocol's type reads them, which
-- the code does by way of JSON: the fields of the same name are kept, the others are empty.
use text.Mathlib.Text.{◌==◌}
use v2root_core.Base.{
  ltb, Bool, true, false, ◌&&◌, ◌||◌, not, Option, none, some, List, [], ◌∷◌, map, if◌then◌else◌,
}
use v2root_core.Parser.Types.{
  VlessUser, VlessVnext, TrojanServer, VmessUser, VmessVnext, ShadowsocksServer, Settings,
  vless_settings, trojan_settings, vmess_settings, shadowsocks_settings, other_settings,
  OutboundConfig,
}

abbrev pub vless_user_of : VmessUser → VlessUser
vless_user_of u = record { id = u.id; encryption = ""; flow = "" }

abbrev pub vless_vnext_of : VmessVnext → VlessVnext
vless_vnext_of v = record { address = v.address; port = v.port; users = map vless_user_of v.users }

abbrev pub vmess_user_of : VlessUser → VmessUser
vmess_user_of u = record { id = u.id; alter_id = 0; security = "" }

abbrev pub vmess_vnext_of : VlessVnext → VmessVnext
vmess_vnext_of v = record { address = v.address; port = v.port; users = map vmess_user_of v.users }

abbrev pub trojan_server_of : ShadowsocksServer → TrojanServer
trojan_server_of s = record { address = s.address; port = s.port; password = s.password; flow = "" }

abbrev pub shadowsocks_server_of : TrojanServer → ShadowsocksServer
shadowsocks_server_of s = record {
  address = s.address;
  port = s.port;
  method = "";
  password = s.password;
}

-- `json.Unmarshal(settingsBytes, &settings)`; `none` is its error.
abbrev pub as_vless : Settings → Option (List VlessVnext)
as_vless (vless_settings v) = some v
as_vless (vmess_settings v) = some (map vless_vnext_of v)
as_vless other_settings = none
as_vless _ = some []

abbrev pub as_trojan : Settings → Option (List TrojanServer)
as_trojan (trojan_settings s) = some s
as_trojan (shadowsocks_settings s) = some (map trojan_server_of s)
as_trojan other_settings = none
as_trojan _ = some []

abbrev pub as_vmess : Settings → Option (List VmessVnext)
as_vmess (vmess_settings v) = some v
as_vmess (vless_settings v) = some (map vmess_vnext_of v)
as_vmess other_settings = none
as_vmess _ = some []

abbrev pub as_shadowsocks : Settings → Option (List ShadowsocksServer)
as_shadowsocks (shadowsocks_settings s) = some s
as_shadowsocks (trojan_settings s) = some (map shadowsocks_server_of s)
as_shadowsocks other_settings = none
as_shadowsocks _ = some []

-- Only the first server counts, and the first user of it.
abbrev pub vless_valid : Option (List VlessVnext) → Bool
vless_valid none = false
vless_valid (some []) = false
vless_valid (some (v ∷ vs)) = elim v.users [
  | [] ↦ false
  | u ∷ us ↦ not (v.address == "") && (ltb 0 v.port && not (u.id == ""))
]

abbrev pub trojan_valid : Option (List TrojanServer) → Bool
trojan_valid none = false
trojan_valid (some []) = false
trojan_valid (some (s ∷ ss)) = not (s.address == "") && (ltb 0 s.port && not (s.password == ""))

abbrev pub vmess_valid : Option (List VmessVnext) → Bool
vmess_valid none = false
vmess_valid (some []) = false
vmess_valid (some (v ∷ vs)) = elim v.users [
  | [] ↦ false
  | u ∷ us ↦ not (v.address == "") && (ltb 0 v.port && not (u.id == ""))
]

abbrev pub shadowsocks_valid : Option (List ShadowsocksServer) → Bool
shadowsocks_valid none = false
shadowsocks_valid (some []) = false
shadowsocks_valid (some (s ∷ ss)) =
    not (s.address == "") && (ltb 0 s.port && not (s.method == "" || s.password == ""))

-- `validateOutbound(ob) == nil`
unfoldable pub validate_outbound : OutboundConfig → Bool
validate_outbound ob =
    if ob.protocol == "vless"
    then vless_valid (as_vless ob.settings)
    else if ob.protocol == "trojan"
    then trojan_valid (as_trojan ob.settings)
    else if ob.protocol == "vmess"
    then vmess_valid (as_vmess ob.settings)
    else if ob.protocol == "shadowsocks"
    then shadowsocks_valid (as_shadowsocks ob.settings)
    else true
