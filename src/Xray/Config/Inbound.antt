-- ===== src/Xray/Config/Inbound.antt =====
-- buildInbound of internal/xray/builder.go, and the documents that the commands adi and adu of the
-- core are given.
use xnode_agent.Prelude.{
  str_eq, nat_eq, Option, true, List, codes, Str, to_lower, [], filter, map, Bool, if◌then◌else◌,
  some, ◌∷◌, ◌==◌, none, ◌||◌, ◌&&◌, not, length,
}
use xnode_agent.Model.{ManagedUser, ManagedInbound}
use xnode_agent.Model.Values.{Json, JsonMap, num, str, array, object, set_field}
use xnode_agent.Xray.Email.{accounting_email}

-- buildInbound has no error.
unfoldable pub is_buildable : ManagedInbound → Bool
is_buildable inb = not (inb.id == [] || inb.protocol == [] || inb.tag == [])

unfoldable pub clone_map : Option JsonMap → JsonMap
clone_map none = []
clone_map (some m) = m

unfoldable pub active_users : List ManagedUser → List ManagedUser
active_users = filter (λ u. u.enabled)

-- A client or a peer: the credential with the accounting email and the level.
unfoldable pub client_entry : ManagedInbound → ManagedUser → JsonMap
unfolding clone_map
client_entry inb u =
    set_field (codes "level") (num u.level)
      (set_field (codes "email") (str (accounting_email u.id inb.id)) (clone_map u.credential))

abbrev pub client_of : ManagedInbound → ManagedUser → Json
client_of inb u = object (client_entry inb u)

abbrev pub entries : ManagedInbound → List ManagedUser → Json
entries inb us = array (map (client_of inb) us)

unfoldable pub takes_clients : Str → Bool
takes_clients p =
    p == codes "vless" || p == codes "vmess" || p == codes "trojan" || p == codes "shadowsocks"

unfoldable pub inbound_settings : ManagedInbound → JsonMap
unfolding takes_clients active_users client_entry clone_map
inbound_settings inb =
    let p = to_lower inb.protocol in
    let active = active_users inb.users in
    if takes_clients p
    then set_field (codes "clients") (entries inb active) (clone_map inb.settings)
    else if p == codes "wireguard" && not (length active == 0)
    then set_field (codes "peers") (entries inb active) (clone_map inb.settings)
    else clone_map inb.settings

-- obj[k] = m where m is not nil.
unfoldable pub set_map : Str → Option JsonMap → JsonMap → JsonMap
set_map k none m = m
set_map k (some v) m = set_field k (object v) m

unfoldable pub inbound_head : ManagedInbound → JsonMap
inbound_head inb =
    let head =
      (codes "port", inb.port)
      ∷ (codes "protocol", str inb.protocol)
      ∷ (codes "tag", str inb.tag)
      ∷ [] in
    if inb.listen == [] then head else set_field (codes "listen") (str inb.listen) head

unfoldable pub build_inbound : ManagedInbound → Option JsonMap
unfolding is_buildable inbound_settings set_map inbound_head
build_inbound inb =
    if is_buildable inb
    then some (
        set_map (codes "sniffing") inb.sniffing (
          set_map (codes "streamSettings") inb.stream_settings
            (set_field (codes "settings") (object (inbound_settings inb)) (inbound_head inb))))
    else none

-- A document with one inbound.
abbrev pub one_inbound : JsonMap → JsonMap
one_inbound m = (codes "inbounds", array (object m ∷ [])) ∷ []

-- BuildInboundDocument, which `xray api adi` is given.
unfoldable pub build_inbound_document : ManagedInbound → Option JsonMap
build_inbound_document inb = elim (build_inbound inb) [
  | none ↦ none
  | some m ↦ some (one_inbound m)
]

-- The inbound with this user only, enabled.
unfoldable pub only_user : ManagedInbound → ManagedUser → ManagedInbound
only_user inb u = record inb { users = record u { enabled = true } ∷ [] }

-- BuildUserDocument, which `xray api adu` is given.
unfoldable pub build_user_document : ManagedInbound → ManagedUser → Option JsonMap
unfolding only_user build_inbound_document
build_user_document inb u = build_inbound_document (only_user inb u)
