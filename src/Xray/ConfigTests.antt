-- ===== src/Xray/ConfigTests.antt =====
-- The configuration of a small node.
use xnode_agent.Prelude.{
  lookup, arith, some, filter, none, some, [], ◌∷◌, Str, Option, codes, ◌≡◌, ◌≢◌, ◌↔◌, refl,
  to_lower, dec_eq, is_yes, Str-discrete, ℕ_discrete, str_eq,
}
use xnode_agent.Model.{DesiredState}
use xnode_agent.Model.Values.{Json, JsonMap, str, num, null, set_field, object}
use xnode_agent.Samples.{phone, laptop, late, heavy, inbound, state}
use xnode_agent.Xray.Email.{sanitize, accounting_email}
use xnode_agent.Xray.Config.Inbound.{
  is_buildable, build_inbound, inbound_head, inbound_settings, set_map, takes_clients,
}
use xnode_agent.Xray.Config.Routing.{
  routing_from, build_routing, panics, managed_rules, build_routing-panics,
}
use xnode_agent.Xray.Config.Served.{credential_of, build_inbound_serves}
use xnode_agent.Xray.Config.Document.{find_entry, clients_of}

-- A user with an outbound of its own, and a routing of `null`.
abbrev routed : DesiredState
routed = record state {
  inbounds = record inbound { users = record phone { outbound_tag = codes "out" } ∷ [] } ∷ [];
  routing = codes "null";
}

abbrev decode_null : Str → Option Json
decode_null raw = some null

build_routing-panics_example : (build_routing decode_null routed ≡ panics) ↔ (
    (routed.routing ≢ [])
    × (decode_null routed.routing ≡ some null)
    × (managed_rules routed.inbounds ≢ []))
build_routing-panics_example = build_routing-panics decode_null routed

routed_panics : build_routing decode_null routed ≡ panics
unfolding build_routing managed_rules routing_from filter dec_eq is_yes Str-discrete ℕ_discrete
routed_panics = refl

abbrev phone_email : Str
phone_email = codes "u:phone|i:in"

abbrev inbound_document : JsonMap
inbound_document = set_map (codes "sniffing") none (
    set_map (codes "streamSettings") none
      (set_field (codes "settings") (object (inbound_settings inbound)) (inbound_head inbound)))

build_inbound_serves_example :
    (fields : JsonMap) × (find_entry phone_email (clients_of inbound_document)
      ≡ some (object fields))
    × (lookup (codes "email") fields ≡ some (str phone_email))
    × (lookup (codes "level") fields ≡ some (num phone.level))
    × (lookup (codes "id") fields ≡ lookup (codes "id") (credential_of phone))
unfolding build_inbound is_buildable takes_clients to_lower dec_eq is_yes Str-discrete ℕ_discrete
    accounting_email sanitize
build_inbound_serves_example =
    build_inbound_serves inbound inbound_document [] (laptop ∷ late ∷ heavy ∷ []) phone (codes "id")
      refl refl refl refl (λ v i. absurd i) (λ e. ground (arith, e)) (λ e. ground (arith, e))
