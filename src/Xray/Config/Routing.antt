-- ===== src/Xray/Config/Routing.antt =====
-- buildRouting of internal/xray/builder.go: a rule for each enabled user with an outbound of its own,
-- before the rules of the desired state. The raw routing `null` makes the map nil, to which an
-- assignment panics.
use xnode_agent.Prelude.{
  arith, eq_iff, refl, str_eq, nat_eq, Str, codes, Bool, List, Option, [], map, ◌∷◌, ◌&&◌, some,
  lookup, if◌then◌else◌, ◌≡◌, ◌==◌, ◌++◌, not, filter, none, length, ◌↔◌, ◌||◌, ◌≢◌,
}
use xnode_agent.Model.{ManagedUser, ManagedInbound, DesiredState}
use xnode_agent.Model.Values.{
  Json, JsonMap, null, bool, num, arr, str, array, object, as_array, of_fields, set_field, obj,
}
use xnode_agent.Xray.Email.{accounting_email}

-- What a function returns that may also panic.
pub data Built {ℓ} (A : Type ℓ) : Type ℓ where
  built : A → Built A
  failed : Built A
  panics : Built A

unfoldable pub sanitize_tag : Str → Str
sanitize_tag = map (λ c. if c == b' ' || c == b'>' || c == b'|' || c == b'/' then b'_' else c)

unfoldable pub routing_rule : ManagedInbound → ManagedUser → Json
unfolding sanitize_tag
routing_rule inb u = object (
    (codes "outboundTag", str u.outbound_tag)
    ∷ (
      codes "ruleTag",
      str (codes "xnode-user-" ++ (sanitize_tag inb.id ++ (codes "-" ++ sanitize_tag u.id))),
    )
    ∷ (codes "type", str (codes "field"))
    ∷ (codes "user", array (str (accounting_email u.id inb.id) ∷ []))
    ∷ [])

unfoldable pub is_routed : ManagedUser → Bool
is_routed u = u.enabled && not (u.outbound_tag == [])

unfoldable pub user_rules : ManagedInbound → List ManagedUser → List Json
unfolding is_routed routing_rule
user_rules inb us = map (routing_rule inb) (filter is_routed us)

unfoldable pub managed_rules : List ManagedInbound → List Json
unfolding user_rules
managed_rules [] = []
managed_rules (inb ∷ rest) = user_rules inb inb.users ++ managed_rules rest

-- A map[string]any that may be nil.
abbrev pub GoMap : Type 0
GoMap = Option JsonMap

abbrev pub entries_of : GoMap → JsonMap
entries_of none = []
entries_of (some m) = m

-- json.Unmarshal into a map.
unfoldable pub unmarshal_map : Option Json → Option GoMap
unmarshal_map none = none
unmarshal_map (some null) = some none
unmarshal_map (some (obj fs)) = some (some (of_fields fs))
unmarshal_map (some _) = none

unfoldable pub existing_rules : GoMap → List Json
existing_rules base = elim (lookup (codes "rules") (entries_of base)) [
  | none ↦ []
  | some v ↦ elim (as_array v) [ none ↦ [] | some rules ↦ rules ]
]

-- base["rules"] = append(managed, existing...)
unfoldable pub set_rules : List Json → GoMap → Built (Option JsonMap)
unfolding existing_rules
set_rules managed none = panics
set_rules managed (some m) =
    built (some (set_field (codes "rules") (array (managed ++ existing_rules (some m))) m))

-- The routing from the decoded one; `none` where there is nothing to route.
unfoldable pub routing_from : List Json → GoMap → Built (Option JsonMap)
unfolding set_rules
routing_from [] base =
    if length (entries_of base) == 0 then built none else built (some (entries_of base))
routing_from (r ∷ rs) base = set_rules (r ∷ rs) base

unfoldable pub routing_base : (Str → Option Json) → Str → Option GoMap
unfolding unmarshal_map
routing_base decode raw = if raw == [] then some (some []) else unmarshal_map (decode raw)

unfoldable pub routing_of : List Json → Option GoMap → Built (Option JsonMap)
routing_of rules none = failed
routing_of rules (some base) = routing_from rules base

unfoldable pub build_routing : (Str → Option Json) → DesiredState → Built (Option JsonMap)
unfolding routing_base routing_of managed_rules
build_routing decode state =
    routing_of (managed_rules state.inbounds) (routing_base decode state.routing)

routing_from-nil :
    (rules : List Json) (base : GoMap)
    → (routing_from rules base ≡ panics) ↔ ((base ≡ none) × (rules ≢ []))
unfolding routing_from set_rules
routing_from-nil [] base = ground arith
routing_from-nil (r ∷ rs) none = (λ _. (refl, ground arith), λ _. refl)
routing_from-nil (r ∷ rs) (some m) = ground arith

unmarshal_map-nil : (v : Option Json) → (unmarshal_map v ≡ some none) ↔ (v ≡ some null)
unfolding unmarshal_map
unmarshal_map-nil none = ground arith
unmarshal_map-nil (some null) = ground arith
unmarshal_map-nil (some (bool b)) = ground arith
unmarshal_map-nil (some (num n)) = ground arith
unmarshal_map-nil (some (str s)) = ground arith
unmarshal_map-nil (some (arr a)) = ground arith
unmarshal_map-nil (some (obj a)) = ground arith

routing_of-nil :
    (rules : List Json) (base : Option GoMap)
    → (routing_of rules base ≡ panics) ↔ ((base ≡ some none) × (rules ≢ []))
unfolding routing_of
routing_of-nil rules none = ground arith
routing_of-nil rules (some base) = ground (arith, routing_from-nil rules base)

routing_base-nil :
    (decode : Str → Option Json) (raw : Str)
    → (routing_base decode raw ≡ some none) ↔ ((raw ≢ []) × (decode raw ≡ some null))
unfolding routing_base
routing_base-nil decode raw = ground (arith, unmarshal_map-nil (decode raw), eq_iff raw [])

-- buildRouting panics on a state whose raw routing is not empty and decodes to `null`, and which has a rule
-- to add for a user, and on no other state.
pub build_routing-panics :
    (decode : Str → Option Json) (state : DesiredState)
    → (build_routing decode state ≡ panics) ↔ (
        (state.routing ≢ [])
        × (decode state.routing ≡ some null)
        × (managed_rules state.inbounds ≢ []))
unfolding build_routing
build_routing-panics decode state = ground (
  arith,
  routing_of-nil (managed_rules state.inbounds) (routing_base decode state.routing),
  routing_base-nil decode state.routing,
)
