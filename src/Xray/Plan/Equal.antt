-- ===== src/Xray/Plan/Equal.antt =====
-- The comparisons of internal/xray/runtime.go.
use xnode_agent.Prelude.{
  Bool, true, false, not, ◌&&◌, Option, none, some, List, [], ◌∷◌, ◌++◌, Str, str_lt, Map, lookup,
  index, length, sort, Comparable, of_discrete, if◌then◌else◌, ◌==◌, nat_eq, str_eq, int_eq,
  ℕ_discrete, ℤ-discrete,
}
use xnode_agent.Model.{ManagedUser, ManagedInbound, DesiredState}
use xnode_agent.Model.Values.{Json, JsonMap, json_eq, Json-discrete, JsonMap-discrete}

unfoldable pub ManagedUser-discrete : Discrete ManagedUser
unfolding ℕ_discrete ℤ-discrete JsonMap-discrete
ManagedUser-discrete = hlevel (ℕ_discrete, ℤ-discrete, JsonMap-discrete)

unfoldable pub ManagedInbound-discrete : Discrete ManagedInbound
unfolding ℕ_discrete ℤ-discrete Json-discrete JsonMap-discrete ManagedUser-discrete
ManagedInbound-discrete =
    hlevel (ℕ_discrete, ℤ-discrete, Json-discrete, JsonMap-discrete, ManagedUser-discrete)

instance abbrev pub inbound_eq : Comparable ManagedInbound
inbound_eq = of_discrete ManagedInbound-discrete

unfoldable pub Credential-discrete : Discrete (Option JsonMap)
unfolding JsonMap-discrete
Credential-discrete = hlevel JsonMap-discrete

instance abbrev pub credential_eq : Comparable (Option JsonMap)
credential_eq = of_discrete Credential-discrete

pub record Route : Type 0 where
  pub inbound_id : Str
  pub user_id : Str
  pub outbound_tag : Str
  pub enabled : Bool

unfoldable pub Routes-discrete : Discrete (List Route)
unfolding ℕ_discrete
Routes-discrete = hlevel ℕ_discrete

instance abbrev pub routes_eq : Comparable (List Route)
routes_eq = of_discrete Routes-discrete

-- Maps by ID, in which the last of an ID counts.
abbrev pub inbound_by_id : List ManagedInbound → Map Str ManagedInbound
inbound_by_id = index (λ inb. inb.id)

abbrev pub user_by_id : List ManagedUser → Map Str ManagedUser
user_by_id = index (λ u. u.id)

unfoldable pub inbound_base_equal : ManagedInbound → ManagedInbound → Bool
inbound_base_equal a b =
    let aa = record a { users = []; metadata = none } in
    let bb = record b { users = []; metadata = none } in aa == bb

unfoldable pub user_runtime_equal : ManagedUser → ManagedUser → Bool
user_runtime_equal a b = a.level == b.level && a.credential == b.credential

unfoldable pub same_flag : Bool → Bool → Bool
same_flag true e = e
same_flag false e = not e

unfoldable pub user_same : ManagedUser → Option ManagedUser → Bool
user_same a none = false
user_same a (some b) = user_runtime_equal a b && same_flag a.enabled b.enabled

-- The loop over the map of the first list.
unfoldable pub users_in : Map Str ManagedUser → Map Str ManagedUser → Bool
users_in bm [] = true
users_in bm ((id, au) ∷ am) = user_same au (lookup id bm) && users_in bm am

unfoldable pub users_runtime_equal : List ManagedUser → List ManagedUser → Bool
users_runtime_equal a b =
    length a == length b
    && length (user_by_id a) == length (user_by_id b)
    && users_in (user_by_id b) (user_by_id a)

unfoldable pub user_routes : ManagedInbound → List ManagedUser → List Route
user_routes inb [] = []
user_routes inb (u ∷ us) =
    let rest = user_routes inb us in
    if u.outbound_tag == []
    then rest
    else record {
      inbound_id = inb.id;
      user_id = u.id;
      outbound_tag = u.outbound_tag;
      enabled = u.enabled;
    }
      ∷ rest

unfoldable pub inbound_routes : List ManagedInbound → List Route
unfolding user_routes
inbound_routes [] = []
inbound_routes (inb ∷ rest) = user_routes inb inb.users ++ inbound_routes rest

unfoldable pub route_lt : Route → Route → Bool
route_lt a b =
    if a.inbound_id == b.inbound_id
    then str_lt a.user_id b.user_id
    else str_lt a.inbound_id b.inbound_id

unfoldable pub managed_routing_equal : DesiredState → DesiredState → Bool
unfolding inbound_routes route_lt
managed_routing_equal a b =
    sort route_lt (inbound_routes a.inbounds) == sort route_lt (inbound_routes b.inbounds)

module _ (decode : Str → Option Json) where
  unfoldable pub decoded_equal : Str → Str → Option Json → Option Json → Bool
  decoded_equal a b none bv = a == b
  decoded_equal a b (some av) none = a == b
  decoded_equal a b (some av) (some bv) = av == bv

  unfoldable pub bytes_json_equal : Str → Str → Bool
  unfolding decoded_equal
  bytes_json_equal a b =
      if length a == 0 && length b == 0 then true else decoded_equal a b (decode a) (decode b)

  unfoldable pub raw_messages_equal : List Str → List Str → Bool
  raw_messages_equal [] [] = true
  raw_messages_equal [] (b ∷ bs) = false
  raw_messages_equal (a ∷ as') [] = false
  raw_messages_equal (a ∷ as') (b ∷ bs) = bytes_json_equal a b && raw_messages_equal as' bs

  unfoldable pub runtime_global_equal : DesiredState → DesiredState → Bool
  runtime_global_equal a b =
      raw_messages_equal a.outbounds b.outbounds
      && bytes_json_equal a.routing b.routing
      && bytes_json_equal a.dns b.dns
      && managed_routing_equal a b
