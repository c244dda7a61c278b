-- ===== src/Xray/Plan.antt =====
-- PlanRuntime of internal/xray/runtime.go: the operations on a running core that take it from the
-- previous state to the desired one, or the demand for a restart. What json.Unmarshal makes of a raw
-- message is the parameter `decode`.
pub mod Equal
pub mod Apply
pub mod First
pub mod Users
pub mod Hot
pub mod Same
pub mod Runs
pub mod Refines
pub mod Between
pub mod Step
pub mod Loops
pub mod Apart
pub mod Whole
pub mod Laws
use xnode_agent.Prelude.{
  ℤ, pos, Bool, true, false, not, ◌&&◌, ◌||◌, Option, none, some, List, [], ◌∷◌, ◌++◌, Str, codes,
  to_lower, Map, lookup, has, any, if◌then◌else◌, ◌==◌, str_eq, int_eq,
}
use xnode_agent.Model.{ManagedUser, ManagedInbound, DesiredState}
use xnode_agent.Model.Values.{Json}
use xnode_agent.Xray.Email.{accounting_email}
use Equal.{
  user_by_id, inbound_by_id, inbound_base_equal, user_runtime_equal, users_runtime_equal,
  runtime_global_equal,
}

pub data RuntimeOp : Type 0 where
  add_inbound : ManagedInbound → RuntimeOp
  remove_inbound : Str → RuntimeOp
  replace_inbound : Str → ManagedInbound → RuntimeOp
  add_user : ManagedInbound → ManagedUser → RuntimeOp
  remove_user : Str → Str → RuntimeOp

-- Why a restart is needed, as the cases of RuntimePlan.Reason.
pub data Reason : Type 0 where
  global_changed : Reason
  new_level : ℤ → Reason

-- The operations, or RequiresRestart with its reason.
pub data RuntimePlan : Type 0 where
  operations : List RuntimeOp → RuntimePlan
  restart : Reason → RuntimePlan

unfoldable pub supports_hot_users : ManagedInbound → Bool
supports_hot_users inb =
    let p = to_lower inb.protocol in
    p == codes "vless" || p == codes "vmess" || p == codes "trojan" || p == codes "shadowsocks"

-- The keys of activeLevels: 0 and the levels of the enabled users.
unfoldable pub user_levels : List ManagedUser → List ℤ
user_levels [] = []
user_levels (u ∷ us) = let rest = user_levels us in if u.enabled then u.level ∷ rest else rest

unfoldable pub inbound_levels : List ManagedInbound → List ℤ
unfolding user_levels
inbound_levels [] = []
inbound_levels (inb ∷ rest) = user_levels inb.users ++ inbound_levels rest

unfoldable pub active_levels : DesiredState → List ℤ
unfolding inbound_levels
active_levels state = pos 0 ∷ inbound_levels state.inbounds

-- The level of the first enabled desired user whose level the core was not started with.
unfoldable pub first_new_level : List ℤ → List ℤ → Option ℤ
first_new_level known [] = none
first_new_level known (l ∷ ls) =
    let rest = first_new_level known ls in if any (λ k. k == l) known then rest else some l

-- An enabled old user that is gone, disabled or changed is removed.
unfoldable pub removed_user : ManagedInbound → Map Str ManagedUser → ManagedUser → Bool
removed_user old new_users u = u.enabled && (elim (lookup u.id new_users) [
  | none ↦ true
  | some n ↦ not n.enabled || not (user_runtime_equal u n)
])

unfoldable pub remove_users :
    ManagedInbound → Map Str ManagedUser → List ManagedUser → List RuntimeOp
unfolding removed_user
remove_users old new_users [] = []
remove_users old new_users (u ∷ us) =
    let rest = remove_users old new_users us in
    if removed_user old new_users u
    then remove_user old.tag (accounting_email u.id old.id) ∷ rest
    else rest

-- An enabled new user that is new, was disabled or is changed is added.
unfoldable pub added_user : Map Str ManagedUser → ManagedUser → Bool
added_user old_users u = u.enabled && (elim (lookup u.id old_users) [
  | none ↦ true
  | some o ↦ not o.enabled || not (user_runtime_equal o u)
])

unfoldable pub add_users : ManagedInbound → Map Str ManagedUser → List ManagedUser → List RuntimeOp
unfolding added_user
add_users next old_users [] = []
add_users next old_users (u ∷ us) =
    let rest = add_users next old_users us in
    if added_user old_users u then add_user next u ∷ rest else rest

-- The operations for an inbound that stays.
unfoldable pub plan_existing : ManagedInbound → ManagedInbound → List RuntimeOp
unfolding supports_hot_users remove_users add_users
plan_existing old next =
    if not (inbound_base_equal old next)
    then replace_inbound old.tag next ∷ []
    else if users_runtime_equal old.users next.users
    then []
    else if not (supports_hot_users next)
    then replace_inbound old.tag next ∷ []
    else remove_users old (user_by_id next.users) old.users
      ++ add_users next (user_by_id old.users) next.users

unfoldable pub plan_inbound : Option ManagedInbound → ManagedInbound → List RuntimeOp
plan_inbound none next = add_inbound next ∷ []
plan_inbound (some old) next = plan_existing old next

unfoldable pub plan_inbounds : Map Str ManagedInbound → List ManagedInbound → List RuntimeOp
unfolding plan_inbound
plan_inbounds previous [] = []
plan_inbounds previous (next ∷ rest) =
    plan_inbound (lookup next.id previous) next ++ plan_inbounds previous rest

unfoldable pub remove_inbounds : Map Str ManagedInbound → List ManagedInbound → List RuntimeOp
remove_inbounds desired [] = []
remove_inbounds desired (old ∷ rest) =
    let later = remove_inbounds desired rest in
    if has old.id desired then later else remove_inbound old.tag ∷ later

unfoldable pub plan_runtime : (Str → Option Json) → DesiredState → DesiredState → RuntimePlan
unfolding plan_inbounds remove_inbounds active_levels first_new_level
plan_runtime decode previous desired =
    if not (runtime_global_equal decode previous desired)
    then restart global_changed
    else elim (first_new_level (active_levels previous) (inbound_levels desired.inbounds)) [
      | some l ↦ restart (new_level l)
      | none ↦ operations (
          remove_inbounds (inbound_by_id desired.inbounds) previous.inbounds
          ++ plan_inbounds (inbound_by_id previous.inbounds) desired.inbounds)
    ]
