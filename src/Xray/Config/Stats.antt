-- ===== src/Xray/Config/Stats.antt =====
-- statsLevels of internal/xray/builder.go and PlanRuntime of internal/xray/runtime.go: the levels that the
-- core was started with, and those of the users that a hot reload gives it.
use mathlib.Core.List.{foldl}
use xnode_agent.Prelude.{any, ◌==◌, eq_iff}
use xnode_agent.Prelude.{
  refl, str_eq, lookup, List, In, ℤ, int_eq, ◌≡◌, show_int, arith, ◌∷◌, [], inl, inr, true, none,
  some, Bool-cases, In-append, show_nat, subst, Str, if◌then◌else◌, digits, Option, dec_eq,
  Str-discrete, codes,
}
use xnode_agent.Model.{ManagedUser, ManagedInbound, DesiredState}
use xnode_agent.Model.Values.{Json, JsonMap, set_field, lookup-set_field, lookup-set_field_same}
use xnode_agent.Xray.Plan.{
  user_levels, inbound_levels, active_levels, first_new_level, plan_runtime, operations, RuntimeOp,
}
use xnode_agent.Xray.Config.Levels.{level_policy, add_level, stats_levels}

-- The core keeps statistics for the users of the level.
abbrev pub HasStats : ℤ → JsonMap → Type 0
HasStats l levels = lookup (show_int l) levels ≡ some level_policy

set_level_keeps :
    (l k : ℤ) (levels : JsonMap)
    → HasStats l levels
    → HasStats l (set_field (show_int k) level_policy levels)
set_level_keeps l k levels h =
    ground (arith, h, lookup-set_field (show_int k) (show_int l) level_policy levels)

add_level_keeps :
    (l : ℤ) (levels : JsonMap) (u : ManagedUser)
    → HasStats l levels
    → HasStats l (add_level levels u)
unfolding add_level
add_level_keeps l levels u h = ground (arith, h, set_level_keeps l u.level levels h)

users_keep :
    (l : ℤ) (us : List ManagedUser) (levels : JsonMap)
    → HasStats l levels
    → HasStats l (foldl add_level levels us)
users_keep l [] levels h = h
users_keep l (u ∷ us) levels h = users_keep l us (add_level levels u) (add_level_keeps l levels u h)

add_level_sets :
    (levels : JsonMap) (u : ManagedUser) → u.enabled ≡ true → HasStats u.level (add_level levels u)
unfolding add_level
add_level_sets levels u h = rw h (lookup-set_field_same (show_int u.level) level_policy levels)

users_stats :
    (l : ℤ) (us : List ManagedUser) (levels : JsonMap)
    → In l (user_levels us)
    → HasStats l (foldl add_level levels us)
unfolding user_levels
users_stats l [] levels i = absurd i
users_stats l (u ∷ us) levels i = elim (Bool-cases u.enabled) [
  | inl h ↦ elim (subst (λ b. In l (if b then u.level ∷ user_levels us else user_levels us)) h i) [
    | inl p ↦
        users_keep l us (add_level levels u)
          (subst (λ k. HasStats k (add_level levels u)) p (add_level_sets levels u h))
    | inr j ↦ users_stats l us (add_level levels u) j
  ]
  | inr h ↦
      users_stats l us (add_level levels u)
        (subst (λ b. In l (if b then u.level ∷ user_levels us else user_levels us)) h i)
]

inbounds_keep :
    (l : ℤ) (ins : List ManagedInbound) (levels : JsonMap)
    → HasStats l levels
    → HasStats l (foldl (λ m (inb : ManagedInbound). foldl add_level m inb.users) levels ins)
inbounds_keep l [] levels h = h
inbounds_keep l (inb ∷ ins) levels h =
    inbounds_keep l ins (foldl add_level levels inb.users) (users_keep l inb.users levels h)

inbounds_stats :
    (l : ℤ) (ins : List ManagedInbound) (levels : JsonMap)
    → In l (inbound_levels ins)
    → HasStats l (foldl (λ m (inb : ManagedInbound). foldl add_level m inb.users) levels ins)
unfolding inbound_levels
inbounds_stats l [] levels i = absurd i
inbounds_stats l (inb ∷ ins) levels i =
    elim (In-append l (user_levels inb.users) (inbound_levels ins) i) [
      | inl h ↦
          inbounds_keep l ins (foldl add_level levels inb.users) (users_stats l inb.users levels h)
      | inr h ↦ inbounds_stats l ins (foldl add_level levels inb.users) h
    ]

stats_levels-active :
    (state : DesiredState) (l : ℤ) → In l (active_levels state) → HasStats l (stats_levels state)
unfolding active_levels stats_levels show_int show_nat digits lookup dec_eq Str-discrete
stats_levels-active state l (inl p) =
    inbounds_keep l state.inbounds _
      (subst (λ k. HasStats k ((codes "0", level_policy) ∷ [])) p refl)
stats_levels-active state l (inr i) = inbounds_stats l state.inbounds _ i

any-In : (l : ℤ) (ls : List ℤ) → any (λ k. k == l) ls ≡ true → In l ls
unfolding any
any-In l [] h = ground (arith, h)
any-In l (k ∷ ks) h = ground (arith, h, eq_iff k l, any-In l ks)

first_new_level-known :
    (known ls : List ℤ) (l : ℤ) → first_new_level known ls ≡ none → In l ls → In l known
unfolding first_new_level
first_new_level-known known [] l h i = absurd i
first_new_level-known known (k ∷ ls) l h i = elim (Bool-cases (any (λ x. x == k) known)) [
  | inl p ↦ elim i [
    | inl e ↦ subst (λ x. In x known) e (any-In k known p)
    | inr j ↦ first_new_level-known known ls l (ground (arith, h, p)) j
  ]
  | inr p ↦ absurd (ground (arith, h, p))
]

-- Where the plan is a list of runtime operations, the core that was started with the previous state keeps
-- traffic and online statistics at the level of every enabled user of the desired state.
pub plan_runtime_levels :
    (decode : Str → Option Json) (previous desired : DesiredState) (ops : List RuntimeOp) (l : ℤ)
    → plan_runtime decode previous desired ≡ operations ops
    → In l (inbound_levels desired.inbounds)
    → HasStats l (stats_levels previous)
unfolding plan_runtime
plan_runtime_levels decode previous desired ops l h i = stats_levels-active previous l (
    first_new_level-known (active_levels previous) (inbound_levels desired.inbounds) l
      (ground (arith, h)) i)
