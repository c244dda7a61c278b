-- ===== src/Xray/Plan/Laws.antt =====
-- What the plan promises: nothing to do for an unchanged state, and no level that the core does not know.
use xnode_agent.Prelude.{
  ℤ, true, Option, none, some, List, [], ◌∷◌, Str, Map, lookup, has, index-Distinct, has-index,
  lookup-index_unique, HasUniqueKeys, Distinct, any, length, sort, ◌==◌, str_eq, int_eq, nat_eq,
  eq_iff, eq_refl, ◌≡◌, refl, ap, arith, In, inl, inr, Bool-cases,
}
use xnode_agent.Model.{ManagedUser, ManagedInbound, DesiredState}
use xnode_agent.Model.Values.{Json, json_eq}
use xnode_agent.Xray.Plan.Equal.{
  user_by_id, inbound_by_id, route_lt, inbound_routes, inbound_base_equal, inbound_eq,
  credential_eq, routes_eq, same_flag, user_runtime_equal, user_same, users_in, users_runtime_equal,
  managed_routing_equal, decoded_equal, bytes_json_equal, raw_messages_equal, runtime_global_equal,
}
use xnode_agent.Xray.Plan.{
  operations, inbound_levels, active_levels, first_new_level, plan_existing, plan_inbound,
  plan_inbounds, remove_inbounds, plan_runtime,
}

user_same_refl : (u : ManagedUser) → user_same u (some u) ≡ true
unfolding user_same same_flag user_runtime_equal
user_same_refl u = ground (arith, eq_refl u.level, eq_refl u.credential)

lookup-here : (k : Str) (v : ManagedUser) (m : Map Str ManagedUser) → lookup k ((k, v) ∷ m) ≡ some v
unfolding lookup
lookup-here k v m = ground (arith, eq_refl k)

-- What a later entry holds is not hidden by an earlier one of another key.
lookup-later :
    (k id : Str) (u au : ManagedUser) (am : Map Str ManagedUser)
    → lookup id am ≡ none
    → lookup k am ≡ some u
    → lookup k ((id, au) ∷ am) ≡ some u
unfolding lookup
lookup-later k id u au am d e = elim (Bool-cases (id == k)) [
  | inl p ↦ absurd (ground (arith, p, d, e, ap (λ x. lookup x am) ((eq_iff id k).0 p)))
  | inr p ↦ rw p e
]

users_in_sub :
    (bm am : Map Str ManagedUser)
    → ((k : Str) (u : ManagedUser) → lookup k am ≡ some u → lookup k bm ≡ some u)
    → Distinct am
    → users_in bm am ≡ true
unfolding users_in lookup
users_in_sub bm [] h d = refl
users_in_sub bm ((id, au) ∷ am) h d = ground (
  arith,
  ap (user_same au) (h id au (lookup-here id au am)),
  user_same_refl au,
  users_in_sub bm am (λ k u e. h k u (lookup-later k id u au am d.0 e)) d.1,
)

users_runtime_equal_refl : (us : List ManagedUser) → users_runtime_equal us us ≡ true
unfolding users_runtime_equal
users_runtime_equal_refl us = ground (
  arith,
  eq_refl (length us),
  eq_refl (length (user_by_id us)),
  users_in_sub (user_by_id us) (user_by_id us) (λ k u e. e) (index-Distinct (λ u. u.id) us),
)

plan_existing_same : (inb : ManagedInbound) → plan_existing inb inb ≡ []
unfolding plan_existing inbound_base_equal
plan_existing_same inb = ground (
  arith,
  users_runtime_equal_refl inb.users,
  eq_refl (record inb { users = []; metadata = none }),
)

In-any : (l : ℤ) (ls : List ℤ) → In l ls → any (λ k. k == l) ls ≡ true
unfolding any
In-any l [] m = absurd m
In-any l (k ∷ ks) m = ground (arith, eq_iff k l, In-any l ks)

first_new_level-none :
    (known ls : List ℤ) → ((l : ℤ) → In l ls → In l known) → first_new_level known ls ≡ none
unfolding first_new_level
first_new_level-none known [] h = refl
first_new_level-none known (l ∷ ls) h =
    ground
      (arith, In-any l known (h l (inl refl)), first_new_level-none known ls (λ k m. h k (inr m)))

module _ (decode : Str → Option Json) where
  decoded_equal_refl : (a : Str) (o : Option Json) → decoded_equal decode a a o o ≡ true
  unfolding decoded_equal
  decoded_equal_refl a none = eq_refl a
  decoded_equal_refl a (some v) = eq_refl v

  bytes_json_equal_refl : (a : Str) → bytes_json_equal decode a a ≡ true
  unfolding bytes_json_equal
  bytes_json_equal_refl a = ground (arith, decoded_equal_refl a (decode a))

  raw_messages_equal_refl : (xs : List Str) → raw_messages_equal decode xs xs ≡ true
  unfolding raw_messages_equal
  raw_messages_equal_refl [] = refl
  raw_messages_equal_refl (x ∷ xs) =
      ground (arith, bytes_json_equal_refl x, raw_messages_equal_refl xs)

  runtime_global_equal_refl : (s : DesiredState) → runtime_global_equal decode s s ≡ true
  unfolding runtime_global_equal managed_routing_equal
  runtime_global_equal_refl s = ground (
    arith,
    raw_messages_equal_refl s.outbounds,
    bytes_json_equal_refl s.routing,
    bytes_json_equal_refl s.dns,
    eq_refl (sort route_lt (inbound_routes s.inbounds)),
  )

remove_inbounds_none :
    (m : Map Str ManagedInbound) (olds : List ManagedInbound)
    → ((inb : ManagedInbound) → In inb olds → has inb.id m ≡ true)
    → remove_inbounds m olds ≡ []
unfolding remove_inbounds
remove_inbounds_none m [] h = refl
remove_inbounds_none m (old ∷ rest) h =
    ground (arith, h old (inl refl), remove_inbounds_none m rest (λ inb i. h inb (inr i)))

plan_inbounds_none :
    (m : Map Str ManagedInbound) (nexts : List ManagedInbound)
    → ((inb : ManagedInbound) → In inb nexts → lookup inb.id m ≡ some inb)
    → plan_inbounds m nexts ≡ []
unfolding plan_inbounds plan_inbound
plan_inbounds_none m [] h = refl
plan_inbounds_none m (next ∷ rest) h =
    rw
      (
        h next (inl refl),
        plan_existing_same next,
        plan_inbounds_none m rest (λ inb i. h inb (inr i)),
      )
      refl

-- Where inbound IDs are unique, the plan from a state to the same state is to do nothing: no restart
-- and no operation, whatever its levels, users, routes and raw messages are.
pub plan_runtime_same :
    (decode : Str → Option Json) (s : DesiredState)
    → HasUniqueKeys (λ inb. inb.id) s.inbounds
    → plan_runtime decode s s ≡ operations []
unfolding plan_runtime active_levels
plan_runtime_same decode s u =
    rw
      (
        runtime_global_equal_refl decode s,
        first_new_level-none (active_levels s) (inbound_levels s.inbounds) (λ l i. inr i),
        remove_inbounds_none (inbound_by_id s.inbounds) s.inbounds
            (has-index (λ inb. inb.id) s.inbounds),
        plan_inbounds_none (inbound_by_id s.inbounds) s.inbounds
            (λ inb. lookup-index_unique (λ i. i.id) s.inbounds inb u),
      )
      refl
