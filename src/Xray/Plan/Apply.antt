-- ===== src/Xray/Plan/Apply.antt =====
-- ApplyRuntime of internal/xray/runtime.go over an interface of the running core: what its API calls
-- adi, rmi, adu and rmu do, as the core documents them. The documents come from
-- internal/xray/builder.go; the temporary file that a command reads them from is left out.
use xnode_agent.Prelude.{
  true, ◌&&◌, Option, none, some, List, [], ◌∷◌, Str, codes, lookup, to_lower, if◌then◌else◌, ◌==◌,
  str_eq, ◌≡◌, ap,
}
use xnode_agent.Model.{ManagedUser, ManagedInbound}
use xnode_agent.Model.Values.{Json, JsonMap, str}
use xnode_agent.Xray.Config.Inbound.{
  takes_clients, one_inbound, build_inbound_document, build_user_document,
}
use xnode_agent.Xray.Config.Document.{has_email, find_entry, entries_of, clients_of, without_users}
use xnode_agent.Xray.Plan.{
  RuntimeOp, RuntimePlan, add_inbound, remove_inbound, replace_inbound, add_user, remove_user,
  operations, restart,
}

-- The running core, by its API. A call that fails returns `none`.
pub record Core : Type 1 where
  pub State : Type 0
  -- The inbound under a tag, but for its users, and the user under a tag and an email.
  pub rest : Str → State → Option (JsonMap × JsonMap)
  pub find : Str → Str → State → Option Json
  -- The user under an email that the core makes of an inbound's document.
  pub users : JsonMap → Str → Option Json
  -- The core can start the inbound beside what it runs: its port is free, and such.
  pub Accepts : JsonMap → State → Type 0
  pub adi : JsonMap → State → Option State
  pub rmi : Str → State → Option State
  pub adu : JsonMap → State → Option State
  pub rmu : Str → Str → State → Option State
  pub users_clients :
      (m : JsonMap) (p e : Str)
      → lookup (codes "protocol") m ≡ some (str p)
      → takes_clients (to_lower p) ≡ true
      → users m e ≡ find_entry e (clients_of m)
  pub users_peers :
      (m : JsonMap) (p e : Str)
      → lookup (codes "protocol") m ≡ some (str p)
      → (to_lower p == codes "wireguard") ≡ true
      → users m e ≡ find_entry e (entries_of (codes "peers") m)
  -- A user belongs to an inbound.
  pub find_gone : (tag email : Str) (s : State) → rest tag s ≡ none → find tag email s ≡ none
  -- An inbound with a new tag is added with its users, and no other changes.
  pub adi_new :
      (m : JsonMap) (tag : Str) (s : State)
      → lookup (codes "tag") m ≡ some (str tag)
      → Accepts m s
      → rest tag s ≡ none
      → (s' : State) × (adi (one_inbound m) s ≡ some s')
        × ((t : Str) → rest t s' ≡ (if t == tag then some (without_users m) else rest t s))
        × ((t e : Str) → find t e s' ≡ (if t == tag then users m e else find t e s))
  -- An inbound that the core has is removed, and no other.
  pub rmi_known :
      (tag : Str) (r : JsonMap × JsonMap) (s : State)
      → rest tag s ≡ some r
      → (s' : State) × (rmi tag s ≡ some s')
        × ((t : Str) → rest t s' ≡ (if t == tag then none else rest t s))
        × ((t e : Str) → find t e s' ≡ (if t == tag then none else find t e s))
  -- A user that the core has is removed, and no other.
  pub rmu_known :
      (tag email : Str) (c : Json) (s : State)
      → find tag email s ≡ some c
      → (s' : State) × (rmu tag email s ≡ some s')
        × ((t : Str) → rest t s' ≡ rest t s)
        × ((t e : Str) → find t e s' ≡ (if t == tag && e == email then none else find t e s))
  -- The one user of the document of an inbound that takes users, and that the core runs, is added if
  -- the core does not have it, and no other changes.
  pub adu_new :
      (m : JsonMap) (tag p : Str) (c : Json) (email : Str) (s : State)
      → lookup (codes "tag") m ≡ some (str tag)
      → lookup (codes "protocol") m ≡ some (str p)
      → takes_clients (to_lower p) ≡ true
      → clients_of m ≡ c ∷ []
      → has_email email c ≡ true
      → rest tag s ≡ some (without_users m)
      → find tag email s ≡ none
      → (s' : State) × (adu (one_inbound m) s ≡ some s')
        × ((t : Str) → rest t s' ≡ rest t s)
        × ((t e : Str) → find t e s' ≡ (if t == tag && e == email then some c else find t e s))

module _ (core : Core) where
  open core use {State, adi, rmi, adu, rmu}

  unfoldable pub add_inbound_runtime : ManagedInbound → State → Option State
  add_inbound_runtime inb s = elim (build_inbound_document inb) [
    | none ↦ none
    | some doc ↦ adi doc s
  ]

  unfoldable pub add_user_runtime : ManagedInbound → ManagedUser → State → Option State
  add_user_runtime inb u s = elim (build_user_document inb u) [ none ↦ none | some doc ↦ adu doc s ]

  unfoldable pub apply_op : RuntimeOp → State → Option State
  unfolding add_inbound_runtime add_user_runtime
  apply_op (add_inbound inb) s = add_inbound_runtime inb s
  apply_op (remove_inbound tag) s = rmi tag s
  apply_op (replace_inbound tag inb) s = elim (rmi tag s) [
    | none ↦ none
    | some s' ↦ add_inbound_runtime inb s'
  ]
  apply_op (add_user inb u) s = add_user_runtime inb u s
  apply_op (remove_user tag email) s = rmu tag email s

  -- In order, up to the first failure.
  unfoldable pub apply_ops : List RuntimeOp → State → Option State
  unfolding apply_op
  apply_ops [] s = some s
  apply_ops (op ∷ ops) s = elim (apply_op op s) [ none ↦ none | some s' ↦ apply_ops ops s' ]

  unfoldable pub apply_runtime : RuntimePlan → State → Option State
  unfolding apply_ops
  apply_runtime (operations ops) s = apply_ops ops s
  apply_runtime (restart r) s = none

  -- A call of the core that works goes on with the rest.
  pub apply_ops_step :
      (op : RuntimeOp) (ops : List RuntimeOp) (s s' : State)
      → apply_op op s ≡ some s'
      → apply_ops (op ∷ ops) s ≡ apply_ops ops s'
  unfolding apply_ops
  apply_ops_step op ops s s' h =
      ap (λ (o : Option State). elim o [ none ↦ none | some x ↦ apply_ops ops x ]) h
