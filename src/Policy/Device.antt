-- ===== src/Policy/Device.antt =====
-- The device limit of Evaluate: the strictest cap of each account, then the loop that enforces it.
pub mod Room
use Prim.Native.Nat.{min}
use mathlib.Core.List.{foldl}
use xnode_agent.Prelude.{
  ltb, ℕ, ◌+◌, ◌-◌, ◌<◌, ◌≤◌, ℤ, pos, leb_ℤ, ltb_ℤ, ◌≤ℤ◌, ◌<ℤ◌, Bool, true, false, not, ◌&&◌, ◌||◌,
  Option, none, some, List, [], ◌∷◌, ◌++◌, Str, codes, Map, lookup, insert, lookup-insert, length,
  length-append, if◌then◌else◌, ◌==◌, str_eq, eq_iff, eq_refl, ◌≡◌, ◌≢◌, refl, ◌⊎◌, inl, inr, arith,
  count_if, In, Option-cases, Bool-cases,
}
use xnode_agent.Model.{ManagedUser, ManagedInbound, PolicyViolation}
use xnode_agent.Policy.Tightened.{Tightened, member}
use xnode_agent.Policy.Check.{block}

-- limitByAccount after one more user.
unfoldable pub note_limit : Map Str ℤ → ManagedUser → Map Str ℤ
note_limit limits u =
    if not u.enabled || u.account_id == [] || leb_ℤ u.limits.device_limit (pos 0)
    then limits
    else elim (lookup u.account_id limits) [
      | none ↦ insert u.account_id u.limits.device_limit limits
      | some n ↦
          if ltb_ℤ u.limits.device_limit n
          then insert u.account_id u.limits.device_limit limits
          else limits
    ]

unfoldable pub limit_by_account : List ManagedUser → Map Str ℤ
unfolding note_limit
limit_by_account = foldl note_limit []

-- limitByAccount[a], 0 for a missing account.
unfoldable pub account_limit : Map Str ℤ → Str → ℤ
account_limit limits a = elim (lookup a limits) [ none ↦ pos 0 | some n ↦ n ]

-- activeByAccount[a], 0 for a missing account.
unfoldable pub active_count : Map Str ℕ → Str → ℕ
active_count active a = elim (lookup a active) [ none ↦ 0 | some n ↦ n ]

-- One round of the enforcing loop: the new activeByAccount, the user and its violation.
unfoldable pub device_user :
    Map Str ℤ
    → ManagedInbound
    → Map Str ℕ
    → ManagedUser
    → Map Str ℕ × (ManagedUser × List PolicyViolation)
unfolding account_limit active_count block
device_user limits inb active u =
    let limit = account_limit limits u.account_id in
    let n = active_count active u.account_id + 1 in
    if not u.enabled || u.account_id == [] || leb_ℤ limit (pos 0)
    then (active, (u, []))
    else if ltb_ℤ limit (pos n)
    then (insert u.account_id n active, block inb u (codes "device_limit") (pos n) limit)
    else (insert u.account_id n active, (u, []))

unfoldable pub device_users :
    Map Str ℤ
    → ManagedInbound
    → Map Str ℕ
    → List ManagedUser
    → List ManagedUser × List PolicyViolation
device_users limits inb active [] = ([], [])
device_users limits inb active (u ∷ us) =
    let (active', r) = device_user limits inb active u in
    let (us', ws) = device_users limits inb active' us in (r.0 ∷ us', r.1 ++ ws)

-- The account has a positive cap of at most `d`.
abbrev pub IsCapped : Map Str ℤ → Str → ℤ → Type 0
IsCapped limits a d = (pos 0 <ℤ account_limit limits a) × (account_limit limits a ≤ℤ d)

-- Only positive caps are noted.
abbrev ArePositive : Map Str ℤ → Type 0
ArePositive limits = (a : Str) → (lookup a limits ≡ none) ⊎ (pos 0 <ℤ account_limit limits a)

note_limit-ArePositive :
    (limits : Map Str ℤ) (u : ManagedUser) → ArePositive limits → ArePositive (note_limit limits u)
unfolding note_limit account_limit
note_limit-ArePositive limits u h a =
    ground
      (arith, h a, lookup-insert u.account_id a u.limits.device_limit limits, eq_iff u.account_id a)

note_limit-IsCapped_old :
    (limits : Map Str ℤ) (u : ManagedUser) (a : Str) (d : ℤ)
    → IsCapped limits a d
    → IsCapped (note_limit limits u) a d
unfolding note_limit account_limit
note_limit-IsCapped_old limits u a d h =
    ground (arith, lookup-insert u.account_id a u.limits.device_limit limits, eq_iff u.account_id a)

-- An enabled user with an account and a cap.
pub record IsCapper (u : ManagedUser) : Type 0 where
  pub on : u.enabled ≡ true
  pub named : u.account_id ≢ []
  pub capped : pos 0 <ℤ u.limits.device_limit

note_limit-IsCapped_new :
    (limits : Map Str ℤ) (u : ManagedUser)
    → ArePositive limits
    → IsCapper u
    → IsCapped (note_limit limits u) u.account_id u.limits.device_limit
unfolding note_limit account_limit
note_limit-IsCapped_new limits u h c = ground (
  arith,
  h u.account_id,
  lookup-insert u.account_id u.account_id u.limits.device_limit limits,
  eq_iff u.account_id u.account_id,
  eq_iff u.account_id [],
)

module _ (limits : Map Str ℤ) (inb : ManagedInbound) where
  device_user_same :
      (active : Map Str ℕ) (u : ManagedUser)
      → (device_user limits inb active u).1.0
        ≡ record u { enabled = (device_user limits inb active u).1.0.enabled }
  unfolding device_user
  device_user_same active u = ground arith

  device_user_blocks :
      (active : Map Str ℕ) (u : ManagedUser)
      → length (device_user limits inb active u).1.1
          + (if (device_user limits inb active u).1.0.enabled then 1 else 0)
        ≡ (if u.enabled then 1 else 0)
  unfolding device_user
  device_user_blocks active u = ground arith

  module _ (a : Str) (n : ℕ) (named : a ≢ []) (cap : account_limit limits a ≡ pos n)
      (h : 0 < n) where
    active_count-device_user :
        (active : Map Str ℕ) (u : ManagedUser)
        → active_count (device_user limits inb active u).0 a
          ≡ active_count active a + (if member a u then 1 else 0)
    unfolding device_user active_count member
    active_count-device_user active u = ground (
      arith,
      eq_iff u.account_id a,
      eq_iff u.account_id [],
      lookup-insert u.account_id a (active_count active u.account_id + 1) active,
    )

    member-device_user :
        (active : Map Str ℕ) (u : ManagedUser)
        → member a (device_user limits inb active u).1.0
          ≡ (member a u && ltb (active_count active a) n)
    unfolding device_user member
    member-device_user active u = ground (arith, eq_iff u.account_id a, eq_iff u.account_id [])

    -- Of the account's enabled credentials, in order, those within what is left of the cap stay.
    pub count_if-device_users :
        (active : Map Str ℕ) (us : List ManagedUser)
        → count_if (member a) (device_users limits inb active us).0
          ≡ min (count_if (member a) us) (n - active_count active a)
    unfolding device_users count_if
    count_if-device_users active [] = omega arith
    count_if-device_users active (u ∷ us) = ground (
      arith,
      active_count-device_user active u,
      member-device_user active u,
      count_if-device_users (device_user limits inb active u).0 us,
    )

  pub device_users_blocks :
      (active : Map Str ℕ) (us : List ManagedUser)
      → length (device_users limits inb active us).1
          + count_if (λ u. u.enabled) (device_users limits inb active us).0
        ≡ count_if (λ u. u.enabled) us
  unfolding device_users count_if
  device_users_blocks active [] = omega arith
  device_users_blocks active (u ∷ us) = omega (
    arith,
    length-append (device_user limits inb active u).1.1
        (device_users limits inb (device_user limits inb active u).0 us).1,
    device_user_blocks active u,
    device_users_blocks (device_user limits inb active u).0 us,
  )

  pub device_users-Tightened :
      (active : Map Str ℕ) (us : List ManagedUser)
      → Tightened us (device_users limits inb active us).0
  unfolding device_users
  device_users-Tightened active [] = tt
  device_users-Tightened active (u ∷ us) = (
    device_user_same active u,
    ground (arith, device_user_blocks active u),
    device_users-Tightened (device_user limits inb active u).0 us,
  )

-- The caps of all users seen.
foldl-IsCapped_old :
    (limits : Map Str ℤ) (us : List ManagedUser) (a : Str) (d : ℤ)
    → IsCapped limits a d
    → IsCapped (foldl note_limit limits us) a d
foldl-IsCapped_old limits [] a d h = h
foldl-IsCapped_old limits (u ∷ us) a d h =
    foldl-IsCapped_old (note_limit limits u) us a d (note_limit-IsCapped_old limits u a d h)

foldl-IsCapped :
    (limits : Map Str ℤ) (u : ManagedUser) (us : List ManagedUser)
    → ArePositive limits
    → In u us
    → IsCapper u
    → IsCapped (foldl note_limit limits us) u.account_id u.limits.device_limit
foldl-IsCapped limits u [] h m c = absurd m
foldl-IsCapped limits u (v ∷ us) h (inl e) c =
    foldl-IsCapped_old (note_limit limits v) us u.account_id u.limits.device_limit
      (rw e (note_limit-IsCapped_new limits u h c))
foldl-IsCapped limits u (v ∷ us) h (inr m) c =
    foldl-IsCapped (note_limit limits v) u us (note_limit-ArePositive limits v h) m c

pub limit_by_account-IsCapped :
    (u : ManagedUser) (us : List ManagedUser)
    → In u us
    → IsCapper u
    → IsCapped (limit_by_account us) u.account_id u.limits.device_limit
unfolding limit_by_account
limit_by_account-IsCapped u us m c = foldl-IsCapped [] u us (λ a. unfold lookup in inl refl) m c
