-- ===== src/Policy/Device/Room.antt =====
-- Accounts with room for all their credentials, which the enforcing loop leaves alone; and where an
-- account's cap comes from.
use mathlib.Core.List.{foldl}
use xnode_agent.Prelude.{
  ℕ, ◌+◌, ℤ, pos, ◌≤ℤ◌, List, [], ◌∷◌, Str, Map, lookup, lookup-insert, str_eq, eq_iff, ◌≡◌, refl,
  ◌⊎◌, inl, inr, arith, count_if, In, ap, ◌∙◌, sym, subst,
}
use xnode_agent.Model.{ManagedUser, ManagedInbound, PolicyViolation}
use xnode_agent.Policy.Tightened.{member}
use xnode_agent.Policy.Device.{
  IsCapper, account_limit, active_count, note_limit, limit_by_account, device_user, device_users,
}

-- The account has no cap, or the cap has room for all its enabled credentials that are to come.
abbrev pub HasRoom : Map Str ℤ → Map Str ℕ → List ManagedUser → Str → Type 0
HasRoom limits active us a =
    (a ≡ [])
    ⊎ (account_limit limits a ≤ℤ pos 0)
    ⊎ (pos (active_count active a + count_if (member a) us) ≤ℤ account_limit limits a)

module _ (limits : Map Str ℤ) (inb : ManagedInbound) where
  device_user_keeps :
      (active : Map Str ℕ) (u : ManagedUser) (us : List ManagedUser)
      → HasRoom limits active (u ∷ us) u.account_id
      → (device_user limits inb active u).1 ≡ (u, [])
  unfolding device_user count_if member
  device_user_keeps active u us h =
      ground (arith, eq_iff u.account_id [], eq_iff u.account_id u.account_id)

  HasRoom-device_user :
      (active : Map Str ℕ) (u : ManagedUser) (us : List ManagedUser) (a : Str)
      → HasRoom limits active (u ∷ us) a
      → HasRoom limits (device_user limits inb active u).0 us a
  unfolding device_user count_if member
  HasRoom-device_user active u us a h = ground (
    arith,
    eq_iff u.account_id [],
    eq_iff u.account_id a,
    lookup-insert u.account_id a (active_count active u.account_id + 1) active,
  )

  -- A user whose account has room is returned as it came.
  pub device_users-In :
      (u : ManagedUser) (active : Map Str ℕ) (us : List ManagedUser)
      → In u us
      → HasRoom limits active us u.account_id
      → In u (device_users limits inb active us).0
  unfolding device_users
  device_users-In u active [] m h = absurd m
  device_users-In u active (v ∷ us) (inl e) h = inl (
      ap (λ (p : ManagedUser × List PolicyViolation). p.0)
        (device_user_keeps active v us
          (subst (λ (w : ManagedUser). HasRoom limits active (v ∷ us) w.account_id) (sym e) h))
      ∙ e)
  device_users-In u active (v ∷ us) (inr m) h = inr (
      device_users-In u (device_user limits inb active v).0 us m
        (HasRoom-device_user active v us u.account_id h))

  -- Where every account has room, nothing happens.
  pub device_users_keeps :
      (active : Map Str ℕ) (us : List ManagedUser)
      → ((a : Str) → HasRoom limits active us a)
      → device_users limits inb active us ≡ (us, [])
  unfolding device_users
  device_users_keeps active [] h = refl
  device_users_keeps active (u ∷ us) h = ground (
    arith,
    device_user_keeps active u us (h u.account_id),
    device_users_keeps (device_user limits inb active u).0 us
        (λ a. HasRoom-device_user active u us a (h a)),
  )

-- The cap of an account is the cap of one of its enabled users.
abbrev pub Attained : Map Str ℤ → Str → ManagedUser → Type 0
Attained limits a u =
    IsCapper u × (u.account_id ≡ a) × (u.limits.device_limit ≡ account_limit limits a)

note_limit-Attained :
    (limits : Map Str ℤ) (u : ManagedUser) (a : Str)
    → (account_limit (note_limit limits u) a ≡ account_limit limits a)
      ⊎ Attained (note_limit limits u) a u
unfolding note_limit account_limit
note_limit-Attained limits u a = ground (
  arith,
  lookup-insert u.account_id a u.limits.device_limit limits,
  eq_iff u.account_id a,
  eq_iff u.account_id [],
)

foldl-Attained :
    (limits : Map Str ℤ) (us : List ManagedUser) (a : Str)
    → (account_limit (foldl note_limit limits us) a ≡ account_limit limits a)
      ⊎ ((u : ManagedUser) × In u us × Attained (foldl note_limit limits us) a u)
foldl-Attained limits [] a = inl refl
foldl-Attained limits (u ∷ us) a = elim (foldl-Attained (note_limit limits u) us a) [
  | inl e ↦ elim (note_limit-Attained limits u a) [
    | inl e' ↦ inl (e ∙ e')
    | inr (c, n, l) ↦ inr (u, inl refl, (c, n, l ∙ sym e))
  ]
  | inr (v, m, at) ↦ inr (v, inr m, at)
]

pub limit_by_account-Attained :
    (us : List ManagedUser) (a : Str)
    → (account_limit (limit_by_account us) a ≡ pos 0)
      ⊎ ((u : ManagedUser) × In u us × Attained (limit_by_account us) a u)
unfolding limit_by_account account_limit lookup
limit_by_account-Attained us a = foldl-Attained [] us a
