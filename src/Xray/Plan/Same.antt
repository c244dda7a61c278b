-- ===== src/Xray/Plan/Same.antt =====
-- An inbound whose users are the same to usersRuntimeEqual of internal/xray/runtime.go: no user is
-- to be removed or added, and the clients under each email are the same.
use xnode_agent.Prelude.{
  ℕ, Bool, true, false, Option, none, some, List, [], ◌∷◌, Str, Map, lookup, has, lookup-index,
  lookup-index_unique, index-Distinct, has-index, In, inl, inr, ◌==◌, str_eq, nat_eq, int_eq,
  eq_iff, eq_refl, ◌≡◌, refl, ap, sym, ◌∙◌, arith, Bool-cases, Option-cases, length, In-filter,
  filter-In, same_keys,
}
use xnode_agent.Model.{ManagedUser, ManagedInbound}
use xnode_agent.Xray.Email.{accounting_email}
use xnode_agent.Xray.Config.Inbound.{active_users, client_of}
use xnode_agent.Xray.Plan.Equal.{
  user_by_id, user_runtime_equal, same_flag, user_same, users_in, users_runtime_equal,
}
use xnode_agent.Xray.Plan.{removed_user, added_user}
use xnode_agent.Xray.Plan.First.{over, none-first_client, any_none}
use xnode_agent.Xray.Plan.Users.{HasUniqueEmails}
use xnode_agent.Xray.Plan.Hot.{removed_at, added_at, unique_ids, first_enabled}
use xnode_agent.Xray.Plan.Hot.Served.{left, served}

-- The users before and after have pairwise different emails, and one ID where they share an email.
pub record AreNamed (old next : ManagedInbound) : Type 0 where
  pub unique_old : HasUniqueEmails old old.users
  pub unique_next : HasUniqueEmails next next.users
  pub same :
      (a b : ManagedUser)
      → In a old.users
      → In b next.users
      → accounting_email a.id old.id ≡ accounting_email b.id next.id
      → a.id ≡ b.id

users_in-lookup :
    (bm am : Map Str ManagedUser) (k : Str) (a : ManagedUser)
    → users_in bm am ≡ true
    → lookup k am ≡ some a
    → user_same a (lookup k bm) ≡ true
unfolding users_in lookup
users_in-lookup bm [] k a h l = absurd (ground (arith, l))
users_in-lookup bm ((j, v) ∷ am) k a h l = elim (Bool-cases (j == k)) [
  | inl p ↦
      let q : v ≡ a = ground (arith, p, l) in
      ground (
        arith,
        h,
        ap (λ x. user_same v (lookup x bm)) ((eq_iff j k).0 p),
        ap (λ x. user_same x (lookup k bm)) q,
      )
  | inr p ↦ users_in-lookup bm am k a (ground (arith, h)) (ground (arith, p, l))
]

same_flag-eq : (x y : Bool) → same_flag x y ≡ true → x ≡ y
unfolding same_flag
same_flag-eq true y h = sym h
same_flag-eq false true h = absurd (ground (arith, h))
same_flag-eq false false h = refl

user_same-some :
    (a : ManagedUser) (o : Option ManagedUser)
    → user_same a o ≡ true
    → (b : ManagedUser) × (o ≡ some b) × (user_runtime_equal a b ≡ true) × (a.enabled ≡ b.enabled)
unfolding user_same
user_same-some a none h = absurd (ground (arith, h))
user_same-some a (some b) h =
    (b, refl, ground (arith, h), same_flag-eq a.enabled b.enabled (ground (arith, h)))

-- A list has an enabled user if and only if its active users are not empty.
In-not_empty : (u : ManagedUser) (us : List ManagedUser) → In u us → (length us == 0) ≡ false
In-not_empty u [] m = absurd m
In-not_empty u (v ∷ vs) m = ground (arith, eq_iff (length (v ∷ vs)) 0)

some_active :
    (us vs : List ManagedUser)
    → ((u : ManagedUser)
        → In u us
        → u.enabled ≡ true
        → (v : ManagedUser) × In v vs × (v.enabled ≡ true))
    → (length (active_users vs) == 0) ≡ true
    → (length (active_users us) == 0) ≡ true
unfolding active_users
some_active us vs h z = go (active_users us) (λ u. In-filter (λ x. x.enabled) u us)
  where
    go :
        (xs : List ManagedUser)
        → ((u : ManagedUser) → In u xs → In u us × (u.enabled ≡ true))
        → (length xs == 0) ≡ true
    go [] k = eq_refl {K = ℕ} 0
    go (x ∷ xs) k =
        let (v, m, on) = h x (k x (inl refl)).0 (k x (inl refl)).1 in
        absurd (ground (arith, z, In-not_empty v _ (filter-In (λ w. w.enabled) v vs m on)))

module _ (old next : ManagedInbound) (si : next.id ≡ old.id) (named : AreNamed old next)
    (equal : users_runtime_equal old.users next.users ≡ true) where
  open named use {unique_old, unique_next, same}

  -- Each old user is found among the new ones, and the other way round.
  found_next :
      (o : ManagedUser)
      → In o old.users
      → (n : ManagedUser) × (lookup o.id (user_by_id next.users) ≡ some n)
        × (user_runtime_equal o n ≡ true)
        × (o.enabled ≡ n.enabled)
  unfolding users_runtime_equal
  found_next o m = user_same-some o _ (
      users_in-lookup (user_by_id next.users) (user_by_id old.users) o.id o (ground (arith, equal))
        (lookup-index_unique (λ x. x.id) old.users o (unique_ids old old.users unique_old) m))

  has_next : (k : Str) → has k (user_by_id old.users) ≡ true → has k (user_by_id next.users) ≡ true
  has_next k h = elim (Option-cases (lookup k (user_by_id old.users))) [
    | inl q ↦ absurd (ground (arith, h, q))
    | inr (o, q) ↦
        let (m, i) = lookup-index (λ x. x.id) old.users k o q in
        let (n, p, r, f) = found_next o m in
        ground (arith, p, ap (λ x. lookup x (user_by_id next.users)) i)
  ]

  found_old :
      (n : ManagedUser)
      → In n next.users
      → (o : ManagedUser) × (lookup n.id (user_by_id old.users) ≡ some o)
        × In o old.users
        × (user_runtime_equal o n ≡ true)
        × (o.enabled ≡ n.enabled)
  unfolding users_runtime_equal
  found_old n m =
      let there =
        same_keys (user_by_id old.users) (user_by_id next.users)
          (index-Distinct (λ x. x.id) old.users) (index-Distinct (λ x. x.id) next.users)
          (ground
            (arith, equal, eq_iff (length (user_by_id old.users)) (length (user_by_id next.users))))
          has_next n.id (has-index (λ x. x.id) next.users n m) in
      elim (Option-cases (lookup n.id (user_by_id old.users))) [
        | inl q ↦ absurd (ground (arith, there, q))
        | inr (o, q) ↦
            let (mo, i) = lookup-index (λ x. x.id) old.users n.id o q in
            let (b, p, r, f) = found_next o mo in
            let is : some n ≡ some b =
              sym (
                lookup-index_unique (λ x. x.id) next.users n
                  (unique_ids next next.users unique_next) m)
              ∙ ap (λ x. lookup x (user_by_id next.users)) (sym i)
              ∙ p in
            let e : b ≡ n = ground (arith, is) in
            (o, q, mo, ap (user_runtime_equal o) (sym e) ∙ r, f ∙ ap (λ x. x.enabled) e)
      ]

  not_removed :
      (e : Str) (o : ManagedUser)
      → In o old.users
      → removed_at old next si unique_old unique_next same e o ≡ false
  unfolding removed_user
  not_removed e o m = let (n, p, r, f) = found_next o m in ground (arith, p, r, f)

  not_added :
      (e : Str) (n : ManagedUser)
      → In n next.users
      → added_at old next si unique_old unique_next same e n ≡ false
  unfolding added_user
  not_added e n m = let (o, p, i, r, f) = found_old n m in ground (arith, p, r, f)

  -- Under each email both have the same client.
  pub same_clients : (e : Str) → first_enabled old e ≡ first_enabled next e
  unfolding over
  same_clients e =
      sym (
        rw
          (any_none (removed_at old next si unique_old unique_next same e) old.users
            (not_removed e))
          refl)
      ∙ sym (
          ap (λ o. over o (left old next si unique_old unique_next same e))
            (none-first_client (client_of next) (added_at old next si unique_old unique_next same e)
              next.users (not_added e)))
      ∙ served old next si unique_old unique_next same e

  -- Both have an enabled user, or neither has.
  pub same_active : (length (active_users old.users) == 0) ≡ (length (active_users next.users) == 0)
  same_active = ground (
    arith,
    some_active old.users next.users (λ o m on.
        let (n, p, r, f) = found_next o m in
        let (mn, i) = lookup-index (λ x. x.id) next.users o.id n p in (n, mn, sym f ∙ on)),
    some_active next.users old.users
        (λ n m on. let (o, p, mo, r, f) = found_old n m in (o, mo, f ∙ on)),
  )
