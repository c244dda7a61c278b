-- ===== src/Xray/Plan/Hot.antt =====
-- The hot reload of one inbound's users, as a refinement: the operations that PlanRuntime gives take a
-- core that serves the previous users to one that serves the desired users.
pub mod Served
use xnode_agent.Prelude.{
  codes, Bool, true, false, not, ◌&&◌, ◌||◌, Option, none, some, List, [], ◌∷◌, ◌++◌, Str, Map,
  lookup, lookup-index, lookup-index_unique, In, inl, inr, if◌then◌else◌, ◌==◌, str_eq, int_eq,
  eq_iff, eq_refl, ◌≡◌, ◌≢◌, refl, ap, sym, ◌∙◌, arith, is_some, Bool-cases, Option-cases, All,
  All-In, HasUniqueKeys, unique_key, any, index,
}
use xnode_agent.Model.{ManagedUser, ManagedInbound}
use xnode_agent.Xray.Email.{accounting_email}
use xnode_agent.Xray.Plan.Equal.{
  user_by_id, inbound_base_equal, user_runtime_equal, users_runtime_equal, credential_eq,
  inbound_eq,
}
use xnode_agent.Xray.Plan.{
  RuntimeOp, operations, removed_user, added_user, remove_users, add_users, plan_existing,
  supports_hot_users,
}
use xnode_agent.Xray.Plan.First.{
  first_client, over, none-first_client, first_client-none, first_client-some, first_client_only,
  any_none, any_some,
}
use xnode_agent.Xray.Plan.Apply.{Core}
use xnode_agent.Model.Values.{Json, num, str, object, set_field}
use xnode_agent.Xray.Config.Inbound.{client_of, client_entry, clone_map}
use xnode_agent.Xray.Plan.Users.{
  HasUniqueEmails, is_removed, first_added, HasEnabled, HasRoomFor, remove_users_run, add_users_run,
}

-- The client of the first enabled user with the email.
abbrev pub first_enabled : ManagedInbound → Str → Option Json
first_enabled inb e =
    first_client (client_of inb) (λ u. u.enabled && accounting_email u.id inb.id == e) inb.users

-- Under each email of the inbound's tag the core has the client of the enabled user with that email, or
-- nothing.
abbrev pub Serves : (core : Core) → ManagedInbound → core.State → Type 0
Serves core inb s = (e : Str) → core.find inb.tag e s ≡ first_enabled inb e

pub unique_ids :
    (inb : ManagedInbound) (us : List ManagedUser)
    → HasUniqueEmails inb us
    → HasUniqueKeys (λ u. u.id) us
unique_ids inb [] h = tt
unique_ids inb (u ∷ us) h = (go us h.0, unique_ids inb us h.1)
  where
    go :
        (vs : List ManagedUser)
        → All (λ b. accounting_email b.id inb.id ≢ accounting_email u.id inb.id) vs
        → All (λ (b : ManagedUser). b.id ≢ u.id) vs
    go [] h = tt
    go (v ∷ vs) h = (λ e. h.0 (ap (λ i. accounting_email i inb.id) e), go vs h.1)

-- Users that are the same to the core give the same client.
pub user_runtime_equal_client :
    (old next : ManagedInbound) (a b : ManagedUser)
    → next.id ≡ old.id
    → a.id ≡ b.id
    → user_runtime_equal a b ≡ true
    → client_of old a ≡ client_of next b
unfolding user_runtime_equal client_entry
user_runtime_equal_client old next a b si k h =
    let l : a.level ≡ b.level = ground (arith, h, eq_iff a.level b.level) in
    let c : a.credential ≡ b.credential = ground (arith, h, eq_iff a.credential b.credential) in
    λ i. object (
      set_field (codes "level") (num (l i))
        (set_field (codes "email") (str (accounting_email (k i) (sym si i))) (clone_map (c i))))

module _ (old next : ManagedInbound) (si : next.id ≡ old.id) (uo : HasUniqueEmails old old.users)
    (un : HasUniqueEmails next next.users)
    (same : (a b : ManagedUser)
      → In a old.users
      → In b next.users
      → accounting_email a.id old.id ≡ accounting_email b.id next.id
      → a.id ≡ b.id) where
  abbrev pub removed_at : Str → ManagedUser → Bool
  removed_at e u = removed_user old (user_by_id next.users) u && accounting_email u.id old.id == e

  abbrev pub added_at : Str → ManagedUser → Bool
  added_at e u = added_user (user_by_id old.users) u && accounting_email u.id next.id == e

  abbrev pub old_at : Str → ManagedUser → Bool
  old_at e u = u.enabled && accounting_email u.id old.id == e

  abbrev pub new_at : Str → ManagedUser → Bool
  new_at e u = u.enabled && accounting_email u.id next.id == e

  mail :
      (a b : ManagedUser)
      → a.id ≡ b.id
      → accounting_email a.id next.id ≡ accounting_email b.id old.id
  mail a b h = ap (λ x. accounting_email x next.id) h ∙ ap (accounting_email b.id) si

  -- An enabled old user whose email no enabled new user has is removed.
  pub removed_gone :
      (e : Str) (u : ManagedUser)
      → first_client (client_of next) (new_at e) next.users ≡ none
      → In u old.users
      → old_at e u ≡ true
      → removed_at e u ≡ true
  unfolding removed_user
  removed_gone e u h m p = elim (Option-cases (lookup u.id (user_by_id next.users))) [
    | inl q ↦ ground (arith, p, q)
    | inr (n, q) ↦
        let (mn, k) = lookup-index (λ x. x.id) next.users u.id n q in
        ground (
          arith,
          p,
          q,
          first_client-none (client_of next) (new_at e) next.users n h mn,
          mail n u k,
          eq_iff (accounting_email n.id next.id) e,
          eq_iff (accounting_email u.id old.id) e,
        )
  ]

  pub added_new : (e : Str) (u : ManagedUser) → new_at e u ≡ false → added_at e u ≡ false
  unfolding added_user
  added_new e u h = ground (arith, h)

  pub one_old :
      (e : Str) (u v : ManagedUser)
      → In u old.users
      → In v old.users
      → old_at e u ≡ true
      → old_at e v ≡ true
      → v ≡ u
  one_old e u v m n p q =
      unique_key (λ x. accounting_email x.id old.id) v u old.users uo n m
        (ground (
          arith,
          p,
          q,
          eq_iff (accounting_email u.id old.id) e,
          eq_iff (accounting_email v.id old.id) e,
        ))

  pub one_new :
      (e : Str) (u v : ManagedUser)
      → In u next.users
      → In v next.users
      → new_at e u ≡ true
      → new_at e v ≡ true
      → v ≡ u
  one_new e u v m n p q =
      unique_key (λ x. accounting_email x.id next.id) v u next.users un n m
        (ground (
          arith,
          p,
          q,
          eq_iff (accounting_email u.id next.id) e,
          eq_iff (accounting_email v.id next.id) e,
        ))

  -- An enabled new user that is not added is served already: its old user is enabled, and is the same
  -- to the core.
  pub kept_old :
      (e : Str) (v : ManagedUser)
      → In v next.users
      → new_at e v ≡ true
      → added_user (user_by_id old.users) v ≡ false
      → (o : ManagedUser) × In o old.users
        × (o.id ≡ v.id)
        × (old_at e o ≡ true)
        × (user_runtime_equal o v ≡ true)
  unfolding added_user
  kept_old e v m p a = elim (Option-cases (lookup v.id (user_by_id old.users))) [
    | inl q ↦ absurd (ground (arith, p, a, q))
    | inr (o, q) ↦
        let (mo, k) = lookup-index (λ x. x.id) old.users v.id o q in
        (
          o,
          mo,
          k,
          ground (
            arith,
            p,
            a,
            q,
            mail v o (sym k),
            eq_iff (accounting_email v.id next.id) e,
            eq_iff (accounting_email o.id old.id) e,
          ),
          ground (arith, p, a, q),
        )
  ]

  -- And that old user is not removed.
  pub kept_stays :
      (e : Str) (v o : ManagedUser)
      → In v next.users
      → new_at e v ≡ true
      → o.id ≡ v.id
      → user_runtime_equal o v ≡ true
      → removed_at e o ≡ false
  unfolding removed_user
  kept_stays e v o m p k r =
      let found : lookup o.id (user_by_id next.users) ≡ some v =
        ap (λ x. lookup x (user_by_id next.users)) k
        ∙ lookup-index_unique (λ x. x.id) next.users v (unique_ids next next.users un) m in
      ground (arith, found, p, r)

  pub added_enabled : (e : Str) (u : ManagedUser) → added_at e u ≡ true → new_at e u ≡ true
  unfolding added_user
  added_enabled e u h = ground (arith, h)

  pub removed_enabled : (e : Str) (u : ManagedUser) → removed_at e u ≡ true → old_at e u ≡ true
  unfolding removed_user
  removed_enabled e u h = ground (arith, h)

  pub not_added :
      (e : Str) (v w : ManagedUser)
      → In v next.users
      → In w next.users
      → new_at e v ≡ true
      → added_at e v ≡ false
      → added_at e w ≡ false
  not_added e v w m n p a = elim (Bool-cases (added_at e w)) [
    | inl b ↦
        absurd (ground (arith, b, a, ap (added_at e) (one_new e v w m n p (added_enabled e w b))))
    | inr b ↦ b
  ]

  pub not_removed :
      (e : Str) (o w : ManagedUser)
      → In o old.users
      → In w old.users
      → old_at e o ≡ true
      → removed_at e o ≡ false
      → removed_at e w ≡ false
  not_removed e o w m n p a = elim (Bool-cases (removed_at e w)) [
    | inl b ↦
        absurd
          (ground (arith, b, a, ap (removed_at e) (one_old e o w m n p (removed_enabled e w b))))
    | inr b ↦ b
  ]
