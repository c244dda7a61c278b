-- ===== src/Xray/Plan/Refines.antt =====
-- The hot reload of an inbound that stays, on a running core.
use xnode_agent.Prelude.{
  List, to_lower, true, false, ◌&&◌, none, some, [], ◌++◌, Str, In, if◌then◌else◌, ◌==◌, str_eq,
  eq_iff, eq_refl, ◌≡◌, ◌≢◌, refl, ap, sym, ◌∙◌, arith, unique_key, inl,
}
use xnode_agent.Model.{ManagedUser, ManagedInbound}
use xnode_agent.Xray.Email.{accounting_email}
use xnode_agent.Xray.Plan.Equal.{user_by_id, inbound_base_equal, users_runtime_equal, inbound_eq}
use xnode_agent.Xray.Plan.{RuntimeOp, remove_users, add_users, plan_existing, supports_hot_users}
use xnode_agent.Xray.Plan.First.{over, first_client_only}
use xnode_agent.Xray.Plan.Apply.{Core, apply_ops}
use xnode_agent.Xray.Plan.Users.{
  HasUniqueEmails, is_removed, first_added, remove_users_run, add_users_run,
}
use xnode_agent.Xray.Plan.Hot.{Serves}
use xnode_agent.Xray.Plan.Hot.Served.{left, left-none, served}
use xnode_agent.Xray.Config.Inbound.{client_of, is_buildable, takes_clients}
use xnode_agent.Xray.Config.Document.{without_users}
use xnode_agent.Xray.Plan.Same.{AreNamed}
use xnode_agent.Xray.Plan.Runs.{
  Runs, document_of, Runs-document_of, document_of-Runs, users-first_enabled, same_rest,
  base_equal_id, base_equal_tag, base_equal_protocol,
}
use mathlib.Core.List.{append_assoc}

-- Each enabled user is the one that the core serves under its email.
enabled_served :
    (core : Core) (old : ManagedInbound) (s : core.State)
    → HasUniqueEmails old old.users
    → Serves core old s
    → (u : ManagedUser) → In u old.users
    → u.enabled ≡ true
    → core.find old.tag (accounting_email u.id old.id) s ≡ some (client_of old u)
enabled_served core old s d serves u m on =
    let e = accounting_email u.id old.id in
    serves e
    ∙ first_client_only (client_of old) (λ v. v.enabled && accounting_email v.id old.id == e)
        old.users u m (ground (arith, on, eq_refl e))
        (λ v i p.
          unique_key (λ x. accounting_email x.id old.id) v u old.users d i m
            (ground (arith, p, eq_iff (accounting_email v.id old.id) e)))

plan_existing_hot :
    (old next : ManagedInbound)
    → inbound_base_equal old next ≡ true
    → users_runtime_equal old.users next.users ≡ false
    → supports_hot_users next ≡ true
    → plan_existing old next
      ≡ remove_users old (user_by_id next.users) old.users
        ++ add_users next (user_by_id old.users) next.users
unfolding plan_existing
plan_existing_hot old next b u h = rw (b, u, h) refl

-- After the removals the core has under each email of the tag what is left of the old users.
at_left :
    (core : Core) (old next : ManagedInbound) (named : AreNamed old next) (si : next.id ≡ old.id)
    → next.tag ≡ old.tag
    → (s s1 : core.State) → Serves core old s
    → ((t e : Str)
        → core.find t e s1 ≡ (
            if t == old.tag && is_removed core old (user_by_id next.users) [] old.users e
            then none
            else core.find t e s))
    → (e : Str)
    → core.find next.tag e s1 ≡ left old next si named.unique_old named.unique_next named.same e
at_left core old next named si st s s1 serves f e =
    ground
      (arith, f next.tag e, st, eq_iff next.tag old.tag, serves e, ap (λ t. core.find t e s) st)

-- The adds over what is left serve the desired users.
now_served :
    (core : Core) (old next : ManagedInbound) (named : AreNamed old next) (si : next.id ≡ old.id)
    (s1 s2 : core.State)
    → ((e : Str)
        → core.find next.tag e s1
          ≡ left old next si named.unique_old named.unique_next named.same e)
    → ((e : Str)
        → core.find next.tag e s2 ≡ (
            if next.tag == next.tag
            then over
                (first_added core next (user_by_id old.users) next.users e)
                (core.find next.tag e s1)
            else core.find next.tag e s1))
    → Serves core next s2
now_served core old next named si s1 s2 l g e =
    g e
    ∙ rw (eq_refl next.tag)
        (ap (over (first_added core next (user_by_id old.users) next.users e)) (l e))
    ∙ served old next si named.unique_old named.unique_next named.same e

-- The hot reload of the users of an inbound that the core runs, before further operations.
module _ (core : Core) (old next : ManagedInbound) (s : core.State) (ops : List RuntimeOp)
    (base : inbound_base_equal old next ≡ true)
    (changed : users_runtime_equal old.users next.users ≡ false)
    (hot : supports_hot_users next ≡ true) (can : is_buildable next ≡ true)
    (named : AreNamed old next) (runs : Runs core old s) where
  open named use {unique_old, unique_next, same}

  si : next.id ≡ old.id
  si = base_equal_id old next base

  st : next.tag ≡ old.tag
  st = base_equal_tag old next base

  takes_next : takes_clients (to_lower next.protocol) ≡ true
  unfolding supports_hot_users takes_clients
  takes_next = hot

  takes_old : takes_clients (to_lower old.protocol) ≡ true
  takes_old =
      sym (ap (λ p. takes_clients (to_lower p)) (base_equal_protocol old next base)) ∙ takes_next

  old_served : Serves core old s
  old_served e = (Runs-document_of core old s runs).1 e ∙ users-first_enabled core old e takes_old

  has_rest : core.rest next.tag s ≡ some (without_users (document_of next))
  has_rest =
      ap (λ t. core.rest t s) st
      ∙ (Runs-document_of core old s runs).0
      ∙ ap some (same_rest old next base (inl takes_old))

  pub hot_users_run :
      (s' : core.State) × (apply_ops core (plan_existing old next ++ ops) s ≡ apply_ops core ops s')
      × Runs core next s'
      × ((t : Str) → core.rest t s' ≡ core.rest t s)
      × ((t e : Str) → t ≢ old.tag → core.find t e s' ≡ core.find t e s)
  hot_users_run =
      let (s1, p, r1, f) =
        remove_users_run core old (user_by_id next.users)
          (add_users next (user_by_id old.users) next.users ++ ops) old.users s unique_old
          (enabled_served core old s unique_old old_served) in
      let (s2, q, r2, g) =
        add_users_run core next (user_by_id old.users) next.users ops s1 can takes_next unique_next
          (λ v i a.
            at_left core old next named si st s s1 old_served f (accounting_email v.id next.id)
            ∙ left-none old next si unique_old unique_next same (accounting_email v.id next.id) v i
                (ground (arith, a, eq_refl (accounting_email v.id next.id))))
          (r1 next.tag ∙ has_rest) in
      (
        s2,
        ap (λ l. apply_ops core l s)
              (ap (λ l. l ++ ops) (plan_existing_hot old next base changed hot)
                ∙ append_assoc (remove_users old (user_by_id next.users) old.users) _ ops)
            ∙ p
            ∙ q,
        document_of-Runs core next s2 can (r2 next.tag ∙ r1 next.tag ∙ has_rest) (λ e.
            now_served core old next named si s1 s2
              (at_left core old next named si st s s1 old_served f) (g next.tag) e
            ∙ sym (users-first_enabled core next e takes_next)),
        λ t. r2 t ∙ r1 t,
        λ t e n. ground (arith, g t e, f t e, n, st, eq_iff t next.tag, eq_iff t old.tag),
      )
