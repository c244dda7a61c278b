-- ===== src/Xray/Plan/Hot/Served.antt =====
-- What the core has after the removals, and after the adds.
use xnode_agent.Prelude.{
  true, Option, none, some, Str, lookup, lookup-index_unique, In, inl, inr, if◌then◌else◌, str_eq,
  int_eq, eq_iff, ◌≡◌, refl, ap, sym, ◌∙◌, arith, Bool-cases, Option-cases, any,
}
use xnode_agent.Model.{ManagedUser, ManagedInbound}
use xnode_agent.Xray.Email.{accounting_email}
use xnode_agent.Xray.Plan.Equal.{user_by_id, credential_eq, inbound_eq}
use xnode_agent.Xray.Plan.{removed_user, added_user}
use xnode_agent.Xray.Plan.First.{
  first_client, over, none-first_client, first_client-none, first_client-some, first_client_only,
  any_none, any_some,
}
use xnode_agent.Model.Values.{Json}
use xnode_agent.Xray.Config.Inbound.{client_of}
use xnode_agent.Xray.Plan.Users.{HasUniqueEmails}
use xnode_agent.Xray.Plan.Hot.{
  removed_at, added_at, old_at, new_at, removed_gone, added_new, one_old, one_new, kept_old,
  kept_stays, added_enabled, not_added, not_removed, unique_ids, user_runtime_equal_client,
}

module _ (old next : ManagedInbound) (si : next.id ≡ old.id) (uo : HasUniqueEmails old old.users)
    (un : HasUniqueEmails next next.users)
    (same : (a b : ManagedUser)
      → In a old.users
      → In b next.users
      → accounting_email a.id old.id ≡ accounting_email b.id next.id
      → a.id ≡ b.id) where
  -- What the core has under an email after the removals.
  abbrev pub left : Str → Option Json
  left e =
      if any (removed_at old next si uo un same e) old.users
      then none
      else first_client (client_of old) (old_at old next si uo un same e) old.users

  -- An old user in the way of one that is added has the same ID, and is removed.
  removed_first :
      (e : Str) (w u : ManagedUser)
      → In w old.users
      → In u next.users
      → old_at old next si uo un same e w ≡ true
      → added_at old next si uo un same e u ≡ true
      → removed_at old next si uo un same e w ≡ true
  unfolding removed_user added_user
  removed_first e w u m n p a =
      let k : w.id ≡ u.id = same w u m n (
        ground (
          arith,
          p,
          a,
          eq_iff (accounting_email w.id old.id) e,
          eq_iff (accounting_email u.id next.id) e,
        )) in
      let was : lookup u.id (user_by_id old.users) ≡ some w =
        ap (λ x. lookup x (user_by_id old.users)) (sym k)
        ∙ lookup-index_unique (λ x. x.id) old.users w (unique_ids old old.users uo) m in
      let is : lookup w.id (user_by_id next.users) ≡ some u =
        ap (λ x. lookup x (user_by_id next.users)) k
        ∙ lookup-index_unique (λ x. x.id) next.users u (unique_ids next next.users un) n in
      ground (arith, was, is, p, a)

  pub left-none :
      (e : Str) (u : ManagedUser)
      → In u next.users
      → added_at old next si uo un same e u ≡ true
      → left e ≡ none
  left-none e u n a =
      elim (Option-cases
        (first_client (client_of old) (old_at old next si uo un same e) old.users)) [
          | inl q ↦ ground (arith, q)
          | inr (c, q) ↦
              let (w, m, p, k) =
                first_client-some (client_of old) (old_at old next si uo un same e) old.users c q in
              ground (
                arith,
                any_some (removed_at old next si uo un same e) old.users w m
                    (removed_first e w u m n p a),
              )
        ]

  -- The adds over the removals give the desired clients.
  served_none :
      (e : Str)
      → first_client (client_of next) (new_at old next si uo un same e) next.users ≡ none
      → over (first_client (client_of next) (added_at old next si uo un same e) next.users) (left e)
        ≡ none
  unfolding over
  served_none e h =
      rw
        (none-first_client (client_of next) (added_at old next si uo un same e) next.users (λ u i.
          added_new old next si uo un same e u (
            first_client-none (client_of next) (new_at old next si uo un same e) next.users u h i)))
        (elim (Option-cases
          (first_client (client_of old) (old_at old next si uo un same e) old.users)) [
            | inl q ↦ ground (arith, q)
            | inr (c, q) ↦
                let (u, m, p, k) =
                  first_client-some (client_of old) (old_at old next si uo un same e) old.users c
                    q in
                ground (
                  arith,
                  any_some (removed_at old next si uo un same e) old.users u m
                      (removed_gone old next si uo un same e u h m p),
                )
          ])

  served_some :
      (e : Str) (v : ManagedUser)
      → In v next.users
      → new_at old next si uo un same e v ≡ true
      → over (first_client (client_of next) (added_at old next si uo un same e) next.users) (left e)
        ≡ some (client_of next v)
  unfolding over
  served_some e v m p = elim (Bool-cases (added_at old next si uo un same e v)) [
    | inl a ↦
        rw
          (first_client_only (client_of next) (added_at old next si uo un same e) next.users v m a
            (λ w i q.
              one_new old next si uo un same e v w m i p
                (added_enabled old next si uo un same e w q)))
          refl
    | inr a ↦
        let (o, mo, k, po, r) = kept_old old next si uo un same e v m p (ground (arith, p, a)) in
        rw
          (
            none-first_client (client_of next) (added_at old next si uo un same e) next.users
                (λ w i. not_added old next si uo un same e v w m i p a),
            any_none (removed_at old next si uo un same e) old.users (λ w i.
                not_removed old next si uo un same e o w mo i po
                  (kept_stays old next si uo un same e v o m p k r)),
            first_client_only (client_of old) (old_at old next si uo un same e) old.users o mo po
                (λ w i q. one_old old next si uo un same e o w mo i po q),
          )
          (ap some (user_runtime_equal_client old next o v si k r))
  ]

  pub served :
      (e : Str)
      → over (first_client (client_of next) (added_at old next si uo un same e) next.users) (left e)
        ≡ first_client (client_of next) (new_at old next si uo un same e) next.users
  served e =
      elim (Option-cases
        (first_client (client_of next) (new_at old next si uo un same e) next.users)) [
          | inl q ↦ served_none e q ∙ sym q
          | inr (c, q) ↦
              let (v, m, p, k) =
                first_client-some (client_of next) (new_at old next si uo un same e) next.users c
                  q in
              served_some e v m p ∙ ap some k ∙ sym q
        ]
