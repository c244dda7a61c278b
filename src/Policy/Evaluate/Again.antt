-- ===== src/Policy/Evaluate/Again.antt =====
-- Evaluating a result again, with the same usage and at the same time, changes nothing.
use xnode_agent.Prelude.{
  ℤ, true, List, [], ◌∷◌, Str, length, lookup, In, inl, inr, ◌≡◌, refl, subst, arith, Bool-cases,
}
use xnode_agent.Model.{ManagedUser, ManagedInbound, DesiredState, SessionRecord}
use xnode_agent.Policy.Check.{
  Sessions, Pending, IsAllowed, IsAllowed-users, check_user, check_users, check_user_iff,
  check_user_same, check_user_blocks,
}
use xnode_agent.Policy.Device.{active_count, device_users, limit_by_account}
use xnode_agent.Policy.Device.Room.{HasRoom, device_users_keeps, limit_by_account-Attained}
use xnode_agent.Policy.Evaluate.{evaluate, evaluate_inbound, evaluate_inbounds, session_map}
use xnode_agent.Policy.Evaluate.Laws.{evaluate_inbound-IsAllowed}
use xnode_agent.Policy.Evaluate.Cap.{evaluate_inbound-le}

eq_nil_of_length {ℓ} : {A : Type ℓ} (xs : List A) → length xs ≡ 0 → xs ≡ []
eq_nil_of_length [] h = refl
eq_nil_of_length (x ∷ xs) h = absurd (omega arith)

module _ (now : ℤ) (sessions : Sessions) (pending : Pending) where
  check_user_keeps :
      (inb : ManagedInbound) (u : ManagedUser)
      → (u.enabled ≡ true → IsAllowed now sessions pending inb u)
      → check_user now sessions pending inb u ≡ (u, [])
  check_user_keeps inb u ok = elim (Bool-cases u.enabled) [
    | inl on ↦ ground (
      arith,
      check_user_same now sessions pending inb u,
      check_user_blocks now sessions pending inb u,
      (check_user_iff now sessions pending inb u).1 (on, ok on),
      eq_nil_of_length (check_user now sessions pending inb u).1,
    )
    | inr off ↦ unfold check_user in ground arith
  ]

  check_users_keeps :
      (inb : ManagedInbound) (us : List ManagedUser)
      → ((u : ManagedUser) → In u us → u.enabled ≡ true → IsAllowed now sessions pending inb u)
      → check_users now sessions pending inb us ≡ (us, [])
  unfolding check_users
  check_users_keeps inb [] ok = refl
  check_users_keeps inb (u ∷ us) ok = ground (
    arith,
    check_user_keeps inb u (ok u (inl refl)),
    check_users_keeps inb us (λ v m. ok v (inr m)),
  )

  -- A result's accounts have room.
  evaluate_inbound-HasRoom :
      (inb : ManagedInbound) (a : Str)
      → HasRoom
          (limit_by_account (evaluate_inbound now sessions pending inb).0.users)
          []
          (evaluate_inbound now sessions pending inb).0.users
          a
  unfolding active_count lookup
  evaluate_inbound-HasRoom inb a =
      let us = (evaluate_inbound now sessions pending inb).0.users in
      elim (limit_by_account-Attained us a) [
        | inl e ↦ inr (inl (rw e (omega arith)))
        | inr (w, m, (c, same, l)) ↦ inr (
            inr (
              rw (← l, ← same)
                (ground (arith, evaluate_inbound-le now sessions pending inb w m c))))
      ]

  evaluate_inbound_keeps :
      (out : ManagedInbound)
      → check_users now sessions pending out out.users ≡ (out.users, [])
      → device_users (limit_by_account out.users) out [] out.users ≡ (out.users, [])
      → evaluate_inbound now sessions pending out ≡ (out, [])
  unfolding evaluate_inbound
  evaluate_inbound_keeps out kept left = ground arith

  evaluate_inbound_again :
      (inb : ManagedInbound)
      → evaluate_inbound now sessions pending (evaluate_inbound now sessions pending inb).0
        ≡ ((evaluate_inbound now sessions pending inb).0, [])
  evaluate_inbound_again inb =
      let us = (evaluate_inbound now sessions pending inb).0.users in
      let out : ManagedInbound = record inb { users = us } in
      let kept = check_users_keeps out us (λ u m on.
        IsAllowed-users now sessions pending inb us u
          (evaluate_inbound-IsAllowed now sessions pending inb u m on)) in
      let left =
        device_users_keeps (limit_by_account us) out [] us (evaluate_inbound-HasRoom inb) in
      let same : out ≡ (evaluate_inbound now sessions pending inb).0 =
        unfold evaluate_inbound in refl in
      subst (λ (x : ManagedInbound). evaluate_inbound now sessions pending x ≡ (x, [])) same
        (evaluate_inbound_keeps out kept left)

  evaluate_inbounds_again :
      (inbs : List ManagedInbound)
      → evaluate_inbounds now sessions pending (evaluate_inbounds now sessions pending inbs).0
        ≡ ((evaluate_inbounds now sessions pending inbs).0, [])
  unfolding evaluate_inbounds
  evaluate_inbounds_again [] = refl
  evaluate_inbounds_again (inb ∷ rest) =
      ground (arith, evaluate_inbound_again inb, evaluate_inbounds_again rest)

module _ (desired : DesiredState) (sessions : List SessionRecord) (pending : Pending)
    (now : ℤ) where
  -- Evaluating a result again, with the same sessions, usage and time, gives the same state and no
  -- violation.
  pub evaluate_again :
      evaluate (evaluate desired sessions pending now).state sessions pending now
      ≡ record { state = (evaluate desired sessions pending now).state; violations = [] }
  unfolding evaluate
  evaluate_again =
      ground (arith, evaluate_inbounds_again now (session_map sessions) pending desired.inbounds)
