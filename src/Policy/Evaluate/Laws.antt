-- ===== src/Policy/Evaluate/Laws.antt =====
-- What the evaluation does to each inbound and user.
use xnode_agent.Prelude.{
  ℕ, ◌+◌, ℤ, true, List, [], ◌∷◌, length, length-append, count_if, In, inl, inr, ◌≡◌, refl, arith,
  subst,
}
use xnode_agent.Model.{ManagedUser, ManagedInbound, DesiredState, SessionRecord}
use xnode_agent.Policy.Check.{
  Sessions, Pending, IsAllowed, check_user, check_users, check_user_iff, check_user_same,
  check_user_blocks, IsAllowed-users,
}
use xnode_agent.Policy.Tightened.{Tightened, Tightened-trans, Tightened-In}
use xnode_agent.Policy.Device.{
  device_users, device_users-Tightened, device_users_blocks, limit_by_account,
}
use xnode_agent.Policy.Evaluate.{evaluate, evaluate_inbound, evaluate_inbounds, session_map}

abbrev pub enabled_count : List ManagedUser → ℕ
enabled_count = count_if (λ u. u.enabled)

-- The enabled credentials of all inbounds.
unfoldable pub enabled_total : List ManagedInbound → ℕ
enabled_total [] = 0
enabled_total (inb ∷ rest) = enabled_count inb.users + enabled_total rest

-- Inbound by inbound: the same but for its users, who are tightened.
abbrev pub AreTightened : List ManagedInbound → List ManagedInbound → Type 0
AreTightened [] [] = Unit
AreTightened (a ∷ as') (b ∷ bs) =
    (b ≡ record a { users = b.users }) × Tightened a.users b.users × AreTightened as' bs
AreTightened _ _ = ⊥

module _ (now : ℤ) (sessions : Sessions) (pending : Pending) where
  module _ (inb : ManagedInbound) where
    check_users_blocks :
        (us : List ManagedUser)
        → length (check_users now sessions pending inb us).1
            + enabled_count (check_users now sessions pending inb us).0
          ≡ enabled_count us
    unfolding check_users count_if
    check_users_blocks [] = omega arith
    check_users_blocks (u ∷ us) = omega (
      arith,
      length-append (check_user now sessions pending inb u).1
          (check_users now sessions pending inb us).1,
      check_user_blocks now sessions pending inb u,
      check_users_blocks us,
    )

    pub check_users-Tightened :
        (us : List ManagedUser) → Tightened us (check_users now sessions pending inb us).0
    unfolding check_users
    check_users-Tightened [] = tt
    check_users-Tightened (u ∷ us) = (
      check_user_same now sessions pending inb u,
      λ on. ((check_user_iff now sessions pending inb u).0 on).0,
      check_users-Tightened us,
    )

    -- Who comes enabled out of the first loop is allowed.
    pub check_users-IsAllowed :
        (v : ManagedUser) (us : List ManagedUser)
        → In v (check_users now sessions pending inb us).0
        → v.enabled ≡ true
        → IsAllowed now sessions pending inb v
    unfolding check_users
    check_users-IsAllowed v [] m on = absurd m
    check_users-IsAllowed v (u ∷ us) (inl e) on =
        let kept = (check_user_iff now sessions pending inb u).0 (rw e on) in
        let same : u ≡ v = ground (arith, check_user_same now sessions pending inb u, kept.0) in
        subst (IsAllowed now sessions pending inb) same kept.1
    check_users-IsAllowed v (u ∷ us) (inr m) on = check_users-IsAllowed v us m on

    evaluate_inbound-Tightened :
        Tightened inb.users (evaluate_inbound now sessions pending inb).0.users
    unfolding evaluate_inbound
    evaluate_inbound-Tightened =
        let checked = (check_users now sessions pending inb inb.users).0 in
        Tightened-trans inb.users checked _ (check_users-Tightened inb.users)
          (device_users-Tightened (limit_by_account checked) inb [] checked)

    pub evaluate_inbound-IsAllowed :
        (v : ManagedUser)
        → In v (evaluate_inbound now sessions pending inb).0.users
        → v.enabled ≡ true
        → IsAllowed now sessions pending inb v
    unfolding evaluate_inbound
    evaluate_inbound-IsAllowed v m on =
        let checked = (check_users now sessions pending inb inb.users).0 in
        check_users-IsAllowed v inb.users
          (Tightened-In v checked _
            (device_users-Tightened (limit_by_account checked) inb [] checked) m on)
          on

    evaluate_inbound_blocks :
        length (evaluate_inbound now sessions pending inb).1
          + enabled_count (evaluate_inbound now sessions pending inb).0.users
        ≡ enabled_count inb.users
    unfolding evaluate_inbound
    evaluate_inbound_blocks =
        let (checked, vs) = check_users now sessions pending inb inb.users in
        omega (
          arith,
          length-append vs (device_users (limit_by_account checked) inb [] checked).1,
          check_users_blocks inb.users,
          device_users_blocks (limit_by_account checked) inb [] checked,
        )

  evaluate_inbounds-AreTightened :
      (inbs : List ManagedInbound)
      → AreTightened inbs (evaluate_inbounds now sessions pending inbs).0
  unfolding evaluate_inbounds
  evaluate_inbounds-AreTightened [] = tt
  evaluate_inbounds-AreTightened (inb ∷ rest) = (
    unfold evaluate_inbound in refl,
    evaluate_inbound-Tightened inb,
    evaluate_inbounds-AreTightened rest,
  )

  evaluate_inbounds_blocks :
      (inbs : List ManagedInbound)
      → length (evaluate_inbounds now sessions pending inbs).1
          + enabled_total (evaluate_inbounds now sessions pending inbs).0
        ≡ enabled_total inbs
  unfolding evaluate_inbounds enabled_total
  evaluate_inbounds_blocks [] = omega arith
  evaluate_inbounds_blocks (inb ∷ rest) = omega (
    arith,
    length-append (evaluate_inbound now sessions pending inb).1
        (evaluate_inbounds now sessions pending rest).1,
    evaluate_inbound_blocks inb,
    evaluate_inbounds_blocks rest,
  )

  -- A property of every evaluated inbound is one of every inbound of the result.
  pub evaluate_inbounds_all {ℓ} :
      (P : ManagedInbound → Type ℓ)
      → ((inb : ManagedInbound) → P (evaluate_inbound now sessions pending inb).0)
      → (out : ManagedInbound) (inbs : List ManagedInbound)
      → In out (evaluate_inbounds now sessions pending inbs).0
      → P out
  unfolding evaluate_inbounds
  evaluate_inbounds_all P each out [] m = absurd m
  evaluate_inbounds_all P each out (inb ∷ rest) (inl e) = subst P e (each inb)
  evaluate_inbounds_all P each out (inb ∷ rest) (inr m) = evaluate_inbounds_all P each out rest m

module _ (desired : DesiredState) (sessions : List SessionRecord) (pending : Pending)
    (now : ℤ) where
  -- The evaluation only ever clears the enabled flag of users: the state is as desired but for its inbounds,
  -- and inbound by inbound and user by user, in the same order, all else is as desired, and a user is
  -- enabled only if it was.
  pub evaluate-AreTightened :
      ((evaluate desired sessions pending now).state
        ≡ record desired { inbounds = (evaluate desired sessions pending now).state.inbounds })
      × AreTightened desired.inbounds (evaluate desired sessions pending now).state.inbounds
  unfolding evaluate
  evaluate-AreTightened =
      (refl, evaluate_inbounds-AreTightened now (session_map sessions) pending desired.inbounds)

  -- There are as many violations as credentials that the evaluation disables.
  pub evaluate_blocks :
      length (evaluate desired sessions pending now).violations
        + enabled_total (evaluate desired sessions pending now).state.inbounds
      ≡ enabled_total desired.inbounds
  unfolding evaluate
  evaluate_blocks = evaluate_inbounds_blocks now (session_map sessions) pending desired.inbounds

  -- Every credential that is enabled in the result has not expired, is below its traffic quota with
  -- the pending usage counted in, and is within its IP limit unless the inbound switches that off.
  pub evaluate-IsAllowed :
      (inb : ManagedInbound) (u : ManagedUser)
      → In inb (evaluate desired sessions pending now).state.inbounds
      → In u inb.users
      → u.enabled ≡ true
      → IsAllowed now (session_map sessions) pending inb u
  unfolding evaluate
  evaluate-IsAllowed inb u m mu on =
      evaluate_inbounds_all now (session_map sessions) pending
        (λ out.
          (v : ManagedUser)
          → In v out.users
          → v.enabled ≡ true
          → IsAllowed now (session_map sessions) pending out v)
        (λ a v mv h.
          unfold evaluate_inbound in
          IsAllowed-users now (session_map sessions) pending a _ v
            (evaluate_inbound-IsAllowed now (session_map sessions) pending a v mv h))
        inb desired.inbounds m u mu on
