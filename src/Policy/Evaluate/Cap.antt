-- ===== src/Policy/Evaluate/Cap.antt =====
-- The device limit: how many credentials of an account the evaluation leaves enabled, and that it
-- leaves alone who breaks nothing.
use xnode_agent.Prelude.{
  lookup, ℤ, pos, negsuc, ◌≤ℤ◌, true, List, [], ◌∷◌, Str, count_if, In, inl, inr, ◌⊎◌, ◌≡◌, ◌≢◌,
  refl, arith, ap, Map, ◌∙◌,
}
use xnode_agent.Model.{ManagedUser, ManagedInbound, DesiredState, SessionRecord}
use xnode_agent.Policy.Check.{
  Sessions, Pending, IsAllowed, check_user, check_users, check_user_iff, check_user_same,
}
use xnode_agent.Policy.Tightened.{Tightened, member, Tightened-In, Tightened-count_if}
use xnode_agent.Policy.Device.{
  IsCapper, IsCapped, account_limit, active_count, device_users, device_users-Tightened,
  limit_by_account, limit_by_account-IsCapped, count_if-device_users,
}
use xnode_agent.Policy.Device.Room.{HasRoom, device_users-In, limit_by_account-Attained}
use xnode_agent.Policy.Evaluate.{evaluate, evaluate_inbound, evaluate_inbounds, session_map}
use xnode_agent.Policy.Evaluate.Laws.{evaluate_inbounds_all, check_users-Tightened}

-- At most as many as the cap are left.
device_users-le :
    (limits : Map Str ℤ) (inb : ManagedInbound) (us : List ManagedUser) (a : Str) (d : ℤ)
    → a ≢ []
    → IsCapped limits a d
    → pos (count_if (member a) (device_users limits inb [] us).0) ≤ℤ d
device_users-le limits inb us a d named h = go (account_limit limits a) refl
  where
    go :
        (l : ℤ)
        → account_limit limits a ≡ l
        → pos (count_if (member a) (device_users limits inb [] us).0) ≤ℤ d
    go (pos n) e = ground (arith, count_if-device_users limits inb a n named e (ground arith) [] us)
    go (negsuc n) e = absurd (ground arith)

module _ (now : ℤ) (sessions : Sessions) (pending : Pending) (inb : ManagedInbound) where
  pub evaluate_inbound-le :
      (u : ManagedUser)
      → In u (evaluate_inbound now sessions pending inb).0.users
      → IsCapper u
      → pos (count_if (member u.account_id) (evaluate_inbound now sessions pending inb).0.users)
        ≤ℤ u.limits.device_limit
  unfolding evaluate_inbound
  evaluate_inbound-le u m c =
      let checked = (check_users now sessions pending inb inb.users).0 in
      device_users-le (limit_by_account checked) inb checked u.account_id u.limits.device_limit
        c.named
        (limit_by_account-IsCapped u checked
          (Tightened-In u checked _
            (device_users-Tightened (limit_by_account checked) inb [] checked) m c.on)
          c)

  -- Who is allowed comes out of the first loop as it was.
  check_users-In :
      (u : ManagedUser) (us : List ManagedUser)
      → In u us
      → u.enabled ≡ true
      → IsAllowed now sessions pending inb u
      → In u (check_users now sessions pending inb us).0
  unfolding check_users
  check_users-In u [] m on ok = absurd m
  check_users-In u (v ∷ us) (inl e) on ok =
      let same : (check_user now sessions pending inb u).0 ≡ u = ground (
        arith,
        check_user_same now sessions pending inb u,
        (check_user_iff now sessions pending inb u).1 (on, ok),
      ) in
      inl (ap (λ w. (check_user now sessions pending inb w).0) e ∙ same)
  check_users-In u (v ∷ us) (inr m) on ok = inr (check_users-In u us m on ok)

  -- No cap of the account in this inbound is below the number of its enabled credentials.
  abbrev pub Fits : ManagedUser → Type 0
  Fits u =
      (u.account_id ≡ [])
      ⊎ ((w : ManagedUser)
          → In w inb.users
          → IsCapper w
          → w.account_id ≡ u.account_id
          → pos (count_if (member u.account_id) inb.users) ≤ℤ w.limits.device_limit)

  Fits-HasRoom :
      (u : ManagedUser)
      → Fits u
      → (checked : List ManagedUser) → Tightened inb.users checked
      → HasRoom (limit_by_account checked) [] checked u.account_id
  unfolding active_count lookup
  Fits-HasRoom u (inl e) checked t = inl e
  Fits-HasRoom u (inr fits) checked t = elim (limit_by_account-Attained checked u.account_id) [
    | inl e ↦ inr (inl (rw e (omega arith)))
    | inr (w, m, (c, same, l)) ↦ inr (
        inr (
          rw (← l) (
            ground (
              arith,
              fits w (Tightened-In w inb.users checked t m c.on) c same,
              Tightened-count_if u.account_id inb.users checked t,
            ))))
  ]

  evaluate_inbound_admits :
      (u : ManagedUser)
      → In u inb.users
      → u.enabled ≡ true
      → IsAllowed now sessions pending inb u
      → Fits u
      → In u (evaluate_inbound now sessions pending inb).0.users
  unfolding evaluate_inbound
  evaluate_inbound_admits u m on ok fits =
      let checked = (check_users now sessions pending inb inb.users).0 in
      device_users-In (limit_by_account checked) inb u [] checked
        (check_users-In u inb.users m on ok)
        (Fits-HasRoom u fits checked (check_users-Tightened now sessions pending inb inb.users))

module _ (desired : DesiredState) (sessions : List SessionRecord) (pending : Pending)
    (now : ℤ) where
  -- In every inbound of the result, the number of enabled credentials of an account is at most the
  -- device limit of each enabled credential of that account whose device limit is positive. An empty
  -- account name is no account.
  pub evaluate_device_cap :
      (inb : ManagedInbound) (u : ManagedUser)
      → In inb (evaluate desired sessions pending now).state.inbounds
      → In u inb.users
      → IsCapper u
      → pos (count_if (member u.account_id) inb.users) ≤ℤ u.limits.device_limit
  unfolding evaluate
  evaluate_device_cap inb u m mu c =
      evaluate_inbounds_all now (session_map sessions) pending
        (λ out.
          (v : ManagedUser)
          → In v out.users
          → IsCapper v
          → pos (count_if (member v.account_id) out.users) ≤ℤ v.limits.device_limit)
        (evaluate_inbound-le now (session_map sessions) pending) inb desired.inbounds m u mu c

  evaluate_inbounds-In :
      (inb : ManagedInbound) (inbs : List ManagedInbound)
      → In inb inbs
      → In
          (evaluate_inbound now (session_map sessions) pending inb).0
          (evaluate_inbounds now (session_map sessions) pending inbs).0
  unfolding evaluate_inbounds
  evaluate_inbounds-In inb [] m = absurd m
  evaluate_inbounds-In inb (a ∷ rest) (inl e) =
      inl (ap (λ b. (evaluate_inbound now (session_map sessions) pending b).0) e)
  evaluate_inbounds-In inb (a ∷ rest) (inr m) = inr (evaluate_inbounds-In inb rest m)

  -- A desired credential that is enabled, has not expired and is within its quota and IP limit stays
  -- enabled and unchanged in its inbound, if it names no account, or if no device limit of the
  -- account there is below the number of its enabled credentials.
  pub evaluate_admits :
      (inb : ManagedInbound) (u : ManagedUser)
      → In inb desired.inbounds
      → In u inb.users
      → u.enabled ≡ true
      → IsAllowed now (session_map sessions) pending inb u
      → Fits now (session_map sessions) pending inb u
      → (out : ManagedInbound) × In out (evaluate desired sessions pending now).state.inbounds
        × (out ≡ record inb { users = out.users })
        × In u out.users
  unfolding evaluate
  evaluate_admits inb u m mu on ok fits = (
    (evaluate_inbound now (session_map sessions) pending inb).0,
    evaluate_inbounds-In inb desired.inbounds m,
    unfold evaluate_inbound in refl,
    evaluate_inbound_admits now (session_map sessions) pending inb u mu on ok fits,
  )
