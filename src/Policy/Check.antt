-- ===== src/Policy/Check.antt =====
-- The first user loop of Evaluate: expiry, traffic quota and IP limit.
use xnode_agent.Prelude.{
  ℕ, ◌+◌, ℤ, pos, positive, leb_ℤ, ltb_ℤ, add64, ◌≤ℤ◌, ◌<ℤ◌, Bool, true, false, not, ◌&&◌, none,
  some, List, [], ◌∷◌, ◌++◌, Str, codes, to_lower, Map, lookup, length, if◌then◌else◌, ◌==◌, str_eq,
  ◌≡◌, ◌⊎◌, ◌↔◌, arith,
}
use xnode_agent.Model.{
  ManagedUser, ManagedInbound, PolicyViolation, SessionRecord, UsageKey, key_eq,
}

abbrev pub Sessions : Type 0
Sessions = Map UsageKey SessionRecord

abbrev pub Pending : Type 0
Pending = Map UsageKey ℤ

-- pending[k], 0 for a missing key.
unfoldable pub pending_bytes : Pending → UsageKey → ℤ
pending_bytes m k = elim (lookup k m) [ none ↦ pos 0 | some n ↦ n ]

-- len(sessionMap[k].IPs), 0 for a missing key.
unfoldable pub ip_count : Sessions → UsageKey → ℕ
ip_count m k = elim (lookup k m) [ none ↦ 0 | some s ↦ length s.ips ]

unfoldable pub ip_limit_off : ManagedInbound → Bool
ip_limit_off inb = to_lower inb.ip_limit_mode == codes "off"

unfoldable pub key_of : ManagedInbound → ManagedUser → UsageKey
key_of inb u = record { user_id = u.id; inbound_id = inb.id }

unfoldable pub violation : ManagedInbound → ManagedUser → Str → ℤ → ℤ → PolicyViolation
violation inb u reason observed limit = record {
  user_id = u.id;
  inbound_id = inb.id;
  reason = reason;
  observed = observed;
  limit = limit;
}

-- u.Enabled = false, with one more violation.
unfoldable pub block :
    ManagedInbound → ManagedUser → Str → ℤ → ℤ → ManagedUser × List PolicyViolation
unfolding violation
block inb u reason observed limit =
    (record u { enabled = false }, violation inb u reason observed limit ∷ [])

unfoldable pub used_bytes : Pending → ManagedInbound → ManagedUser → ℤ
unfolding pending_bytes key_of
used_bytes pending inb u = add64 u.limits.traffic_used_bytes (pending_bytes pending (key_of inb u))

unfoldable pub check_ips :
    Sessions → ManagedInbound → ManagedUser → ManagedUser × List PolicyViolation
unfolding ip_count key_of ip_limit_off block
check_ips sessions inb u =
    let count = ip_count sessions (key_of inb u) in
    if positive u.limits.ip_limit && not (ip_limit_off inb) && ltb_ℤ u.limits.ip_limit (pos count)
    then block inb u (codes "ip_limit") (pos count) u.limits.ip_limit
    else (u, [])

unfoldable pub check_quota :
    Sessions → Pending → ManagedInbound → ManagedUser → ManagedUser × List PolicyViolation
unfolding used_bytes block
check_quota sessions pending inb u =
    let used = used_bytes pending inb u in
    if positive u.limits.traffic_bytes && leb_ℤ u.limits.traffic_bytes used
    then block inb u (codes "traffic_quota") used u.limits.traffic_bytes
    else check_ips sessions inb u

-- One round of the loop; a `continue` is a branch that returns.
unfoldable pub check_user :
    ℤ → Sessions → Pending → ManagedInbound → ManagedUser → ManagedUser × List PolicyViolation
unfolding block
check_user now sessions pending inb u =
    if not u.enabled
    then (u, [])
    else if positive u.limits.expires_at && leb_ℤ u.limits.expires_at now
    then block inb u (codes "expired") now u.limits.expires_at
    else check_quota sessions pending inb u

unfoldable pub check_users :
    ℤ
    → Sessions
    → Pending
    → ManagedInbound
    → List ManagedUser
    → List ManagedUser × List PolicyViolation
check_users now sessions pending inb [] = ([], [])
check_users now sessions pending inb (u ∷ us) =
    let (u', vs) = check_user now sessions pending inb u in
    let (us', ws) = check_users now sessions pending inb us in (u' ∷ us', vs ++ ws)

-- What the panel asks of an enabled credential. A limit that is not positive is no limit.
pub record IsAllowed (now : ℤ) (sessions : Sessions) (pending : Pending) (inb : ManagedInbound)
    (u : ManagedUser) : Type 0 where
  pub lives : (u.limits.expires_at ≤ℤ pos 0) ⊎ (now <ℤ u.limits.expires_at)
  pub in_quota :
      (u.limits.traffic_bytes ≤ℤ pos 0) ⊎ (used_bytes pending inb u <ℤ u.limits.traffic_bytes)
  pub in_ips :
      (u.limits.ip_limit ≤ℤ pos 0)
      ⊎ (ip_limit_off inb ≡ true)
      ⊎ (pos (ip_count sessions (key_of inb u)) ≤ℤ u.limits.ip_limit)

-- A user whose test passed is disabled, any other goes on to the next test.
check_ips_iff :
    (sessions : Sessions) (inb : ManagedInbound) (u : ManagedUser)
    → ((check_ips sessions inb u).0.enabled ≡ true) ↔ (
        (u.enabled ≡ true)
        × ((u.limits.ip_limit ≤ℤ pos 0)
            ⊎ (ip_limit_off inb ≡ true)
            ⊎ (pos (ip_count sessions (key_of inb u)) ≤ℤ u.limits.ip_limit)))
unfolding check_ips
check_ips_iff sessions inb u = (λ h. ground arith, λ h. ground arith)

check_quota_iff :
    (sessions : Sessions) (pending : Pending) (inb : ManagedInbound) (u : ManagedUser)
    → ((check_quota sessions pending inb u).0.enabled ≡ true) ↔ (
        ((check_ips sessions inb u).0.enabled ≡ true)
        × ((u.limits.traffic_bytes ≤ℤ pos 0)
            ⊎ (used_bytes pending inb u <ℤ u.limits.traffic_bytes)))
unfolding check_quota
check_quota_iff sessions pending inb u = (λ h. ground arith, λ h. ground arith)

check_user_quota_iff :
    (now : ℤ) (sessions : Sessions) (pending : Pending) (inb : ManagedInbound) (u : ManagedUser)
    → ((check_user now sessions pending inb u).0.enabled ≡ true) ↔ (
        (u.enabled ≡ true)
        × ((check_quota sessions pending inb u).0.enabled ≡ true)
        × ((u.limits.expires_at ≤ℤ pos 0) ⊎ (now <ℤ u.limits.expires_at)))
unfolding check_user
check_user_quota_iff now sessions pending inb u = (λ h. ground arith, λ h. ground arith)

module _ (now : ℤ) (sessions : Sessions) (pending : Pending) (inb : ManagedInbound) where
  -- A user stays enabled exactly if it was and nothing that the panel asks is broken.
  pub check_user_iff :
      (u : ManagedUser)
      → ((check_user now sessions pending inb u).0.enabled ≡ true)
        ↔ ((u.enabled ≡ true) × IsAllowed now sessions pending inb u)
  check_user_iff u = (there, back)
    where
      there :
          (check_user now sessions pending inb u).0.enabled ≡ true
          → (u.enabled ≡ true) × IsAllowed now sessions pending inb u
      there h =
          let (on, rest, lives) = (check_user_quota_iff now sessions pending inb u).0 h in
          let (left, in_quota) = (check_quota_iff sessions pending inb u).0 rest in
          let (_, in_ips) = (check_ips_iff sessions inb u).0 left in
          (on, record { lives = lives; in_quota = in_quota; in_ips = in_ips })

      back :
          (u.enabled ≡ true) × IsAllowed now sessions pending inb u
          → (check_user now sessions pending inb u).0.enabled ≡ true
      back (on, ok) =
          let left = (check_ips_iff sessions inb u).1 (on, ok.in_ips) in
          let rest = (check_quota_iff sessions pending inb u).1 (left, ok.in_quota) in
          (check_user_quota_iff now sessions pending inb u).1 (on, rest, ok.lives)

  -- Nothing but the flag changes.
  pub check_user_same :
      (u : ManagedUser)
      → (check_user now sessions pending inb u).0
        ≡ record u { enabled = (check_user now sessions pending inb u).0.enabled }
  unfolding check_user check_quota check_ips
  check_user_same u = ground arith

  -- A user that stays enabled is returned as it came, with no violation; any other that came enabled
  -- is returned with one.
  pub check_user_blocks :
      (u : ManagedUser)
      → length (check_user now sessions pending inb u).1
          + (if (check_user now sessions pending inb u).0.enabled then 1 else 0)
        ≡ (if u.enabled then 1 else 0)
  unfolding check_user check_quota check_ips
  check_user_blocks u = ground arith

  -- The users of the inbound play no part.
  pub IsAllowed-users :
      (us : List ManagedUser) (u : ManagedUser)
      → IsAllowed now sessions pending inb u
      → IsAllowed now sessions pending (record inb { users = us }) u
  unfolding used_bytes ip_limit_off
  IsAllowed-users us u h = record { lives = h.lives; in_quota = h.in_quota; in_ips = h.in_ips }
