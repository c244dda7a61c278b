-- ===== src/Limits/PolicyFile/Strict.antt =====
-- Which identities need the patched core, by the file that WriteCorePolicy leaves.
use mathlib.Core.List.{foldl}
use xnode_agent.Prelude.{
  ℕ, ℤ, pos, positive, ltb_ℤ, ◌+ℤ◌, true, false, not, ◌&&◌, ◌||◌, Option, none, some, List, [], ◌∷◌,
  Str, lookup, lookup-insert, Distinct, count_if, count_if-sort, str_lt, if◌then◌else◌, ◌==◌,
  str_eq, int_eq, eq_iff, ◌≡◌, ◌≢◌, refl, ◌∙◌, ap, arith,
}
use xnode_agent.Model.{ManagedUser, ManagedInbound, DesiredState}
use xnode_agent.Policy.Check.{ip_limit_off}
use xnode_agent.Xray.Email.{accounting_email}
use xnode_agent.Limits.PolicyFile.{
  CorePolicy, CorePolicyFile, Users, is_strict, strict_entries, strict_policy_emails, old_users,
  policy_document, write_core_policy, user_policy, add_user, current_users, deadline, tombstone,
}
use xnode_agent.Limits.PolicyFile.Document.{
  removed_entry, or_else, AreDistinct, AreDistinct-policy_document, old_users-policy_document,
  policy_document-lookup,
}

-- How often an identity with this entry is reported.
unfoldable reported : ℤ → Option CorePolicy → ℕ
reported now none = 0
reported now (some p) = if is_strict now p then 1 else 0

-- The last user with the identity, with its inbound, or the one that was found before.
unfoldable owner_in :
    ManagedInbound
    → Str
    → List ManagedUser
    → Option (ManagedInbound × ManagedUser)
    → Option (ManagedInbound × ManagedUser)
owner_in inb e [] found = found
owner_in inb e (u ∷ us) found =
    owner_in inb e us (if accounting_email u.id inb.id == e then some (inb, u) else found)

unfoldable pub owner :
    Str
    → List ManagedInbound
    → Option (ManagedInbound × ManagedUser)
    → Option (ManagedInbound × ManagedUser)
unfolding owner_in
owner e [] found = found
owner e (inb ∷ rest) found = owner e rest (owner_in inb e inb.users found)

-- How often an identity needs the patched core, by its user in the state and its entry in the old file: a user
-- that is disabled, or has a limit of speed, connections or addresses that its inbound does not switch
-- off; and an identity without a user for 300 seconds, from the first write or by its own deadline.
unfoldable pub needs_patch : ℤ → Option (ManagedInbound × ManagedUser) → Option CorePolicy → ℕ
needs_patch now (some (inb, u)) old =
    if not u.enabled
      || positive u.limits.upload_bps
      || positive u.limits.download_bps
      || positive u.limits.connection_limit
      || not (ip_limit_off inb) && positive u.limits.ip_limit
    then 1
    else 0
needs_patch now none none = 0
needs_patch now none (some p) =
    if ltb_ℤ now (if p.tombstone_until == pos 0 then now +ℤ pos 300 else p.tombstone_until)
    then 1
    else 0

-- The entry of a user.
abbrev entry_of : Option (ManagedInbound × ManagedUser) → Option CorePolicy
entry_of none = none
entry_of (some (inb, u)) = some (user_policy inb u)

foldl-add_user :
    (inb : ManagedInbound) (e : Str) (us : List ManagedUser) (users : Users)
    (found : Option (ManagedInbound × ManagedUser))
    → lookup e users ≡ entry_of found
    → lookup e (foldl (add_user inb) users us) ≡ entry_of (owner_in inb e us found)
unfolding owner_in
foldl-add_user inb e [] users found h = h
foldl-add_user inb e (u ∷ us) users found h =
    foldl-add_user inb e us (add_user inb users u)
      (if accounting_email u.id inb.id == e then some (inb, u) else found)
      (unfold add_user in
        ground (arith, h, lookup-insert (accounting_email u.id inb.id) e (user_policy inb u) users))

current_users-owner :
    (e : Str) (inbs : List ManagedInbound) (users : Users)
    (found : Option (ManagedInbound × ManagedUser))
    → lookup e users ≡ entry_of found
    → lookup e (current_users users inbs) ≡ entry_of (owner e inbs found)
unfolding owner current_users
current_users-owner e [] users found h = h
current_users-owner e (inb ∷ rest) users found h =
    current_users-owner e rest (foldl (add_user inb) users inb.users)
      (owner_in inb e inb.users found) (foldl-add_user inb e inb.users users found h)

is_strict-user_policy :
    (now : ℤ) (inb : ManagedInbound) (u : ManagedUser) (old : Option CorePolicy)
    → reported now (some (user_policy inb u)) ≡ needs_patch now (some (inb, u)) old
unfolding reported needs_patch is_strict user_policy
is_strict-user_policy now inb u old = ground arith

reported-removed_entry :
    (now : ℤ) (old : Option CorePolicy)
    → reported now (removed_entry now old) ≡ needs_patch now none old
unfolding reported needs_patch removed_entry is_strict tombstone deadline
reported-removed_entry now none = refl
reported-removed_entry now (some p) = ground arith

reported-needs_patch :
    (now : ℤ) (found : Option (ManagedInbound × ManagedUser)) (old : Option CorePolicy)
    → reported now (or_else (entry_of found) (removed_entry now old)) ≡ needs_patch now found old
reported-needs_patch now none old = reported-removed_entry now old
reported-needs_patch now (some (inb, u)) old = is_strict-user_policy now inb u old

lookup_at : (users : Users) (j k : Str) → j ≡ k → lookup j users ≡ lookup k users
lookup_at users j k h = ap (λ x. lookup x users) h

count_if-strict_entries :
    (now : ℤ) (e : Str) (users : Users)
    → Distinct users
    → count_if (λ x. x == e) (strict_entries now users) ≡ reported now (lookup e users)
unfolding strict_entries count_if lookup reported
count_if-strict_entries now e [] d = refl
count_if-strict_entries now e ((email, p) ∷ users) d =
    ground
      (arith, eq_iff email e, d.0, lookup_at users email e, count_if-strict_entries now e users d.1)

strict_entries_report :
    (file : Option CorePolicyFile) (now : ℤ) (e : Str)
    → AreDistinct file
    → count_if (λ x. x == e) (strict_policy_emails file now)
      ≡ reported now (lookup e (old_users file))
unfolding strict_policy_emails
strict_entries_report file now e d =
    count_if-sort str_lt (λ x. x == e) (strict_entries now (old_users file))
    ∙ count_if-strict_entries now e (old_users file) d

written :
    (path : Str) (file : Option CorePolicyFile) (state : DesiredState) (now : ℤ)
    → path ≢ []
    → (write_core_policy true path file state now).1 ≡ some (policy_document file state now)
unfolding write_core_policy
written path file state now h =
    let named : (path == []) ≡ false = ground (arith, h, eq_iff path []) in rw named refl

-- After a write that works, to a path that is not empty, each identity is reported as needing the patched core
-- once or not at all. Where the desired state has a user with that accounting email, it is reported
-- exactly if the last such user is disabled or has a limit of its speed, of its connections, or of its
-- addresses that its inbound does not switch off; otherwise exactly if the old file has it and its
-- deadline is not over, which is 300 seconds from now where it has none. The names in the old file are
-- distinct.
pub strict_policy_emails-write_core_policy :
    (path : Str) (file : Option CorePolicyFile) (state : DesiredState) (now : ℤ) (e : Str)
    → path ≢ []
    → AreDistinct file
    → count_if
        (λ x. x == e)
        (strict_policy_emails (write_core_policy true path file state now).1 now)
      ≡ needs_patch now (owner e state.inbounds none) (lookup e (old_users file))
strict_policy_emails-write_core_policy path file state now e h d =
    ap (λ f. count_if (λ x. x == e) (strict_policy_emails f now)) (written path file state now h)
    ∙ strict_entries_report (some (policy_document file state now)) now e
        (AreDistinct-policy_document file state now)
    ∙ ap (λ us. reported now (lookup e us)) (old_users-policy_document file state now)
    ∙ ap (reported now) (policy_document-lookup file state now e d)
    ∙ ap (λ o. reported now (or_else o (removed_entry now (lookup e (old_users file)))))
        (current_users-owner e state.inbounds [] none (unfold lookup in refl))
    ∙ reported-needs_patch now (owner e state.inbounds none) (lookup e (old_users file))
