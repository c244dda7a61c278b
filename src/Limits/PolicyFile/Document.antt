-- ===== src/Limits/PolicyFile/Document.antt =====
-- What WriteCorePolicy does to each identity.
use mathlib.Core.List.{foldl}
use xnode_agent.Prelude.{
  ℤ, ltb_ℤ, Option, none, some, List, [], ◌∷◌, Str, lookup, lookup-insert, has, Distinct,
  insert-Distinct, if◌then◌else◌, ◌==◌, str_eq, int_eq, eq_iff, ◌≡◌, refl, arith, inl, inr,
  Bool-cases, dec_eq, ℤ-discrete, ℕ_discrete,
}
use xnode_agent.Model.{ManagedInbound, DesiredState}
use xnode_agent.Xray.Email.{accounting_email}
use xnode_agent.Limits.PolicyFile.{
  CorePolicy, Users, CorePolicyFile, add_user, current_users, deadline, tombstone, keep_removed,
  old_users, policy_document,
}

-- What an old entry of an identity that is gone becomes.
unfoldable pub removed_entry : ℤ → Option CorePolicy → Option CorePolicy
removed_entry now none = none
removed_entry now (some p) = if ltb_ℤ now (deadline now p) then some (tombstone now p) else none

abbrev pub or_else : Option CorePolicy → Option CorePolicy → Option CorePolicy
or_else (some p) o = some p
or_else none o = o

keep_removed-lookup :
    (now : ℤ) (email e : Str) (p : CorePolicy) (users : Users)
    → lookup e (keep_removed now users (email, p)) ≡ (
        if email == e
        then or_else (lookup e users) (removed_entry now (some p))
        else lookup e users)
unfolding keep_removed removed_entry
keep_removed-lookup now email e p users =
    ground (arith, lookup-insert email e (tombstone now p) users, eq_iff email e)

-- After the loop an identity has its current entry, or else what its old one becomes.
foldl-keep_removed :
    (now : ℤ) (e : Str) (old users : Users)
    → Distinct old
    → lookup e (foldl (keep_removed now) users old)
      ≡ or_else (lookup e users) (removed_entry now (lookup e old))
unfolding lookup removed_entry
foldl-keep_removed now e [] users d = ground arith
foldl-keep_removed now e ((email, p) ∷ old) users d = ground (
  arith,
  foldl-keep_removed now e old (keep_removed now users (email, p)) d.1,
  keep_removed-lookup now email e p users,
  eq_iff email e,
)

-- The entries of the identities that the state names.
abbrev pub current : DesiredState → Users
current state = current_users [] state.inbounds

abbrev pub AreDistinct : Option CorePolicyFile → Type 0
AreDistinct file = Distinct (old_users file)

-- Whatever identity is asked for, the written file has its entry from the desired state, or, where
-- the state does not name it, what its entry in the old file becomes. The names in the old file are
-- distinct; an old file of another version, or one that cannot be read, has no entries.
pub policy_document-lookup :
    (file : Option CorePolicyFile) (state : DesiredState) (now : ℤ) (e : Str)
    → AreDistinct file
    → lookup e (policy_document file state now).users
      ≡ or_else (lookup e (current state)) (removed_entry now (lookup e (old_users file)))
unfolding policy_document
policy_document-lookup file state now e d =
    foldl-keep_removed now e (old_users file) (current_users [] state.inbounds) d

keep_removed-Distinct :
    (now : ℤ) (users : Users) (x : Str × CorePolicy)
    → Distinct users
    → Distinct (keep_removed now users x)
unfolding keep_removed
keep_removed-Distinct now users (email, p) d = elim (Bool-cases (has email users)) [
  | inl e ↦ rw (e, keep_removed) d
  | inr e ↦ elim (Bool-cases (ltb_ℤ now (deadline now p))) [
    | inl l ↦ rw (e, l, keep_removed) (insert-Distinct email (tombstone now p) users d)
    | inr l ↦ rw (e, l, keep_removed) d
  ]
]

foldl-Distinct {ℓ} :
    {B : Type ℓ} (f : Users → B → Users) (users : Users) (xs : List B)
    → ((m : Users) (x : B) → Distinct m → Distinct (f m x))
    → Distinct users
    → Distinct (foldl f users xs)
foldl-Distinct f users [] keep d = d
foldl-Distinct f users (x ∷ xs) keep d = foldl-Distinct f (f users x) xs keep (keep users x d)

current_users-Distinct :
    (users : Users) (inbs : List ManagedInbound)
    → Distinct users
    → Distinct (current_users users inbs)
unfolding current_users
current_users-Distinct users [] d = d
current_users-Distinct users (inb ∷ rest) d =
    current_users-Distinct (foldl (add_user inb) users inb.users) rest (
      foldl-Distinct (add_user inb) users inb.users
        (λ m u h. unfold add_user in insert-Distinct (accounting_email u.id inb.id) _ m h) d)

-- A file that WriteCorePolicy wrote names an identity once.
pub policy_document-Distinct :
    (file : Option CorePolicyFile) (state : DesiredState) (now : ℤ)
    → Distinct (policy_document file state now).users
unfolding policy_document
policy_document-Distinct file state now =
    foldl-Distinct (keep_removed now) (current_users [] state.inbounds) (old_users file)
      (keep_removed-Distinct now) (current_users-Distinct [] state.inbounds tt)

pub old_users-policy_document :
    (file : Option CorePolicyFile) (state : DesiredState) (now : ℤ)
    → old_users (some (policy_document file state now)) ≡ (policy_document file state now).users
unfolding old_users policy_document dec_eq ℤ-discrete ℕ_discrete
old_users-policy_document file state now = refl

pub AreDistinct-policy_document :
    (file : Option CorePolicyFile) (state : DesiredState) (now : ℤ)
    → AreDistinct (some (policy_document file state now))
AreDistinct-policy_document file state now =
    rw (old_users-policy_document file state now) (policy_document-Distinct file state now)
