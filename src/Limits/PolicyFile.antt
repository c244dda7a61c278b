-- ===== src/Limits/PolicyFile.antt =====
-- internal/limits/policyfile.go. The file is what encoding/json reads from it: `none` where it is
-- missing or cannot be decoded. Its replacement is atomic: `io` says if every call of the sequence
-- that writes a temporary file and renames it works, and a failure leaves the file. A time is its Unix
-- seconds.
pub mod Document
pub mod Tombstones
pub mod Strict
use mathlib.Core.List.{foldl}
use xnode_agent.Prelude.{
  ℤ, pos, positive, leb_ℤ, ltb_ℤ, ◌+ℤ◌, Bool, true, false, not, ◌&&◌, ◌||◌, Option, none, some,
  List, [], ◌∷◌, ◌++◌, Str, codes, Map, lookup, insert, has, if◌then◌else◌, ◌==◌, str_eq, int_eq,
  sort, str_lt,
}
use xnode_agent.Model.{ManagedUser, ManagedInbound, DesiredState}
use xnode_agent.Policy.Check.{ip_limit_off}
use xnode_agent.Xray.Email.{accounting_email}

pub record CorePolicy : Type 0 where
  pub upload_bps : ℤ
  pub download_bps : ℤ
  pub connection_limit : ℤ
  pub ip_limit : ℤ
  pub blocked : Bool
  pub tombstone_until : ℤ
  pub session_generation : ℤ

abbrev pub Users : Type 0
Users = Map Str CorePolicy

pub record CorePolicyFile : Type 0 where
  pub version : ℤ
  pub generated_at : ℤ
  pub mode : Str
  pub users : Users

-- removedUserTombstone, in seconds.
abbrev pub removed_user_tombstone : ℤ
removed_user_tombstone = pos 300

unfoldable pub user_policy : ManagedInbound → ManagedUser → CorePolicy
user_policy inb u = record {
  upload_bps = u.limits.upload_bps;
  download_bps = u.limits.download_bps;
  connection_limit = u.limits.connection_limit;
  ip_limit = if ip_limit_off inb then pos 0 else u.limits.ip_limit;
  blocked = not u.enabled;
  tombstone_until = pos 0;
  session_generation = u.session_generation;
}

unfoldable pub add_user : ManagedInbound → Users → ManagedUser → Users
unfolding user_policy
add_user inb users u = insert (accounting_email u.id inb.id) (user_policy inb u) users

-- The loop over the desired inbounds and their users.
unfoldable pub current_users : Users → List ManagedInbound → Users
unfolding add_user
current_users users [] = users
current_users users (inb ∷ rest) = current_users (foldl (add_user inb) users inb.users) rest

-- The deadline of an old entry, which is set when the entry is first found without its user.
unfoldable pub deadline : ℤ → CorePolicy → ℤ
unfolding ◌+ℤ◌
deadline now p =
    if p.tombstone_until == pos 0 then now +ℤ removed_user_tombstone else p.tombstone_until

unfoldable pub tombstone : ℤ → CorePolicy → CorePolicy
unfolding deadline
tombstone now p = record p {
  upload_bps = pos 0;
  download_bps = pos 0;
  connection_limit = pos 0;
  ip_limit = pos 0;
  blocked = true;
  tombstone_until = deadline now p;
}

-- One round of the loop over the old entries.
unfoldable pub keep_removed : ℤ → Users → Str × CorePolicy → Users
keep_removed now users (email, p) =
    if has email users
    then users
    else if ltb_ℤ now (deadline now p)
    then insert email (tombstone now p) users
    else users

unfoldable pub old_users : Option CorePolicyFile → Users
old_users none = []
old_users (some old) = if old.version == pos 1 then old.users else []

unfoldable pub policy_document : Option CorePolicyFile → DesiredState → ℤ → CorePolicyFile
unfolding keep_removed old_users
policy_document old state now = record {
  version = pos 1;
  generated_at = now;
  mode = if state.mode == [] then codes "active" else state.mode;
  users = foldl (keep_removed now) (current_users [] state.inbounds) (old_users old);
}

-- The error of WriteCorePolicy as a Boolean, and the file after the call.
unfoldable pub write_core_policy :
    Bool → Str → Option CorePolicyFile → DesiredState → ℤ → Bool × Option CorePolicyFile
unfolding policy_document
write_core_policy io path file state now =
    if path == []
    then (true, file)
    else if io
    then (true, some (policy_document file state now))
    else (false, file)

unfoldable pub is_limited : ManagedUser → Bool
is_limited u =
    not u.enabled
    || positive u.limits.upload_bps
    || positive u.limits.download_bps
    || positive u.limits.connection_limit
    || positive u.limits.ip_limit

unfoldable pub limited_emails : List ManagedInbound → List Str
limited_emails [] = []
limited_emails (inb ∷ rest) =
    foldl (λ out u. if is_limited u then out ++ accounting_email u.id inb.id ∷ [] else out) []
      inb.users
    ++ limited_emails rest

unfoldable pub core_policy_emails : DesiredState → List Str
unfolding limited_emails is_limited
core_policy_emails state = sort str_lt (limited_emails state.inbounds)

-- An entry that only the patched core can enforce, and that has not run out.
unfoldable pub is_strict : ℤ → CorePolicy → Bool
is_strict now p =
    not (positive p.tombstone_until && leb_ℤ p.tombstone_until now)
    && (p.blocked
        || positive p.upload_bps
        || positive p.download_bps
        || positive p.connection_limit
        || positive p.ip_limit)

unfoldable pub strict_entries : ℤ → Users → List Str
unfolding is_strict
strict_entries now [] = []
strict_entries now ((email, p) ∷ users) =
    let rest = strict_entries now users in if is_strict now p then email ∷ rest else rest

unfoldable pub strict_policy_emails : Option CorePolicyFile → ℤ → List Str
unfolding strict_entries old_users
strict_policy_emails file now = sort str_lt (strict_entries now (old_users file))
