-- ===== src/Limits/Tests.antt =====
-- Runs of the policy file, and its theorems at them.
use xnode_agent.Prelude.{
  pos, ◌+ℤ◌, dec_eq, is_yes, Str-discrete, ℤ-discrete, ℕ_discrete, lookup, true, false, Option,
  none, some, str_eq, [], ◌∷◌, Str, codes, inl, count_if, ◌==◌, ◌≡◌, refl, arith,
}
use xnode_agent.Model.{DesiredState}
use xnode_agent.Limits.PolicyFile.{
  CorePolicy, CorePolicyFile, current_users, old_users, write_core_policy, strict_policy_emails,
}
use xnode_agent.Limits.PolicyFile.Strict.{
  owner, needs_patch, strict_policy_emails-write_core_policy,
}
use xnode_agent.Limits.PolicyFile.Tombstones.{
  entry, write_all, WasThere, removed_user_blocked, removed_user_forgotten,
}

abbrev ann : Str
ann = codes "u:ann|i:in"

abbrev ann_policy : CorePolicy
ann_policy = record {
  upload_bps = pos 1000;
  download_bps = pos 0;
  connection_limit = pos 0;
  ip_limit = pos 0;
  blocked = false;
  tombstone_until = pos 0;
  session_generation = pos 3;
}

abbrev file : Option CorePolicyFile
file = some (record {
  version = pos 1;
  generated_at = pos 900;
  mode = codes "active";
  users = (ann, ann_policy) ∷ [];
})

abbrev empty_state : DesiredState
empty_state = record {
  version = codes "v2";
  enabled = true;
  mode = [];
  node = record {
    region = [];
    group = [];
    tags = [];
    weight = pos 0;
    traffic_threshold_bytes = pos 0;
    traffic_used_bytes = pos 0;
    drain_target_online = pos 0;
  };
  inbounds = [];
  outbounds = [];
  routing = [];
  dns = [];
}

ann-WasThere : WasThere ann ann_policy file
unfolding old_users lookup dec_eq is_yes Str-discrete ℤ-discrete ℕ_discrete
ann-WasThere = record { distinct = (refl, tt); found = refl; live = refl }

removed_user_blocked_example :
    (q : CorePolicy) × (entry ann
        (write_all file ((empty_state, pos 1000) ∷ (empty_state, pos 1200) ∷ []))
      ≡ some q)
    × (q.blocked ≡ true)
    × (q.tombstone_until ≡ pos 1000 +ℤ pos 300)
unfolding current_users lookup ◌+ℤ◌
removed_user_blocked_example =
    removed_user_blocked ann ann_policy file empty_state (pos 1000) ((empty_state, pos 1200) ∷ [])
      (omega arith) ann-WasThere (refl, (refl, tt)) (omega arith, tt)

removed_user_forgotten_example :
    entry ann (write_all file ((empty_state, pos 1000) ∷ (empty_state, pos 1300) ∷ [])) ≡ none
unfolding current_users lookup ◌+ℤ◌
removed_user_forgotten_example =
    removed_user_forgotten ann ann_policy file empty_state (pos 1000) ((empty_state, pos 1300) ∷ [])
      (omega arith) ann-WasThere (refl, (refl, tt)) (empty_state, pos 1300) (inl refl) (omega arith)

strict_policy_emails-write_core_policy_example :
    count_if
      (λ x. x == ann)
      (strict_policy_emails
        (write_core_policy true (codes "limits.json") file empty_state (pos 1000)).1
        (pos 1000))
    ≡ needs_patch (pos 1000) (owner ann empty_state.inbounds none) (lookup ann (old_users file))
unfolding old_users lookup dec_eq is_yes Str-discrete ℤ-discrete ℕ_discrete
strict_policy_emails-write_core_policy_example =
    strict_policy_emails-write_core_policy (codes "limits.json") file empty_state (pos 1000) ann
      (λ e. cc) (refl, tt)
