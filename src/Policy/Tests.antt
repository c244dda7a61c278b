-- ===== src/Policy/Tests.antt =====
-- Runs of the policy on a small state, and its theorems at it.
use xnode_agent.Prelude.{
  pos, add64, wrap64, residue, signed, ◌+ℤ◌, dec_eq, is_yes, Str-discrete, ℤ-discrete, ℕ_discrete,
  lookup, insert, index, filter, any, count_if, to_lower, false, [], ◌∷◌, codes, length, map, In,
  inl, inr, ◌≡◌, refl, arith, ◌≤ℤ◌, ◌+◌,
}
use xnode_agent.Model.{ManagedUser, ManagedInbound, DesiredState, UsageKey-discrete}
use xnode_agent.Samples.{no_limits, user, phone, laptop, late, heavy, inbound, state}
use xnode_agent.Policy.Check.{
  Pending, IsAllowed, pending_bytes, ip_count, ip_limit_off, key_of, violation, block, used_bytes,
  check_ips, check_quota, check_user, check_users,
}
use xnode_agent.Policy.Tightened.{member}
use xnode_agent.Policy.Device.{
  IsCapper, note_limit, limit_by_account, account_limit, active_count, device_user, device_users,
}
use xnode_agent.Policy.Evaluate.{
  Evaluation, session_map, evaluate_inbound, evaluate_inbounds, evaluate,
}
use xnode_agent.Policy.Evaluate.Laws.{
  AreTightened, enabled_total, evaluate-AreTightened, evaluate_blocks, evaluate-IsAllowed,
}
use xnode_agent.Policy.Evaluate.Cap.{evaluate_device_cap, evaluate_admits}
use xnode_agent.Policy.Drain.{
  is_member, drain_inbound, drain_inbounds, apply_drain, apply_drain_keeps,
}

abbrev pending : Pending
pending = (record { user_id = codes "heavy"; inbound_id = codes "in" }, pos 40) ∷ []

-- The evaluation at time 100, with all that it calls unfolded.
run : Evaluation
unfolding evaluate evaluate_inbounds evaluate_inbound session_map check_users check_user check_quota
    check_ips used_bytes pending_bytes ip_count ip_limit_off key_of block violation device_users
    device_user note_limit limit_by_account account_limit active_count lookup insert dec_eq is_yes
    Str-discrete ℤ-discrete ℕ_discrete UsageKey-discrete add64 wrap64 residue signed ◌+ℤ◌ to_lower
    count_if member
run = evaluate state [] pending (pos 100)

abbrev off : ManagedUser → ManagedUser
off u = record u { enabled = false }

abbrev evaluated : ManagedInbound
evaluated = record inbound { users = phone ∷ off laptop ∷ off late ∷ off heavy ∷ [] }

run_inbounds : run.state.inbounds ≡ evaluated ∷ []
unfolding run
run_inbounds = refl

run_reasons :
    map (λ v. v.reason) run.violations
    ≡ codes "expired" ∷ codes "traffic_quota" ∷ codes "device_limit" ∷ []
unfolding run
run_reasons = refl

phone-IsCapper : IsCapper phone
phone-IsCapper = record { on = refl; named = λ e. ground arith; capped = omega arith }

evaluate-IsAllowed_example : IsAllowed (pos 100) (session_map []) pending evaluated phone
unfolding run
evaluate-IsAllowed_example =
    evaluate-IsAllowed state [] pending (pos 100) evaluated phone (inl refl) (inl refl) refl

evaluate_device_cap_example : pos (count_if (member (codes "acc")) evaluated.users) ≤ℤ pos 1
unfolding run
evaluate_device_cap_example =
    evaluate_device_cap state [] pending (pos 100) evaluated phone (inl refl) (inl refl)
      phone-IsCapper

evaluate_blocks_example :
    length (evaluate state [] pending (pos 100)).violations
      + enabled_total (evaluate state [] pending (pos 100)).state.inbounds
    ≡ enabled_total state.inbounds
evaluate_blocks_example = evaluate_blocks state [] pending (pos 100)

evaluate-AreTightened_example :
    ((evaluate state [] pending (pos 100)).state
      ≡ record state { inbounds = (evaluate state [] pending (pos 100)).state.inbounds })
    × AreTightened state.inbounds (evaluate state [] pending (pos 100)).state.inbounds
evaluate-AreTightened_example = evaluate-AreTightened state [] pending (pos 100)

-- A user with an expiry and a quota that it keeps.
abbrev careful : ManagedUser
careful = user (codes "careful") [] (record no_limits {
  traffic_bytes = pos 100;
  traffic_used_bytes = pos 60;
  expires_at = pos 500;
})

abbrev quiet : DesiredState
quiet = record state { inbounds = record inbound { users = late ∷ careful ∷ [] } ∷ [] }

careful-IsAllowed :
    IsAllowed
      (pos 100)
      (session_map [])
      pending
      (record inbound { users = late ∷ careful ∷ [] })
      careful
unfolding run
careful-IsAllowed = record {
  lives = inr (omega arith);
  in_quota = inr (omega arith);
  in_ips = inl (omega arith);
}

evaluate_admits_example :
    (out : ManagedInbound) × In out (evaluate quiet [] pending (pos 100)).state.inbounds
    × (out ≡ record inbound { users = out.users })
    × In careful out.users
evaluate_admits_example =
    evaluate_admits quiet [] pending (pos 100) (record inbound { users = late ∷ careful ∷ [] })
      careful (inl refl) (inr (inl refl)) refl careful-IsAllowed (inl refl)

-- The node had the phone; the panel now adds the laptop and a second inbound.
abbrev before : DesiredState
before = record state { inbounds = record inbound { users = phone ∷ [] } ∷ [] }

abbrev after : DesiredState
after = record state {
  inbounds =
      record inbound { users = laptop ∷ phone ∷ [] } ∷ record inbound { id = codes "new" } ∷ [];
}

drained_run : DesiredState
unfolding apply_drain index drain_inbounds drain_inbound is_member filter any lookup insert dec_eq
    is_yes Str-discrete ℕ_discrete
drained_run = apply_drain before after

drained_run_inbounds : drained_run.inbounds ≡ record inbound { users = phone ∷ [] } ∷ []
unfolding drained_run
drained_run_inbounds = refl

apply_drain_keeps_example :
    (out : ManagedInbound) × In out (apply_drain before after).inbounds × (out.id ≡ codes "in")
apply_drain_keeps_example =
    apply_drain_keeps before after (record inbound { users = laptop ∷ phone ∷ [] })
      (record inbound { users = phone ∷ [] }) (inl refl) (inl refl) refl
