-- ===== src/Agent/Tests.antt =====
-- The parts of the agent's loop on a small node.
use xnode_agent.Prelude.{
  pos, dec_eq, is_yes, Str-discrete, ℕ_discrete, true, false, Option, none, some, [], ◌∷◌, Str,
  codes, ◌≡◌, refl,
}
use xnode_agent.Model.{SessionRecord}
use xnode_agent.Model.Values.{Json}
use xnode_agent.Samples.{state}
use xnode_agent.Xray.Plan.Laws.{plan_runtime_same}
use xnode_agent.Agent.Mode.{is_down}
use xnode_agent.Agent.Reload.{
  Answers, validate_content, is_hot, hot_calls, fall_back, carry_out, bring_to_core,
}

abbrev no_json : Str → Option Json
no_json s = none

-- Every call fails.
abbrev failing : Answers
failing = record {
  validates = false;
  applies_runtime = false;
  stores = false;
  forces = false;
  applies = false;
  changes = false;
  running_after = false;
  starts = false;
}

-- The validation fails, nothing else is called, and sync goes on.
failing_run : bring_to_core no_json failing true (some state) state ≡ (validate_content ∷ [], true)
unfolding bring_to_core is_hot is_down carry_out hot_calls fall_back dec_eq is_yes Str-discrete
    ℕ_discrete
failing_run = rw (plan_runtime_same no_json state (tt, tt)) refl

abbrev ann : SessionRecord
ann = record {
  user_id = codes "ann";
  inbound_id = codes "in";
  ips = codes "a" ∷ [];
  last_seen = pos 5;
  recent_connections = pos 0;
  source = codes "xray";
}

abbrev bob : SessionRecord
bob = record ann { user_id = codes "bob"; recent_connections = pos 2; source = codes "access-log" }
