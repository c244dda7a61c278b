-- ===== src/Agent/Round.antt =====
-- A round of internal/agent/agent.go as data: the agent and what it keeps, what other programs and the
-- disk answer, and what the round does to them.
use xnode_agent.Prelude.{str_eq, nat_eq, Str, ℤ, List, Option, Bool, ℕ}
use xnode_agent.Model.{DesiredState, SessionRecord, PolicyViolation}
use xnode_agent.Traffic.Spool.{Dir, Enqueuing}
use xnode_agent.Traffic.Deliver.{World, Counters}
use xnode_agent.Limits.PolicyFile.{CorePolicyFile}
use xnode_agent.Session.LogFile.{LogTracker, Opening}
use xnode_agent.Health.Rates.{Metrics}
use xnode_agent.Agent.Mode.{NodeMetadata}
use xnode_agent.Agent.Reload.{Call, Answers}

-- The fields of model.AgentConfig that a round reads. The window is in nanoseconds.
pub record Config : Type 0 where
  pub node_id : Str
  pub xray_api : Str
  pub xray_access_log : Str
  pub xray_limits_file : Str
  pub ip_window : ℤ
  pub report_sessions : Bool
  pub require_patched_core : Bool
  pub has_limiter : Bool
  pub region : Str
  pub group : Str
  pub tags : List Str
  pub weight : ℤ

-- The agent with what it keeps on disk.
pub record Agent : Type 0 where
  pub sessions : LogTracker
  pub spool : Dir
  pub limits_file : Option CorePolicyFile
  pub state_file : Option DesiredState
  pub state_version : Str
  pub online_users : ℕ
  pub tracked_ips : ℕ
  pub metadata : NodeMetadata
  pub drain_ready : Bool
  pub strict_ready : Bool

-- What the panel answers to the request for the desired state.
pub data Fetched : Type 0 where
  fetched : DesiredState → Fetched
  unreachable : Fetched

-- Where a round can fail; the text of the error is a parameter.
pub data Failure : Type 0 where
  panel_failed : Failure
  bad_mode : Failure
  limits_unwritten : Failure
  config_unbuilt : Failure
  core_failed : Failure
  recovery_failed : Failure

-- The answers of a round. Whether the core runs is asked for the traffic, for the sessions, for the plan,
-- before its recovery, and for the heartbeat.
pub record Round : Type 0 where
  pub world : World
  pub io : Enqueuing
  pub counters : Counters
  pub event_id : Str
  pub log : Opening
  pub exact : Option (List SessionRecord)
  pub now : ℤ
  pub panel : Fetched
  pub writes_limits : Bool
  pub running_first : Bool
  pub running_then : Bool
  pub running : Bool
  pub core : Answers
  pub running_later : Bool
  pub api_healthy : Bool
  pub recovers : Bool
  pub api_recovered : Bool
  pub patch_ready : Bool
  pub persists : Bool
  pub running_last : Bool
  pub version_output : Option Str
  pub metrics : Metrics
  pub error_text : Failure → Str

-- The heartbeat.
pub record Heartbeat : Type 0 where
  pub node_id : Str
  pub agent_version : Str
  pub xray_version : Str
  pub healthy : Bool
  pub xray_running : Bool
  pub xray_api : Bool
  pub metrics : Metrics
  pub online_users : ℕ
  pub tracked_ips : ℕ
  pub state_version : Str
  pub metadata : NodeMetadata
  pub drain_ready : Bool
  pub strict_limits_ready : Bool
  pub message : Str

-- What a round does outside the agent, after the traffic and the policy file.
pub data Action : Type 0 where
  stop_core : Action
  call_core : Call → Action
  limit_users : DesiredState → Action
  recover_core : Action
  report : List SessionRecord → List PolicyViolation → Action
  persist : DesiredState → Action
  send : Heartbeat → Action

-- How a round ends: sync returns nil or an error, or BuildConfig panics.
pub data Ended : Type 0 where
  done : Ended
  stopped : Ended
  crashed : Ended

pub record Synced : Type 0 where
  pub agent : Agent
  pub actions : List Action
  pub ended : Ended
