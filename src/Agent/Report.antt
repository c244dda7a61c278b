-- ===== src/Agent/Report.antt =====
-- How a round of sync of internal/agent/agent.go ends: sendHeartbeat, reportSessions, and the message of the
-- heartbeat.
use xnode_agent.Prelude.{
  str_eq, nat_eq, false, Str, Bool, List, if◌then◌else◌, ◌++◌, ◌∷◌, some, codes, ◌&&◌, length, not,
  [], ◌==◌, ◌||◌, show_nat,
}
use xnode_agent.Model.{DesiredState, SessionRecord, PolicyViolation}
use xnode_agent.Xray.Version.{version}
use xnode_agent.Agent.Round.{
  Config, Agent, Failure, Round, Heartbeat, Action, report, persist, send, done, stopped, Synced,
}

-- Version
abbrev pub agent_version : Str
agent_version = codes "1.1.0"

module _ (cfg : Config) (r : Round) where
  unfoldable pub heartbeat : Agent → Bool → Str → Bool → Heartbeat
  heartbeat a healthy text api = record {
    node_id = cfg.node_id;
    agent_version = agent_version;
    xray_version = version r.version_output;
    healthy = healthy;
    xray_running = r.running_last;
    xray_api = api;
    metrics = r.metrics;
    online_users = a.online_users;
    tracked_ips = a.tracked_ips;
    state_version = a.state_version;
    metadata = a.metadata;
    drain_ready = a.drain_ready;
    strict_limits_ready = a.strict_ready;
    message = text;
  }

  -- sendHeartbeat and the return of the error.
  unfoldable pub fail_with : Agent → List Action → Str → Failure → Synced
  fail_with a actions prefix f = record {
    agent = a;
    actions = actions ++ send (heartbeat a false (prefix ++ r.error_text f) false) ∷ [];
    ended = stopped;
  }

  -- reportSessions
  unfoldable pub report_action : List SessionRecord → List PolicyViolation → List Action
  report_action records violations =
      if cfg.report_sessions then report records violations ∷ [] else []

  unfoldable pub persisted : DesiredState → Agent → Agent
  persisted state a = record a {
    state_version = state.version;
    state_file = if r.persists then some state else a.state_file;
  }

  -- The end of a round that returns nil.
  unfoldable pub succeed :
      Agent
      → List Action
      → DesiredState
      → List SessionRecord
      → List PolicyViolation
      → Bool
      → Str
      → Bool
      → Synced
  unfolding persisted report_action
  succeed a actions state records violations healthy text api =
      let b = persisted state a in
      record {
        agent = b;
        actions =
            actions
            ++ (report_action records violations
                ++ (persist state ∷ send (heartbeat b healthy text api) ∷ []));
        ended = done;
      }

  unfoldable pub message : Bool → List PolicyViolation → List Str → Agent → Str
  message triggered violations strict a =
      (if triggered then codes "traffic threshold reached; draining" else codes "ok")
      ++ (if length violations == 0
          then []
          else codes "; " ++ show_nat (length violations) ++ codes " policy block(s)")
      ++ (if length strict == 0 || a.strict_ready
          then []
          else codes "; strict speed/connection core patch not detected")
      ++ (if a.drain_ready then codes "; drain ready" else [])

  unfoldable pub is_healthy : List Str → Agent → Bool → Bool
  is_healthy strict a api =
      api && not (not (length strict == 0) && not a.strict_ready && cfg.require_patched_core)
