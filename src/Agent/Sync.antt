-- ===== src/Agent/Sync.antt =====
-- sync of internal/agent/agent.go: one round, from the delivery of traffic to the heartbeat, over the parts
-- of the agent. What the zone of the node makes of a time in the log and what json.Unmarshal makes of a
-- raw message are parameters.
pub mod Heartbeats
pub mod Concludes
use xnode_agent.Prelude.{
  refl, str_eq, nat_eq, ℤ, pos, true, false, Str, Option, Bool, List, if◌then◌else◌, ◌++◌, ◌∷◌,
  some, codes, ◌&&◌, length, not, [], ◌==◌, map, ◌||◌, show_nat,
}
use xnode_agent.Model.{DesiredState, SessionRecord, PolicyViolation}
use xnode_agent.Model.Values.{Json, JsonMap}
use xnode_agent.Policy.Check.{Pending}
use xnode_agent.Policy.Evaluate.{evaluate}
use xnode_agent.Traffic.Spool.{ok, err, Dir, spool_pending_usage, ok}
use xnode_agent.Traffic.Deliver.{retry_traffic, collect_traffic}
use xnode_agent.Limits.PolicyFile.{write_core_policy, strict_policy_emails}
use xnode_agent.Session.Tracker.{unix, counts}
use xnode_agent.Xray.Config.{build_config}
use xnode_agent.Xray.Config.Routing.{Built, built, failed, panics}
use xnode_agent.Agent.Mode.{
  validate_mode, is_down, threshold_triggered, drain_state, drain_ready, set_node_metadata,
}
use xnode_agent.Agent.Reload.{bring_to_core}
use xnode_agent.Agent.Snapshot.{Snapshot, session_snapshot}
use xnode_agent.Agent.Round.{
  Config, Agent, Fetched, fetched, unreachable, Failure, panel_failed, bad_mode, limits_unwritten,
  config_unbuilt, core_failed, recovery_failed, Round, Heartbeat, Action, stop_core, call_core,
  limit_users, recover_core, report, persist, send, Ended, done, stopped, crashed, Synced,
}
use xnode_agent.Agent.Report.{
  heartbeat, fail_with, report_action, persisted, succeed, message, is_healthy,
}

unfoldable pub is_stopped : DesiredState → Bool
is_stopped state = not state.enabled || is_down state.mode

-- The usage that waits in the spool, and none if it cannot be read.
unfoldable pub pending_of : Dir → Pending
pending_of dir = elim (spool_pending_usage dir) [ ok p ↦ p | err ↦ [] ]

module _ (cfg : Config) (r : Round) where
  -- From the health of the core's API on.
  unfoldable pub sync_checked :
      Agent
      → List Action
      → DesiredState
      → List SessionRecord
      → List PolicyViolation
      → Bool
      → List Str
      → Bool
      → Synced
  unfolding succeed message is_healthy
  sync_checked a actions state records violations triggered strict api =
      let b : Agent = record a { strict_ready = length strict == 0 || r.patch_ready } in
      succeed cfg r b actions state records violations (is_healthy cfg r strict b api)
        (message cfg r triggered violations strict b) api

  unfoldable pub sync_api :
      Agent
      → List Action
      → DesiredState
      → List SessionRecord
      → List PolicyViolation
      → Bool
      → List Str
      → Synced
  unfolding sync_checked
  sync_api a actions state records violations triggered strict =
      if not (r.running_later && not r.api_healthy)
      then sync_checked a actions state records violations triggered strict r.api_healthy
      else if not r.recovers
      then fail_with cfg r a (actions ++ recover_core ∷ []) (codes "xray recovery failed: ")
          recovery_failed
      else sync_checked a (actions ++ recover_core ∷ []) state records violations triggered strict
          r.api_recovered

  -- The external limiter, whose errors are only logged.
  unfoldable pub limit_action : DesiredState → List Action
  limit_action state = if cfg.has_limiter then limit_users state ∷ [] else []

  -- The core is stopped in a state that wants none.
  unfoldable pub sync_stopped :
      Agent → DesiredState → List SessionRecord → List PolicyViolation → List Str → Synced
  unfolding persisted report_action
  sync_stopped a state records violations strict =
      let b = persisted cfg r state (record a { strict_ready = length strict == 0 }) in
      record {
        agent = b;
        actions =
            stop_core
            ∷ persist state
            ∷ (report_action cfg r records violations
                ++ send (heartbeat cfg r b true (codes "node " ++ state.mode) false) ∷ []);
        ended = done;
      }

  -- setNodeMetadata, and whether the node is drained.
  unfoldable pub with_metadata : DesiredState → Agent → Agent
  with_metadata state a = record a {
    metadata = set_node_metadata cfg.region cfg.group cfg.tags cfg.weight state;
    drain_ready = drain_ready state (pos a.online_users);
  }

  -- The spool after retryTraffic and collectTraffic.
  unfoldable pub delivered : Dir → Dir
  delivered dir =
      (collect_traffic r.world r.io r.running_first r.counters r.event_id cfg.node_id (unix r.now)
        (retry_traffic r.world dir).0).1

module _ (decode : Str → Option Json) (cfg : Config) (r : Round) where
  -- BuildConfig gives a configuration, an error or a panic; a configuration is brought to the core.
  unfoldable pub sync_config :
      Agent
      → Option DesiredState
      → DesiredState
      → List SessionRecord
      → List PolicyViolation
      → Bool
      → List Str
      → Built JsonMap
      → Synced
  unfolding sync_api limit_action
  sync_config a previous state records violations triggered strict failed =
      fail_with cfg r a [] [] config_unbuilt
  sync_config a previous state records violations triggered strict panics = record {
    agent = a;
    actions = [];
    ended = crashed;
  }
  sync_config a previous state records violations triggered strict (built config) =
      let (calls, goes_on) = bring_to_core decode r.core r.running previous state in
      if goes_on
      then sync_api cfg r a (map call_core calls ++ limit_action cfg r state) state records
          violations triggered strict
      else fail_with cfg r a (map call_core calls) [] core_failed

  -- From the writing of the policy file on.
  unfoldable pub sync_limits :
      Agent
      → Option DesiredState
      → DesiredState
      → List SessionRecord
      → List PolicyViolation
      → Bool
      → Synced
  unfolding sync_config sync_stopped is_stopped
  sync_limits a previous state records violations triggered =
      let (wrote, file) =
        write_core_policy r.writes_limits cfg.xray_limits_file a.limits_file state (unix r.now) in
      let b : Agent = record a { limits_file = file } in
      let strict = strict_policy_emails file (unix r.now) in
      if not wrote
      then fail_with cfg r b [] (codes "write strict limits: ") limits_unwritten
      else if is_stopped state
      then sync_stopped cfg r b state records violations strict
      else sync_config b previous state records violations triggered strict
          (build_config decode state cfg.xray_api (cfg.xray_access_log ∷ []))

  -- From the panel's answer on.
  unfoldable pub sync_desired : Agent → Option DesiredState → Snapshot → Pending → Fetched → Synced
  unfolding sync_limits with_metadata
  sync_desired a previous (sessions, records) pending unreachable =
      fail_with cfg r a [] (codes "panel desired-state: ") panel_failed
  sync_desired a previous (sessions, records) pending (fetched desired) =
      if not (validate_mode desired.mode)
      then fail_with cfg r a [] [] bad_mode
      else let eval = evaluate (drain_state previous desired) sessions pending (unix r.now) in
        sync_limits (with_metadata cfg r eval.state a) previous eval.state records eval.violations
          (threshold_triggered desired)

module _ (read_time : Str → Option ℤ) (decode : Str → Option Json) (cfg : Config) (r : Round) where
  unfoldable pub sync : Agent → Synced
  unfolding sync_desired delivered pending_of
  sync a =
      let dir = delivered cfg r a.spool in
      let (tracker, snapshot) =
        session_snapshot read_time a.sessions r.log r.now cfg.ip_window r.running_then r.exact in
      let (users, ips) = counts snapshot.0 in
      let b : Agent = record a {
        sessions = tracker;
        spool = dir;
        online_users = users;
        tracked_ips = ips;
      } in
      sync_desired decode cfg r b a.state_file snapshot (pending_of dir) r.panel
