-- ===== src/Agent/Sync/Concludes.antt =====
-- How a round of sync of internal/agent/agent.go ends: its heartbeat, and the state in effect after it.
use xnode_agent.Agent.Sync.Heartbeats.{
  heartbeats, heartbeats-append, heartbeats_calls, heartbeats_limit, Tells, Keeps, IsConcluded,
  IsAsOld, fail_with-IsConcluded, sync_api-IsConcluded, sync_stopped-IsConcluded,
}
use xnode_agent.Agent.Mode.{
  drained_by, at_threshold, drain_state, validate_mode, threshold_triggered,
}
use xnode_agent.Policy.Drain.{apply_drain}
use xnode_agent.Policy.Evaluate.{evaluate}
use xnode_agent.Prelude.{
  map, nat_eq, not, refl, List, [], Str, Bool, ℤ, Option, some, none, ◌∙◌, ◌≡◌, arith, if_both,
}
use xnode_agent.Model.{DesiredState, SessionRecord, PolicyViolation}
use xnode_agent.Model.Values.{Json, JsonMap}
use xnode_agent.Xray.Config.Routing.{Built, built, failed, panics}
use xnode_agent.Agent.Reload.{bring_to_core}
use xnode_agent.Agent.Round.{
  Config, Agent, Fetched, fetched, unreachable, Round, call_core, Ended, done, stopped, crashed,
  Synced,
}
use xnode_agent.Session.Tracker.{unix}
use xnode_agent.Policy.Check.{Pending}
use xnode_agent.Limits.PolicyFile.{write_core_policy}
use xnode_agent.Agent.Report.{fail_with}
use xnode_agent.Agent.Sync.{sync_config, sync_limits, sync_desired, sync, is_stopped, with_metadata}

version-drained_by :
    (o : Option DesiredState) (s : DesiredState) → (drained_by o s).version ≡ s.version
unfolding drained_by apply_drain
version-drained_by none s = refl
version-drained_by (some p) s = ground arith

version-drain_state :
    (o : Option DesiredState) (s : DesiredState) → (drain_state o s).version ≡ s.version
unfolding drain_state at_threshold
version-drain_state o s = version-drained_by o (at_threshold s) ∙ ground arith

module _ (cfg : Config) (r : Round) (old : Agent) where
  -- The state in effect after a round that returns nil is the panel's, as it was drained and evaluated.
  abbrev pub KeepsFrom : Fetched → Ended → Agent → Type 0
  KeepsFrom panel crashed a = IsAsOld cfg r old a
  KeepsFrom panel stopped a = IsAsOld cfg r old a
  KeepsFrom panel done a =
      (desired : DesiredState) × (state : DesiredState) × (panel ≡ fetched desired)
      × (state.version ≡ desired.version)
      × Keeps cfg r old state done a

  keeps_from :
      (desired state : DesiredState) (panel : Fetched) (e : Ended) (a : Agent)
      → panel ≡ fetched desired
      → state.version ≡ desired.version
      → Keeps cfg r old state e a
      → KeepsFrom panel e a
  keeps_from desired state panel crashed a p v k = k
  keeps_from desired state panel stopped a p v k = k
  keeps_from desired state panel done a p v k = (desired, state, p, v, k)

  abbrev pub Conclusion : Fetched → Synced → Type 0
  Conclusion panel s =
      Tells cfg r s.ended s.agent (heartbeats s.actions) × KeepsFrom panel s.ended s.agent

module _ (decode : Str → Option Json) (cfg : Config) (r : Round) (old : Agent) where
  sync_config-IsConcluded :
      (state : DesiredState) (a : Agent) (rs : List SessionRecord) (vs : List PolicyViolation)
      (triggered : Bool) (strict : List Str) (config : Built JsonMap)
      → IsAsOld cfg r old a
      → IsConcluded cfg r old state
          (sync_config decode cfg r a old.state_file state rs vs triggered strict config)
  unfolding sync_config
  sync_config-IsConcluded state a rs vs triggered strict failed k =
      fail_with-IsConcluded cfg r old state a [] _ _ k (unfold heartbeats in refl)
  sync_config-IsConcluded state a rs vs triggered strict panics k = (unfold heartbeats in refl, k)
  sync_config-IsConcluded state a rs vs triggered strict (built config) k =
      let (calls, goes_on) = bring_to_core decode r.core r.running old.state_file state in
      if_both (IsConcluded cfg r old state) goes_on _ _
        (sync_api-IsConcluded cfg r old state rs vs a _ triggered strict k (
          heartbeats-append (map call_core calls) _ (heartbeats_calls calls)
          ∙ heartbeats_limit cfg r state))
        (fail_with-IsConcluded cfg r old state a (map call_core calls) _ _ k
          (heartbeats_calls calls))

  sync_limits-IsConcluded :
      (state : DesiredState) (a : Agent) (rs : List SessionRecord) (vs : List PolicyViolation)
      (triggered : Bool)
      → IsAsOld cfg r old a
      → IsConcluded cfg r old state
          (sync_limits decode cfg r a old.state_file state rs vs triggered)
  unfolding sync_limits
  sync_limits-IsConcluded state a rs vs triggered k =
      let file =
        (write_core_policy r.writes_limits cfg.xray_limits_file a.limits_file state
          (unix r.now)).1 in
      let b : Agent = record a { limits_file = file } in
      if_both (IsConcluded cfg r old state) _ _ _
        (fail_with-IsConcluded cfg r old state b [] _ _ k (unfold heartbeats in refl))
        (if_both (IsConcluded cfg r old state) (is_stopped state) _ _
          (sync_stopped-IsConcluded cfg r old state rs vs b _ k)
          (sync_config-IsConcluded state b rs vs triggered _ _ k))

  sync_desired_concludes :
      (a : Agent) (sessions rs : List SessionRecord) (pending : Pending) (answer : Fetched)
      → IsAsOld cfg r old a
      → Conclusion cfg r old answer
          (sync_desired decode cfg r a old.state_file (sessions, rs) pending answer)
  unfolding sync_desired
  sync_desired_concludes a sessions rs pending unreachable k =
      unfold fail_with in unfold heartbeats in ((_, refl), k)
  sync_desired_concludes a sessions rs pending (fetched desired) k =
      if_both (Conclusion cfg r old (fetched desired)) (not (validate_mode desired.mode)) _ _
        (unfold fail_with in unfold heartbeats in ((_, refl), k))
        (let eval = evaluate (drain_state old.state_file desired) sessions pending (unix r.now) in
          let state = eval.state in
          let s =
            sync_limits-IsConcluded state (with_metadata cfg r state a) rs eval.violations
              (threshold_triggered desired) (unfold with_metadata in k) in
          (
            s.0,
            keeps_from cfg r old desired state (fetched desired) _ _ refl
                (unfold evaluate in version-drain_state old.state_file desired) s.1,
          ))

module _ (read_time : Str → Option ℤ) (decode : Str → Option Json) (cfg : Config) (r : Round) where
  sync_concludes : (a : Agent) → Conclusion cfg r a r.panel (sync read_time decode cfg r a)
  unfolding sync
  sync_concludes a = sync_desired_concludes decode cfg r a _ _ _ _ r.panel (refl, refl)

  -- A round sends one heartbeat, whatever the panel, the core and the disk answer, unless BuildConfig
  -- panics. It tells what the agent knows after the round, and that the node is not healthy if the round
  -- returns an error. If it returns nil, an API that is told to work has answered, before or after a
  -- recovery, and a node that is told to be healthy with it enforces its strict limits if the
  -- configuration requires the patched core.
  pub sync-Tells :
      (a : Agent)
      → Tells cfg r
          (sync read_time decode cfg r a).ended
          (sync read_time decode cfg r a).agent
          (heartbeats (sync read_time decode cfg r a).actions)
  sync-Tells a = (sync_concludes a).0

  -- Only a round that returns nil changes the version in effect and the stored state: the version is then
  -- that of the panel's state, and the state file has a state of that version if it could be written. A
  -- round that returns an error or panics leaves both as they were.
  pub sync-KeepsFrom :
      (a : Agent)
      → KeepsFrom cfg r a r.panel
          (sync read_time decode cfg r a).ended
          (sync read_time decode cfg r a).agent
  sync-KeepsFrom a = (sync_concludes a).1
