-- ===== src/Agent/Run.antt =====
-- Run of internal/agent/agent.go: a round at the start and one at each tick, until the agent is cancelled or
-- the admin server ends; and what New and preparePaths do before.
pub mod Lives
pub mod Beats
use xnode_agent.Prelude.{
  ℤ, pos, negsuc, ℕ, ◌*◌, ◌+◌, Bool, true, false, not, ◌||◌, ◌&&◌, Option, none, some, List, [],
  ◌∷◌, ◌++◌, Str, codes, if◌then◌else◌, ◌==◌, str_eq,
}
use xnode_agent.Model.{DesiredState}
use xnode_agent.Model.Values.{Json}
use xnode_agent.Settings.{AgentConfig}
use xnode_agent.Traffic.Spool.{Dir}
use xnode_agent.Limits.PolicyFile.{CorePolicyFile}
use xnode_agent.Health.Rates.{nothing}
use xnode_agent.Admin.{Served, serve}
use xnode_agent.Agent.Mode.{NodeMetadata}
use xnode_agent.Agent.Round.{
  Config, Agent, Round, Heartbeat, Action, stop_core, call_core, limit_users, recover_core, report,
  persist, send, Ended, done, stopped, crashed, Synced,
}
use xnode_agent.Agent.Sync.{sync}

-- time.Duration(n) * time.Second
unfoldable pub seconds : ℤ → ℤ
seconds (pos n) = pos (n * 1000000000)
seconds (negsuc n) = negsuc (n * 1000000000 + 999999999)

-- What a round reads of the configuration.
unfoldable pub config_of : AgentConfig → Config
unfolding seconds
config_of c = record {
  node_id = c.node_id;
  xray_api = c.xray_api;
  xray_access_log = c.xray_access_log;
  xray_limits_file = c.xray_limits_file;
  ip_window = seconds c.ip_window_seconds;
  report_sessions = c.report_sessions;
  require_patched_core = c.require_patched_core;
  has_limiter = not (c.strict_limit_backend_url == []);
  region = c.region;
  group = c.group;
  tags = c.tags;
  weight = c.weight;
}

-- New, on the files that an earlier run has left.
unfoldable pub new_agent : AgentConfig → Dir → Option CorePolicyFile → Option DesiredState → Agent
new_agent c spool limits_file state_file = record {
  sessions = record { items = []; offset = 0; last_info = none };
  spool = spool;
  limits_file = limits_file;
  state_file = state_file;
  state_version = [];
  online_users = 0;
  tracked_ips = 0;
  metadata = record {
    mode = codes "starting";
    region = c.region;
    group = c.group;
    tags = c.tags;
    weight = c.weight;
  };
  drain_ready = false;
  strict_ready = false;
}

-- The heartbeat of an agent that has sent none.
unfoldable pub no_heartbeat : Heartbeat
no_heartbeat = record {
  node_id = [];
  agent_version = [];
  xray_version = [];
  healthy = false;
  xray_running = false;
  xray_api = false;
  metrics = record {
    cpu_percent = nothing;
    memory = 0;
    load1 = nothing;
    network_rx = 0;
    network_tx = 0;
    network_rx_bps = nothing;
    network_tx_bps = nothing;
  };
  online_users = 0;
  tracked_ips = 0;
  state_version = [];
  metadata = record { mode = []; region = []; group = []; tags = []; weight = pos 0 };
  drain_ready = false;
  strict_limits_ready = false;
  message = [];
}

-- The directories up to the first that cannot be made.
unfoldable pub prepare_paths : (Str → Bool) → List Str → Bool
prepare_paths makes [] = true
prepare_paths makes (dir ∷ dirs) =
    let rest = prepare_paths makes dirs in
    if dir == [] || dir == codes "." then rest else if makes dir then rest else false

-- What Run selects on.
pub data Event : Type 0 where
  tick : Round → Event
  cancelled : Event
  admin_ended : Served → Event

-- Whether Run still waits, or how it ends: with the context's error, or with what ended the admin server.
pub data Exit : Type 0 where
  waiting : Exit
  unprepared : Exit
  canceled : Exit
  admin_closed : Exit
  admin_failed : Str → Exit
  panicked : Exit

-- The agent, the heartbeat that the admin server shows, and all that was done.
pub record Life : Type 0 where
  pub agent : Agent
  pub last : Heartbeat
  pub actions : List Action

-- lastHB after the actions: the last heartbeat that was sent.
unfoldable pub last_sent : Heartbeat → List Action → Heartbeat
last_sent hb [] = hb
last_sent hb (send h ∷ rest) = last_sent h rest
last_sent hb (stop_core ∷ rest) = last_sent hb rest
last_sent hb (call_core c ∷ rest) = last_sent hb rest
last_sent hb (limit_users s ∷ rest) = last_sent hb rest
last_sent hb (recover_core ∷ rest) = last_sent hb rest
last_sent hb (report rs vs ∷ rest) = last_sent hb rest
last_sent hb (persist s ∷ rest) = last_sent hb rest

unfoldable pub admin_exit : Option Str → Exit
admin_exit none = admin_closed
admin_exit (some e) = admin_failed e

module _ (read_time : Str → Option ℤ) (decode : Str → Option Json) (cfg : Config) where
  unfoldable pub after_round : Round → Life → Life
  unfolding last_sent
  after_round r l =
      let s = sync read_time decode cfg r l.agent in
      record {
        agent = s.agent;
        last = last_sent l.last s.actions;
        actions = l.actions ++ s.actions;
      }

  -- The error of a round is only logged; a panic ends the program.
  unfoldable pub ends_with : Ended → Life × Exit → Life → Life × Exit
  ends_with done rest l = rest
  ends_with stopped rest l = rest
  ends_with crashed rest l = (l, panicked)

  unfoldable pub run_loop : List Event → Life → Life × Exit
  unfolding ends_with after_round admin_exit
  run_loop [] l = (l, waiting)
  run_loop (cancelled ∷ es) l = (record l { actions = l.actions ++ stop_core ∷ [] }, canceled)
  run_loop (admin_ended e ∷ es) l = (l, admin_exit (serve e))
  run_loop (tick r ∷ es) l =
      let l' = after_round r l in
      ends_with (sync read_time decode cfg r l.agent).ended (run_loop es l') l'

  -- The life of an agent whose directories could be made or not, from its first round on.
  unfoldable pub run : Bool → Round → List Event → Agent → Life × Exit
  unfolding run_loop
  run prepared first es a =
      let l : Life = record { agent = a; last = no_heartbeat; actions = [] } in
      if prepared then run_loop (tick first ∷ es) l else (l, unprepared)
