-- ===== src/Agent/SyncTests.antt =====
-- A round in which the panel, the core and the disk do as they are asked.
use xnode_agent.Xray.Manager.{Manager, Host, stays}
use xnode_agent.Prelude.{true, false, none, [], Str, Option, codes, pos, ℤ, some}
use xnode_agent.Model.Values.{Json}
use xnode_agent.Samples.{state}
use xnode_agent.Health.Rates.{Metrics, nothing}
use xnode_agent.Agent.Reload.{Answers}
use xnode_agent.Session.LogFile.{missing}
use xnode_agent.Traffic.Spool.{completes, err}
use xnode_agent.Agent.Round.{Config, Agent, Round, fetched, Synced}
use xnode_agent.Agent.Sync.{sync}
use xnode_agent.Agent.Sync.Heartbeats.{heartbeats, Tells}
use xnode_agent.Agent.Sync.Concludes.{KeepsFrom, sync-Tells, sync-KeepsFrom}

abbrev pub config : Config
config = record {
  node_id = codes "n";
  xray_api = codes "127.0.0.1:10085";
  xray_access_log = codes "/log";
  xray_limits_file = codes "/limits";
  ip_window = pos 60000000000;
  report_sessions = true;
  require_patched_core = false;
  has_limiter = false;
  region = [];
  group = [];
  tags = [];
  weight = pos 1;
}

abbrev pub agent : Agent
agent = record {
  sessions = record { items = []; offset = 0; last_info = none };
  spool = [];
  limits_file = none;
  state_file = none;
  state_version = [];
  online_users = 0;
  tracked_ips = 0;
  metadata = record { mode = codes "starting"; region = []; group = []; tags = []; weight = pos 1 };
  drain_ready = false;
  strict_ready = false;
}

-- Every call works.
abbrev answers : Answers
answers = record {
  validates = true;
  applies_runtime = true;
  stores = true;
  forces = true;
  applies = true;
  changes = true;
  running_after = true;
  starts = true;
}

-- The metrics of the first sample.
abbrev idle : Metrics
idle = record {
  cpu_percent = nothing;
  memory = 0;
  load1 = nothing;
  network_rx = 0;
  network_tx = 0;
  network_rx_bps = nothing;
  network_tx_bps = nothing;
}

abbrev pub round : Round
round = record {
  world = record { sends = λ b. true; deletes = λ e. true };
  io = completes;
  counters = err;
  event_id = codes "e";
  log = missing;
  exact = none;
  now = pos 0;
  panel = fetched state;
  writes_limits = true;
  running_first = false;
  running_then = false;
  running = false;
  core = answers;
  running_later = true;
  api_healthy = true;
  recovers = true;
  api_recovered = true;
  patch_ready = false;
  persists = true;
  running_last = true;
  version_output = none;
  metrics = idle;
  error_text = λ f. codes "error";
}

abbrev pub no_time : Str → Option ℤ
no_time s = none

abbrev pub no_json : Str → Option Json
no_json s = none

abbrev synced : Synced
synced = sync no_time no_json config round agent

sync-Tells_example : Tells config round synced.ended synced.agent (heartbeats synced.actions)
sync-Tells_example = sync-Tells no_time no_json config round agent

sync-KeepsFrom_example : KeepsFrom config round agent round.panel synced.ended synced.agent
sync-KeepsFrom_example = sync-KeepsFrom no_time no_json config round agent

-- A manager without a process, on a host where a start works.
abbrev manager : Manager
manager = record {
  limits_file = codes "l";
  config = some (codes "{}");
  backup = none;
  cmd = none;
  core_ready = false;
}

abbrev host : Host
host = record {
  hash = λ b. b;
  validates = λ b. true;
  writes_config = λ b. true;
  restores_config = λ b. true;
  writes_backup = λ b. true;
  spawns = λ c. stays;
  spawns_again = λ c. stays;
}
