-- ===== src/Settings/Tests.antt =====
-- The least configuration that loads.
use xnode_agent.Session.Address.{split_host}
use xnode_agent.Prelude.{
  any, Str, Option, some, codes, pos, true, false, [], refl, ◌≡◌, dec_eq, is_yes, Str-discrete,
  ℕ_discrete,
}
use xnode_agent.Settings.{
  AgentConfig, Url, load, load_api, load_listen, core_defaults, path_defaults, weight_default,
  has_required, is_allowed_url, is_loopback_address, is_loopback, IsUsable, load-IsUsable,
}

abbrev least : AgentConfig
least = record {
  node_id = codes "n";
  panel_url = codes "https://panel";
  panel_token = codes "t";
  sync_seconds = pos 0;
  xray_binary = [];
  xray_config = [];
  xray_api = [];
  xray_access_log = [];
  xray_limits_file = [];
  state_file = [];
  traffic_spool_dir = [];
  ip_window_seconds = pos 0;
  report_sessions = true;
  strict_limit_backend_url = [];
  require_patched_core = false;
  listen = [];
  network_interface = [];
  region = [];
  group = [];
  tags = [];
  weight = pos 0;
}

abbrev panel_url : Str → Option Url
panel_url s = some (record { scheme = codes "https"; hostname = codes "panel" })

abbrev loaded : AgentConfig
loaded = weight_default (path_defaults (core_defaults least))

least_loads : load panel_url (some least) ≡ some loaded
unfolding load load_api load_listen core_defaults path_defaults weight_default has_required
    is_allowed_url is_loopback_address is_loopback split_host any dec_eq is_yes Str-discrete
    ℕ_discrete
least_loads = refl

load-IsUsable_example : IsUsable panel_url loaded
load-IsUsable_example = load-IsUsable panel_url (some least) loaded least_loads
