-- ===== src/Samples.antt =====
-- A small node, on which the tests run.
use xnode_agent.Prelude.{pos, true, none, [], ◌∷◌, Str, codes}
use xnode_agent.Model.{ManagedUser, ManagedInbound, NodePolicy, DesiredState, UserLimits}
use xnode_agent.Model.Values.{null}

abbrev pub no_limits : UserLimits
no_limits = record {
  traffic_bytes = pos 0;
  traffic_used_bytes = pos 0;
  upload_bps = pos 0;
  download_bps = pos 0;
  ip_limit = pos 0;
  device_limit = pos 0;
  connection_limit = pos 0;
  expires_at = pos 0;
}

abbrev pub user : Str → Str → UserLimits → ManagedUser
user id account limits = record {
  id = id;
  account_id = account;
  enabled = true;
  email = [];
  outbound_tag = [];
  session_generation = pos 0;
  level = pos 0;
  credential = none;
  limits = limits;
}

-- Two devices of one account with room for one, an expired user and one over its quota.
abbrev pub phone : ManagedUser
phone = user (codes "phone") (codes "acc") (record no_limits { device_limit = pos 1 })

abbrev pub laptop : ManagedUser
laptop = user (codes "laptop") (codes "acc") (record no_limits { device_limit = pos 2 })

abbrev pub late : ManagedUser
late = user (codes "late") [] (record no_limits { expires_at = pos 50 })

abbrev pub heavy : ManagedUser
heavy =
    user (codes "heavy") []
      (record no_limits { traffic_bytes = pos 100; traffic_used_bytes = pos 60 })

abbrev pub inbound : ManagedInbound
inbound = record {
  id = codes "in";
  tag = codes "tag";
  listen = [];
  port = null;
  protocol = codes "vless";
  ip_limit_mode = [];
  settings = none;
  stream_settings = none;
  sniffing = none;
  users = phone ∷ laptop ∷ late ∷ heavy ∷ [];
  metadata = none;
}

abbrev pub node : NodePolicy
node = record {
  region = [];
  group = [];
  tags = [];
  weight = pos 0;
  traffic_threshold_bytes = pos 0;
  traffic_used_bytes = pos 0;
  drain_target_online = pos 0;
}

abbrev pub state : DesiredState
state = record {
  version = codes "v1";
  enabled = true;
  mode = [];
  node = node;
  inbounds = inbound ∷ [];
  outbounds = [];
  routing = [];
  dns = [];
}
