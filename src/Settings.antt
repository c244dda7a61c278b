-- ===== src/Settings.antt =====
-- Load of internal/config/config.go: the defaults and the checks of the agent's configuration. What the
-- file decodes to, and what url.Parse makes of the panel's URL, are arguments.
mod Tests
use mathlib.Core.Option.{some-injective}
use xnode_agent.Prelude.{
  subst, refl, str_eq, Str, Bool, Option, none, some, ℤ, pos, List, codes, arith, ◌==◌, false, not,
  ◌⊎◌, ◌≢◌, eq_iff, if◌then◌else◌, ◌≡◌, positive, ◌||◌, [], true, ◌&&◌, Bool-cases, inl, inr,
}
use xnode_agent.Session.Address.{split_host}

pub record AgentConfig : Type 0 where
  pub node_id : Str
  pub panel_url : Str
  pub panel_token : Str
  pub sync_seconds : ℤ
  pub xray_binary : Str
  pub xray_config : Str
  pub xray_api : Str
  pub xray_access_log : Str
  pub xray_limits_file : Str
  pub state_file : Str
  pub traffic_spool_dir : Str
  pub ip_window_seconds : ℤ
  pub report_sessions : Bool
  pub strict_limit_backend_url : Str
  pub require_patched_core : Bool
  pub listen : Str
  pub network_interface : Str
  pub region : Str
  pub group : Str
  pub tags : List Str
  pub weight : ℤ

-- A parsed URL: its scheme and its host name.
pub record Url : Type 0 where
  pub scheme : Str
  pub hostname : Str

unfoldable pub is_loopback : Str → Bool
is_loopback host = host == codes "127.0.0.1" || host == codes "localhost" || host == codes "::1"

-- The address has a port, and a host that is loopback.
unfoldable pub is_loopback_address : Str → Bool
unfolding is_loopback
is_loopback_address address = elim (split_host address) [
  | none ↦ false
  | some host ↦ is_loopback host
]

unfoldable pub has_required : AgentConfig → Bool
has_required c = not (c.node_id == [] || c.panel_url == [] || c.panel_token == [])

unfoldable pub is_allowed_url : Option Url → Bool
unfolding is_loopback
is_allowed_url none = false
is_allowed_url (some u) =
    not (u.hostname == [])
    && (u.scheme == codes "https" || u.scheme == codes "http" && is_loopback u.hostname)

-- s, or the default where it is empty.
abbrev pub or_default : Str → Str → Str
or_default s default = if s == [] then default else s

abbrev pub or_positive : ℤ → ℤ → ℤ
or_positive n default = if positive n then n else default

unfoldable pub core_defaults : AgentConfig → AgentConfig
core_defaults c = record c {
  sync_seconds = or_positive c.sync_seconds (pos 15);
  xray_binary = or_default c.xray_binary (codes "/usr/local/bin/xray");
  xray_config = or_default c.xray_config (codes "/etc/xnode/xray.json");
  xray_api = or_default c.xray_api (codes "127.0.0.1:10085");
}

unfoldable pub path_defaults : AgentConfig → AgentConfig
path_defaults c = record c {
  xray_access_log = or_default c.xray_access_log (codes "/var/log/xnode/xray-access.log");
  xray_limits_file = or_default c.xray_limits_file (codes "/var/lib/xnode/limits.json");
  state_file = or_default c.state_file (codes "/var/lib/xnode/state.json");
  traffic_spool_dir = or_default c.traffic_spool_dir (codes "/var/lib/xnode/traffic-spool");
  ip_window_seconds = or_positive c.ip_window_seconds (pos 120);
  listen = or_default c.listen (codes "127.0.0.1:19090");
}

unfoldable pub weight_default : AgentConfig → AgentConfig
weight_default c = record c { weight = or_positive c.weight (pos 100) }

unfoldable pub load_listen : AgentConfig → Option AgentConfig
unfolding is_loopback_address weight_default
load_listen c = if is_loopback_address c.listen then some (weight_default c) else none

unfoldable pub load_api : AgentConfig → Option AgentConfig
unfolding is_loopback_address path_defaults load_listen
load_api c = if is_loopback_address c.xray_api then load_listen (path_defaults c) else none

-- The configuration, or an error.
unfoldable pub load : (Str → Option Url) → Option AgentConfig → Option AgentConfig
unfolding has_required is_allowed_url core_defaults load_api
load parse_url none = none
load parse_url (some c) =
    if not (has_required c)
    then none
    else if not (is_allowed_url (parse_url c.panel_url))
    then none
    else load_api (core_defaults c)

-- A host name of the node itself.
abbrev pub IsLocal : Str → Type 0
IsLocal host = (host ≡ codes "127.0.0.1") ⊎ (host ≡ codes "localhost") ⊎ (host ≡ codes "::1")

-- TLS to any host, or plain HTTP to the node itself.
abbrev pub IsProtected : Url → Type 0
IsProtected u =
    (u.hostname ≢ [])
    × ((u.scheme ≡ codes "https") ⊎ ((u.scheme ≡ codes "http") × IsLocal u.hostname))

-- What the agent relies on: it has an ID and a token, its requests to the panel are protected, the core's API
-- and the admin server listen on the node only, and the periods and the weight are positive.
pub record IsUsable (parse_url : Str → Option Url) (c : AgentConfig) : Type 0 where
  pub named : c.node_id ≢ []
  pub authorised : c.panel_token ≢ []
  pub panel : (u : Url) × (parse_url c.panel_url ≡ some u) × IsProtected u
  pub api : (host : Str) × (split_host c.xray_api ≡ some host) × IsLocal host
  pub admin : (host : Str) × (split_host c.listen ≡ some host) × IsLocal host
  pub sync : positive c.sync_seconds ≡ true
  pub window : positive c.ip_window_seconds ≡ true
  pub weight : positive c.weight ≡ true

is_loopback-IsLocal : (host : Str) → is_loopback host ≡ true → IsLocal host
unfolding is_loopback
is_loopback-IsLocal host h = ground (
  arith,
  h,
  eq_iff host (codes "127.0.0.1"),
  eq_iff host (codes "localhost"),
  eq_iff host (codes "::1"),
)

is_loopback_address-IsLocal :
    (address : Str)
    → is_loopback_address address ≡ true
    → (host : Str) × (split_host address ≡ some host) × IsLocal host
unfolding is_loopback_address
is_loopback_address-IsLocal address h = go (split_host address) h
  where
    go :
        (o : Option Str)
        → (elim o [ none ↦ false | some host ↦ is_loopback host ]) ≡ true
        → (host : Str) × (o ≡ some host) × IsLocal host
    go none k = absurd (ground (arith, k))
    go (some host) k = (host, refl, is_loopback-IsLocal host k)

is_allowed_url-IsProtected :
    (o : Option Url) → is_allowed_url o ≡ true → (u : Url) × (o ≡ some u) × IsProtected u
unfolding is_allowed_url
is_allowed_url-IsProtected none h = absurd (ground (arith, h))
is_allowed_url-IsProtected (some u) h = (
  u,
  refl,
  (
    ground (arith, h, eq_iff u.hostname []),
    ground (
      arith,
      h,
      eq_iff u.scheme (codes "https"),
      eq_iff u.scheme (codes "http"),
      is_loopback-IsLocal u.hostname,
    ),
  ),
)

has_required-named :
    (c : AgentConfig) → has_required c ≡ true → (c.node_id ≢ []) × (c.panel_token ≢ [])
unfolding has_required
has_required-named c h =
    (ground (arith, h, eq_iff c.node_id []), ground (arith, h, eq_iff c.panel_token []))

or_positive-positive : (n d : ℤ) → positive d ≡ true → positive (or_positive n d) ≡ true
or_positive-positive n d h = ground (arith, h)

passed :
    (b : Bool) (x : Option AgentConfig) (c : AgentConfig)
    → (if b then x else none) ≡ some c
    → (b ≡ true) × (x ≡ some c)
passed true x c h = (refl, h)
passed false x c h = absurd (ground (arith, h))

not_refused :
    (b : Bool) (x : Option AgentConfig) (c : AgentConfig)
    → (if not b then none else x) ≡ some c
    → (b ≡ true) × (x ≡ some c)
not_refused true x c h = (refl, h)
not_refused false x c h = absurd (ground (arith, h))

-- A configuration that Load returns has an ID and a token, a panel URL that is https, or http to the node
-- itself, and addresses of the core's API and of the admin server whose host is the node itself; the
-- periods and the weight are positive.
pub load-IsUsable :
    (parse_url : Str → Option Url) (decoded : Option AgentConfig) (c : AgentConfig)
    → load parse_url decoded ≡ some c
    → IsUsable parse_url c
unfolding load load_api load_listen core_defaults path_defaults weight_default has_required
load-IsUsable parse_url none c h = absurd (ground (arith, h))
load-IsUsable parse_url (some b) c h =
    let (required, h1) = not_refused (has_required b) _ c h in
    let (panel, h2) = not_refused (is_allowed_url (parse_url b.panel_url)) _ c h1 in
    let d = core_defaults b in
    let (api, h3) = passed (is_loopback_address d.xray_api) _ c h2 in
    let e = path_defaults d in
    let (admin, h4) = passed (is_loopback_address e.listen) _ c h3 in
    subst (IsUsable parse_url) (some-injective (weight_default e) c h4) (record {
      named = (has_required-named b required).0;
      authorised = (has_required-named b required).1;
      panel = is_allowed_url-IsProtected (parse_url b.panel_url) panel;
      api = is_loopback_address-IsLocal d.xray_api api;
      admin = is_loopback_address-IsLocal e.listen admin;
      sync = or_positive-positive b.sync_seconds (pos 15) refl;
      window = or_positive-positive b.ip_window_seconds (pos 120) refl;
      weight = or_positive-positive b.weight (pos 100) refl;
    })
