-- ===== src/Model.antt =====
-- The records of internal/model/model.go, which the agent shares with the panel and the core.
-- `int` and `int64` are ℤ (sums wrap by `add64`), strings are their bytes, a json.RawMessage is its
-- bytes, and a nil map is `none`. Fields for other programs' use only are kept where code reads or
-- compares them.
pub mod Values
use xnode_agent.Prelude.{
  Bool, List, Option, Str, ℤ, Comparable, of_discrete, ℕ_discrete, ℤ-discrete,
}
use Values.{Json, JsonMap, Json-discrete}

pub record UserLimits : Type 0 where
  pub traffic_bytes : ℤ
  pub traffic_used_bytes : ℤ
  pub upload_bps : ℤ
  pub download_bps : ℤ
  pub ip_limit : ℤ
  pub device_limit : ℤ
  pub connection_limit : ℤ
  pub expires_at : ℤ

pub record ManagedUser : Type 0 where
  pub id : Str
  pub account_id : Str
  pub enabled : Bool
  pub email : Str
  pub outbound_tag : Str
  pub session_generation : ℤ
  pub level : ℤ
  pub credential : Option JsonMap
  pub limits : UserLimits

pub record ManagedInbound : Type 0 where
  pub id : Str
  pub tag : Str
  pub listen : Str
  pub port : Json
  pub protocol : Str
  pub ip_limit_mode : Str
  pub settings : Option JsonMap
  pub stream_settings : Option JsonMap
  pub sniffing : Option JsonMap
  pub users : List ManagedUser
  pub metadata : Option JsonMap

pub record NodePolicy : Type 0 where
  pub region : Str
  pub group : Str
  pub tags : List Str
  pub weight : ℤ
  pub traffic_threshold_bytes : ℤ
  pub traffic_used_bytes : ℤ
  pub drain_target_online : ℤ

pub record DesiredState : Type 0 where
  pub version : Str
  pub enabled : Bool
  pub mode : Str
  pub node : NodePolicy
  pub inbounds : List ManagedInbound
  pub outbounds : List Str
  pub routing : Str
  pub dns : Str

pub record TrafficRecord : Type 0 where
  pub name : Str
  pub value : ℤ
  pub user_id : Str
  pub inbound_id : Str
  pub direction : Str

pub record TrafficBatch : Type 0 where
  pub event_id : Str
  pub node_id : Str
  pub collected_at : ℤ
  pub records : List TrafficRecord

pub record PolicyViolation : Type 0 where
  pub user_id : Str
  pub inbound_id : Str
  pub reason : Str
  pub observed : ℤ
  pub limit : ℤ

pub record SessionRecord : Type 0 where
  pub user_id : Str
  pub inbound_id : Str
  pub ips : List Str
  pub last_seen : ℤ
  pub recent_connections : ℤ
  pub source : Str

-- The key of the maps that the source keys by user and inbound: `UsageKey` of policy, `key` of
-- session and of agent.
pub record UsageKey : Type 0 where
  pub user_id : Str
  pub inbound_id : Str

unfoldable pub UsageKey-discrete : Discrete UsageKey
unfolding ℕ_discrete
UsageKey-discrete = hlevel ℕ_discrete

instance abbrev pub key_eq : Comparable UsageKey
key_eq = of_discrete UsageKey-discrete
