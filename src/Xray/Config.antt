-- ===== src/Xray/Config.antt =====
-- The configuration of the core, as internal/xray/builder.go makes it from a desired state. A document
-- is the JSON that is encoded; what json.Unmarshal makes of a raw message is the parameter `decode`.
pub mod Inbound
pub mod Document
pub mod Written
pub mod Routing
pub mod Levels
pub mod Served
pub mod Stats
use xnode_agent.Prelude.{
  List, Str, Option, none, some, [], ◌∷◌, codes, map, true, if◌then◌else◌, ◌==◌, str_eq,
}
use xnode_agent.Model.{ManagedUser, ManagedInbound, DesiredState}
use xnode_agent.Model.Values.{
  Json, JsonMap, null, bool, num, str, arr, obj, array, object, set_field,
}
use Inbound.{build_inbound}
use Routing.{Built, built, failed, panics, build_routing}
use Levels.{stats_levels, on}

-- The inbounds, up to the first that cannot be built.
unfoldable pub build_inbounds : List ManagedInbound → Option (List Json)
build_inbounds [] = some []
build_inbounds (inb ∷ rest) = elim (build_inbound inb) [
  | none ↦ none
  | some m ↦ elim (build_inbounds rest) [ none ↦ none | some ms ↦ some (object m ∷ ms) ]
]

abbrev default_outbounds : List Json
default_outbounds =
    object ((codes "protocol", str (codes "freedom")) ∷ (codes "tag", str (codes "direct")) ∷ [])
    ∷ object ((codes "protocol", str (codes "blackhole")) ∷ (codes "tag", str (codes "block")) ∷ [])
    ∷ []

unfoldable pub log_config : List Str → JsonMap
log_config [] = (codes "loglevel", str (codes "warning")) ∷ []
log_config (path ∷ rest) =
    if path == []
    then (codes "loglevel", str (codes "warning")) ∷ []
    else (codes "access", str path) ∷ (codes "loglevel", str (codes "warning")) ∷ []

-- log, api, stats and policy.
unfoldable pub base_config : Str → List Str → DesiredState → JsonMap
unfolding log_config
base_config api_listen access_log state =
    let services = array (
      map str (
        codes "HandlerService"
        ∷ codes "StatsService"
        ∷ codes "RoutingService"
        ∷ codes "LoggerService"
        ∷ [])) in
    let api =
      (codes "listen", str api_listen)
      ∷ (codes "services", services)
      ∷ (codes "tag", str (codes "api"))
      ∷ [] in
    let system =
      (codes "statsInboundDownlink", on)
      ∷ (codes "statsInboundUplink", on)
      ∷ (codes "statsOutboundDownlink", on)
      ∷ (codes "statsOutboundUplink", on)
      ∷ [] in
    let policy =
      (codes "levels", object (stats_levels state)) ∷ (codes "system", object system) ∷ [] in
    (codes "api", object api)
    ∷ (codes "log", object (log_config access_log))
    ∷ (codes "policy", object policy)
    ∷ (codes "stats", object [])
    ∷ []

module _ (decode : Str → Option Json) where
  unfoldable pub decode_all : List Str → Option (List Json)
  decode_all [] = some []
  decode_all (raw ∷ rest) = elim (decode raw) [
    | none ↦ none
    | some v ↦ elim (decode_all rest) [ none ↦ none | some vs ↦ some (v ∷ vs) ]
  ]

  unfoldable pub build_outbounds : List Str → Option (List Json)
  unfolding decode_all
  build_outbounds [] = some default_outbounds
  build_outbounds (raw ∷ rest) = decode_all (raw ∷ rest)

  -- The DNS part of the configuration so far, where the state has one.
  unfoldable pub add_dns : Str → JsonMap → Built JsonMap
  add_dns raw cfg =
      if raw == []
      then built cfg
      else elim (decode raw) [ none ↦ failed | some v ↦ built (set_field (codes "dns") v cfg) ]

  unfoldable pub add_routing : DesiredState → JsonMap → Built JsonMap
  unfolding add_dns
  add_routing state cfg = elim (build_routing decode state) [
    | failed ↦ failed
    | panics ↦ panics
    | built none ↦ add_dns state.dns cfg
    | built (some routing) ↦ add_dns state.dns (set_field (codes "routing") (object routing) cfg)
  ]

  unfoldable pub build_config : DesiredState → Str → List Str → Built JsonMap
  unfolding build_inbounds build_outbounds add_routing
  build_config state api_listen access_log = elim (build_inbounds state.inbounds) [
    | none ↦ failed
    | some ins ↦ elim (build_outbounds state.outbounds) [
      | none ↦ failed
      | some outs ↦ add_routing state (
          set_field (codes "outbounds") (array outs)
            (set_field (codes "inbounds") (array ins) (base_config api_listen access_log state)))
    ]
  ]
