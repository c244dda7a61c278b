-- ===== src/Xray/Config/Levels.antt =====
-- statsLevels of internal/xray/builder.go: the levels of the core's policy.
use mathlib.Core.List.{foldl}
use xnode_agent.Prelude.{str_eq, true, codes, if◌then◌else◌, ◌∷◌, show_int, []}
use xnode_agent.Model.{ManagedUser, ManagedInbound, DesiredState}
use xnode_agent.Model.Values.{Json, JsonMap, bool, object, set_field}

abbrev pub on : Json
on = bool true

abbrev pub level_policy : Json
level_policy = object (
    (codes "statsUserDownlink", on)
    ∷ (codes "statsUserOnline", on)
    ∷ (codes "statsUserUplink", on)
    ∷ [])

unfoldable pub add_level : JsonMap → ManagedUser → JsonMap
add_level levels u = if u.enabled then set_field (show_int u.level) level_policy levels else levels

unfoldable pub stats_levels : DesiredState → JsonMap
unfolding add_level
stats_levels state =
    foldl (λ levels (inb : ManagedInbound). foldl add_level levels inb.users)
      ((codes "0", level_policy) ∷ []) state.inbounds
