-- ===== src/Agent/Reload.antt =====
-- The part of sync of internal/agent/agent.go that brings a desired state to the core: hot reload,
-- forced restart, or Apply.
use xnode_agent.Prelude.{
  Bool, true, false, not, ◌&&◌, Option, none, some, List, [], ◌∷◌, ◌++◌, Str, if◌then◌else◌,
}
use xnode_agent.Model.{DesiredState}
use xnode_agent.Model.Values.{Json}
use xnode_agent.Xray.Plan.{RuntimeOp, RuntimePlan, operations, restart, plan_runtime}
use xnode_agent.Agent.Mode.{is_down}

-- A call of xray.Manager.
pub data Call : Type 0 where
  validate_content : Call
  apply_runtime : List RuntimeOp → Call
  store : Call
  force_apply : Call
  apply : Call
  start : Call

-- What the calls return: whether they succeed, and whether Apply changed the configuration.
pub record Answers : Type 0 where
  pub validates : Bool
  pub applies_runtime : Bool
  pub stores : Bool
  pub forces : Bool
  pub applies : Bool
  pub changes : Bool
  pub running_after : Bool
  pub starts : Bool

-- The nest of ifs around ValidateContent, ApplyRuntime and Store. Each declares or assigns an `err` of its
-- own scope, which ends with it.
unfoldable pub hot_calls : Answers → List RuntimeOp → List Call
hot_calls o ops =
    validate_content
    ∷ (if o.validates
        then apply_runtime ops ∷ (if o.applies_runtime then store ∷ [] else [])
        else [])

-- The test `err != nil` after the nest reads the outer `err`: the first argument says that it is an
-- error. Then ForceApply follows, and sync goes on if that works.
unfoldable pub fall_back : Bool → Answers → List Call → List Call × Bool
fall_back err o calls = if err then (calls ++ force_apply ∷ [], o.forces) else (calls, true)

-- What the outer `err` says there: BuildConfig gave it last, and sync has returned where that failed.
abbrev outer_err : Bool
outer_err = false

-- The result says whether sync goes on.
unfoldable pub carry_out : Answers → RuntimePlan → List Call × Bool
unfolding hot_calls fall_back
carry_out o (operations ops) = fall_back outer_err o (hot_calls o ops)
carry_out o (restart r) = (force_apply ∷ [], o.forces)

-- Apply, and Start where it changed nothing and the core is down.
unfoldable pub apply_config : Answers → List Call × Bool
apply_config o =
    if not o.applies
    then (apply ∷ [], false)
    else if not o.changes && not o.running_after
    then (apply ∷ start ∷ [], o.starts)
    else (apply ∷ [], true)

-- Whether the running core has the previous state.
unfoldable pub is_hot : Bool → DesiredState → Bool
is_hot running previous = running && previous.enabled && not (is_down previous.mode)

unfoldable pub bring_to_core :
    (Str → Option Json) → Answers → Bool → Option DesiredState → DesiredState → List Call × Bool
unfolding carry_out apply_config is_hot
bring_to_core decode o running none state = apply_config o
bring_to_core decode o running (some previous) state =
    if is_hot running previous
    then carry_out o (plan_runtime decode previous state)
    else apply_config o
