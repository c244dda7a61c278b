-- ===== src/Agent/Bring.antt =====
-- The part of sync of internal/agent/agent.go that brings a configuration to the core, carried out on the
-- manager of internal/xray/process.go.
use xnode_agent.Prelude.{
  Bool, true, false, not, ◌&&◌, Option, none, some, Str, if◌then◌else◌, ◌≡◌, ◌⊎◌, str_eq,
}
use xnode_agent.Model.{DesiredState}
use xnode_agent.Model.Values.{Json}
use xnode_agent.Xray.Plan.{RuntimePlan, operations, restart, plan_runtime}
use xnode_agent.Xray.Manager.{
  Manager, Host, Failure, is_running, start, store, apply, force_apply, same_content,
}
use xnode_agent.Agent.Reload.{is_hot}

-- The nest of ifs around ValidateContent, ApplyRuntime and Store, after which sync goes on in any case;
-- the core's API answers whether the operations work.
unfoldable pub hot_reload : Host → Bool → Str → Manager → Manager
hot_reload h works content m = if h.validates content && works then (store h content m).0 else m

unfoldable pub without_error : Option Failure → Bool
without_error none = true
without_error (some f) = false

unfoldable pub carry_plan : Host → Bool → Str → RuntimePlan → Manager → Manager × Bool
unfolding hot_reload without_error
carry_plan h works content (operations ops) m = (hot_reload h works content m, true)
carry_plan h works content (restart r) m =
    let (m', e) = force_apply h content m in (m', without_error e)

-- Start, if Apply changed nothing and the core is down.
unfoldable pub start_unchanged : Host → Manager × Bool × Option Failure → Manager × Bool
start_unchanged h (m, changed, some f) = (m, false)
start_unchanged h (m, changed, none) =
    if not changed && not (is_running m) then start h m else (m, true)

-- The manager afterwards, and whether sync goes on.
unfoldable pub bring :
    (Str → Option Json)
    → Host
    → Bool
    → Str
    → Option DesiredState
    → DesiredState
    → Manager
    → Manager × Bool
unfolding carry_plan start_unchanged
bring decode h works content none state m = start_unchanged h (apply h content m)
bring decode h works content (some previous) state m =
    if is_hot (is_running m) previous
    then carry_plan h works content (plan_runtime decode previous state) m
    else start_unchanged h (apply h content m)

-- The core runs, and the configuration is stored, up to the hash, or a step of the hot reload failed, and the
-- manager is as it was.
abbrev pub Runs : Host → Bool → Str → Manager → Manager → Type 0
Runs h works content m m' =
    (is_running m' ≡ true)
    × ((same_content h m'.config content ≡ true)
        ⊎ ((m' ≡ m) × ((h.validates content && works && h.writes_config content) ≡ false)))
