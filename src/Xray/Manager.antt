-- ===== src/Xray/Manager.antt =====
-- Manager of internal/xray/process.go: the stored configuration, its backup `.last-good` and the core's
-- process. A file is its content, `none` where it is missing or cannot be read. Each write is atomic:
-- it works, or leaves the file. What the system and the core answer during one operation is a `Host`.
pub mod Wait
pub mod Outcome
pub mod Rollback
pub mod Reach
use xnode_agent.Prelude.{
  Bool, true, false, not, ◌&&◌, Option, none, some, [], Str, if◌then◌else◌, ◌==◌, str_eq,
}

-- A started process: the configuration that it read, and whether a signal still reaches it.
pub record Process : Type 0 where
  pub content : Option Str
  pub alive : Bool

pub record Manager : Type 0 where
  pub limits_file : Str
  pub config : Option Str
  pub backup : Option Str
  pub cmd : Option Process
  pub core_ready : Bool

-- What comes of a start: no process, one that exits within the grace period, or one that stays.
pub data Spawn : Type 0 where
  refused exits stays : Spawn

-- What the system answers. A write of the configuration that rolls back may fail where the one before it worked.
pub record Host : Type 0 where
  pub hash : Str → Str
  pub validates : Str → Bool
  pub writes_config : Str → Bool
  pub restores_config : Str → Bool
  pub writes_backup : Str → Bool
  pub spawns : Option Str → Spawn
  pub spawns_again : Option Str → Spawn

-- The errors of Apply, ForceApply, Store and Recover.
pub data Failure : Type 0 where
  invalid not_written not_started : Failure
  rollback_not_written rollback_not_started rolled_back : Failure
  no_backup : Failure

unfoldable pub is_running : Manager → Bool
is_running m = elim m.cmd [ none ↦ false | some p ↦ p.alive ]

-- The process of a start.
unfoldable pub spawned : Manager → Spawn → Manager × Bool
spawned m refused = (m, false)
spawned m exits = (record m { cmd = some (record { content = m.config; alive = false }) }, false)
spawned m stays = (record m { cmd = some (record { content = m.config; alive = true }) }, true)

unfoldable pub start_locked : (Option Str → Spawn) → Manager → Manager × Bool
unfolding spawned
start_locked spawns m =
    spawned (if m.limits_file == [] then m else record m { core_ready = false }) (spawns m.config)

-- Whichever way the process ends, it is forgotten.
unfoldable pub stop_locked : Manager → Manager
stop_locked m = record m { cmd = none }

unfoldable pub restart_locked : (Option Str → Spawn) → Manager → Manager × Bool
unfolding start_locked stop_locked
restart_locked spawns m = start_locked spawns (stop_locked m)

unfoldable pub start : Host → Manager → Manager × Bool
unfolding is_running start_locked
start h m = if is_running m then (m, true) else start_locked h.spawns m

unfoldable pub write_config : (Str → Bool) → Str → Manager → Manager × Bool
write_config writes content m =
    if writes content then (record m { config = some content }, true) else (m, false)

unfoldable pub write_backup : Host → Str → Manager → Manager
write_backup h content m = if h.writes_backup content then record m { backup = some content } else m

-- len(old) > 0 of a file that may be missing.
unfoldable pub has_content : Option Str → Bool
has_content none = false
has_content (some b) = not (b == [])

-- hash(old) == hash(content), where the old file can be read.
unfoldable pub same_content : Host → Option Str → Str → Bool
same_content h none content = false
same_content h (some old) content = h.hash old == h.hash content

-- The end of a rollback whose configuration is written.
unfoldable pub rolled : Manager × Bool → Manager × Failure
rolled (m, started) = (m, if started then rolled_back else rollback_not_started)

unfoldable pub roll_to : Host → Str → Manager → Manager × Failure
roll_to h b m =
    let (m', written) = write_config h.restores_config b m in
    if written then rolled (restart_locked h.spawns_again m') else (m', rollback_not_written)

unfoldable pub rollback_to : Host → Option Str → Manager → Manager × Failure
rollback_to h none m = (m, not_started)
rollback_to h (some b) m = if b == [] then (m, not_started) else roll_to h b m

unfoldable pub rollback_locked : Host → Manager → Manager × Failure
rollback_locked h m = rollback_to h m.backup m

-- After the restart with the written configuration: keep it, or roll back.
unfoldable pub switched : Host → Str → Manager × Bool → Manager × Option Failure
switched h content (m, true) = (write_backup h content m, none)
switched h content (m, false) = let (back, why) = rollback_locked h m in (back, some why)

unfoldable pub switch_to : Host → Str → Manager → Manager × Option Failure
switch_to h content m = switched h content (restart_locked h.spawns m)

unfoldable pub install : Host → Str → Manager → Manager × Option Failure
install h content m =
    let (m', written) = write_config h.writes_config content m in
    if written then switch_to h content m' else (m', some not_written)

-- The old configuration, kept as the backup.
unfoldable pub keep_old : Host → Option Str → Manager → Manager
unfolding write_backup
keep_old h none m = m
keep_old h (some old) m = write_backup h old m

-- Whether the configuration changed, beside the error.
unfoldable pub applied : Manager × Option Failure → Manager × Bool × Option Failure
applied (m, none) = (m, true, none)
applied (m, some f) = (m, false, some f)

-- Apply: whether the configuration changed, and the error.
unfoldable pub apply : Host → Str → Manager → Manager × Bool × Option Failure
unfolding has_content keep_old
apply h content m =
    let kept = if has_content m.config then keep_old h m.config m else m in
    if same_content h m.config content
    then (m, false, none)
    else if not (h.validates content)
    then (m, false, some invalid)
    else applied (install h content kept)

unfoldable pub force_apply : Host → Str → Manager → Manager × Option Failure
unfolding has_content keep_old
force_apply h content m =
    let changes = has_content m.config && not (same_content h m.config content) in
    let kept = if changes then keep_old h m.config m else m in
    if not (h.validates content) then (m, some invalid) else install h content kept

-- Store changes the files only.
unfoldable pub store : Host → Str → Manager → Manager × Bool × Option Failure
unfolding same_content write_config write_backup
store h content m =
    let (m', written) = write_config h.writes_config content m in
    if same_content h m.config content
    then (m, false, none)
    else if not (h.validates content)
    then (m, false, some invalid)
    else if written
    then (write_backup h content m', true, none)
    else (m', false, some not_written)

unfoldable pub recovered : Manager × Bool → Manager × Option Failure
recovered (m, started) = (m, if started then none else some not_started)

unfoldable pub recover_to : Host → Str → Manager → Manager × Option Failure
recover_to h b m =
    let (m', written) = write_config h.writes_config b m in
    if written then recovered (restart_locked h.spawns_again m') else (m', some not_written)

unfoldable pub recover_from : Host → Option Str → Manager → Manager × Option Failure
recover_from h none m = (m, some no_backup)
recover_from h (some b) m = if b == [] then (m, some no_backup) else recover_to h b m

unfoldable pub recover : Host → Manager → Manager × Option Failure
recover h m =
    let (m', started) = restart_locked h.spawns m in
    if started then (m', none) else recover_from h m'.backup m'

unfoldable pub core_patch_ready : Manager → Bool
core_patch_ready m = if m.limits_file == [] then false else m.core_ready
