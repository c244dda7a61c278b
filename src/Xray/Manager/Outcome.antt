-- ===== src/Xray/Manager/Outcome.antt =====
-- What each outcome of an operation says of the files and of the process.
use xnode_agent.Prelude.{
  Bool, true, false, not, ◌&&◌, Option, none, some, [], Str, if◌then◌else◌, ◌==◌, str_eq, ◌≡◌, refl,
  ◌⊎◌, ◌↔◌, arith, inl, inr, Bool-cases, ap, sym, ◌∙◌,
}
use xnode_agent.Xray.Manager.{
  Manager, Host, Failure, Spawn, invalid, not_written, not_started, rollback_not_written,
  rollback_not_started, rolled_back, no_backup, is_running, restart_locked, write_config,
  write_backup, has_content, same_content, rolled, roll_to, rollback_to, rollback_locked, switch_to,
  switched, install, keep_old, applied, apply, force_apply, recover, recover_to, recover_from,
  recovered,
}

-- The core runs, and has read the stored configuration.
abbrev pub Serves : Str → Manager → Type 0
Serves b m = (m.config ≡ some b) × (m.cmd ≡ some (record { content = some b; alive = true }))

-- What is left after installing `content` on `m`, by the error.
abbrev pub After : Manager → Str → Option Failure → Manager → Type 0
After m content none m' = Serves content m'
After m content (some invalid) m' = (m'.config ≡ m.config) × (m'.cmd ≡ m.cmd)
After m content (some not_written) m' = (m'.config ≡ m.config) × (m'.cmd ≡ m.cmd)
After m content (some not_started) m' =
    (m'.config ≡ some content) × (is_running m' ≡ false) × (has_content m'.backup ≡ false)
After m content (some rollback_not_written) m' =
    (m'.config ≡ some content) × (is_running m' ≡ false) × (has_content m'.backup ≡ true)
After m content (some rollback_not_started) m' =
    (m'.config ≡ m'.backup) × (is_running m' ≡ false) × (has_content m'.backup ≡ true)
After m content (some rolled_back) m' = (b : Str) × (m'.backup ≡ some b) × Serves b m'
After m content (some no_backup) m' = ⊥

restart_locked-ok :
    (spawns : Option Str → Spawn) (m : Manager) (b : Str)
    → m.config ≡ some b
    → (restart_locked spawns m).1 ≡ true
    → Serves b (restart_locked spawns m).0
unfolding restart_locked
restart_locked-ok spawns m b c h = ground arith

-- A restart reports whether the core runs after it.
pub restart_locked-running :
    (spawns : Option Str → Spawn) (m : Manager)
    → (restart_locked spawns m).1 ≡ is_running (restart_locked spawns m).0
unfolding restart_locked is_running
restart_locked-running spawns m = ground arith

restart_locked-fails :
    (spawns : Option Str → Spawn) (m : Manager)
    → (restart_locked spawns m).1 ≡ false
    → is_running (restart_locked spawns m).0 ≡ false
unfolding restart_locked is_running
restart_locked-fails spawns m h = ground arith

-- A restart leaves the files.
pub restart_locked-files :
    (spawns : Option Str → Spawn) (m : Manager)
    → ((restart_locked spawns m).0.config ≡ m.config)
      × ((restart_locked spawns m).0.backup ≡ m.backup)
unfolding restart_locked
restart_locked-files spawns m = ground arith

pub write_backup-Serves :
    (h : Host) (b content : Str) (m : Manager) → Serves b m → Serves b (write_backup h content m)
unfolding write_backup
write_backup-Serves h b content m s = ground arith

rolled-After :
    (spawns : Option Str → Spawn) (content b : Str) (m n : Manager)
    → m.config ≡ some b
    → m.backup ≡ some b
    → has_content (some b) ≡ true
    → After n content
        (some (rolled (restart_locked spawns m)).1)
        (rolled (restart_locked spawns m)).0
unfolding rolled
rolled-After spawns content b m n c k e =
    go (restart_locked spawns m) (restart_locked-ok spawns m b c) (restart_locked-fails spawns m)
      (restart_locked-files spawns m)
  where
    go :
        (r : Manager × Bool)
        → (r.1 ≡ true → Serves b r.0)
        → (r.1 ≡ false → is_running r.0 ≡ false)
        → (r.0.config ≡ m.config) × (r.0.backup ≡ m.backup)
        → After n content (some (rolled r).1) (rolled r).0
    go (m', true) s f k' = (b, k'.1 ∙ k, s refl)
    go (m', false) s f k' = (k'.0 ∙ c ∙ sym k ∙ sym k'.1, f refl, ap has_content (k'.1 ∙ k) ∙ e)

rollback_to-After :
    (h : Host) (content : Str) (o : Option Str) (m n : Manager)
    → m.config ≡ some content
    → m.backup ≡ o
    → is_running m ≡ false
    → After n content (some (rollback_to h o m).1) (rollback_to h o m).0
unfolding rollback_to has_content roll_to write_config
rollback_to-After h content none m n c k r = (c, r, ap has_content k)
rollback_to-After h content (some b) m n c k r = elim (Bool-cases (b == [])) [
  | inl e ↦ rw e (c, r, ap has_content k ∙ ground (arith, e))
  | inr e ↦ rw e (elim (Bool-cases (h.restores_config b)) [
    | inl w ↦ rw w (
        rolled-After h.spawns_again content b (record m { config = some b }) n refl k
          (ground (arith, e)))
    | inr w ↦ rw w (c, r, ap has_content k ∙ ground (arith, e))
  ])
]

switch_to-After :
    (h : Host) (content : Str) (m n : Manager)
    → m.config ≡ some content
    → After n content (switch_to h content m).1 (switch_to h content m).0
unfolding switch_to switched rollback_locked
switch_to-After h content m n c =
    go (restart_locked h.spawns m) (restart_locked-ok h.spawns m content c)
      (restart_locked-fails h.spawns m) (restart_locked-files h.spawns m)
  where
    go :
        (r : Manager × Bool)
        → (r.1 ≡ true → Serves content r.0)
        → (r.1 ≡ false → is_running r.0 ≡ false)
        → (r.0.config ≡ m.config) × (r.0.backup ≡ m.backup)
        → After n content (switched h content r).1 (switched h content r).0
    go (m', true) s f k = write_backup-Serves h content content m' (s refl)
    go (m', false) s f k = rollback_to-After h content m'.backup m' n (k.0 ∙ c) refl (f refl)

install-After :
    (h : Host) (content : Str) (m n : Manager)
    → m.config ≡ n.config
    → m.cmd ≡ n.cmd
    → After n content (install h content m).1 (install h content m).0
unfolding install write_config
install-After h content m n c p = elim (Bool-cases (h.writes_config content)) [
  | inl w ↦ rw w (switch_to-After h content (record m { config = some content }) n refl)
  | inr w ↦ rw w (c, p)
]

keep_old-same :
    (h : Host) (o : Option Str) (m : Manager)
    → ((keep_old h o m).config ≡ m.config) × ((keep_old h o m).cmd ≡ m.cmd)
unfolding keep_old write_backup
keep_old-same h none m = (refl, refl)
keep_old-same h (some b) m = ground arith

kept_same :
    (h : Host) (b : Bool) (m : Manager)
    → ((if b then keep_old h m.config m else m).config ≡ m.config)
      × ((if b then keep_old h m.config m else m).cmd ≡ m.cmd)
kept_same h true m = keep_old-same h m.config m
kept_same h false m = (refl, refl)

-- ForceApply, by its error: without one the core runs with the content, which is stored; a content that
-- is refused or cannot be written leaves the stored configuration and the process; where the core does
-- not stay up, it is back with the backup, or it is down and the error says which step failed.
pub force_apply-After :
    (h : Host) (content : Str) (m : Manager)
    → After m content (force_apply h content m).1 (force_apply h content m).0
unfolding force_apply
force_apply-After h content m =
    let b = has_content m.config && not (same_content h m.config content) in
    let k = kept_same h b m in
    elim (Bool-cases (h.validates content)) [
      | inl v ↦ rw v (install-After h content (if b then keep_old h m.config m else m) m k.0 k.1)
      | inr v ↦ rw v (refl, refl)
    ]

applied-After :
    (content : Str) (m : Manager) (r : Manager × Option Failure)
    → After m content r.1 r.0
    → After m content (applied r).2 (applied r).0
      × (((applied r).1 ≡ true) ↔ ((applied r).2 ≡ none))
unfolding applied
applied-After content m (n, none) a = (a, ground arith)
applied-After content m (n, some f) a = (a, ground arith)

-- Apply does nothing for a configuration that is stored already, and otherwise leaves what ForceApply
-- leaves by the same error; it reports a change exactly if there is no error.
pub apply-After :
    (h : Host) (content : Str) (m : Manager)
    → ((same_content h m.config content ≡ true) × (apply h content m ≡ (m, false, none)))
      ⊎ ((same_content h m.config content ≡ false)
          × After m content (apply h content m).2 (apply h content m).0
          × (((apply h content m).1 ≡ true) ↔ ((apply h content m).2 ≡ none)))
unfolding apply
apply-After h content m = elim (Bool-cases (same_content h m.config content)) [
  | inl e ↦ inl (e, rw e refl)
  | inr e ↦ inr (elim (Bool-cases (h.validates content)) [
    | inl v ↦
        let k = kept_same h (has_content m.config) m in
        let kept = if has_content m.config then keep_old h m.config m else m in
        let w =
          applied-After content m (install h content kept)
            (install-After h content kept m k.0 k.1) in
        rw (e, v) (refl, w.0, w.1)
    | inr v ↦ rw (e, v) (refl, (refl, refl), ground arith)
  ])
]

recover_from-running :
    (h : Host) (o : Option Str) (m : Manager)
    → is_running m ≡ false
    → (((recover_from h o m).1 ≡ none) ↔ (is_running (recover_from h o m).0 ≡ true))
      × (((recover_from h o m).0.config ≡ m.config) ⊎ ((recover_from h o m).0.config ≡ o))
      × ((recover_from h o m).0.backup ≡ m.backup)
unfolding recover_from recover_to recovered write_config
recover_from-running h none m r = ground arith
recover_from-running h (some b) m r = ground (
  arith,
  restart_locked-running h.spawns_again (record m { config = some b }),
  restart_locked-files h.spawns_again (record m { config = some b }),
)

-- Recover succeeds exactly if the core runs afterwards; the stored configuration is then the old one or
-- the backup.
pub recover-running :
    (h : Host) (m : Manager)
    → (((recover h m).1 ≡ none) ↔ (is_running (recover h m).0 ≡ true))
      × (((recover h m).0.config ≡ m.config) ⊎ ((recover h m).0.config ≡ m.backup))
      × ((recover h m).0.backup ≡ m.backup)
unfolding recover
recover-running h m = ground (
  arith,
  restart_locked-running h.spawns m,
  restart_locked-files h.spawns m,
  recover_from-running h (restart_locked h.spawns m).0.backup (restart_locked h.spawns m).0,
)
