-- ===== src/Xray/Manager/Reach.antt =====
-- The manager in any sequence of operations, exits of the core and reports of the patched core.
use xnode_agent.Prelude.{
  Bool, true, false, not, ◌&&◌, Option, none, some, Str, if◌then◌else◌, str_eq, ◌≡◌, refl, arith,
  Bool-cases, inl, inr, subst,
}
use xnode_agent.Xray.Manager.{
  Process, Manager, Host, Failure, Spawn, spawned, start_locked, stop_locked, restart_locked,
  write_config, write_backup, has_content, same_content, rolled, roll_to, rollback_to,
  rollback_locked, switched, switch_to, install, keep_old, applied, apply, force_apply, store,
  start, recover, recover_to, recover_from, recovered,
}

module _ (valid : Str → Bool) where
  -- A validation by the core's binary that passes is right.
  abbrev pub IsSound : Host → Type 0
  IsSound h = (b : Str) → h.validates b ≡ true → valid b ≡ true

  pub data Step (m : Manager) : Manager → Type 0 where
    applies : (h : Host) (b : Str) → IsSound h → Step m (apply h b m).0
    forces : (h : Host) (b : Str) → IsSound h → Step m (force_apply h b m).0
    stores : (h : Host) (b : Str) → IsSound h → Step m (store h b m).0
    starts : (h : Host) → Step m (start h m).0
    restarts : (h : Host) → Step m (restart_locked h.spawns m).0
    stops : Step m (stop_locked m)
    recovers : (h : Host) → Step m (recover h m).0
    crashes :
        (p : Process)
        → m.cmd ≡ some p
        → Step m (record m { cmd = some (record p { alive = false }) })
    reports : Step m (record m { core_ready = true })

  pub data Reach (m : Manager) : Manager → Type 0 where
    here : Reach m m
    next : {n k : Manager} → Reach m n → Step n k → Reach m k

  abbrev pub Validated : Option Str → Type 0
  Validated none = Unit
  Validated (some b) = valid b ≡ true

  abbrev pub Loaded : Option Process → Type 0
  Loaded none = Unit
  Loaded (some p) = Validated p.content

  -- The configuration, the backup and what the core has read were all validated.
  pub record AllValid (m : Manager) : Type 0 where
    pub config : Validated m.config
    pub backup : Validated m.backup
    pub loaded : Loaded m.cmd

  spawned-AllValid : (m : Manager) (r : Spawn) → AllValid m → AllValid (spawned m r).0
  unfolding spawned
  spawned-AllValid m r v = ground arith

  start_locked-AllValid :
      (f : Option Str → Spawn) (m : Manager) → AllValid m → AllValid (start_locked f m).0
  unfolding start_locked
  start_locked-AllValid f m v = ground arith

  restart_locked-AllValid :
      (f : Option Str → Spawn) (m : Manager) → AllValid m → AllValid (restart_locked f m).0
  unfolding restart_locked
  restart_locked-AllValid f m v = ground arith

  write_config-AllValid :
      (writes : Str → Bool) (b : Str) (m : Manager)
      → valid b ≡ true
      → AllValid m
      → AllValid (write_config writes b m).0
  unfolding write_config
  write_config-AllValid writes b m s v = ground arith

  write_backup-AllValid :
      (h : Host) (b : Str) (m : Manager)
      → valid b ≡ true
      → AllValid m
      → AllValid (write_backup h b m)
  unfolding write_backup
  write_backup-AllValid h b m s v = ground arith

  rolled-AllValid : (r : Manager × Bool) → AllValid r.0 → AllValid (rolled r).0
  unfolding rolled
  rolled-AllValid (m, b) v = v

  roll_to-AllValid :
      (h : Host) (b : Str) (m : Manager) → valid b ≡ true → AllValid m → AllValid (roll_to h b m).0
  unfolding roll_to
  roll_to-AllValid h b m s v =
      let w = write_config-AllValid h.restores_config b m s v in
      ground (
        arith,
        w,
        rolled-AllValid (restart_locked h.spawns_again (write_config h.restores_config b m).0)
            (restart_locked-AllValid h.spawns_again (write_config h.restores_config b m).0 w),
      )

  rollback_to-AllValid :
      (h : Host) (o : Option Str) (m : Manager)
      → Validated o
      → AllValid m
      → AllValid (rollback_to h o m).0
  unfolding rollback_to
  rollback_to-AllValid h none m s v = v
  rollback_to-AllValid h (some b) m s v = ground (arith, roll_to-AllValid h b m s v)

  switched-AllValid :
      (h : Host) (b : Str) (r : Manager × Bool)
      → valid b ≡ true
      → AllValid r.0
      → AllValid (switched h b r).0
  unfolding switched rollback_locked
  switched-AllValid h b (m, true) s v = write_backup-AllValid h b m s v
  switched-AllValid h b (m, false) s v = rollback_to-AllValid h m.backup m v.backup v

  install-AllValid :
      (h : Host) (b : Str) (m : Manager) → valid b ≡ true → AllValid m → AllValid (install h b m).0
  unfolding install switch_to
  install-AllValid h b m s v =
      let w = write_config-AllValid h.writes_config b m s v in
      ground (
        arith,
        w,
        switched-AllValid h b (restart_locked h.spawns (write_config h.writes_config b m).0) s
            (restart_locked-AllValid h.spawns (write_config h.writes_config b m).0 w),
      )

  keep_old-AllValid :
      (h : Host) (o : Option Str) (m : Manager)
      → Validated o
      → AllValid m
      → AllValid (keep_old h o m)
  unfolding keep_old
  keep_old-AllValid h none m s v = v
  keep_old-AllValid h (some b) m s v = write_backup-AllValid h b m s v

  kept-AllValid :
      (h : Host) (c : Bool) (m : Manager)
      → AllValid m
      → AllValid (if c then keep_old h m.config m else m)
  kept-AllValid h true m v = keep_old-AllValid h m.config m v.config v
  kept-AllValid h false m v = v

  applied-0 : (r : Manager × Option Failure) → (applied r).0 ≡ r.0
  unfolding applied
  applied-0 (m, none) = refl
  applied-0 (m, some f) = refl

  apply-AllValid :
      (h : Host) (b : Str) (m : Manager) → IsSound h → AllValid m → AllValid (apply h b m).0
  unfolding apply
  apply-AllValid h b m s v = elim (Bool-cases (h.validates b)) [
    | inl e ↦
        let kept = if has_content m.config then keep_old h m.config m else m in
        let w = install-AllValid h b kept (s b e) (kept-AllValid h (has_content m.config) m v) in
        ground (arith, e, w, applied-0 (install h b kept))
    | inr e ↦ ground (arith, e)
  ]

  force_apply-AllValid :
      (h : Host) (b : Str) (m : Manager) → IsSound h → AllValid m → AllValid (force_apply h b m).0
  unfolding force_apply
  force_apply-AllValid h b m s v = elim (Bool-cases (h.validates b)) [
    | inl e ↦ rw e (
        install-AllValid h b _ (s b e)
          (kept-AllValid h (has_content m.config && not (same_content h m.config b)) m v))
    | inr e ↦ rw e v
  ]

  store-AllValid :
      (h : Host) (b : Str) (m : Manager) → IsSound h → AllValid m → AllValid (store h b m).0
  unfolding store
  store-AllValid h b m s v = elim (Bool-cases (h.validates b)) [
    | inl e ↦
        let w = write_config-AllValid h.writes_config b m (s b e) v in
        ground
          (arith, e, w, write_backup-AllValid h b (write_config h.writes_config b m).0 (s b e) w)
    | inr e ↦ ground (arith, e)
  ]

  recovered-AllValid : (r : Manager × Bool) → AllValid r.0 → AllValid (recovered r).0
  unfolding recovered
  recovered-AllValid (m, b) v = v

  recover_from-AllValid :
      (h : Host) (o : Option Str) (m : Manager)
      → Validated o
      → AllValid m
      → AllValid (recover_from h o m).0
  unfolding recover_from recover_to
  recover_from-AllValid h none m s v = v
  recover_from-AllValid h (some b) m s v =
      let w = write_config-AllValid h.writes_config b m s v in
      ground (
        arith,
        w,
        recovered-AllValid (restart_locked h.spawns_again (write_config h.writes_config b m).0)
            (restart_locked-AllValid h.spawns_again (write_config h.writes_config b m).0 w),
      )

  recover-AllValid : (h : Host) (m : Manager) → AllValid m → AllValid (recover h m).0
  unfolding recover
  recover-AllValid h m v =
      let w = restart_locked-AllValid h.spawns m v in
      ground (
        arith,
        w,
        recover_from-AllValid h (restart_locked h.spawns m).0.backup (restart_locked h.spawns m).0
            w.backup w,
      )

  Step-AllValid : {m n : Manager} → Step m n → AllValid m → AllValid n
  unfolding start stop_locked
  Step-AllValid (applies h b s) v = apply-AllValid h b _ s v
  Step-AllValid (forces h b s) v = force_apply-AllValid h b _ s v
  Step-AllValid (stores h b s) v = store-AllValid h b _ s v
  Step-AllValid {m} (starts h) v = ground (arith, start_locked-AllValid h.spawns m v)
  Step-AllValid (restarts h) v = restart_locked-AllValid h.spawns _ v
  Step-AllValid stops v = record { config = v.config; backup = v.backup; loaded = tt }
  Step-AllValid (recovers h) v = recover-AllValid h _ v
  Step-AllValid {m} (crashes p e) v = record {
    config = v.config;
    backup = v.backup;
    loaded = subst Loaded e v.loaded;
  }
  Step-AllValid reports v = record { config = v.config; backup = v.backup; loaded = v.loaded }

  -- Whatever operations are done, however the core exits and whatever fails, the stored configuration,
  -- its backup and the configuration that the core has read are validated, if they were at the start.
  pub Reach-AllValid : {m n : Manager} → AllValid m → Reach m n → AllValid n
  Reach-AllValid v here = v
  Reach-AllValid v (next r s) = Step-AllValid s (Reach-AllValid v r)
