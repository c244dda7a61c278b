-- ===== src/Xray/Manager/Rollback.antt =====
-- Where a rollback leads: to the configuration that was stored before.
use xnode_agent.Prelude.{
  Bool, true, false, Option, none, some, [], Str, str_eq, eq_iff, ◌≡◌, ◌≢◌, refl, arith, inl, inr,
  ap, sym, ◌∙◌, subst,
}
use xnode_agent.Xray.Manager.{
  Manager, Host, Failure, rolled_back, restart_locked, write_config, write_backup, has_content,
  same_content, rolled, roll_to, rollback_to, rollback_locked, switched, switch_to, install,
  keep_old, applied, apply, force_apply,
}
use xnode_agent.Xray.Manager.Outcome.{
  Serves, After, restart_locked-files, force_apply-After, apply-After,
}

rolled-backup : (r : Manager × Bool) → (rolled r).0.backup ≡ r.0.backup
unfolding rolled
rolled-backup (m, b) = refl

rollback_to-backup :
    (h : Host) (o : Option Str) (m : Manager) → (rollback_to h o m).0.backup ≡ m.backup
unfolding rollback_to roll_to write_config
rollback_to-backup h none m = refl
rollback_to-backup h (some b) m = ground (
  arith,
  rolled-backup (restart_locked h.spawns_again (record m { config = some b })),
  restart_locked-files h.spawns_again (record m { config = some b }),
)

switched-backup :
    (h : Host) (b : Str) (r : Manager × Bool) (f : Failure)
    → (switched h b r).1 ≡ some f
    → (switched h b r).0.backup ≡ r.0.backup
unfolding switched rollback_locked
switched-backup h b (m, true) f e = cc
switched-backup h b (m, false) f e = rollback_to-backup h m.backup m

-- A failed installation leaves the backup.
install-backup :
    (h : Host) (b : Str) (m : Manager) (f : Failure)
    → (install h b m).1 ≡ some f
    → (install h b m).0.backup ≡ m.backup
unfolding install switch_to write_config
install-backup h b m f e = ground (
  arith,
  switched-backup h b (restart_locked h.spawns (record m { config = some b })) f,
  restart_locked-files h.spawns (record m { config = some b }),
)

module _ (h : Host) (content old : Str) (m : Manager) (stored : m.config ≡ some old)
    (filled : old ≢ []) (differs : same_content h m.config content ≡ false)
    (saves : h.writes_backup old ≡ true) where
  full : has_content m.config ≡ true
  unfolding has_content
  full = ap has_content stored ∙ ground (arith, filled, eq_iff old [])

  saved : (keep_old h m.config m).backup ≡ some old
  unfolding keep_old write_backup
  saved = ap (λ o. (keep_old h o m).backup) stored ∙ ground (arith, saves)

  force_apply-backup :
      (force_apply h content m).1 ≡ some rolled_back → (force_apply h content m).0.backup ≡ some old
  unfolding force_apply
  force_apply-backup e =
      ground (
        arith,
        e,
        full,
        differs,
        saved,
        install-backup h content (keep_old h m.config m) rolled_back,
      )

  applied-backup :
      (r : Manager × Option Failure)
      → (applied r).2 ≡ some rolled_back
      → (r.1 ≡ some rolled_back) × ((applied r).0 ≡ r.0)
  unfolding applied
  applied-backup (n, none) e = cc
  applied-backup (n, some f) e = (e, refl)

  apply-backup : (apply h content m).2 ≡ some rolled_back → (apply h content m).0.backup ≡ some old
  unfolding apply
  apply-backup e = ground (
    arith,
    e,
    full,
    differs,
    saved,
    applied-backup (install h content (keep_old h m.config m)),
    install-backup h content (keep_old h m.config m) rolled_back,
  )

-- The backup that a rollback leads to is the one that the outcome names.
Serves-backup :
    (b old : Str) (m : Manager)
    → m.backup ≡ some b
    → Serves b m
    → m.backup ≡ some old
    → Serves old m
Serves-backup b old m k s e = subst (λ x. Serves x m) (same (sym k ∙ e)) s
  where
    same : some b ≡ some old → b ≡ old
    same p = cc

-- Where the old configuration is not empty, differs from the new one and could be saved, an Apply that
-- reports a rollback leaves the core running with the old configuration, which is stored again.
pub apply-rolled_back :
    (h : Host) (content old : Str) (m : Manager)
    → m.config ≡ some old
    → old ≢ []
    → same_content h m.config content ≡ false
    → h.writes_backup old ≡ true
    → (apply h content m).2 ≡ some rolled_back
    → Serves old (apply h content m).0
apply-rolled_back h content old m stored filled differs saves e = elim (apply-After h content m) [
  | inl u ↦ absurd (ground (arith, u, differs))
  | inr u ↦
      let a : After m content (some rolled_back) (apply h content m).0 =
        subst (λ f. After m content f (apply h content m).0) e u.1 in
      Serves-backup a.0 old (apply h content m).0 a.1 a.2
        (apply-backup h content old m stored filled differs saves e)
]

-- The same of a ForceApply.
pub force_apply-rolled_back :
    (h : Host) (content old : Str) (m : Manager)
    → m.config ≡ some old
    → old ≢ []
    → same_content h m.config content ≡ false
    → h.writes_backup old ≡ true
    → (force_apply h content m).1 ≡ some rolled_back
    → Serves old (force_apply h content m).0
force_apply-rolled_back h content old m stored filled differs saves e =
    let a : After m content (some rolled_back) (force_apply h content m).0 =
      subst (λ f. After m content f (force_apply h content m).0) e
        (force_apply-After h content m) in
    Serves-backup a.0 old (force_apply h content m).0 a.1 a.2
      (force_apply-backup h content old m stored filled differs saves e)
