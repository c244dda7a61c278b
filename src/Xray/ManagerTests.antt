-- ===== src/Xray/ManagerTests.antt =====
-- A manager with a stored configuration, and a host on which the new one does not stay up.
use xnode_agent.Prelude.{
  Bool, true, false, none, some, [], ◌∷◌, Str, codes, ◌≡◌, ◌≢◌, ◌⊎◌, refl, arith, dec_eq, is_yes,
  Str-discrete, ℕ_discrete, ℕ, ◌*◌, str_eq, List,
}
use xnode_agent.Xray.Manager.{
  applied, install, write_config, switch_to, switched, restart_locked, rollback_locked, rollback_to,
  roll_to, rolled, Manager, Host, stays, exits, rolled_back, apply, force_apply, same_content,
  is_running, stop_locked,
}
use xnode_agent.Xray.Manager.Outcome.{Serves, After, force_apply-After}
use xnode_agent.Xray.Manager.Rollback.{apply-rolled_back}
use xnode_agent.Xray.Manager.Reach.{AllValid, Reach, here, next, forces, Reach-AllValid}
use xnode_agent.Xray.Manager.Wait.{Signal, terminate, kill, stop_waiting, stop_waiting-ends}

abbrev old_config : Str
old_config = codes "{}"

abbrev new_config : Str
new_config = codes "{ }"

abbrev manager : Manager
manager = record {
  limits_file = codes "l";
  config = some old_config;
  backup = none;
  cmd = some (record { content = some old_config; alive = true });
  core_ready = true;
}

abbrev host : Host
host = record {
  hash = λ b. b;
  validates = λ b. true;
  writes_config = λ b. true;
  restores_config = λ b. true;
  writes_backup = λ b. true;
  spawns = λ c. exits;
  spawns_again = λ c. stays;
}

-- The new configuration is rolled back to the old one.
rolled_back_run : (apply host new_config manager).2 ≡ some rolled_back
unfolding apply install write_config switch_to switched restart_locked rollback_locked rollback_to
    dec_eq is_yes Str-discrete ℕ_discrete same_content roll_to rolled applied
rolled_back_run = refl

force_apply-After_example :
    After manager new_config
      (force_apply host new_config manager).1
      (force_apply host new_config manager).0
force_apply-After_example = force_apply-After host new_config manager

old_config_filled : old_config ≢ []
old_config_filled e = ground (arith, e)

contents_differ : same_content host manager.config new_config ≡ false
unfolding same_content dec_eq is_yes Str-discrete ℕ_discrete
contents_differ = refl

apply-rolled_back_example : Serves old_config (apply host new_config manager).0
apply-rolled_back_example =
    apply-rolled_back host new_config old_config manager refl old_config_filled contents_differ refl
      rolled_back_run

abbrev anything : Str → Bool
anything b = true

manager-AllValid : AllValid anything manager
manager-AllValid = record { config = refl; backup = tt; loaded = refl }

one_step : Reach anything manager (force_apply host new_config manager).0
one_step = next here (forces host new_config (λ b v. refl))

Reach-AllValid_example : AllValid anything (force_apply host new_config manager).0
Reach-AllValid_example = Reach-AllValid anything manager-AllValid one_step

abbrev clock : ℕ → ℕ
clock i = i * 100

-- A core that does not exit, and a clock of tenths of a second.
stop_waiting-ends_example :
    (sent : List Signal) × (stop_waiting 51 0 clock (λ i. true) manager
      ≡ some (stop_locked manager, sent))
    × ((is_running manager ≡ false) × (sent ≡ [])
        ⊎ (is_running manager ≡ true) × ((sent ≡ terminate ∷ []) ⊎ (sent ≡ terminate ∷ kill ∷ [])))
stop_waiting-ends_example =
    stop_waiting-ends 0 clock (λ i. true) manager (omega arith, λ i. omega arith)
