-- ===== src/Agent/RunTests.antt =====
-- An agent that runs: a round in which all works, one in which the panel is not reached, and the end.
use xnode_agent.Prelude.{
  true, [], ◌∷◌, codes, map, ◌≡◌, refl, dec_eq, is_yes, Str-discrete, ℕ_discrete, sort, ℤ-discrete,
}
use xnode_agent.Admin.{handle}
use xnode_agent.Samples.{state}
use xnode_agent.Agent.Mode.{validate_mode, drain_state, set_node_metadata}
use xnode_agent.Limits.PolicyFile.{write_core_policy, strict_policy_emails, current_users}
use xnode_agent.Agent.Report.{heartbeat}
use xnode_agent.Policy.Evaluate.{evaluate, evaluate_inbounds}
use xnode_agent.Xray.Config.{build_config}
use xnode_agent.Xray.Config.Routing.{build_routing, routing_from}
use xnode_agent.Agent.Reload.{bring_to_core}
use xnode_agent.Agent.Round.{Round, unreachable, fetched}
use xnode_agent.Agent.Run.{tick, cancelled, waiting, run, run_loop}
use xnode_agent.Agent.Run.Lives.{at_start, IsServing, IsFrom, run-IsFrom, readyz-IsServing}
use xnode_agent.Agent.Run.Beats.{Beats, run-Beats}
use xnode_agent.Agent.Sync.{sync}
use xnode_agent.Agent.SyncTests.{no_time, no_json, config, agent, round}

abbrev unreached : Round
unreached = record round { panel = unreachable }

run-IsFrom_example :
    IsFrom no_time no_json config
      (round ∷ unreached ∷ [])
      (at_start agent)
      agent.state_version
      (run no_time no_json config true round (tick unreached ∷ cancelled ∷ []) agent).0
run-IsFrom_example =
    run-IsFrom no_time no_json config round (tick unreached ∷ cancelled ∷ []) agent true

run-Beats_example :
    Beats no_time no_json config 2
      (run no_time no_json config true round (map tick (unreached ∷ [])) agent)
run-Beats_example = run-Beats no_time no_json config round (unreached ∷ []) agent

-- A round of a node that has no inbound.
abbrev empty : Round
empty = record round { panel = fetched (record state { inbounds = [] }) }

waits : (run no_time no_json config true empty [] agent).1 ≡ waiting
unfolding run run_loop sync dec_eq is_yes Str-discrete ℕ_discrete validate_mode write_core_policy
    evaluate drain_state build_config evaluate_inbounds build_routing routing_from bring_to_core
waits = refl

is_ready_then :
    (handle (codes "/readyz") (run no_time no_json config true empty [] agent).0.last).status ≡ 200
unfolding run run_loop sync dec_eq is_yes Str-discrete ℕ_discrete validate_mode write_core_policy
    evaluate drain_state build_config evaluate_inbounds build_routing routing_from bring_to_core
    handle heartbeat strict_policy_emails sort ℤ-discrete current_users set_node_metadata
is_ready_then = refl

readyz-IsServing_example :
    IsServing no_time no_json config
      (empty ∷ [])
      (at_start agent)
      (run no_time no_json config true empty [] agent).0
readyz-IsServing_example =
    readyz-IsServing no_time no_json config empty [] agent true (λ p. cc waits) is_ready_then
