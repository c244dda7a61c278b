-- ===== src/Admin/Tests.antt =====
-- What the admin server answers before the first heartbeat.
use xnode_agent.Prelude.{codes, ◌≡◌, refl, dec_eq, is_yes, Str-discrete, ℕ_discrete}
use xnode_agent.Agent.Run.{no_heartbeat}
use xnode_agent.Admin.{handle}

starting : (handle (codes "/healthz") no_heartbeat).status ≡ 503
unfolding handle no_heartbeat dec_eq is_yes Str-discrete ℕ_discrete
starting = refl
