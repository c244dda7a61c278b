-- ===== src/Admin.antt =====
-- The admin server of internal/admin/server.go: what its handlers answer for the last heartbeat, and how
-- Serve ends.
mod Tests
use xnode_agent.Prelude.{
  ℕ, Bool, true, false, not, ◌&&◌, ◌||◌, Option, none, some, Str, codes, if◌then◌else◌, ◌==◌,
  str_eq, ◌≡◌, arith, eq_iff,
}
use xnode_agent.Agent.Mode.{is_down, NodeMetadata}
use xnode_agent.Agent.Round.{Heartbeat}

-- A body is a text, or the heartbeat as JSON.
pub data Body : Type 0 where
  text : Str → Body
  json : Heartbeat → Body

pub record Reply : Type 0 where
  pub status : ℕ
  pub body : Body

-- The handler writes the status first where it is not 200.
unfoldable pub reply_if : Bool → Reply
reply_if good = record { status = if good then 200 else 503; body = text (codes "ok\n") }

unfoldable pub is_ready : Heartbeat → Bool
is_ready hb =
    hb.healthy
    && hb.xray_running
    && hb.xray_api
    && not (hb.metadata.mode == codes "maintenance")
    && not (hb.metadata.mode == codes "disabled")

-- The path is one that http.ServeMux does not have to clean.
unfoldable pub handle : Str → Heartbeat → Reply
unfolding reply_if is_ready
handle path hb =
    if path == codes "/healthz"
    then reply_if hb.healthy
    else if path == codes "/readyz"
    then reply_if (is_ready hb)
    else if path == codes "/status"
    then record { status = 200; body = json hb }
    else record { status = 404; body = text (codes "404 page not found\n") }

-- What ends Serve first.
pub data Served : Type 0 where
  cancelled : Served
  closed : Served
  broken : Str → Served

-- The error of Serve.
unfoldable pub serve : Served → Option Str
serve cancelled = none
serve closed = none
serve (broken e) = some e
