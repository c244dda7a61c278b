-- ===== src/Panel.antt =====
-- The client of the panel, internal/panel/client.go. What json.Marshal and json.Unmarshal make of the
-- values is a parameter.
pub mod Delivery
mod Tests
use xnode_agent.Prelude.{
  ℕ, ℤ, pos, Bool, Option, none, some, List, [], ◌∷◌, ◌++◌, Str, Map, codes, insert, str_eq,
}
use xnode_agent.Model.{DesiredState, TrafficRecord, TrafficBatch, SessionRecord, PolicyViolation}
use xnode_agent.Agent.Round.{Heartbeat}
use xnode_agent.Web.{
  Request, Web, Failure, unencoded, undecoded, Outcome, failed, got, Payload, no_body, json_body,
  encoded, trim_slashes, send,
}

-- A report of sessions.
pub record SessionReport : Type 0 where
  pub node_id : Str
  pub generated_at : ℤ
  pub window_sec : ℤ
  pub records : List SessionRecord
  pub violations : List PolicyViolation

-- json.Marshal of what is sent, and json.Unmarshal of the desired state.
pub record Codec : Type 0 where
  pub of_heartbeat : Heartbeat → Option Str
  pub of_batch : TrafficBatch → Option Str
  pub of_report : SessionReport → Option Str
  pub to_state : Str → Option DesiredState

pub record Client : Type 0 where
  pub base_url : Str
  pub token : Str

-- New
unfoldable pub new_client : Str → Str → Client
new_client url token = record { base_url = trim_slashes url; token = token }

unfoldable pub headers : Client → Option Str → Map Str Str
headers c none =
    insert (codes "Accept") (codes "application/json")
      (insert (codes "Authorization") (codes "Bearer " ++ c.token) [])
headers c (some text) = insert (codes "Content-Type") (codes "application/json") (
    insert (codes "Accept") (codes "application/json")
      (insert (codes "Authorization") (codes "Bearer " ++ c.token) []))

unfoldable pub request : Client → Str → Str → Option Str → Request
unfolding headers
request c method path body = record {
  method = method;
  url = c.base_url ++ path;
  header = headers c body;
  body = body;
}

module _ (web : Web) (codec : Codec) (c : Client) where
  -- do, up to the decoding of the answer.
  unfoldable pub call : Str → Str → Payload → Outcome Str
  unfolding request
  call method path payload = elim (encoded payload) [
    | none ↦ failed unencoded
    | some body ↦ send web (request c method path body) 4096 (λ b. b)
  ]

  unfoldable pub decoded : Outcome Str → Outcome DesiredState
  decoded (failed f) = failed f
  decoded (got text) = elim (codec.to_state text) [ none ↦ failed undecoded | some s ↦ got s ]

  unfoldable pub desired_state : Str → Outcome DesiredState
  unfolding call decoded
  desired_state node =
      decoded
        (call (codes "GET") (codes "/api/v1/nodes/" ++ node ++ codes "/desired-state") no_body)

  unfoldable pub post_heartbeat : Heartbeat → Outcome Str
  unfolding call
  post_heartbeat hb =
      call (codes "POST") (codes "/api/v1/nodes/" ++ hb.node_id ++ codes "/heartbeat")
        (json_body (codec.of_heartbeat hb))

  unfoldable pub traffic_path : TrafficBatch → Str
  traffic_path batch = codes "/api/v1/nodes/" ++ batch.node_id ++ codes "/traffic"

  unfoldable pub traffic_batch : TrafficBatch → Outcome Str
  unfolding call traffic_path
  traffic_batch batch = call (codes "POST") (traffic_path batch) (json_body (codec.of_batch batch))

  unfoldable pub traffic : Str → List TrafficRecord → Outcome Str
  unfolding traffic_batch
  traffic node records =
      traffic_batch
        (record { event_id = []; node_id = node; collected_at = pos 0; records = records })

  unfoldable pub post_sessions : SessionReport → Outcome Str
  unfolding call
  post_sessions report =
      call (codes "POST") (codes "/api/v1/nodes/" ++ report.node_id ++ codes "/sessions")
        (json_body (codec.of_report report))
