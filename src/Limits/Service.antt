-- ===== src/Limits/Service.antt =====
-- HTTPBackend of internal/limits/limits.go: the external limiter as a service. url.PathEscape and
-- json.Marshal are parameters.
pub mod Apart
use xnode_agent.Prelude.{
  Bool, Option, none, some, List, [], ◌∷◌, ◌++◌, Str, Map, codes, insert, str_eq, trim_space,
  if◌then◌else◌, ◌==◌,
}
use xnode_agent.Model.{UserLimits}
use xnode_agent.Web.{
  Request, Web, unencoded, Outcome, failed, is_got, Payload, no_body, json_body, encoded,
  trim_slashes, send,
}
use xnode_agent.Limits.Backend.{Backend, observe_only}

-- The escaping of a segment of a path, and the encoding of limits.
pub record Codec : Type 0 where
  pub path_escape : Str → Str
  pub of_limits : UserLimits → Option Str

module _ (web : Web) (codec : Codec) (base_url : Str) where
  unfoldable pub limits_path : Str → Str → Str → Str
  limits_path node inb user =
      codes "/v1/limits/"
      ++ (codec.path_escape node
          ++ (b'/' ∷ (codec.path_escape inb ++ (b'/' ∷ codec.path_escape user))))

  unfoldable pub limits_header : Option Str → Map Str Str
  limits_header none = []
  limits_header (some text) = insert (codes "Content-Type") (codes "application/json") []

  unfoldable pub limits_request : Str → Str → Str → Str → Option Str → Request
  unfolding limits_path limits_header
  limits_request method node inb user body = record {
    method = method;
    url = base_url ++ limits_path node inb user;
    header = limits_header body;
    body = body;
  }

  -- do
  unfoldable pub call : Str → Str → Str → Str → Payload → Outcome Str
  unfolding limits_request
  call method node inb user payload = elim (encoded payload) [
    | none ↦ failed unencoded
    | some body ↦ send web (limits_request method node inb user body) 2048 trim_space
  ]

  unfoldable pub service : Backend
  unfolding call
  service = record {
    apply_user = λ node inb user l.
        is_got (call (codes "PUT") node inb user (json_body (codec.of_limits l)));
    remove_user = λ node inb user. is_got (call (codes "DELETE") node inb user no_body);
  }

-- New: without a URL the limiter only observes.
unfoldable pub new_backend : Web → Codec → Str → Backend
unfolding service
new_backend web codec url =
    let base = trim_slashes url in if base == [] then observe_only else service web codec base
