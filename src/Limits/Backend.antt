-- ===== src/Limits/Backend.antt =====
-- internal/limits/limits.go: the interface of an external limiter, and the one that only observes.
-- HTTPBackend sends each call to a service and returns its error.
use xnode_agent.Prelude.{positive, Bool, true, not, ◌||◌, Str}
use xnode_agent.Model.{UserLimits}

-- A Backend: whether the call for a node, an inbound and a user returns no error.
pub record Backend : Type 0 where
  pub apply_user : Str → Str → Str → UserLimits → Bool
  pub remove_user : Str → Str → Str → Bool

-- A limit that the patched core does not take from the backend.
unfoldable pub needs_backend : UserLimits → Bool
needs_backend l = positive l.upload_bps || positive l.download_bps || positive l.connection_limit

unfoldable pub observe_only : Backend
unfolding needs_backend
observe_only = record {
  apply_user = λ node inb user l. not (needs_backend l);
  remove_user = λ node inb user. true;
}
