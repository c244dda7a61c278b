-- ===== src/Policy/Evaluate.antt =====
-- Evaluate of internal/policy/evaluator.go: the desired state with every credential disabled that
-- breaks its own limits, and one violation for each. The clone that Evaluate works on is the
-- returned state: nothing here writes to an argument.
pub mod Laws
pub mod Cap
pub mod Again
use mathlib.Core.List.{foldl}
use xnode_agent.Prelude.{ℤ, List, [], ◌∷◌, ◌++◌, insert}
use xnode_agent.Model.{
  ManagedInbound, DesiredState, PolicyViolation, SessionRecord, UsageKey, key_eq,
}
use xnode_agent.Policy.Check.{Sessions, Pending, check_users}
use xnode_agent.Policy.Device.{limit_by_account, device_users}

pub record Evaluation : Type 0 where
  pub state : DesiredState
  pub violations : List PolicyViolation

unfoldable pub session_key : SessionRecord → UsageKey
session_key s = record { user_id = s.user_id; inbound_id = s.inbound_id }

-- sessionMap: the last record of a key counts.
unfoldable pub session_map : List SessionRecord → Sessions
unfolding session_key
session_map = foldl (λ m s. insert (session_key s) s m) []

-- One round of the loop over the inbounds.
unfoldable pub evaluate_inbound :
    ℤ → Sessions → Pending → ManagedInbound → ManagedInbound × List PolicyViolation
evaluate_inbound now sessions pending inb =
    let (checked, vs) = check_users now sessions pending inb inb.users in
    let (capped, ws) = device_users (limit_by_account checked) inb [] checked in
    (record inb { users = capped }, vs ++ ws)

unfoldable pub evaluate_inbounds :
    ℤ → Sessions → Pending → List ManagedInbound → List ManagedInbound × List PolicyViolation
evaluate_inbounds now sessions pending [] = ([], [])
evaluate_inbounds now sessions pending (inb ∷ rest) =
    let (inb', vs) = evaluate_inbound now sessions pending inb in
    let (rest', ws) = evaluate_inbounds now sessions pending rest in (inb' ∷ rest', vs ++ ws)

unfoldable pub evaluate : DesiredState → List SessionRecord → Pending → ℤ → Evaluation
evaluate desired sessions pending now =
    let (inbounds, violations) =
      evaluate_inbounds now (session_map sessions) pending desired.inbounds in
    record { state = record desired { inbounds = inbounds }; violations = violations }
