-- ===== src/Agent/Mode.antt =====
-- The mode of the node in a round of sync of internal/agent/agent.go: validateMode, the traffic
-- threshold, the drain, and setNodeMetadata.
use xnode_agent.Prelude.{
  ℤ, pos, positive, ltb_ℤ, leb_ℤ, Bool, true, false, not, ◌&&◌, ◌||◌, Option, none, some, List, [],
  ◌∷◌, Str, codes, if◌then◌else◌, ◌==◌, str_eq, eq_iff, dec_eq, is_yes, Str-discrete, ℕ_discrete,
  ◌≡◌, refl, arith,
}
use xnode_agent.Model.{DesiredState}
use xnode_agent.Policy.Drain.{apply_drain}

unfoldable pub validate_mode : Str → Bool
validate_mode mode =
    mode == []
    || mode == codes "active"
    || mode == codes "draining"
    || mode == codes "maintenance"
    || mode == codes "disabled"

-- Whether the core is stopped in a mode.
unfoldable pub is_down : Str → Bool
is_down mode = mode == codes "disabled" || mode == codes "maintenance"

unfoldable pub threshold_triggered : DesiredState → Bool
unfolding is_down
threshold_triggered desired =
    positive desired.node.traffic_threshold_bytes
    && leb_ℤ desired.node.traffic_threshold_bytes desired.node.traffic_used_bytes
    && not (is_down desired.mode)

unfoldable pub at_threshold : DesiredState → DesiredState
unfolding threshold_triggered
at_threshold desired =
    if threshold_triggered desired then record desired { mode = codes "draining" } else desired

-- The desired state with the drain applied, given the previous state, where there is one.
unfoldable pub drained_by : Option DesiredState → DesiredState → DesiredState
drained_by none desired = desired
drained_by (some previous) desired =
    if desired.mode == codes "draining" then apply_drain previous desired else desired

unfoldable pub drain_state : Option DesiredState → DesiredState → DesiredState
unfolding at_threshold drained_by
drain_state previous desired = drained_by previous (at_threshold desired)

unfoldable pub drain_ready : DesiredState → ℤ → Bool
drain_ready state online_users =
    let target =
      if ltb_ℤ state.node.drain_target_online (pos 0)
      then pos 0
      else state.node.drain_target_online in
    state.mode == codes "draining" && leb_ℤ online_users target

pub record NodeMetadata : Type 0 where
  pub mode : Str
  pub region : Str
  pub group : Str
  pub tags : List Str
  pub weight : ℤ

-- The metadata in effect: the state's, with those of the configuration for what it leaves out.
unfoldable pub set_node_metadata : Str → Str → List Str → ℤ → DesiredState → NodeMetadata
set_node_metadata region group tags weight state = record {
  mode = if state.mode == [] then codes "active" else state.mode;
  region = if state.node.region == [] then region else state.node.region;
  group = if state.node.group == [] then group else state.node.group;
  tags = elim state.node.tags [ [] ↦ tags | t ∷ ts ↦ t ∷ ts ];
  weight = if positive state.node.weight then state.node.weight else weight;
}

mode-drained_by : (o : Option DesiredState) (s : DesiredState) → (drained_by o s).mode ≡ s.mode
unfolding drained_by apply_drain
mode-drained_by none s = refl
mode-drained_by (some p) s = ground (arith, eq_iff s.mode (codes "draining"))

validate_mode_draining : validate_mode (codes "draining") ≡ true
unfolding validate_mode dec_eq is_yes Str-discrete ℕ_discrete
validate_mode_draining = refl

is_down_draining : is_down (codes "draining") ≡ false
unfolding is_down dec_eq is_yes Str-discrete ℕ_discrete
is_down_draining = refl

-- What a round makes of the mode is one that validate_mode accepts, if the panel's is, and the node is
-- down after it exactly if the panel asks for that: reaching the traffic threshold drains a node that
-- is up, and leaves one that is disabled or in maintenance as it is.
pub drain_state_mode :
    (previous : Option DesiredState) (desired : DesiredState)
    → validate_mode desired.mode ≡ true
    → (validate_mode (drain_state previous desired).mode ≡ true)
      × (is_down (drain_state previous desired).mode ≡ is_down desired.mode)
      × ((drain_state previous desired).mode
          ≡ (if threshold_triggered desired then codes "draining" else desired.mode))
unfolding drain_state at_threshold threshold_triggered
drain_state_mode previous desired h =
    rw (mode-drained_by previous (at_threshold desired))
      (ground (arith, validate_mode_draining, is_down_draining, h))
