-- ===== src/Agent/External.antt =====
-- applyExternalLimits of internal/agent/agent.go: every user of every inbound is applied to the
-- external limiter or removed from it, and the errors are joined.
use xnode_agent.Prelude.{
  Bool, false, ◌&&◌, List, [], ◌∷◌, ◌++◌, Str, any, if◌then◌else◌, ◌≡◌, refl, arith, ◌↔◌,
}
use xnode_agent.Model.{ManagedUser, ManagedInbound, DesiredState}
use xnode_agent.Limits.Backend.{Backend, needs_backend, observe_only}

-- The inbound and the user of an error.
abbrev pub Failure : Type 0
Failure = Str × Str

unfoldable pub apply_user_limits : Backend → Str → Str → ManagedUser → Bool
apply_user_limits b node inb u =
    if u.enabled then b.apply_user node inb u.id u.limits else b.remove_user node inb u.id

unfoldable pub apply_inbound : Backend → Str → Str → List ManagedUser → List Failure
unfolding apply_user_limits
apply_inbound b node inb [] = []
apply_inbound b node inb (u ∷ us) =
    let rest = apply_inbound b node inb us in
    if apply_user_limits b node inb u then rest else (inb, u.id) ∷ rest

unfoldable pub apply_inbounds : Backend → Str → List ManagedInbound → List Failure
unfolding apply_inbound
apply_inbounds b node [] = []
apply_inbounds b node (inb ∷ rest) =
    apply_inbound b node inb.id inb.users ++ apply_inbounds b node rest

unfoldable pub apply_external_limits : Backend → Str → DesiredState → List Failure
apply_external_limits b node state = apply_inbounds b node state.inbounds

-- An enabled user of the state has a limit that needs a backend.
abbrev pub state_needs_backend : DesiredState → Bool
state_needs_backend state =
    any (λ inb. any (λ u. u.enabled && needs_backend u.limits) inb.users) state.inbounds

append_none : (xs ys : List Failure) → (xs ++ ys ≡ []) ↔ ((xs ≡ []) × (ys ≡ []))
append_none [] ys = ground arith
append_none (x ∷ xs) ys = (λ e. cc, λ e. cc)

apply_inbound-observe_only :
    (node inb : Str) (us : List ManagedUser)
    → (apply_inbound observe_only node inb us ≡ [])
      ↔ (any (λ u. u.enabled && needs_backend u.limits) us ≡ false)
unfolding apply_inbound apply_user_limits observe_only any
apply_inbound-observe_only node inb [] = (λ e. refl, λ e. refl)
apply_inbound-observe_only node inb (u ∷ us) =
    ground (arith, apply_inbound-observe_only node inb us)

apply_inbounds-observe_only :
    (node : Str) (inbs : List ManagedInbound)
    → (apply_inbounds observe_only node inbs ≡ [])
      ↔ (any (λ inb. any (λ u. u.enabled && needs_backend u.limits) inb.users) inbs ≡ false)
unfolding apply_inbounds any
apply_inbounds-observe_only node [] = (λ e. refl, λ e. refl)
apply_inbounds-observe_only node (inb ∷ rest) = ground (
  arith,
  append_none (apply_inbound observe_only node inb.id inb.users)
      (apply_inbounds observe_only node rest),
  apply_inbound-observe_only node inb.id inb.users,
  apply_inbounds-observe_only node rest,
)

-- Without a limiter service, applying the limits of a state reports no error exactly if no enabled user
-- has a limit on its speed or its connections.
pub apply_external_limits-observe_only :
    (node : Str) (state : DesiredState)
    → (apply_external_limits observe_only node state ≡ []) ↔ (state_needs_backend state ≡ false)
unfolding apply_external_limits
apply_external_limits-observe_only node state = apply_inbounds-observe_only node state.inbounds
