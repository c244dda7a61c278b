-- ===== src/Xray/Plan/Step.antt =====
-- The operations that PlanRuntime of internal/xray/runtime.go gives for one desired inbound, run on the
-- core: the inbound runs after them, and inbounds of other tags stay as they were.
use xnode_agent.Prelude.{
  true, false, Option, none, some, List, [], ◌∷◌, ◌++◌, Str, In, inl, inr, ◌⊎◌, ◌==◌, str_eq,
  eq_iff, eq_refl, ◌≡◌, ◌≢◌, refl, ap, sym, ◌∙◌, subst, arith, Bool-cases,
}
use xnode_agent.Model.{ManagedInbound}
use xnode_agent.Xray.Config.Inbound.{is_buildable}
use xnode_agent.Xray.Config.Document.{without_users}
use xnode_agent.Xray.Plan.Equal.{inbound_base_equal, users_runtime_equal}
use xnode_agent.Xray.Plan.{
  RuntimeOp, add_inbound, replace_inbound, supports_hot_users, plan_existing, plan_inbound,
}
use xnode_agent.Xray.Plan.Apply.{Core, add_inbound_runtime, apply_op, apply_ops, apply_ops_step}
use xnode_agent.Xray.Plan.Same.{AreNamed}
use xnode_agent.Xray.Plan.Runs.{Runs, Runs-same, base_equal_tag}
use xnode_agent.Xray.Plan.Refines.{hot_users_run}
use xnode_agent.Xray.Plan.Between.{
  Keeps, Between, Between-same, Between-removed, Fits, add_inbound_run,
}

module _ (core : Core) where
  open core use {State, rest, find, rmi, rmi_known}

  -- A previous inbound of the ID runs, and the desired tag is its tag or free.
  abbrev pub Ready : Option ManagedInbound → ManagedInbound → State → Type 0
  Ready none next s = rest next.tag s ≡ none
  Ready (some old) next s = Runs core old s × (next.tag ≢ old.tag → rest next.tag s ≡ none)

  -- The tags that the operations for the inbound change.
  abbrev pub Touches : Option ManagedInbound → ManagedInbound → Str → Type 0
  Touches none next t = t ≡ next.tag
  Touches (some old) next t = (t ≡ next.tag) ⊎ (t ≡ old.tag)

  abbrev pub Gone : Option ManagedInbound → ManagedInbound → State → Type 0
  Gone none next s = Unit
  Gone (some old) next s = old.tag ≢ next.tag → rest old.tag s ≡ none

  abbrev pub WellNamed : Option ManagedInbound → ManagedInbound → Type 0
  WellNamed none next = Unit
  WellNamed (some old) next = AreNamed old next

  module _ (nexts : List ManagedInbound) (start : State) (next : ManagedInbound)
      (desired : In next nexts) (can : is_buildable next ≡ true) (fits : Fits core nexts start next)
      (ops : List RuntimeOp) (s : State) (at : Between core nexts start s) where
    -- The operations go on with the rest, from a state in which the inbound runs.
    abbrev Steps : Option ManagedInbound → List RuntimeOp → Type 0
    Steps o plan =
        (s' : State) × (apply_ops core (plan ++ ops) s ≡ apply_ops core ops s')
        × Runs core next s'
        × Gone o next s'
        × ((t : Str) → ¬ Touches o next t → Keeps core s s' t)
        × Between core nexts start s'

    add_step : rest next.tag s ≡ none → Steps none (add_inbound next ∷ [])
    add_step free =
        let (s', p, r, k, b) = add_inbound_run core nexts start next s desired can fits at free in
        (s', apply_ops_step core (add_inbound next) ops s s' (unfold apply_op in p), r, tt, k, b)

    replace_step :
        (old : ManagedInbound)
        → Ready (some old) next s
        → Steps (some old) (replace_inbound old.tag next ∷ [])
    replace_step old ((m, b, r, f), room) =
        let (s1, p, r1, f1) = rmi_known old.tag (without_users m) s r in
        let free : rest next.tag s1 ≡ none = elim (Bool-cases (next.tag == old.tag)) [
          | inl q ↦ r1 next.tag ∙ rw q refl
          | inr q ↦ r1 next.tag ∙ rw q (room (λ e. ground (arith, q, eq_iff next.tag old.tag, e)))
        ] in
        let (s2, q, runs, k, bt) =
          add_inbound_run core nexts start next s1 desired can fits
            (Between-removed core nexts start old.tag s s1 r1 at) free in
        let run =
          ap
            (λ (o : Option State). elim o [
              | none ↦ none
              | some x ↦ add_inbound_runtime core next x
            ])
            p
          ∙ q in
        (
          s2,
          apply_ops_step core (replace_inbound old.tag next) ops s s2 (unfold apply_op in run),
          runs,
          λ n. (k old.tag n).0 ∙ r1 old.tag ∙ rw (eq_refl old.tag) refl,
          λ t n. (
            (k t (λ e. n (inl e))).0
                ∙ r1 t
                ∙ ground (arith, eq_iff t old.tag, λ (e : t ≡ old.tag). n (inr e)),
            λ e.
                (k t (λ x. n (inl x))).1 e
                ∙ f1 t e
                ∙ ground (arith, eq_iff t old.tag, λ (x : t ≡ old.tag). n (inr x)),
          ),
          bt,
        )

    -- Users that are the same to the core need no operation.
    same_step :
        (old : ManagedInbound)
        → inbound_base_equal old next ≡ true
        → users_runtime_equal old.users next.users ≡ true
        → AreNamed old next
        → Ready (some old) next s
        → Steps (some old) []
    same_step old base equal named (runs, room) = (
      s,
      refl,
      Runs-same old next base named equal core s can runs,
      λ n. absurd (n (sym (base_equal_tag old next base))),
      λ t n. (refl, λ e. refl),
      at,
    )

    hot_step :
        (old : ManagedInbound)
        → inbound_base_equal old next ≡ true
        → users_runtime_equal old.users next.users ≡ false
        → supports_hot_users next ≡ true
        → AreNamed old next
        → Ready (some old) next s
        → Steps (some old) (plan_existing old next)
    hot_step old base changed hot named (runs, room) =
        let (s', p, r, q, f) = hot_users_run core old next s ops base changed hot can named runs in
        (
          s',
          p,
          r,
          λ n. absurd (n (sym (base_equal_tag old next base))),
          λ t n. (q t, λ e. f t e (λ x. n (inr x))),
          Between-same core nexts start s s' q at,
        )

    existing_step :
        (old : ManagedInbound)
        → AreNamed old next
        → Ready (some old) next s
        → Steps (some old) (plan_existing old next)
    existing_step old named ready = elim (Bool-cases (inbound_base_equal old next)) [
      | inr b ↦ subst (Steps (some old)) (sym (plan_replace b)) (replace_step old ready)
      | inl b ↦ elim (Bool-cases (users_runtime_equal old.users next.users)) [
        | inl u ↦ subst (Steps (some old)) (sym (plan_same b u)) (same_step old b u named ready)
        | inr u ↦ elim (Bool-cases (supports_hot_users next)) [
          | inl h ↦ hot_step old b u h named ready
          | inr h ↦ subst (Steps (some old)) (sym (plan_cold b u h)) (replace_step old ready)
        ]
      ]
    ]
      where
        plan_replace :
            inbound_base_equal old next ≡ false
            → plan_existing old next ≡ replace_inbound old.tag next ∷ []
        plan_replace b = unfold plan_existing in rw b refl

        plan_same :
            inbound_base_equal old next ≡ true
            → users_runtime_equal old.users next.users ≡ true
            → plan_existing old next ≡ []
        plan_same b u = unfold plan_existing in rw (b, u) refl

        plan_cold :
            inbound_base_equal old next ≡ true
            → users_runtime_equal old.users next.users ≡ false
            → supports_hot_users next ≡ false
            → plan_existing old next ≡ replace_inbound old.tag next ∷ []
        plan_cold b u h = unfold plan_existing in rw (b, u, h) refl

    pub inbound_step :
        (o : Option ManagedInbound)
        → WellNamed o next
        → Ready o next s
        → (s' : State) × (apply_ops core (plan_inbound o next ++ ops) s ≡ apply_ops core ops s')
          × Runs core next s'
          × Gone o next s'
          × ((t : Str) → ¬ Touches o next t → Keeps core s s' t)
          × Between core nexts start s'
    unfolding plan_inbound
    inbound_step none named ready = add_step ready
    inbound_step (some old) named ready = existing_step old named ready
