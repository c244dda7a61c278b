-- ===== src/Xray/Plan/Loops.antt =====
-- The two loops of PlanRuntime of internal/xray/runtime.go, their operations run on the core: the
-- inbounds that are no longer desired, and then the desired ones.
use xnode_agent.Prelude.{
  Bool, true, not, ◌&&◌, Option, none, some, List, [], ◌∷◌, ◌++◌, Str, Map, lookup, has, any, In,
  inl, inr, All-In, HasUniqueKeys, if◌then◌else◌, ◌==◌, str_eq, eq_iff, ◌≡◌, ◌≢◌, refl, sym, ◌∙◌,
  subst, arith, Bool-cases,
}
use xnode_agent.Model.{ManagedInbound}
use xnode_agent.Xray.Config.Inbound.{is_buildable}
use xnode_agent.Xray.Config.Document.{without_users}
use xnode_agent.Xray.Plan.{RuntimeOp, remove_inbound, remove_inbounds, plan_inbounds}
use xnode_agent.Xray.Plan.Apply.{Core, apply_op, apply_ops, apply_ops_step}
use xnode_agent.Xray.Plan.Runs.{Runs}
use xnode_agent.Xray.Plan.Between.{Keeps, Between, Between-removed, Fits, Runs-Keeps}
use xnode_agent.Xray.Plan.Step.{Ready, Touches, Gone, WellNamed, inbound_step}

module _ (core : Core) (nexts : List ManagedInbound) (start : core.State)
    (m : Map Str ManagedInbound) where
  open core use {State, rest, find, rmi_known}

  -- The tag is that of an inbound whose ID is not desired.
  abbrev pub is_dropped : List ManagedInbound → Str → Bool
  is_dropped olds t = any (λ o. not (has o.id m) && o.tag == t) olds

  pub remove_inbounds_run :
      (olds : List ManagedInbound) (ops : List RuntimeOp) (s : State)
      → HasUniqueKeys (λ o. o.tag) olds
      → ((o : ManagedInbound) → In o olds → Runs core o s)
      → Between core nexts start s
      → (s' : State) × (apply_ops core (remove_inbounds m olds ++ ops) s ≡ apply_ops core ops s')
        × ((t : Str) → rest t s' ≡ (if is_dropped olds t then none else rest t s))
        × ((t e : Str) → find t e s' ≡ (if is_dropped olds t then none else find t e s))
        × Between core nexts start s'
  unfolding remove_inbounds any
  remove_inbounds_run [] ops s u runs at = (s, refl, λ t. refl, λ t e. refl, at)
  remove_inbounds_run (o ∷ olds) ops s u runs at = elim (Bool-cases (has o.id m)) [
    | inl h ↦ rw h (remove_inbounds_run olds ops s u.1 (λ a i. runs a (inr i)) at)
    | inr h ↦ rw h (
        let (d, b, r, f) = runs o (inl refl) in
        let (s1, p, r1, f1) = rmi_known o.tag (without_users d) s r in
        let other : (a : ManagedInbound) → In a olds → Runs core a s1 = λ a i.
          let n = All-In (λ (x : ManagedInbound). x.tag ≢ o.tag) a olds u.0 i in
          Runs-Keeps core a s s1
            (
              ground (arith, r1 a.tag, n, eq_iff a.tag o.tag),
              λ e. ground (arith, f1 a.tag e, n, eq_iff a.tag o.tag),
            )
            (runs a (inr i)) in
        let (s2, q, r2, f2, b2) =
          remove_inbounds_run olds ops s1 u.1 other
            (Between-removed core nexts start o.tag s s1 r1 at) in
        (
          s2,
          apply_ops_step core (remove_inbound o.tag) (remove_inbounds m olds ++ ops) s s1
                (unfold apply_op in p)
              ∙ q,
          λ t. ground (arith, r1 t, r2 t, eq_iff t o.tag, eq_iff o.tag t),
          λ t e. ground (arith, f1 t e, f2 t e, eq_iff t o.tag, eq_iff o.tag t),
          b2,
        ))
  ]

module _ (core : Core) where
  open core use {State}

  pub Ready-Keeps :
      (o : Option ManagedInbound) (next : ManagedInbound) (s s' : State)
      → ((t : Str) → Touches core o next t → Keeps core s s' t)
      → Ready core o next s
      → Ready core o next s'
  Ready-Keeps none next s s' k free = (k next.tag refl).0 ∙ free
  Ready-Keeps (some old) next s s' k (runs, room) = (
    Runs-Keeps core old s s' (k old.tag (inr refl)) runs,
    λ n. (k next.tag (inl refl)).0 ∙ room n,
  )

  Gone-Keeps :
      (o : Option ManagedInbound) (next : ManagedInbound) (s s' : State)
      → ((t : Str) → Touches core o next t → Keeps core s s' t)
      → Gone core o next s
      → Gone core o next s'
  Gone-Keeps none next s s' k g = tt
  Gone-Keeps (some old) next s s' k g = λ n. (k old.tag (inr refl)).0 ∙ g n

  Touches-self : (o : Option ManagedInbound) (next : ManagedInbound) → Touches core o next next.tag
  Touches-self none next = refl
  Touches-self (some old) next = inl refl

module _ (core : Core) (nexts : List ManagedInbound) (start : core.State)
    (previous : Map Str ManagedInbound) where
  open core use {State}

  abbrev pub TouchesTag : ManagedInbound → Str → Type 0
  TouchesTag next t = Touches core (lookup next.id previous) next t

  -- The inbound runs, and its old tag is free where it has another.
  abbrev pub IsDone : ManagedInbound → State → Type 0
  IsDone b s = Runs core b s × Gone core (lookup b.id previous) b s

  now :
      (b : ManagedInbound) (bs : List ManagedInbound) (s1 s2 : State)
      → Runs core b s1
      → Gone core (lookup b.id previous) b s1
      → ((t : Str) → TouchesTag b t → Keeps core s1 s2 t)
      → ((c : ManagedInbound) → In c bs → IsDone c s2)
      → (c : ManagedInbound) → In c (b ∷ bs)
      → IsDone c s2
  now b bs s1 s2 r g k rest c (inr i) = rest c i
  now b bs s1 s2 r g k rest c (inl e) =
      subst (λ x. IsDone x s2) e
        (
          Runs-Keeps core b s1 s2 (k b.tag (Touches-self core (lookup b.id previous) b)) r,
          Gone-Keeps core (lookup b.id previous) b s1 s2 k g,
        )

  module _ (can : (b : ManagedInbound) → In b nexts → is_buildable b ≡ true)
      (fits : (b : ManagedInbound) → In b nexts → Fits core nexts start b)
      (named : (b : ManagedInbound) → In b nexts → WellNamed core (lookup b.id previous) b)
      (apart : (b c : ManagedInbound)
        → In b nexts
        → In c nexts
        → b.id ≢ c.id
        → (t : Str) → TouchesTag b t
        → ¬ TouchesTag c t) where
    pub inbounds_run :
        (bs : List ManagedInbound) (s : State)
        → ((b : ManagedInbound) → In b bs → In b nexts)
        → HasUniqueKeys (λ b. b.id) bs
        → ((b : ManagedInbound) → In b bs → Ready core (lookup b.id previous) b s)
        → Between core nexts start s
        → (s' : State) × (apply_ops core (plan_inbounds previous bs) s ≡ some s')
          × ((b : ManagedInbound) → In b bs → IsDone b s')
          × ((t : Str) → ((b : ManagedInbound) → In b bs → ¬ TouchesTag b t) → Keeps core s s' t)
    unfolding plan_inbounds
    inbounds_run [] s sub u ready at =
        (s, unfold apply_ops in refl, λ b i. absurd i, λ t n. (refl, λ e. refl))
    inbounds_run (b ∷ bs) s sub u ready at =
        let mb = sub b (inl refl) in
        let (s1, p, r, g, k, b1) =
          inbound_step core nexts start b mb (can b mb) (fits b mb) (plan_inbounds previous bs) s at
            (lookup b.id previous) (named b mb) (ready b (inl refl)) in
        let differ : (c : ManagedInbound) → In c bs → b.id ≢ c.id =
          λ c i e. All-In (λ (x : ManagedInbound). x.id ≢ b.id) c bs u.0 i (sym e) in
        let (s2, q, r2, k2) =
          inbounds_run bs s1 (λ c i. sub c (inr i)) u.1
            (λ c i.
              Ready-Keeps core (lookup c.id previous) c s s1
                (λ t h. k t (λ x. apart b c mb (sub c (inr i)) (differ c i) t x h))
                (ready c (inr i)))
            b1 in
        let kept : (t : Str) → TouchesTag b t → Keeps core s1 s2 t =
          λ t h. k2 t (λ c i. apart b c mb (sub c (inr i)) (differ c i) t h) in
        (
          s2,
          p ∙ q,
          now b bs s1 s2 r g kept r2,
          λ t n.
              let (x, y) = k t (n b (inl refl)) in
              let (v, w) = k2 t (λ c i. n c (inr i)) in (v ∙ x, λ e. w e ∙ y e),
        )
