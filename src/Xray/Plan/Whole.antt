-- ===== src/Xray/Plan/Whole.antt =====
-- The hot reload as a whole: ApplyRuntime carries out what PlanRuntime of internal/xray/runtime.go
-- plans.
use xnode_agent.Prelude.{
  true, false, Option, none, some, List, ◌++◌, Str, lookup, has, has-index, lookup-index,
  lookup-index_unique, unique_key, In, inl, inr, if◌then◌else◌, str_eq, ◌≡◌, refl, ap, sym, ◌∙◌,
  subst, arith, Option-cases,
}
use xnode_agent.Model.{ManagedInbound, DesiredState}
use xnode_agent.Model.Values.{Json}
use xnode_agent.Xray.Config.Inbound.{is_buildable}
use xnode_agent.Xray.Plan.Equal.{inbound_by_id}
use xnode_agent.Xray.Plan.{RuntimeOp, operations, remove_inbounds, plan_inbounds, plan_runtime}
use xnode_agent.Xray.Plan.Apply.{Core, apply_ops, apply_runtime}
use xnode_agent.Xray.Plan.Runs.{Runs}
use xnode_agent.Xray.Plan.Between.{Keeps, Fits, Runs-Keeps}
use xnode_agent.Xray.Plan.Step.{Ready, Gone}
use xnode_agent.Xray.Plan.Loops.{is_dropped, remove_inbounds_run, TouchesTag, IsDone, inbounds_run}
use xnode_agent.Xray.Plan.Apart.{
  AreApart, IsFreeOf, is_dropped-eq, is_dropped-here, was_some, well_named, touched, touch_apart,
  has_next, not_dropped,
}

module _ (core : Core) (olds nexts : List ManagedInbound) (apart : AreApart olds nexts)
    (start : core.State) (can : (b : ManagedInbound) → In b nexts → is_buildable b ≡ true)
    (fits : (b : ManagedInbound) → In b nexts → Fits core nexts start b)
    (runs : (a : ManagedInbound) → In a olds → Runs core a start)
    (free : (b : ManagedInbound)
      → In b nexts
      → IsFreeOf olds b.tag
      → core.rest b.tag start ≡ none) where
  open core use {State, rest, find}
  open apart use {unique_old_ids, unique_old_tags, unique_ids, same_tag}

  -- The core once the inbounds that are no longer desired are removed.
  module _ (s1 : State)
      (r1 : (t : Str)
        → rest t s1 ≡ (
            if is_dropped core nexts start (inbound_by_id nexts) olds t
            then none
            else rest t start))
      (f1 : (t e : Str)
        → find t e s1 ≡ (
            if is_dropped core nexts start (inbound_by_id nexts) olds t
            then none
            else find t e start)) where
    kept :
        (t : Str)
        → is_dropped core nexts start (inbound_by_id nexts) olds t ≡ false
        → Keeps core start s1 t
    kept t h = (r1 t ∙ rw h refl, λ e. f1 t e ∙ rw h refl)

    stays : (a b : ManagedInbound) → In a olds → In b nexts → a.id ≡ b.id → Runs core a s1
    stays a b i j e =
        Runs-Keeps core a start s1
          (kept a.tag (
            not_dropped core olds nexts apart start a i
              (has_next core olds nexts apart start a b j e)))
          (runs a i)

    still_free : (b : ManagedInbound) → In b nexts → IsFreeOf olds b.tag → rest b.tag s1 ≡ none
    still_free b i n = ground (arith, r1 b.tag, free b i n)

    ready :
        (b : ManagedInbound)
        → In b nexts
        → (o : Option ManagedInbound) → lookup b.id (inbound_by_id olds) ≡ o
        → Ready core o b s1
    ready b i none h = still_free b i (λ a j e. ground (
      arith,
      h,
      has-index (λ x. x.id) olds a j,
      ap (λ k. lookup k (inbound_by_id olds)) (same_tag a b j i e),
    ))
    ready b i (some a) h =
        let (m, k) = was_some core olds nexts apart start a b h in
        (
          stays a b m i k,
          λ n. still_free b i (λ c j e. n (
              sym e
              ∙ ap (λ (z : ManagedInbound). z.tag)
                  (unique_key (λ z. z.id) c a olds unique_old_ids j m
                    (same_tag c b j i e ∙ sym k)))),
        )

    module _ (s2 : State)
        (done : (b : ManagedInbound)
          → In b nexts
          → IsDone core nexts start (inbound_by_id olds) b s2)
        (k2 : (t : Str)
          → ((b : ManagedInbound)
              → In b nexts
              → ¬ TouchesTag core nexts start (inbound_by_id olds) b t)
          → Keeps core s1 s2 t) where
      untouched :
          (t : Str)
          → IsFreeOf nexts t
          → ((a : ManagedInbound) → In a olds → a.tag ≡ t → has a.id (inbound_by_id nexts) ≡ false)
          → Keeps core s1 s2 t
      untouched t n d = k2 t (λ b i x.
          elim (touched core olds nexts apart start b t (lookup b.id (inbound_by_id olds)) refl x) [
            | inl p ↦ n b i (sym p)
            | inr (a, j, k, p) ↦
                ground (arith, d a j (sym p), has_next core olds nexts apart start a b i k)
          ])

      -- A previous tag that is no longer desired is free.
      dropped : (a : ManagedInbound) → In a olds → IsFreeOf nexts a.tag → rest a.tag s2 ≡ none
      dropped a i n = elim (Option-cases (lookup a.id (inbound_by_id nexts))) [
        | inl h ↦
            (untouched a.tag n (λ c j e. ground (
              arith,
              h,
              ap (λ (z : ManagedInbound). has z.id (inbound_by_id nexts))
                  (unique_key (λ z. z.tag) c a olds unique_old_tags j i e),
            ))).0
            ∙ r1 a.tag
            ∙ rw
                (is_dropped-here core nexts start (inbound_by_id nexts) olds a i
                  (ground (arith, h)))
                refl
        | inr (b, h) ↦
            let (j, e) = lookup-index (λ x. x.id) nexts a.id b h in
            let found =
              ap (λ k. lookup k (inbound_by_id olds)) e
              ∙ lookup-index_unique (λ x. x.id) olds a unique_old_ids i in
            subst (λ o. Gone core o b s2) found (done b j).1 (λ p. n b j (sym p))
      ]

      -- Tags of neither state stay as they were.
      others : (t : Str) → IsFreeOf olds t → IsFreeOf nexts t → Keeps core start s2 t
      others t n o =
          let (x, y) = kept t (
            is_dropped-eq core nexts start (inbound_by_id nexts) olds t
              (λ a i e. absurd (n a i e))) in
          let (v, w) = untouched t o (λ a i e. absurd (n a i e)) in (v ∙ x, λ e. w e ∙ y e)

  pub inbounds_reloaded :
      (s' : State) × (apply_ops core
          (remove_inbounds (inbound_by_id nexts) olds ++ plan_inbounds (inbound_by_id olds) nexts)
          start
        ≡ some s')
      × ((b : ManagedInbound) → In b nexts → Runs core b s')
      × ((a : ManagedInbound) → In a olds → IsFreeOf nexts a.tag → rest a.tag s' ≡ none)
      × ((t : Str) → IsFreeOf olds t → IsFreeOf nexts t → Keeps core start s' t)
  inbounds_reloaded =
      let (s1, p, r1, f1, at) =
        remove_inbounds_run core nexts start (inbound_by_id nexts) olds
          (plan_inbounds (inbound_by_id olds) nexts) start unique_old_tags runs (λ t. inl refl) in
      let (s2, q, done, k2) =
        inbounds_run core nexts start (inbound_by_id olds) can fits
          (λ b i.
            well_named core olds nexts apart start b i (lookup b.id (inbound_by_id olds)) refl)
          (touch_apart core olds nexts apart start) nexts s1 (λ b i. i) unique_ids
          (λ b i. ready s1 r1 f1 b i (lookup b.id (inbound_by_id olds)) refl) at in
      (s2, p ∙ q, λ b i. (done b i).0, dropped s1 r1 f1 s2 done k2, others s1 r1 f1 s2 done k2)

-- What a plan that needs no restart is made of.
plan_runtime-operations :
    (decode : Str → Option Json) (previous desired : DesiredState) (ops : List RuntimeOp)
    → plan_runtime decode previous desired ≡ operations ops
    → ops
      ≡ remove_inbounds (inbound_by_id desired.inbounds) previous.inbounds
        ++ plan_inbounds (inbound_by_id previous.inbounds) desired.inbounds
unfolding plan_runtime
plan_runtime-operations decode previous desired ops h = ground (arith, h)

-- Where PlanRuntime gives operations, ApplyRuntime carries them out on a core that runs the previous
-- inbounds, and leaves a core that runs every desired inbound: with what the document of
-- buildInbound has for it, and under each email with the user that the core would read from that
-- document at a restart. A tag of the previous state that no desired inbound has is gone, and
-- tags of neither state stay as they were. IDs and tags are unique in each state, emails in each
-- inbound, and a tag or an email that both states have stands for one ID; every desired inbound has
-- an ID, a protocol and a tag; a desired tag that the previous state does not have is free on the core; and
-- the core accepts a desired inbound whose tag is free beside those that it has by then.
pub plan_runtime-Runs :
    (decode : Str → Option Json) (previous desired : DesiredState) (ops : List RuntimeOp)
    (core : Core) (start : core.State)
    → plan_runtime decode previous desired ≡ operations ops
    → AreApart previous.inbounds desired.inbounds
    → ((b : ManagedInbound) → In b desired.inbounds → is_buildable b ≡ true)
    → ((b : ManagedInbound) → In b desired.inbounds → Fits core desired.inbounds start b)
    → ((a : ManagedInbound) → In a previous.inbounds → Runs core a start)
    → ((b : ManagedInbound)
        → In b desired.inbounds
        → IsFreeOf previous.inbounds b.tag
        → core.rest b.tag start ≡ none)
    → (s' : core.State) × (apply_runtime core (operations ops) start ≡ some s')
      × ((b : ManagedInbound) → In b desired.inbounds → Runs core b s')
      × ((a : ManagedInbound)
          → In a previous.inbounds
          → IsFreeOf desired.inbounds a.tag
          → core.rest a.tag s' ≡ none)
      × ((t : Str)
          → IsFreeOf previous.inbounds t
          → IsFreeOf desired.inbounds t
          → Keeps core start s' t)
unfolding apply_runtime
plan_runtime-Runs decode previous desired ops core start plan apart can fits runs free =
    let (s', p, x, y, z) =
      inbounds_reloaded core previous.inbounds desired.inbounds apart start can fits runs free in
    (
      s',
      ap (λ l. apply_ops core l start) (plan_runtime-operations decode previous desired ops plan)
          ∙ p,
      x,
      y,
      z,
    )
