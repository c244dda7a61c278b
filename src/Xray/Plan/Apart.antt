-- ===== src/Xray/Plan/Apart.antt =====
-- Inbounds that PlanRuntime of internal/xray/runtime.go treats apart from one another: the operations
-- for one change no tag of another.
use xnode_agent.Prelude.{
  true, false, Option, none, some, List, [], ◌∷◌, Str, Map, lookup, has, any, has-index,
  lookup-index, unique_key, In, inl, inr, ◌⊎◌, HasUniqueKeys, str_eq, eq_iff, ◌≡◌, ◌≢◌, refl, ap,
  sym, ◌∙◌, arith,
}
use xnode_agent.Model.{ManagedInbound}
use xnode_agent.Xray.Plan.Equal.{inbound_by_id}
use xnode_agent.Xray.Plan.Apply.{Core}
use xnode_agent.Xray.Plan.Same.{AreNamed}
use xnode_agent.Xray.Plan.Step.{Touches, WellNamed}
use xnode_agent.Xray.Plan.Loops.{is_dropped, TouchesTag}

-- IDs and tags are unique in each state, a tag that both states have stands for one ID, and so do the
-- emails of the users of an inbound that both have.
pub record AreApart (olds nexts : List ManagedInbound) : Type 0 where
  pub unique_old_ids : HasUniqueKeys (λ (a : ManagedInbound). a.id) olds
  pub unique_old_tags : HasUniqueKeys (λ (a : ManagedInbound). a.tag) olds
  pub unique_ids : HasUniqueKeys (λ (b : ManagedInbound). b.id) nexts
  pub unique_tags : HasUniqueKeys (λ (b : ManagedInbound). b.tag) nexts
  pub same_tag : (a b : ManagedInbound) → In a olds → In b nexts → a.tag ≡ b.tag → a.id ≡ b.id
  pub named : (a b : ManagedInbound) → In a olds → In b nexts → a.id ≡ b.id → AreNamed a b

-- No inbound of the list has the tag.
abbrev pub IsFreeOf : List ManagedInbound → Str → Type 0
IsFreeOf inbs t = (a : ManagedInbound) → In a inbs → a.tag ≢ t

pub is_dropped-eq :
    (core : Core) (nexts : List ManagedInbound) (start : core.State) (m : Map Str ManagedInbound)
    (olds : List ManagedInbound) (t : Str)
    → ((a : ManagedInbound) → In a olds → a.tag ≡ t → has a.id m ≡ true)
    → is_dropped core nexts start m olds t ≡ false
unfolding any
is_dropped-eq core nexts start m [] t h = refl
is_dropped-eq core nexts start m (o ∷ olds) t h = ground (
  arith,
  h o (inl refl),
  eq_iff o.tag t,
  is_dropped-eq core nexts start m olds t (λ a i. h a (inr i)),
)

pub is_dropped-here :
    (core : Core) (nexts : List ManagedInbound) (start : core.State) (m : Map Str ManagedInbound)
    (olds : List ManagedInbound) (a : ManagedInbound)
    → In a olds
    → has a.id m ≡ false
    → is_dropped core nexts start m olds a.tag ≡ true
unfolding any
is_dropped-here core nexts start m [] a i h = absurd i
is_dropped-here core nexts start m (o ∷ olds) a (inl e) h = ground (
  arith,
  h,
  eq_iff o.tag a.tag,
  ap (λ (x : ManagedInbound). x.tag) e,
  ap (λ (x : ManagedInbound). has x.id m) e,
)
is_dropped-here core nexts start m (o ∷ olds) a (inr i) h =
    ground (arith, is_dropped-here core nexts start m olds a i h)

module _ (core : Core) (olds nexts : List ManagedInbound) (apart : AreApart olds nexts)
    (start : core.State) where
  open apart use {unique_old_ids, unique_old_tags, unique_ids, unique_tags, same_tag, named}

  pub was_some :
      (a b : ManagedInbound) → lookup b.id (inbound_by_id olds) ≡ some a → In a olds × (a.id ≡ b.id)
  was_some a b h = lookup-index (λ x. x.id) olds b.id a h

  pub well_named :
      (b : ManagedInbound)
      → In b nexts
      → (o : Option ManagedInbound) → lookup b.id (inbound_by_id olds) ≡ o
      → WellNamed core o b
  well_named b i none h = tt
  well_named b i (some a) h = let (m, e) = was_some a b h in named a b m i e

  pub touched :
      (b : ManagedInbound) (t : Str) (o : Option ManagedInbound)
      → lookup b.id (inbound_by_id olds) ≡ o
      → Touches core o b t
      → (t ≡ b.tag) ⊎ ((a : ManagedInbound) × In a olds × (a.id ≡ b.id) × (t ≡ a.tag))
  touched b t none h e = inl e
  touched b t (some a) h (inl e) = inl e
  touched b t (some a) h (inr e) = let (m, k) = was_some a b h in inr (a, m, k, e)

  -- The operations for different inbounds change different tags.
  pub touch_apart :
      (b c : ManagedInbound)
      → In b nexts
      → In c nexts
      → b.id ≢ c.id
      → (t : Str) → TouchesTag core nexts start (inbound_by_id olds) b t
      → ¬ TouchesTag core nexts start (inbound_by_id olds) c t
  touch_apart b c mb mc n t x y = elim (touched b t (lookup b.id (inbound_by_id olds)) refl x) [
    | inl p ↦ elim (touched c t (lookup c.id (inbound_by_id olds)) refl y) [
      | inl q ↦ n (
          ap (λ (z : ManagedInbound). z.id)
            (unique_key (λ z. z.tag) b c nexts unique_tags mb mc (sym p ∙ q)))
      | inr (a, i, k, q) ↦ n (sym (same_tag a b i mb (sym q ∙ p)) ∙ k)
    ]
    | inr (a, i, k, p) ↦ elim (touched c t (lookup c.id (inbound_by_id olds)) refl y) [
      | inl q ↦ n (sym k ∙ same_tag a c i mc (sym p ∙ q))
      | inr (d, j, l, q) ↦ n (
          sym k
          ∙ ap (λ (z : ManagedInbound). z.id)
              (unique_key (λ z. z.tag) a d olds unique_old_tags i j (sym p ∙ q))
          ∙ l)
    ]
  ]

  pub has_next :
      (a b : ManagedInbound) → In b nexts → a.id ≡ b.id → has a.id (inbound_by_id nexts) ≡ true
  has_next a b i e = ap (λ k. has k (inbound_by_id nexts)) e ∙ has-index (λ x. x.id) nexts b i

  -- A tag of an inbound that stays is not dropped.
  pub not_dropped :
      (a : ManagedInbound)
      → In a olds
      → has a.id (inbound_by_id nexts) ≡ true
      → is_dropped core nexts start (inbound_by_id nexts) olds a.tag ≡ false
  not_dropped a i h = is_dropped-eq core nexts start (inbound_by_id nexts) olds a.tag (λ c j e.
      ap (λ (z : ManagedInbound). has z.id (inbound_by_id nexts))
        (unique_key (λ z. z.tag) c a olds unique_old_tags j i e)
      ∙ h)
