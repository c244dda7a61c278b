-- ===== src/Prelude/Pigeons.antt =====
-- Maps with as many entries, of which the first has only keys of the second, have the same keys.
use Prim.Native.Nat.{suc}
use mathlib.Core.Path.{◌≡◌, refl, ap}
use mathlib.Core.Logic.{inl, inr}
use mathlib.Core.Bool.{true}
use mathlib.Core.Option.{none}
use mathlib.Core.List.{[], ◌∷◌}
use native.Mathlib.Omega.{arith}
use xnode_agent.Prelude.Bools.{Bool-cases}
use xnode_agent.Prelude.Eqs.{Comparable, ◌==◌, eq_iff, eq_refl}
use xnode_agent.Prelude.Lists.{length}
use xnode_agent.Prelude.Maps.{Map, lookup, remove, has, lookup-remove, Distinct, remove-Distinct}

module _ {K V : Type 0} ⦃e : Comparable K⦄ where
  remove_absent : (k : K) (m : Map K V) → lookup k m ≡ none → remove k m ≡ m
  unfolding lookup remove
  remove_absent k [] h = refl
  remove_absent k ((j, w) ∷ m) h = ground (arith, h, remove_absent k m)

  length-remove :
      (k : K) (m : Map K V) → Distinct m → has k m ≡ true → suc (length (remove k m)) ≡ length m
  unfolding lookup remove
  length-remove k [] d h = absurd (ground (arith, h))
  length-remove k ((j, w) ∷ m) d h = elim (Bool-cases (j == k)) [
    | inl p ↦
        let q : lookup k m ≡ none = rw (← (eq_iff j k).0 p) (d.0) in
        rw (p, remove_absent k m q) refl
    | inr p ↦ rw p (ap suc (length-remove k m d.1 (ground (arith, p, h))))
  ]

module _ {K V W : Type 0} ⦃e : Comparable K⦄ where
  pub same_keys :
      (as' : Map K V) (bs : Map K W)
      → Distinct as'
      → Distinct bs
      → length as' ≡ length bs
      → ((k : K) → has k as' ≡ true → has k bs ≡ true)
      → (k : K) → has k bs ≡ true
      → has k as' ≡ true
  unfolding lookup
  same_keys [] [] da db l h k m = m
  same_keys [] (b ∷ bs) da db l h k m = absurd (omega (arith, l))
  same_keys ((j, v) ∷ as') bs da db l h k m = elim (Bool-cases (j == k)) [
    | inl p ↦ rw p refl
    | inr p ↦ rw p (
        same_keys as' (remove j bs) da.1 (remove-Distinct j bs db)
          (omega (arith, l, length-remove j bs db (h j (ground (arith, eq_refl j)))))
          (λ i o. later i o) k (ground (arith, p, m, lookup-remove j k bs)))
  ]
    where
      later : (i : K) → has i as' ≡ true → has i (remove j bs) ≡ true
      later i o = elim (Bool-cases (j == i)) [
        | inl q ↦ absurd (ground (arith, o, ap (λ x. lookup x as') ((eq_iff j i).0 q), da.0))
        | inr q ↦ ground (arith, q, o, h i, lookup-remove j i bs)
      ]
