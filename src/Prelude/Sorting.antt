-- ===== src/Prelude/Sorting.antt =====
-- sort.Slice and sort.Strings by a `less` test, as a stable insertion sort.
use Prim.Native.Nat.{◌+◌}
use mathlib.Core.Path.{◌≡◌, refl}
use mathlib.Core.Logic.{inl, inr}
use mathlib.Core.Bool.{Bool, false}
use mathlib.Core.List.{List, [], ◌∷◌}
use native.Mathlib.Omega.{arith}
use xnode_agent.Prelude.Bools.{if◌then◌else◌, Bool-cases}
use xnode_agent.Prelude.Lists.{count_if, All}

module _ {ℓ} {A : Type ℓ} (less : A → A → Bool) where
  unfoldable pub sort_insert : A → List A → List A
  sort_insert x [] = x ∷ []
  sort_insert x (y ∷ ys) = if less y x then y ∷ sort_insert x ys else x ∷ y ∷ ys

  unfoldable pub sort : List A → List A
  unfolding sort_insert
  sort [] = []
  sort (x ∷ xs) = sort_insert x (sort xs)

  -- No element is less than one before it.
  abbrev pub IsSorted : List A → Type 0
  IsSorted [] = Unit
  IsSorted (x ∷ xs) = All (λ y. less y x ≡ false) xs × IsSorted xs

  count_if-sort_insert :
      (p : A → Bool) (x : A) (xs : List A)
      → count_if p (sort_insert x xs) ≡ (if p x then 1 else 0) + count_if p xs
  unfolding sort_insert count_if
  count_if-sort_insert p x [] = refl
  count_if-sort_insert p x (y ∷ ys) = ground (arith, count_if-sort_insert p x ys)

  -- Sorting keeps every element, as often as it occurs.
  pub count_if-sort : (p : A → Bool) (xs : List A) → count_if p (sort xs) ≡ count_if p xs
  unfolding sort count_if
  count_if-sort p [] = refl
  count_if-sort p (x ∷ xs) = ground (arith, count_if-sort_insert p x (sort xs), count_if-sort p xs)

  pub All-sort_insert {κ} :
      (P : A → Type κ) (x : A) (xs : List A) → P x → All P xs → All P (sort_insert x xs)
  unfolding sort_insert
  All-sort_insert P x [] h hs = (h, tt)
  All-sort_insert P x (y ∷ ys) h hs = elim (Bool-cases (less y x)) [
    | inl e ↦ rw e (hs.0, All-sort_insert P x ys h hs.1)
    | inr e ↦ rw e (h, hs)
  ]

  pub All-sort {κ} : (P : A → Type κ) (xs : List A) → All P xs → All P (sort xs)
  unfolding sort
  All-sort P [] h = tt
  All-sort P (x ∷ xs) h = All-sort_insert P x (sort xs) h.0 (All-sort P xs h.1)
