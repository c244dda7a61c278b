-- ===== src/Prelude/Eqs.antt =====
-- Go's `==` and `reflect.DeepEqual` as one interface: a Boolean test that decides equality.
use Prim.Native.Nat.{ℕ}
use mathlib.Core.Path.{◌≡◌, refl}
use mathlib.Core.Logic.{◌↔◌}
use mathlib.Core.Bool.{Bool, true, false}
use mathlib.Core.List.{List}
use native.Mathlib.Decide.{ℕ_discrete}

-- `same_iff` reads from equality to the test.
pub record Comparable {ℓ} (K : Type ℓ) : Type ℓ where
  pub same : (k j : K) → Bool
  pub same_iff : (k j : K) → (k ≡ j) ↔ (same k j ≡ true)

infix 50 ◌==◌
abbrev pub ◌==◌ {ℓ} : {K : Type ℓ} ⦃c : Comparable K⦄ (k j : K) → Bool
◌==◌ ⦃c⦄ k j = c.same k j

-- The two directions of the law, for tactics.
pub eq_iff {ℓ} : {K : Type ℓ} ⦃c : Comparable K⦄ (k j : K) → ((k == j) ≡ true) ↔ (k ≡ j)
eq_iff ⦃c⦄ k j = ((c.same_iff k j).1, (c.same_iff k j).0)

pub eq_refl {ℓ} : {K : Type ℓ} ⦃c : Comparable K⦄ (k : K) → (k == k) ≡ true
eq_refl ⦃c⦄ k = (c.same_iff k k).0 refl

unfoldable pub is_yes {ℓ} : {P : Type ℓ} → Dec P → Bool
is_yes (yes p) = true
is_yes (no p) = false

pub is_yes_iff {ℓ} : {P : Type ℓ} (d : Dec P) → (is_yes d ≡ true) ↔ P
unfolding is_yes
is_yes_iff (yes p) = (λ _. p, λ _. refl)
is_yes_iff (no p) = (λ e. cc, λ x. absurd (p x))

unfoldable pub dec_eq {ℓ} : {A : Type ℓ} → Discrete A → A → A → Bool
unfolding is_yes
dec_eq d a b = is_yes (d a b)

pub dec_eq_iff {ℓ} : {A : Type ℓ} (d : Discrete A) (a b : A) → (dec_eq d a b ≡ true) ↔ (a ≡ b)
unfolding dec_eq
dec_eq_iff d a b = is_yes_iff (d a b)

-- A type whose equality the tactic `hlevel` decides has a test.
abbrev pub of_discrete {ℓ} : {A : Type ℓ} → Discrete A → Comparable A
of_discrete d = record {
  same = dec_eq d;
  same_iff = λ k j. ((dec_eq_iff d k j).1, (dec_eq_iff d k j).0);
}

-- Strings are their bytes.
abbrev pub Str : Type 0
Str = List ℕ

unfoldable pub Str-discrete : Discrete Str
unfolding ℕ_discrete
Str-discrete = hlevel ℕ_discrete

instance abbrev pub nat_eq : Comparable ℕ
nat_eq = of_discrete ℕ_discrete

instance abbrev pub str_eq : Comparable Str
str_eq = of_discrete Str-discrete
