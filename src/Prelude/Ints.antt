-- ===== src/Prelude/Ints.antt =====
-- Signed integers over the native numbers, under the library's names (its ℤ stands on the unary ℕ),
-- and Go's 64-bit `int` and `int64`: sums wrap around.
use Prim.Native.Nat.{ℕ, suc, ◌+◌, ◌-◌, ◌%◌, ◌^◌, ◌≤◌, ◌<◌}
use mathlib.Core.Path.{◌≡◌, ap}
use mathlib.Core.Bool.{Bool}
use native.Mathlib.Omega.{arith}
use native.Mathlib.Decide.{ℕ_discrete}
use xnode_agent.Prelude.Bools.{ltb, leb, if◌then◌else◌}
use xnode_agent.Prelude.Eqs.{Comparable, of_discrete}

-- `negsuc n` is -(n + 1).
pub data ℤ : Type 0 where
  pos : ℕ → ℤ
  negsuc : ℕ → ℤ

unfoldable pub ℤ-discrete : Discrete ℤ
unfolding ℕ_discrete
ℤ-discrete = hlevel ℕ_discrete

instance abbrev pub int_eq : Comparable ℤ
int_eq = of_discrete ℤ-discrete

abbrev pub pos_part : ℤ → ℕ
pos_part (pos n) = n
pos_part (negsuc n) = 0

abbrev pub neg_part : ℤ → ℕ
neg_part (pos n) = 0
neg_part (negsuc n) = suc n

-- a - b, as an integer.
abbrev pub sub_ℕ : ℕ → ℕ → ℤ
sub_ℕ a b = if leb b a then pos (a - b) else negsuc (b - a - 1)

infixl 65 ◌+ℤ◌
infix 50 ◌≤ℤ◌ ◌<ℤ◌
unfoldable pub ◌+ℤ◌ : ℤ → ℤ → ℤ
a +ℤ b = sub_ℕ (pos_part a + pos_part b) (neg_part a + neg_part b)

abbrev pub ◌≤ℤ◌ : ℤ → ℤ → Type 0
a ≤ℤ b = pos_part a + neg_part b ≤ pos_part b + neg_part a

abbrev pub ◌<ℤ◌ : ℤ → ℤ → Type 0
a <ℤ b = pos_part a + neg_part b < pos_part b + neg_part a

abbrev pub ltb_ℤ : ℤ → ℤ → Bool
ltb_ℤ a b = ltb (pos_part a + neg_part b) (pos_part b + neg_part a)

abbrev pub leb_ℤ : ℤ → ℤ → Bool
leb_ℤ a b = leb (pos_part a + neg_part b) (pos_part b + neg_part a)

-- x > 0
abbrev pub positive : ℤ → Bool
positive x = ltb_ℤ (pos 0) x

-- The residue of an integer modulo 2 ^ 64.
unfoldable pub residue : ℤ → ℕ
residue z = (pos_part z + (2 ^ 64 - neg_part z % 2 ^ 64)) % 2 ^ 64

-- The int64 that a bit pattern stands for.
unfoldable pub signed : ℕ → ℤ
signed n = if ltb n (2 ^ 63) then pos n else negsuc (2 ^ 64 - n - 1)

unfoldable pub wrap64 : ℤ → ℤ
wrap64 z = signed (residue z)

-- x + y on int64.
unfoldable pub add64 : ℤ → ℤ → ℤ
add64 a b = wrap64 (a +ℤ b)

pub +ℤ_comm : (a b : ℤ) → a +ℤ b ≡ b +ℤ a
unfolding ◌+ℤ◌
+ℤ_comm a b = ground arith

pub +ℤ_assoc : (a b c : ℤ) → a +ℤ b +ℤ c ≡ a +ℤ (b +ℤ c)
unfolding ◌+ℤ◌
+ℤ_assoc a b c = ground arith

pub residue-signed : (n : ℕ) → n < 2 ^ 64 → residue (signed n) ≡ n
unfolding residue signed
residue-signed n h = ground arith

pub residue-+ℤ : (a b : ℤ) → residue (a +ℤ b) ≡ (residue a + residue b) % 2 ^ 64
unfolding residue ◌+ℤ◌
residue-+ℤ a b = ground arith

residue-pos : (a : ℕ) → residue (pos a) ≡ a % 2 ^ 64
unfolding residue
residue-pos a = omega arith

pub residue-lt : (a : ℤ) → residue a < 2 ^ 64
unfolding residue
residue-lt a = omega arith

-- Wrapping early or late makes no difference.
pub add64-wrap64_left : (a b : ℤ) → add64 (wrap64 a) b ≡ wrap64 (a +ℤ b)
unfolding add64 wrap64
add64-wrap64_left a b = ap signed (
    omega (
      arith,
      residue-+ℤ (signed (residue a)) b,
      residue-signed (residue a) (residue-lt a),
      residue-+ℤ a b,
      residue-lt a,
      residue-lt b,
    ))

pub add64_fits : (a b : ℕ) → a + b < 2 ^ 63 → add64 (pos a) (pos b) ≡ pos (a + b)
unfolding add64 wrap64 residue signed ◌+ℤ◌
add64_fits a b h = ground arith

-- Sums of wrapped sums.
pub add64-wrap64 : (a b : ℕ) → add64 (wrap64 (pos a)) (wrap64 (pos b)) ≡ wrap64 (pos (a + b))
unfolding add64 wrap64
add64-wrap64 a b = ap signed (
    omega (
      arith,
      residue-+ℤ (signed (residue (pos a))) (signed (residue (pos b))),
      residue-signed (residue (pos a)) (residue-lt (pos a)),
      residue-signed (residue (pos b)) (residue-lt (pos b)),
      residue-pos a,
      residue-pos b,
      residue-pos (a + b),
    ))

pub add64-wrap64_pos : (a b : ℕ) → add64 (wrap64 (pos a)) (pos b) ≡ wrap64 (pos (a + b))
unfolding add64 wrap64
add64-wrap64_pos a b = ap signed (
    omega (
      arith,
      residue-+ℤ (signed (residue (pos a))) (pos b),
      residue-signed (residue (pos a)) (residue-lt (pos a)),
      residue-pos a,
      residue-pos b,
      residue-pos (a + b),
    ))

-- A sum that fits is not wrapped.
pub wrap64_fits : (n : ℕ) → n < 2 ^ 63 → wrap64 (pos n) ≡ pos n
unfolding wrap64 residue signed
wrap64_fits n h = ground arith
