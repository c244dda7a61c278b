-- ===== src/Traffic/Spool/Files.antt =====
-- File names of the spool: temporary names are never listed, and a name determines its event.
use mathlib.Core.List.{append_cancel_right}
use xnode_agent.Prelude.{
  true, false, [], ◌∷◌, ◌++◌, Str, codes, length-append, str_eq, eq_iff, eq_refl, ◌≡◌, refl, dec_eq,
  Str-discrete, arith,
}
use xnode_agent.Traffic.Spool.{has_suffix, file_name, temp_name}

has_suffix-append : (s p : Str) → has_suffix (s ++ p) p ≡ true
unfolding has_suffix
has_suffix-append [] [] = eq_refl {K = Str} []
has_suffix-append [] (c ∷ p) = ground (arith, eq_refl {K = Str} (c ∷ p))
has_suffix-append (c ∷ s) p = ground (arith, has_suffix-append s p)

pub has_suffix-file_name : (e : Str) → has_suffix (file_name e) (codes ".json") ≡ true
unfolding file_name
has_suffix-file_name e = has_suffix-append e (codes ".json")

has_suffix-temp_end : has_suffix (codes ".json.tmp") (codes ".json") ≡ false
unfolding has_suffix dec_eq Str-discrete
has_suffix-temp_end = refl

pub has_suffix-temp_name : (e : Str) → has_suffix (temp_name e) (codes ".json") ≡ false
unfolding temp_name has_suffix
has_suffix-temp_name [] = has_suffix-temp_end
has_suffix-temp_name (c ∷ e) = ground (
  arith,
  has_suffix-temp_name e,
  eq_iff (c ∷ (e ++ codes ".json.tmp")) (codes ".json"),
  length-append e (codes ".json.tmp"),
)

pub file_name-injective : (a b : Str) → file_name a ≡ file_name b → a ≡ b
unfolding file_name
file_name-injective a b h = append_cancel_right a b (codes ".json") h
