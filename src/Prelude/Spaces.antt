-- ===== src/Prelude/Spaces.antt =====
-- White space as Go's package strings finds it in UTF-8: TrimSpace and Fields, over bytes.
use Prim.Native.Nat.{ℕ, zero, suc}
use mathlib.Core.Bool.{Bool, ◌&&◌, ◌||◌}
use mathlib.Core.Option.{Option, none, some}
use mathlib.Core.List.{List, [], ◌∷◌, ◌++◌, reverse}
use xnode_agent.Prelude.Bools.{leb, if◌then◌else◌}
use xnode_agent.Prelude.Lists.{length}
use xnode_agent.Prelude.Eqs.{Str, ◌==◌, nat_eq}

-- The white space of Unicode that takes two bytes, and that takes three.
abbrev pub is_space_2 : ℕ → ℕ → Bool
is_space_2 a b = a == 194 && (b == 133 || b == 160)

abbrev pub is_space_3 : ℕ → ℕ → ℕ → Bool
is_space_3 a b c =
    (a == 225 && b == 154 && c == 128)
    || (a == 226 && b == 128 && (leb 128 c && leb c 138 || c == 168 || c == 169 || c == 175))
    || (a == 226 && b == 129 && c == 159)
    || (a == 227 && b == 128 && c == 128)

abbrev pub is_space_1 : ℕ → Bool
is_space_1 a = a == b' ' || leb 9 a && leb a 13

-- What follows a white space at the front of the text, if one is there.
unfoldable pub drop_space : Str → Option Str
drop_space [] = none
drop_space (a ∷ []) = if is_space_1 a then some [] else none
drop_space (a ∷ b ∷ []) =
    if is_space_1 a then some (b ∷ []) else if is_space_2 a b then some [] else none
drop_space (a ∷ b ∷ c ∷ s) =
    if is_space_1 a
    then some (b ∷ c ∷ s)
    else if is_space_2 a b
    then some (c ∷ s)
    else if is_space_3 a b c
    then some s
    else none

-- The same for a text that is read backwards.
unfoldable pub drop_space_back : Str → Option Str
drop_space_back [] = none
drop_space_back (c ∷ []) = if is_space_1 c then some [] else none
drop_space_back (c ∷ b ∷ []) =
    if is_space_1 c then some (b ∷ []) else if is_space_2 b c then some [] else none
drop_space_back (c ∷ b ∷ a ∷ s) =
    if is_space_1 c
    then some (b ∷ a ∷ s)
    else if is_space_2 b c
    then some (a ∷ s)
    else if is_space_3 a b c
    then some s
    else none

-- The text without all that `drop` takes from its front; a byte of fuel for each of its bytes.
unfoldable pub drop_all : (Str → Option Str) → ℕ → Str → Str
drop_all drop zero s = s
drop_all drop (suc fuel) s = elim (drop s) [ none ↦ s | some rest ↦ drop_all drop fuel rest ]

unfoldable pub trim_space : Str → Str
unfolding drop_all drop_space drop_space_back
trim_space s =
    let t = drop_all drop_space (length s) s in
    reverse (drop_all drop_space_back (length t) (reverse t))

-- The word that is read, unless it is empty, before the words after it.
unfoldable pub cons_word : Str → List Str → List Str
cons_word [] words = words
cons_word (c ∷ word) words = (c ∷ word) ∷ words

-- The words of the text behind a word that is read in part; a byte of fuel for each of its bytes.
unfoldable pub fields_from : ℕ → Str → Str → List Str
unfolding drop_space cons_word
fields_from zero word s = cons_word word []
fields_from (suc fuel) word [] = cons_word word []
fields_from (suc fuel) word (c ∷ s) = elim (drop_space (c ∷ s)) [
  | some rest ↦ cons_word word (fields_from fuel [] rest)
  | none ↦ fields_from fuel (word ++ c ∷ []) s
]

-- strings.Fields
unfoldable pub fields : Str → List Str
unfolding fields_from
fields s = fields_from (suc (length s)) [] s
