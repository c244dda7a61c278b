-- ===== src/Xray/Version.antt =====
-- Version and conciseVersionLine of internal/xray/process.go. A rune is its bytes in UTF-8; a byte that
-- begins no rune is read as the replacement character, as Go's conversion to []rune does.
pub mod Runes
use xnode_agent.Prelude.{
  ℕ, zero, suc, Bool, true, false, ◌&&◌, ◌||◌, leb, ltb, Option, none, some, List, [], ◌∷◌, ◌++◌,
  Str, codes, length, take, fields, trim_space, to_lower, if◌then◌else◌, ◌==◌, nat_eq, str_eq,
}

abbrev between : ℕ → ℕ → ℕ → Bool
between lo hi b = leb lo b && leb b hi

abbrev replacement : Str
replacement = 239 ∷ 191 ∷ 189 ∷ []

-- The smallest and the largest second byte that may follow a first byte of three or four.
abbrev second_of_3 : ℕ → ℕ → Bool
second_of_3 a b = between (if a == 224 then 160 else 128) (if a == 237 then 159 else 191) b

abbrev second_of_4 : ℕ → ℕ → Bool
second_of_4 a b = between (if a == 240 then 144 else 128) (if a == 244 then 143 else 191) b

abbrev is_rune_2 : ℕ → ℕ → Bool
is_rune_2 a b = between 194 223 a && between 128 191 b

abbrev is_rune_3 : ℕ → ℕ → ℕ → Bool
is_rune_3 a b c = between 224 239 a && second_of_3 a b && between 128 191 c

abbrev is_rune_4 : ℕ → ℕ → ℕ → ℕ → Bool
is_rune_4 a b c d = between 240 244 a && second_of_4 a b && between 128 191 c && between 128 191 d

-- The first rune, and the text behind it.
unfoldable pub rune_of_4 : ℕ → ℕ → ℕ → Str → Str × Str
rune_of_4 a b c [] = (replacement, b ∷ c ∷ [])
rune_of_4 a b c (d ∷ s) =
    if is_rune_4 a b c d then (a ∷ b ∷ c ∷ d ∷ [], s) else (replacement, b ∷ c ∷ d ∷ s)

unfoldable pub rune_of_3 : ℕ → ℕ → Str → Str × Str
unfolding rune_of_4
rune_of_3 a b [] = (replacement, b ∷ [])
rune_of_3 a b (c ∷ s) = if is_rune_3 a b c then (a ∷ b ∷ c ∷ [], s) else rune_of_4 a b c s

unfoldable pub rune_of_2 : ℕ → Str → Str × Str
unfolding rune_of_3
rune_of_2 a [] = (replacement, [])
rune_of_2 a (b ∷ s) = if is_rune_2 a b then (a ∷ b ∷ [], s) else rune_of_3 a b s

unfoldable pub first_rune : ℕ → Str → Str × Str
unfolding rune_of_2
first_rune a s = if ltb a 128 then (a ∷ [], s) else rune_of_2 a s

-- []rune(s), with a byte of fuel for each byte.
unfoldable pub runes_from : ℕ → Str → List Str
unfolding first_rune
runes_from zero s = []
runes_from (suc fuel) [] = []
runes_from (suc fuel) (a ∷ s) = let (r, rest) = first_rune a s in r ∷ runes_from fuel rest

unfoldable pub runes : Str → List Str
unfolding runes_from
runes s = runes_from (length s) s

-- string(rs)
unfoldable pub text_of_runes : List Str → Str
text_of_runes [] = []
text_of_runes (r ∷ rs) = r ++ text_of_runes rs

-- The text up to its first line break.
unfoldable pub first_line : Str → Str
first_line [] = []
first_line (c ∷ s) = let rest = first_line s in if c == 10 then [] else c ∷ rest

-- strings.EqualFold(word, "xray")
unfoldable pub is_xray : Str → Bool
is_xray word = to_lower word == codes "xray"

-- The first two words, where the first is the core's name.
unfoldable pub name_and_version : Str → List Str → Str
unfolding is_xray
name_and_version line [] = line
name_and_version line (a ∷ []) = line
name_and_version line (a ∷ b ∷ rest) = if is_xray a then a ++ (b' ' ∷ b) else line

unfoldable pub at_most_64 : Str → Str
unfolding runes text_of_runes
at_most_64 line =
    let rs = runes line in if leb (length rs) 64 then line else text_of_runes (take 64 rs)

unfoldable pub concise_version_line : Str → Str
unfolding first_line name_and_version at_most_64
concise_version_line out =
    let line = first_line (trim_space out) in at_most_64 (name_and_version line (fields line))

-- The output of the core's `version`, if it exits with 0.
unfoldable pub version : Option Str → Str
version none = []
version (some out) = concise_version_line out
