-- ===== src/Xray/Version/Runes.antt =====
-- Runes of a text, read again from what is made of them: conciseVersionLine of internal/xray/process.go
-- gives at most 64.
use xnode_agent.Prelude.{
  ℕ, zero, suc, ◌≤◌, false, ltb, leb, List, [], ◌∷◌, ◌++◌, Str, length, length-append, take, All,
  if_either, dec_eq, ℕ_discrete, trim_space, fields, Bool-cases, inl, inr, ◌≡◌, refl, ap, ◌∙◌,
  arith,
}
use xnode_agent.Xray.Version.{
  replacement, is_rune_2, is_rune_3, is_rune_4, rune_of_4, rune_of_3, rune_of_2, first_rune,
  runes_from, runes, text_of_runes, at_most_64, name_and_version, first_line, concise_version_line,
}

-- The bytes are read as one rune, whatever follows.
abbrev IsRune : Str → Type 0
IsRune [] = ⊥
IsRune (a ∷ r) = (s : Str) → first_rune a (r ++ s) ≡ (a ∷ r, s)

replacement-IsRune : IsRune replacement
unfolding first_rune dec_eq ℕ_discrete
replacement-IsRune s = refl

-- The first of the two, as a rune.
abbrev FirstIsRune : Str × Str → Type 0
FirstIsRune p = IsRune p.0

module _ (a : ℕ) (wide : ltb a 128 ≡ false) where
  rune_of_4-IsRune :
      (b c : ℕ) (s : Str)
      → is_rune_2 a b ≡ false
      → is_rune_3 a b c ≡ false
      → FirstIsRune (rune_of_4 a b c s)
  unfolding rune_of_4
  rune_of_4-IsRune b c [] h2 h3 = replacement-IsRune
  rune_of_4-IsRune b c (d ∷ s) h2 h3 =
      if_either FirstIsRune (is_rune_4 a b c d) _ _
        (λ q t. unfold first_rune in rw (wide, h2, h3, q) refl) (λ q. replacement-IsRune)

  rune_of_3-IsRune : (b : ℕ) (s : Str) → is_rune_2 a b ≡ false → FirstIsRune (rune_of_3 a b s)
  unfolding rune_of_3
  rune_of_3-IsRune b [] h2 = replacement-IsRune
  rune_of_3-IsRune b (c ∷ s) h2 =
      if_either FirstIsRune (is_rune_3 a b c) _ _
        (λ q t. unfold first_rune in rw (wide, h2, q) refl) (rune_of_4-IsRune b c s h2)

  rune_of_2-IsRune : (s : Str) → FirstIsRune (rune_of_2 a s)
  unfolding rune_of_2
  rune_of_2-IsRune [] = replacement-IsRune
  rune_of_2-IsRune (b ∷ s) =
      if_either FirstIsRune (is_rune_2 a b) _ _ (λ q t. unfold first_rune in rw (wide, q) refl)
        (rune_of_3-IsRune b s)

first_rune-IsRune : (a : ℕ) (s : Str) → FirstIsRune (first_rune a s)
unfolding first_rune
first_rune-IsRune a s =
    if_either FirstIsRune (ltb a 128) _ _ (λ q t. rw q refl) (λ q. rune_of_2-IsRune a q s)

runes_from-IsRune : (fuel : ℕ) (s : Str) → All IsRune (runes_from fuel s)
unfolding runes_from
runes_from-IsRune zero s = tt
runes_from-IsRune (suc fuel) [] = tt
runes_from-IsRune (suc fuel) (a ∷ s) =
    (first_rune-IsRune a s, runes_from-IsRune fuel (first_rune a s).1)

take-IsRune : (n : ℕ) (rs : List Str) → All IsRune rs → All IsRune (take n rs)
unfolding take
take-IsRune zero rs h = tt
take-IsRune (suc n) [] h = tt
take-IsRune (suc n) (r ∷ rs) h = (h.0, take-IsRune n rs h.1)

-- Each rune has a byte.
length-le-text_of_runes : (rs : List Str) → All IsRune rs → length rs ≤ length (text_of_runes rs)
unfolding text_of_runes
length-le-text_of_runes [] h = omega arith
length-le-text_of_runes ([] ∷ rs) h = absurd h.0
length-le-text_of_runes ((a ∷ r) ∷ rs) h =
    omega (arith, length-append r (text_of_runes rs), length-le-text_of_runes rs h.1)

runes_from-text_of_runes :
    (fuel : ℕ) (rs : List Str)
    → All IsRune rs
    → length rs ≤ fuel
    → runes_from fuel (text_of_runes rs) ≡ rs
unfolding runes_from text_of_runes
runes_from-text_of_runes zero [] h l = refl
runes_from-text_of_runes zero (r ∷ rs) h l = absurd (omega (arith, l))
runes_from-text_of_runes (suc fuel) [] h l = refl
runes_from-text_of_runes (suc fuel) ([] ∷ rs) h l = absurd h.0
runes_from-text_of_runes (suc fuel) ((a ∷ r) ∷ rs) h l =
    ap (λ (p : Str × Str). p.0 ∷ runes_from fuel p.1) (h.0 (text_of_runes rs))
    ∙ ap (◌∷◌ (a ∷ r)) (runes_from-text_of_runes fuel rs h.1 (omega (arith, l)))

-- Runes are read again from the text that they make.
runes-text_of_runes : (rs : List Str) → All IsRune rs → runes (text_of_runes rs) ≡ rs
unfolding runes
runes-text_of_runes rs h =
    runes_from-text_of_runes (length (text_of_runes rs)) rs h (length-le-text_of_runes rs h)

length-take : (n : ℕ) (rs : List Str) → length (take n rs) ≤ n
unfolding take
length-take zero rs = omega arith
length-take (suc n) [] = omega arith
length-take (suc n) (r ∷ rs) = omega (arith, length-take n rs)

at_most_64_bound : (line : Str) → length (runes (at_most_64 line)) ≤ 64
unfolding at_most_64
at_most_64_bound line = elim (Bool-cases (leb (length (runes line)) 64)) [
  | inl q ↦ rw q (ground (arith, q))
  | inr q ↦ rw q (
      rw
        (runes-text_of_runes (take 64 (runes line))
          (take-IsRune 64 (runes line) (unfold runes in runes_from-IsRune (length line) line)))
        (length-take 64 (runes line)))
]

-- The version that a heartbeat tells has at most 64 runes, whatever the core prints.
pub concise_version_line_bound : (out : Str) → length (runes (concise_version_line out)) ≤ 64
unfolding concise_version_line
concise_version_line_bound out =
    at_most_64_bound
      (name_and_version (first_line (trim_space out)) (fields (first_line (trim_space out))))
