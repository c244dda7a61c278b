-- ===== src/Prelude/Texts.antt =====
-- The functions of Go's package strings that the agent uses, over bytes. A byte below 128 is its
-- character; the case of letters beyond ASCII is not mapped.
use Prim.Native.Nat.{ℕ, ◌+◌}
use Prim.Native.Char.{code}
use Prim.Native.String.{String}
use mathlib.Core.Path.{ap, ◌∙◌, ◌≡◌, refl}
use mathlib.Core.Logic.{◌≢◌}
use mathlib.Core.Bool.{Bool, true, false, ◌&&◌, ◌||◌}
use mathlib.Core.Option.{Option, none, some}
use mathlib.Core.List.{[], ◌∷◌, ◌++◌, map}
use native.Mathlib.Omega.{arith}
use xnode_agent.Prelude.Bools.{ltb, leb, if◌then◌else◌}
use xnode_agent.Prelude.Lists.{All}
use xnode_agent.Prelude.Eqs.{eq_iff, Str, ◌==◌, eq_refl, nat_eq, str_eq}

-- The bytes of an ASCII literal.
abbrev pub codes : String → Str
codes String.[] = []
codes (String.◌∷◌ c s) = code c ∷ codes s

-- s < t
unfoldable pub str_lt : Str → Str → Bool
str_lt [] [] = false
str_lt [] (b ∷ t) = true
str_lt (a ∷ s) [] = false
str_lt (a ∷ s) (b ∷ t) = let rest = str_lt s t in ltb a b || (leb a b && rest)

unfoldable pub to_lower : Str → Str
to_lower = map (λ c. if leb b'A' c && leb c b'Z' then c + 32 else c)

-- strings.CutPrefix: what follows the prefix, if it is one.
unfoldable pub cut_prefix : Str → Str → Option Str
cut_prefix [] s = some s
cut_prefix (p ∷ ps) [] = none
cut_prefix (p ∷ ps) (c ∷ s) = let rest = cut_prefix ps s in if p == c then rest else none

-- The cut at a place where the separator stands, if it does, or else the cut further on.
unfoldable pub cut_here : Option Str → ℕ → Option (Str × Str) → Option (Str × Str)
cut_here (some rest) c later = some ([], rest)
cut_here none c none = none
cut_here none c (some (before, after)) = some (c ∷ before, after)

-- strings.SplitN(s, sep, 2) with a separator that is not empty: the text before and after its first
-- occurrence.
unfoldable pub cut : Str → Str → Option (Str × Str)
unfolding cut_here
cut sep [] = none
cut sep (c ∷ s) = cut_here (cut_prefix sep (c ∷ s)) c (cut sep s)

pub cut_prefix-append : (p s : Str) → cut_prefix p (p ++ s) ≡ some s
unfolding cut_prefix
cut_prefix-append [] s = refl
cut_prefix-append (c ∷ p) s = rw (eq_refl c) (cut_prefix-append p s)

cut_prefix_miss : (p c : ℕ) (ps s : Str) → c ≢ p → cut_prefix (p ∷ ps) (c ∷ s) ≡ none
unfolding cut_prefix
cut_prefix_miss p c ps s h = ground (arith, eq_iff p c)

-- A separator whose first byte is not in the text before it is found behind that text.
pub cut_first :
    (p : ℕ) (ps s t : Str) → All (λ c. c ≢ p) s → cut (p ∷ ps) (s ++ ((p ∷ ps) ++ t)) ≡ some (s, t)
unfolding cut
cut_first p ps [] t h =
    ap (λ o. cut_here o p (cut (p ∷ ps) (ps ++ t))) (cut_prefix-append (p ∷ ps) t)
cut_first p ps (c ∷ s) t h =
    ap (λ o. cut_here o c (cut (p ∷ ps) (s ++ ((p ∷ ps) ++ t))))
      (cut_prefix_miss p c ps (s ++ ((p ∷ ps) ++ t)) h.0)
    ∙ ap (cut_here none c) (cut_first p ps s t h.1)

-- A separator whose first byte is not in the text is not found.
pub cut_missing : (p : ℕ) (ps s : Str) → All (λ c. c ≢ p) s → cut (p ∷ ps) s ≡ none
unfolding cut
cut_missing p ps [] h = refl
cut_missing p ps (c ∷ s) h =
    ap (λ o. cut_here o c (cut (p ∷ ps) s)) (cut_prefix_miss p c ps s h.0)
    ∙ ap (cut_here none c) (cut_missing p ps s h.1)
