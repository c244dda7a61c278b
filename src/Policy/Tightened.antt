-- ===== src/Policy/Tightened.antt =====
-- The order in which the evaluation moves a state: some users lose their flag, nothing else changes.
use xnode_agent.Prelude.{
  Bool, true, List, [], ◌∷◌, ◌≡◌, arith, In, inl, inr, count_if, ◌≤◌, Str, ◌&&◌, ◌==◌, str_eq,
}
use xnode_agent.Model.{ManagedUser}

-- Pairwise and in order: the user but for its flag, which is set only if it was.
abbrev pub Tightened : List ManagedUser → List ManagedUser → Type 0
Tightened [] [] = Unit
Tightened (u ∷ us) (v ∷ vs) =
    (v ≡ record u { enabled = v.enabled }) × (v.enabled ≡ true → u.enabled ≡ true) × Tightened us vs
Tightened _ _ = ⊥

pub Tightened-trans :
    (us vs ws : List ManagedUser) → Tightened us vs → Tightened vs ws → Tightened us ws
Tightened-trans [] [] [] h k = tt
Tightened-trans (u ∷ us) (v ∷ vs) (w ∷ ws) (e, f, h) (e', f', h') =
    (ground arith, λ on. f (f' on), Tightened-trans us vs ws h h')
Tightened-trans [] (v ∷ vs) ws h k = absurd h
Tightened-trans (u ∷ us) [] ws h k = absurd h
Tightened-trans [] [] (w ∷ ws) h k = absurd k
Tightened-trans (u ∷ us) (v ∷ vs) [] h k = absurd k

-- A user that kept its flag is one of the original users.
pub Tightened-In :
    (v : ManagedUser) (us vs : List ManagedUser)
    → Tightened us vs
    → In v vs
    → v.enabled ≡ true
    → In v us
Tightened-In v us [] h m on = absurd m
Tightened-In v [] (w ∷ vs) h m on = absurd h
Tightened-In v (u ∷ us) (w ∷ vs) (e, f, h) (inl p) on = inl (ground arith)
Tightened-In v (u ∷ us) (w ∷ vs) (e, f, h) (inr m) on = inr (Tightened-In v us vs h m on)

-- An enabled credential of the account.
unfoldable pub member : Str → ManagedUser → Bool
member a u = u.enabled && u.account_id == a

-- An account has no more enabled credentials than before.
pub Tightened-count_if :
    (a : Str) (us vs : List ManagedUser)
    → Tightened us vs
    → count_if (member a) vs ≤ count_if (member a) us
unfolding count_if member
Tightened-count_if a [] [] h = omega arith
Tightened-count_if a (u ∷ us) (v ∷ vs) (e, f, h) = ground (arith, e, Tightened-count_if a us vs h)
Tightened-count_if a [] (v ∷ vs) h = absurd h
Tightened-count_if a (u ∷ us) [] h = absurd h
