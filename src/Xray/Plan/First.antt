-- ===== src/Xray/Plan/First.antt =====
-- The first user of a list that passes a test.
use xnode_agent.Prelude.{
  Bool, true, false, Option, none, some, List, [], ◌∷◌, In, inl, inr, any, if◌then◌else◌, ◌≡◌, refl,
  ap, sym, ◌∙◌, arith, Bool-cases,
}
use xnode_agent.Model.{ManagedUser}
use xnode_agent.Model.Values.{Json}

-- The client of the first user that passes the test.
unfoldable pub first_client :
    (ManagedUser → Json) → (ManagedUser → Bool) → List ManagedUser → Option Json
first_client c p [] = none
first_client c p (u ∷ us) = if p u then some (c u) else first_client c p us

unfoldable pub over : Option Json → Option Json → Option Json
over none old = old
over (some c) old = some c

module _ (client : ManagedUser → Json) (p : ManagedUser → Bool) where
  pub none-first_client :
      (us : List ManagedUser)
      → ((u : ManagedUser) → In u us → p u ≡ false)
      → first_client client p us ≡ none
  unfolding first_client
  none-first_client [] h = refl
  none-first_client (u ∷ us) h =
      ground (arith, h u (inl refl), none-first_client us (λ v i. h v (inr i)))

  pub first_client-none :
      (us : List ManagedUser) (u : ManagedUser)
      → first_client client p us ≡ none
      → In u us
      → p u ≡ false
  unfolding first_client
  first_client-none [] u h i = absurd i
  first_client-none (v ∷ us) u h (inl e) = ap p (sym e) ∙ ground (arith, h)
  first_client-none (v ∷ us) u h (inr i) = ground (arith, h, first_client-none us u)

  pub first_client-some :
      (us : List ManagedUser) (c : Json)
      → first_client client p us ≡ some c
      → (u : ManagedUser) × In u us × (p u ≡ true) × (client u ≡ c)
  unfolding first_client
  first_client-some [] c h = absurd (ground (arith, h))
  first_client-some (v ∷ us) c h = elim (Bool-cases (p v)) [
    | inl e ↦ (v, inl refl, e, ground (arith, h, e))
    | inr e ↦ let (u, i, q, k) = first_client-some us c (ground (arith, h, e)) in (u, inr i, q, k)
  ]

  pub first_client_only :
      (us : List ManagedUser) (u : ManagedUser)
      → In u us
      → p u ≡ true
      → ((v : ManagedUser) → In v us → p v ≡ true → v ≡ u)
      → first_client client p us ≡ some (client u)
  unfolding first_client
  first_client_only [] u i h o = absurd i
  first_client_only (v ∷ us) u i h o = elim (Bool-cases (p v)) [
    | inl e ↦ rw e (ap (λ w. some (client w)) (o v (inl refl) e))
    | inr e ↦ rw e (elim i [
      | inl q ↦ absurd (ground (arith, e, h, ap p q))
      | inr j ↦ first_client_only us u j h (λ w k. o w (inr k))
    ])
  ]

module _ (p : ManagedUser → Bool) where
  pub any_none :
      (us : List ManagedUser) → ((u : ManagedUser) → In u us → p u ≡ false) → any p us ≡ false
  unfolding any
  any_none [] h = refl
  any_none (u ∷ us) h = ground (arith, h u (inl refl), any_none us (λ v i. h v (inr i)))

  pub any_some : (us : List ManagedUser) (u : ManagedUser) → In u us → p u ≡ true → any p us ≡ true
  unfolding any
  any_some [] u i h = absurd i
  any_some (v ∷ us) u (inl e) h = ground (arith, h, ap p e)
  any_some (v ∷ us) u (inr i) h = ground (arith, any_some us u i h)
