-- ===== src/Policy/Drain.antt =====
-- ApplyDrain of internal/policy/evaluator.go: while a node drains, only inbounds and credentials
-- that it had before stay in its desired state.
use xnode_agent.Prelude.{
  Bool, List, [], ◌∷◌, Str, codes, Map, Option, none, some, lookup, index, has-index, any, filter,
  In, ◌==◌, str_eq, ◌≡◌, refl, inl, inr, arith, ap, ◌∙◌,
}
use xnode_agent.Model.{ManagedUser, ManagedInbound, DesiredState}

-- prevIn: the last inbound of an ID counts.
abbrev pub previous_by_id : List ManagedInbound → Map Str ManagedInbound
previous_by_id = index (λ inb. inb.id)

-- _, ok := members[u.ID]
unfoldable pub is_member : ManagedInbound → ManagedUser → Bool
is_member old u = any (λ v. v.id == u.id) old.users

-- One round of the loop over the desired inbounds, given the previous inbound of its ID.
unfoldable pub drain_inbound :
    Option ManagedInbound → ManagedInbound → List ManagedInbound → List ManagedInbound
drain_inbound none inb kept = kept
drain_inbound (some old) inb kept = record inb { users = filter (is_member old) inb.users } ∷ kept

unfoldable pub drain_inbounds : Map Str ManagedInbound → List ManagedInbound → List ManagedInbound
unfolding drain_inbound
drain_inbounds previous [] = []
drain_inbounds previous (inb ∷ rest) =
    drain_inbound (lookup inb.id previous) inb (drain_inbounds previous rest)

unfoldable pub apply_drain : DesiredState → DesiredState → DesiredState
apply_drain previous desired = record desired {
  mode = codes "draining";
  inbounds = drain_inbounds (previous_by_id previous.inbounds) desired.inbounds;
}

filter_again {ℓ} : {A : Type ℓ} (p : A → Bool) (xs : List A) → filter p (filter p xs) ≡ filter p xs
unfolding filter
filter_again p [] = refl
filter_again p (x ∷ xs) = ground (arith, filter_again p xs)

-- The inbound without the users that the old one does not have.
abbrev pub drained : ManagedInbound → ManagedInbound → ManagedInbound
drained old inb = record inb { users = filter (is_member old) inb.users }

-- The desired inbound that a drained one comes from, and the previous one of the same ID.
abbrev Origin : Map Str ManagedInbound → ManagedInbound → List ManagedInbound → Type 0
Origin previous out inbs =
    (inb : ManagedInbound) × (old : ManagedInbound) × In inb inbs
    × (lookup inb.id previous ≡ some old)
    × (out ≡ drained old inb)

drain_inbound_later :
    (o : Option ManagedInbound) (inb out : ManagedInbound) (kept : List ManagedInbound)
    → In out kept
    → In out (drain_inbound o inb kept)
unfolding drain_inbound
drain_inbound_later none inb out kept m = m
drain_inbound_later (some old) inb out kept m = inr m

drain_inbounds-drained :
    (previous : Map Str ManagedInbound) (inb old : ManagedInbound) (inbs : List ManagedInbound)
    → In inb inbs
    → lookup inb.id previous ≡ some old
    → In (drained old inb) (drain_inbounds previous inbs)
unfolding drain_inbounds
drain_inbounds-drained previous inb old [] m e = absurd m
drain_inbounds-drained previous inb old (a ∷ rest) (inl p) e =
    rw (ap (λ (b : ManagedInbound). lookup b.id previous) p ∙ e, drain_inbound)
      (inl (ap (drained old) p))
drain_inbounds-drained previous inb old (a ∷ rest) (inr m) e =
    drain_inbound_later (lookup a.id previous) a (drained old inb) (drain_inbounds previous rest)
      (drain_inbounds-drained previous inb old rest m e)

drain_inbounds_again :
    (previous : Map Str ManagedInbound) (inbs : List ManagedInbound)
    → drain_inbounds previous (drain_inbounds previous inbs) ≡ drain_inbounds previous inbs
unfolding drain_inbounds
drain_inbounds_again previous [] = refl
drain_inbounds_again previous (inb ∷ rest) =
    go (lookup inb.id previous) refl (drain_inbounds_again previous rest)
  where
    go :
        (o : Option ManagedInbound)
        → lookup inb.id previous ≡ o
        → drain_inbounds previous (drain_inbounds previous rest) ≡ drain_inbounds previous rest
        → drain_inbounds previous (drain_inbound o inb (drain_inbounds previous rest))
          ≡ drain_inbound o inb (drain_inbounds previous rest)
    go none e ih = ih
    go (some old) e ih =
        rw (e, drain_inbound) (ground (arith, ih, filter_again (is_member old) inb.users))

module _ (previous desired : DesiredState) where
  -- No desired inbound is dropped whose ID the previous state has.
  pub apply_drain_keeps :
      (inb old : ManagedInbound)
      → In inb desired.inbounds
      → In old previous.inbounds
      → old.id ≡ inb.id
      → (out : ManagedInbound) × In out (apply_drain previous desired).inbounds × (out.id ≡ inb.id)
  unfolding apply_drain
  apply_drain_keeps inb old m mo same = go (lookup inb.id (previous_by_id previous.inbounds)) refl
    where
      go :
          (o : Option ManagedInbound)
          → lookup inb.id (previous_by_id previous.inbounds) ≡ o
          → (out : ManagedInbound) × In out
              (drain_inbounds (previous_by_id previous.inbounds) desired.inbounds)
            × (out.id ≡ inb.id)
      go (some found) e =
          (drained found inb, drain_inbounds-drained _ inb found desired.inbounds m e, refl)
      go none e =
          absurd (ground (arith, same, has-index (λ inb. inb.id) previous.inbounds old mo, e))

  -- Draining against the same previous state again changes nothing.
  pub apply_drain_again :
      apply_drain previous (apply_drain previous desired) ≡ apply_drain previous desired
  unfolding apply_drain
  apply_drain_again =
      ground (arith, drain_inbounds_again (previous_by_id previous.inbounds) desired.inbounds)
