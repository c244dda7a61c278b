-- ===== src/Limits/PolicyFile/Tombstones.antt =====
-- How long an identity that is removed stays blocked by the files that WriteCorePolicy writes.
use xnode_agent.Prelude.{
  ℤ, pos, leb_ℤ, ◌+ℤ◌, ◌≤ℤ◌, ◌<ℤ◌, true, Option, none, some, List, [], ◌∷◌, Str, lookup, str_eq,
  int_eq, eq_iff, ◌≡◌, ◌≢◌, refl, ap, sym, ◌∙◌, arith, In, inl, inr, All, Bool-cases, leb→le, subst,
}
use xnode_agent.Model.{DesiredState}
use xnode_agent.Limits.PolicyFile.{
  CorePolicy, CorePolicyFile, removed_user_tombstone, deadline, tombstone, old_users,
  policy_document,
}
use xnode_agent.Limits.PolicyFile.Document.{
  removed_entry, or_else, current, AreDistinct, policy_document-lookup, old_users-policy_document,
  AreDistinct-policy_document,
}

abbrev pub Writes : Type 0
Writes = List (DesiredState × ℤ)

-- The file after one write after the other, each of which works.
unfoldable pub write_all : Option CorePolicyFile → Writes → Option CorePolicyFile
write_all file [] = file
write_all file ((state, now) ∷ rest) = write_all (some (policy_document file state now)) rest

abbrev pub entry : Str → Option CorePolicyFile → Option CorePolicy
entry e file = lookup e (old_users file)

-- No write's state names the identity.
abbrev pub IsGone : Str → Writes → Type 0
IsGone e writes = All (λ (w : DesiredState × ℤ). lookup e (current w.0) ≡ none) writes

-- One more write without the identity.
entry-policy_document :
    (file : Option CorePolicyFile) (state : DesiredState) (now : ℤ) (e : Str)
    → AreDistinct file
    → lookup e (current state) ≡ none
    → entry e (some (policy_document file state now)) ≡ removed_entry now (entry e file)
entry-policy_document file state now e d gone =
    ap (lookup e) (old_users-policy_document file state now)
    ∙ policy_document-lookup file state now e d
    ∙ ap (λ o. or_else o (removed_entry now (entry e file))) gone

-- A tombstone is not changed, and its deadline not moved, by the writes after the one that set it.
tombstone_steady :
    (t now : ℤ) (p : CorePolicy)
    → deadline t p ≢ pos 0
    → (tombstone now (tombstone t p) ≡ tombstone t p)
      × (deadline now (tombstone t p) ≡ deadline t p)
unfolding tombstone deadline
tombstone_steady t now p h =
    ground (arith, eq_iff p.tombstone_until (pos 0), eq_iff (deadline t p) (pos 0))

write_all-none :
    (e : Str) (file : Option CorePolicyFile) (ws : Writes)
    → AreDistinct file
    → entry e file ≡ none
    → IsGone e ws
    → entry e (write_all file ws) ≡ none
unfolding write_all
write_all-none e file [] d h g = h
write_all-none e file ((state, now) ∷ ws) d h g =
    write_all-none e (some (policy_document file state now)) ws
      (AreDistinct-policy_document file state now)
      (entry-policy_document file state now e d g.0
        ∙ ap (removed_entry now) h
        ∙ (unfold removed_entry in refl))
      g.1

module _ (e : Str) (t : ℤ) (p : CorePolicy) (set : deadline t p ≢ pos 0) where
  removed_entry_before :
      (now : ℤ)
      → now <ℤ deadline t p
      → removed_entry now (some (tombstone t p)) ≡ some (tombstone t p)
  unfolding removed_entry
  removed_entry_before now h = ground (arith, tombstone_steady t now p set)

  removed_entry_after :
      (now : ℤ) → deadline t p ≤ℤ now → removed_entry now (some (tombstone t p)) ≡ none
  unfolding removed_entry
  removed_entry_after now h = ground (arith, tombstone_steady t now p set)

  write_all-tombstone :
      (file : Option CorePolicyFile) (ws : Writes)
      → AreDistinct file
      → entry e file ≡ some (tombstone t p)
      → IsGone e ws
      → All (λ (w : DesiredState × ℤ). w.1 <ℤ deadline t p) ws
      → entry e (write_all file ws) ≡ some (tombstone t p)
  unfolding write_all
  write_all-tombstone file [] d h g b = h
  write_all-tombstone file ((state, now) ∷ ws) d h g b =
      write_all-tombstone (some (policy_document file state now)) ws
        (AreDistinct-policy_document file state now)
        (entry-policy_document file state now e d g.0
          ∙ ap (removed_entry now) h
          ∙ removed_entry_before now b.0)
        g.1 b.1

  write_all-past :
      (file : Option CorePolicyFile) (state : DesiredState) (now : ℤ) (ws : Writes)
      → AreDistinct file
      → entry e file ≡ some (tombstone t p)
      → IsGone e ((state, now) ∷ ws)
      → deadline t p ≤ℤ now
      → entry e (write_all (some (policy_document file state now)) ws) ≡ none
  write_all-past file state now ws d h g l =
      write_all-none e (some (policy_document file state now)) ws
        (AreDistinct-policy_document file state now)
        (entry-policy_document file state now e d g.0
          ∙ ap (removed_entry now) h
          ∙ removed_entry_after now l)
        g.1

  write_all-expired :
      (file : Option CorePolicyFile) (ws : Writes)
      → AreDistinct file
      → entry e file ≡ some (tombstone t p)
      → IsGone e ws
      → (w : DesiredState × ℤ) → In w ws
      → deadline t p ≤ℤ w.1
      → entry e (write_all file ws) ≡ none
  unfolding write_all
  write_all-expired file [] d h g w m l = absurd m
  write_all-expired file ((state, now) ∷ ws) d h g w (inl same) l =
      write_all-past file state now ws d h g
        (subst (λ (v : DesiredState × ℤ). deadline t p ≤ℤ v.1) (sym same) l)
  write_all-expired file ((state, now) ∷ ws) d h g w (inr m) l =
      elim (Bool-cases (leb_ℤ (deadline t p) now)) [
        | inl past ↦ write_all-past file state now ws d h g (leb→le _ _ past)
        | inr early ↦
            write_all-expired (some (policy_document file state now)) ws
              (AreDistinct-policy_document file state now)
              (entry-policy_document file state now e d g.0
                ∙ ap (removed_entry now) h
                ∙ removed_entry_before now (ground arith))
              g.1 w m l
      ]

-- A file with an entry for the identity that is no tombstone yet.
pub record WasThere (e : Str) (p : CorePolicy) (file : Option CorePolicyFile) : Type 0 where
  pub distinct : AreDistinct file
  pub found : entry e file ≡ some p
  pub live : p.tombstone_until ≡ pos 0

deadline_live :
    (t : ℤ) (p : CorePolicy)
    → p.tombstone_until ≡ pos 0
    → deadline t p ≡ t +ℤ removed_user_tombstone
unfolding deadline
deadline_live t p h = ground (arith, eq_iff p.tombstone_until (pos 0))

deadline_ne_zero :
    (t : ℤ) (p : CorePolicy) → pos 0 <ℤ t → p.tombstone_until ≡ pos 0 → deadline t p ≢ pos 0
deadline_ne_zero t p pt h e = unfold ◌+ℤ◌ in ground (arith, sym (deadline_live t p h) ∙ e)

-- The first write without the identity makes its entry a tombstone.
first_tombstone :
    (e : Str) (p : CorePolicy) (file : Option CorePolicyFile) (state : DesiredState) (t : ℤ)
    → pos 0 <ℤ t
    → WasThere e p file
    → lookup e (current state) ≡ none
    → entry e (some (policy_document file state t)) ≡ some (tombstone t p)
first_tombstone e p file state t pt was g =
    entry-policy_document file state t e was.distinct g
    ∙ ap (removed_entry t) was.found
    ∙ (unfold removed_entry ◌+ℤ◌ in ground (arith, deadline_live t p was.live))

-- An identity that the file has and that is no tombstone is blocked by the first write, at a time
-- `t` after 1970, whose state does not name it, with `t` plus five minutes as the end of its time,
-- and has the same end and is still blocked after all further writes that do not name it, as long
-- as each is before that end: no write extends or shortens the time. The names in the file are
-- distinct.
pub removed_user_blocked :
    (e : Str) (p : CorePolicy) (file : Option CorePolicyFile) (state : DesiredState) (t : ℤ)
    (ws : Writes)
    → pos 0 <ℤ t
    → WasThere e p file
    → IsGone e ((state, t) ∷ ws)
    → All (λ (w : DesiredState × ℤ). w.1 <ℤ t +ℤ removed_user_tombstone) ws
    → (q : CorePolicy) × (entry e (write_all file ((state, t) ∷ ws)) ≡ some q)
      × (q.blocked ≡ true)
      × (q.tombstone_until ≡ t +ℤ removed_user_tombstone)
unfolding write_all
removed_user_blocked e p file state t ws pt was g b =
    let at : deadline t p ≡ t +ℤ removed_user_tombstone = deadline_live t p was.live in
    (
      tombstone t p,
      write_all-tombstone e t p (deadline_ne_zero t p pt was.live)
          (some (policy_document file state t)) ws (AreDistinct-policy_document file state t)
          (first_tombstone e p file state t pt was g.0) g.1 (rw at b),
      unfold tombstone in refl,
      unfold tombstone in at,
    )

-- An identity that the file has and that is no tombstone is gone from the file after a write at a
-- time `t` after 1970 and further writes, none of which names it, if one of the further writes is
-- at `t` plus five minutes or later, whatever the order of their times. The names in the file are
-- distinct.
pub removed_user_forgotten :
    (e : Str) (p : CorePolicy) (file : Option CorePolicyFile) (state : DesiredState) (t : ℤ)
    (ws : Writes)
    → pos 0 <ℤ t
    → WasThere e p file
    → IsGone e ((state, t) ∷ ws)
    → (w : DesiredState × ℤ) → In w ws
    → t +ℤ removed_user_tombstone ≤ℤ w.1
    → entry e (write_all file ((state, t) ∷ ws)) ≡ none
unfolding write_all
removed_user_forgotten e p file state t ws pt was g w m l =
    write_all-expired e t p (deadline_ne_zero t p pt was.live) (some (policy_document file state t))
      ws (AreDistinct-policy_document file state t) (first_tombstone e p file state t pt was g.0)
      g.1 w m (rw (deadline_live t p was.live) l)
