-- ===== src/Session/Tracker/Pruning.antt =====
-- Reading the records forgets nothing that a later reading would report.
use xnode_agent.Prelude.{
  ℤ, ◌≤ℤ◌, ◌≤◌, true, List, [], ◌∷◌, filter, length, nat_eq, eq_iff, ◌≡◌, refl, arith,
}
use xnode_agent.Session.Tracker.{
  Entry, Tracker, cutoff, is_recent, prune_entry, is_idle, prune, records,
}

is_recent_mono : (c d ts : ℤ) → c ≤ℤ d → is_recent d ts ≡ true → is_recent c ts ≡ true
unfolding is_recent
is_recent_mono c d ts h e = ground arith

module _ {A : Type 0} (stamp : A → ℤ) where
  -- What passes a later cutoff passed the earlier one.
  filter_recent :
      (c d : ℤ) (xs : List A)
      → c ≤ℤ d
      → filter (λ a. is_recent d (stamp a)) (filter (λ a. is_recent c (stamp a)) xs)
        ≡ filter (λ a. is_recent d (stamp a)) xs
  unfolding filter
  filter_recent c d [] h = refl
  filter_recent c d (x ∷ xs) h =
      ground (arith, is_recent_mono c d (stamp x) h, filter_recent c d xs h)

  -- No more passes the later cutoff than the earlier one.
  length-filter_recent :
      (c d : ℤ) (xs : List A)
      → c ≤ℤ d
      → length (filter (λ a. is_recent d (stamp a)) xs)
        ≤ length (filter (λ a. is_recent c (stamp a)) xs)
  unfolding filter
  length-filter_recent c d [] h = omega arith
  length-filter_recent c d (x ∷ xs) h =
      ground (arith, is_recent_mono c d (stamp x) h, length-filter_recent c d xs h)

prune_entry_twice :
    (c d : ℤ) (e : Entry) → c ≤ℤ d → prune_entry d (prune_entry c e) ≡ prune_entry d e
unfolding prune_entry
prune_entry_twice c d e h =
    cc (filter_recent (λ p. p.1) c d e.ips h, filter_recent (λ t. t) c d e.seen h)

is_idle_later :
    (c d : ℤ) (e : Entry)
    → c ≤ℤ d
    → is_idle (prune_entry c e) ≡ true
    → is_idle (prune_entry d e) ≡ true
unfolding is_idle prune_entry
is_idle_later c d e h i = ground (
  arith,
  length-filter_recent (λ p. p.1) c d e.ips h,
  length-filter_recent (λ t. t) c d e.seen h,
  eq_iff (length (prune_entry c e).ips) 0,
  eq_iff (length (prune_entry c e).seen) 0,
  eq_iff (length (prune_entry d e).ips) 0,
  eq_iff (length (prune_entry d e).seen) 0,
)

prune_twice : (c d : ℤ) (t : Tracker) → c ≤ℤ d → prune d (prune c t) ≡ prune d t
unfolding prune
prune_twice c d [] h = refl
prune_twice c d ((k, e) ∷ t) h =
    ground (arith, is_idle_later c d e h, prune_entry_twice c d e h, prune_twice c d t h)

-- A reading of the records drops from the tracker only what every reading with the same or a later
-- cutoff would drop: where the cutoff does not go back, the later reading gives the same records and
-- leaves the same tracker as without the earlier one.
pub records-records :
    (t : Tracker) (now window now' window' : ℤ)
    → cutoff now window ≤ℤ cutoff now' window'
    → records (records t now window).0 now' window' ≡ records t now' window'
unfolding records
records-records t now window now' window' h =
    rw (prune_twice (cutoff now window) (cutoff now' window') t h) refl
