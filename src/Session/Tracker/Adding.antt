-- ===== src/Session/Tracker/Adding.antt =====
-- An event is reported as long as it is in the window.
use xnode_agent.Prelude.{
  ℤ, pos, ◌≤ℤ◌, ◌≤◌, str_lt, Bool, true, false, some, List, [], ◌∷◌, ◌++◌, Str, Map, lookup,
  lookup-insert_self, insert, filter, filter-In, length, map, sort, sort_insert, In, inl, inr,
  Bool-cases, ◌==◌, str_eq, nat_eq, eq_iff, ◌≡◌, refl, ap, ◌∙◌, arith,
}
use xnode_agent.Model.{SessionRecord, UsageKey, key_eq}
use xnode_agent.Session.Tracker.{
  Event, Entry, Tracker, add, add_event, get_entry, cutoff, is_recent, prune_entry, is_idle, prune,
  session_record, session_lt, records,
}

In-sort_insert :
    {A : Type 0} (less : A → A → Bool) (a x : A) (xs : List A)
    → In a (x ∷ xs)
    → In a (sort_insert less x xs)
unfolding sort_insert
In-sort_insert less a x [] i = i
In-sort_insert less a x (y ∷ ys) i = ground (arith, In-sort_insert less a x ys)

In-sort : {A : Type 0} (less : A → A → Bool) (a : A) (xs : List A) → In a xs → In a (sort less xs)
unfolding sort
In-sort less a [] i = i
In-sort less a (x ∷ xs) (inl p) = In-sort_insert less a x (sort less xs) (inl p)
In-sort less a (x ∷ xs) (inr i) = In-sort_insert less a x (sort less xs) (inr (In-sort less a xs i))

In-map : {A B : Type 0} (f : A → B) (a : A) (xs : List A) → In a xs → In (f a) (map f xs)
In-map f a [] i = absurd i
In-map f a (x ∷ xs) (inl p) = inl (ap f p)
In-map f a (x ∷ xs) (inr i) = inr (In-map f a xs i)

-- What a key has is kept by a pruning, if that leaves it something.
In-prune :
    (c : ℤ) (k : UsageKey) (e : Entry) (t : Tracker)
    → lookup k t ≡ some e
    → is_idle (prune_entry c e) ≡ false
    → In (k, prune_entry c e) (prune c t)
unfolding prune lookup
In-prune c k e [] h n = absurd (ground (arith, h))
In-prune c k e ((j, f) ∷ t) h n = elim (Bool-cases (j == k)) [
  | inl p ↦
      let same : f ≡ e = ground (arith, h, p) in
      let there : (j, prune_entry c f) ≡ (k, prune_entry c e) = cc (same, (eq_iff j k).0 p) in
      let busy : is_idle (prune_entry c f) ≡ false = ap (λ x. is_idle (prune_entry c x)) same ∙ n in
      rw busy (inl there)
  | inr p ↦
      let rest = In-prune c k e t (ground (arith, h, p)) n in
      elim (Bool-cases (is_idle (prune_entry c f))) [ inl i ↦ rw i rest | inr i ↦ rw i (inr rest) ]
]

In-insert : (k : Str) (v : ℤ) (m : Map Str ℤ) → In (k, v) (insert k v m)
unfolding insert
In-insert k v [] = inl refl
In-insert k v ((j, w) ∷ m) = elim (Bool-cases (j == k)) [
  | inl p ↦ rw p (inl refl)
  | inr p ↦ rw p (inr (In-insert k v m))
]

In-last : (a : ℤ) (xs : List ℤ) → In a (xs ++ a ∷ [])
In-last a [] = inl refl
In-last a (x ∷ xs) = inr (In-last a xs)

In-length : {A : Type 0} (a : A) (xs : List A) → In a xs → 1 ≤ length xs
In-length a [] i = absurd i
In-length a (x ∷ xs) i = omega arith

add_event-busy :
    (c : ℤ) (ev : Event) (e : Entry)
    → is_recent c ev.at_time ≡ true
    → 1 ≤ length (prune_entry c (add_event ev e)).seen
unfolding prune_entry add_event
add_event-busy c ev e h =
    In-length ev.at_time (filter (is_recent c) (e.seen ++ ev.at_time ∷ []))
      (filter-In (is_recent c) ev.at_time (e.seen ++ ev.at_time ∷ []) (In-last ev.at_time e.seen) h)

add_event-ip :
    (c : ℤ) (ev : Event) (e : Entry)
    → is_recent c ev.at_time ≡ true
    → In (ev.ip, ev.at_time) (prune_entry c (add_event ev e)).ips
unfolding prune_entry add_event
add_event-ip c ev e h =
    filter-In (λ p. is_recent c p.1) (ev.ip, ev.at_time) (insert ev.ip ev.at_time e.ips)
      (In-insert ev.ip ev.at_time e.ips) h

-- An event whose time is not before the window is in the next records: one of them is of its user and
-- inbound, has its address and counts a connection, whatever the tracker held.
pub records-add :
    (t : Tracker) (ev : Event) (now window : ℤ)
    → is_recent (cutoff now window) ev.at_time ≡ true
    → (r : SessionRecord) × In r (records (add ev t) now window).1
      × (r.user_id ≡ ev.user_id)
      × (r.inbound_id ≡ ev.inbound_id)
      × In ev.ip r.ips
      × (pos 1 ≤ℤ r.recent_connections)
unfolding records add session_record
records-add t ev now window h =
    let c = cutoff now window in
    let k : UsageKey = record { user_id = ev.user_id; inbound_id = ev.inbound_id } in
    let e = add_event ev (get_entry (lookup k t)) in
    let busy = add_event-busy c ev (get_entry (lookup k t)) h in
    let kept =
      In-prune c k e (insert k e t) (lookup-insert_self k e t)
        (unfold is_idle in ground (arith, busy, eq_iff (length (prune_entry c e).seen) 0)) in
    (
      session_record (k, prune_entry c e),
      In-sort session_lt (session_record (k, prune_entry c e))
          (map session_record (prune c (insert k e t)))
          (In-map session_record (k, prune_entry c e) (prune c (insert k e t)) kept),
      refl,
      refl,
      In-sort str_lt ev.ip (map (λ p. p.0) (prune_entry c e).ips) (
          In-map (λ (p : Str × ℤ). p.0) (ev.ip, ev.at_time) (prune_entry c e).ips
            (add_event-ip c ev (get_entry (lookup k t)) h)),
      omega (arith, busy),
    )
