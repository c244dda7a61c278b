-- ===== src/Traffic/Spool/Held.antt =====
-- Where the batches come from that List of internal/traffic/spool.go returns.
use xnode_agent.Prelude.{
  true, some, none, List, [], ◌∷◌, Str, codes, lookup, Distinct, All, All-sort, inl, inr, ◌==◌,
  str_eq, eq_iff, ◌≡◌, ap, arith, Bool-cases, insert, remove, lookup-insert, lookup-remove, subst,
  sym, ◌∙◌,
}
use xnode_agent.Model.{TrafficBatch}
use xnode_agent.Traffic.Spool.Files.{has_suffix-temp_name}
use xnode_agent.Traffic.Spool.{
  Dir, Entry, directory, unreadable, document, Result, ok, err, has_suffix, file_name, read_file,
  read_files, batch_lt, sorted, list, Enqueuing, mkdir_fails, write_fails, rename_fails, completes,
  enqueue_steps, enqueue, temp_name,
}

-- The batch stands in a file of the directory that List reads.
abbrev pub IsHeld : Dir → TrafficBatch → Type 0
IsHeld dir b =
    (name : Str) × (has_suffix name (codes ".json") ≡ true) × (lookup name dir ≡ some (document b))

-- Each batch stands in the file of its own event ID, as Enqueue names it.
abbrev pub IsNamed : Dir → Type 0
IsNamed dir =
    (name : Str) (b : TrafficBatch)
    → has_suffix name (codes ".json") ≡ true
    → lookup name dir ≡ some (document b)
    → name ≡ file_name b.event_id

abbrev pub AreHeld : Dir → Result (List TrafficBatch) → Type 0
AreHeld dir err = Unit
AreHeld dir (ok bs) = All (IsHeld dir) bs

lookup_later :
    (n name : Str) (x : Entry) (b : TrafficBatch) (dir : Dir)
    → lookup n dir ≡ none
    → lookup name dir ≡ some (document b)
    → lookup name ((n, x) ∷ dir) ≡ some (document b)
unfolding lookup
lookup_later n name x b dir d h = elim (Bool-cases (n == name)) [
  | inl e ↦ absurd (ground (arith, h, d, ap (λ k. lookup k dir) ((eq_iff n name).0 e)))
  | inr e ↦ rw e h
]

IsHeld-later :
    (n : Str) (x : Entry) (dir : Dir) (bs : List TrafficBatch)
    → lookup n dir ≡ none
    → All (IsHeld dir) bs
    → All (IsHeld ((n, x) ∷ dir)) bs
IsHeld-later n x dir [] d h = tt
IsHeld-later n x dir (b ∷ bs) d ((name, s, l), h) =
    ((name, s, lookup_later n name x b dir d l), IsHeld-later n x dir bs d h)

AreHeld-later :
    (n : Str) (x : Entry) (dir : Dir) (r : Result (List TrafficBatch))
    → lookup n dir ≡ none
    → AreHeld dir r
    → AreHeld ((n, x) ∷ dir) r
AreHeld-later n x dir err d h = tt
AreHeld-later n x dir (ok bs) d h = IsHeld-later n x dir bs d h

lookup_here : (n : Str) (x : Entry) (dir : Dir) → lookup n ((n, x) ∷ dir) ≡ some x
unfolding lookup
lookup_here n x dir = ground (arith, eq_iff n n)

read_file-AreHeld :
    (n : Str) (x : Entry) (dir : Dir) (r : Result (List TrafficBatch))
    → AreHeld ((n, x) ∷ dir) r
    → AreHeld ((n, x) ∷ dir) (read_file n x r)
unfolding read_file
read_file-AreHeld n directory dir r h = h
read_file-AreHeld n unreadable dir r h = elim (Bool-cases (has_suffix n (codes ".json"))) [
  | inl e ↦ rw e tt
  | inr e ↦ rw e h
]
read_file-AreHeld n (document b) dir err h = elim (Bool-cases (has_suffix n (codes ".json"))) [
  | inl e ↦ rw e tt
  | inr e ↦ rw e tt
]
read_file-AreHeld n (document b) dir (ok bs) h = elim (Bool-cases (has_suffix n (codes ".json"))) [
  | inl e ↦ rw e ((n, e, lookup_here n (document b) dir), h)
  | inr e ↦ rw e h
]

read_files-AreHeld : (dir : Dir) → Distinct dir → AreHeld dir (read_files dir)
unfolding read_files
read_files-AreHeld [] d = tt
read_files-AreHeld ((n, x) ∷ dir) d =
    read_file-AreHeld n x dir (read_files dir)
      (AreHeld-later n x dir (read_files dir) d.0 (read_files-AreHeld dir d.1))

sorted-AreHeld :
    (dir : Dir) (r : Result (List TrafficBatch)) → AreHeld dir r → AreHeld dir (sorted r)
unfolding sorted
sorted-AreHeld dir err h = tt
sorted-AreHeld dir (ok bs) h = All-sort batch_lt (IsHeld dir) bs h

-- Every batch that List returns stands in a file of the directory.
pub list-AreHeld : (dir : Dir) → Distinct dir → AreHeld dir (list dir)
unfolding list
list-AreHeld dir d = sorted-AreHeld dir (read_files dir) (read_files-AreHeld dir d)

insert-IsNamed :
    (key : Str) (x : Entry) (dir : Dir)
    → ((b : TrafficBatch)
        → has_suffix key (codes ".json") ≡ true
        → x ≡ document b
        → key ≡ file_name b.event_id)
    → IsNamed dir
    → IsNamed (insert key x dir)
insert-IsNamed key x dir new named name b suffix held = elim (Bool-cases (key == name)) [
  | inl e ↦
      let same : key ≡ name = (eq_iff key name).0 e in
      let found : x ≡ document b = ground (arith, held, e, lookup-insert key name x dir) in
      sym same ∙ new b (subst (λ k. has_suffix k (codes ".json") ≡ true) (sym same) suffix) found
  | inr e ↦ named name b suffix (ground (arith, held, e, lookup-insert key name x dir))
]

remove-IsNamed : (key : Str) (dir : Dir) → IsNamed dir → IsNamed (remove key dir)
remove-IsNamed key dir named name b suffix held =
    named name b suffix (ground (arith, held, lookup-remove key name dir))

temp-IsNamed :
    (e : Str) (x : Entry) (dir : Dir) → IsNamed dir → IsNamed (insert (temp_name e) x dir)
temp-IsNamed e x dir named =
    insert-IsNamed (temp_name e) x dir
      (λ b suffix found. absurd (ground (arith, suffix, has_suffix-temp_name e))) named

enqueue_steps-IsNamed :
    (io : Enqueuing) (batch : TrafficBatch) (dir : Dir)
    → IsNamed dir
    → IsNamed (enqueue_steps io batch dir).1
unfolding enqueue_steps
enqueue_steps-IsNamed mkdir_fails batch dir named = named
enqueue_steps-IsNamed write_fails batch dir named = temp-IsNamed batch.event_id unreadable dir named
enqueue_steps-IsNamed rename_fails batch dir named =
    temp-IsNamed batch.event_id (document batch) dir named
enqueue_steps-IsNamed completes batch dir named =
    insert-IsNamed (file_name batch.event_id) (document batch)
      (remove (temp_name batch.event_id) dir) (λ b suffix found. ground (arith, found))
      (remove-IsNamed (temp_name batch.event_id) dir named)

-- Enqueue keeps each batch in the file of its own event ID, whichever step fails.
pub enqueue-IsNamed :
    (io : Enqueuing) (batch : TrafficBatch) (dir : Dir)
    → IsNamed dir
    → IsNamed (enqueue io batch dir).1
unfolding enqueue
enqueue-IsNamed io batch dir named = elim (Bool-cases (batch.event_id == [])) [
  | inl e ↦ rw (e, enqueue) named
  | inr e ↦ rw (e, enqueue) (enqueue_steps-IsNamed io batch dir named)
]
