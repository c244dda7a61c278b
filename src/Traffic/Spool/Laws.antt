-- ===== src/Traffic/Spool/Laws.antt =====
-- What the operations do to the batches that List returns, and what the spool counts.
use xnode_agent.Prelude.{
  ℕ, ◌+◌, Bool, true, false, none, some, List, [], ◌∷◌, Str, codes, lookup, insert, remove,
  lookup-remove, Distinct, if◌then◌else◌, ◌==◌, str_eq, eq_iff, ◌≡◌, ◌≢◌, refl, ap, sym, ◌∙◌, arith,
  count_if, count_if-sort, Bool-cases, inl, inr,
}
use xnode_agent.Model.{TrafficBatch, key_eq}
use xnode_agent.Traffic.Spool.{
  Entry, directory, unreadable, document, Dir, Result, ok, err, has_suffix, file_name, temp_name,
  Enqueuing, mkdir_fails, write_fails, rename_fails, completes, enqueue_steps, enqueue, read_file,
  read_files, batch_lt, sorted, list, delete,
}
use xnode_agent.Traffic.Spool.Files.{has_suffix-file_name, has_suffix-temp_name}

-- A file with another suffix is not read.
read_file_other :
    (name : Str) (e : Entry) (rest : Result (List TrafficBatch))
    → has_suffix name (codes ".json") ≡ false
    → read_file name e rest ≡ rest
unfolding read_file
read_file_other name directory rest h = refl
read_file_other name unreadable rest h = ground arith
read_file_other name (document b) rest h = ground arith

read_files-insert_other :
    (name : Str) (e : Entry) (dir : Dir)
    → has_suffix name (codes ".json") ≡ false
    → read_files (insert name e dir) ≡ read_files dir
unfolding read_files insert
read_files-insert_other name e [] h = read_file_other name e (ok []) h
read_files-insert_other name e ((n, x) ∷ dir) h = elim (Bool-cases (n == name)) [
  | inl hit ↦
      rw (hit, read_files)
        (read_file_other name e _ h ∙ sym (read_file_other n x _ (rw ((eq_iff n name).0 hit) h)))
  | inr miss ↦ rw (miss, read_files) (ap (read_file n x) (read_files-insert_other name e dir h))
]

read_files-remove_other :
    (name : Str) (dir : Dir)
    → has_suffix name (codes ".json") ≡ false
    → read_files (remove name dir) ≡ read_files dir
unfolding read_files remove
read_files-remove_other name [] h = refl
read_files-remove_other name ((n, x) ∷ dir) h = elim (Bool-cases (n == name)) [
  | inl hit ↦
      rw (hit, read_files)
        (read_files-remove_other name dir h
          ∙ sym (read_file_other n x _ (rw ((eq_iff n name).0 hit) h)))
  | inr miss ↦ rw (miss, read_files) (ap (read_file n x) (read_files-remove_other name dir h))
]

-- How many of the batches read pass a test; 0 where the directory cannot be read.
abbrev pub counted : (TrafficBatch → Bool) → Result (List TrafficBatch) → ℕ
counted p (ok bs) = count_if p bs
counted p err = 0

abbrev pub IsOk : Result (List TrafficBatch) → Type 0
IsOk (ok bs) = Unit
IsOk err = ⊥

-- One more batch was read, and all the others are the same.
abbrev pub Gains : TrafficBatch → Result (List TrafficBatch) → Result (List TrafficBatch) → Type 0
Gains b before err = ⊥
Gains b err (ok cs) = ⊥
Gains b (ok bs) (ok cs) =
    (p : TrafficBatch → Bool) → count_if p cs ≡ (if p b then 1 else 0) + count_if p bs

Gains-read_file :
    (b : TrafficBatch) (name : Str) (x : Entry) (r s : Result (List TrafficBatch))
    → IsOk (read_file name x r)
    → Gains b r s
    → Gains b (read_file name x r) (read_file name x s)
unfolding read_file count_if
Gains-read_file b name directory r s k g = g
Gains-read_file b name unreadable r s k g = elim (Bool-cases (has_suffix name (codes ".json"))) [
  | inl e ↦ absurd (rw (e, read_file) at k)
  | inr e ↦ rw (e, read_file) g
]
Gains-read_file b name (document d) (ok bs) (ok cs) k g =
    elim (Bool-cases (has_suffix name (codes ".json"))) [
      | inl e ↦ rw (e, read_file) λ p. omega (arith, g p)
      | inr e ↦ rw (e, read_file) g
    ]
Gains-read_file b name (document d) (ok bs) err k g = absurd g
Gains-read_file b name (document d) err s k g =
    absurd (elim (Bool-cases (has_suffix name (codes ".json"))) [
      | inl e ↦ rw (e, read_file) at k
      | inr e ↦ rw (e, read_file) at k
    ])

IsOk-read_file :
    (name : Str) (x : Entry) (r : Result (List TrafficBatch)) → IsOk (read_file name x r) → IsOk r
unfolding read_file
IsOk-read_file name x (ok bs) k = tt
IsOk-read_file name directory err k = k
IsOk-read_file name unreadable err k = ground arith
IsOk-read_file name (document d) err k = ground arith

read_file-IsOk :
    (name : Str) (x : Entry) (r s : Result (List TrafficBatch))
    → IsOk (read_file name x r)
    → IsOk s
    → IsOk (read_file name x s)
unfolding read_file
read_file-IsOk name directory r s k ks = ks
read_file-IsOk name unreadable r s k ks = elim (Bool-cases (has_suffix name (codes ".json"))) [
  | inl e ↦ absurd (rw (e, read_file) at k)
  | inr e ↦ rw (e, read_file) ks
]
read_file-IsOk name (document d) r (ok bs) k ks =
    elim (Bool-cases (has_suffix name (codes ".json"))) [
      | inl e ↦ rw (e, read_file) tt
      | inr e ↦ rw (e, read_file) tt
    ]
read_file-IsOk name (document d) r err k ks = absurd ks

Gains-document :
    (b : TrafficBatch) (name : Str) (r : Result (List TrafficBatch))
    → has_suffix name (codes ".json") ≡ true
    → IsOk r
    → Gains b r (read_file name (document b) r)
unfolding read_file count_if
Gains-document b name (ok bs) h k = rw (h, read_file) λ p. refl
Gains-document b name err h k = absurd k

-- A new file adds its batch.
read_files-insert_new :
    (name : Str) (b : TrafficBatch) (dir : Dir)
    → has_suffix name (codes ".json") ≡ true
    → lookup name dir ≡ none
    → IsOk (read_files dir)
    → Gains b (read_files dir) (read_files (insert name (document b) dir))
unfolding read_files insert lookup
read_files-insert_new name b [] h l k = Gains-document b name (ok []) h tt
read_files-insert_new name b ((n, x) ∷ dir) h l k = elim (Bool-cases (n == name)) [
  | inl hit ↦ absurd (ground (arith, hit))
  | inr miss ↦
      rw (miss, read_files)
        (Gains-read_file b n x _ _ k
          (read_files-insert_new name b dir h (rw miss at l) (IsOk-read_file n x _ k)))
]

remove_missing : (name : Str) (dir : Dir) → lookup name dir ≡ none → remove name dir ≡ dir
unfolding lookup remove
remove_missing name [] l = refl
remove_missing name ((n, x) ∷ dir) l = ground (arith, remove_missing name dir)

-- Without the file of a batch, its batch is missing from what is read.
read_files-remove_document :
    (name : Str) (b : TrafficBatch) (dir : Dir)
    → has_suffix name (codes ".json") ≡ true
    → Distinct dir
    → lookup name dir ≡ some (document b)
    → IsOk (read_files dir)
    → IsOk (read_files (remove name dir)) × Gains b (read_files (remove name dir)) (read_files dir)
unfolding read_files remove lookup
read_files-remove_document name b [] h d l k = absurd (ground arith)
read_files-remove_document name b ((n, x) ∷ dir) h d l k = elim (Bool-cases (n == name)) [
  | inl hit ↦
      let same : n ≡ name = (eq_iff n name).0 hit in
      let found : x ≡ document b = ground (arith, hit) in
      let gone : remove name dir ≡ dir = remove_missing name dir (rw same at (d.0)) in
      let fine : IsOk (read_files dir) = IsOk-read_file n x (read_files dir) k in
      rw (hit, gone, found, same) (fine, Gains-document b name (read_files dir) h fine)
  | inr miss ↦
      let fine : IsOk (read_files dir) = IsOk-read_file n x (read_files dir) k in
      let found : lookup name dir ≡ some (document b) = rw miss at l in
      let (fine', gains) = read_files-remove_document name b dir h d.1 found fine in
      let kept : IsOk (read_file n x (read_files (remove name dir))) =
        read_file-IsOk n x (read_files dir) (read_files (remove name dir)) k fine' in
      rw (miss, read_files) (kept, Gains-read_file b n x _ _ kept gains)
]

Gains-sort :
    (b : TrafficBatch) (r s : Result (List TrafficBatch))
    → Gains b r s
    → Gains b (sorted r) (sorted s)
unfolding sorted
Gains-sort b (ok bs) (ok cs) g =
    λ p. rw (count_if-sort batch_lt p bs, count_if-sort batch_lt p cs) (g p)
Gains-sort b (ok bs) err g = g
Gains-sort b err (ok cs) g = g
Gains-sort b err err g = g

enqueue_steps_failed :
    (batch : TrafficBatch) (dir : Dir) (io : Enqueuing)
    → (enqueue_steps io batch dir).0 ≡ err
    → list (enqueue_steps io batch dir).1 ≡ list dir
unfolding enqueue_steps list
enqueue_steps_failed batch dir mkdir_fails h = refl
enqueue_steps_failed batch dir write_fails h =
    ap sorted (read_files-insert_other _ _ dir (has_suffix-temp_name batch.event_id))
enqueue_steps_failed batch dir rename_fails h =
    ap sorted (read_files-insert_other _ _ dir (has_suffix-temp_name batch.event_id))
enqueue_steps_failed batch dir completes h = ground arith

module _ (batch : TrafficBatch) (dir : Dir) where
  -- An Enqueue that fails, at whichever step, leaves what List returns as it was.
  pub list-enqueue_failed :
      (io : Enqueuing) → (enqueue io batch dir).0 ≡ err → list (enqueue io batch dir).1 ≡ list dir
  unfolding enqueue list
  list-enqueue_failed io h = elim (Bool-cases (batch.event_id == [])) [
    | inl e ↦ rw (e, enqueue) refl
    | inr e ↦ rw (e, enqueue) (enqueue_steps_failed batch dir io (rw (e, enqueue) at h))
  ]

  -- An Enqueue that completes, of a batch with an ID whose file was not there, succeeds and adds
  -- just that batch to what List returns, provided that every listed file can be read.
  pub list-enqueue :
      batch.event_id ≢ []
      → lookup (file_name batch.event_id) dir ≡ none
      → IsOk (read_files dir)
      → ((enqueue completes batch dir).0 ≡ ok tt)
        × Gains batch (list dir) (list (enqueue completes batch dir).1)
  unfolding enqueue enqueue_steps list
  list-enqueue named fresh k =
      let other = has_suffix-temp_name batch.event_id in
      let steady : read_files (remove (temp_name batch.event_id) dir) ≡ read_files dir =
        read_files-remove_other (temp_name batch.event_id) dir other in
      let fresh' : lookup (file_name batch.event_id) (remove (temp_name batch.event_id) dir)
          ≡ none =
        ground (arith, lookup-remove (temp_name batch.event_id) (file_name batch.event_id) dir) in
      let gains =
        read_files-insert_new (file_name batch.event_id) batch
          (remove (temp_name batch.event_id) dir) (has_suffix-file_name batch.event_id) fresh'
          (rw steady k) in
      let on : (batch.event_id == []) ≡ false = ground (arith, eq_iff batch.event_id []) in
      rw (on, enqueue) (refl, Gains-sort batch _ _ (rw steady at gains))

  -- A Delete that works, of a batch whose file is there, takes just that batch from what List
  -- returns, provided that every listed file can be read and the names are distinct.
  pub list-delete :
      Distinct dir
      → lookup (file_name batch.event_id) dir ≡ some (document batch)
      → IsOk (read_files dir)
      → Gains batch (list (delete true batch.event_id dir).1) (list dir)
  unfolding delete list
  list-delete d found k =
      rw (found, delete)
        (Gains-sort batch _ _
          (read_files-remove_document (file_name batch.event_id) batch dir
            (has_suffix-file_name batch.event_id) d found k).1)
