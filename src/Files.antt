-- ===== src/Files.antt =====
-- The replacement of files: atomicWrite of internal/xray/process.go and persistState of
-- internal/agent/agent.go. A disk is a map from paths to contents; the name of the temporary file, which
-- os.CreateTemp makes up, is an argument.
mod Tests
use xnode_agent.Prelude.{
  refl, str_eq, Str, ◌≢◌, ◌⊎◌, inr, Bool, true, false, Option, none, some, Map, lookup, insert,
  remove, lookup-insert, lookup-remove, arith, eq_iff, ◌≡◌, [], if◌then◌else◌, ◌==◌, ◌&&◌, ap,
}

abbrev pub Disk : Type 0
Disk = Map Str Str

-- How far a write comes: to the step that fails, with what has reached the file, or to its end.
pub data Writing : Type 0 where
  mkdir_fails : Writing
  encode_fails : Writing
  create_fails : Writing
  chmod_fails : Writing
  write_fails : Str → Writing
  sync_fails : Writing
  close_fails : Writing
  rename_fails : Writing
  completes : Writing

-- The steps on the temporary file, and the rename; the temporary file is not yet cleaned up.
unfoldable pub write_steps : Writing → Str → Str → Str → Disk → Bool × Disk
write_steps mkdir_fails tmp path content d = (false, d)
write_steps encode_fails tmp path content d = (false, d)
write_steps create_fails tmp path content d = (false, d)
write_steps chmod_fails tmp path content d = (false, insert tmp [] d)
write_steps (write_fails part) tmp path content d = (false, insert tmp part d)
write_steps sync_fails tmp path content d = (false, insert tmp content d)
write_steps close_fails tmp path content d = (false, insert tmp content d)
write_steps rename_fails tmp path content d = (false, insert tmp content d)
write_steps completes tmp path content d =
    (true, insert path content (remove tmp (insert tmp content d)))

-- os.Remove, whose error is discarded: the first argument tells whether it works.
unfoldable pub clean_up : Bool → Str → Disk → Disk
clean_up removes tmp d = if removes then remove tmp d else d

-- os.Remove(name) unless the write has worked. Before the file is created nothing is deferred, and there
-- is no such file.
unfoldable pub atomic_write : Bool → Writing → Str → Str → Str → Disk → Bool × Disk
unfolding write_steps clean_up
atomic_write removes io tmp path content d =
    let (done, d') = write_steps io tmp path content d in
    (done, if done then d' else clean_up removes tmp d')

-- os.Remove(tmp) in any case.
unfoldable pub persist_state : Bool → Writing → Str → Str → Str → Disk → Bool × Disk
unfolding write_steps clean_up
persist_state removes io tmp path content d =
    let (done, d') = write_steps io tmp path content d in (done, clean_up removes tmp d')

-- The disk at a name after a write that says whether it has worked: one file has its content, and all else
-- is as it was.
abbrev pub IsWhole : Str → Str → Disk → Bool × Disk → Str → Type 0
IsWhole path content d r name =
    lookup name r.1 ≡ (if r.0 && name == path then some content else lookup name d)

module _ (tmp path content : Str) (d : Disk) (fresh : lookup tmp d ≡ none) where
  kept_without : (name : Str) → lookup name (remove tmp d) ≡ lookup name d
  kept_without name = ground (arith, fresh, lookup-remove tmp name d, eq_iff tmp name, at_tmp name)
    where
      at_tmp : (name : Str) → tmp ≡ name → lookup tmp d ≡ lookup name d
      at_tmp name e = ap (λ n. lookup n d) e

  pub left_out :
      (removes : Bool) (part name : Str)
      → (name ≢ tmp) ⊎ (removes ≡ true)
      → lookup name (clean_up removes tmp (insert tmp part d)) ≡ lookup name d
  unfolding clean_up
  left_out removes part name h = ground (
    arith,
    h,
    eq_iff tmp name,
    lookup-remove tmp name (insert tmp part d),
    lookup-remove tmp name d,
    lookup-insert tmp name part d,
    kept_without name,
  )

  pub cleaned : (removes : Bool) (name : Str) → lookup name (clean_up removes tmp d) ≡ lookup name d
  unfolding clean_up
  cleaned removes name = ground (arith, kept_without name)

  renamed :
      (name : Str)
      → lookup name (insert path content (remove tmp (insert tmp content d)))
        ≡ (if name == path then some content else lookup name d)
  unfolding clean_up
  renamed name = ground (
    arith,
    lookup-insert path name content (remove tmp (insert tmp content d)),
    left_out true content name (inr refl),
    eq_iff path name,
    eq_iff name path,
  )

  -- atomicWrite replaces the file if it returns nil and leaves it if it returns an error, wherever it fails,
  -- and all other files are as they were. Its temporary file is gone as well, if os.Remove works, which it
  -- calls after a failure; CreateTemp's name is one that no file has.
  pub atomic_write-IsWhole :
      (removes : Bool) (io : Writing) (name : Str)
      → (name ≢ tmp) ⊎ (removes ≡ true)
      → IsWhole path content d (atomic_write removes io tmp path content d) name
  unfolding atomic_write
  atomic_write-IsWhole removes mkdir_fails name h = cleaned removes name
  atomic_write-IsWhole removes encode_fails name h = cleaned removes name
  atomic_write-IsWhole removes create_fails name h = cleaned removes name
  atomic_write-IsWhole removes chmod_fails name h = left_out removes [] name h
  atomic_write-IsWhole removes (write_fails part) name h = left_out removes part name h
  atomic_write-IsWhole removes sync_fails name h = left_out removes content name h
  atomic_write-IsWhole removes close_fails name h = left_out removes content name h
  atomic_write-IsWhole removes rename_fails name h = left_out removes content name h
  atomic_write-IsWhole removes completes name h = renamed name

  removed_again :
      (removes : Bool) (name : Str)
      → (tmp == path) ≡ false
      → lookup name (clean_up removes tmp (insert path content (remove tmp (insert tmp content d))))
        ≡ (if name == path then some content else lookup name d)
  unfolding clean_up
  removed_again removes name other = ground (
    arith,
    lookup-remove tmp name (insert path content (remove tmp (insert tmp content d))),
    renamed name,
    other,
    eq_iff tmp name,
    eq_iff tmp path,
    eq_iff name path,
    lookup-remove tmp name d,
    kept_without name,
  )

  -- The same of persistState and the state file.
  pub persist_state-IsWhole :
      (removes : Bool) (io : Writing) (name : Str)
      → (tmp == path) ≡ false
      → (name ≢ tmp) ⊎ (removes ≡ true)
      → IsWhole path content d (persist_state removes io tmp path content d) name
  unfolding persist_state
  persist_state-IsWhole removes mkdir_fails name other h = cleaned removes name
  persist_state-IsWhole removes encode_fails name other h = cleaned removes name
  persist_state-IsWhole removes create_fails name other h = cleaned removes name
  persist_state-IsWhole removes chmod_fails name other h = left_out removes [] name h
  persist_state-IsWhole removes (write_fails part) name other h = left_out removes part name h
  persist_state-IsWhole removes sync_fails name other h = left_out removes content name h
  persist_state-IsWhole removes close_fails name other h = left_out removes content name h
  persist_state-IsWhole removes rename_fails name other h = left_out removes content name h
  persist_state-IsWhole removes completes name other h = removed_again removes name other
