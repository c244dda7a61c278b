-- ===== src/Traffic/Spool.antt =====
-- The spool directory of internal/traffic/spool.go: one JSON document for each batch that the panel
-- has not acknowledged. An entry is a file name with what is there; what encoding/json makes of a
-- batch and reads back is the batch. Each step of Enqueue that can fail has an outcome.
pub mod Files
pub mod Laws
pub mod Totals
pub mod Held
use mathlib.Core.List.{foldl}
use xnode_agent.Prelude.{
  ℕ, ℤ, ltb_ℤ, Bool, true, false, not, ◌&&◌, ◌||◌, Option, none, some, List, [], ◌∷◌, ◌++◌, Str,
  codes, str_lt, Map, lookup, insert, remove, if◌then◌else◌, ◌==◌, str_eq, int_eq, sort,
}
use xnode_agent.Model.{TrafficBatch}
use xnode_agent.Policy.Check.{Pending}
use xnode_agent.Policy.Usage.{pending_usage, merge_usage}

-- What a directory entry is. A file that cannot be read or decoded is `unreadable`.
pub data Entry : Type 0 where
  directory unreadable : Entry
  document : TrafficBatch → Entry

abbrev pub Dir : Type 0
Dir = Map Str Entry

pub data Result {ℓ} (A : Type ℓ) : Type ℓ where
  ok : A → Result A
  err : Result A

-- strings.HasSuffix
unfoldable pub has_suffix : Str → Str → Bool
has_suffix [] p = [] == p
has_suffix (c ∷ s) p = (c ∷ s) == p || has_suffix s p

unfoldable pub file_name : Str → Str
file_name event_id = event_id ++ codes ".json"

unfoldable pub temp_name : Str → Str
temp_name event_id = event_id ++ codes ".json.tmp"

-- How far the system calls of Enqueue get.
pub data Enqueuing : Type 0 where
  mkdir_fails write_fails rename_fails completes : Enqueuing

-- The temporary file, then the rename. A failed write leaves a partial temporary file.
unfoldable pub enqueue_steps : Enqueuing → TrafficBatch → Dir → Result (Unit {0}) × Dir
enqueue_steps mkdir_fails batch dir = (err, dir)
enqueue_steps write_fails batch dir = (err, insert (temp_name batch.event_id) unreadable dir)
enqueue_steps rename_fails batch dir = (err, insert (temp_name batch.event_id) (document batch) dir)
enqueue_steps completes batch dir = (
  ok tt,
  insert (file_name batch.event_id) (document batch) (remove (temp_name batch.event_id) dir),
)

unfoldable pub enqueue : Enqueuing → TrafficBatch → Dir → Result (Unit {0}) × Dir
enqueue io batch dir = if batch.event_id == [] then (err, dir) else enqueue_steps io batch dir

-- The files that List reads: no directories, and by name.
unfoldable pub read_file : Str → Entry → Result (List TrafficBatch) → Result (List TrafficBatch)
read_file name directory rest = rest
read_file name unreadable rest = if has_suffix name (codes ".json") then err else rest
read_file name (document b) rest =
    if has_suffix name (codes ".json")
    then (elim rest [ ok bs ↦ ok (b ∷ bs) | err ↦ err ])
    else rest

unfoldable pub read_files : Dir → Result (List TrafficBatch)
read_files [] = ok []
read_files ((name, e) ∷ dir) = read_file name e (read_files dir)

-- The order of delivery: by time of collection, then by event ID.
unfoldable pub batch_lt : TrafficBatch → TrafficBatch → Bool
batch_lt a b =
    if a.collected_at == b.collected_at
    then str_lt a.event_id b.event_id
    else ltb_ℤ a.collected_at b.collected_at

-- sort.Slice on what was read.
unfoldable pub sorted : Result (List TrafficBatch) → Result (List TrafficBatch)
sorted (ok bs) = ok (sort batch_lt bs)
sorted err = err

-- List. The entries that os.ReadDir sorts by name are sorted again.
unfoldable pub list : Dir → Result (List TrafficBatch)
unfolding sorted
list dir = sorted (read_files dir)

-- Delete. A file that is gone is no error; `io` says if the removal of one that is there works.
unfoldable pub delete : Bool → Str → Dir → Result (Unit {0}) × Dir
delete io event_id dir = elim (lookup (file_name event_id) dir) [
  | none ↦ (ok tt, dir)
  | some e ↦ if io then (ok tt, remove (file_name event_id) dir) else (err, dir)
]

-- One round of the loop of PendingUsage.
unfoldable pub merge_batch : Pending → TrafficBatch → Pending
merge_batch out b = merge_usage out (pending_usage b.records)

unfoldable pub spool_pending_usage : Dir → Result Pending
spool_pending_usage dir = elim (list dir) [ ok bs ↦ ok (foldl merge_batch [] bs) | err ↦ err ]
