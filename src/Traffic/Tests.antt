-- ===== src/Traffic/Tests.antt =====
-- Runs of the spool, and its theorems at them.
use xnode_agent.Prelude.{
  ℤ, pos, wrap64, dec_eq, is_yes, Str-discrete, ℤ-discrete, ℕ_discrete, lookup, sort, sort_insert,
  str_lt, Bool, true, false, some, str_eq, List, [], ◌∷◌, Str, codes, ◌⊎◌, ◌≡◌, refl, arith,
}
use xnode_agent.Model.{TrafficRecord, TrafficBatch, UsageKey}
use xnode_agent.Policy.Check.{Pending, pending_bytes}
use xnode_agent.Traffic.Spool.{
  document, directory, unreadable, Dir, Result, ok, has_suffix, file_name, write_fails, completes,
  enqueue_steps, enqueue, read_file, read_files, batch_lt, sorted, list, spool_pending_usage,
}
use xnode_agent.Traffic.Spool.Laws.{Gains, list-enqueue_failed, list-enqueue}
use xnode_agent.Traffic.Spool.Totals.{batches_bytes, spool_pending_usage_total}
use xnode_agent.Traffic.Deliver.{World, spool_and_send, spool_and_send_keeps}

abbrev record_of : Str → ℤ → TrafficRecord
record_of user bytes = record {
  name = [];
  value = bytes;
  user_id = user;
  inbound_id = codes "in";
  direction = codes "uplink";
}

abbrev batch : Str → ℤ → List TrafficRecord → TrafficBatch
batch event at records = record {
  event_id = event;
  node_id = codes "n1";
  collected_at = at;
  records = records;
}

abbrev first : TrafficBatch
first = batch (codes "e1") (pos 10) (record_of (codes "ann") (pos 5) ∷ record_of [] (pos 9) ∷ [])

abbrev second : TrafficBatch
second = batch (codes "e2") (pos 20) (record_of (codes "ann") (pos 7) ∷ [])

-- A spool with the later batch first, a directory and a partial temporary file.
abbrev dir : Dir
dir =
    (codes "e2.json", document second)
    ∷ (codes "old.json", directory)
    ∷ (codes "e3.json.tmp", unreadable)
    ∷ (codes "e1.json", document first)
    ∷ []

listed : Result (List TrafficBatch)
unfolding list sorted read_files read_file has_suffix sort sort_insert batch_lt str_lt dec_eq is_yes
    Str-discrete ℤ-discrete ℕ_discrete
listed = list dir

listed_order : listed ≡ ok (first ∷ second ∷ [])
unfolding listed
listed_order = refl

list-enqueue_failed_example : list (enqueue write_fails first dir).1 ≡ list dir
unfolding enqueue enqueue_steps dec_eq is_yes Str-discrete ℕ_discrete
list-enqueue_failed_example = list-enqueue_failed first dir write_fails refl

abbrev third : TrafficBatch
third = batch (codes "e3") (pos 30) (record_of (codes "bob") (pos 1) ∷ [])

list-enqueue_example :
    ((enqueue completes third dir).0 ≡ ok tt)
    × Gains third (list dir) (list (enqueue completes third dir).1)
unfolding listed file_name lookup
list-enqueue_example = list-enqueue third dir (λ e. ground arith) refl tt

spool_pending_usage_total_example :
    (out : Pending) × (spool_pending_usage dir ≡ ok out)
    × ((k : UsageKey) → pending_bytes out k ≡ wrap64 (pos (batches_bytes k (first ∷ second ∷ []))))
unfolding listed
spool_pending_usage_total_example = spool_pending_usage_total dir (first ∷ second ∷ []) refl

-- The panel takes the first batch only, and every removal works.
abbrev world : World
world = record { sends = λ b. is_first b.event_id; deletes = λ e. true }
  where
    is_first : Str → Bool
    is_first e = dec_eq Str-discrete e (codes "e1")

spool_and_send_keeps_example :
    (((spool_and_send world completes third dir).2 ≡ third ∷ []) × (world.sends third ≡ true))
    ⊎ (((spool_and_send world completes third dir).2 ≡ [])
        × (world.sends third ≡ false)
        × (lookup (file_name (codes "e3")) (spool_and_send world completes third dir).1
            ≡ some (document third)))
unfolding enqueue enqueue_steps dec_eq is_yes Str-discrete ℕ_discrete
spool_and_send_keeps_example = spool_and_send_keeps world completes third dir refl
