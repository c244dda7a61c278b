-- ===== src/Agent/Snapshot.antt =====
-- sessionSnapshot of internal/agent/agent.go: the log is read, and the core is asked who is online.
use xnode_agent.Prelude.{List, Str, ℤ, Option, none, some, Bool, map, codes, if◌then◌else◌}
use xnode_agent.Model.{SessionRecord}
use xnode_agent.Session.Tracker.{records}
use xnode_agent.Session.LogFile.{LogTracker, Opening, consume_file}
use xnode_agent.Agent.Sessions.{merge_session_reports}

-- The records that the policy reads, and those that are reported.
abbrev pub Snapshot : Type 0
Snapshot = List SessionRecord × List SessionRecord

unfoldable pub from_log : List SessionRecord → List SessionRecord
from_log = map (λ (r : SessionRecord). record r { source = codes "access-log" })

-- Given whether the core runs, and what it says of its online sessions: `none` is an error.
unfoldable pub snapshot_of : Bool → Option (List SessionRecord) → List SessionRecord → Snapshot
snapshot_of running none recent = (recent, recent)
snapshot_of running (some exact) recent =
    if running then (exact, merge_session_reports exact recent) else (recent, recent)

module _ (read_time : Str → Option ℤ) where
  unfoldable pub session_snapshot :
      LogTracker → Opening → ℤ → ℤ → Bool → Option (List SessionRecord) → LogTracker × Snapshot
  unfolding snapshot_of from_log
  session_snapshot t opening now window running exact =
      let read : LogTracker = (consume_file read_time now t opening).0 in
      let kept = records read.items now window in
      (record read { items = kept.0 }, snapshot_of running exact (from_log kept.1))
