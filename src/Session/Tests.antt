-- ===== src/Session/Tests.antt =====
-- A tracker with two events of one user.
use xnode_agent.Prelude.{
  In, ◌≤ℤ◌, pos, negsuc, ◌+ℤ◌, lookup, insert, filter, sort, dec_eq, is_yes, Str-discrete,
  ℕ_discrete, [], ◌∷◌, Str, ℤ, codes, ◌≡◌, refl,
}
use xnode_agent.Model.{SessionRecord, UsageKey-discrete}
use xnode_agent.Session.Tracker.{
  Tracker, Event, add, get_entry, add_event, cutoff, is_recent, prune_entry, is_idle, prune,
  session_record, unix, session_lt, records, counts, online_users, tracked_ips,
}
use xnode_agent.Session.Tracker.Adding.{records-add}

abbrev event : Str → ℤ → Event
event ip at_time = record {
  user_id = codes "ann";
  inbound_id = codes "in";
  ip = ip;
  at_time = at_time;
}

-- Two addresses, 5 s and 70 s after the zero time.
tracker : Tracker
unfolding add get_entry add_event lookup insert dec_eq is_yes Str-discrete ℕ_discrete
    UsageKey-discrete
tracker = add (event (codes "b") (pos 70000000000)) (add (event (codes "a") (pos 5000000000)) [])

-- A minute back from 80 s only the second is recent.
records_run :
    (records tracker (pos 80000000000) (pos 60000000000)).1
    ≡ record {
      user_id = codes "ann";
      inbound_id = codes "in";
      ips = codes "b" ∷ [];
      last_seen = negsuc 62135596729;
      recent_connections = pos 1;
      source = [];
    }
      ∷ []
unfolding tracker records prune prune_entry is_recent is_idle session_record unix session_lt cutoff
    ◌+ℤ◌ filter sort dec_eq is_yes Str-discrete ℕ_discrete
records_run = refl

counts_run : counts (records tracker (pos 80000000000) (pos 60000000000)).1 ≡ (1, 1)
unfolding counts online_users tracked_ips insert dec_eq is_yes Str-discrete ℕ_discrete
counts_run = rw records_run refl

abbrev late_event : Event
late_event = event (codes "c") (pos 75000000000)

records-add_example :
    (r : SessionRecord) × In r
      (records (add late_event tracker) (pos 80000000000) (pos 60000000000)).1
    × (r.user_id ≡ codes "ann")
    × (r.inbound_id ≡ codes "in")
    × In (codes "c") r.ips
    × (pos 1 ≤ℤ r.recent_connections)
records-add_example =
    records-add tracker late_event (pos 80000000000) (pos 60000000000)
      (unfold is_recent cutoff ◌+ℤ◌ in refl)
