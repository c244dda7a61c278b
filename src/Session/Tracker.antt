-- ===== src/Session/Tracker.antt =====
-- Tracker of internal/session/tracker.go, without its mutex and its place in
-- the log file: Add, Records and Counts. A time is its
-- nanoseconds since Go's zero time, 1 January of the year 1. Go's map of IPs and its map of entries
-- are association lists without repeated keys.
pub mod Adding
pub mod Pruning
use xnode_agent.Prelude.{
  ℕ, ℤ, pos, negsuc, pos_part, neg_part, ltb_ℤ, ◌+ℤ◌, sub_ℕ, ◌+◌, ◌/◌, Bool, true, not, ◌&&◌,
  Option, none, some, List, [], ◌∷◌, ◌++◌, Str, str_lt, Map, lookup, insert, filter, length, map,
  sort, if◌then◌else◌, ◌==◌, str_eq, nat_eq,
}
use xnode_agent.Model.{SessionRecord, UsageKey, key_eq}

-- An Event, under its key.
pub record Event : Type 0 where
  pub user_id : Str
  pub inbound_id : Str
  pub ip : Str
  pub at_time : ℤ

pub record Entry : Type 0 where
  pub ips : Map Str ℤ
  pub seen : List ℤ
  pub last : ℤ

abbrev pub Tracker : Type 0
Tracker = Map UsageKey Entry

abbrev pub new_entry : Entry
new_entry = record { ips = []; seen = []; last = pos 0 }

unfoldable pub get_entry : Option Entry → Entry
get_entry none = new_entry
get_entry (some e) = e

unfoldable pub add_event : Event → Entry → Entry
add_event ev e = record {
  ips = insert ev.ip ev.at_time e.ips;
  seen = e.seen ++ ev.at_time ∷ [];
  last = if ltb_ℤ e.last ev.at_time then ev.at_time else e.last;
}

unfoldable pub add : Event → Tracker → Tracker
unfolding get_entry add_event
add ev t =
    let k : UsageKey = record { user_id = ev.user_id; inbound_id = ev.inbound_id } in
    insert k (add_event ev (get_entry (lookup k t))) t

-- time.Time.Unix: whole seconds since 1970, rounded down.
unfoldable pub unix : ℤ → ℤ
unfolding ◌+ℤ◌
unix (pos n) = pos (n / 1000000000) +ℤ negsuc 62135596799
unix (negsuc n) = negsuc (n / 1000000000) +ℤ negsuc 62135596799

unfoldable pub cutoff : ℤ → ℤ → ℤ
unfolding ◌+ℤ◌
cutoff now window = now +ℤ sub_ℕ (neg_part window) (pos_part window)

-- The test ts.Before(cutoff), negated.
unfoldable pub is_recent : ℤ → ℤ → Bool
is_recent c ts = not (ltb_ℤ ts c)

unfoldable pub prune_entry : ℤ → Entry → Entry
unfolding is_recent
prune_entry c e = record e {
  ips = filter (λ p. is_recent c p.1) e.ips;
  seen = filter (is_recent c) e.seen;
}

unfoldable pub is_idle : Entry → Bool
is_idle e = length e.ips == 0 && length e.seen == 0

-- The loop's effect on the map: idle entries go.
unfoldable pub prune : ℤ → Tracker → Tracker
unfolding prune_entry is_idle
prune c [] = []
prune c ((k, e) ∷ t) =
    let rest = prune c t in if is_idle (prune_entry c e) then rest else (k, prune_entry c e) ∷ rest

unfoldable pub session_record : UsageKey × Entry → SessionRecord
unfolding unix
session_record (k, e) = record {
  user_id = k.user_id;
  inbound_id = k.inbound_id;
  ips = sort str_lt (map (λ p. p.0) e.ips);
  last_seen = unix e.last;
  recent_connections = pos (length e.seen);
  source = [];
}

unfoldable pub session_lt : SessionRecord → SessionRecord → Bool
session_lt a b =
    if a.inbound_id == b.inbound_id
    then str_lt a.user_id b.user_id
    else str_lt a.inbound_id b.inbound_id

-- The tracker after the call, and the records.
unfoldable pub records : Tracker → ℤ → ℤ → Tracker × List SessionRecord
unfolding prune session_record session_lt cutoff
records t now window =
    let kept = prune (cutoff now window) t in (kept, sort session_lt (map session_record kept))

-- The distinct users with an IP, as the keys of a map.
unfoldable pub online_users : List SessionRecord → Map Str Bool
online_users [] = []
online_users (r ∷ rs) =
    let rest = online_users rs in if length r.ips == 0 then rest else insert r.user_id true rest

unfoldable pub tracked_ips : List SessionRecord → ℕ
tracked_ips [] = 0
tracked_ips (r ∷ rs) = length r.ips + tracked_ips rs

unfoldable pub counts : List SessionRecord → ℕ × ℕ
unfolding online_users tracked_ips
counts rs = (length (online_users rs), tracked_ips rs)
