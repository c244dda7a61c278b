-- ===== src/Agent/Sessions.antt =====
-- mergeSessionReports of internal/agent/agent.go: the core's own online list, filled up with the
-- access log's.
use xnode_agent.Prelude.{
  ℕ, Bool, false, not, Option, none, some, List, [], ◌∷◌, ◌++◌, Map, lookup, index, filter, any,
  count_if, sort, if◌then◌else◌, ◌==◌, count_if-sort, count_if-append, eq_iff, ◌≡◌, refl, ap, arith,
}
use xnode_agent.Model.{SessionRecord, UsageKey, key_eq}
use xnode_agent.Session.Tracker.{session_lt}

unfoldable pub record_key : SessionRecord → UsageKey
record_key r = record { user_id = r.user_id; inbound_id = r.inbound_id }

-- An exact record takes the number of recent connections from the access log's.
unfoldable pub with_recent : Option SessionRecord → SessionRecord → SessionRecord
with_recent none e = e
with_recent (some r) e = record e { recent_connections = r.recent_connections }

unfoldable pub exact_records : Map UsageKey SessionRecord → List SessionRecord → List SessionRecord
unfolding record_key with_recent
exact_records m [] = []
exact_records m (e ∷ es) = with_recent (lookup (record_key e) m) e ∷ exact_records m es

-- Whether an exact record has the key.
unfoldable pub is_seen : List SessionRecord → UsageKey → Bool
unfolding record_key
is_seen exact k = any (λ e. record_key e == k) exact

unfoldable pub merge_session_reports : List SessionRecord → List SessionRecord → List SessionRecord
unfolding exact_records is_seen session_lt
merge_session_reports exact recent = sort session_lt (
    exact_records (index record_key recent) exact
    ++ filter (λ r. not (is_seen exact (record_key r))) recent)

-- How many records a report has for a user of an inbound.
abbrev pub reported : UsageKey → List SessionRecord → ℕ
reported k = count_if (λ r. record_key r == k)

record_key-with_recent :
    (o : Option SessionRecord) (e : SessionRecord) → record_key (with_recent o e) ≡ record_key e
unfolding record_key with_recent
record_key-with_recent none e = refl
record_key-with_recent (some r) e = refl

reported-exact_records :
    (k : UsageKey) (m : Map UsageKey SessionRecord) (exact : List SessionRecord)
    → reported k (exact_records m exact) ≡ reported k exact
unfolding exact_records count_if
reported-exact_records k m [] = refl
reported-exact_records k m (e ∷ es) =
    rw (record_key-with_recent (lookup (record_key e) m) e, reported-exact_records k m es) refl

is_seen_same :
    (exact : List SessionRecord) (j k : UsageKey) → j ≡ k → is_seen exact j ≡ is_seen exact k
is_seen_same exact j k e = ap (is_seen exact) e

reported-filter :
    (k : UsageKey) (exact recent : List SessionRecord)
    → reported k (filter (λ r. not (is_seen exact (record_key r))) recent)
      ≡ (if is_seen exact k then 0 else reported k recent)
unfolding filter count_if
reported-filter k exact [] = ground arith
reported-filter k exact (r ∷ rs) = ground (
  arith,
  eq_iff (record_key r) k,
  is_seen_same exact (record_key r) k,
  reported-filter k exact rs,
)

is_seen_none :
    (exact : List SessionRecord) (k : UsageKey) → is_seen exact k ≡ false → reported k exact ≡ 0
unfolding is_seen any count_if
is_seen_none [] k h = refl
is_seen_none (e ∷ es) k h = ground (arith, is_seen_none es k)

-- For each user of an inbound, the merged report has as many records as the exact report, where that
-- has any, and otherwise as many as the access log's report.
pub merge_session_reports_per_key :
    (exact recent : List SessionRecord) (k : UsageKey)
    → reported k (merge_session_reports exact recent)
      ≡ (if is_seen exact k then reported k exact else reported k recent)
unfolding merge_session_reports
merge_session_reports_per_key exact recent k = ground (
  arith,
  count_if-sort session_lt (λ r. record_key r == k)
      (exact_records (index record_key recent) exact
        ++ filter (λ r. not (is_seen exact (record_key r))) recent),
  count_if-append (λ r. record_key r == k) (exact_records (index record_key recent) exact)
      (filter (λ r. not (is_seen exact (record_key r))) recent),
  reported-exact_records k (index record_key recent) exact,
  reported-filter k exact recent,
  is_seen_none exact k,
)
