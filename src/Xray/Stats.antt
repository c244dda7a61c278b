-- ===== src/Xray/Stats.antt =====
-- ParseStats of internal/xray/stats.go and ParseOnlineSessions of internal/xray/online.go, over what
-- json.Unmarshal makes of the core's answers. A number is one that float64 and int64 both hold.
pub mod Names
use mathlib.Core.List.{foldl}
use xnode_agent.Prelude.{
  zero, suc, nat_eq, refl, str_eq, int_eq, Str, ℤ, pos, negsuc, Bool, true, false, Option, none,
  some, List, [], ◌∷◌, codes, ℕ, parse_nat, if◌then◌else◌, lookup, ◌++◌, sort, ltb, ◌==◌, ltb_ℤ,
  str_lt, ◌^◌, ◌-◌, suc,
}
use xnode_agent.Model.{TrafficRecord, SessionRecord}
use xnode_agent.Model.Values.{
  json_eq, Json, JsonMap, null, bool, num, str, arr, obj, as_array, as_object, as_text,
}
use xnode_agent.Xray.Email.{parse_accounting_email, parse_accounting_name}
use xnode_agent.Xray.Config.Routing.{GoMap, entries_of, unmarshal_map}
use xnode_agent.Session.Tracker.{session_lt}

-- The value of digits, and of their negation, in the range of int64, with whether it is in range.
unfoldable pub signed_value : Bool → ℕ → ℤ × Bool
signed_value false n = if ltb n (2 ^ 63) then (pos n, true) else (pos (2 ^ 63 - 1), false)
signed_value true zero = (pos 0, true)
signed_value true (suc n) =
    if ltb n (2 ^ 63) then (negsuc n, true) else (negsuc (2 ^ 63 - 1), false)

unfoldable pub parse_signed : Bool → Str → ℤ × Bool
unfolding signed_value
parse_signed minus s = elim (parse_nat s) [ none ↦ (pos 0, false) | some n ↦ signed_value minus n ]

-- strconv.ParseInt(s, 10, 64): the value, and whether there was no error.
unfoldable pub parse_int : Str → ℤ × Bool
unfolding parse_signed
parse_int [] = (pos 0, false)
parse_int (c ∷ s) =
    if c == b'-'
    then parse_signed true s
    else if c == b'+'
    then parse_signed false s
    else parse_signed false (c ∷ s)

unfoldable pub to_int64 : Json → Option ℤ
unfolding parse_int
to_int64 (str s) = let (n, good) = parse_int s in if good then some n else none
to_int64 (num n) = some n
to_int64 _ = none

-- The record of a counter, with the user and the inbound if its name is an accounting name.
unfoldable pub stat_record : Str → ℤ → TrafficRecord
stat_record name value = elim (parse_accounting_name name) [
  | none ↦ record { name = name; value = value; user_id = []; inbound_id = []; direction = [] }
  | some (k, direction) ↦ record {
    name = name;
    value = value;
    user_id = k.user_id;
    inbound_id = k.inbound_id;
    direction = direction;
  }
]

-- The records of the counters: one without a value is left out, and one whose value is no number is an
-- error.
unfoldable pub parse_stats : List (Str × Json) → Option (List TrafficRecord)
unfolding to_int64 stat_record
parse_stats [] = some []
parse_stats ((name, value) ∷ rest) =
    let others = parse_stats rest in
    if value == null then others else elim (to_int64 value) [
      | none ↦ none
      | some v ↦ elim others [ none ↦ none | some rs ↦ some (stat_record name v ∷ rs) ]
    ]

unfoldable pub any_int64 : Option Json → ℤ
unfolding parse_int
any_int64 (some (num n)) = n
any_int64 (some (str s)) = (parse_int s).0
any_int64 _ = pos 0

unfoldable pub latest : ℤ → ℤ → ℤ
latest seen ts = if ltb_ℤ seen ts then ts else seen

abbrev pub object_of : Json → JsonMap
object_of v = elim (as_object v) [ none ↦ [] | some m ↦ m ]

abbrev pub text_at : Str → JsonMap → Str
text_at k m = elim (lookup k m) [ none ↦ [] | some v ↦ elim (as_text v) [ none ↦ [] | some s ↦ s ] ]

-- The addresses of a list, and when one of them was seen last.
unfoldable pub note_ip : List Str × ℤ → Json → List Str × ℤ
unfolding any_int64 latest
note_ip (ips, seen) item =
    let m = object_of item in
    let ip = text_at (codes "ip") m in
    if ip == [] then (ips, seen) else (
      ips ++ ip ∷ [],
      latest (latest seen (any_int64 (lookup (codes "lastSeen") m)))
          (any_int64 (lookup (codes "last_seen") m)),
    )

-- The same of a map from addresses to times.
unfoldable pub note_entry : List Str × ℤ → Str × Json → List Str × ℤ
unfolding any_int64 latest
note_entry (ips, seen) (ip, v) = (ips ++ ip ∷ [], latest seen (any_int64 (some v)))

-- The map is read where the list has no address.
unfoldable pub online_ips : Option Json → List Str × ℤ
unfolding note_ip note_entry
online_ips none = ([], pos 0)
online_ips (some v) = elim (as_array v) [
  | some items ↦ foldl note_ip ([], pos 0) items
  | none ↦ elim (as_object v) [ none ↦ ([], pos 0) | some m ↦ foldl note_entry ([], pos 0) m ]
]

unfoldable pub online_record : Json → Option SessionRecord
unfolding online_ips
online_record item =
    let u = object_of item in
    elim (parse_accounting_email (text_at (codes "email") u)) [
      | none ↦ none
      | some k ↦
          let (ips, seen) = online_ips (lookup (codes "ips") u) in
          some (record {
            user_id = k.user_id;
            inbound_id = k.inbound_id;
            ips = sort str_lt ips;
            last_seen = seen;
            recent_connections = pos 0;
            source = codes "xray-online";
          })
    ]

unfoldable pub online_records : List Json → List SessionRecord
unfolding online_record
online_records [] = []
online_records (item ∷ rest) =
    let others = online_records rest in
    elim (online_record item) [ none ↦ others | some r ↦ r ∷ others ]

unfoldable pub users_of : GoMap → List Json
users_of base = elim (lookup (codes "users") (entries_of base)) [
  | none ↦ []
  | some v ↦ elim (as_array v) [ none ↦ [] | some items ↦ items ]
]

-- The sessions, or the error of a text that is no JSON object.
unfoldable pub parse_online_sessions : Option Json → Option (List SessionRecord)
unfolding online_records users_of
parse_online_sessions decoded = elim (unmarshal_map decoded) [
  | none ↦ none
  | some base ↦ some (sort session_lt (online_records (users_of base)))
]
