-- ===== src/Session/AccessLine.antt =====
-- ParseAccessLine of internal/session/tracker.go. A line is its bytes. What time.ParseInLocation makes of
-- a date and a time in the zone of the node is the parameter `read_time`.
use mathlib.Core.List.{reverse}
use xnode_agent.Prelude.{
  take, str_eq, nat_eq, Str, Option, length, ◌∷◌, cut_prefix, codes, ◌==◌, none, if◌then◌else◌,
  some, ℤ, ◌||◌, [], cut, leb, trim_space,
}
use xnode_agent.Model.{UsageKey}
use xnode_agent.Xray.Email.{parse_accounting_email}
use xnode_agent.Session.Tracker.{Event}
use xnode_agent.Session.Address.{split_host, parses_ip}

unfoldable pub skip_brackets : Str → Str
skip_brackets [] = []
skip_brackets (c ∷ s) = let rest = skip_brackets s in if c == b'[' || c == b']' then rest else c ∷ s

-- strings.Trim(s, "[]")
unfoldable pub trim_brackets : Str → Str
unfolding skip_brackets
trim_brackets s = reverse (skip_brackets (reverse (skip_brackets s)))

unfoldable pub trim_prefix : Str → Str → Str
trim_prefix p s = elim (cut_prefix p s) [ none ↦ s | some rest ↦ rest ]

-- strings.LastIndex: what follows the last occurrence of the separator.
unfoldable pub after_last : Str → Str → Option Str
after_last sep [] = none
after_last sep (c ∷ s) = elim (after_last sep s) [
  | some rest ↦ some rest
  | none ↦ cut_prefix sep (c ∷ s)
]

-- The text before the first of the bytes " \t\r\n".
unfoldable pub first_word : Str → Str
first_word [] = []
first_word (c ∷ s) =
    let rest = first_word s in if c == 32 || c == 9 || c == 13 || c == 10 then [] else c ∷ rest

unfoldable pub source_ip : Str → Str
unfolding trim_prefix trim_brackets
source_ip source =
    let s = trim_prefix (codes "udp:") (trim_prefix (codes "tcp:") source) in
    elim (split_host s) [
      | some host ↦ trim_brackets host
      | none ↦ if parses_ip (trim_brackets s) then trim_brackets s else []
    ]

module _ (read_time : Str → Option ℤ) where
  unfoldable pub parse_log_time : Str → ℤ → ℤ
  unfolding trim_space take
  parse_log_time prefix fallback =
      let p = trim_space prefix in
      if leb 19 (length p)
      then elim (read_time (take 19 p)) [ none ↦ fallback | some ts ↦ ts ]
      else fallback

  -- The event of a user, if the connection has an address.
  unfoldable pub event_from : UsageKey → Str → Str → ℤ → Option Event
  unfolding parse_log_time
  event_from k ip prefix now =
      if ip == []
      then none
      else some (record {
        user_id = k.user_id;
        inbound_id = k.inbound_id;
        ip = ip;
        at_time = parse_log_time prefix now;
      })

  -- The line after "from ".
  unfoldable pub parse_accepted : Str → Str → ℤ → Option Event
  unfolding event_from source_ip trim_space first_word after_last
  parse_accepted prefix rest now = elim (cut (codes " accepted ") rest) [
    | none ↦ none
    | some (source, _) ↦ elim (after_last (codes " email: ") rest) [
      | none ↦ none
      | some email ↦ elim (parse_accounting_email (first_word (trim_space email))) [
        | none ↦ none
        | some k ↦ event_from k (source_ip (trim_space source)) prefix now
      ]
    ]
  ]

  unfoldable pub parse_access_line : Str → ℤ → Option Event
  unfolding parse_accepted
  parse_access_line line now = elim (cut (codes "from ") line) [
    | none ↦ none
    | some (prefix, rest) ↦ parse_accepted prefix rest now
  ]
