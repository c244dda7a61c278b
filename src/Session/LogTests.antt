-- ===== src/Session/LogTests.antt =====
-- A line of the access log, and a log that grows between two rounds.
use xnode_agent.Prelude.{
  drop, parse_nat, cut, cut_prefix, dec_eq, ℕ_discrete, Str-discrete, any, none, some, inl, true,
  false, ℤ, pos, Str, Option, codes, ◌++◌, ◌≡◌, refl, arith, [],
}
use xnode_agent.Xray.Email.{parse_accounting_email}
use xnode_agent.Session.Address.{split_host, parses_ip}
use xnode_agent.Session.AccessLine.{parse_access_line}
use xnode_agent.Session.LogFile.{LogTracker, is_rotated}
use xnode_agent.Session.LogFile.Lines.{consume_log}
use xnode_agent.Session.LogFile.Rounds.{AreDated, consume_log_in_rounds}

abbrev no_time : Str → Option ℤ
no_time s = none

abbrev line : Str
line = codes "2026/07/28 10:00:00 from tcp:[2001:db8::1]:443 accepted tcp:x:80 email: u:ann|i:in \n"

parse_access_line_run :
    parse_access_line no_time line (pos 7)
    ≡ some (record {
      user_id = codes "ann";
      inbound_id = codes "in";
      ip = codes "2001:db8::1";
      at_time = pos 7;
    })
unfolding parse_access_line cut cut_prefix dec_eq ℕ_discrete parse_accounting_email Str-discrete
    split_host any
parse_access_line_run = refl

-- Addresses without a port, and texts that are none.
parses_ip_runs :
    (parses_ip (codes "2001:db8::192.0.2.1") ≡ true)
    × (parses_ip (codes "1:2:3:4:5:6:7:8") ≡ true)
    × (parses_ip (codes "::") ≡ true)
    × (parses_ip (codes "1:2:3:4:5:6:7::8") ≡ false)
    × (parses_ip (codes "1::2::3") ≡ false)
    × (parses_ip (codes "192.0.2.01") ≡ false)
unfolding parses_ip dec_eq ℕ_discrete any cut_prefix Str-discrete cut parse_nat
parses_ip_runs = (refl, refl, refl, refl, refl, refl)

abbrev tracker : LogTracker
tracker = record { items = []; offset = 0; last_info = none }

abbrev rest : Str
rest = codes " 10:00:01 from 192.0.2.7:1 accepted y email: u:bob|i:in\n"

abbrev half : Str
half = line ++ codes "2026/07/28"

-- Every time that is read is 5.
abbrev at_five : Str → Option ℤ
at_five s = some (pos 5)

half-AreDated : AreDated at_five (pos 7) (pos 9) [] half
unfolding parse_access_line cut cut_prefix dec_eq ℕ_discrete parse_accounting_email Str-discrete
    split_host any
half-AreDated = (refl, tt)

consume_log_in_rounds_example :
    consume_log at_five (pos 9) 3 (consume_log at_five (pos 7) 3 tracker half) (half ++ rest)
    ≡ consume_log at_five (pos 9) 3 tracker (half ++ rest)
unfolding is_rotated drop
consume_log_in_rounds_example =
    consume_log_in_rounds at_five (pos 7) (pos 9) 3 tracker half rest refl (omega arith)
      (inl (omega arith)) half-AreDated
