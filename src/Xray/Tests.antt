-- ===== src/Xray/Tests.antt =====
-- The accounting names at concrete IDs.
use xnode_agent.Prelude.{
  dec_eq, is_yes, Str-discrete, ℕ_discrete, cut, cut_prefix, some, codes, ◌≡◌, refl,
}
use xnode_agent.Xray.Email.{
  sanitize, accounting_email, parse_accounting_email, parse_accounting_name, parse-accounting_email,
}

accounting_email_run : accounting_email (codes "ann>b c") (codes "in|1") ≡ codes "u:ann_b_c|i:in_1"
unfolding accounting_email sanitize dec_eq is_yes ℕ_discrete
accounting_email_run = refl

parse_accounting_name_run :
    parse_accounting_name (codes "user>>>u:ann|i:in>>>traffic>>>uplink")
    ≡ some (record { user_id = codes "ann"; inbound_id = codes "in" }, codes "uplink")
unfolding parse_accounting_name parse_accounting_email cut cut_prefix dec_eq is_yes Str-discrete
    ℕ_discrete
parse_accounting_name_run = refl

parse-accounting_email_example :
    parse_accounting_email (accounting_email (codes "ann b") (codes "in"))
    ≡ some (record { user_id = sanitize (codes "ann b"); inbound_id = sanitize (codes "in") })
unfolding dec_eq is_yes Str-discrete ℕ_discrete
parse-accounting_email_example = parse-accounting_email (codes "ann b") (codes "in")
