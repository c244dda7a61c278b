-- ===== src/Xray/StatsTests.antt =====
-- The core's answers about one user.
use xnode_agent.Xray.Config.Routing.{unmarshal_map}
use xnode_agent.Prelude.{
  sort, lookup, dec_eq, Str-discrete, cut_prefix, cut, parse_nat, Str, pos, some, [], ◌∷◌, codes,
  ◌≡◌, refl, arith,
}
use xnode_agent.Model.Values.{
  of_fields, to_fields, as_array, of_items, to_items, as_object, as_text, Json, str, array, object,
}
use xnode_agent.Xray.Email.{parse_accounting_email, accounting_email, sanitize}
use xnode_agent.Xray.Stats.{stat_record, parse_online_sessions}
use xnode_agent.Xray.Stats.Names.{counter_name, stat_record-counter_name}

stat_record-counter_name_example :
    stat_record (counter_name (accounting_email (codes "a b") (codes "in")) []) (pos 5) ≡ record {
      name = counter_name (accounting_email (codes "a b") (codes "in")) [];
      value = pos 5;
      user_id = sanitize (codes "a b");
      inbound_id = sanitize (codes "in");
      direction = [];
    }
stat_record-counter_name_example =
    stat_record-counter_name (codes "a b") (codes "in") [] (pos 5) (λ e. ground (arith, e))
      (λ e. ground (arith, e)) tt

abbrev address : Str → Str → Json
address ip time = object ((codes "ip", str ip) ∷ (codes "lastSeen", str time) ∷ [])

parse_online_run :
    parse_online_sessions (
      some (
        object (
          (
            codes "users",
            array (
                object (
                  (codes "email", str (codes "u:ann|i:in"))
                  ∷ (codes "ips", array (address (codes "1.2.3.4") (codes "7") ∷ []))
                  ∷ [])
                ∷ []),
          )
          ∷ [])))
    ≡ some (
        record {
          user_id = codes "ann";
          inbound_id = codes "in";
          ips = codes "1.2.3.4" ∷ [];
          last_seen = pos 7;
          recent_connections = pos 0;
          source = codes "xray-online";
        }
        ∷ [])
unfolding parse_online_sessions unmarshal_map sort lookup of_fields to_fields dec_eq Str-discrete
    as_array of_items to_items parse_accounting_email cut_prefix as_object as_text cut parse_nat
parse_online_run = refl
