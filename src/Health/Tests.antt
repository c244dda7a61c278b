-- ===== src/Health/Tests.antt =====
-- A node's counters.
use xnode_agent.Prelude.{
  fields, cut, cut_prefix, dec_eq, ℕ_discrete, Str-discrete, parse_nat, trim_space, take, drop, Str,
  some, none, codes, true, [], ◌∷◌, refl, ◌≡◌, ◌≤◌, ◌*◌,
}
use xnode_agent.Health.{memory_bytes, read_cpu, read_network}
use xnode_agent.Health.Rates.{
  Fraction, nothing, load1, Sampler, snapshot, IsFinite, snapshot-IsFinite,
}

abbrev stat : Str
stat = codes "cpu  10 0 10 70 10 0\ncpu0 1 1 1 1\n"

abbrev dev : Str
dev = codes " eth0: 5 0 0 0 0 0 0 0 7 0 0 0 0 0 0 0\n  lo: 9 0 0 0 0 0 0 0 9 0 0 0 0 0 0 0\n"

read_cpu_run : read_cpu (some stat) ≡ some (record { total = 100; idle = 80 })
unfolding read_cpu fields cut cut_prefix dec_eq ℕ_discrete Str-discrete parse_nat
read_cpu_run = refl

read_network_run : read_network [] (some dev) ≡ some (record { rx = 5; tx = 7 })
unfolding read_network dec_eq ℕ_discrete cut trim_space cut_prefix Str-discrete fields take drop
    parse_nat
read_network_run = refl

memory_bytes_run : memory_bytes (some (codes "MemTotal: 3 kB\nMemAvailable:  1 kB")) ≡ 2048
unfolding memory_bytes dec_eq ℕ_discrete fields Str-discrete parse_nat
memory_bytes_run = refl

abbrev sampler : Sampler
sampler = record {
  iface = [];
  last_cpu = record { total = 50; idle = 60 };
  last_net = record { rx = 1; tx = 9 };
  last_time = 3;
  primed = true;
}

abbrev loadavg : Str
loadavg = codes "0.52 0.58 0.59 1/123 4567\n"

-- A number that is read at this length only.
abbrev parse_float : Str → Fraction
parse_float (a ∷ b ∷ c ∷ d ∷ []) = record { num = 52; den = 100 }
parse_float _ = nothing

load1_run : load1 parse_float (some loadavg) ≡ record { num = 52; den = 100 }
unfolding load1 fields dec_eq ℕ_discrete
load1_run = refl

snapshot-IsFinite_example :
    ((snapshot parse_float sampler 10 (some loadavg) none (some stat) (some dev)).0.cpu_percent.num
      ≤ 100
        * (snapshot parse_float sampler 10
            (some loadavg)
            none
            (some stat)
            (some dev)).0.cpu_percent.den)
    × IsFinite
        (snapshot parse_float sampler 10 (some loadavg) none (some stat) (some dev)).0.cpu_percent
    × IsFinite
        (snapshot parse_float sampler 10
          (some loadavg)
          none
          (some stat)
          (some dev)).0.network_rx_bps
    × IsFinite
        (snapshot parse_float sampler 10
          (some loadavg)
          none
          (some stat)
          (some dev)).0.network_tx_bps
snapshot-IsFinite_example =
    snapshot-IsFinite parse_float sampler 10 (some loadavg) none (some stat) (some dev)
