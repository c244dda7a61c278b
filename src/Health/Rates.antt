-- ===== src/Health/Rates.antt =====
-- Sampler.Snapshot of internal/health/health.go. A time is its nanoseconds.
use xnode_agent.Prelude.{
  ◌-◌, ◌*◌, ◌≤◌, ◌<◌, if◌then◌else◌, ◌&&◌, ltb, leb, nat_eq, ℕ, Bool, Option, none, some, Str, true,
  arith, fields, [], ◌∷◌,
}
use xnode_agent.Health.{
  CpuTimes, NetTimes, sub_uint, memory_bytes, read_cpu, read_network, Fits, read_cpu-Fits,
}

-- A quotient that is not negative.
pub record Fraction : Type 0 where
  pub num : ℕ
  pub den : ℕ

abbrev pub nothing : Fraction
nothing = record { num = 0; den = 1 }

pub record Metrics : Type 0 where
  pub cpu_percent : Fraction
  pub memory : ℕ
  pub load1 : Fraction
  pub network_rx : ℕ
  pub network_tx : ℕ
  pub network_rx_bps : Fraction
  pub network_tx_bps : Fraction

pub record Sampler : Type 0 where
  pub iface : Str
  pub last_cpu : CpuTimes
  pub last_net : NetTimes
  pub last_time : ℕ
  pub primed : Bool

-- The load average, given /proc/loadavg if it can be read, and what strconv.ParseFloat makes of a number.
unfoldable pub load1 : (Str → Fraction) → Option Str → Fraction
load1 parse_float none = nothing
load1 parse_float (some text) = elim (fields text) [ [] ↦ nothing | word ∷ rest ↦ parse_float word ]

unfoldable pub cpu_percent : Sampler → Option CpuTimes → Fraction
unfolding sub_uint
cpu_percent s none = nothing
cpu_percent s (some cpu) =
    let total = sub_uint cpu.total s.last_cpu.total in
    let idle = sub_uint cpu.idle s.last_cpu.idle in
    if s.primed && ltb s.last_cpu.total cpu.total && leb idle total
    then record { num = 100 * sub_uint total idle; den = total }
    else nothing

-- Bits in a second from bytes in nanoseconds; a counter that went back gives nothing.
unfoldable pub rate : Sampler → ℕ → ℕ → ℕ → Fraction
unfolding sub_uint
rate s now last count =
    if s.primed && ltb s.last_time now && leb last count
    then record { num = sub_uint count last * 8 * 1000000000; den = now - s.last_time }
    else nothing

unfoldable pub rx_rate : Sampler → ℕ → Option NetTimes → Fraction
unfolding rate
rx_rate s now none = nothing
rx_rate s now (some net) = rate s now s.last_net.rx net.rx

unfoldable pub tx_rate : Sampler → ℕ → Option NetTimes → Fraction
unfolding rate
tx_rate s now none = nothing
tx_rate s now (some net) = rate s now s.last_net.tx net.tx

-- The sample that is kept: what could not be read stays, and the time is that of the call.
unfoldable pub remember : Sampler → ℕ → Option CpuTimes → Option NetTimes → Sampler
remember s now cpu net = record {
  iface = s.iface;
  last_cpu = elim cpu [ none ↦ s.last_cpu | some c ↦ c ];
  last_net = elim net [ none ↦ s.last_net | some n ↦ n ];
  last_time = now;
  primed = true;
}

-- The metrics of a sample, given the files /proc/loadavg, /proc/meminfo, /proc/stat and /proc/net/dev.
unfoldable pub snapshot :
    (Str → Fraction)
    → Sampler
    → ℕ
    → Option Str
    → Option Str
    → Option Str
    → Option Str
    → Metrics × Sampler
unfolding cpu_percent load1 rx_rate tx_rate remember
snapshot parse_float s now loadavg meminfo stat dev =
    let cpu = read_cpu stat in
    let net = read_network s.iface dev in
    let metrics : Metrics = record {
      cpu_percent = cpu_percent s cpu;
      memory = memory_bytes meminfo;
      load1 = load1 parse_float loadavg;
      network_rx = elim net [ none ↦ 0 | some n ↦ n.rx ];
      network_tx = elim net [ none ↦ 0 | some n ↦ n.tx ];
      network_rx_bps = rx_rate s now net;
      network_tx_bps = tx_rate s now net;
    } in
    (metrics, remember s now cpu net)

-- The quotient is a number.
abbrev pub IsFinite : Fraction → Type 0
IsFinite f = 0 < f.den

cpu_percent_bounds :
    (s : Sampler) (cpu : Option CpuTimes)
    → Fits cpu
    → ((cpu_percent s cpu).num ≤ 100 * (cpu_percent s cpu).den) × IsFinite (cpu_percent s cpu)
unfolding cpu_percent sub_uint
cpu_percent_bounds s none h = (omega arith, omega arith)
cpu_percent_bounds s (some cpu) h = ground (arith, h)

rate-IsFinite : (s : Sampler) (now last count : ℕ) → IsFinite (rate s now last count)
unfolding rate
rate-IsFinite s now last count = ground arith

rx_rate-IsFinite : (s : Sampler) (now : ℕ) (net : Option NetTimes) → IsFinite (rx_rate s now net)
unfolding rx_rate
rx_rate-IsFinite s now none = omega arith
rx_rate-IsFinite s now (some net) = rate-IsFinite s now s.last_net.rx net.rx

tx_rate-IsFinite : (s : Sampler) (now : ℕ) (net : Option NetTimes) → IsFinite (tx_rate s now net)
unfolding tx_rate
tx_rate-IsFinite s now none = omega arith
tx_rate-IsFinite s now (some net) = rate-IsFinite s now s.last_net.tx net.tx

-- Whatever the counters do between two samples, wrap-around and resets included, the CPU's load lies between
-- 0 and 100 percent, and no rate divides by zero.
pub snapshot-IsFinite :
    (parse_float : Str → Fraction) (s : Sampler) (now : ℕ) (loadavg meminfo stat dev : Option Str)
    → ((snapshot parse_float s now loadavg meminfo stat dev).0.cpu_percent.num
        ≤ 100 * (snapshot parse_float s now loadavg meminfo stat dev).0.cpu_percent.den)
      × IsFinite (snapshot parse_float s now loadavg meminfo stat dev).0.cpu_percent
      × IsFinite (snapshot parse_float s now loadavg meminfo stat dev).0.network_rx_bps
      × IsFinite (snapshot parse_float s now loadavg meminfo stat dev).0.network_tx_bps
unfolding snapshot
snapshot-IsFinite parse_float s now loadavg meminfo stat dev =
    let c = cpu_percent_bounds s (read_cpu stat) (read_cpu-Fits stat) in
    (
      c.0,
      c.1,
      rx_rate-IsFinite s now (read_network s.iface dev),
      tx_rate-IsFinite s now (read_network s.iface dev),
    )
