-- ===== src/Health.antt =====
-- internal/health/health.go: the node's metrics from /proc, and their rates between two samples. The files
-- are their bytes; a uint64 wraps around at 2 ^ 64; a float64 is an exact fraction.
pub mod Rates
mod Tests
use mathlib.Core.List.{foldl}
use xnode_agent.Prelude.{
  refl, str_eq, nat_eq, Str, Bool, Option, none, some, ℕ, List, codes, arith, zero, suc, ◌^◌,
  parse_nat, ◌+◌, ◌*◌, if◌then◌else◌, ◌∷◌, [], cut, ◌-◌, false, ◌%◌, ◌==◌, fields, ltb, trim_space,
  true, length, ◌<◌, ◌||◌, ◌++◌, not, take, drop, ◌&&◌,
}

abbrev pub max_uint64 : ℕ
max_uint64 = 2 ^ 64 - 1

-- strconv.ParseUint(s, 10, 64): the value, and whether there was no error.
unfoldable pub parse_uint : Str → ℕ × Bool
parse_uint s = elim (parse_nat s) [
  | none ↦ (0, false)
  | some n ↦ if ltb max_uint64 n then (max_uint64, false) else (n, true)
]

unfoldable pub add_uint : ℕ → ℕ → ℕ
add_uint a b = (a + b) % 2 ^ 64

-- a - b on two values of uint64.
unfoldable pub sub_uint : ℕ → ℕ → ℕ
sub_uint a b = (a + 2 ^ 64 - b) % 2 ^ 64

unfoldable pub mul_uint : ℕ → ℕ → ℕ
mul_uint a b = (a * b) % 2 ^ 64

-- The lines of a text, without their newlines. None is longer than a bufio.Scanner reads.
unfoldable pub lines_from : Str → Str → List Str
lines_from line [] = if line == [] then [] else line ∷ []
lines_from line (c ∷ s) = elim (c == 10) [
  | true ↦ line ∷ lines_from [] s
  | false ↦ lines_from (line ++ c ∷ []) s
]

-- MemTotal and MemAvailable in bytes, as the lines go by.
unfoldable pub read_memory : ℕ × ℕ → List Str → ℕ × ℕ
unfolding parse_uint mul_uint
read_memory (total, avail) [] = (total, avail)
read_memory (total, avail) (line ∷ rest) = elim (fields line) [
  | [] ↦ read_memory (total, avail) rest
  | key ∷ values ↦ elim values [
    | [] ↦ read_memory (total, avail) rest
    | value ∷ _ ↦
        let bytes = mul_uint (parse_uint value).0 1024 in
        read_memory
          (
            if key == codes "MemTotal:" then bytes else total,
            if key == codes "MemAvailable:" then bytes else avail,
          )
          rest
  ]
]

-- The memory in use, given /proc/meminfo if it can be opened.
unfoldable pub memory_bytes : Option Str → ℕ
unfolding read_memory lines_from
memory_bytes none = 0
memory_bytes (some text) =
    let (total, avail) = read_memory (0, 0) (lines_from [] text) in
    if ltb avail total then total - avail else 0

pub record CpuTimes : Type 0 where
  pub total : ℕ
  pub idle : ℕ

pub record NetTimes : Type 0 where
  pub rx : ℕ
  pub tx : ℕ

-- All of the values, if each is a number.
unfoldable pub parse_all : List Str → Option (List ℕ)
unfolding parse_uint
parse_all [] = some []
parse_all (s ∷ rest) =
    let (n, good) = parse_uint s in
    let others = parse_all rest in
    elim others [ none ↦ none | some ns ↦ if good then some (n ∷ ns) else none ]

unfoldable pub sum_uint : List ℕ → ℕ
unfolding add_uint
sum_uint = foldl add_uint 0

-- The fourth value is idle, and the fifth, if there is one, iowait. Fewer than four are refused.
unfoldable pub cpu_of : List ℕ → Option CpuTimes
unfolding sum_uint
cpu_of (a ∷ b ∷ c ∷ idle ∷ []) =
    some (record { total = sum_uint (a ∷ b ∷ c ∷ idle ∷ []); idle = idle })
cpu_of (a ∷ b ∷ c ∷ idle ∷ iowait ∷ rest) =
    some
      (record { total = sum_uint (a ∷ b ∷ c ∷ idle ∷ iowait ∷ rest); idle = add_uint idle iowait })
cpu_of _ = none

-- Given /proc/stat if it can be read.
unfoldable pub read_cpu : Option Str → Option CpuTimes
unfolding parse_all cpu_of
read_cpu none = none
read_cpu (some text) = elim (fields (first_line text)) [
  | [] ↦ none
  | label ∷ values ↦
      if ltb (length values) 4 || not (label == codes "cpu")
      then none
      else elim (parse_all values) [ none ↦ none | some vals ↦ cpu_of vals ]
]
  where
    first_line : Str → Str
    first_line s = elim (cut (10 ∷ []) s) [ none ↦ s | some (line, _) ↦ line ]

-- The total is a uint64.
abbrev pub Fits : Option CpuTimes → Type 0
Fits none = Unit
Fits (some cpu) = cpu.total < 2 ^ 64

add_uint_bound : (a b : ℕ) → add_uint a b < 2 ^ 64
unfolding add_uint
add_uint_bound a b = omega arith

sum_uint_bound : (ns : List ℕ) → sum_uint ns < 2 ^ 64
unfolding sum_uint
sum_uint_bound ns = go 0 (omega arith) ns
  where
    go : (acc : ℕ) → acc < 2 ^ 64 → (ns : List ℕ) → foldl add_uint acc ns < 2 ^ 64
    go acc h [] = h
    go acc h (n ∷ ns) = go (add_uint acc n) (add_uint_bound acc n) ns

cpu_of-Fits : (ns : List ℕ) → Fits (cpu_of ns)
unfolding cpu_of
cpu_of-Fits [] = tt
cpu_of-Fits (a ∷ []) = tt
cpu_of-Fits (a ∷ b ∷ []) = tt
cpu_of-Fits (a ∷ b ∷ c ∷ []) = tt
cpu_of-Fits (a ∷ b ∷ c ∷ d ∷ []) = sum_uint_bound (a ∷ b ∷ c ∷ d ∷ [])
cpu_of-Fits (a ∷ b ∷ c ∷ d ∷ e ∷ ns) = sum_uint_bound (a ∷ b ∷ c ∷ d ∷ e ∷ ns)

pub read_cpu-Fits : (stat : Option Str) → Fits (read_cpu stat)
unfolding read_cpu
read_cpu-Fits none = tt
read_cpu-Fits (some text) =
    go (fields (elim (cut (10 ∷ []) text) [ none ↦ text | some (line, _) ↦ line ]))
  where
    all : (o : Option (List ℕ)) → Fits (elim o [ none ↦ none | some vals ↦ cpu_of vals ])
    all none = tt
    all (some vals) = cpu_of-Fits vals

    choose : (b : Bool) (o : Option CpuTimes) → Fits o → Fits (if b then none else o)
    choose true o h = tt
    choose false o h = h

    go :
        (ws : List Str)
        → Fits (elim ws [
          | [] ↦ none
          | label ∷ values ↦
              if ltb (length values) 4 || not (label == codes "cpu")
              then none
              else elim (parse_all values) [ none ↦ none | some vals ↦ cpu_of vals ]
        ])
    go [] = tt
    go (label ∷ values) = choose _ _ (all (parse_all values))

-- The counters of an interface, its first and ninth value, if there are sixteen.
unfoldable pub net_values : List Str → Option NetTimes
unfolding parse_uint
net_values fs = if ltb (length fs) 16 then none else elim (take 1 fs ++ take 1 (drop 8 fs)) [
  | [] ↦ none
  | r ∷ rest ↦ elim rest [
    | [] ↦ none
    | t ∷ _ ↦
        if (parse_uint r).1 && (parse_uint t).1
        then some (record { rx = (parse_uint r).0; tx = (parse_uint t).0 })
        else none
  ]
]

-- The counters of a line, if it is about the interface that is asked for, or any but the loopback.
unfoldable pub net_line : Str → Str → Option NetTimes
unfolding net_values
net_line iface line = elim (cut (codes ":") (trim_space line)) [
  | none ↦ none
  | some (head, rest) ↦
      let name = trim_space head in
      if name == codes "lo" || not (iface == []) && not (name == iface)
      then none
      else net_values (fields rest)
]

-- The sum over the lines with counters, `none` where there is no such line.
unfoldable pub add_lines : Str → Option NetTimes → List Str → Option NetTimes
unfolding net_line add_uint
add_lines iface found [] = found
add_lines iface found (line ∷ rest) = elim (net_line iface line) [
  | none ↦ add_lines iface found rest
  | some n ↦ add_lines iface (some (plus found n)) rest
]
  where
    plus : Option NetTimes → NetTimes → NetTimes
    plus none n = n
    plus (some m) n = record { rx = add_uint m.rx n.rx; tx = add_uint m.tx n.tx }

-- Given /proc/net/dev if it can be read to its end.
unfoldable pub read_network : Str → Option Str → Option NetTimes
unfolding add_lines lines_from
read_network iface none = none
read_network iface (some text) = add_lines iface none (lines_from [] text)
