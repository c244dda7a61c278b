-- ===== src/Session/Address.antt =====
-- What Go's package net makes of the source of a connection: SplitHostPort and ParseIP, over bytes.
use xnode_agent.Prelude.{
  zero, suc, str_eq, nat_eq, ℕ, Str, Option, Bool, ◌∷◌, none, cut, any, if◌then◌else◌, parse_nat,
  false, is_digit, ◌==◌, cut_prefix, some, [], ◌||◌, suc, codes, not, leb, ◌&&◌, true, length, ltb,
  ◌+◌,
}

-- s[i:] after the byte's last occurrence, and what stands before it.
unfoldable pub cut_last_byte : ℕ → Str → Option (Str × Str)
cut_last_byte b [] = none
cut_last_byte b (c ∷ s) = elim (cut_last_byte b s) [
  | some (before, after) ↦ some (c ∷ before, after)
  | none ↦ if c == b then some ([], s) else none
]

-- The text up to the first occurrence of the byte, and what follows it.
abbrev pub cut_byte : ℕ → Str → Option (Str × Str)
cut_byte b = cut (b ∷ [])

abbrev pub holds : ℕ → Str → Bool
holds b s = any (λ c. c == b) s

-- The host, where the host and the port hold no bracket out of place.
unfoldable pub plain_host : Str → Str → Option Str
plain_host host port =
    if holds b':' host || holds b'[' host || holds b']' host || holds b'[' port || holds b']' port
    then none
    else some host

-- "[host]:port": the first `]` stands just before the last colon.
unfoldable pub bracketed_host : Str → Str → Option Str
bracketed_host inner port = elim (cut_byte b']' inner) [
  | none ↦ none
  | some (host, after) ↦
      if not (after == []) || holds b'[' host || holds b'[' port || holds b']' port
      then none
      else some host
]

-- The host that net.SplitHostPort returns; `none` for its errors.
unfoldable pub split_host : Str → Option Str
unfolding cut_last_byte plain_host bracketed_host
split_host source = elim (cut_last_byte b':' source) [
  | none ↦ none
  | some ([], port) ↦ plain_host [] port
  | some (c ∷ host, port) ↦
      if c == b'[' then bracketed_host host port else plain_host (c ∷ host) port
]

-- A decimal field of an IPv4 address: up to 255, without a leading zero.
unfoldable pub is_octet : Str → Bool
is_octet s = elim (parse_nat s) [
  | none ↦ false
  | some n ↦ leb n 255 && (leb (length s) 1 || not (first_byte s == b'0'))
]
  where
    first_byte : Str → ℕ
    first_byte [] = 0
    first_byte (c ∷ _) = c

-- The fields of the address are so many, and each is one.
unfoldable pub is_ipv4_fields : ℕ → Str → Bool
unfolding is_octet
is_ipv4_fields zero s = false
is_ipv4_fields (suc n) s = elim (cut_byte b'.' s) [
  | none ↦ n == 0 && is_octet s
  | some (field, rest) ↦ is_octet field && is_ipv4_fields n rest
]

abbrev pub is_ipv4 : Str → Bool
is_ipv4 = is_ipv4_fields 4

abbrev pub is_hex : ℕ → Bool
is_hex c = is_digit c || (leb b'a' c && leb c b'f') || (leb b'A' c && leb c b'F')

-- The hexadecimal digits at the front, and the rest.
unfoldable pub span_hex : Str → Str × Str
span_hex [] = ([], [])
span_hex (c ∷ s) = let (ds, rest) = span_hex s in if is_hex c then (c ∷ ds, rest) else ([], c ∷ s)

-- All sixteen bytes are there, or `::` stands for one group at least.
abbrev pub fills : ℕ → Bool → Bool
fills i ellipsis = if ltb i 16 then ellipsis else not ellipsis

-- What follows the colon after a group; `next` reads further groups.
unfoldable pub after_colon : (ℕ → Bool → Str → Bool) → ℕ → Bool → Str → Bool
after_colon next i ellipsis [] = false
after_colon next i ellipsis (c ∷ t) =
    if not (c == b':')
    then next i ellipsis (c ∷ t)
    else if ellipsis
    then false
    else if t == []
    then fills i true
    else next i true t

-- What follows the digits of a group of the text `s`.
unfoldable pub after_group : (ℕ → Bool → Str → Bool) → ℕ → Bool → Str → Str → Bool
unfolding after_colon is_ipv4_fields
after_group next i ellipsis s [] = fills (i + 2) ellipsis
after_group next i ellipsis s (c ∷ t) =
    if c == b'.'
    then (ellipsis || i == 12) && leb (i + 4) 16 && is_ipv4 s && fills (i + 4) ellipsis
    else c == b':' && after_colon next (i + 2) ellipsis t

-- The groups of an IPv6 address from byte `i` of sixteen on; `ellipsis` says that `::` stood before.
-- Eight groups at most are read.
unfoldable pub is_ipv6_groups : ℕ → ℕ → Bool → Str → Bool
unfolding span_hex after_group
is_ipv6_groups zero i ellipsis s = s == [] && not ellipsis
is_ipv6_groups (suc fuel) i ellipsis s =
    let (ds, rest) = span_hex s in
    if ds == [] || ltb 4 (length ds)
    then false
    else after_group (λ j e t. is_ipv6_groups fuel j e t) i ellipsis s rest

unfoldable pub is_ipv6 : Str → Bool
unfolding is_ipv6_groups
is_ipv6 s = elim (cut_prefix (codes "::") s) [
  | none ↦ is_ipv6_groups 8 0 false s
  | some rest ↦ rest == [] || is_ipv6_groups 8 0 true rest
]

-- net.ParseIP(s) != nil: the first `.` or `:` decides, and a zone is refused.
unfoldable pub parses_ip : Str → Bool
unfolding is_ipv4_fields is_ipv6
parses_ip s = go s
  where
    go : Str → Bool
    go [] = false
    go (c ∷ t) =
        if c == b'.'
        then is_ipv4 s
        else if c == b':'
        then not (holds b'%' s) && is_ipv6 s
        else not (c == b'%') && go t
