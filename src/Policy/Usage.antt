-- ===== src/Policy/Usage.antt =====
-- PendingUsage and MergeUsage of internal/policy/evaluator.go: traffic by user and inbound.
use mathlib.Core.List.{foldl}
use xnode_agent.Prelude.{
  ℕ, ◌+◌, ℤ, pos, pos_part, leb_ℤ, add64, wrap64, add64-wrap64_pos, wrap64_fits, Bool, false, ◌||◌,
  none, some, List, [], ◌∷◌, lookup, insert, lookup-insert, Distinct, insert-Distinct,
  if◌then◌else◌, ◌==◌, str_eq, eq_iff, ◌≡◌, refl, sym, ap, ◌∙◌, Bool-cases, inl, inr, arith,
}
use xnode_agent.Model.{TrafficRecord, UsageKey, key_eq}
use xnode_agent.Policy.Check.{Pending, pending_bytes}

unfoldable pub record_key : TrafficRecord → UsageKey
record_key r = record { user_id = r.user_id; inbound_id = r.inbound_id }

-- A record that is not attributed, or has no bytes, is skipped.
unfoldable pub is_skipped : TrafficRecord → Bool
is_skipped r = r.user_id == [] || r.inbound_id == [] || leb_ℤ r.value (pos 0)

-- out[k] += v
unfoldable pub add_usage : UsageKey → ℤ → Pending → Pending
unfolding pending_bytes
add_usage k v out = insert k (add64 (pending_bytes out k) v) out

unfoldable pub note_record : Pending → TrafficRecord → Pending
unfolding is_skipped record_key
note_record out r = if is_skipped r then out else add_usage (record_key r) r.value out

unfoldable pub pending_usage : List TrafficRecord → Pending
unfolding note_record
pending_usage = foldl note_record []

unfoldable pub merge_usage : Pending → Pending → Pending
unfolding add_usage
merge_usage dst src = foldl (λ m (p : UsageKey × ℤ). add_usage p.0 p.1 m) dst src

-- The bytes that a record adds to a key.
unfoldable pub record_bytes : UsageKey → TrafficRecord → ℕ
record_bytes k r = if is_skipped r then 0 else if record_key r == k then pos_part r.value else 0

-- The bytes of the key's records, as a number that does not wrap.
unfoldable pub total_bytes : UsageKey → List TrafficRecord → ℕ
total_bytes k [] = 0
total_bytes k (r ∷ rs) = record_bytes k r + total_bytes k rs

pending_bytes-add_usage :
    (k j : UsageKey) (v : ℤ) (m : Pending)
    → pending_bytes (add_usage k v m) j
      ≡ (if k == j then add64 (pending_bytes m j) v else pending_bytes m j)
unfolding add_usage
pending_bytes-add_usage k j v m =
    ground (arith, lookup-insert k j (add64 (pending_bytes m k) v) m, eq_iff k j)

value-pos : (r : TrafficRecord) → is_skipped r ≡ false → r.value ≡ pos (pos_part r.value)
unfolding is_skipped
value-pos r h = ground arith

pending_bytes-note_record :
    (k : UsageKey) (n : ℕ) (m : Pending) (r : TrafficRecord)
    → pending_bytes m k ≡ wrap64 (pos n)
    → pending_bytes (note_record m r) k ≡ wrap64 (pos (n + record_bytes k r))
unfolding note_record record_bytes
pending_bytes-note_record k n m r h = elim (Bool-cases (is_skipped r)) [
  | inl e ↦ rw (e, note_record, record_bytes) (h ∙ ap (λ i. wrap64 (pos i)) (omega arith))
  | inr e ↦ ground (
    arith,
    e,
    value-pos r e,
    add64-wrap64_pos n (pos_part r.value),
    pending_bytes-add_usage (record_key r) k r.value m,
    eq_iff (record_key r) k,
  )
]

foldl-note_record :
    (k : UsageKey) (n : ℕ) (m : Pending) (rs : List TrafficRecord)
    → pending_bytes m k ≡ wrap64 (pos n)
    → pending_bytes (foldl note_record m rs) k ≡ wrap64 (pos (n + total_bytes k rs))
foldl-note_record k n m [] h = h ∙ ap (λ i. wrap64 (pos i)) (unfold total_bytes in omega arith)
foldl-note_record k n m (r ∷ rs) h =
    foldl-note_record k (n + record_bytes k r) (note_record m r) rs
      (pending_bytes-note_record k n m r h)
    ∙ ap (λ i. wrap64 (pos i)) (unfold total_bytes in omega arith)

-- The pending usage of a key is the bytes of its records, modulo 2 ^ 64.
pub pending_usage_total :
    (k : UsageKey) (rs : List TrafficRecord)
    → pending_bytes (pending_usage rs) k ≡ wrap64 (pos (total_bytes k rs))
unfolding pending_usage pending_bytes lookup
pending_usage_total k rs =
    foldl-note_record k 0 [] rs (sym (wrap64_fits 0 (omega arith)))
    ∙ ap (λ i. wrap64 (pos i)) (omega arith)

note_record-Distinct : (m : Pending) (r : TrafficRecord) → Distinct m → Distinct (note_record m r)
unfolding note_record add_usage
note_record-Distinct m r d = elim (Bool-cases (is_skipped r)) [
  | inl e ↦ rw (e, note_record) d
  | inr e ↦ rw (e, note_record) (insert-Distinct (record_key r) _ m d)
]

foldl-Distinct :
    (m : Pending) (rs : List TrafficRecord) → Distinct m → Distinct (foldl note_record m rs)
foldl-Distinct m [] d = d
foldl-Distinct m (r ∷ rs) d = foldl-Distinct (note_record m r) rs (note_record-Distinct m r d)

pub pending_usage-Distinct : (rs : List TrafficRecord) → Distinct (pending_usage rs)
unfolding pending_usage
pending_usage-Distinct rs = foldl-Distinct [] rs tt

-- Merging adds, key by key.
pub merge_usage_adds :
    (k : UsageKey) (dst src : Pending)
    → Distinct src
    → pending_bytes (merge_usage dst src) k ≡ (elim (lookup k src) [
      | none ↦ pending_bytes dst k
      | some v ↦ add64 (pending_bytes dst k) v
    ])
unfolding merge_usage lookup
merge_usage_adds k dst [] d = refl
merge_usage_adds k dst ((j, v) ∷ src) d = ground (
  arith,
  merge_usage_adds k (add_usage j v dst) src d.1,
  pending_bytes-add_usage j k v dst,
  eq_iff j k,
)
