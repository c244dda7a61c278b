-- ===== src/Traffic/Spool/Totals.antt =====
-- The usage that the spool still holds, which the quota check counts in.
use mathlib.Core.List.{foldl}
use xnode_agent.Prelude.{
  ℕ, ◌+◌, ℤ, pos, wrap64, wrap64_fits, add64, add64-wrap64, add64-wrap64_pos, Option, none, some,
  List, [], ◌∷◌, lookup, ◌≡◌, refl, ap, sym, ◌∙◌, arith,
}
use xnode_agent.Model.{TrafficBatch, UsageKey, key_eq}
use xnode_agent.Policy.Check.{Pending, pending_bytes}
use xnode_agent.Policy.Usage.{
  pending_usage, pending_usage_total, pending_usage-Distinct, merge_usage_adds, total_bytes,
}
use xnode_agent.Traffic.Spool.{Dir, ok, list, merge_batch, spool_pending_usage}

-- The bytes of a key in all batches, as a number that does not wrap.
unfoldable pub batches_bytes : UsageKey → List TrafficBatch → ℕ
batches_bytes k [] = 0
batches_bytes k (b ∷ bs) = total_bytes k b.records + batches_bytes k bs

add_found :
    (o : Option ℤ) (n m : ℕ) (d : ℤ)
    → d ≡ wrap64 (pos n)
    → (elim o [ none ↦ pos 0 | some v ↦ v ]) ≡ wrap64 (pos m)
    → (elim o [ none ↦ d | some v ↦ add64 d v ]) ≡ wrap64 (pos (n + m))
add_found none n m d e h = ground (arith, add64-wrap64 n m, add64-wrap64_pos n 0)
add_found (some v) n m d e h = ground (arith, add64-wrap64 n m)

pending_bytes-merge_batch :
    (k : UsageKey) (n : ℕ) (out : Pending) (b : TrafficBatch)
    → pending_bytes out k ≡ wrap64 (pos n)
    → pending_bytes (merge_batch out b) k ≡ wrap64 (pos (n + total_bytes k b.records))
unfolding merge_batch
pending_bytes-merge_batch k n out b h =
    merge_usage_adds k out (pending_usage b.records) (pending_usage-Distinct b.records)
    ∙ add_found (lookup k (pending_usage b.records)) n (total_bytes k b.records) _ h
        (unfold pending_bytes in pending_usage_total k b.records)

foldl-merge_batch :
    (k : UsageKey) (n : ℕ) (out : Pending) (bs : List TrafficBatch)
    → pending_bytes out k ≡ wrap64 (pos n)
    → pending_bytes (foldl merge_batch out bs) k ≡ wrap64 (pos (n + batches_bytes k bs))
unfolding batches_bytes
foldl-merge_batch k n out [] h = h ∙ ap (λ i. wrap64 (pos i)) (omega arith)
foldl-merge_batch k n out (b ∷ bs) h =
    foldl-merge_batch k (n + total_bytes k b.records) (merge_batch out b) bs
      (pending_bytes-merge_batch k n out b h)
    ∙ ap (λ i. wrap64 (pos i)) (omega arith)

-- Where List succeeds so does PendingUsage, and its bytes for a key are those of the attributed
-- records of all batches in the spool, modulo 2 ^ 64.
pub spool_pending_usage_total :
    (dir : Dir) (bs : List TrafficBatch)
    → list dir ≡ ok bs
    → (out : Pending) × (spool_pending_usage dir ≡ ok out)
      × ((k : UsageKey) → pending_bytes out k ≡ wrap64 (pos (batches_bytes k bs)))
unfolding spool_pending_usage pending_bytes lookup
spool_pending_usage_total dir bs h = (
  foldl merge_batch [] bs,
  rw (h, spool_pending_usage) refl,
  λ k.
      foldl-merge_batch k 0 [] bs (sym (wrap64_fits 0 (omega arith)))
      ∙ ap (λ i. wrap64 (pos i)) (omega arith),
)
