-- ===== src/Traffic/Deliver.antt =====
-- retryTraffic and collectTraffic of internal/agent/agent.go. The panel's answers and the removals
-- that work are functions of the batch; `acked` lists the batches that the panel acknowledged.
use xnode_agent.Prelude.{
  ℤ, Bool, true, false, not, none, some, List, [], ◌∷◌, ◌++◌, Str, lookup, lookup-insert_self,
  lookup-remove, if◌then◌else◌, ◌==◌, str_eq, eq_iff, ◌≡◌, refl, ap, ◌∙◌, ◌⊎◌, inl, inr, arith, In,
  Bool-cases,
}
use xnode_agent.Model.{TrafficRecord, TrafficBatch}
use xnode_agent.Traffic.Spool.{
  document, Dir, Result, ok, err, Enqueuing, enqueue, enqueue_steps, completes, mkdir_fails,
  write_fails, rename_fails, delete, list, file_name,
}

-- The panel acknowledges a batch; the removal of an event's file works.
pub record World : Type 0 where
  pub sends : TrafficBatch → Bool
  pub deletes : Str → Bool

-- One round of retryTraffic, which returns at the first failure: the panel's answer, the result of
-- the removal and the directory after it, and what the later rounds would do.
unfoldable pub retry_round :
    Bool
    → Result (Unit {0})
    → Dir
    → Dir
    → TrafficBatch
    → Dir × List TrafficBatch
    → Dir × List TrafficBatch
retry_round false r dir dir' b rest = (dir, [])
retry_round true err dir dir' b rest = (dir', b ∷ [])
retry_round true (ok _) dir dir' b rest = (rest.0, b ∷ rest.1)

unfoldable pub retry_batches : World → Dir → List TrafficBatch → Dir × List TrafficBatch
retry_batches w dir [] = (dir, [])
retry_batches w dir (b ∷ bs) =
    let (r, dir') = delete (w.deletes b.event_id) b.event_id dir in
    retry_round (w.sends b) r dir dir' b (retry_batches w dir' bs)

unfoldable pub retry_traffic : World → Dir → Dir × List TrafficBatch
retry_traffic w dir = elim (list dir) [ err ↦ (dir, []) | ok bs ↦ retry_batches w dir bs ]

-- What the core's counters gave when they were read and reset.
abbrev pub Counters : Type 0
Counters = Result (List TrafficRecord)

-- From the batch on: spool it, send it, and forget it once acknowledged.
unfoldable pub spool_and_send :
    World → Enqueuing → TrafficBatch → Dir → Result (Unit {0}) × Dir × List TrafficBatch
spool_and_send w io batch dir =
    let (r, dir') = enqueue io batch dir in
    let (gone, dir'') = delete (w.deletes batch.event_id) batch.event_id dir' in
    elim r [
      | err ↦ (err, dir', [])
      | ok _ ↦ if w.sends batch then (gone, dir'', batch ∷ []) else (ok tt, dir', [])
    ]

unfoldable pub collect_traffic :
    World
    → Enqueuing
    → Bool
    → Counters
    → Str
    → Str
    → ℤ
    → Dir
    → Result (Unit {0}) × Dir × List TrafficBatch
collect_traffic w io running counters event_id node_id now dir =
    if not running then (ok tt, dir, []) else elim counters [
      | err ↦ (err, dir, [])
      | ok records ↦ elim records [
        | [] ↦ (ok tt, dir, [])
        | r ∷ rs ↦
            spool_and_send w io
              (record {
                event_id = event_id;
                node_id = node_id;
                collected_at = now;
                records = r ∷ rs;
              })
              dir
      ]
    ]

lookup-delete :
    (io : Bool) (e n : Str) (dir : Dir)
    → (lookup n (delete io e dir).1 ≡ lookup n dir)
      ⊎ ((n ≡ file_name e) × (lookup n (delete io e dir).1 ≡ none))
unfolding delete
lookup-delete io e n dir = ground (arith, lookup-remove (file_name e) n dir, eq_iff (file_name e) n)

-- The file is as it was, or it is gone and the panel acknowledged its batch.
abbrev pub Kept : World → Str → Dir → Dir × List TrafficBatch → Type 0
Kept w n dir after =
    (lookup n after.0 ≡ lookup n dir)
    ⊎ ((b : TrafficBatch) × In b after.1
        × (w.sends b ≡ true)
        × (n ≡ file_name b.event_id)
        × (lookup n after.0 ≡ none))

retry_round-Kept :
    (w : World) (n : Str) (b : TrafficBatch) (s : Bool) (r : Result (Unit {0})) (dir dir' : Dir)
    (rest : Dir × List TrafficBatch)
    → w.sends b ≡ s
    → (lookup n dir' ≡ lookup n dir) ⊎ ((n ≡ file_name b.event_id) × (lookup n dir' ≡ none))
    → Kept w n dir' rest
    → Kept w n dir (retry_round s r dir dir' b rest)
unfolding retry_round
retry_round-Kept w n b false r dir dir' rest e d k = inl refl
retry_round-Kept w n b true err dir dir' rest e (inl same) k = inl same
retry_round-Kept w n b true err dir dir' rest e (inr (f, gone)) k = inr (b, inl refl, e, f, gone)
retry_round-Kept w n b true (ok _) dir dir' rest e d (inr (c, m, s, f, gone)) =
    inr (c, inr m, s, f, gone)
retry_round-Kept w n b true (ok _) dir dir' rest e (inl same) (inl k) = inl (k ∙ same)
retry_round-Kept w n b true (ok _) dir dir' rest e (inr (f, gone)) (inl k) =
    inr (b, inl refl, e, f, k ∙ gone)

retry_batches-Kept :
    (w : World) (n : Str) (dir : Dir) (bs : List TrafficBatch)
    → Kept w n dir (retry_batches w dir bs)
unfolding retry_batches
retry_batches-Kept w n dir [] = inl refl
retry_batches-Kept w n dir (b ∷ bs) =
    let (r, dir') = delete (w.deletes b.event_id) b.event_id dir in
    retry_round-Kept w n b (w.sends b) r dir dir' (retry_batches w dir' bs) refl
      (lookup-delete (w.deletes b.event_id) b.event_id n dir) (retry_batches-Kept w n dir' bs)

-- After the retries a file of the spool is as it was, or it is gone, it was the file of a batch and
-- the panel acknowledged that batch.
pub retry_traffic-Kept : (w : World) (n : Str) (dir : Dir) → Kept w n dir (retry_traffic w dir)
unfolding retry_traffic
retry_traffic-Kept w n dir = go (list dir)
  where
    go :
        (r : Result (List TrafficBatch))
        → Kept w n dir (elim r [ err ↦ (dir, []) | ok bs ↦ retry_batches w dir bs ])
    go err = inl refl
    go (ok bs) = retry_batches-Kept w n dir bs

retry_round-prefix :
    (b : TrafficBatch) (s : Bool) (r : Result (Unit {0})) (dir dir' : Dir) (bs : List TrafficBatch)
    (rest : Dir × List TrafficBatch)
    → ((left : List TrafficBatch) × (bs ≡ rest.1 ++ left))
    → (left : List TrafficBatch) × (b ∷ bs ≡ (retry_round s r dir dir' b rest).1 ++ left)
unfolding retry_round
retry_round-prefix b false r dir dir' bs rest k = (b ∷ bs, refl)
retry_round-prefix b true err dir dir' bs rest k = (bs, refl)
retry_round-prefix b true (ok _) dir dir' bs rest (left, e) = (left, ap (◌∷◌ b) e)

-- The acknowledged batches are the first ones in the order of List.
pub retry_batches_prefix :
    (w : World) (dir : Dir) (bs : List TrafficBatch)
    → (left : List TrafficBatch) × (bs ≡ (retry_batches w dir bs).1 ++ left)
unfolding retry_batches
retry_batches_prefix w dir [] = ([], refl)
retry_batches_prefix w dir (b ∷ bs) =
    let (r, dir') = delete (w.deletes b.event_id) b.event_id dir in
    retry_round-prefix b (w.sends b) r dir dir' bs (retry_batches w dir' bs)
      (retry_batches_prefix w dir' bs)

lookup-enqueue_steps :
    (io : Enqueuing) (batch : TrafficBatch) (dir : Dir)
    → (enqueue_steps io batch dir).0 ≡ ok tt
    → lookup (file_name batch.event_id) (enqueue_steps io batch dir).1 ≡ some (document batch)
unfolding enqueue_steps
lookup-enqueue_steps mkdir_fails batch dir h = ground arith
lookup-enqueue_steps write_fails batch dir h = ground arith
lookup-enqueue_steps rename_fails batch dir h = ground arith
lookup-enqueue_steps completes batch dir h = lookup-insert_self (file_name batch.event_id) _ _

lookup-enqueue :
    (io : Enqueuing) (batch : TrafficBatch) (dir : Dir)
    → (enqueue io batch dir).0 ≡ ok tt
    → lookup (file_name batch.event_id) (enqueue io batch dir).1 ≡ some (document batch)
unfolding enqueue
lookup-enqueue io batch dir h = elim (Bool-cases (batch.event_id == [])) [
  | inl e ↦ absurd (ground (arith, e))
  | inr e ↦ rw (e, enqueue) (lookup-enqueue_steps io batch dir (rw (e, enqueue) at h))
]

-- Where Enqueue succeeds, the panel has acknowledged the batch, or it has not and the batch's file is
-- in the spool.
pub spool_and_send_keeps :
    (w : World) (io : Enqueuing) (batch : TrafficBatch) (dir : Dir)
    → (enqueue io batch dir).0 ≡ ok tt
    → (((spool_and_send w io batch dir).2 ≡ batch ∷ []) × (w.sends batch ≡ true))
      ⊎ (((spool_and_send w io batch dir).2 ≡ [])
          × (w.sends batch ≡ false)
          × (lookup (file_name batch.event_id) (spool_and_send w io batch dir).1
              ≡ some (document batch)))
unfolding spool_and_send
spool_and_send_keeps w io batch dir h = elim (Bool-cases (w.sends batch)) [
  | inl e ↦ inl (ground (arith, e, h))
  | inr e ↦ inr (ground (arith, e, h, lookup-enqueue io batch dir))
]
