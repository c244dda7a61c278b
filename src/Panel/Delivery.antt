-- ===== src/Panel/Delivery.antt =====
-- What an acknowledgement of internal/panel/client.go means, for one batch and for the spool.
use xnode_agent.Prelude.{
  Bool, true, Option, none, some, List, [], ◌∷◌, ◌++◌, Str, codes, lookup, In, All-In, Distinct,
  ◌⊎◌, inl, inr, ◌≡◌, refl, sym, subst, ◌∙◌, arith, str_eq,
}
use xnode_agent.Model.{TrafficBatch}
use xnode_agent.Traffic.Spool.{Dir, Result, ok, err, document, list}
use xnode_agent.Traffic.Spool.Held.{IsHeld, IsNamed, AreHeld, list-AreHeld}
use xnode_agent.Traffic.Deliver.{
  World, retry_traffic, retry_batches, retry_batches_prefix, retry_traffic-Kept,
}
use xnode_agent.Web.{Response, Web, is_got, json_body, encoded, is_success, send-got}
use xnode_agent.Panel.{Codec, Client, request, call, traffic_path, traffic_batch}

In-prefix : {A : Type 0} (a : A) (xs ys : List A) → In a xs → In a (xs ++ ys)
In-prefix a [] ys m = absurd m
In-prefix a (x ∷ xs) ys (inl e) = inl e
In-prefix a (x ∷ xs) ys (inr m) = inr (In-prefix a xs ys m)

-- Only batches that the directory holds are acknowledged.
retry_traffic-IsHeld :
    (w : World) (dir : Dir) (b : TrafficBatch)
    → Distinct dir
    → In b (retry_traffic w dir).1
    → IsHeld dir b
unfolding retry_traffic
retry_traffic-IsHeld w dir b d m = go (list dir) (list-AreHeld dir d) m
  where
    retried : Result (List TrafficBatch) → Dir × List TrafficBatch
    retried r = elim r [ err ↦ (dir, []) | ok bs ↦ retry_batches w dir bs ]

    go : (r : Result (List TrafficBatch)) → AreHeld dir r → In b (retried r).1 → IsHeld dir b
    go err h m = absurd m
    go (ok bs) h m =
        let (left, e) = retry_batches_prefix w dir bs in
        All-In (IsHeld dir) b bs h (rw e (In-prefix b (retry_batches w dir bs).1 left m))

module _ (web : Web) (codec : Codec) (c : Client) where
  -- The server has answered with success to a POST of the batch to the node's URL with the token.
  abbrev pub IsAcknowledged : TrafficBatch → Type 0
  IsAcknowledged batch =
      (text : Str) × (r : Response) × (codec.of_batch batch ≡ some text)
      × (web.answer (request c (codes "POST") (traffic_path web codec c batch) (some text))
          ≡ some r)
      × (is_success r.status ≡ true)

  -- The panel as the delivery of traffic meets it.
  unfoldable pub world : (Str → Bool) → World
  world deletes = record { sends = λ b. is_got (traffic_batch web codec c b); deletes = deletes }

  traffic_batch-IsAcknowledged :
      (batch : TrafficBatch)
      → is_got (traffic_batch web codec c batch) ≡ true
      → IsAcknowledged batch
  unfolding traffic_batch
  traffic_batch-IsAcknowledged batch h = go (codec.of_batch batch) refl h
    where
      go :
          (o : Option Str)
          → codec.of_batch batch ≡ o
          → is_got (call web codec c (codes "POST") (traffic_path web codec c batch) (json_body o))
            ≡ true
          → IsAcknowledged batch
      go none q k = absurd (unfold call in unfold encoded in ground (arith, k))
      go (some text) q k =
          let (r, p, s) =
            send-got web (request c (codes "POST") (traffic_path web codec c batch) (some text))
              4096 (λ b. b) (unfold call in unfold encoded in k) in
          (text, r, q, p, s)

  -- After the retries over this client a file of the spool is as it was, or it is gone, it was the document
  -- of a batch, and the panel's server has answered with a status from 200 to 299 to a POST, with the
  -- token, of just that batch to the URL of the node that the batch names. The names in the directory are
  -- distinct, and each batch stands in the file of its own event ID.
  pub retry_traffic-delivers :
      (deletes : Str → Bool) (n : Str) (dir : Dir)
      → Distinct dir
      → IsNamed dir
      → (lookup n (retry_traffic (world deletes) dir).0 ≡ lookup n dir)
        ⊎ ((b : TrafficBatch) × (lookup n dir ≡ some (document b))
            × IsAcknowledged b
            × (lookup n (retry_traffic (world deletes) dir).0 ≡ none))
  unfolding world
  retry_traffic-delivers deletes n dir d named = elim (retry_traffic-Kept (world deletes) n dir) [
    | inl same ↦ inl same
    | inr (b, i, s, f, gone) ↦
        let (name, suffix, held) = retry_traffic-IsHeld (world deletes) dir b d i in
        let at : name ≡ n = named name b suffix held ∙ sym f in
        inr (
          b,
          subst (λ x. lookup x dir ≡ some (document b)) at held,
          traffic_batch-IsAcknowledged b s,
          gone,
        )
  ]
