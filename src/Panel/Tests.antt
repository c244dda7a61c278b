-- ===== src/Panel/Tests.antt =====
-- A panel that acknowledges every request.
use xnode_agent.Prelude.{
  true, some, none, [], ◌∷◌, codes, pos, lookup, ◌⊎◌, ◌≡◌, ◌==◌, ◌++◌, eq_iff, ap, sym, refl, ◌∙◌,
  Bool-cases, inl, inr, arith, dec_eq, Str-discrete, ℕ_discrete, str_eq,
}
use xnode_agent.Traffic.Spool.Held.{IsNamed}
use xnode_agent.Model.{TrafficBatch}
use xnode_agent.Traffic.Spool.{Dir, document, file_name}
use xnode_agent.Traffic.Deliver.{retry_traffic}
use xnode_agent.Web.{Web}
use xnode_agent.Panel.{Codec, Client, new_client}
use xnode_agent.Panel.Delivery.{IsAcknowledged, world, retry_traffic-delivers}

abbrev web : Web
web = record { is_valid = λ m u. true; answer = λ q. some (record { status = 204; body = [] }) }

-- A batch is sent as its event ID.
abbrev codec : Codec
codec = record {
  of_heartbeat = λ hb. none;
  of_batch = λ b. some b.event_id;
  of_report = λ r. none;
  to_state = λ s. none;
}

abbrev client : Client
client = new_client (codes "https://panel/") (codes "t")

abbrev waiting : TrafficBatch
waiting = record { event_id = codes "e1"; node_id = codes "n"; collected_at = pos 1; records = [] }

abbrev dir : Dir
dir = (codes "e1.json", document waiting) ∷ []

-- The only file is that of the waiting batch.
dir-IsNamed : IsNamed dir
unfolding lookup dec_eq Str-discrete ℕ_discrete
dir-IsNamed name b suffix held = elim (Bool-cases (codes "e1.json" == name)) [
  | inl e ↦
      let found : waiting ≡ b = ground (arith, held, e) in
      sym ((eq_iff (codes "e1.json") name).0 e)
      ∙ unfold file_name in ap (λ (x : TrafficBatch). x.event_id ++ codes ".json") found
  | inr e ↦ absurd (ground (arith, held, e))
]

retry_traffic-delivers_example :
    (lookup (codes "e1.json") (retry_traffic (world web codec client (λ e. true)) dir).0
      ≡ lookup (codes "e1.json") dir)
    ⊎ ((b : TrafficBatch) × (lookup (codes "e1.json") dir ≡ some (document b))
        × IsAcknowledged web codec client b
        × (lookup (codes "e1.json") (retry_traffic (world web codec client (λ e. true)) dir).0
            ≡ none))
retry_traffic-delivers_example =
    retry_traffic-delivers web codec client (λ e. true) (codes "e1.json") dir
      (unfold lookup in refl, tt) dir-IsNamed
