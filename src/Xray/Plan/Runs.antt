-- ===== src/Xray/Plan/Runs.antt =====
-- A core that runs an inbound as it would if it had been started with the document that buildInbound
-- of internal/xray/builder.go writes for it, and when that is so of another inbound too.
use xnode_agent.Prelude.{
  ◌⊎◌, true, false, not, ◌&&◌, none, some, [], Str, codes, to_lower, length, inl, inr, ◌==◌, str_eq,
  nat_eq, eq_iff, ◌≡◌, ap, sym, ◌∙◌, arith, Bool-cases,
}
use xnode_agent.Model.{ManagedInbound}
use xnode_agent.Model.Values.{JsonMap}
use xnode_agent.Xray.Config.Inbound.{
  is_buildable, takes_clients, active_users, client_entry, inbound_settings, inbound_head,
  build_inbound,
}
use xnode_agent.Xray.Config.Document.{find_entry, without_users}
use xnode_agent.Xray.Config.Written.{
  dressed, build_inbound-dressed, dressed-protocol, clients_of-dressed, peers_of-dressed, has_peers,
  inbound_settings_plain, without_users-dressed,
}
use xnode_agent.Xray.Config.Served.{find_entry-map, build_inbound-some}
use xnode_agent.Xray.Plan.Equal.{inbound_base_equal, users_runtime_equal, inbound_eq}
use xnode_agent.Xray.Plan.Apply.{Core}
use xnode_agent.Xray.Plan.Hot.{first_enabled}
use xnode_agent.Xray.Plan.Same.{AreNamed, same_clients, same_active}

-- The core has the inbound and, under each email, the user that it makes of the inbound's document.
abbrev pub Runs : (core : Core) → ManagedInbound → core.State → Type 0
Runs core inb s =
    (m : JsonMap) × (build_inbound inb ≡ some m)
    × (core.rest inb.tag s ≡ some (without_users m))
    × ((e : Str) → core.find inb.tag e s ≡ core.users m e)

abbrev pub document_of : ManagedInbound → JsonMap
document_of inb = dressed inb (inbound_settings inb)

pub Runs-document_of :
    (core : Core) (inb : ManagedInbound) (s : core.State)
    → Runs core inb s
    → (core.rest inb.tag s ≡ some (without_users (document_of inb)))
      × ((e : Str) → core.find inb.tag e s ≡ core.users (document_of inb) e)
Runs-document_of core inb s (m, b, r, f) =
    let q = build_inbound-some inb m b in
    (r ∙ ap (λ d. some (without_users d)) q, λ e. f e ∙ ap (λ d. core.users d e) q)

pub document_of-Runs :
    (core : Core) (inb : ManagedInbound) (s : core.State)
    → is_buildable inb ≡ true
    → core.rest inb.tag s ≡ some (without_users (document_of inb))
    → ((e : Str) → core.find inb.tag e s ≡ core.users (document_of inb) e)
    → Runs core inb s
document_of-Runs core inb s b r f = (document_of inb, build_inbound-dressed inb b, r, f)

-- What the core makes of the users of a document: the enabled users.
pub users-first_enabled :
    (core : Core) (inb : ManagedInbound) (e : Str)
    → takes_clients (to_lower inb.protocol) ≡ true
    → core.users (document_of inb) e ≡ first_enabled inb e
users-first_enabled core inb e h =
    core.users_clients (document_of inb) inb.protocol e
      (dressed-protocol inb (inbound_settings inb)) h
    ∙ ap (find_entry e) (clients_of-dressed inb h)
    ∙ find_entry-map inb e inb.users

peers-first_enabled :
    (core : Core) (inb : ManagedInbound) (e : Str)
    → takes_clients (to_lower inb.protocol) ≡ false
    → has_peers inb ≡ true
    → core.users (document_of inb) e ≡ first_enabled inb e
peers-first_enabled core inb e h w =
    core.users_peers (document_of inb) inb.protocol e (dressed-protocol inb (inbound_settings inb))
      (ground (arith, w))
    ∙ ap (find_entry e) (peers_of-dressed inb h w)
    ∙ find_entry-map inb e inb.users

-- Inbounds that differ in users and metadata only.
module _ (old next : ManagedInbound) (base : inbound_base_equal old next ≡ true) where
  same_base :
      record old { users = []; metadata = none } ≡ record next { users = []; metadata = none }
  unfolding inbound_base_equal
  same_base = (eq_iff _ _).0 base

  pub base_equal_id : next.id ≡ old.id
  base_equal_id = sym (ap (λ (x : ManagedInbound). x.id) same_base)

  pub base_equal_tag : next.tag ≡ old.tag
  base_equal_tag = sym (ap (λ (x : ManagedInbound). x.tag) same_base)

  pub base_equal_protocol : next.protocol ≡ old.protocol
  base_equal_protocol = sym (ap (λ (x : ManagedInbound). x.protocol) same_base)

  -- The new inbound's document is that of the old inbound with the new users.
  pub document_of-base :
      document_of next ≡ dressed old (inbound_settings (record old { users = next.users }))
  unfolding inbound_settings inbound_head client_entry
  document_of-base =
      sym (ap (λ x. dressed x (inbound_settings (record x { users = next.users }))) same_base)

  pub same_rest :
      (takes_clients (to_lower old.protocol) ≡ true)
        ⊎ ((length (active_users old.users) == 0) ≡ (length (active_users next.users) == 0))
      → without_users (document_of old) ≡ without_users (document_of next)
  same_rest h =
      without_users-dressed old next.users (elim h [
        | inl t ↦ inl t
        | inr z ↦ inr (ap (λ b. to_lower old.protocol == codes "wireguard" && not b) z)
      ])
      ∙ sym (ap without_users document_of-base)

  module _ (named : AreNamed old next) (equal : users_runtime_equal old.users next.users ≡ true)
      (core : Core) where
    same_users : (e : Str) → core.users (document_of old) e ≡ core.users (document_of next) e
    same_users e = elim (Bool-cases (takes_clients (to_lower old.protocol))) [
      | inl t ↦
          users-first_enabled core old e t
          ∙ same_clients old next base_equal_id named equal e
          ∙ sym (
              users-first_enabled core next e
                (ap (λ p. takes_clients (to_lower p)) base_equal_protocol ∙ t))
      | inr t ↦
          let t' = ap (λ p. takes_clients (to_lower p)) base_equal_protocol ∙ t in
          let z = same_active old next base_equal_id named equal in
          elim (Bool-cases (has_peers old)) [
            | inl w ↦
                peers-first_enabled core old e t w
                ∙ same_clients old next base_equal_id named equal e
                ∙ sym
                    (peers-first_enabled core next e t' (ground (arith, w, z, base_equal_protocol)))
            | inr w ↦
                ap (λ d. core.users (dressed old d) e)
                  (inbound_settings_plain old t w
                    ∙ sym (
                        inbound_settings_plain (record old { users = next.users }) t
                          (ground (arith, w, z))))
                ∙ sym (ap (λ d. core.users d e) document_of-base)
          ]
    ]

    -- Where the users are the same too, a core that runs the one inbound runs the other.
    pub Runs-same : (s : core.State) → is_buildable next ≡ true → Runs core old s → Runs core next s
    Runs-same s b runs =
        let (r, f) = Runs-document_of core old s runs in
        document_of-Runs core next s b
          (ap (λ t. core.rest t s) base_equal_tag
            ∙ r
            ∙ ap some (same_rest (inr (same_active old next base_equal_id named equal))))
          (λ e. ap (λ t. core.find t e s) base_equal_tag ∙ f e ∙ same_users e)
