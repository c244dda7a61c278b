-- ===== src/Xray/Config/Served.antt =====
-- The clients that buildInbound of internal/xray/builder.go writes.
use xnode_agent.Prelude.{
  refl, str_eq, int_eq, Option, none, some, List, [], ◌∷◌, ◌++◌, Str, codes, map, filter, Bool,
  true, false, ◌≡◌, ◌≢◌, ◌&&◌, ◌==◌, arith, eq_iff, eq_refl, if◌then◌else◌, ap, to_lower, ◌∙◌, In,
  inl, inr, lookup, dec_eq, Str-discrete, ℕ_discrete,
}
use xnode_agent.Model.{ManagedUser, ManagedInbound}
use xnode_agent.Model.Values.{
  Json, JsonMap, str, num, object, lookup-set_field_same, lookup-set_field_other,
}
use xnode_agent.Xray.Email.{accounting_email}
use xnode_agent.Xray.Config.Inbound.{
  clone_map, client_entry, active_users, client_of, takes_clients, inbound_settings, build_inbound,
}
use xnode_agent.Xray.Config.Document.{find_entry, clients_of}
use xnode_agent.Xray.Config.Written.{has_email-client_of, dressed, clients_of-dressed}
use xnode_agent.Xray.Plan.First.{first_client}

-- The first entry with an email is that of the first enabled user with it.
pub find_entry-map :
    (inb : ManagedInbound) (e : Str) (us : List ManagedUser)
    → find_entry e (map (client_of inb) (active_users us))
      ≡ first_client (client_of inb) (λ u. u.enabled && accounting_email u.id inb.id == e) us
unfolding find_entry active_users first_client filter
find_entry-map inb e [] = refl
find_entry-map inb e (u ∷ us) = go (find_entry-map inb e us) u.enabled
  where
    rest : List ManagedUser
    rest = active_users us

    other : Option Json
    other = first_client (client_of inb) (λ v. v.enabled && accounting_email v.id inb.id == e) us

    go :
        (find_entry e (map (client_of inb) rest) ≡ other)
        → (b : Bool)
        → find_entry e (map (client_of inb) (if b then u ∷ rest else rest))
          ≡ (if b && accounting_email u.id inb.id == e then some (client_of inb u) else other)
    go h false = h
    go h true =
        ground (arith, has_email-client_of inb u e, eq_iff (accounting_email u.id inb.id) e, h)

pub build_inbound-some :
    (inb : ManagedInbound) (m : JsonMap)
    → build_inbound inb ≡ some m
    → m ≡ dressed inb (inbound_settings inb)
unfolding build_inbound
build_inbound-some inb m h = ground (arith, h)

first_client-append :
    (c : ManagedUser → Json) (p : ManagedUser → Bool) (us vs : List ManagedUser) (u : ManagedUser)
    → ((v : ManagedUser) → In v us → p v ≡ false)
    → p u ≡ true
    → first_client c p (us ++ u ∷ vs) ≡ some (c u)
unfolding first_client
first_client-append c p [] vs u h e = rw e refl
first_client-append c p (v ∷ us) vs u h e =
    rw (h v (inl refl)) (first_client-append c p us vs u (λ w i. h w (inr i)) e)

-- What the panel sent as the credential; none is an empty one.
abbrev pub credential_of : ManagedUser → JsonMap
credential_of u = elim u.credential [ none ↦ [] | some m ↦ m ]

client_entry-email :
    (inb : ManagedInbound) (u : ManagedUser)
    → lookup (codes "email") (client_entry inb u) ≡ some (str (accounting_email u.id inb.id))
unfolding client_entry dec_eq Str-discrete ℕ_discrete
client_entry-email inb u =
    lookup-set_field_other (codes "level") (codes "email") _ _ refl
    ∙ lookup-set_field_same (codes "email") _ _

client_entry-level :
    (inb : ManagedInbound) (u : ManagedUser)
    → lookup (codes "level") (client_entry inb u) ≡ some (num u.level)
unfolding client_entry
client_entry-level inb u = lookup-set_field_same (codes "level") _ _

client_entry-other :
    (inb : ManagedInbound) (u : ManagedUser) (k : Str)
    → k ≢ codes "email"
    → k ≢ codes "level"
    → lookup k (client_entry inb u) ≡ lookup k (credential_of u)
unfolding client_entry clone_map
client_entry-other inb u k e l =
    lookup-set_field_other (codes "level") k _ _ (ground (arith, l, eq_iff (codes "level") k))
    ∙ lookup-set_field_other (codes "email") k _ _ (ground (arith, e, eq_iff (codes "email") k))
    ∙ go u.credential
  where
    go :
        (o : Option JsonMap)
        → lookup k (clone_map o) ≡ lookup k (elim o as (λ _. JsonMap) [ none ↦ [] | some m ↦ m ])
    go none = refl
    go (some m) = refl

-- In the document that buildInbound writes for an inbound whose protocol has clients, the first client under
-- the accounting email of an enabled user that no enabled user before it has is an object with that
-- email, the level of the user, and in every other field what its credential has.
pub build_inbound_serves :
    (inb : ManagedInbound) (m : JsonMap) (us vs : List ManagedUser) (u : ManagedUser) (k : Str)
    → build_inbound inb ≡ some m
    → takes_clients (to_lower inb.protocol) ≡ true
    → inb.users ≡ us ++ u ∷ vs
    → u.enabled ≡ true
    → ((v : ManagedUser)
        → In v us
        → (v.enabled && accounting_email v.id inb.id == accounting_email u.id inb.id) ≡ false)
    → k ≢ codes "email"
    → k ≢ codes "level"
    → (fields : JsonMap) × (find_entry (accounting_email u.id inb.id) (clients_of m)
        ≡ some (object fields))
      × (lookup (codes "email") fields ≡ some (str (accounting_email u.id inb.id)))
      × (lookup (codes "level") fields ≡ some (num u.level))
      × (lookup k fields ≡ lookup k (credential_of u))
build_inbound_serves inb m us vs u k b t parts on first e l =
    let email = accounting_email u.id inb.id in
    (
      client_entry inb u,
      ap (λ d. find_entry email (clients_of d)) (build_inbound-some inb m b)
          ∙ ap (find_entry email) (clients_of-dressed inb t)
          ∙ find_entry-map inb email inb.users
          ∙ ap
              (first_client (client_of inb)
                (λ v. v.enabled && accounting_email v.id inb.id == email))
              parts
          ∙ first_client-append (client_of inb)
              (λ v. v.enabled && accounting_email v.id inb.id == email) us vs u first
              (ground (arith, on, eq_refl email)),
      client_entry-email inb u,
      client_entry-level inb u,
      client_entry-other inb u k e l,
    )
