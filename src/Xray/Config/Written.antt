-- ===== src/Xray/Config/Written.antt =====
-- What stands in a document that buildInbound of internal/xray/builder.go has written.
use xnode_agent.Prelude.{
  refl, str_eq, nat_eq, ◌⊎◌, Option, none, some, List, [], Str, map, lookup, codes, Bool, true,
  false, ◌≡◌, ◌&&◌, ◌==◌, not, arith, eq_iff, if◌then◌else◌, ap, sym, to_lower, ◌∙◌, dec_eq,
  Str-discrete, length, inl, inr,
}
use xnode_agent.Model.{ManagedUser, ManagedInbound}
use xnode_agent.Model.Values.{
  Json, JsonMap, null, num, str, object, as_text, set_field, lookup-set_field_same,
  lookup-set_field_other,
}
use xnode_agent.Xray.Email.{accounting_email}
use xnode_agent.Xray.Config.Inbound.{
  is_buildable, clone_map, active_users, client_entry, client_of, takes_clients, inbound_settings,
  set_map, inbound_head, build_inbound, entries,
}
use xnode_agent.Xray.Config.Document.{
  text_of, list_of, map_of, map_of-object, list_of-array, has_email, settings_of, entries_of,
  clients_of, blank, without_users, blank-set_field,
}

client_entry-email :
    (inb : ManagedInbound) (u : ManagedUser)
    → lookup (codes "email") (client_entry inb u) ≡ some (str (accounting_email u.id inb.id))
unfolding client_entry dec_eq Str-discrete
client_entry-email inb u =
    lookup-set_field_other (codes "level") (codes "email") (num u.level) _ refl
    ∙ lookup-set_field_same (codes "email") (str (accounting_email u.id inb.id))
        (clone_map u.credential)

pub has_email-client_of :
    (inb : ManagedInbound) (u : ManagedUser) (e : Str)
    → has_email e (client_of inb u) ≡ (accounting_email u.id inb.id == e)
unfolding has_email text_of as_text
has_email-client_of inb u e =
    ap
      (λ (m : JsonMap). elim (text_of (lookup (codes "email") m)) [
        | none ↦ false
        | some t ↦ t == e
      ])
      (map_of-object (client_entry inb u))
    ∙ ap (λ (o : Option Json). elim (text_of o) [ none ↦ false | some t ↦ t == e ])
        (client_entry-email inb u)

-- The document around the settings.
abbrev pub dressed : ManagedInbound → JsonMap → JsonMap
dressed inb settings = set_map (codes "sniffing") inb.sniffing (
    set_map (codes "streamSettings") inb.stream_settings
      (set_field (codes "settings") (object settings) (inbound_head inb)))

pub build_inbound-dressed :
    (inb : ManagedInbound)
    → is_buildable inb ≡ true
    → build_inbound inb ≡ some (dressed inb (inbound_settings inb))
unfolding build_inbound
build_inbound-dressed inb b = rw b refl

set_map_other :
    (k j : Str) (v : Option JsonMap) (m : JsonMap)
    → (k == j) ≡ false
    → lookup j (set_map k v m) ≡ lookup j m
unfolding set_map
set_map_other k j none m h = refl
set_map_other k j (some v) m h = lookup-set_field_other k j (object v) m h

dressed_other :
    (inb : ManagedInbound) (s : JsonMap) (j : Str)
    → (codes "sniffing" == j) ≡ false
    → (codes "streamSettings" == j) ≡ false
    → (codes "settings" == j) ≡ false
    → lookup j (dressed inb s) ≡ lookup j (inbound_head inb)
dressed_other inb s j p q r =
    set_map_other (codes "sniffing") j inb.sniffing _ p
    ∙ set_map_other (codes "streamSettings") j inb.stream_settings _ q
    ∙ lookup-set_field_other (codes "settings") j (object s) (inbound_head inb) r

head_listen :
    (inb : ManagedInbound) (m : JsonMap) (j : Str) (b : Bool)
    → (codes "listen" == j) ≡ false
    → lookup j (if b then m else set_field (codes "listen") (str inb.listen) m) ≡ lookup j m
head_listen inb m j true h = refl
head_listen inb m j false h = lookup-set_field_other (codes "listen") j (str inb.listen) m h

pub dressed-tag :
    (inb : ManagedInbound) (s : JsonMap) → lookup (codes "tag") (dressed inb s) ≡ some (str inb.tag)
unfolding inbound_head lookup dec_eq Str-discrete
dressed-tag inb s =
    dressed_other inb s (codes "tag") refl refl refl
    ∙ head_listen inb _ (codes "tag") (inb.listen == []) refl

pub dressed-protocol :
    (inb : ManagedInbound) (s : JsonMap)
    → lookup (codes "protocol") (dressed inb s) ≡ some (str inb.protocol)
unfolding inbound_head lookup dec_eq Str-discrete
dressed-protocol inb s =
    dressed_other inb s (codes "protocol") refl refl refl
    ∙ head_listen inb _ (codes "protocol") (inb.listen == []) refl

pub settings_of-dressed : (inb : ManagedInbound) (s : JsonMap) → settings_of (dressed inb s) ≡ s
unfolding settings_of dec_eq Str-discrete
settings_of-dressed inb s =
    ap map_of (
      set_map_other (codes "sniffing") (codes "settings") inb.sniffing _ refl
      ∙ set_map_other (codes "streamSettings") (codes "settings") inb.stream_settings _ refl
      ∙ lookup-set_field_same (codes "settings") (object s) (inbound_head inb))
    ∙ map_of-object s

-- The entries that were set are those that are read.
entries_of-dressed :
    (inb : ManagedInbound) (s : JsonMap) (k : Str) (us : List ManagedUser)
    → entries_of k (dressed inb (set_field k (entries inb us) s)) ≡ map (client_of inb) us
unfolding entries_of
entries_of-dressed inb s k us =
    ap (λ m. list_of (lookup k m)) (settings_of-dressed inb (set_field k (entries inb us) s))
    ∙ ap list_of (lookup-set_field_same k (entries inb us) s)
    ∙ list_of-array _

pub clients_of-dressed :
    (inb : ManagedInbound)
    → takes_clients (to_lower inb.protocol) ≡ true
    → clients_of (dressed inb (inbound_settings inb)) ≡ map (client_of inb) (active_users inb.users)
unfolding clients_of inbound_settings
clients_of-dressed inb h =
    rw h
      (entries_of-dressed inb (clone_map inb.settings) (codes "clients") (active_users inb.users))

-- The inbound is a WireGuard inbound with an enabled user.
abbrev pub has_peers : ManagedInbound → Bool
has_peers inb =
    to_lower inb.protocol == codes "wireguard" && not (length (active_users inb.users) == 0)

pub peers_of-dressed :
    (inb : ManagedInbound)
    → takes_clients (to_lower inb.protocol) ≡ false
    → has_peers inb ≡ true
    → entries_of (codes "peers") (dressed inb (inbound_settings inb))
      ≡ map (client_of inb) (active_users inb.users)
unfolding inbound_settings
peers_of-dressed inb h w =
    rw (h, w)
      (entries_of-dressed inb (clone_map inb.settings) (codes "peers") (active_users inb.users))

pub inbound_settings_plain :
    (inb : ManagedInbound)
    → takes_clients (to_lower inb.protocol) ≡ false
    → has_peers inb ≡ false
    → inbound_settings inb ≡ clone_map inb.settings
unfolding inbound_settings
inbound_settings_plain inb h w = rw (h, w) refl

-- Settings do not show in a document without them.
blank-set_map :
    (k j : Str) (v : Option JsonMap) (m n : JsonMap)
    → (j == k) ≡ false
    → blank k m ≡ blank k n
    → blank k (set_map j v m) ≡ blank k (set_map j v n)
unfolding set_map
blank-set_map k j none m n d h = h
blank-set_map k j (some v) m n d h =
    blank-set_field k j (object v) m
    ∙ ap (set_field j (if j == k then null else object v)) h
    ∙ sym (blank-set_field k j (object v) n)

blank-same :
    (k : Str) (v w : Json) (m : JsonMap) → blank k (set_field k v m) ≡ blank k (set_field k w m)
blank-same k v w m = ground (arith, blank-set_field k k v m, blank-set_field k k w m, eq_iff k k)

pub blank-dressed :
    (inb : ManagedInbound) (s s' : JsonMap)
    → blank (codes "settings") (dressed inb s) ≡ blank (codes "settings") (dressed inb s')
unfolding dec_eq Str-discrete
blank-dressed inb s s' = blank-set_map (codes "settings") (codes "sniffing") inb.sniffing _ _ refl (
    blank-set_map (codes "settings") (codes "streamSettings") inb.stream_settings _ _ refl
      (blank-same (codes "settings") (object s) (object s') (inbound_head inb)))

-- Nor do clients and peers show in settings without them.
without_entries : JsonMap → JsonMap
without_entries s = blank (codes "peers") (blank (codes "clients") s)

without_entries-clients :
    (v w : Json) (s : JsonMap)
    → without_entries (set_field (codes "clients") v s)
      ≡ without_entries (set_field (codes "clients") w s)
unfolding without_entries
without_entries-clients v w s = ap (blank (codes "peers")) (blank-same (codes "clients") v w s)

without_entries-peers :
    (v w : Json) (s : JsonMap)
    → without_entries (set_field (codes "peers") v s)
      ≡ without_entries (set_field (codes "peers") w s)
unfolding without_entries dec_eq Str-discrete
without_entries-peers v w s =
    ap (blank (codes "peers")) (blank-set_field (codes "clients") (codes "peers") v s)
    ∙ blank-same (codes "peers") v w (blank (codes "clients") s)
    ∙ sym (ap (blank (codes "peers")) (blank-set_field (codes "clients") (codes "peers") w s))

settings_users :
    (inb : ManagedInbound) (us : List ManagedUser)
    → (takes_clients (to_lower inb.protocol) ≡ true)
      ⊎ (has_peers inb ≡ has_peers (record inb { users = us }))
    → without_entries (inbound_settings inb)
      ≡ without_entries (inbound_settings (record inb { users = us }))
unfolding inbound_settings
settings_users inb us (inl h) = rw h (without_entries-clients _ _ (clone_map inb.settings))
settings_users inb us (inr h) = ground (
  arith,
  h,
  without_entries-clients (entries inb (active_users inb.users)) (entries inb (active_users us))
      (clone_map inb.settings),
  without_entries-peers (entries inb (active_users inb.users)) (entries inb (active_users us))
      (clone_map inb.settings),
)

-- Where the users of an inbound change, its document stays the same but for them.
pub without_users-dressed :
    (inb : ManagedInbound) (us : List ManagedUser)
    → (takes_clients (to_lower inb.protocol) ≡ true)
      ⊎ (has_peers inb ≡ has_peers (record inb { users = us }))
    → without_users (dressed inb (inbound_settings inb))
      ≡ without_users (dressed inb (inbound_settings (record inb { users = us })))
unfolding without_users without_entries
without_users-dressed inb us h =
    let s = inbound_settings inb in
    let t = inbound_settings (record inb { users = us }) in
    λ i. (
      blank-dressed inb s t i,
      (ap (λ m. blank (codes "peers") (blank (codes "clients") m)) (settings_of-dressed inb s)
            ∙ unfold without_entries in
              settings_users inb us h
              ∙ sym (
                  ap (λ m. blank (codes "peers") (blank (codes "clients") m))
                    (settings_of-dressed inb t)))
          i,
    )
