-- ===== src/Xray/TableCore.antt =====
-- The least core that behaves as documented: a function from tags to inbounds and their users.
mod Tests
use xnode_agent.Prelude.{
  true, false, ◌&&◌, Option, none, some, List, [], ◌∷◌, Str, codes, Bool, lookup, is_some, inl, inr,
  Bool-cases, Option-cases, if◌then◌else◌, ◌==◌, str_eq, eq_iff, eq_refl, ◌≡◌, ◌≢◌, refl, ap, sym,
  ◌∙◌, subst, In, to_lower, arith, dec_eq, is_yes, Str-discrete, ℤ-discrete, ℕ_discrete,
}
use xnode_agent.Model.{ManagedUser, ManagedInbound, DesiredState}
use xnode_agent.Model.Values.{
  Json, JsonMap, str, array, object, as_object, as_text, of_items, to_items, as_object-object,
  as_array-array,
}
use xnode_agent.Samples.{phone, laptop, inbound, state}
use xnode_agent.Xray.Config.Inbound.{
  is_buildable, takes_clients, one_inbound, build_inbound, inbound_settings,
}
use xnode_agent.Xray.Config.Document.{
  text_of, list_of, map_of, has_email, find_entry, entries_of, clients_of, without_users,
  list_of-array,
}
use xnode_agent.Xray.Plan.Apply.{Core}

-- An inbound of the core.
record Slot : Type 0 where
  kept : JsonMap × JsonMap
  client : Str → Option Json

abbrev Table : Type 0
Table = Str → Option Slot

abbrev put : Str → Option Slot → Table → Table
put tag v s = λ t. if t == tag then v else s t

-- The users of a document, by its protocol.
users_of : Option Str → JsonMap → List Json
users_of none m = []
users_of (some p) m =
    if takes_clients (to_lower p)
    then clients_of m
    else if to_lower p == codes "wireguard"
    then entries_of (codes "peers") m
    else []

protocol_of : JsonMap → Option Str
protocol_of m = text_of (lookup (codes "protocol") m)

abbrev read : JsonMap → Str → Option Json
read m e = find_entry e (users_of (protocol_of m) m)

-- The inbound of a document, with its tag.
inbound_in : JsonMap → Option JsonMap
inbound_in doc = elim (list_of (lookup (codes "inbounds") doc)) [ [] ↦ none | v ∷ _ ↦ as_object v ]

tag_in : JsonMap → Option Str
tag_in m = text_of (lookup (codes "tag") m)

add_slot : JsonMap → Option Str → Table → Option Table
unfolding users_of protocol_of
add_slot m none s = none
add_slot m (some tag) s = elim (s tag) [
  | some x ↦ none
  | none ↦ some (put tag (some (record { kept = without_users m; client = read m })) s)
]

add_document : Option JsonMap → Table → Option Table
unfolding add_slot tag_in
add_document none s = none
add_document (some m) s = add_slot m (tag_in m) s

drop_slot : Str → Table → Option Table
drop_slot tag s = elim (s tag) [ none ↦ none | some x ↦ some (put tag none s) ]

-- Set or clear a user of a slot.
abbrev with_user : Str → Option Json → Slot → Slot
with_user email v x = record x { client = λ e. if e == email then v else x.client e }

add_client : Option Str → Option Str → Json → Table → Option Table
add_client none e c s = none
add_client (some tag) none c s = none
add_client (some tag) (some e) c s = elim (s tag) [
  | none ↦ none
  | some x ↦ if is_some (x.client e) then none else some (put tag (some (with_user e (some c) x)) s)
]

email_in : Json → Option Str
email_in c = text_of (lookup (codes "email") (map_of (some c)))

add_first : Option Str → List Json → Table → Option Table
unfolding add_client email_in
add_first tag [] s = none
add_first tag (c ∷ cs) s = add_client tag (email_in c) c s

add_user_document : Option JsonMap → Table → Option Table
unfolding add_first tag_in
add_user_document none s = none
add_user_document (some m) s = add_first (tag_in m) (clients_of m) s

drop_client : Str → Str → Table → Option Table
drop_client tag e s = elim (s tag) [
  | none ↦ none
  | some x ↦ if is_some (x.client e) then some (put tag (some (with_user e none x)) s) else none
]

abbrev kept_of : Option Slot → Option (JsonMap × JsonMap)
kept_of none = none
kept_of (some x) = some x.kept

abbrev client_in : Str → Option Slot → Option Json
client_in e none = none
client_in e (some x) = x.client e

rest_at : Str → Table → Option (JsonMap × JsonMap)
rest_at t s = kept_of (s t)

client_at : Str → Str → Table → Option Json
client_at t e s = client_in e (s t)

inbound_in-one_inbound : (m : JsonMap) → inbound_in (one_inbound m) ≡ some m
unfolding inbound_in lookup dec_eq is_yes Str-discrete ℕ_discrete
inbound_in-one_inbound m =
    ap (λ (l : List Json). elim l [ [] ↦ none | v ∷ _ ↦ as_object v ])
      (list_of-array (object m ∷ []))
    ∙ as_object-object m

tag_in-str :
    (m : JsonMap) (tag : Str) → lookup (codes "tag") m ≡ some (str tag) → tag_in m ≡ some tag
unfolding tag_in text_of as_text
tag_in-str m tag h = ap text_of h

read_clients :
    (m : JsonMap) (p e : Str)
    → lookup (codes "protocol") m ≡ some (str p)
    → takes_clients (to_lower p) ≡ true
    → read m e ≡ find_entry e (clients_of m)
unfolding protocol_of users_of text_of as_text
read_clients m p e h t = rw h (rw t refl)

read_peers :
    (m : JsonMap) (p e : Str)
    → lookup (codes "protocol") m ≡ some (str p)
    → (to_lower p == codes "wireguard") ≡ true
    → read m e ≡ find_entry e (entries_of (codes "peers") m)
unfolding protocol_of users_of text_of as_text
read_peers m p e h w =
    let plain : takes_clients (to_lower p) ≡ false =
      ap takes_clients ((eq_iff (to_lower p) (codes "wireguard")).0 w)
      ∙ (unfold takes_clients dec_eq is_yes Str-discrete ℕ_discrete in refl) in
    rw h (rw (plain, w) refl)

client_gone : (t e : Str) (s : Table) → rest_at t s ≡ none → client_at t e s ≡ none
unfolding rest_at client_at
client_gone t e s h = ground (arith, h)

add_document_new :
    (m : JsonMap) (tag : Str) (s : Table)
    → lookup (codes "tag") m ≡ some (str tag)
    → rest_at tag s ≡ none
    → add_document (inbound_in (one_inbound m)) s
      ≡ some (put tag (some (record { kept = without_users m; client = read m })) s)
unfolding add_document rest_at
add_document_new m tag s h free =
    rw (inbound_in-one_inbound m, tag_in-str m tag h) (ground (arith, free))

push :
    {B : Type 0} (g : Option Slot → B) (b : Bool) (v w : Option Slot)
    → g (if b then v else w) ≡ (if b then g v else g w)
push g true v w = refl
push g false v w = refl

rest-put :
    (t tag : Str) (v : Option Slot) (s : Table)
    → rest_at t (put tag v s) ≡ (if t == tag then kept_of v else rest_at t s)
unfolding rest_at
rest-put t tag v s = push kept_of (t == tag) v (s t)

client-put :
    (t tag e : Str) (v : Option Slot) (s : Table)
    → client_at t e (put tag v s) ≡ (if t == tag then client_in e v else client_at t e s)
unfolding client_at
client-put t tag e v s = push (client_in e) (t == tag) v (s t)

drop_slot_known :
    (tag : Str) (r : JsonMap × JsonMap) (s : Table)
    → rest_at tag s ≡ some r
    → drop_slot tag s ≡ some (put tag none s)
unfolding drop_slot rest_at
drop_slot_known tag r s h = ground (arith, h)

-- A change of one user keeps the inbounds.
rest-with_user :
    (tag e : Str) (v : Option Json) (x : Slot) (s : Table)
    → s tag ≡ some x
    → (t : Str) → rest_at t (put tag (some (with_user e v x)) s) ≡ rest_at t s
unfolding rest_at
rest-with_user tag e v x s h t = rest-put t tag _ s ∙ go (t == tag) (λ q. (eq_iff t tag).0 q)
  where
    go : (b : Bool) → (b ≡ true → t ≡ tag) → (if b then some x.kept else rest_at t s) ≡ rest_at t s
    go true k = sym (ap (λ u. rest_at u s) (k refl) ∙ ap kept_of h)
    go false k = refl

client-with_user :
    (tag e : Str) (v : Option Json) (x : Slot) (s : Table)
    → s tag ≡ some x
    → (t f : Str)
    → client_at t f (put tag (some (with_user e v x)) s)
      ≡ (if t == tag && f == e then v else client_at t f s)
unfolding client_at
client-with_user tag e v x s h t f =
    client-put t tag f _ s ∙ go (t == tag) (f == e) (λ q. (eq_iff t tag).0 q)
  where
    go :
        (b c : Bool)
        → (b ≡ true → t ≡ tag)
        → (if b then (if c then v else x.client f) else client_at t f s)
          ≡ (if b && c then v else client_at t f s)
    go true true k = refl
    go true false k = sym (ap (λ u. client_at u f s) (k refl) ∙ ap (client_in f) h)
    go false c k = refl

slot_of :
    (tag : Str) (s : Table) (e : Str) (c : Json)
    → client_at tag e s ≡ some c
    → (x : Slot) × (s tag ≡ some x) × (x.client e ≡ some c)
unfolding client_at
slot_of tag s e c h = elim (Option-cases (s tag)) [
  | inl q ↦ absurd (ground (arith, h, q))
  | inr (x, q) ↦ (x, q, ground (arith, h, q))
]

rest_slot :
    (tag : Str) (s : Table) (r : JsonMap × JsonMap)
    → rest_at tag s ≡ some r
    → (x : Slot) × (s tag ≡ some x)
unfolding rest_at
rest_slot tag s r h = elim (Option-cases (s tag)) [
  | inl q ↦ absurd (ground (arith, h, q))
  | inr (x, q) ↦ (x, q)
]

email_in-has_email : (e : Str) (c : Json) → has_email e c ≡ true → email_in c ≡ some e
unfolding has_email email_in
email_in-has_email e c h =
    elim (Option-cases (text_of (lookup (codes "email") (map_of (some c))))) [
      | inl q ↦ absurd (ground (arith, h, q))
      | inr (t, q) ↦ q ∙ ap some ((eq_iff t e).0 (ground (arith, h, q)))
    ]

add_user_document_new :
    (m : JsonMap) (tag : Str) (c : Json) (e : Str) (x : Slot) (s : Table)
    → lookup (codes "tag") m ≡ some (str tag)
    → clients_of m ≡ c ∷ []
    → has_email e c ≡ true
    → s tag ≡ some x
    → client_at tag e s ≡ none
    → add_user_document (inbound_in (one_inbound m)) s
      ≡ some (put tag (some (with_user e (some c) x)) s)
unfolding add_user_document add_first add_client client_at
add_user_document_new m tag c e x s h k n p f =
    rw (inbound_in-one_inbound m, tag_in-str m tag h, k, email_in-has_email e c n)
      (ground (arith, p, f))

drop_client_known :
    (tag e : Str) (c : Json) (x : Slot) (s : Table)
    → s tag ≡ some x
    → x.client e ≡ some c
    → drop_client tag e s ≡ some (put tag (some (with_user e none x)) s)
unfolding drop_client
drop_client_known tag e c x s p q = ground (arith, p, q)

table_core : Core
unfolding add_document inbound_in
table_core = record {
  State = Table;
  rest = rest_at;
  find = client_at;
  users = read;
  Accepts = λ m s. Unit;
  adi = λ doc s. add_document (inbound_in doc) s;
  rmi = drop_slot;
  adu = λ doc s. add_user_document (inbound_in doc) s;
  rmu = drop_client;
  users_clients = read_clients;
  users_peers = read_peers;
  find_gone = client_gone;
  adi_new = λ m tag s h a free. (
    put tag (some (record { kept = without_users m; client = read m })) s,
    add_document_new m tag s h free,
    λ t. rest-put t tag _ s,
    λ t e. client-put t tag e _ s,
  );
  rmi_known = λ tag r s h. (
    put tag none s,
    drop_slot_known tag r s h,
    λ t. rest-put t tag none s,
    λ t e. client-put t tag e none s,
  );
  rmu_known = λ tag e c s h.
      let (x, p, q) = slot_of tag s e c h in
      (
        put tag (some (with_user e none x)) s,
        drop_client_known tag e c x s p q,
        rest-with_user tag e none x s p,
        client-with_user tag e none x s p,
      );
  adu_new = λ m tag p c e s h i t k n r f.
      let (x, q) = rest_slot tag s (without_users m) r in
      (
        put tag (some (with_user e (some c) x)) s,
        add_user_document_new m tag c e x s h k n q f,
        rest-with_user tag e (some c) x s q,
        client-with_user tag e (some c) x s q,
      );
}
