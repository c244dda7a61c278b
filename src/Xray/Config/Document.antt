-- ===== src/Xray/Config/Document.antt =====
-- How the core reads the document of an inbound that internal/xray/builder.go writes: its tag, its
-- protocol, its clients or peers by email, and what is left without these.
use xnode_agent.Prelude.{
  str_eq, Option, none, some, List, [], ◌∷◌, Str, codes, lookup, Bool, false, ◌≡◌, ◌==◌, ap, refl,
  arith, eq_iff, if◌then◌else◌,
}
use xnode_agent.Model.Values.{
  Json, JsonMap, null, array, object, as_array, as_object, as_text, set_field, as_object-object,
  as_array-array,
}

unfoldable pub text_of : Option Json → Option Str
text_of none = none
text_of (some v) = as_text v

unfoldable pub list_of : Option Json → List Json
list_of none = []
list_of (some v) = elim (as_array v) [ none ↦ [] | some vs ↦ vs ]

unfoldable pub map_of : Option Json → JsonMap
map_of none = []
map_of (some v) = elim (as_object v) [ none ↦ [] | some m ↦ m ]

pub map_of-object : (m : JsonMap) → map_of (some (object m)) ≡ m
unfolding map_of
map_of-object m =
    ap (λ (o : Option JsonMap). elim o [ none ↦ [] | some x ↦ x ]) (as_object-object m)

pub list_of-array : (xs : List Json) → list_of (some (array xs)) ≡ xs
unfolding list_of
list_of-array xs =
    ap (λ (o : Option (List Json)). elim o [ none ↦ [] | some x ↦ x ]) (as_array-array xs)

-- The entry has the email.
unfoldable pub has_email : Str → Json → Bool
unfolding text_of map_of
has_email e v = elim (text_of (lookup (codes "email") (map_of (some v)))) [
  | none ↦ false
  | some t ↦ t == e
]

-- The first entry with the email.
unfoldable pub find_entry : Str → List Json → Option Json
find_entry e [] = none
find_entry e (v ∷ vs) = if has_email e v then some v else find_entry e vs

unfoldable pub settings_of : JsonMap → JsonMap
unfolding map_of
settings_of m = map_of (lookup (codes "settings") m)

-- The entries under a key of the settings: `clients` or `peers`.
unfoldable pub entries_of : Str → JsonMap → List Json
unfolding settings_of list_of
entries_of k m = list_of (lookup k (settings_of m))

-- The clients of an inbound's document.
unfoldable pub clients_of : JsonMap → List Json
unfolding entries_of
clients_of m = entries_of (codes "clients") m

-- The map with `null` under the key, where it has the key.
unfoldable pub blank : Str → JsonMap → JsonMap
blank k [] = []
blank k ((j, w) ∷ m) = (j, if j == k then null else w) ∷ blank k m

-- The document without the users, as a map and its settings.
unfoldable pub without_users : JsonMap → JsonMap × JsonMap
unfolding blank settings_of
without_users m =
    (blank (codes "settings") m, blank (codes "peers") (blank (codes "clients") (settings_of m)))

pub blank-set_field :
    (k j : Str) (v : Json) (m : JsonMap)
    → blank k (set_field j v m) ≡ set_field j (if j == k then null else v) (blank k m)
unfolding blank set_field
blank-set_field k j v [] = refl
blank-set_field k j v ((i, w) ∷ m) = ground (arith, blank-set_field k j v m, eq_iff j i)
