-- ===== src/Model/Values.antt =====
-- Go's `any` as encoding/json decodes it, and `map[string]any`. A map holds its entries by key in
-- byte order, as json.Marshal prints them, so `reflect.DeepEqual` is equality. Numbers are those
-- without a fraction.
use xnode_agent.Prelude.{
  ℕ, Bool, List, Str, ℤ, Comparable, of_discrete, ℕ_discrete, ℤ-discrete, str_eq, ◌∷◌, [], Option,
  ◌≡◌, lookup, if◌then◌else◌, some, ap, str_lt, none, ◌==◌, arith, false, eq_iff, refl,
}

mutual
  pub data Json : Type 0 where
    null : Json
    bool : Bool → Json
    num : ℤ → Json
    str : List ℕ → Json
    arr : Items → Json
    obj : Fields → Json

  pub data Items : Type 0 where
    nil : Items
    cons : Json → Items → Items

  pub data Fields : Type 0 where
    end : Fields
    field : List ℕ → Json → Fields → Fields

unfoldable pub Json-discrete : Discrete Json
unfolding ℕ_discrete ℤ-discrete
Json-discrete = hlevel (ℕ_discrete, ℤ-discrete)

instance abbrev pub json_eq : Comparable Json
json_eq = of_discrete Json-discrete

-- map[string]any, sorted by key.
abbrev pub JsonMap : Type 0
JsonMap = List (Str × Json)

unfoldable pub JsonMap-discrete : Discrete JsonMap
unfolding ℕ_discrete Json-discrete
JsonMap-discrete = hlevel (ℕ_discrete, Json-discrete)

-- m[k] = v on a sorted map.
unfoldable pub set_field : Str → Json → JsonMap → JsonMap
set_field k v [] = (k, v) ∷ []
set_field k v ((j, w) ∷ m) =
    let rest = set_field k v m in
    if str_lt k j then (k, v) ∷ (j, w) ∷ m else if k == j then (k, v) ∷ m else (j, w) ∷ rest

unfoldable pub to_items : List Json → Items
to_items [] = nil
to_items (x ∷ xs) = cons x (to_items xs)

unfoldable pub of_items : Items → List Json
of_items nil = []
of_items (cons x xs) = x ∷ of_items xs

unfoldable pub to_fields : JsonMap → Fields
to_fields [] = end
to_fields ((k, v) ∷ m) = field k v (to_fields m)

unfoldable pub of_fields : Fields → JsonMap
of_fields end = []
of_fields (field k v fs) = (k, v) ∷ of_fields fs

-- A []any and a map[string]any as values.
abbrev pub array : List Json → Json
array xs = arr (to_items xs)

abbrev pub object : JsonMap → Json
object m = obj (to_fields m)

-- v.([]any), v.(map[string]any) and v.(string), with the zero value where the type is another.
unfoldable pub as_array : Json → Option (List Json)
as_array (arr xs) = some (of_items xs)
as_array _ = none

unfoldable pub as_object : Json → Option JsonMap
as_object (obj fs) = some (of_fields fs)
as_object _ = none

unfoldable pub as_text : Json → Option Str
as_text (str s) = some s
as_text _ = none

pub of_items-to_items : (xs : List Json) → of_items (to_items xs) ≡ xs
unfolding of_items to_items
of_items-to_items [] = refl
of_items-to_items (x ∷ xs) = ap (◌∷◌ x) (of_items-to_items xs)

pub of_fields-to_fields : (m : JsonMap) → of_fields (to_fields m) ≡ m
unfolding of_fields to_fields
of_fields-to_fields [] = refl
of_fields-to_fields ((k, v) ∷ m) = ap (◌∷◌ (k, v)) (of_fields-to_fields m)

pub lookup-set_field :
    (k j : Str) (v : Json) (m : JsonMap)
    → lookup j (set_field k v m) ≡ (if k == j then some v else lookup j m)
unfolding set_field lookup
lookup-set_field k j v [] = refl
lookup-set_field k j v ((i, w) ∷ m) =
    ground (arith, lookup-set_field k j v m, eq_iff k i, eq_iff k j, eq_iff i j)

pub lookup-set_field_same : (k : Str) (v : Json) (m : JsonMap) → lookup k (set_field k v m) ≡ some v
lookup-set_field_same k v m = ground (arith, lookup-set_field k k v m, eq_iff k k)

pub lookup-set_field_other :
    (k j : Str) (v : Json) (m : JsonMap)
    → (k == j) ≡ false
    → lookup j (set_field k v m) ≡ lookup j m
lookup-set_field_other k j v m h = ground (arith, h, lookup-set_field k j v m)

pub as_array-array : (xs : List Json) → as_array (array xs) ≡ some xs
unfolding as_array
as_array-array xs = ap some (of_items-to_items xs)

pub as_object-object : (m : JsonMap) → as_object (object m) ≡ some m
unfolding as_object
as_object-object m = ap some (of_fields-to_fields m)
