-- ===== src/Prelude/Index.antt =====
-- Maps from the key of each element of a list to the element: the last of a key counts.
use mathlib.Core.Path.{◌≡◌, refl, ap, sym, ◌∙◌, subst}
use mathlib.Core.Logic.{◌⊎◌, inl, inr, ◌≢◌}
use mathlib.Core.Bool.{true}
use mathlib.Core.Option.{Option, none, some}
use mathlib.Core.List.{List, [], ◌∷◌, foldl}
use native.Mathlib.Omega.{arith}
use xnode_agent.Prelude.Eqs.{Comparable, eq_iff}
use xnode_agent.Prelude.Lists.{In, All}
use xnode_agent.Prelude.Maps.{Map, lookup, insert, lookup-insert, has, Distinct, insert-Distinct}

module _ {A K : Type 0} ⦃e : Comparable K⦄ (key : A → K) where
  unfoldable pub index_from : Map K A → List A → Map K A
  index_from = foldl (λ m a. insert (key a) a m)

  -- for _, a := range as { m[key(a)] = a }
  unfoldable pub index : List A → Map K A
  unfolding index_from
  index = index_from []

  -- No other element of the list has the key.
  abbrev pub HasUniqueKeys : List A → Type 0
  HasUniqueKeys [] = Unit
  HasUniqueKeys (a ∷ as') = All (λ b. key b ≢ key a) as' × HasUniqueKeys as'

  lookup-index_from :
      (m : Map K A) (as' : List A) (k : K) (a : A)
      → lookup k (index_from m as') ≡ some a
      → (lookup k m ≡ some a) ⊎ (In a as' × (key a ≡ k))
  unfolding index_from
  lookup-index_from m [] k a h = inl h
  lookup-index_from m (b ∷ bs) k a h = ground (
    arith,
    lookup-index_from (insert (key b) b m) bs k a h,
    lookup-insert (key b) k b m,
    eq_iff (key b) k,
  )

  -- What is found under a key is an element of the list with that key.
  pub lookup-index :
      (as' : List A) (k : K) (a : A) → lookup k (index as') ≡ some a → In a as' × (key a ≡ k)
  unfolding index lookup
  lookup-index as' k a h = elim (lookup-index_from [] as' k a h) [ inl e ↦ cc | inr f ↦ f ]

  has-index_from_old :
      (m : Map K A) (as' : List A) (k : K) → has k m ≡ true → has k (index_from m as') ≡ true
  unfolding index_from
  has-index_from_old m [] k h = h
  has-index_from_old m (b ∷ bs) k h =
      has-index_from_old (insert (key b) b m) bs k
        (ground (arith, lookup-insert (key b) k b m, eq_iff (key b) k))

  has-index_from :
      (m : Map K A) (as' : List A) (a : A) → In a as' → has (key a) (index_from m as') ≡ true
  unfolding index_from
  has-index_from m [] a h = absurd h
  has-index_from m (b ∷ bs) a (inl p) =
      has-index_from_old (insert (key b) b m) bs (key a)
        (ground (arith, p, lookup-insert (key b) (key a) b m, eq_iff (key b) (key a)))
  has-index_from m (b ∷ bs) a (inr h) = has-index_from (insert (key b) b m) bs a h

  -- The key of every element is found.
  pub has-index : (as' : List A) (a : A) → In a as' → has (key a) (index as') ≡ true
  unfolding index
  has-index as' a h = has-index_from [] as' a h

  index_from-Distinct : (m : Map K A) (as' : List A) → Distinct m → Distinct (index_from m as')
  unfolding index_from
  index_from-Distinct m [] d = d
  index_from-Distinct m (b ∷ bs) d =
      index_from-Distinct (insert (key b) b m) bs (insert-Distinct (key b) b m d)

  pub index-Distinct : (as' : List A) → Distinct (index as')
  unfolding index
  index-Distinct as' = index_from-Distinct [] as' tt

  ne_of_In : (c x : A) (xs : List A) → All (λ y. key y ≢ key c) xs → In x xs → key x ≢ key c
  ne_of_In c x [] h m = absurd m
  ne_of_In c x (y ∷ ys) h (inl p) = subst (λ z. key z ≢ key c) p h.0
  ne_of_In c x (y ∷ ys) h (inr m) = ne_of_In c x ys h.1 m

  pub unique_key :
      (a b : A) (as' : List A) → HasUniqueKeys as' → In a as' → In b as' → key a ≡ key b → a ≡ b
  unique_key a b [] u m n p = absurd m
  unique_key a b (c ∷ cs) u (inl p) (inl q) r = sym p ∙ q
  unique_key a b (c ∷ cs) u (inl p) (inr n) r =
      absurd (ne_of_In c b cs u.0 n (sym r ∙ sym (ap key p)))
  unique_key a b (c ∷ cs) u (inr m) (inl q) r = absurd (ne_of_In c a cs u.0 m (r ∙ sym (ap key q)))
  unique_key a b (c ∷ cs) u (inr m) (inr n) r = unique_key a b cs u.1 m n r

  -- Where keys are unique, every element is found under its key.
  pub lookup-index_unique :
      (as' : List A) (a : A) → HasUniqueKeys as' → In a as' → lookup (key a) (index as') ≡ some a
  lookup-index_unique as' a u m = go (lookup (key a) (index as')) refl
    where
      go : (o : Option A) → lookup (key a) (index as') ≡ o → lookup (key a) (index as') ≡ some a
      go none p = absurd (ground (arith, p, has-index as' a m))
      go (some b) p =
          let (mb, q) = lookup-index as' (key a) b p in p ∙ ap some (unique_key b a as' u mb m q)
