-- ===== src/Xray/Plan/Between.antt =====
-- The core while ApplyRuntime of internal/xray/runtime.go carries out a plan: what it has then, and
-- what addInboundRuntime does to it.
use xnode_agent.Prelude.{
  true, Option, none, some, List, Str, In, inl, inr, ◌⊎◌, if◌then◌else◌, ◌==◌, str_eq, eq_iff,
  eq_refl, ◌≡◌, ◌≢◌, refl, ap, ◌∙◌, arith, Bool-cases,
}
use xnode_agent.Model.{ManagedInbound}
use xnode_agent.Model.Values.{JsonMap}
use xnode_agent.Xray.Config.Inbound.{
  is_buildable, one_inbound, build_inbound_document, inbound_settings,
}
use xnode_agent.Xray.Config.Document.{without_users}
use xnode_agent.Xray.Config.Written.{build_inbound-dressed, dressed-tag}
use xnode_agent.Xray.Plan.Apply.{Core, add_inbound_runtime}
use xnode_agent.Xray.Plan.Runs.{Runs, document_of, document_of-Runs}

module _ (core : Core) where
  open core use {State, rest, find, users, Accepts, adi, rmi, adi_new, rmi_known, find_gone}

  -- The inbound of a tag and its users are the same in both states.
  abbrev pub Keeps : State → State → Str → Type 0
  Keeps s s' t = (rest t s' ≡ rest t s) × ((e : Str) → find t e s' ≡ find t e s)

  -- Under the tag the core has what it had at the start, or nothing, or a desired inbound.
  abbrev pub Was : List ManagedInbound → State → State → Str → Type 0
  Was nexts start s t =
      (rest t s ≡ rest t start)
      ⊎ (rest t s ≡ none)
      ⊎ ((inb : ManagedInbound) × In inb nexts
          × (inb.tag ≡ t)
          × (rest t s ≡ some (without_users (document_of inb))))

  abbrev pub Between : List ManagedInbound → State → State → Type 0
  Between nexts start s = (t : Str) → Was nexts start s t

  pub Runs-Keeps :
      (inb : ManagedInbound) (s s' : State)
      → Keeps s s' inb.tag
      → Runs core inb s
      → Runs core inb s'
  Runs-Keeps inb s s' k (m, b, r, f) = (m, b, k.0 ∙ r, λ e. k.1 e ∙ f e)

  module _ (nexts : List ManagedInbound) (start : State) where
    Was-kept :
        (s s' : State) (t : Str) → rest t s' ≡ rest t s → Was nexts start s t → Was nexts start s' t
    Was-kept s s' t h (inl p) = inl (h ∙ p)
    Was-kept s s' t h (inr (inl p)) = inr (inl (h ∙ p))
    Was-kept s s' t h (inr (inr (inb, i, k, p))) = inr (inr (inb, i, k, h ∙ p))

    pub Between-same :
        (s s' : State)
        → ((t : Str) → rest t s' ≡ rest t s)
        → Between nexts start s
        → Between nexts start s'
    Between-same s s' h b t = Was-kept s s' t (h t) (b t)

    -- A change under one tag, to nothing or a desired inbound.
    Between-set :
        (tag : Str) (r : Option (JsonMap × JsonMap)) (s s' : State)
        → ((t : Str) → rest t s' ≡ (if t == tag then r else rest t s))
        → (rest tag s' ≡ r → Was nexts start s' tag)
        → Between nexts start s
        → Between nexts start s'
    Between-set tag r s s' h now b t = elim (Bool-cases (t == tag)) [
      | inl q ↦ rw ((eq_iff t tag).0 q) (now (h tag ∙ rw (eq_refl tag) refl))
      | inr q ↦ Was-kept s s' t (h t ∙ rw q refl) (b t)
    ]

    pub Between-removed :
        (tag : Str) (s s' : State)
        → ((t : Str) → rest t s' ≡ (if t == tag then none else rest t s))
        → Between nexts start s
        → Between nexts start s'
    Between-removed tag s s' h b = Between-set tag none s s' h (λ p. inr (inl p)) b

    -- The core can start the inbound at any such point at which its tag is free.
    abbrev pub Fits : ManagedInbound → Type 0
    Fits inb =
        (s : State) → Between nexts start s → rest inb.tag s ≡ none → Accepts (document_of inb) s

    build_inbound_document_lem :
        (next : ManagedInbound)
        → is_buildable next ≡ true
        → build_inbound_document next ≡ some (one_inbound (document_of next))
    unfolding build_inbound_document
    build_inbound_document_lem next b =
        ap (λ (o : Option JsonMap). elim o [ none ↦ none | some d ↦ some (one_inbound d) ])
          (build_inbound-dressed next b)

    pub add_inbound_run :
        (next : ManagedInbound) (s : State)
        → In next nexts
        → is_buildable next ≡ true
        → Fits next
        → Between nexts start s
        → rest next.tag s ≡ none
        → (s' : State) × (add_inbound_runtime core next s ≡ some s')
          × Runs core next s'
          × ((t : Str) → t ≢ next.tag → Keeps s s' t)
          × Between nexts start s'
    unfolding add_inbound_runtime
    add_inbound_run next s m b fits at free =
        let (s', p, r, f) =
          adi_new (document_of next) next.tag s (dressed-tag next (inbound_settings next))
            (fits s at free) free in
        let run =
          ap (λ (o : Option JsonMap). elim o [ none ↦ none | some doc ↦ adi doc s ])
            (build_inbound_document_lem next b) in
        (
          s',
          run ∙ p,
          document_of-Runs core next s' b (r next.tag ∙ rw (eq_refl next.tag) refl)
              (λ e. f next.tag e ∙ rw (eq_refl next.tag) refl),
          λ t n. (
            ground (arith, r t, n, eq_iff t next.tag),
            λ e. ground (arith, f t e, n, eq_iff t next.tag),
          ),
          Between-set next.tag (some (without_users (document_of next))) s s' r
              (λ q. inr (inr (next, m, refl, q))) at,
        )
