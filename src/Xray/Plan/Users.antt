-- ===== src/Xray/Plan/Users.antt =====
-- The user operations of a plan, run on a core that has the previous users of an inbound.
use xnode_agent.Prelude.{
  Bool, true, ◌&&◌, Option, none, some, List, [], ◌∷◌, ◌++◌, Str, Map, In, inl, inr, if◌then◌else◌,
  ◌==◌, str_eq, eq_iff, ◌≡◌, ◌≢◌, refl, ap, sym, ◌∙◌, arith, Bool-cases, All, All-In, HasUniqueKeys,
  any, eq_refl, filter, to_lower,
}
use xnode_agent.Model.{ManagedUser, ManagedInbound}
use xnode_agent.Xray.Email.{accounting_email}
use xnode_agent.Xray.Plan.{
  RuntimeOp, add_user, remove_user, removed_user, added_user, remove_users, add_users,
}
use xnode_agent.Xray.Plan.First.{first_client, over}
use xnode_agent.Xray.Plan.Apply.{Core, add_user_runtime, apply_op, apply_ops, apply_ops_step}
use xnode_agent.Model.Values.{Json, JsonMap}
use xnode_agent.Xray.Config.Inbound.{
  is_buildable, takes_clients, active_users, client_entry, client_of, inbound_settings,
  inbound_head, one_inbound, only_user, build_inbound_document, build_user_document,
}
use xnode_agent.Xray.Config.Document.{clients_of, without_users}
use xnode_agent.Xray.Config.Written.{
  dressed, build_inbound-dressed, dressed-tag, dressed-protocol, clients_of-dressed,
  without_users-dressed, has_email-client_of,
}

-- The users' emails in the inbound are pairwise different.
abbrev pub HasUniqueEmails : ManagedInbound → List ManagedUser → Type 0
HasUniqueEmails inb = HasUniqueKeys (λ u. accounting_email u.id inb.id)

removed_user_enabled :
    (old : ManagedInbound) (m : Map Str ManagedUser) (u : ManagedUser)
    → removed_user old m u ≡ true
    → u.enabled ≡ true
unfolding removed_user
removed_user_enabled old m u h = ground arith

module _ (core : Core) (old : ManagedInbound) (m : Map Str ManagedUser) (ops : List RuntimeOp) where
  open core use {State, rest, find, rmu_known}

  -- One of the users is removed under the email.
  abbrev pub is_removed : List ManagedUser → Str → Bool
  is_removed us e = any (λ u. removed_user old m u && accounting_email u.id old.id == e) us

  -- The core has the enabled users.
  abbrev pub HasEnabled : List ManagedUser → State → Type 0
  HasEnabled us s =
      (u : ManagedUser)
      → In u us
      → u.enabled ≡ true
      → find old.tag (accounting_email u.id old.id) s ≡ some (client_of old u)

  pub remove_users_run :
      (us : List ManagedUser) (s : State)
      → HasUniqueEmails old us
      → HasEnabled us s
      → (s' : State) × (apply_ops core (remove_users old m us ++ ops) s ≡ apply_ops core ops s')
        × ((t : Str) → rest t s' ≡ rest t s)
        × ((t e : Str)
            → find t e s' ≡ (if t == old.tag && is_removed us e then none else find t e s))
  unfolding remove_users any
  remove_users_run [] s d h = (s, refl, λ t. refl, λ t e. ground arith)
  remove_users_run (u ∷ us) s d h = elim (Bool-cases (removed_user old m u)) [
    | inl r ↦ rw r (
        let (s1, p, r1, f) =
          rmu_known old.tag (accounting_email u.id old.id) (client_of old u) s
            (h u (inl refl) (removed_user_enabled old m u r)) in
        let kept : HasEnabled us s1 = λ v i on.
          f old.tag (accounting_email v.id old.id)
          ∙ ground (
            arith,
            h v (inr i) on,
            All-In (λ b. accounting_email b.id old.id ≢ accounting_email u.id old.id) v us d.0 i,
            eq_iff (accounting_email v.id old.id) (accounting_email u.id old.id),
          ) in
        let (s2, q, r2, g) = remove_users_run us s1 d.1 kept in
        (
          s2,
          apply_ops_step core (remove_user old.tag (accounting_email u.id old.id))
                (remove_users old m us ++ ops) s s1 (unfold apply_op in p)
              ∙ q,
          λ t. r2 t ∙ r1 t,
          λ t e. ground (
            arith,
            f t e,
            g t e,
            eq_iff (accounting_email u.id old.id) e,
            eq_iff e (accounting_email u.id old.id),
          ),
        ))
    | inr r ↦ rw r (remove_users_run us s d.1 (λ v i. h v (inr i)))
  ]

-- Users of other emails do not come first for an email.
first_client_other :
    (inb : ManagedInbound) (m : Map Str ManagedUser) (e : Str) (us : List ManagedUser)
    → All (λ b. accounting_email b.id inb.id ≢ e) us
    → first_client (client_of inb) (λ u. added_user m u && accounting_email u.id inb.id == e) us
      ≡ none
unfolding first_client
first_client_other inb m e [] h = refl
first_client_other inb m e (u ∷ us) h =
    ground (arith, h.0, eq_iff (accounting_email u.id inb.id) e, first_client_other inb m e us h.1)

module _ (core : Core) (next : ManagedInbound) (m : Map Str ManagedUser) where
  open core use {State, rest, find, adu_new}

  -- The first of the users that is added under the email.
  abbrev pub first_added : List ManagedUser → Str → Option Json
  first_added us e =
      first_client (client_of next) (λ u. added_user m u && accounting_email u.id next.id == e) us

  -- The core does not have the users that are to be added.
  abbrev pub HasRoomFor : List ManagedUser → State → Type 0
  HasRoomFor us s =
      (u : ManagedUser)
      → In u us
      → added_user m u ≡ true
      → find next.tag (accounting_email u.id next.id) s ≡ none

  -- The core has the inbound, but for its users.
  abbrev pub HasRest : State → Type 0
  HasRest s = rest next.tag s ≡ some (without_users (dressed next (inbound_settings next)))

  first_added_here :
      (u : ManagedUser) (us : List ManagedUser) (e : Str)
      → All (λ b. accounting_email b.id next.id ≢ accounting_email u.id next.id) us
      → accounting_email u.id next.id ≡ e
      → first_added us e ≡ none
  first_added_here u us e d p =
      ap (first_added us) (sym p) ∙ first_client_other next m (accounting_email u.id next.id) us d

  -- The document of one user of the inbound.
  abbrev user_document : ManagedUser → JsonMap
  user_document u = dressed next (inbound_settings (only_user next u))

  user_document_lem :
      (u : ManagedUser)
      → is_buildable next ≡ true
      → build_user_document next u ≡ some (one_inbound (user_document u))
  unfolding build_user_document build_inbound_document only_user is_buildable inbound_head
  user_document_lem u b =
      ap (λ (o : Option JsonMap). elim o [ none ↦ none | some d ↦ some (one_inbound d) ])
        (build_inbound-dressed (only_user next u) b)

  user_document-clients :
      (u : ManagedUser)
      → takes_clients (to_lower next.protocol) ≡ true
      → clients_of (user_document u) ≡ client_of next u ∷ []
  unfolding only_user active_users filter client_entry inbound_head
  user_document-clients u h = clients_of-dressed (only_user next u) h

  add_user_run :
      (u : ManagedUser) (s : State)
      → is_buildable next ≡ true
      → takes_clients (to_lower next.protocol) ≡ true
      → HasRest s
      → find next.tag (accounting_email u.id next.id) s ≡ none
      → (s' : State) × (apply_op core (add_user next u) s ≡ some s')
        × ((t : Str) → rest t s' ≡ rest t s)
        × ((t e : Str)
            → find t e s' ≡ (
                if t == next.tag && e == accounting_email u.id next.id
                then some (client_of next u)
                else find t e s))
  unfolding apply_op add_user_runtime only_user
  add_user_run u s b h r n =
      let (s', p, q, f) =
        adu_new (user_document u) next.tag next.protocol (client_of next u)
          (accounting_email u.id next.id) s (dressed-tag next (inbound_settings (only_user next u)))
          (dressed-protocol next (inbound_settings (only_user next u))) h
          (user_document-clients u h)
          (has_email-client_of next u (accounting_email u.id next.id)
            ∙ eq_refl (accounting_email u.id next.id))
          (r ∙ ap some (without_users-dressed next (record u { enabled = true } ∷ []) (inl h))) n in
      let run =
        ap (λ (o : Option JsonMap). elim o [ none ↦ none | some doc ↦ core.adu doc s ])
          (user_document_lem u b) in
      (s', run ∙ p, q, f)

  pub add_users_run :
      (us : List ManagedUser) (ops : List RuntimeOp) (s : State)
      → is_buildable next ≡ true
      → takes_clients (to_lower next.protocol) ≡ true
      → HasUniqueEmails next us
      → HasRoomFor us s
      → HasRest s
      → (s' : State) × (apply_ops core (add_users next m us ++ ops) s ≡ apply_ops core ops s')
        × ((t : Str) → rest t s' ≡ rest t s)
        × ((t e : Str)
            → find t e s'
              ≡ (if t == next.tag then over (first_added us e) (find t e s) else find t e s))
  unfolding add_users first_client over
  add_users_run [] ops s b tc d h hr = (s, refl, λ t. refl, λ t e. ground arith)
  add_users_run (u ∷ us) ops s b tc d h hr = elim (Bool-cases (added_user m u)) [
    | inl r ↦ rw r (
        let (s1, p, r1, f) = add_user_run u s b tc hr (h u (inl refl) r) in
        let room : HasRoomFor us s1 = λ v i on.
          f next.tag (accounting_email v.id next.id)
          ∙ ground (
            arith,
            h v (inr i) on,
            All-In (λ b. accounting_email b.id next.id ≢ accounting_email u.id next.id) v us d.0 i,
            eq_iff (accounting_email v.id next.id) (accounting_email u.id next.id),
          ) in
        let (s2, q, r2, g) = add_users_run us ops s1 b tc d.1 room (r1 next.tag ∙ hr) in
        (
          s2,
          apply_ops_step core (add_user next u) (add_users next m us ++ ops) s s1 p ∙ q,
          λ t. r2 t ∙ r1 t,
          λ t e. ground (
            arith,
            f t e,
            g t e,
            eq_iff (accounting_email u.id next.id) e,
            eq_iff e (accounting_email u.id next.id),
            eq_iff t next.tag,
            first_added_here u us e d.0,
          ),
        ))
    | inr r ↦ rw r (add_users_run us ops s b tc d.1 (λ v i. h v (inr i)) hr)
  ]
