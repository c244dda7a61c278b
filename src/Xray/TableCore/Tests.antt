-- ===== src/Xray/TableCore/Tests.antt =====
-- A hot reload of a small node: one inbound stays with another credential, one goes and one comes.
use xnode_agent.Prelude.{
  true, none, some, List, [], ◌∷◌, Str, Option, codes, In, inl, inr, ◌==◌, str_eq, eq_iff, ◌≡◌, ◌≢◌,
  refl, ap, sym, ◌∙◌, subst, dec_eq, is_yes, Str-discrete, ℤ-discrete, ℕ_discrete, sort, any,
  lookup, insert, index, index_from, to_lower, str_lt, false,
}
use xnode_agent.Model.{ManagedUser, ManagedInbound, DesiredState}
use xnode_agent.Model.Values.{Json, str, Json-discrete, JsonMap-discrete}
use xnode_agent.Samples.{phone, inbound, state}
use xnode_agent.Xray.Email.{accounting_email, sanitize}
use xnode_agent.Xray.Config.Document.{without_users, find_entry}
use xnode_agent.Xray.Config.Inbound.{is_buildable, build_inbound}
use xnode_agent.Xray.Plan.{
  RuntimeOp, operations, plan_runtime, plan_existing, remove_inbound, remove_user, add_user,
  add_inbound,
}
use xnode_agent.Xray.Plan.Equal.{
  runtime_global_equal, raw_messages_equal, bytes_json_equal, managed_routing_equal,
  Routes-discrete, users_runtime_equal, users_in, user_same, user_runtime_equal, same_flag,
  Credential-discrete, ManagedInbound-discrete, ManagedUser-discrete, inbound_base_equal,
}
use xnode_agent.Xray.Plan.Apply.{apply_runtime}
use xnode_agent.Xray.Plan.Same.{AreNamed}
use xnode_agent.Xray.Plan.Runs.{Runs, document_of}
use xnode_agent.Xray.Plan.Between.{Keeps}
use xnode_agent.Xray.Plan.Apart.{AreApart, IsFreeOf}
use xnode_agent.Xray.Plan.Whole.{plan_runtime-Runs}
use xnode_agent.Xray.TableCore.{put, read, table_core, rest_at, client_at}

abbrev no_json : Str → Option Json
no_json s = none

abbrev renewed : ManagedUser
renewed = record phone { credential = some ((codes "id", str (codes "x")) ∷ []) }

abbrev before : ManagedInbound
before = record inbound { users = phone ∷ [] }

abbrev after : ManagedInbound
after = record inbound { users = renewed ∷ [] }

abbrev going : ManagedInbound
going = record inbound { id = codes "old"; tag = codes "going"; users = [] }

abbrev coming : ManagedInbound
coming = record inbound { id = codes "new"; tag = codes "coming"; users = [] }

abbrev was : DesiredState
was = record state { inbounds = before ∷ going ∷ [] }

abbrev wanted : DesiredState
wanted = record state { inbounds = after ∷ coming ∷ [] }

abbrev ops : List RuntimeOp
ops =
    remove_inbound (codes "going")
    ∷ remove_user (codes "tag") (accounting_email phone.id inbound.id)
    ∷ add_user after renewed
    ∷ add_inbound coming
    ∷ []

planned : plan_runtime no_json was wanted ≡ operations ops
unfolding plan_runtime runtime_global_equal raw_messages_equal bytes_json_equal
    managed_routing_equal Routes-discrete sort any users_runtime_equal users_in user_same
    user_runtime_equal same_flag Credential-discrete ManagedInbound-discrete ManagedUser-discrete
    inbound_base_equal lookup insert index index_from to_lower accounting_email sanitize str_lt
    Json-discrete JsonMap-discrete dec_eq is_yes Str-discrete ℤ-discrete ℕ_discrete plan_existing
planned = refl

abbrev running : table_core.State
unfolding table_core
running =
    put (codes "tag")
      (some
        (record { kept = without_users (document_of before); client = read (document_of before) }))
      (put (codes "going")
        (some
          (record { kept = without_users (document_of going); client = read (document_of going) }))
        (λ t. none))

-- The strings of the test are pairwise different, which their test shows.
differ : (a b : Str) → (a == b) ≡ false → a ≢ b
differ a b h e = cc ((eq_iff a b).1 e)

was_cases :
    (P : ManagedInbound → Type 0)
    → P before
    → P going
    → (a : ManagedInbound) → In a was.inbounds
    → P a
was_cases P x y a (inl e) = subst P e x
was_cases P x y a (inr (inl e)) = subst P e y
was_cases P x y a (inr (inr i)) = absurd i

wanted_cases :
    (P : ManagedInbound → Type 0)
    → P after
    → P coming
    → (b : ManagedInbound) → In b wanted.inbounds
    → P b
wanted_cases P x y b (inl e) = subst P e x
wanted_cases P x y b (inr (inl e)) = subst P e y
wanted_cases P x y b (inr (inr i)) = absurd i

one_user : (a b : ManagedUser) → In a (phone ∷ []) → In b (renewed ∷ []) → a.id ≡ b.id
one_user a b (inl p) (inl q) =
    ap (λ (x : ManagedUser). x.id) (sym p) ∙ ap (λ (x : ManagedUser). x.id) q
one_user a b (inl p) (inr n) = absurd n
one_user a b (inr m) n = absurd m

apart : AreApart was.inbounds wanted.inbounds
unfolding dec_eq is_yes Str-discrete ℕ_discrete
apart = record {
  unique_old_ids = ((differ (codes "old") (codes "in") refl, tt), (tt, tt));
  unique_old_tags = ((differ (codes "going") (codes "tag") refl, tt), (tt, tt));
  unique_ids = ((differ (codes "new") (codes "in") refl, tt), (tt, tt));
  unique_tags = ((differ (codes "coming") (codes "tag") refl, tt), (tt, tt));
  same_tag = λ a b i j.
      was_cases (λ x. x.tag ≡ b.tag → x.id ≡ b.id)
        (wanted_cases (λ y. codes "tag" ≡ y.tag → codes "in" ≡ y.id) (λ e. refl)
          (λ e. absurd (differ (codes "tag") (codes "coming") refl e)) b j)
        (wanted_cases (λ y. codes "going" ≡ y.tag → codes "old" ≡ y.id)
          (λ e. absurd (differ (codes "going") (codes "tag") refl e))
          (λ e. absurd (differ (codes "going") (codes "coming") refl e)) b j)
        a i;
  named = λ a b i j.
      was_cases (λ x. x.id ≡ b.id → AreNamed x b)
        (wanted_cases (λ y. codes "in" ≡ y.id → AreNamed before y)
          (λ e. record {
            unique_old = (tt, tt);
            unique_next = (tt, tt);
            same = λ u v m n h. one_user u v m n;
          })
          (λ e. absurd (differ (codes "in") (codes "new") refl e)) b j)
        (wanted_cases (λ y. codes "old" ≡ y.id → AreNamed going y)
          (λ e. absurd (differ (codes "old") (codes "in") refl e))
          (λ e. absurd (differ (codes "old") (codes "new") refl e)) b j)
        a i;
}

all_run : (a : ManagedInbound) → In a was.inbounds → Runs table_core a running
unfolding table_core rest_at client_at find_entry dec_eq is_yes Str-discrete ℕ_discrete
all_run =
    was_cases (λ a. Runs table_core a running)
      (document_of before, unfold build_inbound in refl, refl, λ e. refl)
      (document_of going, unfold build_inbound in refl, refl, λ e. refl)

buildable : (b : ManagedInbound) → In b wanted.inbounds → is_buildable b ≡ true
unfolding is_buildable dec_eq is_yes Str-discrete ℕ_discrete
buildable = wanted_cases (λ b. is_buildable b ≡ true) refl refl

is_free :
    (b : ManagedInbound)
    → In b wanted.inbounds
    → IsFreeOf was.inbounds b.tag
    → table_core.rest b.tag running ≡ none
unfolding table_core rest_at dec_eq is_yes Str-discrete ℕ_discrete
is_free =
    wanted_cases (λ b. IsFreeOf was.inbounds b.tag → table_core.rest b.tag running ≡ none)
      (λ n. absurd (n before (inl refl) refl)) (λ n. refl)

plan_runtime-Runs_example :
    (s' : table_core.State) × (apply_runtime table_core (operations ops) running ≡ some s')
    × ((b : ManagedInbound) → In b wanted.inbounds → Runs table_core b s')
    × ((a : ManagedInbound)
        → In a was.inbounds
        → IsFreeOf wanted.inbounds a.tag
        → table_core.rest a.tag s' ≡ none)
    × ((t : Str)
        → IsFreeOf was.inbounds t
        → IsFreeOf wanted.inbounds t
        → Keeps table_core running s' t)
plan_runtime-Runs_example =
    plan_runtime-Runs no_json was wanted ops table_core running planned apart buildable
      (unfold table_core in λ b i s at f. tt) all_run is_free
