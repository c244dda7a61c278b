-- ===== src/Xray/Stats/Names.antt =====
-- The names of the core's counters for accounting emails.
use xnode_agent.Prelude.{
  ◌==◌, ◌≢◌, ◌≡◌, dec_eq, ℕ_discrete, Str-discrete, refl, str_eq, nat_eq, Str, ℤ, none, some, [],
  ◌∷◌, ◌++◌, codes, All, arith, eq_iff, cut, cut_first, cut_missing, false, ◌≢◌, ℕ, dec_eq,
  ℕ_discrete, Str-discrete, ◌≡◌,
}
use xnode_agent.Xray.Email.{
  sanitize, accounting_email, parse_accounting_email, parse_accounting_name, parse-accounting_email,
}
use xnode_agent.Xray.Stats.{stat_record}

-- The name that the core gives to a user's counter of a direction.
unfoldable pub counter_name : Str → Str → Str
counter_name email direction =
    codes "user"
    ++ (codes ">>>" ++ (email ++ (codes ">>>" ++ (codes "traffic" ++ (codes ">>>" ++ direction)))))

abbrev pub HasNoArrow : Str → Type 0
HasNoArrow = All (λ c. c ≢ b'>')

append-HasNoArrow : (s t : Str) → HasNoArrow s → HasNoArrow t → HasNoArrow (s ++ t)
append-HasNoArrow [] t h k = k
append-HasNoArrow (c ∷ s) t h k = (h.0, append-HasNoArrow s t h.1 k)

sanitize-HasNoArrow : (s : Str) → HasNoArrow (sanitize s)
unfolding sanitize
sanitize-HasNoArrow [] = tt
sanitize-HasNoArrow (c ∷ s) =
    (λ e. ground (arith, eq_iff c b'>', eq_iff c b'|', eq_iff c b' '), sanitize-HasNoArrow s)

no_arrow : {c : ℕ} → (c == b'>') ≡ false → c ≢ b'>'
no_arrow {c} h e = ground (arith, h, eq_iff c b'>', e)

email-HasNoArrow : (user inbound : Str) → HasNoArrow (accounting_email user inbound)
unfolding accounting_email dec_eq ℕ_discrete
email-HasNoArrow user inbound =
    append-HasNoArrow (codes "u:") _ (no_arrow refl, (no_arrow refl, tt))
      (append-HasNoArrow (sanitize user) _ (sanitize-HasNoArrow user) (
        append-HasNoArrow (codes "|i:") _ (no_arrow refl, (no_arrow refl, (no_arrow refl, tt)))
          (sanitize-HasNoArrow inbound)))

-- The parser cuts the name where it was joined.
parse_accounting_name-counter_name :
    (email direction : Str)
    → HasNoArrow email
    → HasNoArrow direction
    → parse_accounting_name (counter_name email direction)
      ≡ elim (parse_accounting_email email) [ none ↦ none | some k ↦ some (k, direction) ]
unfolding parse_accounting_name counter_name dec_eq Str-discrete ℕ_discrete
parse_accounting_name-counter_name email direction h k =
    let after_traffic = codes "traffic" ++ (codes ">>>" ++ direction) in
    let user : HasNoArrow (codes "user") =
      (no_arrow refl, (no_arrow refl, (no_arrow refl, (no_arrow refl, tt)))) in
    let traffic : HasNoArrow (codes "traffic") = (
      no_arrow refl,
      (
        no_arrow refl,
        (no_arrow refl, (no_arrow refl, (no_arrow refl, (no_arrow refl, (no_arrow refl, tt))))),
      ),
    ) in
    let after_email = codes ">>>" ++ after_traffic in
    let first : cut (codes ">>>") (counter_name email direction)
        ≡ some (codes "user", email ++ after_email) =
      cut_first b'>' (codes ">>") (codes "user") (email ++ after_email) user in
    let second : cut (codes ">>>") (email ++ after_email) ≡ some (email, after_traffic) =
      cut_first b'>' (codes ">>") email after_traffic h in
    let third : cut (codes ">>>") after_traffic ≡ some (codes "traffic", direction) =
      cut_first b'>' (codes ">>") (codes "traffic") direction traffic in
    let last : cut (codes ">>>") direction ≡ none = cut_missing b'>' (codes ">>") direction k in
    rw (first, second, third, last, parse_accounting_name) refl

-- A counter that the core names after an accounting email of two IDs is attributed to the user and the
-- inbound, with `_` for the bytes that the email does not hold, and to its direction, if neither ID is
-- empty and the direction has no `>`.
pub stat_record-counter_name :
    (user inbound direction : Str) (value : ℤ)
    → user ≢ []
    → inbound ≢ []
    → HasNoArrow direction
    → stat_record (counter_name (accounting_email user inbound) direction) value ≡ record {
      name = counter_name (accounting_email user inbound) direction;
      value = value;
      user_id = sanitize user;
      inbound_id = sanitize inbound;
      direction = direction;
    }
unfolding stat_record
stat_record-counter_name user inbound direction value u i d =
    rw
      (
        parse_accounting_name-counter_name (accounting_email user inbound) direction
            (email-HasNoArrow user inbound) d,
        parse-accounting_email user inbound,
        stat_record,
      )
      (ground (arith, u, i, eq_iff user [], eq_iff inbound []))
