-- ===== src/Xray/Email.antt =====
-- The accounting email of internal/xray/builder.go, by which the core's counters, its access log and
-- the policy file name a user of an inbound, and its parsers.
use xnode_agent.Prelude.{
  not, ◌||◌, Option, none, some, [], ◌∷◌, ◌++◌, Str, codes, map, cut, cut_prefix, cut_prefix-append,
  cut_first, if◌then◌else◌, ◌==◌, nat_eq, str_eq, eq_iff, ◌≡◌, ◌≢◌, refl, ap, ◌∙◌, arith, All,
}
use xnode_agent.Model.{UsageKey}

-- strings.NewReplacer(">", "_", "|", "_", " ", "_"), byte by byte.
unfoldable pub sanitize : Str → Str
sanitize = map (λ c. if c == b'>' || c == b'|' || c == b' ' then b'_' else c)

unfoldable pub accounting_email : Str → Str → Str
accounting_email user_id inbound_id =
    codes "u:" ++ (sanitize user_id ++ (codes "|i:" ++ sanitize inbound_id))

-- Both parts of a split must have text.
unfoldable pub named_parts : Str × Str → Option UsageKey
named_parts (user, inbound) =
    if user == [] || inbound == []
    then none
    else some (record { user_id = user; inbound_id = inbound })

-- What follows the prefix, cut in two.
unfoldable pub parse_rest : Option Str → Option UsageKey
parse_rest none = none
parse_rest (some rest) = elim (cut (codes "|i:") rest) [
  | none ↦ none
  | some parts ↦ named_parts parts
]

unfoldable pub parse_accounting_email : Str → Option UsageKey
unfolding parse_rest named_parts
parse_accounting_email email = parse_rest (cut_prefix (codes "u:") email)

-- A counter's user, inbound and direction. strings.Split gives four parts where three cuts are
-- possible and a fourth is not.
unfoldable pub parse_accounting_name : Str → Option (UsageKey × Str)
parse_accounting_name name = elim (cut (codes ">>>") name) [
  | none ↦ none
  | some (kind, rest) ↦ elim (cut (codes ">>>") rest) [
    | none ↦ none
    | some (email, rest') ↦ elim (cut (codes ">>>") rest') [
      | none ↦ none
      | some (counter, direction) ↦ elim (cut (codes ">>>") direction) [
        | some _ ↦ none
        | none ↦
            if not (kind == codes "user") || not (counter == codes "traffic")
            then none
            else elim (parse_accounting_email email) [ none ↦ none | some k ↦ some (k, direction) ]
      ]
    ]
  ]
]

sanitize_no_bar : (s : Str) → All (λ c. c ≢ b'|') (sanitize s)
unfolding sanitize
sanitize_no_bar [] = tt
sanitize_no_bar (c ∷ s) =
    (λ e. ground (arith, eq_iff c b'>', eq_iff c b'|', eq_iff c b' '), sanitize_no_bar s)

sanitize-eq_nil : (s : Str) → (sanitize s == []) ≡ (s == [])
unfolding sanitize
sanitize-eq_nil [] = refl
sanitize-eq_nil (c ∷ s) = ground (arith, eq_iff (sanitize (c ∷ s)) [], eq_iff (c ∷ s) [])

parse_rest-cut :
    (s t : Str)
    → All (λ c. c ≢ b'|') s
    → parse_rest (some (s ++ (codes "|i:" ++ t))) ≡ named_parts (s, t)
unfolding parse_rest
parse_rest-cut s t h = rw (cut_first b'|' (codes "i:") s t h, parse_rest) refl

-- An accounting email of two IDs that are not empty is parsed back to the sanitized IDs; where one of
-- them is empty it is refused.
pub parse-accounting_email :
    (user inbound : Str)
    → parse_accounting_email (accounting_email user inbound) ≡ (
        if user == [] || inbound == []
        then none
        else some (record { user_id = sanitize user; inbound_id = sanitize inbound }))
unfolding parse_accounting_email accounting_email
parse-accounting_email user inbound =
    ap parse_rest
      (cut_prefix-append (codes "u:") (sanitize user ++ (codes "|i:" ++ sanitize inbound)))
    ∙ parse_rest-cut (sanitize user) (sanitize inbound) (sanitize_no_bar user)
    ∙ ground (arith, sanitize-eq_nil user, sanitize-eq_nil inbound)
