-- ===== src/Session/LogFile/Rounds.antt =====
-- Reading the log of internal/session/tracker.go in two rounds, each with its own time.
use xnode_agent.Prelude.{
  ◌+◌, ◌≤◌, ◌<◌, ◌++◌, ◌∷◌, ◌==◌, Bool, refl, some, drop, true, false, suc, nat_eq, arith, Str, ap,
  sym, ◌∙◌, ℕ, Option, ℤ, [], ◌≡◌, length, ◌⊎◌, length-append,
}
use xnode_agent.Session.Tracker.{Tracker}
use xnode_agent.Session.AccessLine.{parse_access_line}
use xnode_agent.Session.LogFile.{
  LogTracker, consume_lines, consume_line, newline, is_rotated, max_initial_tail,
}
use xnode_agent.Session.LogFile.Lines.{consume_log, consume_known, consume_log_twice}

module _ (read_time : Str → Option ℤ) (now now' : ℤ) where
  -- Each complete line is the same event at both times: it has a time of its own, or is no event.
  abbrev pub AreDated : Str → Str → Type 0
  AreDated line [] = Unit
  AreDated line (c ∷ s) = elim (c == newline) [
    | true ↦
        (parse_access_line read_time (line ++ (c ∷ [])) now
          ≡ parse_access_line read_time (line ++ (c ∷ [])) now')
        × AreDated [] s
    | false ↦ AreDated (line ++ (c ∷ [])) s
  ]

  consume_line_dated :
      (line : Str) (t : Tracker)
      → parse_access_line read_time line now ≡ parse_access_line read_time line now'
      → consume_line read_time now line t ≡ consume_line read_time now' line t
  unfolding consume_line
  consume_line_dated line t h = rw (h, consume_line) refl

  consume_lines_dated :
      (line s : Str) (t : Tracker) (n : ℕ)
      → AreDated line s
      → consume_lines read_time now line s t n ≡ consume_lines read_time now' line s t n
  unfolding consume_lines
  consume_lines_dated line [] t n h = refl
  consume_lines_dated line (c ∷ s) t n h =
      go (c == newline)
        (consume_lines_dated [] s (consume_line read_time now (line ++ (c ∷ [])) t)
          (n + suc (length line)))
        (consume_lines_dated (line ++ (c ∷ [])) s t n) h
    where
      at_end : ℤ → Tracker × ℕ
      at_end time =
          consume_lines read_time time [] s (consume_line read_time time (line ++ (c ∷ [])) t)
            (n + suc (length line))

      next : ℤ → Tracker → Tracker × ℕ
      next time x = consume_lines read_time time [] s x (n + suc (length line))

      open_line : ℤ → Tracker × ℕ
      open_line time = consume_lines read_time time (line ++ (c ∷ [])) s t n

      ended :
          (AreDated [] s
            → next now (consume_line read_time now (line ++ (c ∷ [])) t)
              ≡ next now' (consume_line read_time now (line ++ (c ∷ [])) t))
          → parse_access_line read_time (line ++ (c ∷ [])) now
            ≡ parse_access_line read_time (line ++ (c ∷ [])) now'
          → AreDated [] s
          → at_end now ≡ at_end now'
      ended rec same later =
          rec later ∙ ap (next now') (consume_line_dated (line ++ (c ∷ [])) t same)

      go :
          (x : Bool)
          → (AreDated [] s
              → next now (consume_line read_time now (line ++ (c ∷ [])) t)
                ≡ next now' (consume_line read_time now (line ++ (c ∷ [])) t))
          → (AreDated (line ++ (c ∷ [])) s → open_line now ≡ open_line now')
          → (elim x as (λ _. Type 0) [
            | true ↦
                (parse_access_line read_time (line ++ (c ∷ [])) now
                  ≡ parse_access_line read_time (line ++ (c ∷ [])) now')
                × AreDated [] s
            | false ↦ AreDated (line ++ (c ∷ [])) s
          ])
          → (elim x as (λ _. Tracker × ℕ) [ true ↦ at_end now | false ↦ open_line now ])
            ≡ (elim x as (λ _. Tracker × ℕ) [ true ↦ at_end now' | false ↦ open_line now' ])
      go true rec on (same, later) = ended rec same later
      go false rec on later = on later

  -- Reading a log at one time when it holds `a` and at another when `b` has been appended leaves the tracker
  -- that reading it once, at the later of the two, with both leaves, wherever `a` ends: each complete
  -- line counts once, and a line that is not complete counts when it is. The log is the one that was read
  -- before, was read or is small enough to be read from its start, and has the bytes that were read
  -- before; each complete line in what is new in `a` has a time of its own or is no event; and no read
  -- fails.
  pub consume_log_in_rounds :
      (id : ℕ) (t : LogTracker) (a b : Str)
      → is_rotated t.last_info id ≡ false
      → t.offset ≤ length a
      → (length (a ++ b) ≤ max_initial_tail) ⊎ (0 < t.offset)
      → AreDated [] (drop t.offset a)
      → consume_log read_time now' id (consume_log read_time now id t a) (a ++ b)
        ≡ consume_log read_time now' id t (a ++ b)
  consume_log_in_rounds id t a b r o m dated =
      let small : (length a ≤ max_initial_tail) ⊎ (0 < t.offset) =
        ground (arith, m, length-append a b) in
      let same : consume_log read_time now id t a ≡ consume_log read_time now' id t a =
        consume_known read_time now id t a r o small
        ∙ ap (λ (x : Tracker × ℕ). record { items = x.0; offset = x.1; last_info = some id })
            (consume_lines_dated [] (drop t.offset a) t.items t.offset dated)
        ∙ sym (consume_known read_time now' id t a r o small) in
      ap (λ x. consume_log read_time now' id x (a ++ b)) same
      ∙ consume_log_twice read_time now' id t a b r o m
