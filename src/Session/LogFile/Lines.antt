-- ===== src/Session/LogFile/Lines.antt =====
-- Reading the log of internal/session/tracker.go in pieces.
use xnode_agent.Prelude.{
  ◌+◌, ◌≤◌, ◌<◌, ◌++◌, ◌∷◌, ◌==◌, eq_iff, Bool, Bool-cases, inl, inr, refl, some, drop, true, false,
  suc, nat_eq, arith, Str, All, ap, sym, ◌∙◌, ◌≢◌, ℕ, Option, ℤ, ◌∷◌, [], ◌≡◌, length, ◌≤◌, ◌⊎◌,
  ◌<◌, length-append, length-drop, drop_further, drop_over, drop-append,
}
use xnode_agent.Session.Tracker.{Tracker}
use xnode_agent.Session.LogFile.{
  LogTracker, LogFile, consume_lines, consume_line, consume_opened, newline, is_rotated,
  start_offset, seek_offset, is_initial_tail, consume_from, max_initial_tail,
}

abbrev pub HasNoNewline : Str → Type 0
HasNoNewline = All (λ c. c ≢ newline)

All-snoc : (c : ℕ) (s : Str) → HasNoNewline s → c ≢ newline → HasNoNewline (s ++ (c ∷ []))
All-snoc c [] h d = (d, tt)
All-snoc c (x ∷ s) h d = (h.0, All-snoc c s h.1 d)

append_assoc : (xs ys zs : Str) → (xs ++ ys) ++ zs ≡ xs ++ (ys ++ zs)
append_assoc [] ys zs = refl
append_assoc (x ∷ xs) ys zs = ap (◌∷◌ x) (append_assoc xs ys zs)

append_nil : (xs : Str) → xs ++ [] ≡ xs
append_nil [] = refl
append_nil (x ∷ xs) = ap (◌∷◌ x) (append_nil xs)

module _ (read_time : Str → Option ℤ) (now : ℤ) where
  abbrev pub consume : Str → Str → Tracker → ℕ → Tracker × ℕ
  consume = consume_lines read_time now

  -- The loop on the rest of the file begins with the line that it stopped in.
  record Stop (line s : Str) (t : Tracker) (n : ℕ) : Type 0 where
    pub eaten : Str
    pub pending : Str
    pub parts : line ++ s ≡ eaten ++ pending
    pub count : (consume line s t n).1 ≡ n + length eaten
    pub goes_on :
        (b : Str)
        → consume line (s ++ b) t n
          ≡ consume [] (pending ++ b) (consume line s t n).0 (consume line s t n).1

  consume_end :
      (line : Str) (c : ℕ) (s : Str) (t : Tracker) (n : ℕ)
      → (c == newline) ≡ true
      → consume line (c ∷ s) t n
        ≡ consume [] s (consume_line read_time now (line ++ (c ∷ [])) t) (n + suc (length line))
  unfolding consume_lines
  consume_end line c s t n h =
      ap
        (λ (x : Bool). elim x [
          | true ↦
              consume [] s (consume_line read_time now (line ++ (c ∷ [])) t) (n + suc (length line))
          | false ↦ consume (line ++ (c ∷ [])) s t n
        ])
        h

  consume_on :
      (line : Str) (c : ℕ) (s : Str) (t : Tracker) (n : ℕ)
      → (c == newline) ≡ false
      → consume line (c ∷ s) t n ≡ consume (line ++ (c ∷ [])) s t n
  unfolding consume_lines
  consume_on line c s t n h =
      ap
        (λ (x : Bool). elim x [
          | true ↦
              consume [] s (consume_line read_time now (line ++ (c ∷ [])) t) (n + suc (length line))
          | false ↦ consume (line ++ (c ∷ [])) s t n
        ])
        h

  consume_unread :
      (pre line b : Str) (t : Tracker) (n : ℕ)
      → HasNoNewline line
      → consume pre (line ++ b) t n ≡ consume (pre ++ line) b t n
  consume_unread pre [] b t n h = ap (λ p. consume p b t n) (sym (append_nil pre))
  consume_unread pre (c ∷ line) b t n h =
      consume_on pre c (line ++ b) t n (ground (arith, h.0, eq_iff c newline))
      ∙ consume_unread (pre ++ (c ∷ [])) line b t n h.1
      ∙ ap (λ p. consume p b t n) (append_assoc pre (c ∷ []) line)

  -- The line ends at the newline, or goes on behind the byte.
  at_newline :
      (line : Str) (c : ℕ) (s : Str) (t : Tracker) (n : ℕ)
      → (c == newline) ≡ true
      → Stop [] s (consume_line read_time now (line ++ (c ∷ [])) t) (n + suc (length line))
      → Stop line (c ∷ s) t n
  at_newline line c s t n h r = record {
    eaten = (line ++ (c ∷ [])) ++ r.eaten;
    pending = r.pending;
    parts =
        sym (append_assoc line (c ∷ []) s)
        ∙ ap (λ x. (line ++ (c ∷ [])) ++ x) r.parts
        ∙ sym (append_assoc (line ++ (c ∷ [])) r.eaten r.pending);
    count =
        ap (λ x. x.1) (consume_end line c s t n h)
        ∙ omega
            (arith, r.count, length-append (line ++ (c ∷ [])) r.eaten, length-append line (c ∷ []));
    goes_on = λ b.
        consume_end line c (s ++ b) t n h
        ∙ r.goes_on b
        ∙ ap (λ x. consume [] (r.pending ++ b) x.0 x.1) (sym (consume_end line c s t n h));
  }

  at_byte :
      (line : Str) (c : ℕ) (s : Str) (t : Tracker) (n : ℕ)
      → (c == newline) ≡ false
      → Stop (line ++ (c ∷ [])) s t n
      → Stop line (c ∷ s) t n
  at_byte line c s t n h r = record {
    eaten = r.eaten;
    pending = r.pending;
    parts = sym (append_assoc line (c ∷ []) s) ∙ r.parts;
    count = ap (λ x. x.1) (consume_on line c s t n h) ∙ r.count;
    goes_on = λ b.
        consume_on line c (s ++ b) t n h
        ∙ r.goes_on b
        ∙ ap (λ x. consume [] (r.pending ++ b) x.0 x.1) (sym (consume_on line c s t n h));
  }

  stop : (line s : Str) (t : Tracker) (n : ℕ) → HasNoNewline line → Stop line s t n
  stop line [] t n h = record {
    eaten = [];
    pending = line;
    parts = append_nil line;
    count = unfold consume_lines in omega arith;
    goes_on = λ b. unfold consume_lines in sym (consume_unread [] line b t n h);
  }
  stop line (c ∷ s) t n h = elim (Bool-cases (c == newline)) [
    | inl e ↦
        at_newline line c s t n e
          (stop [] s (consume_line read_time now (line ++ (c ∷ [])) t) (n + suc (length line)) tt)
    | inr e ↦
        at_byte line c s t n e
          (stop (line ++ (c ∷ [])) s t n (All-snoc c line h (ground (arith, e, eq_iff c newline))))
  ]

  -- A file that stays, read to its end.
  abbrev pub log_file : ℕ → Str → LogFile
  log_file id bytes = record { file_id = id; size = length bytes; bytes = bytes; fails = false }

  abbrev pub consume_log : ℕ → LogTracker → Str → LogTracker
  consume_log id t bytes = (consume_opened read_time now t (log_file id bytes)).0

  abbrev pub after_log : ℕ → Tracker × ℕ → LogTracker
  after_log id r = record { items = r.0; offset = r.1; last_info = some id }

  -- Reading a log that is the one that was read before, and not only its tail.
  pub consume_known :
      (id : ℕ) (t : LogTracker) (bytes : Str)
      → is_rotated t.last_info id ≡ false
      → t.offset ≤ length bytes
      → (length bytes ≤ max_initial_tail) ⊎ (0 < t.offset)
      → consume_log id t bytes ≡ after_log id (consume [] (drop t.offset bytes) t.items t.offset)
  unfolding consume_opened
  consume_known id t bytes r o m =
      let file = log_file id bytes in
      let start : start_offset t file ≡ t.offset = unfold start_offset in ground (arith, r, o) in
      let tail : is_initial_tail t file ≡ false =
        unfold is_initial_tail in ground (arith, start, m, eq_iff (start_offset t file) 0) in
      let seek : seek_offset t file ≡ t.offset =
        unfold seek_offset in ground (arith, start, tail) in
      rw (seek, tail, start) (unfold consume_from in refl)

  -- Reading a log when it holds `a` and again when `b` has been appended leaves the tracker that
  -- reading it once with both leaves, wherever `a` ends: each complete line counts once, and a line that
  -- is not complete counts when it is. The log is the one that was read before, was read or is small
  -- enough to be read from its start, and has the bytes that were read before.
  pub consume_log_twice :
      (id : ℕ) (t : LogTracker) (a b : Str)
      → is_rotated t.last_info id ≡ false
      → t.offset ≤ length a
      → (length (a ++ b) ≤ max_initial_tail) ⊎ (0 < t.offset)
      → consume_log id (consume_log id t a) (a ++ b) ≡ consume_log id t (a ++ b)
  consume_log_twice id t a b r o m =
      let s = drop t.offset a in
      let p = stop [] s t.items t.offset tt in
      let total = length-append a b in
      let kept = length-drop t.offset a o in
      let eaten : length s ≡ length p.eaten + length p.pending =
        ap length p.parts ∙ length-append p.eaten p.pending in
      let rest : drop (consume [] s t.items t.offset).1 (a ++ b) ≡ p.pending ++ b =
        ap (λ n. drop n (a ++ b)) p.count
        ∙ drop_further t.offset (length p.eaten) (a ++ b)
        ∙ ap (drop (length p.eaten))
            (drop_over t.offset a b o ∙ ap (λ x. x ++ b) p.parts ∙ append_assoc p.eaten p.pending b)
        ∙ drop-append p.eaten (p.pending ++ b) in
      let first = consume_known id t a r o (ground (arith, m, total)) in
      let second =
        consume_known id (after_log id (consume [] s t.items t.offset)) (a ++ b)
          (unfold is_rotated in ground (arith, eq_iff id id))
          (omega (arith, p.count, eaten, kept, total)) (ground (arith, m, p.count)) in
      let once = consume_known id t (a ++ b) r (omega (arith, o, total)) m in
      ap (λ x. consume_log id x (a ++ b)) first
      ∙ second
      ∙ ap
          (λ x.
            after_log id
              (consume [] x (consume [] s t.items t.offset).0 (consume [] s t.items t.offset).1))
          rest
      ∙ ap (after_log id) (sym (p.goes_on b))
      ∙ ap (λ x. after_log id (consume [] x t.items t.offset)) (sym (drop_over t.offset a b o))
      ∙ sym once
