-- ===== src/Session/LogFile.antt =====
-- ConsumeFile of internal/session/tracker.go, with the place that the tracker remembers in the log. The
-- offset and the size are natural numbers, a file is identified by a number (os.SameFile), and its
-- bytes are those that reading from its start would give.
pub mod Lines
pub mod Rounds
use xnode_agent.Prelude.{
  none, some, drop, true, false, refl, zero, suc, nat_eq, ℕ, Option, Bool, Str, ◌*◌, false,
  if◌then◌else◌, ◌==◌, ◌∷◌, ℤ, ◌^◌, some, ◌||◌, ◌&&◌, ◌-◌, [], drop, true, not, ltb, ◌++◌, ◌+◌,
  length,
}
use xnode_agent.Session.Tracker.{Event, Tracker, add}
use xnode_agent.Session.AccessLine.{parse_access_line}

-- The tracker with its place in the log.
pub record LogTracker : Type 0 where
  pub items : Tracker
  pub offset : ℕ
  pub last_info : Option ℕ

-- The open file: os.FileInfo's identity and size, and what reading gives, to the end of the file or to an
-- error.
pub record LogFile : Type 0 where
  pub file_id : ℕ
  pub size : ℕ
  pub bytes : Str
  pub fails : Bool

-- What opening the path, asking for its information and seeking give.
pub data Opening : Type 0 where
  missing : Opening
  unopened : Opening
  no_info : Opening
  no_seek : LogFile → Opening
  opened : LogFile → Opening

abbrev pub max_initial_tail : ℕ
max_initial_tail = 8 * 2 ^ 20

abbrev pub newline : ℕ
newline = 10

-- A file was remembered, and it is another one.
unfoldable pub is_rotated : Option ℕ → ℕ → Bool
is_rotated none id = false
is_rotated (some last) id = not (last == id)

-- The offset after the tests for a rotation and a truncation.
unfoldable pub start_offset : LogTracker → LogFile → ℕ
unfolding is_rotated
start_offset t file =
    if is_rotated t.last_info file.file_id || ltb file.size t.offset then 0 else t.offset

unfoldable pub is_initial_tail : LogTracker → LogFile → Bool
unfolding start_offset
is_initial_tail t file = start_offset t file == 0 && ltb max_initial_tail file.size

unfoldable pub seek_offset : LogTracker → LogFile → ℕ
unfolding is_initial_tail start_offset
seek_offset t file =
    if is_initial_tail t file then file.size - max_initial_tail else start_offset t file

-- ReadString('\n'): the text up to the first newline and with it, or all of it, and the rest.
unfoldable pub read_string : Str → Str × Str
read_string [] = ([], [])
read_string (c ∷ s) =
    let (line, rest) = read_string s in if c == newline then (c ∷ [], s) else (c ∷ line, rest)

module _ (read_time : Str → Option ℤ) (now : ℤ) where
  unfoldable pub consume_line : Str → Tracker → Tracker
  consume_line line t = elim (parse_access_line read_time line now) [
    | none ↦ t
    | some ev ↦ add ev t
  ]

  -- The loop from a byte of the file on, where `line` is what it has read of the current line: the
  -- tracker, and the bytes consumed. A line without its newline is not consumed.
  unfoldable pub consume_lines : Str → Str → Tracker → ℕ → Tracker × ℕ
  unfolding consume_line
  consume_lines line [] t consumed = (t, consumed)
  consume_lines line (c ∷ s) t consumed = elim (c == newline) [
    | true ↦ consume_lines [] s (consume_line (line ++ (c ∷ [])) t) (consumed + suc (length line))
    | false ↦ consume_lines (line ++ (c ∷ [])) s t consumed
  ]

  -- The first line of a tail may be the end of one, and is skipped.
  unfoldable pub consume_from : Bool → Str → Tracker → ℕ → Tracker × ℕ
  unfolding consume_lines read_string
  consume_from true s t offset =
      let (partial, rest) = read_string s in consume_lines [] rest t (offset + length partial)
  consume_from false s t offset = consume_lines [] s t offset

  -- The tracker after the open file is read, and whether there was no error. An error of reading leaves
  -- the events in the tracker and the offset where it was.
  unfoldable pub consume_opened : LogTracker → LogFile → LogTracker × Bool
  unfolding seek_offset is_initial_tail consume_from
  consume_opened t file =
      let offset = seek_offset t file in
      let (items, consumed) =
        consume_from (is_initial_tail t file) (drop offset file.bytes) t.items offset in
      let after : LogTracker = record {
        items = items;
        offset = if file.fails then start_offset t file else consumed;
        last_info = some file.file_id;
      } in
      (after, not file.fails)

  unfoldable pub consume_file : LogTracker → Opening → LogTracker × Bool
  unfolding consume_opened
  consume_file t missing = (t, true)
  consume_file t unopened = (t, false)
  consume_file t no_info = (t, false)
  consume_file t (no_seek file) = (
    record { items = t.items; offset = start_offset t file; last_info = some file.file_id },
    false,
  )
  consume_file t (opened file) = consume_opened t file
