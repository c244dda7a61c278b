-- ===== src/Xray/CommandTests.antt =====
-- A core that accepts only an empty object, and what it prints as its version.
use xnode_agent.Prelude.{
  ◌≤◌, true, false, inl, arith, Bool, [], ◌∷◌, Str, codes, lookup, length, ◌==◌, str_eq, ◌≡◌, refl,
  dec_eq, is_yes, Str-discrete, ℕ_discrete, to_lower, fields, trim_space, ◌&&◌, List,
}
use xnode_agent.Files.{Disk}
use xnode_agent.Xray.Command.{Shell, Setup, written, validate_command, validate_content}
use xnode_agent.Xray.Command.Clean.{verdict, is_written, validate_content-clean}
use xnode_agent.Xray.Version.{concise_version_line, runes}
use xnode_agent.Xray.Version.Runes.{concise_version_line_bound}

abbrev setup : Setup
setup = record { api = codes "127.0.0.1:10085"; limits_file = codes "/l"; environ = [] }

abbrev is_object : Str → Bool
is_object c = c == codes "{}"

-- It reads the file that its last argument names.
judge : List Str → Disk → Bool
judge [] d = false
judge (file ∷ []) d = verdict is_object (lookup file d)
judge (arg ∷ a ∷ args) d = judge (a ∷ args) d

abbrev shell : Shell
shell c d = (judge c.args d, [], d)

judges_last :
    (file : Str) (now : Disk)
    → (shell (validate_command shell setup file) now).0 ≡ verdict is_object (lookup file now)
unfolding judge validate_command
judges_last file now = refl

validate_content-clean_example :
    ((validate_content shell setup true false written (codes "tmp") (codes "{}") []).0
      ≡ (true && is_written written && is_object (codes "{}")))
    × (lookup
          (codes "other")
          (validate_content shell setup true false written (codes "tmp") (codes "{}") []).1
        ≡ lookup (codes "other") [])
unfolding dec_eq Str-discrete ℕ_discrete
validate_content-clean_example =
    validate_content-clean (codes "tmp") [] (unfold lookup in refl) false shell setup is_object true
      written (codes "{}") (codes "other") judges_last (λ file now other. refl)
      (inl (λ e. ground (arith, e)))

abbrev banner : Str
banner = codes "Xray 26.7.28 (Xray, Penetrates Everything.) Custom"

concise_run : concise_version_line banner ≡ codes "Xray 26.7.28"
unfolding concise_version_line trim_space fields to_lower dec_eq is_yes Str-discrete ℕ_discrete
concise_run = refl

concise_version_line_bound_example : length (runes (concise_version_line banner)) ≤ 64
concise_version_line_bound_example = concise_version_line_bound banner
