-- ===== src/Xray/Command.antt =====
-- The command lines of the core that internal/xray runs: process.go validates a configuration and asks for
-- the API, runtime.go gives the API's commands, stats.go and online.go query it. What a command makes of its
-- arguments and of the files is the parameter `Shell`.
pub mod Clean
use xnode_agent.Prelude.{
  Bool, true, false, not, ◌&&◌, Option, none, some, List, [], ◌∷◌, ◌++◌, Str, codes, Map, lookup,
  insert, remove, if◌then◌else◌, ◌==◌, str_eq,
}
use xnode_agent.Model.{TrafficRecord, SessionRecord}
use xnode_agent.Model.Values.{Json}
use xnode_agent.Files.{Disk, clean_up}
use xnode_agent.Xray.Stats.{parse_stats, parse_online_sessions}

-- The arguments behind the binary, and the environment.
pub record Command : Type 0 where
  pub args : List Str
  pub env : List Str

-- Whether a command exits with 0, what it prints, and the disk after it.
abbrev pub Shell : Type 0
Shell = Command → Disk → Bool × Str × Disk

-- The manager's settings, with os.Environ.
pub record Setup : Type 0 where
  pub api : Str
  pub limits_file : Str
  pub environ : List Str

unfoldable pub command_env : Setup → List Str
command_env m =
    m.environ
    ++ (if m.limits_file == [] then [] else (codes "XNODE_LIMITS_FILE=" ++ m.limits_file) ∷ [])

-- How far a temporary file comes: to the step that fails, or to its use.
pub data Temporary : Type 0 where
  create_fails : Temporary
  write_fails : Str → Temporary
  close_fails : Temporary
  written : Temporary

-- What is made of the content in a temporary file, for which os.Remove is called in any case; the first
-- argument tells whether that works.
unfoldable pub with_temporary :
    Bool → Temporary → Str → Str → (Disk → Bool × Disk) → Disk → Bool × Disk
unfolding clean_up
with_temporary removes create_fails name content use_it d = (false, d)
with_temporary removes (write_fails part) name content use_it d =
    (false, clean_up removes name (insert name part d))
with_temporary removes close_fails name content use_it d =
    (false, clean_up removes name (insert name content d))
with_temporary removes written name content use_it d =
    let (good, d') = use_it (insert name content d) in (good, clean_up removes name d')

unfoldable pub server_arg : Setup → Str
server_arg m = codes "--server=" ++ m.api

module _ (shell : Shell) (m : Setup) where
  unfoldable pub validate_command : Str → Command
  unfolding command_env
  validate_command candidate = record {
    args = codes "run" ∷ codes "-test" ∷ codes "-c" ∷ candidate ∷ [];
    env = command_env m;
  }

  unfoldable pub validate : Str → Disk → Bool × Disk
  unfolding validate_command
  validate candidate d = let r = shell (validate_command candidate) d in (r.0, r.2)

  -- The first argument tells whether the directory is there.
  unfoldable pub validate_content : Bool → Bool → Temporary → Str → Str → Disk → Bool × Disk
  unfolding with_temporary validate
  validate_content has_dir removes t name content d =
      if has_dir then with_temporary removes t name content (validate name) d else (false, d)

  unfoldable pub api_command : Str → List Str → Command
  unfolding server_arg
  api_command action args = record {
    args = codes "api" ∷ action ∷ server_arg m ∷ args;
    env = m.environ;
  }

  unfoldable pub run_api : Str → List Str → Disk → Bool × Disk
  unfolding api_command
  run_api action args d = let r = shell (api_command action args) d in (r.0, r.2)

  unfoldable pub run_api_with_temp_config : Bool → Temporary → Str → Str → Str → Disk → Bool × Disk
  unfolding with_temporary run_api
  run_api_with_temp_config removes t name action content d =
      with_temporary removes t name content (run_api action (name ∷ [])) d

  unfoldable pub remove_inbound_runtime : Str → Disk → Bool × Disk
  unfolding run_api
  remove_inbound_runtime tag d = run_api (codes "rmi") (tag ∷ []) d

  unfoldable pub remove_user_runtime : Str → Str → Disk → Bool × Disk
  unfolding run_api
  remove_user_runtime tag email d = run_api (codes "rmu") ((codes "-tag=" ++ tag) ∷ email ∷ []) d

  unfoldable pub api_healthy : Bool → Disk → Bool × Disk
  unfolding api_command
  api_healthy running d =
      let (exits, out, d') = shell (api_command (codes "statsquery") []) d in
      if running then (exits && not (out == []), d') else (false, d)

  -- What json.Unmarshal makes of the answer is a parameter.
  unfoldable pub query_stats :
      (Str → Option (List (Str × Json))) → Bool → Disk → Option (List TrafficRecord) × Disk
  unfolding api_command
  query_stats decode reset d =
      let (exits, out, d') =
        shell (api_command (codes "statsquery") (if reset then codes "-reset=true" ∷ [] else []))
          d in
      (
        if exits then (elim (decode out) [ none ↦ none | some rows ↦ parse_stats rows ]) else none,
        d',
      )

  unfoldable pub query_online_sessions :
      (Str → Option Json) → Disk → Option (List SessionRecord) × Disk
  unfolding api_command
  query_online_sessions decode d =
      let (exits, out, d') =
        shell (api_command (codes "statsonlineiplist") (codes "-all" ∷ [])) d in
      (if exits then parse_online_sessions (decode out) else none, d')
