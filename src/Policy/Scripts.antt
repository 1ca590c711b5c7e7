-- ===== src/Policy/Scripts.antt =====
-- src/controller/package-script-policy.mjs and src/controller/trusted-package-script-store.mjs: the
-- class TrustedPackageScriptStore. `file` is what its state file holds; writes to it succeed.
use codex_compatible_mcp.Base.{
  ℕ, Bool, true, false, not, ◌&&◌, ◌||◌, Option, none, some, List, [], ◌∷◌, ◌++◌, leb, nat_beq,
  if◌then◌else◌, ◌==◌, filter, any, all, is_empty,
}
use codex_compatible_mcp.Base.Text.{Text, text, text_eq, is_space, trim}
use codex_compatible_mcp.Base.Dict.{is_some}
use codex_compatible_mcp.Policy.Shell.{to_lower, ShellChoice, effective_shell, normalize_workdir}

abbrev pub text_of : Option Text → Text
text_of none = []
text_of (some s) = s

unfoldable pub normalize_command : Option Text → Text
unfolding trim
normalize_command value = trim (text_of value)

abbrev end_word : Text → List Text → List Text
end_word [] ws = ws
end_word (c ∷ w) ws = (c ∷ w) ∷ ws

-- The pieces between white space, with the one that is read so far.
unfoldable pub words : Text → Text → List Text
words piece [] = end_word piece []
words piece (c ∷ s) =
    if is_space c then end_word piece (words [] s) else words (piece ++ (c ∷ [])) s

pub record PackageScript : Type 0 where
  pub package_manager : Text
  pub script : Text

abbrev is_npm : Text → Bool
is_npm m = m == text "npm" || m == text "npm.cmd"

-- The name of a package manager without `.cmd`.
abbrev manager_of : Text → Option Text
manager_of m =
    if is_npm m
    then some (text "npm")
    else if m == text "pnpm" || m == text "pnpm.cmd"
    then some (text "pnpm")
    else if m == text "yarn" || m == text "yarn.cmd"
    then some (text "yarn")
    else none

abbrev is_script_char : ℕ → Bool
is_script_char c =
    (leb b'A' c && leb c b'Z')
    || (leb b'a' c && leb c b'z')
    || (leb b'0' c && leb c b'9')
    || nat_beq c b':'
    || nat_beq c b'_'
    || nat_beq c b'-'

abbrev script_of : Option Text → Text → Option PackageScript
script_of none script = none
script_of (some manager) script = some (record { package_manager = manager; script = script })

-- The two regular expressions, on the words of a trimmed command.
abbrev parse_words : List Text → Option PackageScript
parse_words (m ∷ t ∷ []) =
    if is_npm (to_lower m) && to_lower t == text "test"
    then script_of (some (text "npm")) (text "test")
    else none
parse_words (m ∷ r ∷ s ∷ []) =
    if to_lower r == text "run" && all is_script_char s
    then script_of (manager_of (to_lower m)) s
    else none
parse_words _ = none

unfoldable pub parse_package_script_command : Option Text → Option PackageScript
unfolding words normalize_command
parse_package_script_command command = parse_words (words [] (normalize_command command))

-- A script with the digest of its text.
pub record Binding : Type 0 where
  pub package_manager : Text
  pub script : Text
  pub script_sha256 : Text

-- What a rule asks of an execution, with the command and the working directory normalised.
pub record Key : Type 0 where
  pub environment_id : Text
  pub workspace_id : Text
  pub workspace_root : Text
  pub command : Text
  pub workdir : Option Text
  pub shell : Option Text
  pub tty : Bool

pub record Execution : Type 0 where
  pub environment_id : Text
  pub workspace_id : Text
  pub workspace_root : Text
  pub cmd : Option Text
  pub workdir : Option Text
  pub choice : ShellChoice
  pub tty : Bool

abbrev pub key_of : Execution → Key
key_of x = record {
  environment_id = x.environment_id;
  workspace_id = x.workspace_id;
  workspace_root = x.workspace_root;
  command = normalize_command x.cmd;
  workdir = normalize_workdir x.workdir;
  shell = effective_shell x.choice;
  tty = x.tty;
}

pub record ScriptRule : Type 0 where
  pub rule_id : Text
  pub key : Key
  pub package_script : Binding
  pub created_at : Text

abbrev pub option_beq : Option Text → Option Text → Bool
option_beq none none = true
option_beq none (some s) = false
option_beq (some s) none = false
option_beq (some s) (some t) = s == t

abbrev pub bool_beq : Bool → Bool → Bool
bool_beq true b = b
bool_beq false b = not b

-- `sameExecution`.
unfoldable pub same_key : Key → Key → Bool
same_key j k =
    j.environment_id == k.environment_id
    && j.workspace_id == k.workspace_id
    && j.workspace_root == k.workspace_root
    && j.command == k.command
    && option_beq j.workdir k.workdir
    && option_beq j.shell k.shell
    && bool_beq j.tty k.tty

unfoldable pub same_binding : Binding → Binding → Bool
same_binding a b =
    a.package_manager == b.package_manager
    && a.script == b.script
    && a.script_sha256 == b.script_sha256

pub data ScriptEvent : Type 0 where
  rule_invalidated : Text → ScriptEvent
  rule_matched : Text → ScriptEvent
  rule_created : Text → ScriptEvent

pub record ScriptStore : Type 0 where
  pub has_file : Bool
  pub rules : List ScriptRule
  pub file : List ScriptRule
  pub audit : List ScriptEvent

pub data ScriptError : Type 0 where
  write_failed : ScriptError
  unresolved_script : ScriptError
  compound_command : ScriptError

-- Whether the fields that the filter of `#load` asks for are there; the others are not read by it.
abbrev is_loadable : ScriptRule → Bool
is_loadable r = not (
    is_empty r.rule_id
    || is_empty r.key.environment_id
    || is_empty r.key.workspace_id
    || is_empty r.key.workspace_root
    || is_empty r.key.command
    || is_empty r.package_script.package_manager
    || is_empty r.package_script.script
    || is_empty r.package_script.script_sha256)

-- The constructor, on the rules of a file that could be read.
unfoldable pub load : Bool → List ScriptRule → ScriptStore
load has_file file = record {
  has_file = has_file;
  rules = if has_file then filter is_loadable file else [];
  file = file;
  audit = [];
}

abbrev written : Bool → ScriptStore → ScriptStore × Option ScriptError
written true s = (record s { file = s.rules }, none)
written false s = (s, some write_failed)

-- Whether the write succeeds is an argument; one that fails leaves the file, which is written beside it
-- and renamed.
unfoldable pub persist : Bool → ScriptStore → ScriptStore × Option ScriptError
persist writes s = if s.has_file then written writes s else (s, none)

abbrev pub emit : ScriptEvent → ScriptStore → ScriptStore
emit e s = record s { audit = s.audit ++ (e ∷ []) }

abbrev pub runs_as : Key → ScriptRule → Bool
runs_as k r = same_key r.key k

unfoldable pub may_match : Execution → ScriptStore → Bool
unfolding parse_package_script_command same_key normalize_workdir effective_shell
may_match x s = is_some (parse_package_script_command x.cmd) && any (runs_as (key_of x)) s.rules
