-- ===== src/Policy/Commands.antt =====
-- src/runtime/sandbox/shell-policy-parser.mjs: parseLocalCommandSources and parseShellCommand, what
-- becomes of the segments of a command.
use codex_compatible_mcp.Base.{
  ℕ, Bool, true, false, not, ◌&&◌, Option, none, some, List, [], ◌∷◌, map, if◌then◌else◌, ◌==◌,
  drop, is_empty,
}
use codex_compatible_mcp.Base.Text.{Text, is_space, drop_while, trim}
use codex_compatible_mcp.Policy.Shell.{tokens_eq}
use codex_compatible_mcp.Policy.Tokens.{ShellKind, powershell, pwsh, cmd, is_cmd, tokenize_segment}
use codex_compatible_mcp.Policy.Sources.{shell_kind, literal_call, Operator, Source, Cut}
use codex_compatible_mcp.Policy.Parse.{cut_command}

-- A segment's place is none where it is not known.
pub record Segment : Type 0 where
  pub source : Text
  pub place : Option (ℕ × ℕ)
  pub tokens : List Text

pub record Command : Type 0 where
  pub shell : ShellKind
  pub segments : List Segment
  pub operators : List Operator
  pub source_bound : Bool

unfoldable pub callee : ShellKind → Text → Text
unfolding literal_call drop_while
callee shell source =
    if not (is_cmd shell) && literal_call source
    then drop_while is_space (drop 1 source)
    else source

abbrev cons_segment : Source → Option (List Text) → Option (List Segment) → Option (List Segment)
cons_segment s none rest = none
cons_segment s (some tokens) none = none
cons_segment s (some tokens) (some rest) =
    some (record { source = s.source; place = some (s.start, s.end); tokens = tokens } ∷ rest)

unfoldable pub with_tokens : ShellKind → List Source → Option (List Segment)
unfolding tokenize_segment callee
with_tokens shell [] = some []
with_tokens shell (s ∷ ss) =
    cons_segment s (tokenize_segment (callee shell s.source) shell) (with_tokens shell ss)

abbrev local_command : ShellKind → Cut → Option (List Segment) → Option Command
local_command shell s none = none
local_command shell s (some segments) =
    some
      (record { shell = shell; segments = segments; operators = s.operators; source_bound = false })

unfoldable pub tokenized : ShellKind → Option Cut → Option Command
unfolding with_tokens
tokenized shell none = none
tokenized shell (some s) = local_command shell s (with_tokens shell s.segments)

unfoldable pub parse_text : Option ShellKind → Text → Option Command
unfolding cut_command tokenized trim
parse_text none command = none
parse_text (some shell) command =
    if is_empty (trim command) then none else tokenized shell (cut_command shell command)

-- A command that is no string is none.
unfoldable pub parse_local_command_sources : Option Text → Option Text → Option Command
unfolding parse_text shell_kind
parse_local_command_sources none shell = none
parse_local_command_sources (some command) shell = parse_text (shell_kind shell) command

-- Whether the segments have the tokens that the native parser gave.
unfoldable pub is_bound : List Segment → List (List Text) → Bool
is_bound [] [] = true
is_bound [] (ts ∷ lowered) = false
is_bound (s ∷ ss) [] = false
is_bound (s ∷ ss) (ts ∷ lowered) = s.tokens == ts && is_bound ss lowered

abbrev pub unbound_segment : List Text → Segment
unbound_segment tokens = record { source = []; place = none; tokens = tokens }

abbrev pub bound_segments : List Segment → List (List Text) → List Segment
bound_segments (s ∷ ss) (tokens ∷ lowered) =
    record s { tokens = tokens } ∷ bound_segments ss lowered
bound_segments [] lowered = []
bound_segments (s ∷ ss) [] = []

unfoldable pub bind_sources : ShellKind → Command → List (List Text) → Command
unfolding is_bound
bind_sources shell parsed lowered =
    if is_bound parsed.segments lowered
    then record {
      shell = shell;
      segments = bound_segments parsed.segments lowered;
      operators = parsed.operators;
      source_bound = true;
    }
    else record {
      shell = shell;
      segments = map unbound_segment lowered;
      operators = [];
      source_bound = false;
    }

unfoldable pub lowered_command : ShellKind → Option Command → List (List Text) → Command
unfolding bind_sources
lowered_command shell none lowered = record {
  shell = shell;
  segments = map unbound_segment lowered;
  operators = [];
  source_bound = false;
}
lowered_command shell (some parsed) lowered = bind_sources shell parsed lowered

abbrev pub lower_with : ShellKind → Option Command → Option (List (List Text)) → Option Command
lower_with shell parsed none = none
lower_with shell parsed (some lowered) = some (lowered_command shell parsed lowered)

-- `parseShellCommand`; `lower_script` is the native parser of PowerShell.
module _ (lower_script : Option Text → Option (List (List Text))) where
  unfoldable pub parse_kind : Option ShellKind → Option Text → Option Text → Option Command
  unfolding parse_local_command_sources lowered_command
  parse_kind none command shell = none
  parse_kind (some cmd) command shell = parse_local_command_sources command shell
  parse_kind (some powershell) command shell =
      lower_with powershell (parse_local_command_sources command shell) (lower_script command)
  parse_kind (some pwsh) command shell =
      lower_with pwsh (parse_local_command_sources command shell) (lower_script command)

  unfoldable pub parse_shell_command : Option Text → Option Text → Option Command
  unfolding parse_kind shell_kind
  parse_shell_command command shell = parse_kind (shell_kind shell) command shell
