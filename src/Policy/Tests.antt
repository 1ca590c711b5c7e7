-- ===== src/Policy/Tests.antt =====
-- src/controller/exec-policy-store.mjs and src/runtime/sandbox/shell-policy-parser.mjs on concrete
-- commands.
mod Scripts
use codex_compatible_mcp.Base.{
  ℕ, ◌≡◌, ◌↔◌, ◌⊎◌, refl, Bool, true, false, Option, none, some, List, [], ◌∷◌, Outcome, ok, err,
  arith, map,
}
use codex_compatible_mcp.Base.Text.{Text, text, trim, drop_while, drop_end, is_space, starts_with}
use codex_compatible_mcp.Base.Dict
use codex_compatible_mcp.Base.Dict.{is_some}
use codex_compatible_mcp.Policy.Shell.{
  strings, tokens_beq, last_piece, ShellChoice, effective_shell,
}
use codex_compatible_mcp.Policy.Tokens.{
  powershell, pwsh, cmd, scan_quoted, scan_bare, scan_plain, scan_char, scan, tokenize_segment,
}
use codex_compatible_mcp.Policy.Sources.{semicolon}
use codex_compatible_mcp.Policy.Commands.{Command, parse_shell_command}
use codex_compatible_mcp.Policy.Store.{absent, ExecPolicyStore, write_failed, load}
use codex_compatible_mcp.Policy.Grants.{or_parse, match, new_rule, allow, close}
use codex_compatible_mcp.Policy.Prefixes.{IsRulePrefix, IsPrefix}
use codex_compatible_mcp.Policy.Matching.{Any, Covers, IsAllowed, match-IsAllowed}
use codex_compatible_mcp.Policy.Allowing.{allow-Covers}
use codex_compatible_mcp.Policy.Saving.{load-close, allow_unsaved}
use codex_compatible_mcp.Policy.Lowered.{IsParsed, parse_shell_command-IsParsed}
use codex_compatible_mcp.Policy.Quoting.{command_line, tokenize_segment-command_line}

abbrev git_push : List Text
git_push = text "git" ∷ text "push" ∷ []

git_push-IsRulePrefix : IsRulePrefix git_push
git_push-IsRulePrefix =
    (omega arith, omega arith, ((omega arith, omega arith), ((omega arith, omega arith), tt)))

abbrev fresh : ExecPolicyStore
fresh = load true absent

abbrev granted : ExecPolicyStore
granted = (allow true (text "id") (text "now") (strings git_push) fresh).0

abbrev cmd_shell : ShellChoice
cmd_shell = record { args_shell = some (text "C:\\Windows\\cmd.exe"); path = none; type = none }

abbrev no_parser : Option Text → Option (List (List Text))
no_parser script = none

-- Two commands joined, as the native parser lowers them.
abbrev two_commands : Option Text → Option (List (List Text))
two_commands script = some (git_push ∷ (text "dir" ∷ []) ∷ [])

abbrev joined : Text
joined = text "git 'push' ; dir"

abbrev parsed_joined : Command
parsed_joined = record {
  shell = pwsh;
  segments =
      record { source = text "git 'push'"; place = some (0, 10); tokens = git_push }
      ∷ record { source = text "dir"; place = some (13, 16); tokens = text "dir" ∷ [] }
      ∷ [];
  operators = semicolon ∷ [];
  source_bound = true;
}

match-IsAllowed_example :
    (is_some (match no_parser cmd_shell (some (text "git push x & dir")) none granted).1 ≡ true)
    ↔ IsAllowed granted.rules (
        or_parse none (
          parse_shell_command no_parser
            (some (text "git push x & dir"))
            (effective_shell cmd_shell)))
match-IsAllowed_example =
    match-IsAllowed no_parser cmd_shell (some (text "git push x & dir")) none granted

match_test : is_some (match no_parser cmd_shell (some (text "git push x")) none granted).1 ≡ true
unfolding starts_with last_piece load match allow Dict.set Dict.values
    codex_compatible_mcp.Base.Text.text_beq
match_test = refl

unmatched_test :
    is_some (match no_parser cmd_shell (some (text "git push x & dir")) none granted).1 ≡ false
unfolding starts_with last_piece load match allow codex_compatible_mcp.Base.Text.text_beq
unmatched_test = refl

allow-Covers_example :
    Any
      (Covers (text "git" ∷ []))
      (allow false (text "id") (text "now") (strings git_push) fresh).0.rules
    ↔ (Any (Covers (text "git" ∷ [])) fresh.rules ⊎ IsPrefix git_push (text "git" ∷ []))
allow-Covers_example =
    allow-Covers false (text "id") (text "now") git_push (text "git" ∷ []) fresh
      git_push-IsRulePrefix

load-close_example : (load true (close true granted).0.file).rules ≡ granted.rules
unfolding load allow
load-close_example = load-close granted refl ((tt, git_push-IsRulePrefix), tt)

allow_unsaved_example :
    let failed = allow false (text "id") (text "now") (strings git_push) fresh in
    (failed.1 ≡ err write_failed)
    × (failed.0.file ≡ absent)
    × (allow true (text "id2") (text "then") (strings git_push) failed.0
        ≡ (failed.0, ok (new_rule (text "id") (text "now") git_push)))
unfolding load
allow_unsaved_example =
    allow_unsaved (text "id") (text "now") (text "id2") (text "then") true git_push fresh refl
      git_push-IsRulePrefix refl

parse_shell_command-IsParsed_example :
    IsParsed pwsh joined (two_commands (some joined)) parsed_joined
unfolding starts_with tokens_beq last_piece match codex_compatible_mcp.Base.Text.text_beq
parse_shell_command-IsParsed_example =
    parse_shell_command-IsParsed two_commands pwsh (some (text "pwsh")) joined parsed_joined refl
      refl

tokenize_segment-command_line_example :
    tokenize_segment (command_line (text "it's" ∷ text "a b" ∷ [])) powershell
    ≡ some (text "it's" ∷ text "a b" ∷ [])
tokenize_segment-command_line_example =
    tokenize_segment-command_line (text "it's") (text "a b" ∷ []) (refl, (refl, tt))

-- An argument of no characters is no token.
empty_argument_test : tokenize_segment (text "del \"\" x") cmd ≡ some (text "del" ∷ text "x" ∷ [])
unfolding tokenize_segment scan scan_char scan_plain scan_quoted scan_bare is_space
empty_argument_test = refl
