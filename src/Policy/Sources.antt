-- ===== src/Policy/Sources.antt =====
-- src/runtime/sandbox/shell-policy-parser.mjs: parseLocalCommandSources and parseShellCommand, the
-- segments of a command with their places in it.
use codex_compatible_mcp.Base.{
  ℕ, suc, ◌+◌, ◌-◌, Bool, true, false, ◌&&◌, ◌||◌, Option, none, some, List, [], ◌∷◌, ◌++◌, leb,
  nat_beq, if◌then◌else◌, ◌==◌, length, take, drop, is_empty,
}
use codex_compatible_mcp.Base.Text.{Text, text, text_eq, is_space, drop_while, drop_end, trim}
use codex_compatible_mcp.Policy.Shell.{canonical_shell, is_slash, tokens_eq}
use codex_compatible_mcp.Policy.Tokens.{ShellKind, powershell, pwsh, cmd, is_cmd, unit_is}

abbrev pub or_powershell : Option Text → Text
or_powershell none = text "powershell"
or_powershell (some s) = s

-- A shell that is not one of the three is none.
abbrev pub kind_named : Text → Option ShellKind
kind_named s =
    if s == text "powershell"
    then some powershell
    else if s == text "pwsh"
    then some pwsh
    else if s == text "cmd"
    then some cmd
    else none

unfoldable pub shell_kind : Option Text → Option ShellKind
unfolding canonical_shell
shell_kind shell = kind_named (or_powershell (canonical_shell shell))

unfoldable pub unsupported_outside_quote : ShellKind → ℕ → Option ℕ → Bool
unsupported_outside_quote shell c after =
    nat_beq c b'>'
    || nat_beq c b'<'
    || (if is_cmd shell
        then nat_beq c b'(' || nat_beq c b')'
        else nat_beq c b'('
          || nat_beq c b')'
          || nat_beq c b'{'
          || nat_beq c b'}'
          || (nat_beq c b'$' && unit_is b'(' after)
          || nat_beq c b'#')

abbrev is_letter : ℕ → Bool
is_letter c = (leb b'A' c && leb c b'Z') || (leb b'a' c && leb c b'z')

abbrev ends_word : Text → Bool
ends_word [] = true
ends_word (c ∷ s) = is_space c

abbrev barred : ℕ → ℕ → Bool
barred q c = nat_beq c q || (nat_beq q 34 && (nat_beq c b'$' || nat_beq c 96))

-- The rest of the quoted path: at least one character that is allowed in it, then the quote, and
-- behind it white space or the end.
unfoldable path_ends : Bool → ℕ → Text → Bool
path_ends some_read q [] = false
path_ends some_read q (c ∷ s) =
    if barred q c then nat_beq c q && some_read && ends_word s else path_ends true q s

unfoldable drive_path : ℕ → Text → Bool
unfolding path_ends
drive_path q (c ∷ d ∷ e ∷ s) = is_letter c && nat_beq d b':' && is_slash e && path_ends false q s
drive_path q _ = false

unfoldable quoted_path : Text → Bool
unfolding drive_path
quoted_path [] = false
quoted_path (c ∷ s) = (nat_beq c 39 || nat_beq c 34) && drive_path c s

unfoldable call_target : Text → Bool
unfolding quoted_path
call_target [] = false
call_target (c ∷ s) = is_space c && quoted_path (drop_while is_space s)

-- `literalCall.test`.
unfoldable pub literal_call : Text → Bool
unfolding call_target
literal_call [] = false
literal_call (c ∷ s) = nat_beq c b'&' && call_target s

pub data Operator : Type 0 where
  both : Operator
  either : Operator
  pipe : Operator
  semicolon : Operator
  newline : Operator
  background : Operator

-- The operator at a character, and whether it takes the next one too.
unfoldable pub operator_at : ShellKind → ℕ → Option ℕ → Option (Operator × Bool)
operator_at shell c after =
    if nat_beq c b'&' && unit_is b'&' after
    then some (both, true)
    else if nat_beq c b'|' && unit_is b'|' after
    then some (either, true)
    else if nat_beq c b'|'
    then some (pipe, false)
    else if nat_beq c b';'
    then some (semicolon, false)
    else if nat_beq c 13 || nat_beq c 10
    then some (newline, nat_beq c 13 && unit_is 10 after)
    else if is_cmd shell && nat_beq c b'&'
    then some (background, false)
    else none

-- A stretch of the command without the white space around it, and its place.
pub record Source : Type 0 where
  pub source : Text
  pub start : ℕ
  pub end : ℕ

pub record Cut : Type 0 where
  pub segments : List Source
  pub operators : List Operator
  pub quote : Option ℕ
  pub escaped : Bool
  pub start : ℕ

-- `slice(start, end)` with `start` at most `end`.
abbrev pub slice : ℕ → ℕ → Text → Text
slice start end s = take (end - start) (drop start s)

-- `search(/\S/)` on a text with more than white space.
unfoldable pub leading : Text → ℕ
leading [] = 0
leading (c ∷ s) = if is_space c then suc (leading s) else 0

unfoldable pub trailing : Text → ℕ
unfolding drop_end
trailing s = length s - length (drop_end is_space s)

unfoldable pub source_of : ℕ → ℕ → Text → Source
unfolding leading trim trailing
source_of start end raw = record {
  source = trim raw;
  start = start + leading raw;
  end = end - trailing raw;
}

-- `pushSegment`; it fails on white space alone.
unfoldable pub push_segment : Text → ℕ → Operator → Cut → Option Cut
unfolding source_of trim
push_segment command end operator s =
    let raw = slice s.start end command in
    if is_empty (trim raw)
    then none
    else some (record s {
      segments = s.segments ++ (source_of s.start end raw ∷ []);
      operators = s.operators ++ (operator ∷ []);
    })
