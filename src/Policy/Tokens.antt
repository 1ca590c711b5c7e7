-- ===== src/Policy/Tokens.antt =====
-- src/runtime/sandbox/shell-policy-parser.mjs: tokenizeSegment, the tokens of one command.
use codex_compatible_mcp.Base.{
  ℕ, Bool, true, false, not, ◌&&◌, ◌||◌, Option, none, some, List, [], ◌∷◌, ◌++◌, nat_beq,
  if◌then◌else◌,
}
use codex_compatible_mcp.Base.Text.{Text, is_space}
use codex_compatible_mcp.Base.Dict.{is_some}

-- The shells that the parser knows.
pub data ShellKind : Type 0 where
  powershell : ShellKind
  pwsh : ShellKind
  cmd : ShellKind

abbrev pub is_cmd : ShellKind → Bool
is_cmd powershell = false
is_cmd pwsh = false
is_cmd cmd = true

-- The caret, or the backtick.
abbrev pub escape_char : ShellKind → ℕ
escape_char shell = if is_cmd shell then b'^' else 96

abbrev single_quote : ℕ
single_quote = 39

abbrev double_quote : ℕ
double_quote = 34

abbrev pub unit_is : ℕ → Option ℕ → Bool
unit_is c none = false
unit_is c (some d) = nat_beq d c

abbrev pub escape_applies : ShellKind → Option ℕ → Bool
escape_applies shell quote =
    if is_cmd shell then not (is_some quote) else not (unit_is single_quote quote)

pub record Scan : Type 0 where
  pub tokens : List Text
  pub current : Text
  pub quote : Option ℕ
  pub escaped : Bool

-- One round of a scanner's loop: it gives up, goes on behind the character, or skips the next one.
pub data Round (S : Type 0) : Type 0 where
  refuse : Round S
  next : S → Round S
  skip : S → Round S

abbrev pub opens_computed : ShellKind → ℕ → ℕ → Option ℕ → Bool
opens_computed shell q c after =
    not (is_cmd shell) && nat_beq q double_quote && nat_beq c b'$' && unit_is b'(' after

abbrev pub is_doubled : ShellKind → ℕ → ℕ → Option ℕ → Bool
is_doubled shell q c after =
    not (is_cmd shell)
    && nat_beq q single_quote
    && nat_beq c single_quote
    && unit_is single_quote after

abbrev pub opens_quote : ShellKind → ℕ → Bool
opens_quote shell c = nat_beq c double_quote || (not (is_cmd shell) && nat_beq c single_quote)

abbrev add_char : ℕ → Scan → Scan
add_char c s = record s { current = s.current ++ (c ∷ []) }

-- A token without characters is not pushed.
abbrev push_token : Text → List Text → List Text
push_token [] tokens = tokens
push_token (c ∷ current) tokens = tokens ++ ((c ∷ current) ∷ [])

abbrev end_token : Scan → Scan
end_token s = record s { tokens = push_token s.current s.tokens; current = [] }

unfoldable pub scan_quoted : ShellKind → ℕ → ℕ → Option ℕ → Scan → Round Scan
scan_quoted shell q c after s =
    if opens_computed shell q c after
    then refuse
    else if is_doubled shell q c after
    then skip (add_char c s)
    else if nat_beq c q
    then next (record s { quote = none })
    else next (add_char c s)

unfoldable pub scan_bare : ShellKind → ℕ → Scan → Round Scan
scan_bare shell c s =
    if opens_quote shell c
    then next (record s { quote = some c })
    else if is_space c
    then next (end_token s)
    else next (add_char c s)

unfoldable pub scan_plain : Option ℕ → ShellKind → ℕ → Option ℕ → Scan → Round Scan
unfolding scan_quoted scan_bare
scan_plain none shell c after s = scan_bare shell c s
scan_plain (some q) shell c after s = scan_quoted shell q c after s

-- The body of the loop, on a character and the one behind it.
unfoldable pub scan_char : ShellKind → ℕ → Option ℕ → Scan → Round Scan
unfolding scan_plain
scan_char shell c after s =
    if s.escaped
    then next (record (add_char c s) { escaped = false })
    else if nat_beq c (escape_char shell) && escape_applies shell s.quote
    then next (record s { escaped = true })
    else scan_plain s.quote shell c after s

abbrev pub last_round : {S : Type 0} → Round S → Option S
last_round refuse = none
last_round (next s) = some s
last_round (skip s) = some s

unfoldable pub scan : ShellKind → Text → Scan → Option Scan
unfolding scan_char
scan shell [] s = some s
scan shell (c ∷ []) s = last_round (scan_char shell c none s)
scan shell (c ∷ d ∷ rest) s = elim (scan_char shell c (some d) s) [
  | refuse ↦ none
  | next later ↦ scan shell (d ∷ rest) later
  | skip later ↦ scan shell rest later
]

abbrev pub some_tokens : List Text → Option (List Text)
some_tokens [] = none
some_tokens (t ∷ ts) = some (t ∷ ts)

abbrev pub end_scan : Option Scan → Option (List Text)
end_scan none = none
end_scan (some s) =
    if is_some s.quote || s.escaped then none else some_tokens (push_token s.current s.tokens)

abbrev pub first_scan : Scan
first_scan = record { tokens = []; current = []; quote = none; escaped = false }

unfoldable pub tokenize_segment : Text → ShellKind → Option (List Text)
unfolding scan
tokenize_segment source shell = end_scan (scan shell source first_scan)
