-- ===== src/Policy/Parse.antt =====
-- src/runtime/sandbox/shell-policy-parser.mjs: parseLocalCommandSources, the
-- loop over a command.
use codex_compatible_mcp.Base.{
  ℕ, suc, ◌+◌, Bool, true, false, not, ◌&&◌, ◌||◌, Option, none, some, [], ◌∷◌, ◌++◌, nat_beq,
  if◌then◌else◌, length, drop, is_empty,
}
use codex_compatible_mcp.Base.Text.{Text, trim}
use codex_compatible_mcp.Base.Dict.{is_some}
use codex_compatible_mcp.Policy.Shell.{tokens_eq}
use codex_compatible_mcp.Policy.Tokens.{
  ShellKind, is_cmd, escape_char, escape_applies, opens_computed, unit_is, is_doubled, opens_quote,
}
use codex_compatible_mcp.Policy.Sources.{
  unsupported_outside_quote, literal_call, Operator, operator_at, Cut, slice, source_of,
  push_segment,
}

-- One round of the loop: it returns null, goes on behind the character, or takes the next one too.
pub data Turn : Type 0 where
  reject : Turn
  one : Cut → Turn
  two : Cut → Turn

abbrev turn_of : Bool → Cut → Turn
turn_of false s = one s
turn_of true s = two s

abbrev width : Bool → ℕ
width false = 1
width true = 2

abbrev start_behind : ℕ → Bool → Option Cut → Turn
start_behind i wide none = reject
start_behind i wide (some s) = turn_of wide (record s { start = i + width wide })

unfoldable pub cut_operator : Text → ℕ → Option (Operator × Bool) → Cut → Turn
unfolding push_segment
cut_operator command i none s = one s
cut_operator command i (some (operator, wide)) s =
    start_behind i wide (push_segment command i operator s)

unfoldable pub cut_bare : ShellKind → Text → ℕ → ℕ → Option ℕ → Cut → Turn
unfolding unsupported_outside_quote literal_call operator_at cut_operator trim
cut_bare shell command i c after s =
    if opens_quote shell c
    then one (record s { quote = some c })
    else if not (is_cmd shell) && nat_beq c b'&' && not (unit_is b'&' after)
    then (if not (is_empty (trim (slice s.start i command))) || not (literal_call (drop i command))
        then reject
        else one s)
    else if unsupported_outside_quote shell c after
    then reject
    else cut_operator command i (operator_at shell c after) s

unfoldable pub cut_quoted : ShellKind → ℕ → ℕ → Option ℕ → Cut → Turn
cut_quoted shell q c after s =
    if opens_computed shell q c after
    then reject
    else if is_doubled shell q c after
    then two s
    else if nat_beq c q
    then one (record s { quote = none })
    else one s

unfoldable pub cut_plain : Option ℕ → ShellKind → Text → ℕ → ℕ → Option ℕ → Cut → Turn
unfolding cut_bare cut_quoted
cut_plain none shell command i c after s = cut_bare shell command i c after s
cut_plain (some q) shell command i c after s = cut_quoted shell q c after s

-- The body of the loop, at a place with its character and the one behind it.
unfoldable pub cut_char : ShellKind → Text → ℕ → ℕ → Option ℕ → Cut → Turn
unfolding cut_plain
cut_char shell command i c after s =
    if s.escaped
    then one (record s { escaped = false })
    else if nat_beq c (escape_char shell) && escape_applies shell s.quote
    then one (record s { escaped = true })
    else cut_plain s.quote shell command i c after s

abbrev last_turn : Turn → Option Cut
last_turn reject = none
last_turn (one s) = some s
last_turn (two s) = some s

-- The loop on what is left of the command from a place on.
unfoldable pub cut_loop : ShellKind → Text → ℕ → Text → Cut → Option Cut
unfolding cut_char
cut_loop shell command i [] s = some s
cut_loop shell command i (c ∷ []) s = last_turn (cut_char shell command i c none s)
cut_loop shell command i (c ∷ d ∷ rest) s = elim (cut_char shell command i c (some d) s) [
  | reject ↦ none
  | one later ↦ cut_loop shell command (suc i) (d ∷ rest) later
  | two later ↦ cut_loop shell command (suc (suc i)) rest later
]

abbrev pub first_cut : Cut
first_cut = record { segments = []; operators = []; quote = none; escaped = false; start = 0 }

abbrev add_tail : Text → Cut → Option Cut
unfolding source_of trim
add_tail command s =
    let tail = drop s.start command in
    if is_some s.quote || s.escaped || is_empty (trim tail)
    then none
    else some (record s { segments = s.segments ++ (source_of s.start (length command) tail ∷ []) })

unfoldable pub end_cut : Text → Option Cut → Option Cut
unfolding source_of trim
end_cut command none = none
end_cut command (some s) = add_tail command s

unfoldable pub cut_command : ShellKind → Text → Option Cut
unfolding cut_loop end_cut
cut_command shell command = end_cut command (cut_loop shell command 0 command first_cut)
