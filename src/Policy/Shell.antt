-- ===== src/Policy/Shell.antt =====
-- src/runtime/sandbox/shell-policy-parser.mjs: the shell of a command, and prefixes of tokens.
use codex_compatible_mcp.Base.{
  ℕ, ◌+◌, Bool, true, false, ◌&&◌, ◌||◌, Option, none, some, List, [], ◌∷◌, ◌++◌, map, ltb, leb,
  nat_beq, if◌then◌else◌, ◌==◌, ◌≡◌, ◌↔◌, Eq, length, drop, arith,
}
use codex_compatible_mcp.Base.Text.{Text, text, text_eq, text_beq_iff, starts_with}
use mathlib.Core.List.{reverse}

-- Lists of tokens compare element by element.
unfoldable pub tokens_beq : List Text → List Text → Bool
tokens_beq [] [] = true
tokens_beq [] (u ∷ us) = false
tokens_beq (t ∷ ts) [] = false
tokens_beq (t ∷ ts) (u ∷ us) = t == u && tokens_beq ts us

pub tokens_beq_iff : (ts us : List Text) → (tokens_beq ts us ≡ true) ↔ (ts ≡ us)
unfolding tokens_beq
tokens_beq_iff [] [] = ground arith
tokens_beq_iff [] (u ∷ us) = ground arith
tokens_beq_iff (t ∷ ts) [] = ground arith
tokens_beq_iff (t ∷ ts) (u ∷ us) = ground (arith, text_beq_iff t u, tokens_beq_iff ts us)

instance abbrev pub tokens_eq : Eq (List Text)
tokens_eq = record { beq = tokens_beq; beq_iff = tokens_beq_iff }

-- `toLowerCase`; letters beyond ASCII are kept.
abbrev pub lower_unit : ℕ → ℕ
lower_unit c = if leb b'A' c && leb c b'Z' then c + 32 else c

abbrev pub to_lower : Text → Text
to_lower s = map lower_unit s

-- `normalizeNullable`; `undefined` and `null` are none.
abbrev pub normalize_nullable : Option Text → Option Text
normalize_nullable none = none
normalize_nullable (some []) = none
normalize_nullable (some (c ∷ s)) = some (c ∷ s)

abbrev pub is_slash : ℕ → Bool
is_slash c = nat_beq c b'/' || nat_beq c b'\\'

-- `split(/[\\/]/).pop()`: what stands behind the last slash, with the piece that is read so far.
unfoldable pub last_piece : Text → Text → Text
last_piece piece [] = piece
last_piece piece (c ∷ s) = last_piece (if is_slash c then [] else piece ++ (c ∷ [])) s

-- `replace(/\.exe$/, '')`.
abbrev pub drop_exe : Text → Text
drop_exe s = if starts_with (text "exe.") (reverse s) then reverse (drop 4 (reverse s)) else s

abbrev shell_name : Text → Text → Text
shell_name normalized name =
    if name == text "powershell"
    then text "powershell"
    else if name == text "pwsh"
    then text "pwsh"
    else if name == text "cmd"
    then text "cmd"
    else to_lower normalized

abbrev pub canonical_of : Option Text → Option Text
unfolding last_piece
canonical_of none = none
canonical_of (some s) = some (shell_name s (drop_exe (to_lower (last_piece [] s))))

unfoldable pub canonical_shell : Option Text → Option Text
canonical_shell value = canonical_of (normalize_nullable value)

-- `||` on texts.
abbrev pub or_else : Option Text → Option Text → Option Text
or_else none other = other
or_else (some []) other = other
or_else (some (c ∷ s)) other = some (c ∷ s)

-- The shell that a call names, and what its environment has.
pub record ShellChoice : Type 0 where
  pub args_shell : Option Text
  pub path : Option Text
  pub type : Option Text

unfoldable pub effective_shell : ShellChoice → Option Text
unfolding canonical_shell
effective_shell choice =
    canonical_shell (or_else choice.args_shell (or_else choice.path (or_else choice.type none)))

abbrev pub is_here : Text → Bool
is_here s = s == text "." || s == text ".\\" || s == text "./"

unfoldable pub normalize_workdir : Option Text → Option Text
normalize_workdir value = elim (normalize_nullable value) [
  | none ↦ none
  | some s ↦ if is_here s then none else some s
]

-- Tokens as a value that may be no array, of elements that may be no strings.
abbrev pub Untyped : Type 0
Untyped = Option (List (Option Text))

abbrev pub strings : List Text → Untyped
strings ts = some (map some ts)

abbrev is_token : Text → Bool
is_token t = ltb 0 (length t) && leb (length t) 4096

abbrev pub cons_some {ℓ} : {A : Type ℓ} → A → Option (List A) → Option (List A)
cons_some a none = none
cons_some a (some rest) = some (a ∷ rest)

unfoldable pub validate_tokens : List (Option Text) → Option (List Text)
validate_tokens [] = some []
validate_tokens (none ∷ ts) = none
validate_tokens (some t ∷ ts) = if is_token t then cons_some t (validate_tokens ts) else none

unfoldable pub validate_prefix_tokens : Untyped → Option (List Text)
unfolding validate_tokens
validate_prefix_tokens none = none
validate_prefix_tokens (some ts) =
    if nat_beq (length ts) 0 || ltb 64 (length ts) then none else validate_tokens ts

-- The loop over the tokens of the prefix.
unfoldable pub tokens_agree : List Text → List Text → Bool
tokens_agree [] actual = true
tokens_agree (e ∷ es) [] = false
tokens_agree (e ∷ es) (a ∷ rest) = e == a && tokens_agree es rest

abbrev prefix_agrees : Option (List Text) → List Text → Bool
prefix_agrees none tokens = false
prefix_agrees (some normalized) tokens =
    if ltb (length tokens) (length normalized) then false else tokens_agree normalized tokens

unfoldable pub token_prefix_matches : Untyped → List Text → Bool
unfolding validate_prefix_tokens tokens_agree
token_prefix_matches prefix tokens = prefix_agrees (validate_prefix_tokens prefix) tokens
