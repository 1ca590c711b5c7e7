-- ===== src/Policy/Quoting.antt =====
-- src/runtime/sandbox/shell-policy-parser.mjs: tokenizeSegment on words that are written in quotes.
use codex_compatible_mcp.Base.{
  ℕ, ◌≡◌, refl, sym, ap, ◌∙◌, inl, inr, false, Option, none, some, List, [], ◌∷◌, ◌++◌, nat_beq,
  if◌then◌else◌, All, is_empty, arith, Bool-cases,
}
use codex_compatible_mcp.Base.Text.{Text, is_space}
use codex_compatible_mcp.Policy.Tokens.{
  ShellKind, powershell, Scan, next, scan_quoted, scan_bare, scan_plain, scan_char, scan, end_scan,
  tokenize_segment,
}
use mathlib.Core.List.{append_assoc, append-nil}

-- A word within single quotes, with each single quote in it doubled.
abbrev pub doubled : Text → Text
doubled [] = []
doubled (c ∷ w) = if nat_beq c 39 then 39 ∷ 39 ∷ doubled w else c ∷ doubled w

abbrev pub quoted : Text → Text → Text
quoted w rest = 39 ∷ (doubled w ++ (39 ∷ rest))

-- The words, each in quotes, with a space behind each.
abbrev pub command_line : List Text → Text
command_line [] = []
command_line (w ∷ ws) = quoted w (32 ∷ command_line ws)

abbrev inside : List Text → Text → Scan
inside tokens current = record {
  tokens = tokens;
  current = current;
  quote = some 39;
  escaped = false;
}

abbrev outside : List Text → Text → Scan
outside tokens current = record {
  tokens = tokens;
  current = current;
  quote = none;
  escaped = false;
}

scan_next :
    (shell : ShellKind) (c : ℕ) (rest : Text) (s later : Scan)
    → ((after : Option ℕ) → scan_char shell c after s ≡ next later)
    → scan shell (c ∷ rest) s ≡ scan shell rest later
unfolding scan
scan_next shell c [] s later h = rw (h none, scan) refl
scan_next shell c (d ∷ rest) s later h = rw (h (some d), scan) refl

scan_char-inside :
    (c : ℕ) (after : Option ℕ) (tokens : List Text) (current : Text)
    → nat_beq c 39 ≡ false
    → scan_char powershell c after (inside tokens current)
      ≡ next (inside tokens (current ++ (c ∷ [])))
unfolding scan_char scan_plain scan_quoted
scan_char-inside c after tokens current e = ground (arith, e)

scan_body :
    (w rest : Text) (tokens : List Text) (current : Text)
    → scan powershell (doubled w ++ (39 ∷ 32 ∷ rest)) (inside tokens current)
      ≡ scan powershell (32 ∷ rest) (outside tokens (current ++ w))
unfolding scan scan_char scan_plain scan_quoted
scan_body [] rest tokens current =
    ap (λ w. scan powershell (32 ∷ rest) (outside tokens w)) (sym (append-nil current))
scan_body (c ∷ w) rest tokens current = elim (Bool-cases (nat_beq c 39)) [
  | inl e ↦
      let same : c ≡ 39 = ground (arith, e) in
      rw same (
        scan_body w rest tokens (current ++ (39 ∷ []))
        ∙ ap (λ u. scan powershell (32 ∷ rest) (outside tokens u))
            (append_assoc current (39 ∷ []) w))
  | inr e ↦ rw e (
      scan_next powershell c (doubled w ++ (39 ∷ 32 ∷ rest)) (inside tokens current)
        (inside tokens (current ++ (c ∷ []))) (λ after. scan_char-inside c after tokens current e)
      ∙ scan_body w rest tokens (current ++ (c ∷ []))
      ∙ ap (λ u. scan powershell (32 ∷ rest) (outside tokens u)) (append_assoc current (c ∷ []) w))
]

abbrev pub IsWord : Text → Type 0
IsWord w = is_empty w ≡ false

scan_word :
    (w rest : Text) (tokens : List Text)
    → IsWord w
    → scan powershell (quoted w (32 ∷ rest)) (outside tokens [])
      ≡ scan powershell rest (outside (tokens ++ (w ∷ [])) [])
unfolding scan_char scan_plain scan_bare is_space
scan_word [] rest tokens h = absurd cc
scan_word (c ∷ w) rest tokens h =
    scan_next powershell 39 (doubled (c ∷ w) ++ (39 ∷ 32 ∷ rest)) (outside tokens [])
      (inside tokens []) (λ after. refl)
    ∙ scan_body (c ∷ w) rest tokens []
    ∙ scan_next powershell 32 rest (outside tokens (c ∷ w)) (outside (tokens ++ ((c ∷ w) ∷ [])) [])
        (λ after. refl)

scan_line :
    (ws : List Text) (tokens : List Text)
    → All IsWord ws
    → scan powershell (command_line ws) (outside tokens []) ≡ some (outside (tokens ++ ws) [])
unfolding scan
scan_line [] tokens h = ap (λ ts. some (outside ts [])) (sym (append-nil tokens))
scan_line (w ∷ ws) tokens (h, hs) =
    scan_word w (command_line ws) tokens h
    ∙ scan_line ws (tokens ++ (w ∷ [])) hs
    ∙ ap (λ ts. some (outside ts [])) (append_assoc tokens (w ∷ []) ws)

-- Words that are not empty, written each in single quotes with a space behind it, are the tokens
-- that are read back, whatever characters they have; under PowerShell, and with a word at least.
pub tokenize_segment-command_line :
    (w : Text) (ws : List Text)
    → All IsWord (w ∷ ws)
    → tokenize_segment (command_line (w ∷ ws)) powershell ≡ some (w ∷ ws)
unfolding tokenize_segment
tokenize_segment-command_line w ws h = ap end_scan (scan_line (w ∷ ws) [] h)
