-- ===== src/Policy/Lowered.antt =====
-- src/runtime/sandbox/shell-policy-parser.mjs: parseShellCommand between the native parser and the
-- local one.
use codex_compatible_mcp.Base.{
  ◌≡◌, refl, sym, ap, subst, ◌∙◌, inl, inr, true, Option, none, some, List, [], ◌∷◌, map, arith,
  Bool-cases,
}
use codex_compatible_mcp.Base.Text.{Text}
use codex_compatible_mcp.Policy.Shell.{tokens_eq, tokens_beq_iff}
use codex_compatible_mcp.Policy.Tokens.{ShellKind, powershell, pwsh, cmd}
use codex_compatible_mcp.Policy.Sources.{shell_kind}
use codex_compatible_mcp.Policy.Commands.{
  Segment, Command, parse_text, parse_local_command_sources, is_bound, bound_segments,
  unbound_segment, lowered_command, lower_with, parse_kind, parse_shell_command,
}
use codex_compatible_mcp.Policy.Bound.{AreSegments, parse_text-AreSegments}

abbrev pub tokens_of : List Segment → List (List Text)
tokens_of gs = map (λ (g : Segment). g.tokens) gs

unbound-tokens : (lowered : List (List Text)) → tokens_of (map unbound_segment lowered) ≡ lowered
unbound-tokens [] = refl
unbound-tokens (ts ∷ lowered) = ap (◌∷◌ ts) (unbound-tokens lowered)

bound-tokens :
    (gs : List Segment) (lowered : List (List Text))
    → is_bound gs lowered ≡ true
    → (bound_segments gs lowered ≡ gs) × (tokens_of gs ≡ lowered)
unfolding is_bound
bound-tokens [] [] h = (refl, refl)
bound-tokens [] (ts ∷ lowered) h = absurd cc
bound-tokens (g ∷ gs) [] h = absurd cc
bound-tokens (g ∷ gs) (ts ∷ lowered) h =
    let both : (g.tokens ≡ ts) × (is_bound gs lowered ≡ true) =
      ground (arith, tokens_beq_iff g.tokens ts) in
    let (same, tokens) = bound-tokens gs lowered both.1 in
    (rw (sym both.0) (ap (◌∷◌ g) same), rw both.0 (ap (◌∷◌ ts) tokens))

-- What a command of PowerShell is, given what the native parser made of it.
abbrev IsLowered : ShellKind → Text → List (List Text) → Command → Type 0
IsLowered shell command lowered parsed =
    (tokens_of parsed.segments ≡ lowered)
    × (parsed.source_bound ≡ true → AreSegments shell command 0 parsed.segments)

lowered_command-IsLowered :
    (shell : ShellKind) (command : Text) (lowered : List (List Text)) (local : Option Command)
    → ((parsed : Command) → local ≡ some parsed → AreSegments shell command 0 parsed.segments)
    → IsLowered shell command lowered (lowered_command shell local lowered)
unfolding lowered_command
lowered_command-IsLowered shell command lowered none h =
    (unbound-tokens lowered, λ bound. absurd cc)
lowered_command-IsLowered shell command lowered (some parsed) h =
    elim (Bool-cases (is_bound parsed.segments lowered)) [
      | inl bound ↦
          let (same, tokens) = bound-tokens parsed.segments lowered bound in
          rw (bound, lowered_command, same) (tokens, λ _. h parsed refl)
      | inr loose ↦ rw (loose, lowered_command) (unbound-tokens lowered, λ bound. absurd cc)
    ]

-- What parseShellCommand returns for a text under a shell.
abbrev pub IsParsed : ShellKind → Text → Option (List (List Text)) → Command → Type 0
IsParsed cmd command lowered parsed = AreSegments cmd command 0 parsed.segments
IsParsed powershell command lowered parsed =
    (lowered ≡ some (tokens_of parsed.segments))
    × (parsed.source_bound ≡ true → AreSegments powershell command 0 parsed.segments)
IsParsed pwsh command lowered parsed =
    (lowered ≡ some (tokens_of parsed.segments))
    × (parsed.source_bound ≡ true → AreSegments pwsh command 0 parsed.segments)

lower_with-IsLowered :
    (shell : ShellKind) (command : Text) (local : Option Command)
    → ((parsed : Command) → local ≡ some parsed → AreSegments shell command 0 parsed.segments)
    → (lowered : Option (List (List Text))) (parsed : Command)
    → lower_with shell local lowered ≡ some parsed
    → (lowered ≡ some (tokens_of parsed.segments))
      × (parsed.source_bound ≡ true → AreSegments shell command 0 parsed.segments)
lower_with-IsLowered shell command local h none parsed e = absurd cc
lower_with-IsLowered shell command local h (some lowered) parsed e =
    let same : lowered_command shell local lowered ≡ parsed = ground arith in
    let (tokens, bound) = lowered_command-IsLowered shell command lowered local h in
    subst
      (λ (parsed : Command).
        (◌≡◌ {A = Option (List (List Text))} (some lowered) (some (tokens_of parsed.segments)))
        × (parsed.source_bound ≡ true → AreSegments shell command 0 parsed.segments))
      same (ap some (sym tokens), bound)

module _ (lower_script : Option Text → Option (List (List Text))) where
  parse_kind-IsParsed :
      (kind : ShellKind) (shell : Option Text) (command : Text) (parsed : Command)
      → shell_kind shell ≡ some kind
      → parse_kind lower_script (some kind) (some command) shell ≡ some parsed
      → IsParsed kind command (lower_script (some command)) parsed
  unfolding parse_kind parse_local_command_sources
  parse_kind-IsParsed cmd shell command parsed e h =
      (parse_text-AreSegments cmd command parsed (ap (λ k. parse_text k command) (sym e) ∙ h)).0
  parse_kind-IsParsed powershell shell command parsed e h =
      lower_with-IsLowered powershell command (parse_text (shell_kind shell) command)
        (λ read found.
          (parse_text-AreSegments powershell command read
            (ap (λ k. parse_text k command) (sym e) ∙ found)).0)
        (lower_script (some command)) parsed h
  parse_kind-IsParsed pwsh shell command parsed e h =
      lower_with-IsLowered pwsh command (parse_text (shell_kind shell) command)
        (λ read found.
          (parse_text-AreSegments pwsh command read
            (ap (λ k. parse_text k command) (sym e) ∙ found)).0)
        (lower_script (some command)) parsed h

-- Under cmd, the segments that are read stand in the text in order and apart, and each has the
-- tokens of what stands at its place. Under a PowerShell, whatever the native parser does: a text is
-- read only if it lowers it, the tokens of the segments are those that it gave, and where the result
-- is bound to the source, its segments stand in the text in that way too.
pub parse_shell_command-IsParsed :
    (lower_script : Option Text → Option (List (List Text)))
    → (kind : ShellKind) (shell : Option Text) (command : Text) (parsed : Command)
    → shell_kind shell ≡ some kind
    → parse_shell_command lower_script (some command) shell ≡ some parsed
    → IsParsed kind command (lower_script (some command)) parsed
unfolding parse_shell_command
parse_shell_command-IsParsed lower_script kind shell command parsed e h =
    parse_kind-IsParsed lower_script kind shell command parsed e
      (ap (λ k. parse_kind lower_script k (some command) shell) (sym e) ∙ h)
