-- ===== src/Policy/Bound.antt =====
-- src/runtime/sandbox/shell-policy-parser.mjs: the segments that parseShellCommand returns.
use codex_compatible_mcp.Base.{
  ℕ, suc, ◌-◌, ◌≤◌, ◌<◌, ◌≡◌, refl, sym, ap, subst, ◌∙◌, inl, inr, false, ◌||◌, Option, none, some,
  List, [], ◌∷◌, length, drop, is_empty, arith, Bool-cases, Option-cases, length-append,
  length-drop, take-all,
}
use codex_compatible_mcp.Base.Text.{Text, trim, drop_while, drop_end}
use codex_compatible_mcp.Base.Dict.{is_some}
use codex_compatible_mcp.Policy.Shell.{tokens_eq}
use codex_compatible_mcp.Policy.Tokens.{ShellKind, tokenize_segment}
use codex_compatible_mcp.Policy.Sources.{Source, Cut, slice, source_of}
use codex_compatible_mcp.Policy.Parse.{first_cut, cut_loop, end_cut, cut_command}
use codex_compatible_mcp.Policy.Commands.{
  Segment, Command, callee, with_tokens, tokenized, parse_text,
}
use codex_compatible_mcp.Policy.Trims.{source_of-slice, nonempty-drop}
use codex_compatible_mcp.Policy.Places.{ArePlaced, ArePlaced-snoc}
use codex_compatible_mcp.Policy.Turns.{IsCut, IsLoop, cut_loop-IsCut}

-- A segment with its place in the command, not before `from`: its source is what stands there, and
-- its tokens are those of the source.
pub record IsSegment (shell : ShellKind) (command : Text) (from upto : ℕ) (g : Segment)
    : Type 0 where
  pub start : ℕ
  pub place : g.place ≡ some (start, upto)
  pub behind : from ≤ start
  pub room : start < upto
  pub cut : slice start upto command ≡ g.source
  pub words : tokenize_segment (callee shell g.source) shell ≡ some g.tokens

-- The segments stand in the command in order and apart.
abbrev pub AreSegments : ShellKind → Text → ℕ → List Segment → Type 0
AreSegments shell command from [] = from ≤ length command
AreSegments shell command from (g ∷ gs) =
    (upto : ℕ) × IsSegment shell command from upto g × AreSegments shell command upto gs

abbrev IsWhole : Text → Option Cut → Type 0
IsWhole command none = Unit
IsWhole command (some s) =
    ArePlaced command 0 s.segments (length command) × (length s.segments ≡ suc (length s.operators))

tail-slice :
    (command : Text) (start : ℕ) → drop start command ≡ slice start (length command) command
tail-slice command start = sym (
    take-all (length command - start) (drop start command)
      (omega (arith, length-drop start command)))

trim_nonempty : (s : Text) → is_empty (trim s) ≡ false → is_empty s ≡ false
unfolding trim drop_while drop_end
trim_nonempty [] h = absurd cc
trim_nonempty (c ∷ s) h = refl

end_cut-IsWhole :
    (command : Text) (s : Cut)
    → IsCut command (suc (length command)) s
    → IsWhole command (end_cut command (some s))
unfolding end_cut
end_cut-IsWhole command s h =
    elim (Bool-cases (is_some s.quote || s.escaped || is_empty (trim (drop s.start command)))) [
      | inl bad ↦ rw (bad, end_cut) tt
      | inr good ↦
          let full : is_empty (trim (drop s.start command)) ≡ false = ground arith in
          let inside = nonempty-drop s.start command (trim_nonempty (drop s.start command) full) in
          let tail = tail-slice command s.start in
          let (a, b, c, e) =
            source_of-slice command s.start (length command) (omega arith) (omega arith)
              (ap (λ t. is_empty (trim t)) (sym tail) ∙ full) in
          let g = source_of s.start (length command) (slice s.start (length command) command) in
          rw (good, tail, end_cut)
            (
              ArePlaced-snoc command 0 s.start (length command) s.segments g h.placed a b c e,
              ground (arith, length-append s.segments (g ∷ []), h.counted),
            )
    ]

end_loop-IsWhole :
    (command : Text) (s : Option Cut) → IsLoop command s → IsWhole command (end_cut command s)
unfolding end_cut
end_loop-IsWhole command none h = tt
end_loop-IsWhole command (some s) h = end_cut-IsWhole command s h

cut_command-IsWhole :
    (shell : ShellKind) (command : Text) → IsWhole command (cut_command shell command)
unfolding cut_command
cut_command-IsWhole shell command =
    let start : IsCut command 0 first_cut = record {
      placed = omega arith;
      started = omega arith;
      counted = refl;
    } in
    end_loop-IsWhole command (cut_loop shell command 0 command first_cut)
      (cut_loop-IsCut shell command 0 command first_cut (omega arith) start)

with_tokens-AreSegments :
    (shell : ShellKind) (command : Text) (from : ℕ) (ss : List Source) (gs : List Segment)
    → ArePlaced command from ss (length command)
    → with_tokens shell ss ≡ some gs
    → AreSegments shell command from gs × (length gs ≡ length ss)
unfolding with_tokens
with_tokens-AreSegments shell command from [] [] h e = (h, refl)
with_tokens-AreSegments shell command from [] (g ∷ gs) h e = absurd cc
with_tokens-AreSegments shell command from (s ∷ ss) gs (a, b, c, h) e =
    elim (Option-cases (tokenize_segment (callee shell s.source) shell)) [
      | inl bad ↦ absurd (ground (arith, bad))
      | inr (tokens, good) ↦ elim (Option-cases (with_tokens shell ss)) [
        | inl bad ↦ absurd (ground (arith, good, bad))
        | inr (rest, fine) ↦
            let g : Segment = record {
              source = s.source;
              place = some (s.start, s.end);
              tokens = tokens;
            } in
            let same : g ∷ rest ≡ gs = ground (arith, good, fine) in
            let (more, len) = with_tokens-AreSegments shell command s.end ss rest h fine in
            let here : IsSegment shell command from s.end g = record {
              start = s.start;
              place = refl;
              behind = a;
              room = b;
              cut = c;
              words = good;
            } in
            subst (λ gs. AreSegments shell command from gs × (length gs ≡ suc (length ss))) same
              ((s.end, here, more), ap suc len)
      ]
    ]

tokenized-AreSegments :
    (shell : ShellKind) (command : Text) (parsed : Command) (cut : Option Cut)
    → IsWhole command cut
    → tokenized shell cut ≡ some parsed
    → AreSegments shell command 0 parsed.segments
      × (length parsed.segments ≡ suc (length parsed.operators))
unfolding tokenized
tokenized-AreSegments shell command parsed none h e = absurd cc
tokenized-AreSegments shell command parsed (some s) h e =
    elim (Option-cases (with_tokens shell s.segments)) [
      | inl bad ↦ absurd (ground (arith, bad))
      | inr (gs, good) ↦
          let (placed, len) = with_tokens-AreSegments shell command 0 s.segments gs h.0 good in
          let read : ◌≡◌ {A = Command}
              (record {
                shell = shell;
                segments = gs;
                operators = s.operators;
                source_bound = false;
              })
              parsed =
            ground (arith, good) in
          subst
            (λ (parsed : Command).
              AreSegments shell command 0 parsed.segments
              × (length parsed.segments ≡ suc (length parsed.operators)))
            read (placed, len ∙ h.1)
    ]

-- Whatever the text: the segments into which the local parser takes a command stand in it in order
-- and apart; each has the text at its place for its source, and the tokens of that source; between
-- each two of them there is one operator.
pub parse_text-AreSegments :
    (shell : ShellKind) (command : Text) (parsed : Command)
    → parse_text (some shell) command ≡ some parsed
    → AreSegments shell command 0 parsed.segments
      × (length parsed.segments ≡ suc (length parsed.operators))
unfolding parse_text tokenized
parse_text-AreSegments shell command parsed h = elim (Bool-cases (is_empty (trim command))) [
  | inl blank ↦ absurd (ground (arith, blank))
  | inr full ↦
      tokenized-AreSegments shell command parsed (cut_command shell command)
        (cut_command-IsWhole shell command) (ground (arith, full))
]
