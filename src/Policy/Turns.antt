-- ===== src/Policy/Turns.antt =====
-- src/runtime/sandbox/shell-policy-parser.mjs: what each round of the loop over a command keeps.
use codex_compatible_mcp.Base.{
  ℕ, suc, ◌+◌, ◌≤◌, ◌<◌, ◌≡◌, refl, subst, inl, inr, Bool, true, false, not, ◌&&◌, ◌||◌, Option,
  none, some, [], ◌∷◌, ◌++◌, nat_beq, if◌then◌else◌, length, drop, is_empty, arith, Bool-cases,
  length-append,
}
use codex_compatible_mcp.Base.Text.{Text, trim}
use codex_compatible_mcp.Policy.Tokens.{
  ShellKind, opens_computed, is_doubled, opens_quote, is_cmd, escape_char, escape_applies, unit_is,
}
use codex_compatible_mcp.Policy.Sources.{
  unsupported_outside_quote, literal_call, operator_at, Operator, Cut, slice, source_of,
  push_segment,
}
use codex_compatible_mcp.Policy.Parse.{
  Turn, reject, one, two, cut_operator, cut_bare, cut_quoted, cut_plain, cut_char, cut_loop,
}
use codex_compatible_mcp.Policy.Trims.{source_of-slice}
use codex_compatible_mcp.Policy.Places.{ArePlaced, ArePlaced-snoc}

-- What the loop keeps at a place of the command.
pub record IsCut (command : Text) (i : ℕ) (s : Cut) : Type 0 where
  pub placed : ArePlaced command 0 s.segments s.start
  pub started : s.start ≤ i
  pub counted : length s.segments ≡ length s.operators

-- A round keeps it for the place where the next one starts.
abbrev IsTurn : Text → ℕ → Turn → Type 0
IsTurn command i reject = Unit
IsTurn command i (one s) = IsCut command (suc i) s
IsTurn command i (two s) = IsCut command (suc (suc i)) s

pushed_IsCut :
    (command : Text) (i next later : ℕ) (operator : Operator) (s : Cut)
    → i < length command
    → i ≤ next
    → next ≤ later
    → IsCut command i s
    → is_empty (trim (slice s.start i command)) ≡ false
    → IsCut command later (record s {
      segments = s.segments ++ (source_of s.start i (slice s.start i command) ∷ []);
      operators = s.operators ++ (operator ∷ []);
      start = next;
    })
pushed_IsCut command i next later operator s within ahead before h full =
    let g = source_of s.start i (slice s.start i command) in
    let (a, b, c, e) = source_of-slice command s.start i h.started (omega arith) full in
    record {
      placed = ArePlaced-snoc command 0 s.start next s.segments g h.placed a b (omega arith) e;
      started = omega arith;
      counted = ground (
        arith,
        length-append s.segments (g ∷ []),
        length-append s.operators (operator ∷ []),
        h.counted,
      );
    }

-- What a round does to a cut beyond its segments and its start keeps it.
IsCut-later :
    (command : Text) (i later : ℕ) (quote : Option ℕ) (escaped : Bool) (s : Cut)
    → i ≤ later
    → IsCut command i s
    → IsCut command later (record s { quote = quote; escaped = escaped })
IsCut-later command i later quote escaped s ahead h = record {
  placed = h.placed;
  started = omega (arith, h.started);
  counted = h.counted;
}

module _ (command : Text) (i : ℕ) (s : Cut) (within : i < length command)
    (h : IsCut command i s) where
  cut_operator-IsTurn :
      (found : Option (Operator × Bool)) → IsTurn command i (cut_operator command i found s)
  unfolding cut_operator
  cut_operator-IsTurn none = IsCut-later command i (suc i) s.quote s.escaped s (omega arith) h
  cut_operator-IsTurn (some (operator, true)) =
      elim (Bool-cases (is_empty (trim (slice s.start i command)))) [
        | inl blank ↦ rw (blank, push_segment) tt
        | inr full ↦
            rw (full, push_segment)
              (pushed_IsCut command i (i + 2) (suc (suc i)) operator s within (omega arith)
                (omega arith) h full)
      ]
  cut_operator-IsTurn (some (operator, false)) =
      elim (Bool-cases (is_empty (trim (slice s.start i command)))) [
        | inl blank ↦ rw (blank, push_segment) tt
        | inr full ↦
            rw (full, push_segment)
              (pushed_IsCut command i (i + 1) (suc i) operator s within (omega arith) (omega arith)
                h full)
      ]

  quiet :
      (quote : Option ℕ) (escaped : Bool)
      → IsCut command (suc i) (record s { quote = quote; escaped = escaped })
  quiet quote escaped = IsCut-later command i (suc i) quote escaped s (omega arith) h

  on_both :
      (b : Bool) (x y : Turn)
      → IsTurn command i x
      → IsTurn command i y
      → IsTurn command i (if b then x else y)
  on_both true x y hx hy = hx
  on_both false x y hx hy = hy

  cut_quoted-IsTurn :
      (shell : ShellKind) (q c : ℕ) (after : Option ℕ)
      → IsTurn command i (cut_quoted shell q c after s)
  unfolding cut_quoted
  cut_quoted-IsTurn shell q c after = on_both (opens_computed shell q c after) reject _ tt (
      on_both (is_doubled shell q c after) (two s) _
        (IsCut-later command i (suc (suc i)) s.quote s.escaped s (omega arith) h)
        (on_both (nat_beq c q) (one (record s { quote = none })) (one s) (quiet none s.escaped)
          (quiet s.quote s.escaped)))

  cut_bare-IsTurn :
      (shell : ShellKind) (c : ℕ) (after : Option ℕ)
      → IsTurn command i (cut_bare shell command i c after s)
  unfolding cut_bare
  cut_bare-IsTurn shell c after =
      on_both (opens_quote shell c) (one (record s { quote = some c })) _ (quiet (some c) s.escaped)
        (on_both (not (is_cmd shell) && nat_beq c b'&' && not (unit_is b'&' after)) _ _
          (on_both
            (not (is_empty (trim (slice s.start i command))) || not (literal_call (drop i command)))
            reject (one s) tt (quiet s.quote s.escaped))
          (on_both (unsupported_outside_quote shell c after) reject _ tt
            (cut_operator-IsTurn (operator_at shell c after))))

  cut_plain-IsTurn :
      (quote : Option ℕ) (shell : ShellKind) (c : ℕ) (after : Option ℕ)
      → IsTurn command i (cut_plain quote shell command i c after s)
  unfolding cut_plain
  cut_plain-IsTurn none shell c after = cut_bare-IsTurn shell c after
  cut_plain-IsTurn (some q) shell c after = cut_quoted-IsTurn shell q c after

  cut_char-IsTurn :
      (shell : ShellKind) (c : ℕ) (after : Option ℕ)
      → IsTurn command i (cut_char shell command i c after s)
  unfolding cut_char
  cut_char-IsTurn shell c after =
      on_both s.escaped (one (record s { escaped = false })) _ (quiet s.quote false) (
        on_both (nat_beq c (escape_char shell) && escape_applies shell s.quote)
          (one (record s { escaped = true })) _ (quiet s.quote true)
          (cut_plain-IsTurn s.quote shell c after))

-- What the loop returns is a cut that the whole command allows.
abbrev pub IsLoop : Text → Option Cut → Type 0
IsLoop command none = Unit
IsLoop command (some s) = IsCut command (suc (length command)) s

data TurnCase (t : Turn) : Type 0 where
  rejects : t ≡ reject → TurnCase t
  by_one : (s : Cut) → t ≡ one s → TurnCase t
  by_two : (s : Cut) → t ≡ two s → TurnCase t

turn_case : (t : Turn) → TurnCase t
turn_case reject = rejects refl
turn_case (one s) = by_one s refl
turn_case (two s) = by_two s refl

loosen :
    (command : Text) (i later : ℕ) (s : Cut) → i ≤ later → IsCut command i s → IsCut command later s
loosen command i later s ahead h = record {
  placed = h.placed;
  started = omega (arith, h.started);
  counted = h.counted;
}

pub cut_loop-IsCut :
    (shell : ShellKind) (command : Text) (i : ℕ) (rest : Text) (s : Cut)
    → i + length rest ≡ length command
    → IsCut command i s
    → IsLoop command (cut_loop shell command i rest s)
unfolding cut_loop
cut_loop-IsCut shell command i [] s there h =
    loosen command i (suc (length command)) s (omega arith) h
cut_loop-IsCut shell command i (c ∷ []) s there h =
    let kept = cut_char-IsTurn command i s (omega arith) h shell c none in
    elim (turn_case (cut_char shell command i c none s)) [
      | rejects e ↦ rw (e, cut_loop) tt
      | by_one later e ↦
          rw (e, cut_loop)
            (loosen command (suc i) (suc (length command)) later (omega arith)
              (subst (IsTurn command i) e kept))
      | by_two later e ↦
          rw (e, cut_loop)
            (loosen command (suc (suc i)) (suc (length command)) later (omega arith)
              (subst (IsTurn command i) e kept))
    ]
cut_loop-IsCut shell command i (c ∷ d ∷ rest) s there h =
    let kept = cut_char-IsTurn command i s (omega arith) h shell c (some d) in
    elim (turn_case (cut_char shell command i c (some d) s)) [
      | rejects e ↦ rw (e, cut_loop) tt
      | by_one later e ↦
          rw (e, cut_loop)
            (cut_loop-IsCut shell command (suc i) (d ∷ rest) later (omega arith)
              (subst (IsTurn command i) e kept))
      | by_two later e ↦
          rw (e, cut_loop)
            (cut_loop-IsCut shell command (suc (suc i)) rest later (omega arith)
              (subst (IsTurn command i) e kept))
    ]
