-- ===== src/Plans/Whole.antt =====
-- src/controller/plan-manager.mjs: the pages of a plan, read one after the other, are the whole plan.
use codex_compatible_mcp.Base.{
  ℕ, zero, suc, ◌+◌, ◌-◌, ◌≤◌, ◌<◌, ◌≡◌, refl, sym, ap, ◌∙◌, max, Bool, true, false, Option, none,
  some, List, [], ◌∷◌, ◌++◌, length, take, drop, All, ltb, if◌then◌else◌, Outcome, ok, err, arith,
  Bool-cases, inl, inr, length-take, length-drop, drop-drop, take-append-drop, take-take_le,
  take-all,
}
use codex_compatible_mcp.Base.Text.{Text}
use mathlib.Core.List.{append-nil}
use codex_compatible_mcp.Plans.Pages.{select_more_le}
use codex_compatible_mcp.Plans.Slice.{
  max_read_chars, or_number, select_more, select_lines, Slice, PlanError, slice_of, desired_end,
  bounded_slice,
}

-- The lines that a client gets which reads on from each page's `next_start_line`.
abbrev pub selected_of : Outcome PlanError Slice → List Text
selected_of (err e) = []
selected_of (ok s) = s.selected

abbrev pub next_of : Outcome PlanError Slice → Option ℕ
next_of (err e) = none
next_of (ok s) = s.next_start_line

abbrev and_then : {A : Type 0} → Option ℕ → List A → List A
and_then none rest = []
and_then (some n) rest = rest

unfoldable pub pages : ℕ → List Text → ℕ → List Text
unfolding bounded_slice
pages zero lines start = []
pages (suc fuel) lines start =
    let page = bounded_slice lines (some start) none in
    let rest = pages fuel lines (or_number (next_of page) 0) in
    selected_of page ++ and_then (next_of page) rest

abbrev pub IsShort : Text → Type 0
IsShort l = length l ≤ max_read_chars

select_more-prefix :
    (chars : ℕ) (ls : List Text) → select_more chars ls ≡ take (length (select_more chars ls)) ls
unfolding select_more
select_more-prefix chars [] = refl
select_more-prefix chars (l ∷ ls) =
    elim (Bool-cases (ltb max_read_chars (chars + (length l + 1)))) [
      | inl long ↦ rw (long, select_more) refl
      | inr short ↦
          rw (short, select_more) (ap (◌∷◌ l) (select_more-prefix (chars + (length l + 1)) ls))
    ]

record Prefix (xs : List Text) (wanted : ℕ) (chosen : List Text × Bool) : Type 0 where
  size : ℕ
  some_line : 1 ≤ size
  fits : size ≤ length xs
  is_prefix : chosen ≡ (take size xs, false)

select_lines-Prefix :
    (xs : List Text) (wanted : ℕ)
    → All IsShort xs
    → 1 ≤ length xs
    → 1 ≤ wanted
    → Prefix xs wanted (select_lines (take wanted xs))
unfolding select_lines
select_lines-Prefix [] wanted short some_line w = absurd (omega arith)
select_lines-Prefix (l ∷ xs) zero short some_line w = absurd (omega arith)
select_lines-Prefix (l ∷ xs) (suc wanted) (short, rest) some_line w =
    let more = select_more (length l) (take wanted xs) in
    let fits : ltb max_read_chars (length l) ≡ false = ground (arith, short) in
    record {
      size = suc (length more);
      some_line = omega arith;
      fits = omega (arith, select_more_le (length l) (take wanted xs), length-take wanted xs);
      is_prefix =
          rw (fits, select_lines)
            (ap (λ t. (l ∷ t, false))
              (select_more-prefix (length l) (take wanted xs)
                ∙ take-take_le (length more) wanted xs (
                    omega
                      (arith, select_more_le (length l) (take wanted xs), length-take wanted xs))));
    }

All-drop : (n : ℕ) (ls : List Text) → All IsShort ls → All IsShort (drop n ls)
All-drop zero ls h = h
All-drop (suc n) [] h = tt
All-drop (suc n) (l ∷ ls) (short, rest) = All-drop n ls rest

record Page (lines : List Text) (start : ℕ) : Type 0 where
  size : ℕ
  some_line : 1 ≤ size
  fits : start + size ≤ length lines + 1
  is_page :
      bounded_slice lines (some start) none
      ≡ ok (slice_of lines start none (take size (drop (start - 1) lines), false))

lines-Page :
    (lines : List Text) (start : ℕ)
    → All IsShort lines
    → 1 ≤ start
    → start ≤ length lines
    → Page lines start
unfolding bounded_slice
lines-Page lines start short one near =
    let xs = drop (start - 1) lines in
    let wanted = (desired_end (length lines) start none + 1) - start in
    let p =
      select_lines-Prefix xs wanted (All-drop (start - 1) lines short)
        (omega (arith, length-drop (start - 1) lines)) (omega arith) in
    let given : max 1 (or_number (some start) 1) ≡ start = ground arith in
    let not_far : ltb (length lines) start ≡ false = ground arith in
    record {
      size = p.size;
      some_line = p.some_line;
      fits = omega (arith, p.fits, length-drop (start - 1) lines);
      is_page = rw (given, not_far, p.is_prefix) refl;
    }

next-page :
    (lines : List Text) (start size : ℕ)
    → 1 ≤ start
    → 1 ≤ size
    → start + size ≤ length lines + 1
    → next_of (ok (slice_of lines start none (take size (drop (start - 1) lines), false)))
      ≡ (if ltb ((start + size) - 1) (length lines) then some (start + size) else none)
unfolding slice_of
next-page lines start size one some_line fits =
    let n : length (take size (drop (start - 1) lines)) ≡ size =
      omega (arith, length-take size (drop (start - 1) lines), length-drop (start - 1) lines) in
    rw n (ground arith)

reached : (a b : ℕ) → ltb (a - 1) b ≡ true → a ≤ b
reached a b h = ground arith

le_of_ltb : (a b : ℕ) → ltb a b ≡ false → b ≤ a
le_of_ltb a b h = ground arith

-- A client that reads a plan from one of its lines on, and asks for each next page until there is
-- none, gets all the lines from there on, each once and in order, if no line is longer than a page; as
-- many rounds as there are lines left are enough.
pub pages_complete :
    (fuel : ℕ) (lines : List Text) (start : ℕ)
    → All IsShort lines
    → 1 ≤ start
    → start ≤ length lines
    → length lines < fuel + start
    → pages fuel lines start ≡ drop (start - 1) lines
unfolding pages slice_of
pages_complete zero lines start short one near enough = absurd (omega arith)
pages_complete (suc fuel) lines start short one near enough =
    let p = lines-Page lines start short one near in
    let xs = drop (start - 1) lines in
    let next = next-page lines start p.size one p.some_line p.fits in
    let shown : selected_of (bounded_slice lines (some start) none) ≡ take p.size xs =
      ap selected_of p.is_page in
    let behind : drop ((start + p.size) - 1) lines ≡ drop p.size xs =
      ap (λ k. drop k lines) (omega (arith, one)) ∙ sym (drop-drop (start - 1) p.size lines) in
    elim (Bool-cases (ltb ((start + p.size) - 1) (length lines))) [
      | inl more ↦
          let to : next_of (bounded_slice lines (some start) none) ≡ some (start + p.size) =
            ap next_of p.is_page ∙ next ∙ rw more refl in
          let from : or_number (some (start + p.size)) 0 ≡ start + p.size = ground arith in
          let later =
            pages_complete fuel lines (start + p.size) short (omega arith) (reached _ _ more)
              (omega (arith, p.some_line)) in
          rw (shown, to, from)
            (ap (λ t. take p.size xs ++ t) (later ∙ behind) ∙ take-append-drop p.size xs)
      | inr last ↦
          let to : next_of (bounded_slice lines (some start) none) ≡ none =
            ap next_of p.is_page ∙ next ∙ rw last refl in
          rw (shown, to)
            (append-nil (take p.size xs)
              ∙ take-all p.size xs
                  (omega (arith, le_of_ltb _ _ last, length-drop (start - 1) lines)))
    ]
