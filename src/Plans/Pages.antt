-- ===== src/Plans/Pages.antt =====
-- src/controller/plan-manager.mjs: a page is within its limits, and the pages join to the whole plan.
use codex_compatible_mcp.Base.{
  ℕ, ◌+◌, ◌-◌, ◌≤◌, ◌≡◌, subst, min, max, Bool, Option, List, [], ◌∷◌, ◌++◌, length, take, drop,
  ltb, nat_beq, ok, arith, Bool-cases, inl, inr, length-take, length-drop, length-append,
}
use codex_compatible_mcp.Base.Text.{Text, join}
use codex_compatible_mcp.Plans.Slice.{
  max_read_lines, max_read_chars, or_number, select_more, select_lines, Slice, newline, slice_of,
  desired_end, bounded_slice,
}

-- The lines behind the first one keep what is shown within the limit.
length-select_more :
    (l : Text) (chars : ℕ) (ls : List Text)
    → length l ≤ chars
    → chars ≤ max_read_chars
    → length (join newline (l ∷ select_more chars ls)) + (chars - length l) ≤ max_read_chars
unfolding select_more join
length-select_more l chars [] h k = omega arith
length-select_more l chars (m ∷ ls) h k =
    elim (Bool-cases (ltb max_read_chars (chars + (length m + 1)))) [
      | inl long ↦ rw (long, select_more) (omega arith)
      | inr short ↦
          rw (short, select_more)
            (omega (
              arith,
              length-select_more m (chars + (length m + 1)) ls (omega arith) (ground arith),
              length-append l
                  (newline ++ join newline (m ∷ select_more (chars + (length m + 1)) ls)),
            ))
    ]

pub select_more_le : (chars : ℕ) (ls : List Text) → length (select_more chars ls) ≤ length ls
unfolding select_more
select_more_le chars [] = omega arith
select_more_le chars (l ∷ ls) = ground (arith, select_more_le (chars + (length l + 1)) ls)

select_lines_le : (ls : List Text) → length (select_lines ls).0 ≤ length ls
unfolding select_lines
select_lines_le [] = omega arith
select_lines_le (l ∷ ls) = ground (arith, select_more_le (length l) ls)

length-select_lines : (ls : List Text) → length (join newline (select_lines ls).0) ≤ max_read_chars
unfolding select_lines join
length-select_lines [] = omega arith
length-select_lines (l ∷ ls) = elim (Bool-cases (ltb max_read_chars (length l))) [
  | inl long ↦ rw (long, select_lines) (omega (arith, length-take max_read_chars l))
  | inr short ↦
      rw (short, select_lines)
        (omega (arith, length-select_more l (length l) ls (omega arith) (ground arith)))
]

unfoldable IsBounded : Slice → Type 0
IsBounded s =
    (length s.content ≤ max_read_chars)
    × (length s.selected ≤ max_read_lines)
    × (1 ≤ s.start_line)
    × (s.start_line ≤ s.end_line)
    × (s.end_line ≤ s.total_lines)

slice_of-IsBounded :
    (lines : List Text) (start : ℕ) (end : Option ℕ) (chosen : List Text × Bool)
    → 1 ≤ start
    → start ≤ length lines
    → length chosen.0 ≤ max_read_lines
    → length chosen.0 + start ≤ length lines + 1
    → length (join newline chosen.0) ≤ max_read_chars
    → IsBounded (slice_of lines start end chosen)
unfolding IsBounded slice_of
slice_of-IsBounded lines start end chosen one near few fit short =
    elim (Bool-cases (nat_beq (length chosen.0) 0)) [
      | inl e ↦ rw e (short, few, one, omega arith, omega arith)
      | inr e ↦ rw e (short, few, one, ground arith, omega arith)
    ]

-- A read that succeeds shows at most 400 lines and 32000 characters, and it starts at a line of the
-- plan and ends at one that is not before it.
pub bounded_slice-bounds :
    (lines : List Text) (start end : Option ℕ) (s : Slice)
    → bounded_slice lines start end ≡ ok s
    → (length s.content ≤ max_read_chars)
      × (length s.selected ≤ max_read_lines)
      × (1 ≤ s.start_line)
      × (s.start_line ≤ s.end_line)
      × (s.end_line ≤ s.total_lines)
unfolding bounded_slice IsBounded
bounded_slice-bounds lines requested_start requested_end s h =
    let start = max 1 (or_number requested_start 1) in
    let wanted = (desired_end (length lines) start requested_end + 1) - start in
    let page = take wanted (drop (start - 1) lines) in
    elim (Bool-cases (ltb (length lines) start)) [
      | inl far ↦ absurd (ground (arith, far, h))
      | inr near ↦
          let is_s : slice_of lines start requested_end (select_lines page) ≡ s =
            ground (arith, near, h) in
          let size : length page ≡ min wanted (length (drop (start - 1) lines)) =
            length-take wanted (drop (start - 1) lines) in
          let fits : start ≤ length lines = ground (arith, near) in
          subst IsBounded is_s (
            slice_of-IsBounded lines start requested_end (select_lines page) (omega arith) fits
              (omega (arith, select_lines_le page, size))
              (omega (arith, select_lines_le page, size, length-drop (start - 1) lines, fits))
              (length-select_lines page))
    ]
