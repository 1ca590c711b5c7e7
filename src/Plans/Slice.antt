-- ===== src/Plans/Slice.antt =====
-- src/controller/plan-manager.mjs: the lines of a plan, and the part of them that one read shows.
use codex_compatible_mcp.Base.{
  ℕ, suc, ◌+◌, ◌-◌, min, max, Bool, false, ◌&&◌, ◌||◌, Option, none, some, List, [], ◌∷◌, length,
  take, drop, is_empty, ltb, if◌then◌else◌, nat_beq, Outcome, ok, err,
}
use codex_compatible_mcp.Base.Text.{Text, lf_text, split_lines, join}

abbrev pub max_read_lines : ℕ
max_read_lines = 400

abbrev pub max_read_chars : ℕ
max_read_chars = 32000

-- `lines.pop()` where the last line is empty and not the only one.
unfoldable pub drop_last_empty : List Text → List Text
drop_last_empty [] = []
drop_last_empty (l ∷ []) = l ∷ []
drop_last_empty (l ∷ m ∷ []) = if is_empty m then l ∷ [] else l ∷ m ∷ []
drop_last_empty (l ∷ m ∷ n ∷ ls) = l ∷ drop_last_empty (m ∷ n ∷ ls)

-- `splitLines`.
unfoldable pub plan_lines : Text → List Text
unfolding drop_last_empty
plan_lines s = drop_last_empty (split_lines (lf_text s))

-- `value || fallback` on a number.
abbrev pub or_number : Option ℕ → ℕ → ℕ
or_number none d = d
or_number (some n) d = if nat_beq n 0 then d else n

-- What is selected of a line that is the first and too long, and whether any was cut off.
abbrev pub clip_first : Text → List Text × Bool
clip_first l = (take max_read_chars l ∷ [], ltb max_read_chars (length l))

-- The loop over the lines behind the first one, with the characters so far.
unfoldable pub select_more : ℕ → List Text → List Text
select_more chars [] = []
select_more chars (l ∷ ls) =
    let rest = select_more (chars + (length l + 1)) ls in
    if ltb max_read_chars (chars + (length l + 1)) then [] else l ∷ rest

unfoldable pub select_lines : List Text → List Text × Bool
unfolding select_more
select_lines [] = ([], false)
select_lines (l ∷ ls) =
    if ltb max_read_chars (length l) then clip_first l else (l ∷ select_more (length l) ls, false)

pub record Slice : Type 0 where
  pub start_line : ℕ
  pub end_line : ℕ
  pub total_lines : ℕ
  pub selected : List Text
  pub content : Text
  pub truncated : Bool
  pub line_truncated : Bool
  pub next_start_line : Option ℕ

pub data PlanError : Type 0 where
  start_too_large : (start total : ℕ) → PlanError

abbrev pub newline : Text
newline = 10 ∷ []

abbrev pub last_line : ℕ → ℕ → ℕ → ℕ
last_line start total selected =
    if nat_beq selected 0 then min start total else (start + selected) - 1

unfoldable pub slice_of : List Text → ℕ → Option ℕ → List Text × Bool → Slice
slice_of lines start requested_end chosen =
    let end_line = last_line start (length lines) (length chosen.0) in
    let truncated =
      ltb end_line (length lines) && ltb end_line (or_number requested_end (length lines)) in
    record {
      start_line = start;
      end_line = end_line;
      total_lines = length lines;
      selected = chosen.0;
      content = join newline chosen.0;
      truncated = truncated || chosen.1;
      line_truncated = chosen.1;
      next_start_line = if truncated then some (suc end_line) else none;
    }

-- `Math.min(totalLines, requestedEnd || …, start + MAX_READ_LINES - 1)`.
abbrev pub desired_end : ℕ → ℕ → Option ℕ → ℕ
desired_end total start requested_end =
    min total
      (min (or_number requested_end ((start + max_read_lines) - 1)) ((start + max_read_lines) - 1))

-- `boundedSlice`.
unfoldable pub bounded_slice : List Text → Option ℕ → Option ℕ → Outcome PlanError Slice
unfolding select_lines slice_of
bounded_slice lines requested_start requested_end =
    let start = max 1 (or_number requested_start 1) in
    let wanted = (desired_end (length lines) start requested_end + 1) - start in
    if ltb (length lines) start
    then err (start_too_large start (length lines))
    else ok
        (slice_of lines start requested_end (select_lines (take wanted (drop (start - 1) lines))))
