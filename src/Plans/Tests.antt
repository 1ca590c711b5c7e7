-- ===== src/Plans/Tests.antt =====
-- src/controller/plan-manager.mjs: the pages of small plans.
use codex_compatible_mcp.Base.{
  ℕ, zero, suc, ◌+◌, ◌-◌, ◌≤◌, ◌<◌, ◌≡◌, refl, Bool, true, false, Option, none, some, List, [], ◌∷◌,
  length, take, drop, All, Outcome, ok, err, arith,
}
use codex_compatible_mcp.Base.Text.{Text, text, join}
use codex_compatible_mcp.Plans.Slice.{
  max_read_lines, max_read_chars, drop_last_empty, plan_lines, select_more, select_lines, Slice,
  slice_of, bounded_slice,
}
use codex_compatible_mcp.Plans.Pages.{bounded_slice-bounds}
use codex_compatible_mcp.Plans.Whole.{next_of, pages, pages_complete}

abbrev two_lines : List Text
two_lines = text "one" ∷ text "two" ∷ []

abbrev slice : Slice
slice = record {
  start_line = 2;
  end_line = 2;
  total_lines = 2;
  selected = text "two" ∷ [];
  content = text "two";
  truncated = false;
  line_truncated = false;
  next_start_line = none;
}

repeat : ℕ → List Text
repeat zero = []
repeat (suc n) = text "x" ∷ repeat n

lines_test : plan_lines (text "one\r\ntwo\n") ≡ two_lines
unfolding drop_last_empty plan_lines select_more select_lines slice_of bounded_slice pages repeat
    codex_compatible_mcp.Base.Text.lf_text codex_compatible_mcp.Base.Text.split_lines
    codex_compatible_mcp.Base.Text.join
lines_test = refl

next_test : next_of (bounded_slice (repeat 1000) none none) ≡ some 401
unfolding drop_last_empty plan_lines select_more select_lines slice_of bounded_slice pages repeat
    codex_compatible_mcp.Base.Text.lf_text codex_compatible_mcp.Base.Text.split_lines
    codex_compatible_mcp.Base.Text.join
next_test = refl

bounded_slice-bounds_example :
    (length slice.content ≤ max_read_chars)
    × (length slice.selected ≤ max_read_lines)
    × (1 ≤ slice.start_line)
    × (slice.start_line ≤ slice.end_line)
    × (slice.end_line ≤ slice.total_lines)
unfolding drop_last_empty plan_lines select_more select_lines slice_of bounded_slice pages repeat
    codex_compatible_mcp.Base.Text.lf_text codex_compatible_mcp.Base.Text.split_lines
    codex_compatible_mcp.Base.Text.join
bounded_slice-bounds_example = bounded_slice-bounds two_lines (some 2) none slice refl

pages_complete_example : pages 2 two_lines 1 ≡ drop (1 - 1) two_lines
unfolding drop_last_empty plan_lines select_more select_lines slice_of bounded_slice pages repeat
    codex_compatible_mcp.Base.Text.lf_text codex_compatible_mcp.Base.Text.split_lines
    codex_compatible_mcp.Base.Text.join
pages_complete_example =
    pages_complete 2 two_lines 1 (omega arith, (omega arith, tt)) (omega arith) (omega arith)
      (omega arith)
