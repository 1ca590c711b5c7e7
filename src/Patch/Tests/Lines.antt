-- ===== src/Patch/Tests/Lines.antt =====
-- src/runtime/filesystem/apply-patch.mjs: a search in three lines, a chunk, and the theorems at them.
use codex_compatible_mcp.Base.{
  ℕ, suc, ◌+◌, ◌≤◌, ◌<◌, ◌≡◌, ◌≢◌, refl, ◌⊎◌, inl, inr, Bool, true, false, Option, none, some, List,
  [], ◌∷◌, ◌++◌, map, length, take, arith, Outcome, ok, err, ◌==◌, if◌then◌else◌,
}
use codex_compatible_mcp.Base.Text.{Text, text, text_eq}
use codex_compatible_mcp.Patch.Seek.{
  exact, compare_lines, matches_at, try_from, try_sequence, modes, try_modes, try_starts,
  find_sequence,
}
use codex_compatible_mcp.Patch.Found.{Best}
use codex_compatible_mcp.Patch.Search.{find_sequence-Best}
use codex_compatible_mcp.Patch.Update.{
  keep_context, splice, seek_context, replace_chunk, place_chunk, apply_chunk, apply_chunks,
}
use codex_compatible_mcp.Patch.Edits.{old_count, new_count, apply_chunks_extent}
use codex_compatible_mcp.Patch.Tests.{chunk, lines}

found_example : find_sequence lines (text "two" ∷ []) 0 false ≡ some (2, exact)
unfolding compare_lines matches_at try_from try_sequence try_modes try_starts find_sequence
    codex_compatible_mcp.Base.Text.text_beq
found_example = refl

trimmed_example : find_sequence lines (text "two" ∷ []) 0 true ≡ some (2, exact)
unfolding compare_lines matches_at try_from try_sequence try_modes try_starts find_sequence
    codex_compatible_mcp.Base.Text.text_beq
trimmed_example = refl

find_sequence-Best_example : Best lines (text "two" ∷ []) 0 2 exact modes
unfolding compare_lines matches_at try_from try_sequence try_modes try_starts find_sequence
    codex_compatible_mcp.Base.Text.text_beq
find_sequence-Best_example = find_sequence-Best lines (text "two") [] 0 2 exact refl

apply_chunks_extent_example :
    (take 0 (text "one" ∷ text "two " ∷ text "2" ∷ text "3" ∷ []) ≡ take 0 lines)
    × (length (text "one" ∷ text "two " ∷ text "2" ∷ text "3" ∷ []) + old_count (chunk ∷ [])
        ≡ length lines + new_count (chunk ∷ []))
unfolding compare_lines matches_at try_from try_sequence try_modes try_starts find_sequence
    keep_context splice seek_context replace_chunk place_chunk apply_chunk apply_chunks
    codex_compatible_mcp.Base.Text.text_beq
apply_chunks_extent_example =
    apply_chunks_extent (chunk ∷ []) lines 0 (text "one" ∷ text "two " ∷ text "2" ∷ text "3" ∷ [])
      (omega arith) refl
