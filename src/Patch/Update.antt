-- ===== src/Patch/Update.antt =====
-- src/runtime/filesystem/apply-patch.mjs: a file's text under the chunks of an update.
use codex_compatible_mcp.Base.{
  ℕ, suc, ◌+◌, Bool, false, not, ◌&&◌, ◌||◌, Option, none, some, List, [], ◌∷◌, ◌++◌, length, take,
  drop, get_or, set, ltb, nat_beq, is_empty, if◌then◌else◌, ◌==◌, Outcome, ok, err, ◌>>=◌, ◌>>◌,
  throw_if, or_throw,
}
use codex_compatible_mcp.Base.Text.{Text, text_eq, lf_text, split_lines, join}
use codex_compatible_mcp.Patch.Types.{
  Chunk, Hunk, add, delete, update, PatchError, context_not_found, lines_not_found, not_one_hunk,
  wrong_target, wrong_type, has_move, no_text,
}
use codex_compatible_mcp.Patch.Parse.{newline, parse_patch}
use codex_compatible_mcp.Patch.Seek.{find_sequence}

pub record Split : Type 0 where
  pub lines : List Text
  pub eol : Text
  pub final_newline : Bool

-- `text.includes('\r\n')`.
unfoldable pub has_crlf : Text → Bool
has_crlf [] = false
has_crlf (c ∷ []) = false
has_crlf (c ∷ d ∷ s) = (nat_beq c 13 && nat_beq d 10) || has_crlf (d ∷ s)

ends_with_newline : Text → Bool
ends_with_newline [] = false
ends_with_newline (c ∷ []) = nat_beq c 10
ends_with_newline (c ∷ d ∷ s) = ends_with_newline (d ∷ s)

abbrev drop_last : List Text → List Text
drop_last [] = []
drop_last (l ∷ []) = []
drop_last (l ∷ m ∷ ls) = l ∷ drop_last (m ∷ ls)

unfoldable pub split_text : Text → Split
unfolding has_crlf ends_with_newline
split_text s =
    let normalized = lf_text s in
    let final_newline = ends_with_newline normalized in
    let lines = split_lines normalized in
    record {
      lines = if final_newline then drop_last lines else lines;
      eol = if has_crlf s then 13 ∷ 10 ∷ [] else newline;
      final_newline = final_newline;
    }

unfoldable pub join_text : List Text → Text → Bool → Text
join_text lines eol final_newline =
    let body = join eol lines in if final_newline then body ++ eol else body

-- The loop over `contextPairs`: a context line stays as the file has it.
unfoldable pub keep_context : List Text → ℕ → ℕ → List (ℕ × ℕ) → List Text → List Text
keep_context lines index old_length [] replacement = replacement
keep_context lines index old_length ((old_index, new_index) ∷ pairs) replacement =
    keep_context lines index old_length pairs (
      if ltb new_index (length replacement) && ltb old_index old_length
      then set replacement new_index (get_or lines (index + old_index) [])
      else replacement)

-- `lines.splice(index, count, ...replacement)`.
unfoldable pub splice : List Text → ℕ → ℕ → List Text → List Text
splice lines index count replacement =
    take index lines ++ (replacement ++ drop (index + count) lines)

-- Where the search for the old lines begins: behind the context line, if the chunk names one.
unfoldable pub seek_context : List Text → ℕ → Option Text → Outcome PatchError ℕ
seek_context lines cursor none = ok cursor
seek_context lines cursor (some context) = do
  (index, _) ← or_throw (find_sequence lines (context ∷ []) cursor false) context_not_found
  ok (suc index)

-- The old lines at the index give way to the new ones, with the context lines kept.
unfoldable pub replace_chunk : List Text → Chunk → ℕ → List Text × ℕ
replace_chunk lines chunk index =
    let replacement =
      keep_context lines index (length chunk.old_lines) chunk.context_pairs chunk.new_lines in
    (splice lines index (length chunk.old_lines) replacement, index + length replacement)

unfoldable pub place_chunk : List Text → Chunk → ℕ → Outcome PatchError (List Text × ℕ)
place_chunk lines chunk start = do
  (index, _) ←
      or_throw (find_sequence lines chunk.old_lines start chunk.is_end_of_file) lines_not_found
  ok (replace_chunk lines chunk index)

-- One round of the loop over the chunks: the new lines and cursor.
unfoldable pub apply_chunk : List Text → ℕ → Chunk → Outcome PatchError (List Text × ℕ)
apply_chunk lines cursor chunk = do
  start ← seek_context lines cursor chunk.context
  place_chunk lines chunk start

unfoldable pub apply_chunks : List Text → ℕ → List Chunk → Outcome PatchError (List Text)
apply_chunks lines cursor [] = ok lines
apply_chunks lines cursor (chunk ∷ chunks) = do
  (lines', cursor') ← apply_chunk lines cursor chunk
  apply_chunks lines' cursor' chunks

unfoldable pub apply_update_text : Text → List Chunk → Outcome PatchError Text
apply_update_text s chunks = do
  let split = split_text s
  lines ← apply_chunks split.lines 0 chunks
  ok (join_text lines split.eol split.final_newline)

-- `mode`: whether the text is to be made or changed.
pub data PatchMode : Type 0 where
  to_add to_update : PatchMode

abbrev hunk_path : Hunk → Text
hunk_path (add path content) = path
hunk_path (delete path) = path
hunk_path (update path move_path chunks) = path

apply_single : PatchMode → Option Text → Hunk → Outcome PatchError Text
apply_single to_add current (add path content) = ok content
apply_single to_update none (update path none chunks) = err no_text
apply_single to_update (some s) (update path none chunks) = apply_update_text s chunks
-- An empty `movePath` is false; the parser makes none.
apply_single to_update current (update path (some to) chunks) =
    if is_empty to
    then elim current [ none ↦ err no_text | some s ↦ apply_update_text s chunks ]
    else err has_move
apply_single _ _ _ = err wrong_type

-- `applySingleFilePatchToText`, for a mode that is `add` or `update`.
unfoldable pub apply_single_file_patch_to_text :
    Text → Option Text → Text → PatchMode → Outcome PatchError Text
unfolding apply_single
apply_single_file_patch_to_text patch current target_path mode = do
  hunks ← parse_patch patch
  elim hunks [
    | [] ↦ err not_one_hunk
    | hunk ∷ others ↦
        throw_if (not (is_empty others)) not_one_hunk
        >> throw_if (not (hunk_path hunk == target_path)) wrong_target
        >> apply_single mode current hunk
  ]
