-- ===== src/Patch/Parse.antt =====
-- src/runtime/filesystem/apply-patch.mjs: `parsePatch`. `index` counts lines from 0, as there.
use codex_compatible_mcp.Base.{
  ℕ, zero, suc, Bool, true, false, not, ◌&&◌, ◌||◌, Option, none, some, List, [], ◌∷◌, ◌++◌, length,
  drop, is_empty, if◌then◌else◌, ◌==◌, Outcome, ok, err, ◌>>=◌, ◌>>◌, throw_if,
}
use mathlib.Core.List.{reverse}
use codex_compatible_mcp.Base.Text.{
  Text, text, text_eq, trim, starts_with, lf_text, split_lines, join,
}
use codex_compatible_mcp.Patch.Types.{
  Chunk, Hunk, add, delete, update, PatchError, empty_patch, no_begin, no_end, empty_path,
  empty_move_path, no_plus, blank_diff_line, invalid_line, unknown_marker, nothing_added,
  empty_update, out_of_fuel,
}

abbrev pub begin_marker : Text
begin_marker = text "*** Begin Patch"

abbrev pub end_marker : Text
end_marker = text "*** End Patch"

abbrev pub add_marker : Text
add_marker = text "*** Add File: "

abbrev pub delete_marker : Text
delete_marker = text "*** Delete File: "

abbrev pub update_marker : Text
update_marker = text "*** Update File: "

abbrev pub move_marker : Text
move_marker = text "*** Move to: "

abbrev pub eof_marker : Text
eof_marker = text "*** End of File"

abbrev pub newline : Text
newline = 10 ∷ []

unfoldable pub is_file_marker : Text → Bool
is_file_marker line =
    let value = trim line in
    value == end_marker
    || starts_with add_marker value
    || starts_with delete_marker value
    || starts_with update_marker value

-- What stands behind a marker.
abbrev pub after_marker : Text → Text → Text
after_marker marker control = trim (drop (length marker) control)

-- What a part of the parser returns beside its result: where it stopped, and the lines from there.
abbrev pub Parsed : Type 0 → Type 0
Parsed A = Outcome PatchError (A × ℕ × List Text)

-- The `+` lines of an added file.
unfoldable pub read_added : ℕ → List Text → Parsed (List Text)
read_added index [] = ok ([], index, [])
read_added index (line ∷ lines) =
    let more = read_added (suc index) lines in
    if is_file_marker line
    then ok ([], index, line ∷ lines)
    else (if starts_with (text "+") line
        then (more >>= λ (added, stop, rest). ok (drop 1 line ∷ added, stop, rest))
        else err (no_plus (suc index)))

abbrev pub new_chunk : Option Text → Chunk
new_chunk context = record {
  context = context;
  old_lines = [];
  new_lines = [];
  context_pairs = [];
  is_end_of_file = false;
}

-- `flush`.
unfoldable pub flush : List Chunk → Option Chunk → List Chunk
flush chunks none = chunks
flush chunks (some c) =
    if is_empty c.old_lines && is_empty c.new_lines && not c.is_end_of_file
    then chunks
    else chunks ++ c ∷ []

abbrev pub or_new : Option Chunk → Chunk
or_new none = new_chunk none
or_new (some c) = c

-- The diff lines of a chunk.
unfoldable pub read_diff : ℕ → Chunk → Text → Outcome PatchError Chunk
read_diff index c line =
    if starts_with (text " ") line
    then ok (record c {
      old_lines = c.old_lines ++ drop 1 line ∷ [];
      new_lines = c.new_lines ++ drop 1 line ∷ [];
      context_pairs = c.context_pairs ++ (length c.old_lines, length c.new_lines) ∷ [];
    })
    else (if starts_with (text "-") line
        then ok (record c { old_lines = c.old_lines ++ drop 1 line ∷ [] })
        else (if starts_with (text "+") line
            then ok (record c { new_lines = c.new_lines ++ drop 1 line ∷ [] })
            else (if is_empty line
                then err (blank_diff_line (suc index))
                else err (invalid_line (suc index)))))

-- One round of the loop over the lines of an update.
unfoldable pub read_line :
    ℕ → List Chunk → Option Chunk → Text → Outcome PatchError (List Chunk × Option Chunk)
read_line index chunks current line =
    let control = trim line in
    let c = or_new current in
    if control == text "@@" || starts_with (text "@@ ") control
    then ok (
      flush chunks current,
      some (new_chunk (if control == text "@@" then none else some (drop 3 control))),
    )
    else (if control == eof_marker
        then ok (chunks, some (record c { is_end_of_file = true }))
        else (if c.is_end_of_file && is_empty line
            then ok (chunks, some c)
            else (read_diff index c line >>= λ c'. ok (chunks, some c'))))

unfoldable pub read_chunks : ℕ → List Chunk → Option Chunk → List Text → Parsed (List Chunk)
read_chunks index chunks current [] = ok (flush chunks current, index, [])
read_chunks index chunks current (line ∷ lines) =
    if is_file_marker line
    then ok (flush chunks current, index, line ∷ lines)
    else (read_line index chunks current line >>= λ (chunks', current').
        read_chunks (suc index) chunks' current' lines)

-- The line after `*** Update File:`. Where the hunk ends the patch this is the end marker, which is no
-- move.
unfoldable pub read_move : ℕ → List Text → Parsed (Option Text)
read_move index [] = ok (none, index, [])
read_move index (line ∷ lines) =
    if starts_with move_marker (trim line)
    then (let path = after_marker move_marker (trim line) in
        if is_empty path
        then err (empty_move_path (suc index))
        else ok (some path, suc index, lines))
    else ok (none, index, line ∷ lines)

unfoldable pub read_path : Text → ℕ → Text → Outcome PatchError Text
read_path marker index control =
    let path = after_marker marker control in
    if is_empty path then err (empty_path (suc index)) else ok path

unfoldable pub read_add : ℕ → Text → List Text → Parsed Hunk
read_add index control lines = do
  path ← read_path add_marker index control
  (added, stop, rest) ← read_added (suc index) lines
  throw_if (is_empty added) nothing_added
  ok (add path (join newline added ++ newline), stop, rest)

unfoldable pub read_delete : ℕ → Text → List Text → Parsed Hunk
read_delete index control lines = do
  path ← read_path delete_marker index control
  ok (delete path, suc index, lines)

unfoldable pub read_update : ℕ → Text → List Text → Parsed Hunk
read_update index control lines = do
  path ← read_path update_marker index control
  (move_path, start, body) ← read_move (suc index) lines
  (chunks, stop, rest) ← read_chunks start [] none body
  throw_if (is_empty chunks) (empty_update path)
  ok (update path move_path chunks, stop, rest)

-- One round of the loop over the hunks.
unfoldable pub read_hunk : ℕ → Text → List Text → Parsed Hunk
read_hunk index line lines =
    let control = trim line in
    if starts_with add_marker control
    then read_add index control lines
    else (if starts_with delete_marker control
        then read_delete index control lines
        else (if starts_with update_marker control
            then read_update index control lines
            else err (unknown_marker (suc index))))

unfoldable pub read_hunks : ℕ → ℕ → List Text → Outcome PatchError (List Hunk)
read_hunks fuel index [] = ok []
read_hunks zero index (line ∷ lines) = err out_of_fuel
read_hunks (suc fuel) index (line ∷ lines) = do
  (hunk, stop, rest) ← read_hunk index line lines
  hunks ← read_hunks fuel stop rest
  ok (hunk ∷ hunks)

-- `while (lines.length > 1 && lines.at(-1) === '') lines.pop()`, on the lines from the last.
pop_blank : List Text → List Text
pop_blank [] = []
pop_blank (l ∷ []) = l ∷ []
pop_blank (l ∷ m ∷ ls) = if is_empty l then pop_blank (m ∷ ls) else l ∷ m ∷ ls

-- The lines between the first and the last, with the last line first.
unfoldable pub body_lines : List Text → Outcome PatchError (List Text)
body_lines [] = err no_begin
body_lines (first ∷ []) = if trim first == begin_marker then err no_end else err no_begin
body_lines (last ∷ ls) = elim (reverse ls) [
  | [] ↦ err no_begin
  | first ∷ body ↦
      throw_if (not (trim first == begin_marker)) no_begin
      >> throw_if (not (trim last == end_marker)) no_end
      >> ok body
]

unfoldable pub patch_lines : Text → List Text
unfolding pop_blank
patch_lines patch = pop_blank (reverse (split_lines (lf_text patch)))

unfoldable pub parse_patch : Text → Outcome PatchError (List Hunk)
parse_patch patch = do
  throw_if (is_empty (trim patch)) empty_patch
  body ← body_lines (patch_lines patch)
  read_hunks (length body) 1 body
