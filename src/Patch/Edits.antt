-- ===== src/Patch/Edits.antt =====
-- The chunks of an update, one behind the other.
use codex_compatible_mcp.Base.{
  ℕ, ◌+◌, ◌≤◌, ◌≡◌, refl, sym, ◌∙◌, ap, subst, List, [], ◌∷◌, arith, length, take, take-take_le, ok,
  >>=-eq-ok, or_throw, ok-injective,
}
use codex_compatible_mcp.Base.Text.{Text}
use codex_compatible_mcp.Patch.Types.{Chunk, PatchError, lines_not_found}
use codex_compatible_mcp.Patch.Seek.{find_sequence}
use codex_compatible_mcp.Patch.Chunks.{
  Applied, found-Applied, find_sequence_bounds, or_throw-eq-ok, seek_context_bounds,
}
use codex_compatible_mcp.Patch.Update.{
  seek_context, replace_chunk, place_chunk, apply_chunk, apply_chunks,
}

module _ (lines : List Text) (cursor : ℕ) (chunk : Chunk) (lines' : List Text) (cursor' : ℕ) where
  start-Applied :
      (start : ℕ)
      → cursor ≤ start
      → start ≤ length lines
      → place_chunk lines chunk start ≡ ok (lines', cursor')
      → Applied lines cursor chunk lines' cursor'
  unfolding place_chunk
  start-Applied start lo hi e =
      let sought =
        or_throw (find_sequence lines chunk.old_lines start chunk.is_end_of_file) lines_not_found in
      let ((index, mode), found, same) =
        >>=-eq-ok sought (λ (k, _). ok (replace_chunk lines chunk k)) e in
      let b =
        find_sequence_bounds lines chunk.old_lines start index chunk.is_end_of_file mode hi
          (or_throw-eq-ok _ lines_not_found (index, mode) found) in
      found-Applied lines cursor chunk lines' cursor' index (omega (arith, b.0)) b.1
        (ok-injective PatchError same)

  -- A chunk that is applied, from a cursor within the file, puts its new lines for its old ones at one
  -- place behind the cursor, and leaves every line in front of that place and behind the old lines as
  -- it was.
  pub apply_chunk-Applied :
      cursor ≤ length lines
      → apply_chunk lines cursor chunk ≡ ok (lines', cursor')
      → Applied lines cursor chunk lines' cursor'
  unfolding apply_chunk
  apply_chunk-Applied h e =
      let (start, sought, rest) =
        >>=-eq-ok (seek_context lines cursor chunk.context) (place_chunk lines chunk) e in
      let b = seek_context_bounds lines cursor chunk.context start h sought in
      start-Applied start b.0 b.1 rest

-- The edits of a list of chunks, each behind the one before it.
pub data Edits : List Text → ℕ → List Chunk → List Text → Type 0 where
  done : (lines : List Text) (cursor : ℕ) → Edits lines cursor [] lines
  edit :
      {lines lines' result : List Text} {cursor cursor' : ℕ} {chunk : Chunk} {chunks : List Chunk}
      → Applied lines cursor chunk lines' cursor'
      → Edits lines' cursor' chunks result
      → Edits lines cursor (chunk ∷ chunks) result

-- An update that succeeds is made of one edit for each chunk, in the order of the chunks and of the
-- places.
pub apply_chunks-Edits :
    (chunks : List Chunk) (lines : List Text) (cursor : ℕ) (result : List Text)
    → cursor ≤ length lines
    → apply_chunks lines cursor chunks ≡ ok result
    → Edits lines cursor chunks result
unfolding apply_chunks
apply_chunks-Edits [] lines cursor result h e =
    subst (Edits lines cursor []) (ok-injective PatchError e) (done lines cursor)
apply_chunks-Edits (chunk ∷ chunks) lines cursor result h e =
    let ((lines', cursor'), first, rest) =
      >>=-eq-ok (apply_chunk lines cursor chunk) (λ (ls, k). apply_chunks ls k chunks) e in
    let a = apply_chunk-Applied lines cursor chunk lines' cursor' h first in
    edit a (apply_chunks-Edits chunks lines' cursor' result a.within rest)

abbrev pub old_count : List Chunk → ℕ
old_count [] = 0
old_count (c ∷ cs) = length c.old_lines + old_count cs

abbrev pub new_count : List Chunk → ℕ
new_count [] = 0
new_count (c ∷ cs) = length c.new_lines + new_count cs

pub Edits-size :
    {lines result : List Text} {cursor : ℕ} {chunks : List Chunk}
    → Edits lines cursor chunks result
    → length result + old_count chunks ≡ length lines + new_count chunks
Edits-size (done lines cursor) = refl
Edits-size (edit a rest) = omega (arith, a.size, Edits-size rest)

pub Edits-before :
    {lines result : List Text} {cursor : ℕ} {chunks : List Chunk}
    → Edits lines cursor chunks result
    → take cursor result ≡ take cursor lines
Edits-before (done lines cursor) = refl
Edits-before {lines} {result} {cursor} (edit {lines' = ls} {cursor' = k} a rest) =
    let near : cursor ≤ k = omega (arith, a.behind, a.next_cursor) in
    sym (take-take_le cursor k result near)
    ∙ ap (take cursor) (Edits-before rest)
    ∙ take-take_le cursor k ls near
    ∙ sym (take-take_le cursor a.index ls a.behind)
    ∙ ap (take cursor) a.before
    ∙ take-take_le cursor a.index lines a.behind

-- An update whose chunks start at a cursor within the file leaves what stands in front of the cursor,
-- and makes the file longer by the lines that the chunks add and shorter by those that they take.
pub apply_chunks_extent :
    (chunks : List Chunk) (lines : List Text) (cursor : ℕ) (result : List Text)
    → cursor ≤ length lines
    → apply_chunks lines cursor chunks ≡ ok result
    → (take cursor result ≡ take cursor lines)
      × (length result + old_count chunks ≡ length lines + new_count chunks)
apply_chunks_extent chunks lines cursor result h e =
    let edits = apply_chunks-Edits chunks lines cursor result h e in
    (Edits-before edits, Edits-size edits)
