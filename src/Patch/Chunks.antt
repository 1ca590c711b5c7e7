-- ===== src/Patch/Chunks.antt =====
-- What the chunks of an update do to the lines of a file.
use codex_compatible_mcp.Base.{
  ℕ, suc, ◌+◌, ◌-◌, ◌≤◌, ◌≡◌, refl, ◌∙◌, ap, Bool, false, Option, none, some, List, [], ◌∷◌, ◌++◌,
  arith, length, take, drop, get_or, length-append, length-take, length-drop, length-set,
  take-append_le, take-take_le, drop-append_le, drop-zero_of, ok, >>=-eq-ok, or_throw, ok-injective,
}
use codex_compatible_mcp.Base.Text.{Text}
use codex_compatible_mcp.Patch.Types.{Chunk, PatchError, context_not_found}
use codex_compatible_mcp.Patch.Seek.{Mode, find_sequence}
use codex_compatible_mcp.Patch.Search.{find_sequence-Place}
use codex_compatible_mcp.Patch.Update.{keep_context, splice, seek_context, replace_chunk}

-- Kept context lines change no line's place.
pub length-keep_context :
    (lines : List Text) (index old_length : ℕ) (pairs : List (ℕ × ℕ)) (replacement : List Text)
    → length (keep_context lines index old_length pairs replacement) ≡ length replacement
unfolding keep_context
length-keep_context lines index old_length [] replacement = refl
length-keep_context lines index old_length ((o, n) ∷ pairs) replacement =
    length-keep_context lines index old_length pairs _
    ∙ ground (arith, length-set replacement n (get_or lines (index + o) []))

module _ (lines : List Text) (index count : ℕ) (replacement : List Text)
    (fits : index + count ≤ length lines) where
  pub length-splice :
      length (splice lines index count replacement) + count ≡ length lines + length replacement
  unfolding splice
  length-splice = omega (
    arith,
    length-append (take index lines) (replacement ++ drop (index + count) lines),
    length-append replacement (drop (index + count) lines),
    length-take index lines,
    length-drop (index + count) lines,
  )

  -- What stands in front of the place stays.
  pub take-splice :
      (k : ℕ) → k ≤ index → take k (splice lines index count replacement) ≡ take k lines
  unfolding splice
  take-splice k h =
      take-append_le k (take index lines) (replacement ++ drop (index + count) lines)
        (omega (arith, length-take index lines))
      ∙ take-take_le k index lines h

  -- What stands behind the old lines stays.
  pub drop-splice :
      drop (index + length replacement) (splice lines index count replacement)
      ≡ drop (index + count) lines
  unfolding splice
  drop-splice =
      drop-append_le (index + length replacement) (take index lines)
        (replacement ++ drop (index + count) lines) (omega (arith, length-take index lines))
      ∙ ap (λ n. drop n (replacement ++ drop (index + count) lines))
          (omega (arith, length-take index lines))
      ∙ drop-append_le (length replacement) replacement (drop (index + count) lines) (omega arith)
      ∙ drop-zero_of (length replacement - length replacement) (drop (index + count) lines)
          (omega arith)

-- Where a sought place lies, be the pattern empty or not.
pub find_sequence_bounds :
    (lines pattern : List Text) (start index : ℕ) (eof : Bool) (mode : Mode)
    → start ≤ length lines
    → find_sequence lines pattern start eof ≡ some (index, mode)
    → (start ≤ index) × (index + length pattern ≤ length lines)
unfolding find_sequence
find_sequence_bounds lines [] start index eof mode h e = ground arith
find_sequence_bounds lines (p ∷ ps) start index eof mode h e =
    let found = find_sequence-Place lines p ps start eof index mode e in (found.behind, found.fits)

-- What one chunk has done: its old lines, found at a place behind the cursor, give way to as many
-- lines as its new ones.
pub record Applied (lines : List Text) (cursor : ℕ) (chunk : Chunk) (lines' : List Text)
    (cursor' : ℕ) : Type 0 where
  pub index : ℕ
  pub behind : cursor ≤ index
  pub fits : index + length chunk.old_lines ≤ length lines
  pub next_cursor : cursor' ≡ index + length chunk.new_lines
  pub within : cursor' ≤ length lines'
  pub size : length lines' + length chunk.old_lines ≡ length lines + length chunk.new_lines
  pub before : take index lines' ≡ take index lines
  pub after : drop cursor' lines' ≡ drop (index + length chunk.old_lines) lines

pub or_throw-eq-ok {ℓ} :
    {A : Type ℓ} (o : Option A) (e : PatchError) (a : A) → or_throw o e ≡ ok a → o ≡ some a
or_throw-eq-ok none e a h = absurd (cc)
or_throw-eq-ok (some b) e a h = ap some (ok-injective PatchError h)

pub seek_context_bounds :
    (lines : List Text) (cursor : ℕ) (context : Option Text) (start : ℕ)
    → cursor ≤ length lines
    → seek_context lines cursor context ≡ ok start
    → (cursor ≤ start) × (start ≤ length lines)
unfolding seek_context
seek_context_bounds lines cursor none start h e = ground arith
seek_context_bounds lines cursor (some c) start h e =
    let ((index, mode), found, same) =
      >>=-eq-ok (or_throw (find_sequence lines (c ∷ []) cursor false) context_not_found)
        (λ (index, _). ok (suc index)) e in
    let b = find_sequence_bounds lines (c ∷ []) cursor index false mode h (
      or_throw-eq-ok (find_sequence lines (c ∷ []) cursor false) context_not_found (index, mode)
        found) in
    let s : suc index ≡ start = ok-injective PatchError same in
    (omega (arith, b.0), omega (arith, b.1))

module _ (lines : List Text) (cursor : ℕ) (chunk : Chunk) (lines' : List Text) (cursor' : ℕ) where
  pub found-Applied :
      (index : ℕ)
      → cursor ≤ index
      → index + length chunk.old_lines ≤ length lines
      → replace_chunk lines chunk index ≡ (lines', cursor')
      → Applied lines cursor chunk lines' cursor'
  unfolding replace_chunk
  found-Applied index lo hi done =
      let r =
        keep_context lines index (length chunk.old_lines) chunk.context_pairs chunk.new_lines in
      let size =
        length-keep_context lines index (length chunk.old_lines) chunk.context_pairs
          chunk.new_lines in
      let whole = length-splice lines index (length chunk.old_lines) r hi in
      let same : splice lines index (length chunk.old_lines) r ≡ lines' =
        ap (λ (t : List Text × ℕ). t.0) done in
      let at : index + length r ≡ cursor' = ap (λ (t : List Text × ℕ). t.1) done in
      record {
        index = index;
        behind = lo;
        fits = hi;
        next_cursor = omega arith;
        within = rw (← same) (omega arith);
        size = rw (← same) (omega arith);
        before =
            rw (← same) (take-splice lines index (length chunk.old_lines) r hi index (omega arith));
        after = rw (← same, ← at) (drop-splice lines index (length chunk.old_lines) r hi);
      }
