-- ===== src/Patch/Fuel.antt =====
-- The parser of patches always has a round left: each part of it returns no more lines than it got,
-- and each hunk takes at least one.
use codex_compatible_mcp.Base.{
  ℕ, zero, suc, ◌≤◌, ◌≡◌, ◌≢◌, refl, subst, inl, inr, Bool, true, false, Option, none, some, List,
  [], ◌∷◌, arith, length, is_empty, Outcome, ok, err, ◌>>=◌, throw_if, Bool-cases,
}
use codex_compatible_mcp.Base.Text.{Text, text_eq, trim}
use codex_compatible_mcp.Patch.Types.{
  Chunk, PatchError, empty_patch, nothing_added, empty_update, out_of_fuel,
}
use codex_compatible_mcp.Patch.Parse.{
  Parsed, or_new, read_path, read_add, read_delete, read_update, read_added, read_diff, read_line,
  read_chunks, read_move, read_hunk, read_hunks, body_lines, patch_lines, parse_patch,
  is_file_marker, add_marker, delete_marker, update_marker,
}

abbrev is_fuel : PatchError → Bool
is_fuel out_of_fuel = true
is_fuel empty_patch = false
is_fuel _ = false

-- No more than so many lines are left, and no error is for want of rounds.
abbrev Sane : {A : Type 0} → ℕ → Parsed A → Type 0
Sane n (ok (a, stop, rest)) = length rest ≤ n
Sane n (err e) = is_fuel e ≡ false

-- No error is for want of rounds.
abbrev Free : {A : Type 0} → Outcome PatchError A → Type 0
Free (ok a) = Unit {0}
Free (err e) = is_fuel e ≡ false

Sane-bind :
    {A B : Type 0} (n : ℕ) (m : Outcome PatchError A) (f : A → Parsed B)
    → Free m
    → ((a : A) → Sane n (f a))
    → Sane n (m >>= f)
Sane-bind n (ok a) f free h = h a
Sane-bind n (err e) f free h = free

-- The part before may leave fewer lines.
Sane-then :
    {A B : Type 0} (n : ℕ) (m : Parsed A) (f : A × ℕ × List Text → Parsed B)
    → Sane n m
    → ((a : A) (stop : ℕ) (rest : List Text) → length rest ≤ n → Sane n (f (a, stop, rest)))
    → Sane n (m >>= f)
Sane-then n (ok (a, stop, rest)) f sane h = h a stop rest sane
Sane-then n (err e) f sane h = sane

Free-bind :
    {A B : Type 0} (m : Outcome PatchError A) (f : A → Outcome PatchError B)
    → Free m
    → ((a : A) → Free (f a))
    → Free (m >>= f)
Free-bind (ok a) f free h = h a
Free-bind (err e) f free h = free

Sane-le : {A : Type 0} {m n : ℕ} (o : Parsed A) → m ≤ n → Sane m o → Sane n o
Sane-le (ok (a, stop, rest)) h sane = omega arith
Sane-le (err e) h sane = sane

Free-then :
    {A B : Type 0} {n : ℕ} (m : Parsed A) (f : A × ℕ × List Text → Outcome PatchError B)
    → Sane n m
    → ((a : A) (stop : ℕ) (rest : List Text) → length rest ≤ n → Free (f (a, stop, rest)))
    → Free (m >>= f)
Free-then (ok (a, stop, rest)) f sane h = h a stop rest sane
Free-then (err e) f sane h = sane

read_added-Sane : (index : ℕ) (lines : List Text) → Sane (length lines) (read_added index lines)
unfolding read_added
read_added-Sane index [] = omega arith
read_added-Sane index (line ∷ lines) = ground (arith, read_added-Sane (suc index) lines)

read_diff-Free : (index : ℕ) (c : Chunk) (line : Text) → Free (read_diff index c line)
unfolding read_diff
read_diff-Free index c line = ground arith

read_line-Free :
    (index : ℕ) (chunks : List Chunk) (current : Option Chunk) (line : Text)
    → Free (read_line index chunks current line)
unfolding read_line
read_line-Free index chunks current line =
    let rest : Free {A = List Chunk × Option Chunk}
        (read_diff index (or_new current) line >>= λ c. ok (chunks, some c)) =
      Free-bind (read_diff index (or_new current) line) (λ c. ok (chunks, some c))
        (read_diff-Free index (or_new current) line) (λ c. tt) in
    ground (arith, rest)

read_chunks-Sane :
    (index : ℕ) (chunks : List Chunk) (current : Option Chunk) (lines : List Text)
    → Sane (length lines) (read_chunks index chunks current lines)
unfolding read_chunks
read_chunks-Sane index chunks current [] = omega arith
read_chunks-Sane index chunks current (line ∷ lines) = elim (Bool-cases (is_file_marker line)) [
  | inl marker ↦ rw marker (omega arith)
  | inr plain ↦ rw plain (
      Sane-bind (suc (length lines)) (read_line index chunks current line)
        (λ (chunks', current'). read_chunks (suc index) chunks' current' lines)
        (read_line-Free index chunks current line)
        (λ (chunks', current').
          Sane-le (read_chunks (suc index) chunks' current' lines) (omega arith)
            (read_chunks-Sane (suc index) chunks' current' lines)))
]

read_move-Sane : (index : ℕ) (lines : List Text) → Sane (length lines) (read_move index lines)
unfolding read_move
read_move-Sane index [] = omega arith
read_move-Sane index (line ∷ lines) = ground arith

read_path-Free :
    (marker : Text) (index : ℕ) (control : Text) → Free (read_path marker index control)
unfolding read_path
read_path-Free marker index control = ground arith

throw_if-Free : (b : Bool) (e : PatchError) → is_fuel e ≡ false → Free (throw_if b e)
throw_if-Free true e h = h
throw_if-Free false e h = tt

-- The three kinds of hunk.
add-Sane :
    (index : ℕ) (control : Text) (lines : List Text)
    → Sane (length lines) (read_add index control lines)
unfolding read_add
add-Sane index control lines =
    Sane-bind _ (read_path add_marker index control) _ (read_path-Free add_marker index control)
      λ path.
        Sane-then _ (read_added (suc index) lines) _ (read_added-Sane (suc index) lines)
          λ added stop rest h.
            Sane-bind _ (throw_if (is_empty added) nothing_added) _
              (throw_if-Free _ nothing_added refl) λ _. h

delete-Sane :
    (index : ℕ) (control : Text) (lines : List Text)
    → Sane (length lines) (read_delete index control lines)
unfolding read_delete
delete-Sane index control lines =
    Sane-bind _ (read_path delete_marker index control) _
      (read_path-Free delete_marker index control) λ path. omega arith

update-Sane :
    (index : ℕ) (control : Text) (lines : List Text)
    → Sane (length lines) (read_update index control lines)
unfolding read_update
update-Sane index control lines =
    Sane-bind _ (read_path update_marker index control) _
      (read_path-Free update_marker index control)
      λ path.
        Sane-then _ (read_move (suc index) lines) _ (read_move-Sane (suc index) lines)
          λ to start body h.
            Sane-then _ (read_chunks start [] none body) _
              (Sane-le (read_chunks start [] none body) h (read_chunks-Sane start [] none body))
              λ chunks stop rest k.
                Sane-bind _ (throw_if (is_empty chunks) (empty_update path)) _
                  (throw_if-Free _ (empty_update path) refl) λ _. k

read_hunk-Sane :
    (index : ℕ) (line : Text) (lines : List Text) → Sane (length lines) (read_hunk index line lines)
unfolding read_hunk
read_hunk-Sane index line lines = ground (
  arith,
  add-Sane index (trim line) lines,
  delete-Sane index (trim line) lines,
  update-Sane index (trim line) lines,
)

read_hunks-Free :
    (fuel index : ℕ) (lines : List Text) → length lines ≤ fuel → Free (read_hunks fuel index lines)
unfolding read_hunks
read_hunks-Free fuel index [] h = tt
read_hunks-Free zero index (line ∷ lines) h = absurd (omega arith)
read_hunks-Free (suc fuel) index (line ∷ lines) h =
    Free-then (read_hunk index line lines) _ (read_hunk-Sane index line lines) λ hunk stop rest k.
      Free-bind (read_hunks fuel stop rest) _ (read_hunks-Free fuel stop rest (omega arith))
        λ hunks. tt

body_lines-Free : (lines : List Text) → Free (body_lines lines)
unfolding body_lines
body_lines-Free [] = refl
body_lines-Free (l ∷ []) = ground arith
body_lines-Free (last ∷ l ∷ ls) = ground arith

-- Reading a patch ends by itself: the rounds that the model allows are never used up.
pub parse_patch-ne-out_of_fuel : (patch : Text) → parse_patch patch ≢ err out_of_fuel
unfolding parse_patch
parse_patch-ne-out_of_fuel patch h = let bad : true ≡ false = subst Free h free in absurd (cc)
  where
    free : Free (parse_patch patch)
    free =
        Free-bind (throw_if (is_empty (trim patch)) empty_patch) _
          (throw_if-Free _ empty_patch refl)
          λ _.
            Free-bind (body_lines (patch_lines patch)) _ (body_lines-Free (patch_lines patch))
              λ body. read_hunks-Free (length body) 1 body (omega arith)
