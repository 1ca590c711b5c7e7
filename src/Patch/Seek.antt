-- ===== src/Patch/Seek.antt =====
-- src/runtime/filesystem/apply-patch.mjs: where the lines of a chunk stand in a file.
use codex_compatible_mcp.Base.{
  ℕ, zero, suc, ◌-◌, min, max, Bool, true, false, ◌&&◌, ◌||◌, Option, none, some, List, [], ◌∷◌,
  map, length, get_or, ltb, leb, nat_beq, any, is_empty, if◌then◌else◌, ◌==◌,
}
use codex_compatible_mcp.Base.Text.{Text, text_eq, trim, drop_end}

pub data Mode : Type 0 where
  empty exact rstripped trimmed normalized : Mode

-- `rstrip`: blanks and tabs at the end.
unfoldable pub rstrip : Text → Text
rstrip = drop_end (λ c. nat_beq c 9 || nat_beq c 32)

abbrev one_of : List ℕ → ℕ → Bool
one_of codes c = any (nat_beq c) codes

abbrev plain_unit : ℕ → ℕ
plain_unit c =
    if (leb 0x2010 c && leb c 0x2015) || nat_beq c 0x2212
    then 0x2d
    else (if leb 0x2018 c && leb c 0x201b
        then 0x27
        else (if leb 0x201c c && leb c 0x201f
            then 0x22
            else (if one_of (0xa0 ∷ 0x202f ∷ 0x205f ∷ 0x3000 ∷ []) c
                  || (leb 0x2002 c && leb c 0x200a)
                then 0x20
                else c)))

-- `normalizePunctuation`.
unfoldable pub normalize_punctuation : Text → Text
normalize_punctuation s = map plain_unit (trim s)

-- How two lines are compared in a mode.
unfoldable pub compare_lines : Mode → Text → Text → Bool
compare_lines empty a b = false
compare_lines exact a b = a == b
compare_lines rstripped a b = rstrip a == rstrip b
compare_lines trimmed a b = trim a == trim b
compare_lines normalized a b = normalize_punctuation a == normalize_punctuation b

-- The inner loop of `trySequence`: the pattern's lines at an index.
unfoldable pub matches_at : Mode → List Text → List Text → ℕ → Bool
matches_at mode lines [] index = true
matches_at mode lines (p ∷ ps) index =
    compare_lines mode (get_or lines index []) p && matches_at mode lines ps (suc index)

-- Its outer loop, by the number of rounds that are left.
unfoldable pub try_from : Mode → List Text → List Text → ℕ → ℕ → Option ℕ
try_from mode lines pattern zero index = none
try_from mode lines pattern (suc rounds) index =
    let later = try_from mode lines pattern rounds (suc index) in
    if matches_at mode lines pattern index then some index else later

-- The rounds `for (index = start; index <= last; …)`, where the pattern is no longer than the file.
unfoldable pub try_sequence : List Text → List Text → ℕ → Mode → Option ℕ
try_sequence lines pattern start mode =
    try_from mode lines pattern (suc (length lines - length pattern) - start) start

abbrev pub modes : List Mode
modes = exact ∷ rstripped ∷ trimmed ∷ normalized ∷ []

unfoldable pub try_modes : List Text → List Text → ℕ → List Mode → Option (ℕ × Mode)
try_modes lines pattern start [] = none
try_modes lines pattern start (mode ∷ ms) = elim (try_sequence lines pattern start mode) [
  | some index ↦ some (index, mode)
  | none ↦ try_modes lines pattern start ms
]

unfoldable pub try_starts : List Text → List Text → List ℕ → Option (ℕ × Mode)
try_starts lines pattern [] = none
try_starts lines pattern (start ∷ starts) = elim (try_modes lines pattern start modes) [
  | some found ↦ some found
  | none ↦ try_starts lines pattern starts
]

-- Without what occurs twice: `[...new Set(starts)]`.
abbrev pub search_starts : ℕ → ℕ → Bool → List ℕ
search_starts start tail_start eof =
    if eof
    then (if nat_beq (max start tail_start) start
        then start ∷ []
        else max start tail_start ∷ start ∷ [])
    else start ∷ []

unfoldable pub find_sequence : List Text → List Text → ℕ → Bool → Option (ℕ × Mode)
find_sequence lines pattern start eof =
    if is_empty pattern
    then some (if eof then length lines else min start (length lines), empty)
    else (if ltb (length lines) (length pattern)
        then none
        else try_starts lines pattern (search_starts start (length lines - length pattern) eof))
