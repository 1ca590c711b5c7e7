-- ===== src/Patch/Search.antt =====
-- `findSequence`: sound and complete, and which of several places it takes.
use codex_compatible_mcp.Base.{
  ℕ, ◌+◌, ◌-◌, ◌≤◌, ◌<◌, ◌≡◌, sym, ◌∙◌, ◌⊎◌, inl, inr, Bool, true, false, none, some, List, [], ◌∷◌,
  arith, length, ltb, Bool-cases, Option-cases, All, ltb→lt,
}
use codex_compatible_mcp.Base.Text.{Text}
use codex_compatible_mcp.Patch.Seek.{
  Mode, modes, matches_at, try_modes, try_starts, find_sequence, search_starts,
}
use codex_compatible_mcp.Patch.Found.{Best, NoneOf, try_modes-Best, try_modes-NoneOf}

-- A place for the pattern, at or behind the start and within the file.
pub record Place (lines pattern : List Text) (start index : ℕ) (mode : Mode) : Type 0 where
  pub behind : start ≤ index
  pub fits : index + length pattern ≤ length lines
  pub matches : matches_at mode lines pattern index ≡ true

module _ (lines pattern : List Text) (short : length pattern ≤ length lines) where
  Best-Place :
      (start index : ℕ) (mode : Mode)
      → Best lines pattern start index mode modes
      → Place lines pattern start index mode
  Best-Place start index mode b = record {
    behind = b.place.from;
    fits = omega (arith, b.place.below);
    matches = b.place.matches;
  }

  try_starts-Place :
      (lo : ℕ) (starts : List ℕ) (index : ℕ) (mode : Mode)
      → All (λ s. lo ≤ s) starts
      → try_starts lines pattern starts ≡ some (index, mode)
      → Place lines pattern lo index mode
  unfolding try_starts
  try_starts-Place lo [] index mode all h = absurd (cc)
  try_starts-Place lo (s ∷ starts) index mode all h =
      elim (Option-cases (try_modes lines pattern s modes)) [
        | inl e ↦ try_starts-Place lo starts index mode all.1 (ground arith)
        | inr (found, e) ↦
            let p =
              Best-Place s index mode
                (try_modes-Best lines pattern s modes index mode (ground arith)) in
            record { behind = omega (arith, p.behind, all.0); fits = p.fits; matches = p.matches }
      ]

starts_lem : (start tail : ℕ) (eof : Bool) → All (λ s. start ≤ s) (search_starts start tail eof)
starts_lem start tail eof = ground arith

module _ (lines : List Text) (p : Text) (ps : List Text) (start : ℕ) where
  unfolded :
      (eof : Bool)
      → length (p ∷ ps) ≤ length lines
      → find_sequence lines (p ∷ ps) start eof
        ≡ try_starts lines (p ∷ ps) (search_starts start (length lines - length (p ∷ ps)) eof)
  unfolding find_sequence
  unfolded eof short = ground arith

  long_lem :
      (eof : Bool) → length lines < length (p ∷ ps) → find_sequence lines (p ∷ ps) start eof ≡ none
  unfolding find_sequence
  long_lem eof long = ground arith

  -- What a search for a pattern that is not empty finds stands at or behind the start, within the
  -- file, and matches in the mode reported.
  pub find_sequence-Place :
      (eof : Bool) (index : ℕ) (mode : Mode)
      → find_sequence lines (p ∷ ps) start eof ≡ some (index, mode)
      → Place lines (p ∷ ps) start index mode
  find_sequence-Place eof index mode h = elim (Bool-cases (ltb (length lines) (length (p ∷ ps)))) [
    | inl long ↦ absurd (cc (long_lem eof (ltb→lt _ _ long)))
    | inr short ↦
        let fit : length (p ∷ ps) ≤ length lines = ground arith in
        try_starts-Place lines (p ∷ ps) fit start
          (search_starts start (length lines - length (p ∷ ps)) eof) index mode
          (starts_lem start (length lines - length (p ∷ ps)) eof) (sym (unfolded eof fit) ∙ h)
  ]

  -- A search for a pattern that is not empty, and is not asked for at the end of the file, takes the
  -- least lenient mode that matches anywhere from the start on, at the first place where it matches.
  pub find_sequence-Best :
      (index : ℕ) (mode : Mode)
      → find_sequence lines (p ∷ ps) start false ≡ some (index, mode)
      → Best lines (p ∷ ps) start index mode modes
  unfolding try_starts
  find_sequence-Best index mode h = elim (Bool-cases (ltb (length lines) (length (p ∷ ps)))) [
    | inl long ↦ absurd (cc (long_lem false (ltb→lt _ _ long)))
    | inr short ↦
        try_modes-Best lines (p ∷ ps) start modes index mode
          (ground (arith, unfolded false (ground arith)))
  ]

  -- A search for a pattern that is not empty finds nothing only if the pattern has more lines than the
  -- file, or no mode matches at any place from the start on.
  pub find_sequence-NoneOf :
      (eof : Bool)
      → find_sequence lines (p ∷ ps) start eof ≡ none
      → (length lines < length (p ∷ ps)) ⊎ NoneOf lines (p ∷ ps) start modes
  unfolding try_starts
  find_sequence-NoneOf eof h = elim (Bool-cases (ltb (length lines) (length (p ∷ ps)))) [
    | inl long ↦ inl (ltb→lt _ _ long)
    | inr short ↦
        inr (
          try_modes-NoneOf lines (p ∷ ps) start modes (ground (arith, unfolded eof (ground arith))))
  ]
