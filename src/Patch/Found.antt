-- ===== src/Patch/Found.antt =====
-- What `findSequence` finds: a place that matches, the first one of the least lenient mode.
use codex_compatible_mcp.Base.{
  ℕ, zero, suc, ◌+◌, ◌-◌, ◌≤◌, ◌<◌, ◌≡◌, ◌⊎◌, inl, inr, true, false, none, some, List, [], ◌∷◌,
  arith, length, nat_beq, Bool-cases, Option-cases, subst,
}
use codex_compatible_mcp.Base.Text.{Text}
use codex_compatible_mcp.Patch.Seek.{Mode, matches_at, try_from, try_sequence, try_modes}

-- The pattern's lines stand nowhere from `lo` to below `hi`.
abbrev pub NoMatch : Mode → List Text → List Text → ℕ → ℕ → Type 0
NoMatch mode lines pattern lo hi =
    (j : ℕ) → lo ≤ j → j < hi → matches_at mode lines pattern j ≡ false

pub record First (mode : Mode) (lines pattern : List Text) (lo hi index : ℕ) : Type 0 where
  pub from : lo ≤ index
  pub below : index < hi
  pub matches : matches_at mode lines pattern index ≡ true
  pub first : NoMatch mode lines pattern lo index

module _ (mode : Mode) (lines pattern : List Text) where
  extend-NoMatch :
      (i hi : ℕ)
      → matches_at mode lines pattern i ≡ false
      → NoMatch mode lines pattern (suc i) hi
      → NoMatch mode lines pattern i hi
  extend-NoMatch i hi here later j lo up = elim (Bool-cases (nat_beq i j)) [
    | inl same ↦
        let e : i ≡ j = ground arith in subst (λ k. matches_at mode lines pattern k ≡ false) e here
    | inr other ↦ later j (ground arith) up
  ]

  try_from-First :
      (rounds i k : ℕ)
      → try_from mode lines pattern rounds i ≡ some k
      → First mode lines pattern i (i + rounds) k
  unfolding try_from
  try_from-First zero i k h = absurd (cc)
  try_from-First (suc rounds) i k h = elim (Bool-cases (matches_at mode lines pattern i)) [
    | inl here ↦
        let e : i ≡ k = ground arith in
        subst (First mode lines pattern i (i + suc rounds)) e (record {
          from = omega arith;
          below = omega arith;
          matches = here;
          first = λ j lo up. absurd (omega arith);
        })
    | inr other ↦
        let f = try_from-First rounds (suc i) k (ground arith) in
        record {
          from = omega (arith, f.from);
          below = omega (arith, f.below);
          matches = f.matches;
          first = extend-NoMatch i k other f.first;
        }
  ]

  try_from-NoMatch :
      (rounds i : ℕ)
      → try_from mode lines pattern rounds i ≡ none
      → NoMatch mode lines pattern i (i + rounds)
  unfolding try_from
  try_from-NoMatch zero i h = λ j lo up. absurd (omega arith)
  try_from-NoMatch (suc rounds) i h = elim (Bool-cases (matches_at mode lines pattern i)) [
    | inl here ↦ absurd (ground arith)
    | inr other ↦ extend-NoMatch i (i + suc rounds) other (
        subst (NoMatch mode lines pattern (suc i)) (omega arith)
          (try_from-NoMatch rounds (suc i) (ground arith)))
  ]

-- One past the last place where the pattern fits.
abbrev pub places : List Text → List Text → ℕ
places lines pattern = suc (length lines - length pattern)

-- The mode is one of the list, and no mode before it has a match.
abbrev pub Leading : List Text → List Text → ℕ → Mode → List Mode → Type 0
Leading lines pattern start mode [] = ⊥
Leading lines pattern start mode (m ∷ ms) =
    (m ≡ mode)
    ⊎ (NoMatch m lines pattern start (places lines pattern) × Leading lines pattern start mode ms)

-- No mode of the list has a match.
abbrev pub NoneOf : List Text → List Text → ℕ → List Mode → Type 0
NoneOf lines pattern start [] = Unit
NoneOf lines pattern start (m ∷ ms) =
    NoMatch m lines pattern start (places lines pattern) × NoneOf lines pattern start ms

pub record Best (lines pattern : List Text) (start index : ℕ) (mode : Mode) (ms : List Mode)
    : Type 0 where
  pub place : First mode lines pattern start (places lines pattern) index
  pub leading : Leading lines pattern start mode ms

module _ (lines pattern : List Text) (start : ℕ) where
  try_sequence-First :
      (mode : Mode) (k : ℕ)
      → try_sequence lines pattern start mode ≡ some k
      → First mode lines pattern start (places lines pattern) k
  unfolding try_sequence
  try_sequence-First mode k h =
      let f = try_from-First mode lines pattern (places lines pattern - start) start k h in
      record {
        from = f.from;
        below = omega (arith, f.below, f.from);
        matches = f.matches;
        first = f.first;
      }

  try_sequence-NoMatch :
      (mode : Mode)
      → try_sequence lines pattern start mode ≡ none
      → NoMatch mode lines pattern start (places lines pattern)
  unfolding try_sequence
  try_sequence-NoMatch mode h j lo up =
      try_from-NoMatch mode lines pattern (places lines pattern - start) start h j lo (omega arith)

  pub try_modes-Best :
      (ms : List Mode) (index : ℕ) (mode : Mode)
      → try_modes lines pattern start ms ≡ some (index, mode)
      → Best lines pattern start index mode ms
  unfolding try_modes
  try_modes-Best [] index mode h = absurd (cc)
  try_modes-Best (m ∷ ms) index mode h = elim (Option-cases (try_sequence lines pattern start m)) [
    | inr (k, e) ↦
        let same : (k ≡ index) × (m ≡ mode) = (ground arith, ground arith) in
        record { place = rw (← same.0, ← same.1) (try_sequence-First m k e); leading = inl same.1 }
    | inl e ↦
        let b = try_modes-Best ms index mode (ground arith) in
        record { place = b.place; leading = inr (try_sequence-NoMatch m e, b.leading) }
  ]

  pub try_modes-NoneOf :
      (ms : List Mode) → try_modes lines pattern start ms ≡ none → NoneOf lines pattern start ms
  unfolding try_modes
  try_modes-NoneOf [] h = tt
  try_modes-NoneOf (m ∷ ms) h = elim (Option-cases (try_sequence lines pattern start m)) [
    | inr (k, e) ↦ absurd (ground arith)
    | inl e ↦ (try_sequence-NoMatch m e, try_modes-NoneOf ms (ground arith))
  ]
