-- ===== src/Policy/Places.antt =====
-- src/runtime/sandbox/shell-policy-parser.mjs: where the segments of a command stand in it.
use codex_compatible_mcp.Base.{ℕ, ◌≤◌, ◌<◌, ◌≡◌, List, [], ◌∷◌, ◌++◌, arith}
use codex_compatible_mcp.Base.Text.{Text}
use codex_compatible_mcp.Policy.Sources.{Source, slice}

-- Segments in order, apart, not empty, each what stands at its place in the command; the first not
-- before `from`, the last not behind `upto`.
abbrev pub ArePlaced : Text → ℕ → List Source → ℕ → Type 0
ArePlaced command from [] upto = from ≤ upto
ArePlaced command from (g ∷ gs) upto =
    (from ≤ g.start)
    × (g.start < g.end)
    × (slice g.start g.end command ≡ g.source)
    × ArePlaced command g.end gs upto

pub ArePlaced-snoc :
    (command : Text) (from upto last : ℕ) (gs : List Source) (g : Source)
    → ArePlaced command from gs upto
    → upto ≤ g.start
    → g.start < g.end
    → g.end ≤ last
    → slice g.start g.end command ≡ g.source
    → ArePlaced command from (gs ++ (g ∷ [])) last
ArePlaced-snoc command from upto last [] g h a b c e = (omega arith, b, e, c)
ArePlaced-snoc command from upto last (k ∷ gs) g (h, i, j, hs) a b c e =
    (h, i, j, ArePlaced-snoc command k.end upto last gs g hs a b c e)
