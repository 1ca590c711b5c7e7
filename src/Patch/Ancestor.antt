-- ===== src/Patch/Ancestor.antt =====
-- src/runtime/filesystem/apply-patch.mjs: the loop of nearestExistingAncestor ends.
use codex_compatible_mcp.Base.{
  ℕ, zero, suc, ◌<◌, ◌≡◌, ◌≢◌, inl, inr, true, false, length, ◌==◌, err, arith, Bool-cases,
}
use codex_compatible_mcp.Base.Text.{Text, text_eq}
use codex_compatible_mcp.Patch.Types.{out_of_fuel}
use codex_compatible_mcp.Patch.Writable.{Host, nearest_ancestor, nearest_existing_ancestor}

module _ (host : Host)
    (absolute_up : (p : Text)
      → host.is_absolute p ≡ true
      → host.is_absolute (host.dirname p) ≡ true)
    (shorter_up : (p : Text)
      → host.is_absolute p ≡ true
      → (host.dirname p == p) ≡ false
      → length (host.dirname p) < length p) where
  nearest_ancestor-ne-out_of_fuel :
      (fuel : ℕ) (current : Text)
      → host.is_absolute current ≡ true
      → length current < fuel
      → nearest_ancestor host fuel current ≢ err out_of_fuel
  unfolding nearest_ancestor
  nearest_ancestor-ne-out_of_fuel zero current absolute enough h = absurd (omega arith)
  nearest_ancestor-ne-out_of_fuel (suc fuel) current absolute enough h =
      elim (Bool-cases (host.exists current)) [
        | inl here ↦ absurd (ground (arith, here, h))
        | inr missing ↦ elim (Bool-cases (host.dirname current == current)) [
          | inl top ↦ absurd (ground (arith, missing, top, h))
          | inr below ↦
              nearest_ancestor-ne-out_of_fuel fuel (host.dirname current)
                (absolute_up current absolute) (omega (arith, shorter_up current absolute below))
                (ground (arith, missing, below, h))
        ]
      ]

  -- The search for an existing ancestor ends by itself, given that resolved paths are absolute, that
  -- the parent of an absolute path is absolute, and that it is shorter unless it is the path itself:
  -- the rounds that the model allows are never used up.
  pub nearest_existing_ancestor-ne-out_of_fuel :
      (target : Text)
      → host.is_absolute (host.resolve_one target) ≡ true
      → nearest_existing_ancestor host target ≢ err out_of_fuel
  unfolding nearest_existing_ancestor
  nearest_existing_ancestor-ne-out_of_fuel target absolute =
      nearest_ancestor-ne-out_of_fuel (suc (length (host.resolve_one target)))
        (host.resolve_one target) absolute (omega arith)
