-- ===== src/Patch/Writable.antt =====
-- src/runtime/filesystem/apply-patch.mjs: how paths are resolved, and which of them a patch may write.
use codex_compatible_mcp.Base.{
  ℕ, zero, suc, Bool, not, ◌&&◌, ◌||◌, Option, none, some, List, [], ◌∷◌, ◌++◌, length, is_empty,
  find?, if◌then◌else◌, ◌==◌, Outcome, ok, err, ◌>>=◌, ◌>>◌, throw_if, or_throw,
}
use codex_compatible_mcp.Base.Text.{Text, text, text_eq, starts_with}
use codex_compatible_mcp.Patch.Types.{PatchError, forbidden, out_of_fuel}

-- `node:path`, and what `node:fs` says of links: not part of the program. `real_path` is `none`
-- where the path cannot be resolved.
pub record Host : Type 0 where
  pub is_absolute : Text → Bool
  pub normalize : Text → Text
  pub resolve : Text → Text → Text
  pub resolve_one : Text → Text
  pub relative : Text → Text → Text
  pub dirname : Text → Text
  pub separator : Text
  pub exists : Text → Bool
  pub real_path : Text → Option Text

pub record Environment : Type 0 where
  pub cwd : Text
  pub permission_profile : Option Text
  pub workspace_roots : List Text

module _ (host : Host) where
  open host use {
    is_absolute, normalize, resolve, resolve_one, relative, dirname, separator, exists, real_path,
  }

  unfoldable pub resolve_workdir : Environment → Option Text → Text
  resolve_workdir environment none = environment.cwd
  resolve_workdir environment (some requested) =
      if is_empty requested
      then environment.cwd
      else (if is_absolute requested
          then normalize requested
          else resolve environment.cwd requested)

  unfoldable pub resolve_target : Text → Text → Text
  resolve_target workdir value =
      if is_absolute value then normalize value else resolve workdir value

  unfoldable pub is_within : Text → Text → Bool
  is_within root target =
      let path = relative root target in
      is_empty path
      || (not (starts_with (text ".." ++ separator) path)
          && not (path == text "..")
          && not (is_absolute path))

  -- One round for each parent that is tried.
  unfoldable pub nearest_ancestor : ℕ → Text → Outcome PatchError Text
  nearest_ancestor zero current = err out_of_fuel
  nearest_ancestor (suc fuel) current =
      let up = nearest_ancestor fuel (dirname current) in
      if exists current
      then ok current
      else (if dirname current == current then err (forbidden current) else up)

  unfoldable pub nearest_existing_ancestor : Text → Outcome PatchError Text
  nearest_existing_ancestor target =
      let current = resolve_one target in nearest_ancestor (suc (length current)) current

  unfoldable pub real_roots : List Text → Outcome PatchError (List (Text × Text))
  real_roots [] = ok []
  real_roots (root ∷ roots) = do
    let lexical = resolve_one root
    real ← or_throw (real_path lexical) (forbidden lexical)
    others ← real_roots roots
    ok ((lexical, real) ∷ others)

  abbrev pub holds_root : Text → Text × Text → Bool
  holds_root absolute root = is_within root.0 absolute

  unfoldable pub check_target : List (Text × Text) → Text → Outcome PatchError (Unit {0})
  check_target roots target = do
    let absolute = resolve_one target
    root ← or_throw (find? (holds_root absolute) roots) (forbidden absolute)
    ancestor ← nearest_existing_ancestor absolute
    real ← or_throw (real_path ancestor) (forbidden ancestor)
    throw_if (not (is_within root.1 real)) (forbidden absolute)

  unfoldable pub check_targets : List (Text × Text) → List Text → Outcome PatchError (Unit {0})
  check_targets roots [] = ok tt
  check_targets roots (target ∷ targets) = check_target roots target >> check_targets roots targets

  abbrev profile_of : Option Text → Text
  profile_of none = text "workspace-write"
  profile_of (some p) = if is_empty p then text "workspace-write" else p

  unfoldable pub assert_writable_targets : Environment → List Text → Outcome PatchError (Unit {0})
  assert_writable_targets environment targets =
      let profile = profile_of environment.permission_profile in
      if profile == text "read-only"
      then err (forbidden profile)
      else (if profile == text "full-access"
          then ok tt
          else (if not (profile == text "workspace-write")
              then err (forbidden profile)
              else (real_roots environment.workspace_roots >>= λ roots.
                  check_targets roots targets)))
