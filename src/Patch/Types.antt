-- ===== src/Patch/Types.antt =====
-- src/runtime/filesystem/apply-patch.mjs: what a patch is parsed into, and the errors.
use codex_compatible_mcp.Base.{ℕ, Bool, Option, List}
use codex_compatible_mcp.Base.Text.{Text}

pub record Chunk : Type 0 where
  pub context : Option Text
  pub old_lines : List Text
  pub new_lines : List Text
  -- Where a context line stands among the old and among the new lines.
  pub context_pairs : List (ℕ × ℕ)
  pub is_end_of_file : Bool

pub data Hunk : Type 0 where
  add : (path content : Text) → Hunk
  delete : (path : Text) → Hunk
  update : (path : Text) → (move_path : Option Text) → List Chunk → Hunk

-- A number is that of the line, from 1.
pub data PatchError : Type 0 where
  empty_patch no_begin no_end : PatchError
  empty_path empty_move_path no_plus blank_diff_line invalid_line unknown_marker : ℕ → PatchError
  nothing_added : PatchError
  empty_update : Text → PatchError
  context_not_found lines_not_found : PatchError
  bad_mode not_one_hunk wrong_target wrong_type has_move no_text : PatchError
  forbidden not_a_file binary io_error : Text → PatchError
  already_exists does_not_exist destination_exists : Text → PatchError
  -- A loop of the model has no rounds left.
  out_of_fuel : PatchError
