-- ===== src/Patch/Tests.antt =====
-- src/runtime/filesystem/apply-patch.mjs: a patch on concrete files, and the theorems at it.
mod Files
mod Lines
use codex_compatible_mcp.Base.{
  ℕ, suc, ◌+◌, ◌≤◌, ◌<◌, ◌≡◌, ◌≢◌, refl, ◌⊎◌, inl, inr, Bool, true, false, ◌||◌, Option, none, some,
  List, [], ◌∷◌, ◌++◌, map, length, take, arith, Outcome, ok, err, ◌==◌, if◌then◌else◌,
}
use codex_compatible_mcp.Base.Text.{Text, text, text_eq}
use codex_compatible_mcp.Base.Dict
use codex_compatible_mcp.Patch.Types.{Chunk, update, PatchError, does_not_exist, out_of_fuel}
use codex_compatible_mcp.Patch.Parse.{
  is_file_marker, read_added, flush, read_diff, read_line, read_chunks, read_move, read_path,
  read_add, read_delete, read_update, read_hunk, read_hunks, body_lines, patch_lines, parse_patch,
}
use codex_compatible_mcp.Patch.Fuel.{parse_patch-ne-out_of_fuel}
use codex_compatible_mcp.Patch.Seek.{
  exact, rstrip, normalize_punctuation, compare_lines, matches_at, try_from, try_sequence, modes,
  try_modes, try_starts, find_sequence,
}
use codex_compatible_mcp.Patch.Found.{NoneOf, Best}
use codex_compatible_mcp.Patch.Search.{
  Place, find_sequence-Place, find_sequence-Best, find_sequence-NoneOf,
}
use codex_compatible_mcp.Patch.Update.{
  has_crlf, split_text, join_text, keep_context, splice, seek_context, replace_chunk, place_chunk,
  apply_chunk, apply_chunks, apply_update_text, apply_single_file_patch_to_text,
}
use codex_compatible_mcp.Patch.Chunks.{Applied}
use codex_compatible_mcp.Patch.Edits.{
  apply_chunk-Applied, old_count, new_count, apply_chunks_extent,
}
use codex_compatible_mcp.Patch.Writable.{
  nearest_existing_ancestor, Host, Environment, resolve_workdir, resolve_target, is_within,
  nearest_ancestor, nearest_existing_ancestor, real_roots, check_target, check_targets,
  assert_writable_targets,
}
use codex_compatible_mcp.Patch.Files.{
  missing, unreadable, file, Disk, FileSystem, Item, States, load_state, stage_update, stage_hunk,
  stage, writes, unlinks, run_op, run_ops, disk_ops, resolve_item, targets, change_of, plan_patch,
  apply_patch_to_environment,
}
use codex_compatible_mcp.Patch.Separate.{read_back, IsSeparate}
use codex_compatible_mcp.Patch.Whole.{AsMeant, patch_targets, run_patch, apply_patch-run_patch}
use codex_compatible_mcp.Patch.Ancestor.{nearest_existing_ancestor-ne-out_of_fuel}
use codex_compatible_mcp.Patch.Cuts.{disk_ops_cut}

-- Paths are taken as they are, and every file is there.
abbrev host : Host
host = record {
  is_absolute = λ p. true;
  normalize = λ p. p;
  resolve = λ dir p. p;
  resolve_one = λ p. p;
  relative = λ from to. to;
  dirname = λ p. p;
  separator = text "/";
  exists = λ p. true;
  real_path = λ p. some p;
}

abbrev environment : Environment
environment = record {
  cwd = text "/";
  permission_profile = some (text "full-access");
  workspace_roots = [];
}

abbrev disk : Disk
disk p = if p == text "f" then file (text "one\ntwo\n") else missing

-- A disk that holds each path by itself, and takes a text as it is.
abbrev flat : FileSystem Disk
flat = record {
  find = λ d. d;
  mkdir = λ d p. (d, true);
  write_text = λ d p content. (λ q. if p == q then read_back (λ s. s) content else d q, true);
  remove_file = λ d p. (λ q. if p == q then missing else d q, true);
}

abbrev two_paths : Text → Bool
two_paths q = q == text "f" || q == text "g"

flat-IsSeparate : IsSeparate flat host two_paths (λ s. s)
flat-IsSeparate = record {
  has_directory = λ d p. true;
  mkdir_succeeds = λ d p a r. refl;
  mkdir_there = λ d p a r. refl;
  mkdir_keeps = λ d p q a r b. refl;
  write_succeeds = λ d p content a r t. refl;
  write_there = λ d p content a r t. rw (Dict.beq_self p) refl;
  write_keeps = λ d p content q a r t b apart. rw apart refl;
  remove_succeeds = λ d p a r. refl;
  remove_there = λ d p a r. rw (Dict.beq_self p) refl;
  remove_keeps = λ d p q a r b apart. rw apart refl;
}

abbrev chunk : Chunk
chunk = record {
  context = none;
  old_lines = text "two" ∷ [];
  new_lines = text "2" ∷ text "3" ∷ [];
  context_pairs = [];
  is_end_of_file = false;
}

abbrev items : List Item
items =
    record {
      hunk = update (text "f") (some (text "g")) (chunk ∷ []);
      source = text "f";
      destination = some (text "g");
    }
    ∷ []

abbrev patch : Text
patch =
    text "*** Begin Patch\n*** Update File: f\n*** Move to: g\n@@\n-two\n+2\n+3\n*** End Patch\n"

abbrev lines : List Text
lines = text "one" ∷ text "two " ∷ text "two" ∷ []

abbrev staged : Outcome PatchError States → States
staged (ok s) = s
staged (err e) = []

-- Only the root is there.
abbrev bare_host : Host
bare_host = record {
  is_absolute = λ p. true;
  normalize = λ p. p;
  resolve = λ dir p. p;
  resolve_one = λ p. p;
  relative = λ from to. to;
  dirname = λ p. [];
  separator = text "/";
  exists = λ p. p == [];
  real_path = λ p. some p;
}

empty-shorter : (p : Text) → ([] == p) ≡ false → length {A = ℕ} [] < length p
unfolding codex_compatible_mcp.Base.Text.text_beq
empty-shorter [] h = absurd (ground arith)
empty-shorter (c ∷ p) h = omega arith
