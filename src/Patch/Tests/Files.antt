-- ===== src/Patch/Tests/Files.antt =====
-- src/runtime/filesystem/apply-patch.mjs: a patch that moves a file, and the theorems on files at it.
use codex_compatible_mcp.Base.{
  ℕ, suc, ◌+◌, ◌≤◌, ◌<◌, ◌≡◌, ◌≢◌, refl, ◌⊎◌, inl, inr, Bool, true, false, Option, none, some, List,
  [], ◌∷◌, ◌++◌, map, length, take, arith, Outcome, ok, err, ◌==◌, if◌then◌else◌,
}
use codex_compatible_mcp.Base.Text.{Text, text, text_eq}
use codex_compatible_mcp.Base.Dict
use codex_compatible_mcp.Patch.Types.{update, does_not_exist, io_error, out_of_fuel}
use codex_compatible_mcp.Patch.Parse.{
  is_file_marker, flush, read_diff, read_line, read_chunks, read_move, read_path, read_update,
  read_hunk, read_hunks, body_lines, patch_lines, parse_patch,
}
use codex_compatible_mcp.Patch.Fuel.{parse_patch-ne-out_of_fuel}
use codex_compatible_mcp.Patch.Seek.{
  compare_lines, matches_at, try_from, try_sequence, try_modes, try_starts, find_sequence,
}
use codex_compatible_mcp.Patch.Update.{
  split_text, join_text, keep_context, splice, seek_context, replace_chunk, place_chunk,
  apply_chunk, apply_chunks, apply_update_text,
}
use codex_compatible_mcp.Patch.Writable.{
  nearest_existing_ancestor, resolve_target, nearest_existing_ancestor, assert_writable_targets,
}
use codex_compatible_mcp.Patch.Files.{
  missing, unreadable, file, Disk, load_state, stage_hunk, stage, writes, unlinks, run_op, run_ops,
  disk_ops, resolve_item, targets, plan_patch, apply_patch_to_environment,
}
use codex_compatible_mcp.Patch.Whole.{AsMeant, patch_targets, run_patch, apply_patch-run_patch}
use codex_compatible_mcp.Patch.Ancestor.{nearest_existing_ancestor-ne-out_of_fuel}
use codex_compatible_mcp.Patch.Cuts.{disk_ops_cut}
use codex_compatible_mcp.Patch.Tests.{
  host, environment, disk, flat, two_paths, flat-IsSeparate, chunk, items, patch, staged, bare_host,
  empty-shorter,
}

parsed_example : parse_patch patch ≡ ok (update (text "f") (some (text "g")) (chunk ∷ []) ∷ [])
unfolding is_file_marker flush read_diff read_line read_chunks read_move read_path read_update
    read_hunk read_hunks body_lines patch_lines parse_patch codex_compatible_mcp.Base.Text.text_beq
    codex_compatible_mcp.Base.Text.starts_with codex_compatible_mcp.Base.Text.trim
    codex_compatible_mcp.Base.Text.lf_text codex_compatible_mcp.Base.Text.split_lines
parsed_example = refl

moved_example :
    ((apply_patch_to_environment flat host environment patch none disk).0 (text "g")
      ≡ file (text "one\n2\n3\n"))
    × ((apply_patch_to_environment flat host environment patch none disk).0 (text "f") ≡ missing)
unfolding is_file_marker flush read_diff read_line read_chunks read_move read_path read_update
    read_hunk read_hunks body_lines patch_lines parse_patch compare_lines matches_at try_from
    try_sequence try_modes try_starts find_sequence split_text join_text keep_context splice
    seek_context replace_chunk place_chunk apply_chunk apply_chunks apply_update_text resolve_target
    assert_writable_targets load_state stage_hunk stage writes unlinks run_op run_ops disk_ops
    resolve_item plan_patch apply_patch_to_environment Dict.get Dict.set Dict.values
    codex_compatible_mcp.Base.Text.text_beq codex_compatible_mcp.Base.Text.starts_with
    codex_compatible_mcp.Base.Text.trim codex_compatible_mcp.Base.Text.lf_text
    codex_compatible_mcp.Base.Text.split_lines codex_compatible_mcp.Base.Text.join
moved_example = (refl, refl)

refused_example :
    (apply_patch_to_environment flat host environment patch none (λ p. missing)).1
    ≡ err (does_not_exist (text "f"))
unfolding is_file_marker flush read_diff read_line read_chunks read_move read_path read_update
    read_hunk read_hunks body_lines patch_lines parse_patch assert_writable_targets load_state
    stage_hunk stage resolve_item plan_patch apply_patch_to_environment Dict.get
    codex_compatible_mcp.Base.Text.text_beq codex_compatible_mcp.Base.Text.starts_with
    codex_compatible_mcp.Base.Text.trim codex_compatible_mcp.Base.Text.lf_text
    codex_compatible_mcp.Base.Text.split_lines
refused_example = refl

apply_patch-run_patch_example :
    AsMeant flat two_paths
      (λ s. s)
      disk
      (apply_patch_to_environment flat host environment patch none disk)
      (run_patch host environment patch none disk)
unfolding patch_targets is_file_marker flush read_diff read_line read_chunks read_move read_path
    read_update read_hunk read_hunks body_lines patch_lines parse_patch resolve_item resolve_target
    targets codex_compatible_mcp.Base.Text.text_beq codex_compatible_mcp.Base.Text.starts_with
    codex_compatible_mcp.Base.Text.trim codex_compatible_mcp.Base.Text.lf_text
    codex_compatible_mcp.Base.Text.split_lines
apply_patch-run_patch_example =
    apply_patch-run_patch flat host two_paths (λ s. s) flat-IsSeparate disk environment patch none
      (refl, (refl, tt))

abbrev cut_disk : Disk
cut_disk = (run_ops flat host (take 1 (disk_ops (staged (stage disk [] items)))) disk).0

disk_ops_cut_example :
    (cut_disk (text "f") ≡ disk (text "f"))
    ⊎ (cut_disk (text "f")
        ≡ (run_ops flat host (disk_ops (staged (stage disk [] items))) disk).0 (text "f"))
unfolding targets compare_lines matches_at try_from try_sequence try_modes try_starts find_sequence
    split_text seek_context place_chunk apply_chunk apply_chunks apply_update_text load_state
    stage_hunk stage Dict.get Dict.set codex_compatible_mcp.Base.Text.text_beq
    codex_compatible_mcp.Base.Text.lf_text codex_compatible_mcp.Base.Text.split_lines
disk_ops_cut_example =
    disk_ops_cut flat host two_paths (λ s. s) flat-IsSeparate disk items
      (staged (stage disk [] items)) (refl, (refl, tt)) refl 1 (text "f") refl

-- With `a` a file, there is no `a/b` to add, though the patch removes `a` first.
nested_test :
    (apply_patch_to_environment flat host environment
      (text "*** Begin Patch\n*** Delete File: a\n*** Add File: a/b\n+x\n*** End Patch\n")
      none
      (λ p. if p == text "a" then file [] else unreadable)).1
    ≡ err (io_error (text "a/b"))
unfolding codex_compatible_mcp.Patch.Parse.read_added codex_compatible_mcp.Patch.Parse.read_add
    codex_compatible_mcp.Patch.Parse.read_delete assert_writable_targets load_state stage_hunk stage
    plan_patch apply_patch_to_environment Dict.get Dict.set codex_compatible_mcp.Base.Text.join
    is_file_marker flush read_diff read_line read_chunks read_move read_path read_update read_hunk
    read_hunks body_lines patch_lines parse_patch resolve_item resolve_target targets
    codex_compatible_mcp.Base.Text.text_beq codex_compatible_mcp.Base.Text.starts_with
    codex_compatible_mcp.Base.Text.trim codex_compatible_mcp.Base.Text.lf_text
    codex_compatible_mcp.Base.Text.split_lines
nested_test = refl

parse_patch-ne-out_of_fuel_example : parse_patch patch ≢ err out_of_fuel
parse_patch-ne-out_of_fuel_example = parse_patch-ne-out_of_fuel patch

nearest_existing_ancestor-ne-out_of_fuel_example :
    nearest_existing_ancestor bare_host (text "/a/b") ≢ err out_of_fuel
nearest_existing_ancestor-ne-out_of_fuel_example =
    nearest_existing_ancestor-ne-out_of_fuel bare_host (λ p a. refl) (λ p a h. empty-shorter p h)
      (text "/a/b") refl
