-- ===== src/Patch/Sequence.antt =====
-- The specification of a patch: each hunk changes the files at once, one after the other.
use codex_compatible_mcp.Base.{
  if◌then◌else◌, ◌==◌, Option, none, some, List, [], ◌∷◌, Outcome, ok, err, ◌>>=◌,
}
use codex_compatible_mcp.Base.Text.{Text, text_eq}
use codex_compatible_mcp.Patch.Types.{
  Hunk, add, delete, update, PatchError, not_a_file, binary, io_error, already_exists,
  does_not_exist, destination_exists,
}
use codex_compatible_mcp.Patch.Update.{apply_update_text}
use codex_compatible_mcp.Patch.Files.{
  Entry, missing, other, nul_bytes, file, unreadable, Disk, Item, moves_to,
}

abbrev pub write : Disk → Text → Entry → Disk
write disk path entry p = if path == p then entry else disk p

-- The text under a path, `none` where there is no file.
abbrev pub read : Text → Entry → Outcome PatchError (Option Text)
read path missing = ok none
read path other = err (not_a_file path)
read path nul_bytes = err (binary path)
read path unreadable = err (io_error path)
read path (file content) = ok (some content)

abbrev pub absent_or {ℓ} :
    {A : Type ℓ} → PatchError → Outcome PatchError A → Option Text → Outcome PatchError A
absent_or e k none = k
absent_or e k (some content) = err e

abbrev pub present_or {ℓ} :
    {A : Type ℓ} → PatchError → (Text → Outcome PatchError A) → Option Text → Outcome PatchError A
present_or e k none = err e
present_or e k (some content) = k content

abbrev pub replace_file : Disk → Text → Option Text → Text → Outcome PatchError Disk
replace_file disk source none content = ok (write disk source (file content))
replace_file disk source (some destination) content =
    read destination (disk destination)
    >>= absent_or (destination_exists destination)
        (ok (write (write disk destination (file content)) source missing))

unfoldable pub run_hunk : Disk → Text → Option Text → Hunk → Outcome PatchError Disk
run_hunk disk source destination (add path content) =
    read source (disk source)
    >>= absent_or (already_exists path) (ok (write disk source (file content)))
run_hunk disk source destination (delete path) =
    read source (disk source)
    >>= present_or (does_not_exist path) (λ _. ok (write disk source missing))
run_hunk disk source destination (update path move_path chunks) =
    read source (disk source)
    >>= present_or (does_not_exist path) λ before.
      apply_update_text before chunks >>= replace_file disk source (moves_to source destination)

unfoldable pub run_items : Disk → List Item → Outcome PatchError Disk
run_items disk [] = ok disk
run_items disk (item ∷ items) =
    run_hunk disk item.source item.destination item.hunk >>= λ disk'. run_items disk' items
