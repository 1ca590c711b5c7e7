-- ===== src/Patch/Files.antt =====
-- src/runtime/filesystem/apply-patch.mjs: the files under a patch. The hunks are staged in a table of
-- states; then the changed files are written, and after them the deleted ones removed. The file
-- system is a parameter: its state is of any type, and its operations may fail.
use codex_compatible_mcp.Base.{
  Bool, true, false, not, ◌||◌, Option, none, some, List, [], ◌∷◌, ◌++◌, map, is_empty,
  if◌then◌else◌, ◌==◌, Outcome, ok, err, ◌>>=◌, ◌>>◌, throw_if,
}
use codex_compatible_mcp.Base.Text.{Text, text, text_eq}
use codex_compatible_mcp.Base.Dict
use codex_compatible_mcp.Base.Dict.{Dict}
use codex_compatible_mcp.Patch.Types.{
  Hunk, add, delete, update, PatchError, not_a_file, binary, io_error, already_exists,
  does_not_exist, destination_exists,
}
use codex_compatible_mcp.Patch.Parse.{parse_patch}
use codex_compatible_mcp.Patch.Update.{apply_update_text}
use codex_compatible_mcp.Patch.Writable.{
  Host, Environment, resolve_workdir, resolve_target, assert_writable_targets,
}

-- What `stat` and `readFile` find under a path: nothing (ENOENT), what is not a file, a file with a NUL
-- byte, another error (ENOTDIR, EACCES and so on), or a file and its bytes as a text.
pub data Entry : Type 0 where
  missing other nul_bytes unreadable : Entry
  file : Text → Entry

-- What is found under each path while nothing is written. Paths that lead to one file find the same.
abbrev pub Disk : Type 0
Disk = Text → Entry

-- `node:fs/promises` on a state of the disk; a call that changes it says whether it succeeds, and
-- leaves some state either way. `mkdir` is the recursive one.
pub record FileSystem (D : Type 0) : Type 0 where
  pub find : D → Disk
  pub mkdir : D → Text → D × Bool
  pub write_text : D → (path content : Text) → D × Bool
  pub remove_file : D → Text → D × Bool

-- A hunk with its resolved paths.
pub record Item : Type 0 where
  pub hunk : Hunk
  pub source : Text
  pub destination : Option Text

pub record FileState : Type 0 where
  pub path : Text
  pub initial_exists : Bool
  pub exists : Bool
  pub content : Text
  pub dirty : Bool

abbrev pub States : Type 0
States = Dict Text FileState

abbrev pub fresh_state : Text → Bool → Text → FileState
fresh_state path exists content = record {
  path = path;
  initial_exists = exists;
  exists = exists;
  content = content;
  dirty = false;
}

unfoldable pub load_entry : Text → Entry → Outcome PatchError FileState
load_entry path missing = ok (fresh_state path false [])
load_entry path other = err (not_a_file path)
load_entry path nul_bytes = err (binary path)
load_entry path unreadable = err (io_error path)
load_entry path (file content) = ok (fresh_state path true content)

-- `loadState`: the state, and the table with it.
unfoldable pub load_state : Disk → States → Text → Outcome PatchError (FileState × States)
unfolding load_entry
load_state disk states path = elim (Dict.get path states) [
  | some s ↦ ok (s, states)
  | none ↦ load_entry path (disk path) >>= λ s. ok (s, Dict.set path s states)
]

abbrev pub put : FileState → States → States
put s states = Dict.set s.path s states

abbrev pub with_content : FileState → Text → FileState
with_content s content = record s { exists = true; content = content; dirty = true }

abbrev pub removed : FileState → FileState
removed s = record s { exists = false; dirty = true }

-- Whether the destination is another file.
abbrev pub moves_to : Text → Option Text → Option Text
moves_to source none = none
moves_to source (some d) = if d == source then none else some d

unfoldable pub stage_update :
    Disk → States → FileState → Text → Option Text → Text → Outcome PatchError States
stage_update disk states s source none content = ok (put (with_content s content) states)
stage_update disk states s source (some destination) content = do
  (d, states') ← load_state disk states destination
  throw_if d.exists (destination_exists destination)
  ok (put (removed s) (put (with_content d content) states'))

-- One round of the loop over the hunks.
unfoldable pub stage_hunk : Disk → States → Text → Option Text → Hunk → Outcome PatchError States
unfolding stage_update
stage_hunk disk states source destination (add path content) = do
  (s, states') ← load_state disk states source
  throw_if s.exists (already_exists path)
  ok (put (with_content s content) states')
stage_hunk disk states source destination (delete path) = do
  (s, states') ← load_state disk states source
  throw_if (not s.exists) (does_not_exist path)
  ok (put (removed s) states')
stage_hunk disk states source destination (update path move_path chunks) = do
  (s, states') ← load_state disk states source
  throw_if (not s.exists) (does_not_exist path)
  content ← apply_update_text s.content chunks
  stage_update disk states' s source (moves_to source destination) content

unfoldable pub stage : Disk → States → List Item → Outcome PatchError States
stage disk states [] = ok states
stage disk states (item ∷ items) =
    stage_hunk disk states item.source item.destination item.hunk >>= λ states'.
    stage disk states' items

-- The operations on the disk, in their order.
pub data Op : Type 0 where
  write_file : (path content : Text) → Op
  unlink : (path : Text) → Op

unfoldable pub writes : List FileState → List Op
writes [] = []
writes (s ∷ ss) =
    if not s.dirty || not s.exists then writes ss else write_file s.path s.content ∷ writes ss

unfoldable pub unlinks : List FileState → List Op
unlinks [] = []
unlinks (s ∷ ss) =
    if not s.dirty || s.exists || not s.initial_exists
    then unlinks ss
    else unlink s.path ∷ unlinks ss

-- A state of the disk, with the error that was thrown.
abbrev pub Ran : Type 0 → Type 0
Ran D = D × Outcome PatchError (Unit {0})

abbrev pub failing_at : {D : Type 0} → Text → D × Bool → Ran D
failing_at path (d, true) = (d, ok tt)
failing_at path (d, false) = (d, err (io_error path))

abbrev pub then_do : {D : Type 0} → Ran D → (D → Ran D) → Ran D
then_do (d, ok _) next = next d
then_do (d, err e) next = (d, err e)

module _ {D : Type 0} (fs : FileSystem D) (host : Host) where
  unfoldable pub run_op : Op → D → Ran D
  run_op (write_file path content) d =
      then_do (failing_at path (fs.mkdir d (host.dirname path)))
        (λ d'. failing_at path (fs.write_text d' path content))
  run_op (unlink path) d = failing_at path (fs.remove_file d path)

  unfoldable pub run_ops : List Op → D → Ran D
  unfolding run_op
  run_ops [] d = (d, ok tt)
  run_ops (op ∷ ops) d = then_do (run_op op d) (run_ops ops)

unfoldable pub disk_ops : States → List Op
disk_ops states = writes (Dict.values states) ++ unlinks (Dict.values states)

abbrev hunk_path : Hunk → Text
hunk_path (add path content) = path
hunk_path (delete path) = path
hunk_path (update path move_path chunks) = path

abbrev hunk_move : Hunk → Option Text
hunk_move (update path (some to) chunks) = if is_empty to then none else some to
hunk_move _ = none

abbrev resolved_move : Host → Text → Option Text → Option Text
resolved_move host workdir none = none
resolved_move host workdir (some to) = some (resolve_target host workdir to)

unfoldable pub resolve_item : Host → Text → Hunk → Item
resolve_item host workdir hunk = record {
  hunk = hunk;
  source = resolve_target host workdir (hunk_path hunk);
  destination = resolved_move host workdir (hunk_move hunk);
}

abbrev pub item_targets : Item → List Text
item_targets item = item.source ∷ elim item.destination [ none ↦ [] | some d ↦ d ∷ [] ]

unfoldable pub targets : List Item → List Text
targets [] = []
targets (item ∷ items) = item_targets item ++ targets items

-- What the program reports of each hunk.
pub data Change : Type 0 where
  added deleted updated : (path summary : Text) → Change
  moved : (path destination summary : Text) → Change

-- `summaryLine`, with the letter of the change.
summary_line : Text → Text → Option Text → Text
summary_line letter source none = letter ++ (text " " ++ source)
summary_line letter source (some to) = letter ++ (text " " ++ (source ++ (text " -> " ++ to)))

unfoldable pub change_of : Item → Change
unfolding summary_line
change_of item = elim item.hunk [
  | add path content ↦ added item.source (summary_line (text "A") path none)
  | delete path ↦ deleted item.source (summary_line (text "D") path none)
  | update path move_path chunks ↦ elim (moves_to item.source item.destination) [
    | none ↦ updated item.source (summary_line (text "M") path none)
    | some d ↦ moved item.source d (summary_line (text "M") path move_path)
  ]
]

-- All that is done before the first operation on the disk.
unfoldable pub plan_patch :
    Host → Environment → Text → Option Text → Disk → Outcome PatchError (List Item × States)
plan_patch host environment patch workdir disk = do
  hunks ← parse_patch patch
  let items = map (resolve_item host (resolve_workdir host environment workdir)) hunks
  assert_writable_targets host environment (targets items)
  states ← stage disk [] items
  ok (items, states)

abbrev pub answered : {D : Type 0} → List Item → Ran D → D × Outcome PatchError (List Change)
answered items (d, ok _) = (d, ok (map change_of items))
answered items (d, err e) = (d, err e)

module _ {D : Type 0} (fs : FileSystem D) (host : Host) where
  abbrev carry_out :
      D → Outcome PatchError (List Item × States) → D × Outcome PatchError (List Change)
  carry_out d (err e) = (d, err e)
  carry_out d (ok (items, states)) = answered items (run_ops fs host (disk_ops states) d)

  -- `applyPatchToEnvironment`: the disk after it, and the changes or the error.
  unfoldable pub apply_patch_to_environment :
      Environment → Text → Option Text → D → D × Outcome PatchError (List Change)
  unfolding plan_patch run_ops
  apply_patch_to_environment environment patch workdir d =
      carry_out d (plan_patch host environment patch workdir (fs.find d))
