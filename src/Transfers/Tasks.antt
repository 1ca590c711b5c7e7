-- ===== src/Transfers/Tasks.antt =====
-- src/controller/transfer-task-manager.mjs: the run of a transfer task. What the workers answer, and
-- when a cancellation is asked for, is a parameter; writes to the state file succeed.
use codex_compatible_mcp.Base.{
  ℕ, zero, suc, ◌+◌, ◌-◌, ◌*◌, min, Bool, true, false, not, ◌&&◌, Option, none, some, List, [], ◌∷◌,
  ◌++◌, ltb, nat_beq, if◌then◌else◌, length, filter, is_empty,
}
use codex_compatible_mcp.Base.Text.{Text}

-- An entry of the manifest: a file, or a directory.
pub record Item : Type 0 where
  pub is_file : Bool
  pub size : ℕ

pub record Manifest : Type 0 where
  pub is_dir : Bool
  pub entries : List Item

pub data WorkerCall : Type 0 where
  inspect : WorkerCall
  reserve : WorkerCall
  read : (index offset length : ℕ) → WorkerCall
  write : (index offset : ℕ) → Text → WorkerCall
  digest : ℕ → WorkerCall
  finish : ℕ → Text → WorkerCall
  commit : WorkerCall
  abort : WorkerCall

-- The answers of the workers, none where a call fails; a read answers with a length and the data.
-- `is_cancelled` is whether the task was cancelled by the time that it had made a number of calls, and
-- `is_inside` whether the target is a path within the source, on the same environment.
pub record Workers : Type 0 where
  pub inspected : Option Manifest
  pub is_inside : Bool
  pub reserved : Bool
  pub chunk : (index offset length : ℕ) → Option (ℕ × Text)
  pub accepted : (index offset : ℕ) → Text → Option ℕ
  pub digested : ℕ → Option Text
  pub finished : ℕ → Text → Bool
  pub committed : Bool
  pub aborted : Option (List Text)
  pub is_cancelled : ℕ → Bool

pub data TaskState : Type 0 where
  reserving : TaskState
  transferring : TaskState
  completed : TaskState
  failed : TaskState
  cancelled : TaskState

pub data TransferError : Type 0 where
  transfer_cancelled : TransferError
  worker_failed : TransferError
  empty_manifest : TransferError
  into_itself : TransferError
  length_mismatch : TransferError
  offset_mismatch : TransferError
  out_of_fuel : TransferError

-- `calls` has the calls that the task made, in order; `reserve_attempted` is the variable of `#run`.
pub record Task : Type 0 where
  pub target_path : Text
  pub state : TaskState
  pub total_bytes : ℕ
  pub transferred_bytes : ℕ
  pub file_count : ℕ
  pub completed_files : ℕ
  pub residue : List Text
  pub error : Option TransferError
  pub cleanup_unavailable : Bool
  pub is_finished : Bool
  pub reserve_attempted : Bool
  pub calls : List WorkerCall

abbrev pub transfer_chunk_bytes : ℕ
transfer_chunk_bytes = 4 * 1024 * 1024

-- What a part of the run leaves, with the error that it threw.
abbrev pub Ran : Type 0
Ran = Task × Option TransferError

infixl 5 ◌then_run◌
abbrev pub ◌then_run◌ : Ran → (Task → Ran) → Ran
(t, none) then_run f = f t
(t, some e) then_run f = (t, some e)

abbrev pub called : WorkerCall → Task → Task
called c t = record t { calls = t.calls ++ (c ∷ []) }

abbrev pub throw_unless : Bool → TransferError → Task → Ran
throw_unless true e t = (t, none)
throw_unless false e t = (t, some e)

abbrev pub count_bytes : ℕ → Task → Ran
count_bytes len t = (record t { transferred_bytes = t.transferred_bytes + len }, none)

abbrev pub count_file : Task → Ran
count_file t = (record t { completed_files = t.completed_files + 1 }, none)

abbrev pub file_items : List Item → List Item
file_items es = filter (λ (e : Item). e.is_file) es

unfoldable pub sum_sizes : List Item → ℕ
sum_sizes [] = 0
sum_sizes (e ∷ es) = e.size + sum_sizes es

abbrev pub measured : Manifest → Task → Ran
unfolding sum_sizes
measured m t = (
  record t {
    total_bytes = sum_sizes (file_items m.entries);
    file_count = length (file_items m.entries);
  },
  none,
)

module _ (w : Workers) where
  unfoldable pub check_cancelled : Task → Ran
  check_cancelled t = throw_unless (not (w.is_cancelled (length t.calls))) transfer_cancelled t

  unfoldable pub accept : (offset len : ℕ) → Option ℕ → Task → Ran
  accept offset len none t = (t, some worker_failed)
  accept offset len (some reached) t =
      throw_unless (nat_beq reached (offset + len)) offset_mismatch t then_run count_bytes len

  unfoldable pub write_chunk : (index offset len : ℕ) → Text → Task → Ran
  unfolding accept
  write_chunk index offset len content t =
      accept offset len (w.accepted index offset content) (called (write index offset content) t)

  unfoldable pub pass_chunk : (index offset len : ℕ) → Option (ℕ × Text) → Task → Ran
  unfolding check_cancelled write_chunk
  pass_chunk index offset len none t = (t, some worker_failed)
  pass_chunk index offset len (some (given, content)) t =
      check_cancelled t
      then_run throw_unless (nat_beq given len) length_mismatch
      then_run write_chunk index offset len content

  unfoldable pub read_chunk : (index offset len : ℕ) → Task → Ran
  unfolding pass_chunk
  read_chunk index offset len t =
      pass_chunk index offset len (w.chunk index offset len) (called (read index offset len) t)

  unfoldable pub copy_chunk : (index offset len : ℕ) → Task → Ran
  unfolding check_cancelled read_chunk
  copy_chunk index offset len t = check_cancelled t then_run read_chunk index offset len

  -- The loop over a file; the fuel is a round for each byte.
  unfoldable pub copy_chunks : (fuel index size offset : ℕ) → Task → Ran
  unfolding copy_chunk
  copy_chunks zero index size offset t = throw_unless (not (ltb offset size)) out_of_fuel t
  copy_chunks (suc fuel) index size offset t =
      let len = min transfer_chunk_bytes (size - offset) in
      let rest =
        copy_chunk index offset len t then_run copy_chunks fuel index size (offset + len) in
      if ltb offset size then rest else (t, none)

  unfoldable pub finish_file : ℕ → Option Text → Task → Ran
  finish_file index none t = (t, some worker_failed)
  finish_file index (some sha256) t =
      throw_unless (w.finished index sha256) worker_failed (called (finish index sha256) t)
      then_run count_file

  unfoldable pub check_file : ℕ → Task → Ran
  unfolding finish_file
  check_file index t = finish_file index (w.digested index) (called (digest index) t)

  unfoldable pub copy_file : (index size : ℕ) → Task → Ran
  unfolding copy_chunks check_cancelled check_file
  copy_file index size t =
      copy_chunks size index size 0 t then_run check_cancelled then_run check_file index

  -- The loop over the entries of the manifest, from an index on.
  unfoldable pub copy_entries : ℕ → List Item → Task → Ran
  unfolding copy_file
  copy_entries index [] t = (t, none)
  copy_entries index (e ∷ es) t =
      (if e.is_file then copy_file index e.size t else (t, none))
      then_run copy_entries (suc index) es

  unfoldable pub begin_transfer : Task → Ran
  begin_transfer t =
      throw_unless w.reserved worker_failed (called reserve (record t { reserve_attempted = true }))
      then_run (λ t. (record t { state = transferring }, none))

  unfoldable pub commit_transfer : Task → Ran
  commit_transfer t =
      throw_unless w.committed worker_failed (called commit t)
      then_run (λ t. (record t { reserve_attempted = false; state = completed }, none))

  -- The body of the try block, behind the inspection of the source.
  unfoldable pub transfer : Option Manifest → Task → Ran
  unfolding check_cancelled sum_sizes begin_transfer copy_entries commit_transfer
  transfer none t = (t, some worker_failed)
  transfer (some m) t =
      check_cancelled t
      then_run throw_unless (not (is_empty m.entries)) empty_manifest
      then_run throw_unless (not (m.is_dir && w.is_inside)) into_itself
      then_run measured m
      then_run check_cancelled
      then_run begin_transfer
      then_run copy_entries 0 m.entries
      then_run check_cancelled
      then_run commit_transfer

  abbrev pub left_behind : Option (List Text) → Task → Task
  left_behind none t = record t { residue = t.target_path ∷ []; cleanup_unavailable = true }
  left_behind (some residue) t = record t { residue = residue }

  -- The catch block.
  unfoldable pub settle : Ran → Task
  settle (t, none) = t
  settle (t, some e) =
      let state = if w.is_cancelled (length t.calls) then cancelled else failed in
      let thrown : Task = record t { state = state; error = some e } in
      if t.reserve_attempted then left_behind w.aborted (called abort thrown) else thrown

  -- `#run`.
  unfoldable pub run_task : Task → Task
  unfolding transfer settle
  run_task t = record (settle (transfer w.inspected (called inspect t))) { is_finished = true }

-- A task as `start` makes it.
abbrev pub new_task : Text → Task
new_task target_path = record {
  target_path = target_path;
  state = reserving;
  total_bytes = 0;
  transferred_bytes = 0;
  file_count = 0;
  completed_files = 0;
  residue = [];
  error = none;
  cleanup_unavailable = false;
  is_finished = false;
  reserve_attempted = false;
  calls = [];
}
