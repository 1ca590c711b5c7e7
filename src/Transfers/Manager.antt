-- ===== src/Transfers/Manager.antt =====
-- src/controller/transfer-task-manager.mjs: the class TransferTaskManager around its runs. Handles are
-- resolved by the caller, and writes to the state file succeed.
use codex_compatible_mcp.Base.{
  ℕ, ◌+◌, ◌*◌, Bool, true, false, not, ◌||◌, Option, none, some, List, [], ◌∷◌, ltb, leb,
  if◌then◌else◌, is_empty, Outcome, ok, err,
}
use codex_compatible_mcp.Base.Text.{Text, text_eq}
use codex_compatible_mcp.Base.Dict
use codex_compatible_mcp.Base.Dict.{Dict, is_some}
use codex_compatible_mcp.Transfers.Tasks.{
  TaskState, reserving, transferring, completed, failed, cancelled,
}

-- What the manager reads of a task.
pub record TaskEntry : Type 0 where
  pub state : TaskState
  pub finished_at : Option ℕ
  pub cancel : Bool

abbrev pub Tasks : Type 0
Tasks = Dict Text TaskEntry

-- The paths of a request, and whether they are one path of one environment.
pub record TransferRequest : Type 0 where
  pub source_path : Text
  pub target_path : Text
  pub is_same : Bool

pub data TaskError : Type 0 where
  paths_required : TaskError
  same_path : TaskError
  too_many : TaskError
  unknown_transfer : TaskError
  result_expired : TaskError

abbrev pub result_ttl_ms : ℕ
result_ttl_ms = 24 * 60 * 60 * 1000

abbrev pub max_active_tasks : ℕ
max_active_tasks = 2

abbrev pub is_expired : ℕ → Option ℕ → Bool
is_expired now none = false
is_expired now (some finished) = ltb (finished + result_ttl_ms) now

abbrev pub is_active : TaskEntry → ℕ
is_active t = if is_some t.finished_at then 0 else 1

unfoldable pub count_active : Tasks → ℕ
count_active [] = 0
count_active ((id, t) ∷ m) = is_active t + count_active m

abbrev pub is_kept : ℕ → Text → TaskEntry → Bool
is_kept now id t = not (is_expired now t.finished_at)

abbrev pub started : TaskEntry
started = record { state = reserving; finished_at = none; cancel = false }

-- `start`; `id` is the random one.
unfoldable pub start : Text → ℕ → TransferRequest → Tasks → Tasks × Outcome TaskError Text
unfolding count_active
start id now r tasks =
    let recent = Dict.retain (is_kept now) tasks in
    if is_empty r.source_path || is_empty r.target_path
    then (tasks, err paths_required)
    else if r.is_same
    then (tasks, err same_path)
    else if leb max_active_tasks (count_active recent)
    then (recent, err too_many)
    else (Dict.set id started recent, ok id)

unfoldable pub status : Text → ℕ → Tasks → Tasks × Outcome TaskError TaskEntry
status id now tasks = elim (Dict.get id tasks) [
  | none ↦ (tasks, err unknown_transfer)
  | some t ↦
      if is_expired now t.finished_at
      then (Dict.delete id tasks, err result_expired)
      else (tasks, ok t)
]

-- A cancellation is asked for, unless the task has finished.
abbrev pub asked : TaskEntry → TaskEntry
asked t = record t { cancel = not (is_some t.finished_at) || t.cancel }

unfoldable pub cancel : Text → Tasks → Tasks × Outcome TaskError TaskEntry
cancel id tasks = elim (Dict.get id tasks) [
  | none ↦ (tasks, err unknown_transfer)
  | some t ↦ (Dict.set id (asked t) tasks, ok (asked t))
]

-- `close` asks each task that goes on to end.
unfoldable pub close : Tasks → Tasks
close [] = []
close ((id, t) ∷ m) = (id, asked t) ∷ close m

-- The end of a task's run.
unfoldable pub end_run : Text → TaskState → ℕ → Tasks → Tasks
end_run id state now tasks = elim (Dict.get id tasks) [
  | none ↦ tasks
  | some t ↦ Dict.set id (record t { state = state; finished_at = some now }) tasks
]

abbrev is_terminal : TaskState → Bool
is_terminal completed = true
is_terminal failed = true
is_terminal cancelled = true
is_terminal reserving = false
is_terminal transferring = false

-- A task of the state file: one that was interrupted has failed.
abbrev restored : ℕ → TaskEntry → TaskEntry
restored now t =
    if is_terminal t.state
    then record t { cancel = false }
    else record { state = failed; finished_at = some now; cancel = false }

-- The constructor, on the tasks of the state file with their ids.
unfoldable pub load : ℕ → List (Text × TaskEntry) → Tasks → Tasks
load now [] tasks = tasks
load now ((id, t) ∷ saved) tasks = load now saved (Dict.set id (restored now t) tasks)

pub data TaskCall : Type 0 where
  starts : (id : Text) → (now : ℕ) → TransferRequest → TaskCall
  asks : Text → ℕ → TaskCall
  cancels : Text → TaskCall
  closes : TaskCall
  ends : Text → TaskState → ℕ → TaskCall

unfoldable pub step : TaskCall → Tasks → Tasks
unfolding start status cancel close end_run
step (starts id now r) tasks = (start id now r tasks).0
step (asks id now) tasks = (status id now tasks).0
step (cancels id) tasks = (cancel id tasks).0
step closes tasks = close tasks
step (ends id state now) tasks = end_run id state now tasks
