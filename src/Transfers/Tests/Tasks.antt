-- ===== src/Transfers/Tests/Tasks.antt =====
-- src/controller/transfer-task-manager.mjs: a transfer that is run, and requests for more of them.
use codex_compatible_mcp.Base.{
  ℕ, zero, suc, ◌+◌, ◌≤◌, ◌≡◌, refl, true, false, some, [], ◌∷◌, leb, length, arith,
}
use codex_compatible_mcp.Base.Text.{Text, text, text_eq}
use codex_compatible_mcp.Transfers.Tasks.{
  Manifest, inspect, reserve, read, write, digest, finish, commit, Workers, completed, cancelled,
  run_task, new_task,
}
use codex_compatible_mcp.Transfers.Outcome.{IsSettled, run_task-IsSettled}
use codex_compatible_mcp.Transfers.Manager.{
  TransferRequest, max_active_tasks, count_active, starts, step,
}
use codex_compatible_mcp.Transfers.Limit.{step-count_active}

abbrev two_files : Manifest
two_files = record {
  is_dir = true;
  entries =
      record { is_file = false; size = 0 }
      ∷ record { is_file = true; size = 3 }
      ∷ record { is_file = true; size = 2 }
      ∷ [];
}

-- A content of a length.
repeat : ℕ → ℕ → Text
repeat zero c = []
repeat (suc n) c = c ∷ repeat n c

-- Workers that do what they are asked; the task is cancelled once it has made a number of calls.
abbrev workers : ℕ → Workers
workers patience = record {
  inspected = some two_files;
  is_inside = false;
  reserved = true;
  chunk = λ index offset len. some (len, repeat len (120 + index));
  accepted = λ index offset content. some (offset + length content);
  digested = λ index. some (text "d");
  finished = λ index sha. true;
  committed = true;
  aborted = some [];
  is_cancelled = λ n. leb patience n;
}

abbrev request : TransferRequest
request = record { source_path = text "a"; target_path = text "b"; is_same = false }

run_task-IsSettled_example : IsSettled (workers 20) (run_task (workers 20) (new_task (text "b")))
run_task-IsSettled_example = run_task-IsSettled (workers 20) (text "b")

completed_test : (run_task (workers 20) (new_task (text "b"))).state ≡ completed
unfolding run_task repeat
completed_test = refl

copied_test : (run_task (workers 20) (new_task (text "b"))).transferred_bytes ≡ 5
unfolding run_task repeat
copied_test = refl

-- The second file is the entry 2 of the manifest.
written_test :
    (run_task (workers 20) (new_task (text "b"))).calls
    ≡ inspect
      ∷ reserve
      ∷ read 1 0 3
      ∷ write 1 0 (text "yyy")
      ∷ digest 1
      ∷ finish 1 (text "d")
      ∷ read 2 0 2
      ∷ write 2 0 (text "zz")
      ∷ digest 2
      ∷ finish 2 (text "d")
      ∷ commit
      ∷ []
unfolding run_task repeat
written_test = refl

cancelled_test : (run_task (workers 4) (new_task (text "b"))).state ≡ cancelled
unfolding run_task repeat
cancelled_test = refl

step-count_active_example : count_active (step (starts (text "i") 0 request) []) ≤ max_active_tasks
unfolding step
step-count_active_example = step-count_active (starts (text "i") 0 request) [] (omega arith)
