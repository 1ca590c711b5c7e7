-- ===== src/Transfers/Outcome.antt =====
-- src/controller/transfer-task-manager.mjs: how a transfer ends.
use codex_compatible_mcp.Base.{
  ℕ, ◌+◌, ◌≡◌, ◌≢◌, refl, sym, ap, ◌∙◌, inl, inr, Bool, true, false, not, ◌&&◌, Option, none, some,
  List, [], ◌∷◌, ◌++◌, if◌then◌else◌, length, any, is_empty, arith, Bool-cases,
}
use codex_compatible_mcp.Base.Text.{Text}
use codex_compatible_mcp.Transfers.Tasks.{
  Manifest, WorkerCall, inspect, reserve, commit, abort, Workers, TaskState, transferring,
  completed, failed, cancelled, TransferError, worker_failed, empty_manifest, into_itself,
  out_of_fuel, Task, Ran, ◌then_run◌, called, throw_unless, check_cancelled, copy_entries,
  file_items, sum_sizes, measured, begin_transfer, commit_transfer, transfer, left_behind, settle,
  run_task, new_task,
}
use codex_compatible_mcp.Transfers.Calling.{Entries, Adds}
use codex_compatible_mcp.Transfers.Completing.{TransferCalls, transfer-Adds}
use codex_compatible_mcp.Transfers.Copying.{
  is_reserve, is_abort, any-snoc, At, Thrown, Ends, Ends-then, called-At, throws, throw_unless-Ends,
  check_cancelled-Ends, copy_entries-Ends,
}

abbrev pub is_completed : TaskState → Bool
is_completed completed = true
is_completed _ = false

-- A transfer whose last call was answered: all that the manifest has is copied.
record IsDone (m : Manifest) (t : Task) : Type 0 where
  state_is : t.state ≡ completed
  total_is : t.total_bytes ≡ sum_sizes (file_items m.entries)
  bytes_are : t.transferred_bytes ≡ sum_sizes (file_items m.entries)
  files_are : t.completed_files ≡ length (file_items m.entries)
  asked : any is_reserve t.calls ≡ true
  kept : any is_abort t.calls ≡ false
  quiet : t.error ≡ none

asked-snoc : (cs : List WorkerCall) → any is_reserve (cs ++ (reserve ∷ [])) ≡ true
asked-snoc [] = refl
asked-snoc (c ∷ cs) = ground (arith, asked-snoc cs)

begin_transfer-Ends :
    (w : Workers) (total count : ℕ) (t : Task)
    → At false total count 0 0 t
    → Ends (At true total count 0 0) (begin_transfer w t)
unfolding begin_transfer
begin_transfer-Ends w total count t h =
    let asked : At true total count 0 0 (called reserve (record t { reserve_attempted = true })) =
      record {
        attempted = refl;
        asked = asked-snoc t.calls;
        kept = any-snoc is_abort t.calls reserve refl ∙ h.kept;
        quiet = h.quiet;
        total_is = h.total_is;
        count_is = h.count_is;
        bytes_are = h.bytes_are;
        files_are = h.files_are;
      } in
    Ends-then (At true total count 0 0) (At true total count 0 0)
      (throw_unless w.reserved worker_failed
        (called reserve (record t { reserve_attempted = true })))
      (λ u. (record u { state = transferring }, none))
      (throw_unless-Ends w.reserved worker_failed _ (λ e. absurd cc) asked)
      (λ u g. record {
        attempted = g.attempted;
        asked = g.asked;
        kept = g.kept;
        quiet = g.quiet;
        total_is = g.total_is;
        count_is = g.count_is;
        bytes_are = g.bytes_are;
        files_are = g.files_are;
      })

commit_transfer-Ends :
    (w : Workers) (m : Manifest) (bytes files : ℕ) (t : Task)
    → bytes ≡ sum_sizes (file_items m.entries)
    → files ≡ length (file_items m.entries)
    → At true (sum_sizes (file_items m.entries)) (length (file_items m.entries)) bytes files t
    → Ends (IsDone m) (commit_transfer w t)
unfolding commit_transfer
commit_transfer-Ends w m bytes files t all_bytes all_files h =
    let here =
      At true (sum_sizes (file_items m.entries)) (length (file_items m.entries)) bytes files in
    Ends-then here (IsDone m) (throw_unless w.committed worker_failed (called commit t))
      (λ u. (record u { reserve_attempted = false; state = completed }, none))
      (throw_unless-Ends w.committed worker_failed (called commit t) (λ e. absurd cc)
        (called-At commit t refl refl h))
      (λ u g. record {
        state_is = refl;
        total_is = g.total_is;
        bytes_are = g.bytes_are ∙ all_bytes;
        files_are = g.files_are ∙ all_files;
        asked = g.asked;
        kept = g.kept;
        quiet = g.quiet;
      })

-- The calls of a task that is completed: the files of the manifest are copied, between the reservation
-- and the commit.
abbrev pub AsCalled : Workers → Manifest → Task → Type 0
AsCalled w m t =
    (cs : List WorkerCall) × Entries w 0 m.entries cs
    × (t.calls ≡ inspect ∷ ((reserve ∷ cs) ++ (commit ∷ [])))

-- What the body of the try block leaves.
abbrev EndsRun : Workers → Ran → Type 0
EndsRun w (t, none) = (m : Manifest) × (w.inspected ≡ some m) × IsDone m t × AsCalled w m t
EndsRun w (t, some e) = Thrown t e

ends_run :
    (w : Workers) (m : Manifest) (begun : Task) (r : Ran)
    → w.inspected ≡ some m
    → begun.calls ≡ inspect ∷ []
    → Adds (TransferCalls w m) begun r
    → Ends (IsDone m) r
    → EndsRun w r
ends_run w m begun (t, none) read first (cs, added, (fs, copied, calls)) h =
    (m, read, h, (fs, copied, added ∙ ap (λ l. l ++ cs) first ∙ ap (λ l. inspect ∷ l) calls))
ends_run w m begun (t, some e) read first added h = h

transfer_manifest-Ends :
    (w : Workers) (m : Manifest) (t : Task)
    → At false 0 0 0 0 t
    → Ends (IsDone m) (transfer w (some m) t)
unfolding transfer
transfer_manifest-Ends w m t h =
    let bytes = sum_sizes (file_items m.entries) in
    let files = length (file_items m.entries) in
    let new = At false 0 0 0 0 in
    let sized = At false bytes files 0 0 in
    let asked = At true bytes files 0 0 in
    let copied = At true bytes files (0 + bytes) (0 + files) in
    let full = throw_unless (not (is_empty m.entries)) empty_manifest in
    let apart = throw_unless (not (m.is_dir && w.is_inside)) into_itself in
    let a = check_cancelled w t then_run full in
    let b = a then_run apart in
    let c = b then_run measured m in
    let d = c then_run check_cancelled w in
    let e = d then_run begin_transfer w in
    let f = e then_run copy_entries w 0 m.entries in
    let g = f then_run check_cancelled w in
    let a_ends : Ends new a =
      Ends-then new new (check_cancelled w t) full (check_cancelled-Ends w t h)
        (λ u k. throw_unless-Ends (not (is_empty m.entries)) empty_manifest u (λ e. absurd cc) k) in
    let b_ends : Ends new b =
      Ends-then new new a apart a_ends (λ u k.
        throw_unless-Ends (not (m.is_dir && w.is_inside)) into_itself u (λ e. absurd cc) k) in
    let c_ends : Ends sized c = Ends-then new sized b (measured m) b_ends (λ u k. record {
      attempted = k.attempted;
      asked = k.asked;
      kept = k.kept;
      quiet = k.quiet;
      total_is = refl;
      count_is = refl;
      bytes_are = k.bytes_are;
      files_are = k.files_are;
    }) in
    let d_ends = Ends-then sized sized c (check_cancelled w) c_ends (check_cancelled-Ends w) in
    let e_ends =
      Ends-then sized asked d (begin_transfer w) d_ends (begin_transfer-Ends w bytes files) in
    let f_ends =
      Ends-then asked copied e (copy_entries w 0 m.entries) e_ends
        (copy_entries-Ends w true bytes files 0 0 0 m.entries) in
    let g_ends = Ends-then copied copied f (check_cancelled w) f_ends (check_cancelled-Ends w) in
    Ends-then copied (IsDone m) g (commit_transfer w) g_ends
      (λ u. commit_transfer-Ends w m (0 + bytes) (0 + files) u (omega arith) (omega arith))

transfer-EndsRun :
    (w : Workers) (inspected : Option Manifest) (t : Task)
    → w.inspected ≡ inspected
    → t.calls ≡ inspect ∷ []
    → At false 0 0 0 0 t
    → EndsRun w (transfer w inspected t)
unfolding transfer
transfer-EndsRun w none t read first h = throws worker_failed t (λ e. absurd cc) h
transfer-EndsRun w (some m) t read first h =
    ends_run w m t (transfer w (some m) t) read first (transfer-Adds w m t)
      (transfer_manifest-Ends w m t h)

-- What a task that was run is.
pub record IsSettled (w : Workers) (t : Task) : Type 0 where
  pub whole :
      is_completed t.state ≡ true
      → (m : Manifest) × (w.inspected ≡ some m)
        × (t.transferred_bytes ≡ sum_sizes (file_items m.entries))
        × (t.total_bytes ≡ sum_sizes (file_items m.entries))
        × (t.completed_files ≡ length (file_items m.entries))
        × AsCalled w m t
  pub aborts : any is_abort t.calls ≡ any is_reserve t.calls && not (is_completed t.state)
  pub fueled : t.error ≢ some out_of_fuel

aborts_of : (cs : List WorkerCall) → any is_abort (cs ++ (abort ∷ [])) ≡ true
aborts_of [] = refl
aborts_of (c ∷ cs) = ground (arith, aborts_of cs)

left_behind-IsSettled :
    (w : Workers) (residue : Option (List Text)) (t : Task)
    → IsSettled w t
    → IsSettled w (left_behind w residue t)
left_behind-IsSettled w none t h = record { whole = h.whole; aborts = h.aborts; fueled = h.fueled }
left_behind-IsSettled w (some residue) t h = record {
  whole = h.whole;
  aborts = h.aborts;
  fueled = h.fueled;
}

incomplete : (b : Bool) → is_completed (if b then cancelled else failed) ≡ false
incomplete true = refl
incomplete false = refl

-- A task whose transfer threw, once its state says so.
thrown_task : Workers → Task → TransferError → Task
thrown_task w t e = record t {
  state = if w.is_cancelled (length t.calls) then cancelled else failed;
  error = some e;
}

settle-IsSettled : (w : Workers) (r : Ran) → EndsRun w r → IsSettled w (settle w r)
unfolding settle thrown_task
settle-IsSettled w (t, none) (m, read, h, called) = record {
  whole = λ done. (m, read, h.bytes_are, h.total_is, h.files_are, called);
  aborts = h.kept ∙ rw (h.asked, h.state_is) refl;
  fueled = λ e. absurd (ground (arith, h.quiet));
}
settle-IsSettled w (t, some e) h =
    let open_end = incomplete (w.is_cancelled (length t.calls)) in
    let wrong : (x : TransferError) → ◌≡◌ {A = Option TransferError} (some e) (some x) → e ≡ x =
      λ x same. cc in
    elim (Bool-cases t.reserve_attempted) [
      | inl asked ↦
          rw (asked, settle)
            (left_behind-IsSettled w w.aborted
              (called abort (record (thrown_task w t e) { reserve_attempted = true }))
              (record {
                whole = λ done. absurd (ground (arith, open_end));
                aborts =
                    aborts_of t.calls
                    ∙ rw (any-snoc is_reserve t.calls abort refl, sym h.owed, asked, open_end) refl;
                fueled = λ same. h.fueled (wrong out_of_fuel same);
              }))
      | inr free ↦
          rw (free, settle)
            (record {
              whole = λ done. absurd (ground (arith, open_end));
              aborts = h.kept ∙ rw (sym h.owed, free) refl;
              fueled = λ same. h.fueled (wrong out_of_fuel same);
            })
    ]

-- Whatever the workers answer and whenever a cancellation is asked for: the run of a new task ends. If
-- it is completed, its calls between the reservation and the commit are, for each file of the manifest
-- in order, from offset 0 to the file's size and each where the one before ended: the read of a chunk,
-- answered with the length that was asked for, and the write, at the same place, of the content that
-- the read gave, accepted up to its end; then the finish, accepted, with the digest that the source's
-- worker gave; and its counters are those of the manifest. It has sent an abort exactly if it had asked
-- for a reservation and is not completed.
pub run_task-IsSettled :
    (w : Workers) (target_path : Text) → IsSettled w (run_task w (new_task target_path))
unfolding run_task
run_task-IsSettled w target_path =
    let start = called inspect (new_task target_path) in
    let begun : At false 0 0 0 0 start = record {
      attempted = refl;
      asked = refl;
      kept = refl;
      quiet = refl;
      total_is = refl;
      count_is = refl;
      bytes_are = refl;
      files_are = refl;
    } in
    let h =
      settle-IsSettled w (transfer w w.inspected start)
        (transfer-EndsRun w w.inspected start refl refl begun) in
    record { whole = h.whole; aborts = h.aborts; fueled = h.fueled }
