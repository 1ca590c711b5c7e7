-- ===== src/Process/Manager.antt =====
-- src/runtime/process-manager.mjs: the class ProcessManager. Awaiting an exit ends a step: what other
-- calls and the child do meanwhile are steps, and the answer is a step of its own.
use codex_compatible_mcp.Base.{
  ℕ, zero, suc, ◌+◌, Bool, true, false, not, ◌&&◌, Option, none, some, List, [], ◌∷◌, ◌++◌, length,
  get_elem?, set, leb, ltb, nat_beq, nat_eq, if◌then◌else◌, Outcome, ok, err,
}
use codex_compatible_mcp.Base.Text.{Text}
use codex_compatible_mcp.Base.Dict
use codex_compatible_mcp.Base.Dict.{Dict}
use codex_compatible_mcp.Process.Output.{Buffers, cap_captured_output, max_capture_bytes}
use codex_compatible_mcp.Process.Types.{
  Process, Manager, ProcessError, too_many_sessions, not_started, no_free_id, max_processes,
  max_process_id, clamp_exec_yield,
}

unfoldable pub create : Manager
create = record { records = []; sessions = []; next_process_id = 1000; effects = [] }

abbrev pub is_live : Option Process → Bool
is_live none = false
is_live (some p) = not p.exited

abbrev pub add_live : Bool → ℕ → ℕ
add_live live n = if live then suc n else n

unfoldable pub live_processes : List Process → Dict ℕ ℕ → ℕ
live_processes records [] = 0
live_processes records ((id, place) ∷ sessions) =
    add_live (is_live (get_elem? records place)) (live_processes records sessions)

abbrev pub next_id : ℕ → ℕ
next_id id = if ltb max_process_id (suc id) then 1000 else suc id

-- The do-while loop over ids; `none` is for the fuel that ran out.
unfoldable pub free_id : ℕ → Dict ℕ ℕ → ℕ → Option ℕ
free_id zero sessions id = none
free_id (suc fuel) sessions id =
    let rest = free_id fuel sessions (next_id id) in
    if Dict.has (next_id id) sessions then rest else some (next_id id)

unfoldable pub allocate_process_id : Manager → Manager × Outcome ProcessError ℕ
unfolding live_processes free_id
allocate_process_id m =
    if leb max_processes (live_processes m.records m.sessions)
    then (m, err too_many_sessions)
    else elim (free_id (length m.sessions + (length m.sessions + 2)) m.sessions m.next_process_id) [
      | none ↦ (m, err no_free_id)
      | some id ↦ (record m { next_process_id = id }, ok id)
    ]

-- What execCommand found before it starts the process, and the child that the executor started.
pub record Launch : Type 0 where
  pub environment_id : Text
  pub windows : Bool
  pub command : Text
  pub cwd : Text
  pub permission_profile : Text
  pub tty : Bool
  pub child_sandboxed : Option Bool

abbrev pub new_process : ℕ → ℕ → Launch → Bool → Process
new_process now id l sandboxed = record {
  process_id = id;
  environment_id = l.environment_id;
  command = l.command;
  cwd = l.cwd;
  raw_output = [];
  delivered_offset = 0;
  output_omitted_bytes = 0;
  started_at = now;
  exited = false;
  exit_code = none;
  signal = none;
  permission_profile = l.permission_profile;
  sandboxed = sandboxed;
  tty = l.tty;
  has_timer = false;
}

unfoldable pub put_new : ℕ → Process → Manager → Manager
put_new id p m = record m {
  records = m.records ++ (p ∷ []);
  sessions = Dict.set id (length m.records) m.sessions;
}

unfoldable pub start_process :
    ℕ → Launch → Option ℕ → Option Bool → ℕ → Manager → Manager × Outcome ProcessError (ℕ × ℕ)
unfolding put_new clamp_exec_yield
start_process now l yield_time_ms none id m = (m, err not_started)
start_process now l yield_time_ms (some sandboxed) id m = (
  put_new id (new_process now id l sandboxed) m,
  ok (length m.records, clamp_exec_yield yield_time_ms l.windows),
)

-- The record's place and the time to wait for its exit.
unfoldable pub exec_command :
    ℕ → Launch → Option ℕ → Manager → Manager × Outcome ProcessError (ℕ × ℕ)
unfolding allocate_process_id start_process
exec_command now l yield_time_ms m =
    let allocated = allocate_process_id m in
    elim allocated.1 [
      | err e ↦ (allocated.0, err e)
      | ok id ↦ start_process now l yield_time_ms l.child_sandboxed id allocated.0
    ]

unfoldable pub change_record : ℕ → (Process → Process) → Manager → Manager
change_record place f m = elim (get_elem? m.records place) [
  | none ↦ m
  | some p ↦ record m { records = set m.records place (f p) }
]

unfoldable pub append_output : Buffers → Text → Process → Process
append_output buffers chunk p =
    let capped = cap_captured_output buffers (p.raw_output ++ chunk) max_capture_bytes in
    record p {
      raw_output = capped.text;
      output_omitted_bytes = p.output_omitted_bytes + capped.omitted_bytes;
    }

unfoldable pub exit_record : Option ℕ → Option Text → Process → Process
exit_record code signal p = record p {
  exited = true;
  exit_code = code;
  signal = signal;
  has_timer = true;
}

-- The timer of #markExited: it removes the session if it still leads to this record.
unfoldable pub expire : ℕ → Manager → Manager
expire place m = elim (get_elem? m.records place) [
  | none ↦ m
  | some p ↦ elim (Dict.get p.process_id m.sessions) [
    | none ↦ m
    | some there ↦
        if p.has_timer && (nat_beq there place && p.exited)
        then record m { sessions = Dict.delete p.process_id m.sessions }
        else m
  ]
]

unfoldable pub delete_record : ℕ → Process → Manager → Manager
delete_record place p m = record m {
  records = set m.records place (record p { has_timer = false });
  sessions = Dict.delete p.process_id m.sessions;
}
