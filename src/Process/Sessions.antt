-- ===== src/Process/Sessions.antt =====
-- src/runtime/process-manager.mjs: the answers of ProcessManager, and its calls as steps.
use codex_compatible_mcp.Base.{
  ℕ, Bool, true, false, not, ◌||◌, Option, none, some, List, [], ◌∷◌, ◌++◌, length, get_elem?, set,
  drop, is_empty, ltb, nat_eq, if◌then◌else◌, Outcome, ok, err,
}
use codex_compatible_mcp.Base.Text.{Text}
use codex_compatible_mcp.Base.Dict
use codex_compatible_mcp.Process.Output.{Buffers, bound_output}
use codex_compatible_mcp.Process.Types.{
  Process, wrote, killed, Manager, ProcessError, stdin_not_writable, unknown_session,
  clamp_write_yield,
}
use codex_compatible_mcp.Process.Manager.{
  Launch, exec_command, change_record, append_output, exit_record, expire, delete_record,
}

-- The answer to a caller, less the random chunk id and the wall time.
pub record ProcessResult : Type 0 where
  pub output : Text
  pub exit_code : Option ℕ
  pub session_id : Option ℕ
  pub original_token_count : Option ℕ

abbrev pub when {ℓ} : {A : Type ℓ} → Bool → A → Option A
when true a = some a
when false a = none

-- What #resultFor takes from the record's output.
unfoldable pub raw_part : Bool → Process → Text
raw_part incremental p = drop (if incremental then p.delivered_offset else 0) p.raw_output

abbrev pub deliver : Process → Process
deliver p = record p { delivered_offset = length p.raw_output }

unfoldable pub result_of : Option ℕ → Bool → Process → ProcessResult
unfolding raw_part bound_output
result_of max_output_tokens incremental p =
    let bounded = bound_output (raw_part incremental p) max_output_tokens in
    record {
      output = bounded.output;
      exit_code = if p.exited then p.exit_code else none;
      session_id = when (not p.exited) p.process_id;
      original_token_count =
          when (bounded.truncated || ltb 0 p.output_omitted_bytes) bounded.original_token_count;
    }

-- The manager after #resultFor.
unfoldable pub delivered : ℕ → Process → Manager → Manager
unfolding delete_record
delivered place p m =
    let m' = record m { records = set m.records place (deliver p) } in
    if p.exited then delete_record place (deliver p) m' else m'

unfoldable pub result_for : Option ℕ → Bool → ℕ → Manager → Manager × Option ProcessResult
unfolding result_of delivered
result_for max_output_tokens incremental place m = elim (get_elem? m.records place) [
  | none ↦ (m, none)
  | some p ↦ (delivered place p m, some (result_of max_output_tokens incremental p))
]

-- Either an answer, or a place and the time to wait for the exit.
pub data Reply : Type 0 where
  answers : Option ProcessResult → Reply
  waits : (place milliseconds : ℕ) → Reply

unfoldable pub write_live :
    Bool → Text → Option ℕ → ℕ → Manager → Manager × Outcome ProcessError Reply
unfolding clamp_write_yield
write_live stdin_writable chars yield_time_ms place m =
    let yield_time = clamp_write_yield yield_time_ms (is_empty chars) in
    if is_empty chars
    then (m, ok (waits place yield_time))
    else (if not stdin_writable then (m, err stdin_not_writable) else (
      record m { effects = m.effects ++ (wrote place chars ∷ []) },
      ok (waits place yield_time),
    ))

unfoldable pub write_record :
    Bool → Text → Option ℕ → Option ℕ → ℕ → Process → Manager → Manager × Outcome ProcessError Reply
unfolding result_for write_live
write_record stdin_writable chars yield_time_ms max_output_tokens place p m =
    if p.exited
    then (let r = result_for max_output_tokens true place m in (r.0, ok (answers r.1)))
    else write_live stdin_writable chars yield_time_ms place m

unfoldable pub write_stdin :
    Bool → ℕ → Text → Option ℕ → Option ℕ → Manager → Manager × Outcome ProcessError Reply
unfolding write_record
write_stdin stdin_writable session_id chars yield_time_ms max_output_tokens m =
    elim (Dict.get session_id m.sessions) [
      | none ↦ (m, err (unknown_session session_id))
      | some place ↦ elim (get_elem? m.records place) [
        | none ↦ (m, err (unknown_session session_id))
        | some p ↦ write_record stdin_writable chars yield_time_ms max_output_tokens place p m
      ]
    ]

unfoldable pub terminate_record : ℕ → Process → Manager → Manager
unfolding delete_record
terminate_record place p m0 =
    let m = delete_record place p m0 in
    if p.exited then m else record m { effects = m.effects ++ (killed place ∷ []) }

unfoldable pub terminate_session : ℕ → Manager → Manager × Bool
unfolding terminate_record
terminate_session session_id m = elim (Dict.get session_id m.sessions) [
  | none ↦ (m, false)
  | some place ↦ elim (get_elem? m.records place) [
    | none ↦ (m, false)
    | some p ↦ (terminate_record place p m, true)
  ]
]

unfoldable pub terminate_each : List ℕ → Manager → Manager
unfolding terminate_session
terminate_each [] m = m
terminate_each (id ∷ ids) m = terminate_each ids (terminate_session id m).0

unfoldable pub terminate_all : Manager → Manager
unfolding terminate_each
terminate_all m = terminate_each (Dict.keys m.sessions) m

-- What moves the manager: a call, the end of a wait, or a callback of a child or of a timer.
pub data Event : Type 0 where
  executes : ℕ → Launch → Option ℕ → Event
  writes : Bool → ℕ → Text → Option ℕ → Option ℕ → Event
  ends_wait : Option ℕ → Bool → ℕ → Event
  receives : ℕ → Text → Event
  exits : ℕ → Option ℕ → Option Text → Event
  expires : ℕ → Event
  terminates : ℕ → Event
  terminates_all : Event

unfoldable pub step : Buffers → Event → Manager → Manager
unfolding exec_command write_stdin result_for change_record append_output exit_record expire
    terminate_session terminate_all
step buffers (executes now l yield_time_ms) m = (exec_command now l yield_time_ms m).0
step buffers (writes writable id chars yield_time_ms tokens) m =
    (write_stdin writable id chars yield_time_ms tokens m).0
step buffers (ends_wait tokens incremental place) m = (result_for tokens incremental place m).0
step buffers (receives place chunk) m = change_record place (append_output buffers chunk) m
step buffers (exits place code signal) m = change_record place (exit_record code signal) m
step buffers (expires place) m = expire place m
step buffers (terminates id) m = (terminate_session id m).0
step buffers terminates_all m = terminate_all m
