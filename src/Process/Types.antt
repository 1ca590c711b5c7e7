-- ===== src/Process/Types.antt =====
-- src/runtime/process-manager.mjs: the manager's state, and the clamps on waiting times.
use codex_compatible_mcp.Base.{ℕ, min, max, Bool, Option, none, some, List, if◌then◌else◌}
use codex_compatible_mcp.Base.Text.{Text}
use codex_compatible_mcp.Base.Dict.{Dict}

-- A record of execCommand. Its child is written to and killed through the manager's list of effects.
pub record Process : Type 0 where
  pub process_id : ℕ
  pub environment_id : Text
  pub command : Text
  pub cwd : Text
  pub raw_output : Text
  pub delivered_offset : ℕ
  pub output_omitted_bytes : ℕ
  pub started_at : ℕ
  pub exited : Bool
  pub exit_code : Option ℕ
  pub signal : Option Text
  pub permission_profile : Text
  pub sandboxed : Bool
  pub tty : Bool
  pub has_timer : Bool

-- Records are objects that callbacks share, so the manager names them by their place in `records`.
pub data Effect : Type 0 where
  wrote : ℕ → Text → Effect
  killed : ℕ → Effect

pub record Manager : Type 0 where
  pub records : List Process
  pub sessions : Dict ℕ ℕ
  pub next_process_id : ℕ
  pub effects : List Effect

pub data ProcessError : Type 0 where
  too_many_sessions not_started stdin_not_writable no_free_id : ProcessError
  unknown_session : ℕ → ProcessError

abbrev pub max_processes : ℕ
max_processes = 64

abbrev pub max_process_id : ℕ
max_process_id = 2000000000

abbrev pub or_default : Option ℕ → ℕ → ℕ
or_default none d = d
or_default (some n) d = n

unfoldable pub clamp_exec_yield : Option ℕ → Bool → ℕ
clamp_exec_yield milliseconds windows =
    min 5000 (max (if windows then 1000 else 250) (or_default milliseconds 2000))

unfoldable pub clamp_write_yield : Option ℕ → Bool → ℕ
clamp_write_yield milliseconds empty =
    if empty
    then min 30000 (max 250 (or_default milliseconds 1000))
    else min 30000 (max 250 (or_default milliseconds 250))
