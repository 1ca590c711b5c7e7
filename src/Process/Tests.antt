-- ===== src/Process/Tests.antt =====
-- src/runtime/process-manager.mjs: a command's run on concrete values, and the theorems at it.
use codex_compatible_mcp.Base.{
  ℕ, zero, suc, ◌≤◌, ◌≡◌, refl, true, false, none, some, List, [], ◌∷◌, ◌++◌, ok, arith, nat_eq,
}
use codex_compatible_mcp.Base.Text.{Text, text}
use codex_compatible_mcp.Base.Dict
use codex_compatible_mcp.Process.Output.{
  decimal, Buffers, cap_captured_output, max_chars, bound_output, Cut, bound_output-Cut,
}
use codex_compatible_mcp.Process.Types.{Process, Manager, max_process_id}
use codex_compatible_mcp.Process.Manager.{
  create, allocate_process_id, Launch, new_process, exec_command,
}
use codex_compatible_mcp.Process.Sessions.{
  answers, write_stdin, Event, executes, ends_wait, receives, exits,
}
use codex_compatible_mcp.Process.Ids.{allocate_process_id-free}
use codex_compatible_mcp.Process.Sound.{IsSound}
use codex_compatible_mcp.Process.Steps.{run, run-IsSound}
use codex_compatible_mcp.Process.Delivery.{
  Use, polls, received, waiting, polled, after, polled_complete,
}
use codex_compatible_mcp.Process.Delivery

-- Text of ASCII characters.
abbrev ascii : Buffers
ascii = record { encode = λ s. s; decode = λ bytes. bytes }

abbrev launch : Launch
launch = record {
  environment_id = text "e";
  windows = false;
  command = text "ls";
  cwd = text "/";
  permission_profile = text "full-access";
  tty = false;
  child_sandboxed = some false;
}

abbrev start : Manager
start = create

abbrev events : List Event
events =
    executes 7 launch none
    ∷ receives 0 (text "ab")
    ∷ ends_wait none false 0
    ∷ receives 0 (text "c")
    ∷ exits 0 (some 0) none
    ∷ []

abbrev running : Manager
running = run ascii events start

abbrev a_process : Process
a_process = new_process 7 1001 launch false

abbrev one_running : Manager
one_running = record create { records = a_process ∷ []; sessions = (1001, 0) ∷ [] }

abbrev uses : List Use
uses =
    Delivery.receives (text "ab")
    ∷ polls none
    ∷ Delivery.receives (text "c")
    ∷ Delivery.receives (text "d")
    ∷ polls none
    ∷ []

repeat : ℕ → Text
repeat zero = []
repeat (suc n) = 97 ∷ repeat n

abbrev long : Text
long = repeat 300

running_test : running.sessions ≡ (1001, 0) ∷ []
unfolding create run Dict.get Dict.set
running_test = refl

answer_test :
    (write_stdin true 1001 [] none none running).1
    ≡ ok (
        answers (
          some (record {
            output = text "c";
            exit_code = some 0;
            session_id = none;
            original_token_count = none;
          })))
unfolding cap_captured_output create run Dict.get Dict.set
answer_test = refl

gone_test : (write_stdin true 1001 [] none none running).0.sessions ≡ []
unfolding create run Dict.get Dict.set Dict.delete
gone_test = refl

decimal_test : decimal 1048576 ≡ text "1048576"
unfolding run
decimal_test = refl

run-IsSound_example : IsSound (run ascii events start)
unfolding create exec_command
run-IsSound_example =
    run-IsSound ascii events start (record { distinct = tt; held = tt; limited = omega arith })

allocate_process_id-free_example :
    (id : ℕ) × (allocate_process_id running ≡ (record running { next_process_id = id }, ok id))
    × (Dict.has id running.sessions ≡ false)
    × (1000 ≤ id)
    × (id ≤ max_process_id)
unfolding create run Dict.get Dict.set
allocate_process_id-free_example =
    allocate_process_id-free running (omega arith) (omega arith) (omega arith)

polled_complete_example :
    polled ascii 0 uses one_running ++ waiting 0 (after ascii 0 uses one_running)
    ≡ waiting 0 one_running ++ received uses
unfolding received create exec_command max_chars
polled_complete_example =
    polled_complete ascii (λ s. omega arith) 0 uses one_running a_process refl (omega arith)
      (omega arith) (omega arith, (omega arith, tt))

bound_output-Cut_example : Cut long (bound_output long (some 1)).output (max_chars (some 1))
unfolding run repeat
bound_output-Cut_example = bound_output-Cut long (some 1) refl
