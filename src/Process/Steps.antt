-- ===== src/Process/Steps.antt =====
-- src/runtime/process-manager.mjs: the limit on live processes holds through every run.
use codex_compatible_mcp.Base.{
  ℕ, zero, suc, ◌+◌, ◌<◌, ◌≡◌, refl, subst, inl, inr, Bool, true, false, ◌&&◌, Option, none, some,
  List, [], ◌∷◌, ◌++◌, length, get_elem?, leb, nat_beq, nat_eq, arith, Bool-cases, Option-cases,
  Outcome, ok, err,
}
use codex_compatible_mcp.Base.Text.{Text}
use codex_compatible_mcp.Base.Dict
use codex_compatible_mcp.Base.Dict.{Dict, IsDistinct}
use codex_compatible_mcp.Process.Output.{Buffers}
use codex_compatible_mcp.Process.Types.{
  Process, Manager, ProcessError, too_many_sessions, no_free_id, max_processes,
}
use codex_compatible_mcp.Process.Manager.{
  live_processes, next_id, free_id, allocate_process_id, Launch, new_process, put_new,
  start_process, exec_command, append_output, exit_record, expire,
}
use codex_compatible_mcp.Process.Sessions.{
  write_live, write_record, write_stdin, terminate_all, Event, executes, writes, ends_wait,
  receives, exits, expires, terminates, terminates_all, step,
}
use codex_compatible_mcp.Process.Live.{
  Holds, get_elem?-last, append-IsHeld, live-append, live-set_new, set-IsHeld_new,
}
use codex_compatible_mcp.Process.Sound.{
  IsSound, forget-IsSound, if-IsSound, change_record-IsSound, result_for-IsSound,
  terminate_session-IsSound, terminate_each-IsSound,
}

-- What the loop finds is free.
free_id-free :
    (fuel : ℕ) (sessions : Dict ℕ ℕ) (start : ℕ) {id : ℕ}
    → free_id fuel sessions start ≡ some id
    → Dict.get id sessions ≡ none
unfolding free_id
free_id-free zero sessions start h = absurd (ground arith)
free_id-free (suc fuel) sessions start {id} h =
    elim (Option-cases (Dict.get (next_id start) sessions)) [
      | inl free ↦
          let found : next_id start ≡ id = ground (arith, free, h) in
          subst (λ i. Dict.get i sessions ≡ none) found free
      | inr (place, taken) ↦ free_id-free fuel sessions (next_id start) (ground (arith, taken, h))
    ]

data Allocated (m : Manager) : Manager × Outcome ProcessError ℕ → Type 0 where
  refuses : (e : ProcessError) → Allocated m (m, err e)
  allots :
      (id : ℕ)
      → live_processes m.records m.sessions < max_processes
      → Dict.get id m.sessions ≡ none
      → Allocated m (record m { next_process_id = id }, ok id)

allocate_process_id-Allocated : (m : Manager) → Allocated m (allocate_process_id m)
unfolding allocate_process_id
allocate_process_id-Allocated m =
    let fuel = length m.sessions + (length m.sessions + 2) in
    elim (Bool-cases (leb max_processes (live_processes m.records m.sessions))) [
      | inl full ↦ rw full (refuses too_many_sessions)
      | inr room ↦ rw room (elim (Option-cases (free_id fuel m.sessions m.next_process_id)) [
        | inl e ↦ rw e (refuses no_free_id)
        | inr (id, e) ↦
            rw e
              (allots id (ground (arith, room)) (free_id-free fuel m.sessions m.next_process_id e))
      ])
    ]

put_new-IsSound :
    (id : ℕ) (p : Process) (m : Manager)
    → live_processes m.records m.sessions < max_processes
    → Dict.get id m.sessions ≡ none
    → p.process_id ≡ id
    → IsSound m
    → IsSound (put_new id p m)
unfolding put_new Holds
put_new-IsSound id p m room free named h =
    let records = m.records ++ (p ∷ []) in
    record {
      distinct = Dict.set-IsDistinct id (length m.records) m.sessions h.distinct;
      held =
          set-IsHeld_new records m.sessions id (length m.records)
            (p, get_elem?-last p m.records, named) free
            (append-IsHeld p m.records m.sessions h.held);
      limited = ground (
        arith,
        live-set_new records m.sessions id (length m.records) free,
        live-append p m.records m.sessions h.held,
      );
    }

start_process-IsSound :
    (now : ℕ) (l : Launch) (yield_time_ms : Option ℕ) (child : Option Bool) (id : ℕ) (m : Manager)
    → live_processes m.records m.sessions < max_processes
    → Dict.get id m.sessions ≡ none
    → IsSound m
    → IsSound (start_process now l yield_time_ms child id m).0
unfolding start_process
start_process-IsSound now l yield_time_ms none id m room free h = h
start_process-IsSound now l yield_time_ms (some sandboxed) id m room free h =
    put_new-IsSound id (new_process now id l sandboxed) m room free refl h

exec_command-IsSound :
    (now : ℕ) (l : Launch) (yield_time_ms : Option ℕ) (m : Manager)
    → IsSound m
    → IsSound (exec_command now l yield_time_ms m).0
unfolding exec_command
exec_command-IsSound now l yield_time_ms m h =
    go (allocate_process_id m) (allocate_process_id-Allocated m)
  where
    answer : Manager × Outcome ProcessError ℕ → Manager
    answer a =
        let r : Manager × Outcome ProcessError (ℕ × ℕ) = elim a.1 [
          | err e ↦ (a.0, err e)
          | ok id ↦ start_process now l yield_time_ms l.child_sandboxed id a.0
        ] in
        r.0

    go : (a : Manager × Outcome ProcessError ℕ) → Allocated m a → IsSound (answer a)
    go _ (refuses e) = h
    go _ (allots id room free) =
        start_process-IsSound now l yield_time_ms l.child_sandboxed id
          (record m { next_process_id = id }) room free
          (record { distinct = h.distinct; held = h.held; limited = h.limited })

write_live-IsSound :
    (writable : Bool) (chars : Text) (yield_time_ms : Option ℕ) (place : ℕ) (m : Manager)
    → IsSound m
    → IsSound (write_live writable chars yield_time_ms place m).0
unfolding write_live
write_live-IsSound true [] yield_time_ms place m h = h
write_live-IsSound false [] yield_time_ms place m h = h
write_live-IsSound false (c ∷ chars) yield_time_ms place m h = h
write_live-IsSound true (c ∷ chars) yield_time_ms place m h = record {
  distinct = h.distinct;
  held = h.held;
  limited = h.limited;
}

write_stdin-IsSound :
    (writable : Bool) (id : ℕ) (chars : Text) (yield_time_ms tokens : Option ℕ) (m : Manager)
    → IsSound m
    → IsSound (write_stdin writable id chars yield_time_ms tokens m).0
unfolding write_stdin write_record
write_stdin-IsSound writable id chars yield_time_ms tokens m h =
    elim (Option-cases (Dict.get id m.sessions)) [
      | inl e ↦ rw (e, write_stdin) h
      | inr (place, there) ↦
          rw (there, write_stdin)
            (elim (Option-cases (get_elem? m.records place)) [
              | inl e ↦ rw (e, write_stdin) h
              | inr (q, e) ↦
                  rw (e, write_stdin)
                    (elim (Bool-cases q.exited) [
                      | inl done ↦
                          rw (done, write_record) (result_for-IsSound tokens true place m h)
                      | inr live ↦
                          rw (live, write_record)
                            (write_live-IsSound writable chars yield_time_ms place m h)
                    ])
            ])
    ]

expire-IsSound : (place : ℕ) (m : Manager) → IsSound m → IsSound (expire place m)
unfolding expire
expire-IsSound place m h = elim (Option-cases (get_elem? m.records place)) [
  | inl e ↦ rw (e, expire) h
  | inr (p, e) ↦
      rw (e, expire)
        (elim (Option-cases (Dict.get p.process_id m.sessions)) [
          | inl gone ↦ rw (gone, expire) h
          | inr (there, kept) ↦
              rw (kept, expire)
                (if-IsSound (p.has_timer && (nat_beq there place && p.exited))
                  (forget-IsSound p.process_id m h) h)
        ])
]

-- Every step keeps this: no id leads to two records, each session leads to a record of its id, and
-- at most 64 processes with a session are live.
pub step-IsSound :
    (buffers : Buffers) (e : Event) (m : Manager) → IsSound m → IsSound (step buffers e m)
unfolding step append_output exit_record terminate_all
step-IsSound buffers (executes now l yield_time_ms) m h =
    exec_command-IsSound now l yield_time_ms m h
step-IsSound buffers (writes writable id chars yield_time_ms tokens) m h =
    write_stdin-IsSound writable id chars yield_time_ms tokens m h
step-IsSound buffers (ends_wait tokens incremental place) m h =
    result_for-IsSound tokens incremental place m h
step-IsSound buffers (receives place chunk) m h =
    change_record-IsSound place (append_output buffers chunk) m (λ q. refl) (λ q l. l) h
step-IsSound buffers (exits place code signal) m h =
    change_record-IsSound place (exit_record code signal) m (λ q. refl) (λ q l. ground arith) h
step-IsSound buffers (expires place) m h = expire-IsSound place m h
step-IsSound buffers (terminates id) m h = terminate_session-IsSound id m h
step-IsSound buffers terminates_all m h = terminate_each-IsSound (Dict.keys m.sessions) m h

unfoldable pub run : Buffers → List Event → Manager → Manager
unfolding step
run buffers [] m = m
run buffers (e ∷ es) m = run buffers es (step buffers e m)

-- Calls, callbacks of children and timers, in any order, keep a sound manager sound: no id leads to
-- two records, every session leads to a record of its own id, and at most 64 processes with a session
-- are live.
pub run-IsSound :
    (buffers : Buffers) (es : List Event) (m : Manager) → IsSound m → IsSound (run buffers es m)
unfolding run
run-IsSound buffers [] m h = h
run-IsSound buffers (e ∷ es) m h =
    run-IsSound buffers es (step buffers e m) (step-IsSound buffers e m h)
