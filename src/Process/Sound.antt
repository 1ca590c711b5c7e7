-- ===== src/Process/Sound.antt =====
-- src/runtime/process-manager.mjs: what every step of the ProcessManager keeps.
use codex_compatible_mcp.Base.{
  ℕ, zero, suc, ◌≤◌, ◌≡◌, refl, sym, subst, inl, inr, Bool, true, false, Option, some, List, [],
  ◌∷◌, get_elem?, set, nat_eq, if◌then◌else◌, arith, Option-cases,
}
use codex_compatible_mcp.Base.Dict
use codex_compatible_mcp.Base.Dict.{Dict, IsDistinct}
use codex_compatible_mcp.Process.Types.{Process, Manager, max_processes}
use codex_compatible_mcp.Process.Manager.{is_live, live_processes, change_record, delete_record}
use codex_compatible_mcp.Process.Sessions.{
  deliver, delivered, result_for, terminate_record, terminate_session, terminate_each,
}
use codex_compatible_mcp.Process.Live.{
  IsHeld, live-set_le, set-IsHeld, live-delete_le, delete-IsHeld,
}

pub record IsSound (m : Manager) : Type 0 where
  pub distinct : IsDistinct m.sessions
  pub held : IsHeld m.records m.sessions
  pub limited : live_processes m.records m.sessions ≤ max_processes

-- A record that is written over keeps its id, and is live only if it was.
abbrev Keeps : (records : List Process) (place : ℕ) (p : Process) → Type 0
Keeps records place p =
    ((q : Process) → get_elem? records place ≡ some q → p.process_id ≡ q.process_id)
    × (is_live (some p) ≡ true → is_live (get_elem? records place) ≡ true)

overwrite-IsSound :
    (place : ℕ) (p : Process) (m : Manager)
    → Keeps m.records place p
    → IsSound m
    → IsSound (record m { records = set m.records place p })
overwrite-IsSound place p m k h = record {
  distinct = h.distinct;
  held = set-IsHeld p m.records m.sessions place k.0 h.held;
  limited = omega (arith, live-set_le p m.records m.sessions place k.1, h.limited);
}

pub forget-IsSound :
    (id : ℕ) (m : Manager) → IsSound m → IsSound (record m { sessions = Dict.delete id m.sessions })
forget-IsSound id m h = record {
  distinct = Dict.delete-IsDistinct id m.sessions h.distinct;
  held = delete-IsHeld m.records m.sessions id h.held;
  limited = omega (arith, live-delete_le m.records m.sessions id, h.limited);
}

-- The record that is there, written over by one of the same id that is live only if it was.
there-Keeps :
    (records : List Process) (place : ℕ) (p q : Process)
    → get_elem? records place ≡ some q
    → p.process_id ≡ q.process_id
    → (is_live (some p) ≡ true → is_live (some q) ≡ true)
    → Keeps records place p
there-Keeps records place p q e same k =
    ((λ r e'. ground (arith, same, e, e')), λ live. subst (λ o. is_live o ≡ true) (sym e) (k live))

pub if-IsSound :
    (b : Bool) {m m' : Manager} → IsSound m → IsSound m' → IsSound (if b then m else m')
if-IsSound true h h' = h
if-IsSound false h h' = h'

pub change_record-IsSound :
    (place : ℕ) (f : Process → Process) (m : Manager)
    → ((q : Process) → (f q).process_id ≡ q.process_id)
    → ((q : Process) → is_live (some (f q)) ≡ true → is_live (some q) ≡ true)
    → IsSound m
    → IsSound (change_record place f m)
unfolding change_record
change_record-IsSound place f m same k h = elim (Option-cases (get_elem? m.records place)) [
  | inl e ↦ rw (e, change_record) h
  | inr (q, e) ↦
      rw (e, change_record)
        (overwrite-IsSound place (f q) m (there-Keeps m.records place (f q) q e (same q) (k q)) h)
]

delete_record-IsSound :
    (place : ℕ) (p q : Process) (m : Manager)
    → get_elem? m.records place ≡ some q
    → p.process_id ≡ q.process_id
    → (is_live (some p) ≡ true → is_live (some q) ≡ true)
    → IsSound m
    → IsSound (delete_record place p m)
unfolding delete_record
delete_record-IsSound place p q m e same k h = forget-IsSound p.process_id _ (
    overwrite-IsSound place (record p { has_timer = false }) m
      (there-Keeps m.records place (record p { has_timer = false }) q e same k) h)

set-get_elem? :
    (records : List Process) (place : ℕ) (p q : Process)
    → get_elem? records place ≡ some q
    → get_elem? (set records place p) place ≡ some p
set-get_elem? [] place p q e = absurd (ground arith)
set-get_elem? (r ∷ records) zero p q e = refl
set-get_elem? (r ∷ records) (suc place) p q e = set-get_elem? records place p q e

pub result_for-IsSound :
    (tokens : Option ℕ) (incremental : Bool) (place : ℕ) (m : Manager)
    → IsSound m
    → IsSound (result_for tokens incremental place m).0
unfolding result_for delivered
result_for-IsSound tokens incremental place m h = elim (Option-cases (get_elem? m.records place)) [
  | inl e ↦ rw (e, result_for) h
  | inr (q, e) ↦
      let kept =
        overwrite-IsSound place (deliver q) m
          (there-Keeps m.records place (deliver q) q e refl (λ l. l)) h in
      rw (e, result_for)
        (if-IsSound q.exited
          (delete_record-IsSound place (deliver q) (deliver q) _
            (set-get_elem? m.records place (deliver q) q e) refl (λ l. l) kept)
          kept)
]

terminate_record-IsSound :
    (place : ℕ) (q : Process) (m : Manager)
    → get_elem? m.records place ≡ some q
    → IsSound m
    → IsSound (terminate_record place q m)
unfolding terminate_record
terminate_record-IsSound place q m e h =
    let d = delete_record-IsSound place q q m e refl (λ l. l) h in
    if-IsSound q.exited d (record { distinct = d.distinct; held = d.held; limited = d.limited })

pub terminate_session-IsSound :
    (id : ℕ) (m : Manager) → IsSound m → IsSound (terminate_session id m).0
unfolding terminate_session
terminate_session-IsSound id m h = elim (Option-cases (Dict.get id m.sessions)) [
  | inl none_there ↦ rw (none_there, terminate_session) h
  | inr (place, there) ↦
      rw (there, terminate_session)
        (elim (Option-cases (get_elem? m.records place)) [
          | inl e ↦ rw (e, terminate_session) h
          | inr (q, e) ↦ rw (e, terminate_session) (terminate_record-IsSound place q m e h)
        ])
]

pub terminate_each-IsSound :
    (ids : List ℕ) (m : Manager) → IsSound m → IsSound (terminate_each ids m)
unfolding terminate_each
terminate_each-IsSound [] m h = h
terminate_each-IsSound (id ∷ ids) m h =
    terminate_each-IsSound ids (terminate_session id m).0 (terminate_session-IsSound id m h)
