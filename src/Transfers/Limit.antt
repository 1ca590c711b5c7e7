-- ===== src/Transfers/Limit.antt =====
-- src/controller/transfer-task-manager.mjs: how many transfers run at a time.
use codex_compatible_mcp.Base.{
  ℕ, suc, ◌+◌, ◌≤◌, ◌≡◌, refl, ap, inl, inr, Bool, ◌||◌, Option, none, some, [], ◌∷◌, leb, ◌==◌,
  is_empty, arith, Bool-cases, Option-cases,
}
use codex_compatible_mcp.Base.Text.{Text, text_eq}
use codex_compatible_mcp.Base.Dict
use codex_compatible_mcp.Transfers.Manager.{
  TaskEntry, Tasks, TransferRequest, max_active_tasks, is_expired, is_active, count_active, is_kept,
  started, start, status, asked, cancel, close, end_run, TaskCall, starts, asks, cancels, closes,
  ends, step,
}

count_active-retain :
    (p : Text → TaskEntry → Bool) (m : Tasks) → count_active (Dict.retain p m) ≤ count_active m
unfolding count_active Dict.retain
count_active-retain p [] = omega arith
count_active-retain p ((id, t) ∷ m) = elim (Bool-cases (p id t)) [
  | inl kept ↦ rw kept (omega (arith, count_active-retain p m))
  | inr gone ↦ rw gone (omega (arith, count_active-retain p m))
]

count_active-delete : (id : Text) (m : Tasks) → count_active (Dict.delete id m) ≤ count_active m
unfolding count_active Dict.delete
count_active-delete id [] = omega arith
count_active-delete id ((j, t) ∷ m) = elim (Bool-cases (j == id)) [
  | inl same ↦ rw same (omega (arith, count_active-delete id m))
  | inr other ↦ rw other (omega (arith, count_active-delete id m))
]

abbrev active_before : Option TaskEntry → ℕ
active_before none = 0
active_before (some t) = is_active t

count_active-set :
    (id : Text) (t : TaskEntry) (m : Tasks)
    → count_active (Dict.set id t m) + active_before (Dict.get id m) ≡ count_active m + is_active t
unfolding count_active Dict.set Dict.get
count_active-set id t [] = omega arith
count_active-set id t ((j, u) ∷ m) = elim (Bool-cases (j == id)) [
  | inl same ↦ rw same (omega arith)
  | inr other ↦ rw other (omega (arith, count_active-set id t m))
]

count_active-close : (m : Tasks) → count_active (close m) ≡ count_active m
unfolding count_active close
count_active-close [] = refl
count_active-close ((id, t) ∷ m) = ap (◌+◌ (is_active t)) (count_active-close m)

-- A change of one task that does not make it active.
set_le :
    (id : Text) (t u : TaskEntry) (m : Tasks)
    → Dict.get id m ≡ some t
    → is_active u ≤ is_active t
    → count_active (Dict.set id u m) ≤ count_active m
set_le id t u m found less =
    let before : active_before (Dict.get id m) ≡ is_active t = ap active_before found in
    omega (arith, count_active-set id u m)

start_le :
    (id : Text) (now : ℕ) (r : TransferRequest) (m : Tasks)
    → count_active m ≤ max_active_tasks
    → count_active (start id now r m).0 ≤ max_active_tasks
unfolding start
start_le id now r m h =
    let recent = Dict.retain (is_kept now) m in
    let fewer = count_active-retain (is_kept now) m in
    elim (Bool-cases (is_empty r.source_path || is_empty r.target_path)) [
      | inl bare ↦ rw (bare, start) h
      | inr named ↦ elim (Bool-cases r.is_same) [
        | inl same ↦ rw (named, same, start) h
        | inr apart ↦ elim (Bool-cases (leb max_active_tasks (count_active recent))) [
          | inl full ↦ rw (named, apart, full, start) (omega arith)
          | inr room ↦
              let below : suc (count_active recent) ≤ max_active_tasks = ground (arith, room) in
              rw (named, apart, room, start) (omega (arith, count_active-set id started recent))
        ]
      ]
    ]

-- At most two transfers run at a time: no call of the manager and no end of a run makes them more.
pub step-count_active :
    (x : TaskCall) (m : Tasks)
    → count_active m ≤ max_active_tasks
    → count_active (step x m) ≤ max_active_tasks
unfolding step status cancel end_run
step-count_active (starts id now r) m h = start_le id now r m h
step-count_active (asks id now) m h = elim (Option-cases (Dict.get id m)) [
  | inl gone ↦ rw (gone, step, status) h
  | inr (t, found) ↦ elim (Bool-cases (is_expired now t.finished_at)) [
    | inl old ↦ rw (found, old, step, status) (omega (arith, count_active-delete id m))
    | inr young ↦ rw (found, young, step, status) h
  ]
]
step-count_active (cancels id) m h = elim (Option-cases (Dict.get id m)) [
  | inl gone ↦ rw (gone, step, cancel) h
  | inr (t, found) ↦
      rw (found, step, cancel) (omega (arith, set_le id t (asked t) m found (omega arith)))
]
step-count_active closes m h = omega (arith, count_active-close m)
step-count_active (ends id state now) m h = elim (Option-cases (Dict.get id m)) [
  | inl gone ↦ rw (gone, step, end_run) h
  | inr (t, found) ↦
      let over : TaskEntry = record t { state = state; finished_at = some now } in
      rw (found, step, end_run) (omega (arith, set_le id t over m found (omega arith)))
]
