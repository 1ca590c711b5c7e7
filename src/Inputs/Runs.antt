-- ===== src/Inputs/Runs.antt =====
-- src/controller/verification-input-manager.mjs: the same through every run of calls.
use codex_compatible_mcp.Base.{
  ℕ, ◌+◌, ◌≤◌, ◌≡◌, ◌≢◌, inl, inr, Bool, not, ◌||◌, Option, none, some, List, [], ◌∷◌, All, ◌==◌,
  arith, Bool-cases, Option-cases, Outcome-cases,
}
use codex_compatible_mcp.Base.Text.{Text, text_eq}
use codex_compatible_mcp.Base.Dict
use codex_compatible_mcp.Base.Dict.{IsDistinct}
use codex_compatible_mcp.Inputs.Manager.{
  unavailable, sending, Request, Manager, is_young, prune, get, Session, new_request, put, create,
  is_pending, with_state, checked, overwrite, status, send, submit, Reply, failed, written, settled,
  settle, close,
}
use codex_compatible_mcp.Inputs.Once.{
  Call, creates, shows, submits, settles, closes, step, run, count, waiting, IsOld, spent,
  prune-spent, overwrite-spent, send-spent, get-found,
}

send-IsDistinct :
    (id value : Text) (live : Bool) (r : Request) (m : Manager)
    → IsDistinct m.requests
    → IsDistinct (send id value live r m).0.requests
unfolding send overwrite
send-IsDistinct id value live r m h = elim (Bool-cases (is_pending r.state)) [
  | inr done ↦ rw (done, send) h
  | inl waits ↦
      rw (waits, send)
        (elim (Bool-cases live) [
          | inr dead ↦
              rw (dead, send) (Dict.set-IsDistinct id (with_state unavailable r) m.requests h)
          | inl alive ↦
              rw (alive, send) (Dict.set-IsDistinct id (with_state sending r) m.requests h)
        ])
]

-- What a call keeps, and what it may spend.
record Kept (j : Text) (m m' : Manager) : Type 0 where
  distinct : IsDistinct m'.requests
  le : spent j m' ≤ spent j m

module _ (j : Text) where
  prune-Kept : (now : ℕ) (m : Manager) → IsDistinct m.requests → Kept j m (prune now m)
  unfolding prune
  prune-Kept now m h = record {
    distinct = Dict.retain-IsDistinct (is_young now) m.requests h;
    le = prune-spent j now m h;
  }

  after-Kept : {m m' m'' : Manager} → Kept j m m' → Kept j m' m'' → Kept j m m''
  after-Kept k k' = record { distinct = k'.distinct; le = omega (arith, k.le, k'.le) }

  overwrite-Kept :
      (id : Text) (r r' : Request) (m : Manager)
      → Dict.get id m.requests ≡ some r
      → waiting (some r') ≤ waiting (some r)
      → IsDistinct m.requests
      → Kept j m (overwrite id r' m)
  unfolding overwrite
  overwrite-Kept id r r' m there le h = record {
    distinct = Dict.set-IsDistinct id r' m.requests h;
    le = overwrite-spent j id r r' m there le;
  }

  same-Kept : (m : Manager) → IsDistinct m.requests → Kept j m m
  same-Kept m h = record { distinct = h; le = omega arith }

  put-Kept : (r : Request) (m : Manager) → r.id ≢ j → IsDistinct m.requests → Kept j m (put r m)
  unfolding put spent
  put-Kept r m other h = record {
    distinct = Dict.set-IsDistinct r.id r m.requests h;
    le = ground (arith, Dict.get-set r.id j r m.requests, text_eq.beq_iff r.id j, other);
  }

  create-Kept :
      (pruned_at now : ℕ) (id : Text) (session : Option Session) (live : Bool) (handle : Text)
      (session_id : ℕ) (label : Text) (host : Option Text) (m : Manager)
      → id ≢ j
      → IsDistinct m.requests
      → Kept j m (create pruned_at now id session live handle session_id label host m).0
  unfolding create
  create-Kept pruned_at now id none live handle session_id label host m other h =
      prune-Kept pruned_at m h
  create-Kept pruned_at now id (some session) live handle session_id label host m other h =
      let p = prune-Kept pruned_at m h in
      elim (Bool-cases (not (session.workspace_handle == handle) || not live)) [
        | inl bad ↦ rw (bad, create) p
        | inr good ↦
            rw (good, create)
              (after-Kept p (
                put-Kept (new_request id session_id handle session label host now)
                  (prune pruned_at m) other p.distinct))
      ]

  checked_le : (live : Bool) (r : Request) → waiting (some (checked live r)) ≤ waiting (some r)
  checked_le live r = ground arith

  status-Kept :
      (now : ℕ) (id : Text) (host : Option Text) (live : Bool) (m : Manager)
      → IsDistinct m.requests
      → Kept j m (status now id host live m).0
  unfolding status
  status-Kept now id host live m h =
      let p = prune-Kept now m h in
      elim (Outcome-cases (get id host (prune now m))) [
        | inr (e, bad) ↦ rw (bad, status) p
        | inl (r, good) ↦
            rw (good, status)
              (after-Kept p (
                overwrite-Kept id r (checked live r) (prune now m)
                  (get-found id host (prune now m) r good) (checked_le live r) p.distinct))
      ]

  submit-Kept :
      (now : ℕ) (id value : Text) (host : Option Text) (live : Bool) (m : Manager)
      → IsDistinct m.requests
      → Kept j m (submit now id value host live m).0
  unfolding submit
  submit-Kept now id value host live m h =
      let p = prune-Kept now m h in
      elim (Outcome-cases (get id host (prune now m))) [
        | inr (e, bad) ↦ rw (bad, submit) p
        | inl (r, good) ↦
            rw (good, submit)
              (after-Kept p (record {
                distinct = send-IsDistinct id value live r (prune now m) p.distinct;
                le =
                    send-spent j id value live r (prune now m)
                      (get-found id host (prune now m) r good);
              }))
      ]

  settled_le : (reply : Reply) (r : Request) → waiting (some (settled reply r)) ≤ waiting (some r)
  unfolding settled
  settled_le failed r = omega arith
  settled_le (written running code) r = omega arith

  settle-Kept :
      (id : Text) (reply : Reply) (m : Manager)
      → IsDistinct m.requests
      → Kept j m (settle id reply m)
  unfolding settle
  settle-Kept id reply m h = elim (Option-cases (Dict.get id m.requests)) [
    | inl gone ↦ rw (gone, settle) (same-Kept m h)
    | inr (r, there) ↦
        rw (there, settle) (overwrite-Kept id r (settled reply r) m there (settled_le reply r) h)
  ]

  close-Kept : (m : Manager) → Kept j m (close m)
  unfolding close spent Dict.get
  close-Kept m = record { distinct = tt; le = omega arith }

  step-Kept : (c : Call) (m : Manager) → IsOld j c → IsDistinct m.requests → Kept j m (step c m)
  unfolding step
  step-Kept (creates pruned_at now id session live handle session_id label host) m old h =
      create-Kept pruned_at now id session live handle session_id label host m old h
  step-Kept (shows now id host live) m old h = status-Kept now id host live m h
  step-Kept (submits now id value host live) m old h = submit-Kept now id value host live m h
  step-Kept (settles id reply) m old h = settle-Kept id reply m h
  step-Kept closes m old h = close-Kept m

  run-Kept :
      (cs : List Call) (m : Manager)
      → All (IsOld j) cs
      → IsDistinct m.requests
      → Kept j m (run cs m)
  unfolding run
  run-Kept [] m old h = same-Kept m h
  run-Kept (c ∷ cs) m (old, rest) h =
      let k = step-Kept c m old h in after-Kept k (run-Kept cs (step c m) rest k.distinct)

  -- With each id held once: however submits, their ends and other calls are interleaved, and as long as no new card is made
  -- under a card's id, the values that are handed over for it are at most one more than before, and
  -- none more if the card does not wait for one.
  pub sent_once :
      (cs : List Call) (m : Manager)
      → All (IsOld j) cs
      → IsDistinct m.requests
      → count j (run cs m).sent ≤ count j m.sent + waiting (Dict.get j m.requests)
  unfolding spent
  sent_once cs m old h = ground (arith, (run-Kept cs m old h).le)
