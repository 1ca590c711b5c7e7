-- ===== src/Inputs/Once.antt =====
-- src/controller/verification-input-manager.mjs: a card hands a value to the command once.
use codex_compatible_mcp.Base.{
  ℕ, ◌+◌, ◌≤◌, ◌≡◌, ◌≢◌, subst, inl, inr, Bool, Option, none, some, List, [], ◌∷◌, if◌then◌else◌,
  ◌==◌, ok, arith, Bool-cases, Option-cases,
}
use codex_compatible_mcp.Base.Text.{Text, text_eq}
use codex_compatible_mcp.Base.Dict
use codex_compatible_mcp.Base.Dict.{IsDistinct}
use codex_compatible_mcp.Inputs.Manager.{
  unavailable, sending, Request, Manager, is_young, prune, is_foreign, get, Session, create,
  is_pending, with_state, overwrite, status, send, submit, Reply, settle, close,
}

-- A call, or the end of one that awaited the process manager.
pub data Call : Type 0 where
  creates :
      (pruned_at now : ℕ) → Text → Option Session → Bool → Text → ℕ → Text → Option Text → Call
  shows : ℕ → Text → Option Text → Bool → Call
  submits : ℕ → Text → Text → Option Text → Bool → Call
  settles : Text → Reply → Call
  closes : Call

unfoldable pub step : Call → Manager → Manager
unfolding create status submit settle close
step (creates pruned_at now id session live handle session_id label host) m =
    (create pruned_at now id session live handle session_id label host m).0
step (shows now id host live) m = (status now id host live m).0
step (submits now id value host live) m = (submit now id value host live m).0
step (settles id reply) m = settle id reply m
step closes m = close m

unfoldable pub run : List Call → Manager → Manager
unfolding step
run [] m = m
run (c ∷ cs) m = run cs (step c m)

-- How many values were handed over for a request.
unfoldable pub count : Text → List (Text × Text) → ℕ
count j [] = 0
count j ((id, value) ∷ sent) = (if id == j then 1 else 0) + count j sent

abbrev pub waiting : Option Request → ℕ
waiting none = 0
waiting (some r) = if is_pending r.state then 1 else 0

abbrev pub IsOld : Text → Call → Type 0
IsOld j (creates pruned_at now id session live handle session_id label host) = id ≢ j
IsOld j _ = Unit

unfoldable pub spent : Text → Manager → ℕ
spent j m = count j m.sent + waiting (Dict.get j m.requests)

module _ (j : Text) where
  pub prune-spent :
      (now : ℕ) (m : Manager) → IsDistinct m.requests → spent j (prune now m) ≤ spent j m
  unfolding spent prune
  prune-spent now m h = ground (arith, Dict.get-retain (is_young now) j m.requests h)

  pub overwrite-spent :
      (id : Text) (r r' : Request) (m : Manager)
      → Dict.get id m.requests ≡ some r
      → waiting (some r') ≤ waiting (some r)
      → spent j (overwrite id r' m) ≤ spent j m
  unfolding spent overwrite
  overwrite-spent id r r' m there le = elim (Bool-cases (id == j)) [
    | inl same ↦
        let e : id ≡ j = (text_eq.beq_iff id j).0 same in
        let here : Dict.get j m.requests ≡ some r =
          subst (λ k. Dict.get k m.requests ≡ some r) e there in
        ground (arith, Dict.get-set id j r' m.requests, same, here, le)
    | inr other ↦ ground (arith, Dict.get-set id j r' m.requests, other)
  ]

  pub send-spent :
      (id value : Text) (live : Bool) (r : Request) (m : Manager)
      → Dict.get id m.requests ≡ some r
      → spent j (send id value live r m).0 ≤ spent j m
  unfolding send spent overwrite count
  send-spent id value live r m there = elim (Bool-cases (is_pending r.state)) [
    | inr done ↦ rw (done, send) (ground arith)
    | inl waits ↦
        rw (waits, send)
          (elim (Bool-cases live) [
            | inr dead ↦
                rw (dead, send)
                  (overwrite-spent id r (with_state unavailable r) m there (ground arith))
            | inl alive ↦
                rw (alive, send)
                  (elim (Bool-cases (id == j)) [
                    | inl same ↦
                        let e : id ≡ j = (text_eq.beq_iff id j).0 same in
                        let here : Dict.get j m.requests ≡ some r =
                          subst (λ k. Dict.get k m.requests ≡ some r) e there in
                        ground (
                          arith,
                          Dict.get-set id j (with_state sending r) m.requests,
                          same,
                          here,
                          waits,
                        )
                    | inr other ↦
                        ground (arith, Dict.get-set id j (with_state sending r) m.requests, other)
                  ])
          ])
  ]

pub get-found :
    (id : Text) (host : Option Text) (m : Manager) (r : Request)
    → get id host m ≡ ok r
    → Dict.get id m.requests ≡ some r
unfolding get
get-found id host m r h = elim (Option-cases (Dict.get id m.requests)) [
  | inl gone ↦ absurd (ground (arith, gone, h))
  | inr (q, there) ↦ elim (Bool-cases (is_foreign q.host_session host)) [
    | inl foreign ↦ absurd (ground (arith, there, foreign, h))
    | inr own ↦ ground (arith, there, own, h)
  ]
]
