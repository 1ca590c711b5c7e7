-- ===== src/Transfers/Reading.antt =====
-- src/controller/file-transfer-store.mjs: a file that is being read, through runs of calls.
use codex_compatible_mcp.Base.{
  ◌≡◌, ◌<◌, refl, false, subst, ◌∙◌, inl, inr, List, [], ◌∷◌, nat_beq, Bool-cases,
}
use codex_compatible_mcp.Base.Text.{Text, text_eq}
use codex_compatible_mcp.Base.Dict
use codex_compatible_mcp.Transfers.Files.{
  Files, readers, active_of, has_token, without, released_count, get, acquire, unlink, end_reading,
  release, close, cleanup,
}
use codex_compatible_mcp.Transfers.Accounting.{unlink-fields}
use codex_compatible_mcp.Transfers.Calls.{
  Call, puts, gets, acquires, releases, cleans, closes, step,
}
use codex_compatible_mcp.Transfers.Readers.{
  IsNoPut, unlink-Keeps, cleanup-Keeps, put-bins, acquire_entry-bins, Keeps-left,
}

end_reading-bins :
    (t token : Text) (s : Files)
    → 0 < active_of t (end_reading token s)
    → Dict.get t (end_reading token s).bins ≡ Dict.get t s.bins
unfolding end_reading
end_reading-bins t token s left = elim (Bool-cases (has_token token s.pending_delete)) [
  | inl pending ↦
      let waiting : Files = record s { pending_delete = without token s.pending_delete } in
      let (entries, total, limit, active) = unlink-fields token waiting in
      let same : end_reading token s ≡ unlink token waiting = rw (pending, end_reading) refl in
      let reading : 0 < active_of t waiting =
        subst (λ m. 0 < readers (Dict.get t m)) active (subst (λ u. 0 < active_of t u) same left) in
      rw (pending, end_reading) (unlink-Keeps t token waiting reading).bin
  | inr free ↦ rw (free, end_reading) refl
]

release-bins :
    (t token : Text) (s : Files)
    → 0 < active_of t (release token s)
    → Dict.get t (release token s).bins ≡ Dict.get t s.bins
unfolding release
release-bins t token s left =
    elim (Bool-cases (nat_beq (released_count (Dict.get token s.active)) 0)) [
      | inr more ↦ rw (more, release) refl
      | inl last ↦
          let idle : Files = record s { active = Dict.delete token s.active } in
          let same : release token s ≡ end_reading token idle = rw (last, release) refl in
          rw (last, release)
            (end_reading-bins t token idle (subst (λ u. 0 < active_of t u) same left))
    ]

-- A close that it makes is not of an ephemeral store, which removes its directory.
abbrev pub IsOpen : Call → Files → Type 0
IsOpen closes s = s.ephemeral ≡ false
IsOpen _ s = Unit

step-bins :
    (t : Text) (x : Call) (s : Files)
    → 0 < active_of t s
    → 0 < active_of t (step x s)
    → IsNoPut t x
    → IsOpen x s
    → Dict.get t (step x s).bins ≡ Dict.get t s.bins
unfolding step get acquire close
step-bins t (puts token now evicted_at u) s h left other kept =
    put-bins t token now evicted_at u s h other
step-bins t (gets token now) s h left other kept = (cleanup-Keeps t now s h).bin
step-bins t (acquires token now) s h left other kept =
    let clean = cleanup-Keeps t now s h in
    acquire_entry-bins t token (cleanup now s) _ (Keeps-left t s (cleanup now s) clean h)
    ∙ clean.bin
step-bins t (releases token) s h left other kept = release-bins t token s left
step-bins t (cleans now) s h left other kept = (cleanup-Keeps t now s h).bin
step-bins t closes s h left other kept = rw kept refl

unfoldable pub run : List Call → Files → Files
unfolding step
run [] s = s
run (x ∷ xs) s = run xs (step x s)

-- A reader of the token is left after each call, none of them puts a file under it, and none closes an
-- ephemeral store.
abbrev pub IsRead : Text → List Call → Files → Type 0
IsRead t [] s = 0 < active_of t s
IsRead t (x ∷ xs) s = (0 < active_of t s) × IsNoPut t x × IsOpen x s × IsRead t xs (step x s)

left_of : (t : Text) (xs : List Call) (s : Files) → IsRead t xs s → 0 < active_of t s
left_of t [] s h = h
left_of t (x ∷ xs) s h = h.0

-- Whatever calls are made, evictions and expiries included: as long as a reader of a token is left, no
-- file is put under the token, and no ephemeral store is closed, the file of the token stays in the
-- directory as it was.
pub run-bins :
    (t : Text) (xs : List Call) (s : Files)
    → IsRead t xs s
    → Dict.get t (run xs s).bins ≡ Dict.get t s.bins
unfolding run
run-bins t [] s h = refl
run-bins t (x ∷ xs) s (reading, other, kept, rest) =
    run-bins t xs (step x s) rest
    ∙ step-bins t x s reading (left_of t xs (step x s) rest) other kept
