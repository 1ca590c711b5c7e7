-- ===== src/Access/Budget.antt =====
-- src/controller/web-full-access.mjs: how many claims the unlocking of the page is good for.
use codex_compatible_mcp.Base.{
  ℕ, ◌+◌, ◌*◌, ◌≤◌, ◌≡◌, refl, inl, inr, Bool, true, false, not, Option, none, some, List, [], ◌∷◌,
  leb, ◌==◌, is_empty, Outcome, ok, err, arith, Bool-cases, Option-cases, ◌||◌,
}
use codex_compatible_mcp.Base.Text.{Text, text_eq}
use codex_compatible_mcp.Base.Dict
use codex_compatible_mcp.Access.Unlock.{
  Access, Pending, Recovery, AccessError, GrantId, no_grant, other_value, grant_id, follow_revision,
  cleanup, live_pending, live_recovery, live_grants, recover, take_pending, claim_pending, claim,
  authorize, issue, status, is_allowed,
}

-- A call of the object, with the readings of the clock and of the revision, and the id that is drawn.
pub data Call : Type 0 where
  issues : (cleaned_at now : ℕ) → Text → Text → ℕ → Call
  shows : ℕ → Text → Call
  claims : ℕ → Text → Option Text → Call
  authorizes : (cleaned_at now : ℕ) → Text → GrantId → Call

unfoldable pub step : Call → Access → Access
step (issues cleaned_at now revision id seconds) a = (issue cleaned_at now revision id seconds a).0
step (shows now revision) a = (status now revision a).0
step (claims now revision expected) a = (claim now revision expected a).0
step (authorizes cleaned_at now revision grant) a = (authorize cleaned_at now revision grant a).0

abbrev count : {A : Type 0} → Option A → ℕ
count none = 0
count (some a) = 1

abbrev count_issued : Outcome AccessError (Bool × Option Pending) → ℕ
count_issued (err e) = 0
count_issued (ok (false, p)) = 0
count_issued (ok (true, p)) = 1

-- The grants that a call gives out.
unfoldable pub given_out : Call → Access → ℕ
given_out (claims now revision expected) a = count (claim now revision expected a).1
given_out _ a = 0

-- The grants that a call makes pending.
unfoldable pub issued : Call → Access → ℕ
issued (issues cleaned_at now revision id seconds) a =
    count_issued (issue cleaned_at now revision id seconds a).1
issued _ a = 0

unfoldable pub total : (Call → Access → ℕ) → List Call → Access → ℕ
unfolding step
total f [] a = 0
total f (c ∷ cs) a = f c a + total f cs (step c a)

-- The claims that can still succeed without a new unlock.
unfoldable pub left : Access → ℕ
left a = 2 * count a.pending + count a.recovery

live_pending-count : (now : ℕ) (o : Option Pending) → count (live_pending now o) ≤ count o
live_pending-count now none = ground arith
live_pending-count now (some p) = ground arith

live_recovery-count :
    (now : ℕ) (grants : Dict.Dict Text ℕ) (o : Option Recovery)
    → count (live_recovery now grants o) ≤ count o
live_recovery-count now grants none = ground arith
live_recovery-count now grants (some r) =
    elim (Bool-cases (leb r.recover_expires now || not (Dict.has r.id grants))) [
      | inl gone ↦ rw gone (ground arith)
      | inr here ↦ rw here (ground arith)
    ]

cleanup-left : (now : ℕ) (revision : Text) (a : Access) → left (cleanup now revision a) ≤ left a
unfolding cleanup left follow_revision
cleanup-left now revision a = elim (Bool-cases (revision == a.last_revision)) [
  | inl same ↦ rw same (
      ground (
        arith,
        live_pending-count now a.pending,
        live_recovery-count now (live_grants now a.grants) a.recovery,
      ))
  | inr other ↦ rw other (ground arith)
]

recover-left :
    (o : Option Recovery) (a : Access)
    → a.recovery ≡ o
    → count (recover o a).1 + left (recover o a).0 ≤ left a
unfolding recover left
recover-left none a e = ground arith
recover-left (some r) a e = ground (arith, e)

claim_pending-left :
    (expected : Option Text) (o : Option Pending) (a : Access)
    → a.pending ≡ o
    → count (claim_pending expected o a).1 + left (claim_pending expected o a).0 ≤ left a
unfolding claim_pending take_pending left
claim_pending-left none none a e = recover-left a.recovery a refl
claim_pending-left (some id) none a e = ground arith
claim_pending-left none (some p) a e = ground (arith, e)
claim_pending-left (some id) (some p) a e = elim (Bool-cases (id == p.id)) [
  | inl same ↦ rw same (ground (arith, e))
  | inr other ↦ rw other (ground arith)
]

claim-left :
    (now : ℕ) (revision : Text) (expected : Option Text) (a : Access)
    → count (claim now revision expected a).1 + left (claim now revision expected a).0 ≤ left a
unfolding claim
claim-left now revision expected a =
    elim (Bool-cases (is_empty (cleanup now revision a).last_revision)) [
      | inl off ↦ rw off (ground (arith, cleanup-left now revision a))
      | inr on ↦ rw on (
          ground (
            arith,
            cleanup-left now revision a,
            claim_pending-left expected (cleanup now revision a).pending (cleanup now revision a)
                refl,
          ))
    ]

issue-left :
    (cleaned_at now : ℕ) (revision id : Text) (seconds : ℕ) (a : Access)
    → left (issue cleaned_at now revision id seconds a).0
      ≤ left a + 2 * count_issued (issue cleaned_at now revision id seconds a).1
unfolding issue left
issue-left cleaned_at now revision id seconds a0 =
    let kept : left (cleanup cleaned_at revision a0) ≤ left a0 =
      cleanup-left cleaned_at revision a0 in
    elim (Bool-cases (is_empty (cleanup cleaned_at revision a0).last_revision)) [
      | inl off ↦ rw off (ground arith)
      | inr on ↦ rw on (elim (Bool-cases (is_allowed seconds)) [
        | inr bad ↦ rw bad (ground arith)
        | inl good ↦ rw good (elim (Option-cases (cleanup cleaned_at revision a0).pending) [
          | inl e ↦ rw e (ground arith)
          | inr (p, e) ↦ rw e (ground arith)
        ])
      ])
    ]

step-left : (c : Call) (a : Access) → given_out c a + left (step c a) ≤ left a + 2 * issued c a
unfolding given_out issued step status authorize
step-left (issues cleaned_at now revision id seconds) a =
    ground (arith, issue-left cleaned_at now revision id seconds a)
step-left (shows now revision) a = ground (arith, cleanup-left now revision a)
step-left (claims now revision expected) a = ground (arith, claim-left now revision expected a)
step-left (authorizes cleaned_at now revision no_grant) a = ground arith
step-left (authorizes cleaned_at now revision other_value) a =
    ground (arith, cleanup-left cleaned_at revision a)
step-left (authorizes cleaned_at now revision (grant_id id)) a =
    ground (arith, cleanup-left cleaned_at revision a)

-- In any run of calls the claims that succeed are at most two for each unlock that the page made,
-- besides those that were left at the start.
pub claims_bounded :
    (cs : List Call) (a : Access) → total given_out cs a ≤ left a + 2 * total issued cs a
unfolding total
claims_bounded [] a = ground arith
claims_bounded (c ∷ cs) a = ground (arith, step-left c a, claims_bounded cs (step c a))
