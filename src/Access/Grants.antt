-- ===== src/Access/Grants.antt =====
-- src/controller/web-full-access.mjs: what is kept by every operation, and that a claimed grant works.
use codex_compatible_mcp.Base.{
  not, ℕ, ◌<◌, ◌≡◌, inl, inr, Bool, true, false, Option, none, some, leb, subst, ◌==◌, is_empty, ok,
  arith, Bool-cases,
}
use codex_compatible_mcp.Base.Text.{Text, text_eq}
use codex_compatible_mcp.Base.Dict
use codex_compatible_mcp.Base.Dict.{IsDistinct}
use codex_compatible_mcp.Access.Claims.{cleanup-IsDistinct, cleanup-last_revision}
use codex_compatible_mcp.Access.Unlock.{
  Access, Pending, Recovery, Unlocked, grant_id, follow_revision, cleanup, live_recovery,
  live_grants, recover, take_pending, claim_pending, claim, check_grant, authorize_clean, authorize,
}

-- The grant that a recovery gives out again is in force.
unfoldable pub IsRecoverable : Option Recovery → Dict.Dict Text ℕ → Type 0
IsRecoverable none grants = Unit
IsRecoverable (some r) grants = Dict.get r.id grants ≡ some r.expires

pub record IsWellFormed (a : Access) : Type 0 where
  pub distinct : IsDistinct a.grants
  pub recoverable : IsRecoverable a.recovery a.grants

live-IsRecoverable :
    (now : ℕ) (recovery : Option Recovery) (grants : Dict.Dict Text ℕ)
    → IsDistinct grants
    → IsRecoverable recovery grants
    → IsRecoverable (live_recovery now (live_grants now grants) recovery) (live_grants now grants)
unfolding IsRecoverable
live-IsRecoverable now none grants distinct h = tt
live-IsRecoverable now (some r) grants distinct h =
    ground (arith, Dict.get-retain (λ id expires. not (leb expires now)) r.id grants distinct)

pub follow_revision-IsWellFormed :
    (revision : Text) (a : Access) → IsWellFormed a → IsWellFormed (follow_revision revision a)
unfolding follow_revision IsRecoverable
follow_revision-IsWellFormed revision a h = elim (Bool-cases (revision == a.last_revision)) [
  | inl same ↦ rw same h
  | inr other ↦ rw other (record { distinct = tt; recoverable = tt })
]

pub cleanup-IsWellFormed :
    (now : ℕ) (revision : Text) (a : Access)
    → IsWellFormed a
    → IsWellFormed (cleanup now revision a)
unfolding cleanup
cleanup-IsWellFormed now revision a h =
    let f = follow_revision-IsWellFormed revision a h in
    record {
      distinct = cleanup-IsDistinct now revision a h.distinct;
      recoverable =
          live-IsRecoverable now (follow_revision revision a).recovery
            (follow_revision revision a).grants f.distinct f.recoverable;
    }

take_pending-IsWellFormed :
    (named : Bool) (p : Pending) (a : Access)
    → IsWellFormed a
    → IsWellFormed (take_pending named p a).0
unfolding take_pending IsRecoverable
take_pending-IsWellFormed true p a h = record {
  distinct = Dict.set-IsDistinct p.id p.expires a.grants h.distinct;
  recoverable = Dict.get-set_self p.id p.expires a.grants;
}
take_pending-IsWellFormed false p a h = record {
  distinct = Dict.set-IsDistinct p.id p.expires a.grants h.distinct;
  recoverable = tt;
}

recover-IsWellFormed :
    (o : Option Recovery) (a : Access) → IsWellFormed a → IsWellFormed (recover o a).0
unfolding recover IsRecoverable
recover-IsWellFormed none a h = h
recover-IsWellFormed (some r) a h = record { distinct = h.distinct; recoverable = tt }

claim_pending-IsWellFormed :
    (expected : Option Text) (o : Option Pending) (a : Access)
    → IsWellFormed a
    → IsWellFormed (claim_pending expected o a).0
unfolding claim_pending
claim_pending-IsWellFormed none none a h = recover-IsWellFormed a.recovery a h
claim_pending-IsWellFormed (some id) none a h = h
claim_pending-IsWellFormed none (some p) a h = take_pending-IsWellFormed false p a h
claim_pending-IsWellFormed (some id) (some p) a h = elim (Bool-cases (id == p.id)) [
  | inl same ↦ rw same (take_pending-IsWellFormed true p a h)
  | inr other ↦ rw other h
]

-- A claim keeps the state well-formed.
pub claim-IsWellFormed :
    (now : ℕ) (revision : Text) (expected : Option Text) (a : Access)
    → IsWellFormed a
    → IsWellFormed (claim now revision expected a).0
unfolding claim
claim-IsWellFormed now revision expected a h =
    let f = cleanup-IsWellFormed now revision a h in
    elim (Bool-cases (is_empty (cleanup now revision a).last_revision)) [
      | inl off ↦ rw off f
      | inr on ↦ rw on (claim_pending-IsWellFormed expected _ _ f)
    ]

-- What a claim gives out is in force, under the enrolment that it was made under.
unfoldable pub IsGranted : Text → Option Unlocked → Access → Type 0
IsGranted revision none a = Unit
IsGranted revision (some u) a =
    (a.last_revision ≡ revision)
    × (is_empty revision ≡ false)
    × (Dict.get u.full_access_grant_id a.grants ≡ some u.expires_at)

module _ (revision : Text) (on : is_empty revision ≡ false) where
  recover-IsGranted :
      (o : Option Recovery) (a : Access)
      → IsRecoverable o a.grants
      → a.last_revision ≡ revision
      → IsGranted revision (recover o a).1 (recover o a).0
  unfolding recover IsRecoverable IsGranted
  recover-IsGranted none a h e = tt
  recover-IsGranted (some r) a h e = (e, on, h)

  claim_pending-IsGranted :
      (expected : Option Text) (o : Option Pending) (a : Access)
      → IsWellFormed a
      → a.last_revision ≡ revision
      → IsGranted revision (claim_pending expected o a).1 (claim_pending expected o a).0
  unfolding claim_pending take_pending IsGranted
  claim_pending-IsGranted none none a h e = recover-IsGranted a.recovery a h.recoverable e
  claim_pending-IsGranted (some id) none a h e = tt
  claim_pending-IsGranted none (some p) a h e = (e, on, Dict.get-set_self p.id p.expires a.grants)
  claim_pending-IsGranted (some id) (some p) a h e = elim (Bool-cases (id == p.id)) [
    | inl same ↦ rw same (e, on, Dict.get-set_self p.id p.expires a.grants)
    | inr other ↦ rw other tt
  ]

claim-IsGranted :
    (now : ℕ) (revision : Text) (expected : Option Text) (a : Access)
    → IsWellFormed a
    → IsGranted revision (claim now revision expected a).1 (claim now revision expected a).0
unfolding claim IsGranted
claim-IsGranted now revision expected a h =
    let last = cleanup-last_revision now revision a in
    elim (Bool-cases (is_empty (cleanup now revision a).last_revision)) [
      | inl off ↦ rw off tt
      | inr on ↦ rw on (
          claim_pending-IsGranted revision (ground (arith, on, last)) expected _ _
            (cleanup-IsWellFormed now revision a h) last)
    ]

-- Cleaning before its time leaves a grant of the same enrolment.
cleanup-keeps :
    (now : ℕ) (id : Text) (a : Access) {expires : ℕ}
    → IsDistinct a.grants
    → Dict.get id a.grants ≡ some expires
    → now < expires
    → Dict.get id (cleanup now a.last_revision a).grants ≡ some expires
unfolding cleanup follow_revision
cleanup-keeps now id a distinct e early =
    rw (Dict.beq_self a.last_revision)
      (ground (arith, Dict.get-retain (λ id expires. not (leb expires now)) id a.grants distinct))

authorize-keeps :
    (cleaned_at now : ℕ) (id : Text) (a : Access) {expires : ℕ}
    → IsDistinct a.grants
    → is_empty a.last_revision ≡ false
    → Dict.get id a.grants ≡ some expires
    → cleaned_at < expires
    → now < expires
    → (authorize cleaned_at now a.last_revision (grant_id id) a).1 ≡ ok true
unfolding authorize authorize_clean check_grant
authorize-keeps cleaned_at now id a distinct on e early late = ground (
  arith,
  cleanup-keeps cleaned_at id a distinct e early,
  cleanup-last_revision cleaned_at a.last_revision a,
)

-- In a well-formed state, what a claim gives out lets an operation through under the same enrolment,
-- until the time that the claim named.
pub claim-authorize :
    (now : ℕ) (revision : Text) (expected : Option Text) (a : Access) (u : Unlocked)
    → IsWellFormed a
    → (claim now revision expected a).1 ≡ some u
    → (cleaned_at later : ℕ) → cleaned_at < u.expires_at
    → later < u.expires_at
    → (authorize cleaned_at later revision
        (grant_id u.full_access_grant_id)
        (claim now revision expected a).0).1
      ≡ ok true
unfolding IsGranted
claim-authorize now revision expected a u h e cleaned_at later early late =
    let after = (claim now revision expected a).0 in
    let g : IsGranted revision (some u) after =
      subst (λ o. IsGranted revision o after) e (claim-IsGranted now revision expected a h) in
    subst (λ r. (authorize cleaned_at later r (grant_id u.full_access_grant_id) after).1 ≡ ok true)
      g.0
      (authorize-keeps cleaned_at later u.full_access_grant_id after
        (claim-IsWellFormed now revision expected a h).distinct (ground (arith, g.0, g.1)) g.2 early
        late)
