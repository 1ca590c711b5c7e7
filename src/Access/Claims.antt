-- ===== src/Access/Claims.antt =====
-- src/controller/web-full-access.mjs: what a claim is good for, and what a new enrolment ends.
use codex_compatible_mcp.Base.{
  not, ℕ, ◌<◌, ◌≡◌, refl, inl, inr, true, false, some, leb, ◌==◌, is_empty, ok, arith, Bool-cases,
  Option-cases,
}
use codex_compatible_mcp.Base.Text.{Text, text_eq}
use codex_compatible_mcp.Base.Dict
use codex_compatible_mcp.Base.Dict.{IsDistinct}
use codex_compatible_mcp.Access.Unlock.{
  Access, GrantId, no_grant, other_value, grant_id, follow_revision, cleanup, check_grant,
  authorize_clean, authorize,
}

pub follow_revision-last_revision :
    (revision : Text) (a : Access) → (follow_revision revision a).last_revision ≡ revision
unfolding follow_revision
follow_revision-last_revision revision a = ground (arith, text_eq.beq_iff revision a.last_revision)

pub cleanup-last_revision :
    (now : ℕ) (revision : Text) (a : Access) → (cleanup now revision a).last_revision ≡ revision
unfolding cleanup
cleanup-last_revision now revision a = follow_revision-last_revision revision a

follow_revision-IsDistinct :
    (revision : Text) (a : Access)
    → IsDistinct a.grants
    → IsDistinct (follow_revision revision a).grants
unfolding follow_revision
follow_revision-IsDistinct revision a h = elim (Bool-cases (revision == a.last_revision)) [
  | inl same ↦ rw same h
  | inr other ↦ rw other tt
]

pub cleanup-IsDistinct :
    (now : ℕ) (revision : Text) (a : Access)
    → IsDistinct a.grants
    → IsDistinct (cleanup now revision a).grants
unfolding cleanup
cleanup-IsDistinct now revision a h =
    Dict.retain-IsDistinct _ _ (follow_revision-IsDistinct revision a h)

-- A grant that a cleaning leaves was there, under the same enrolment.
cleanup-grant :
    (now : ℕ) (revision id : Text) (a : Access) {expires : ℕ}
    → IsDistinct a.grants
    → Dict.get id (cleanup now revision a).grants ≡ some expires
    → (revision ≡ a.last_revision) × (Dict.get id a.grants ≡ some expires)
unfolding cleanup follow_revision Dict.retain Dict.get
cleanup-grant now revision id a distinct h = elim (Bool-cases (revision == a.last_revision)) [
  | inl same ↦ (
    (text_eq.beq_iff revision a.last_revision).0 same,
    ground (arith, Dict.get-retain (λ id expires. not (leb expires now)) id a.grants distinct),
  )
  | inr other ↦ absurd (ground arith)
]

-- With each grant held once, a grant id that is let through names a grant of the same, confirmed enrolment, and the clock has
-- not reached the time at which that grant expires.
pub authorize-ok :
    (cleaned_at now : ℕ) (revision : Text) (grant : GrantId) (a : Access)
    → IsDistinct a.grants
    → (authorize cleaned_at now revision grant a).1 ≡ ok true
    → (id : Text) × (grant ≡ grant_id id)
      × (revision ≡ a.last_revision)
      × (is_empty revision ≡ false)
      × (expires : ℕ) × (Dict.get id a.grants ≡ some expires)
      × (now < expires)
unfolding authorize authorize_clean check_grant
authorize-ok cleaned_at now revision no_grant a distinct h = absurd (ground arith)
authorize-ok cleaned_at now revision other_value a distinct h = absurd (ground arith)
authorize-ok cleaned_at now revision (grant_id id) a distinct h =
    elim (Option-cases (Dict.get id (cleanup cleaned_at revision a).grants)) [
      | inl e ↦ absurd (ground arith)
      | inr (expires, e) ↦
          let there = cleanup-grant cleaned_at revision id a distinct e in
          (
            id,
            refl,
            there.0,
            ground (arith, cleanup-last_revision cleaned_at revision a),
            expires,
            there.1,
            ground arith,
          )
    ]
