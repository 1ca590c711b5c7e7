-- ===== src/Access/Tests.antt =====
-- src/controller/web-full-access.mjs: an unlock, its claim and its use on concrete values.
use codex_compatible_mcp.Base.{
  ℕ, ◌+◌, ◌*◌, ◌≤◌, ◌<◌, ◌≡◌, refl, Bool, true, false, Option, none, some, List, [], ◌∷◌, is_empty,
  Outcome, ok, err, arith,
}
use codex_compatible_mcp.Base.Text.{Text, text, text_eq}
use codex_compatible_mcp.Base.Dict
use codex_compatible_mcp.Access.Unlock.{
  Access, is_allowed, create, follow_revision, cleanup, Unlocked, describe, status, issue, recover,
  take_pending, claim_pending, claim, grant_id, check_grant, authorize_clean, authorize,
}
use codex_compatible_mcp.Access.Claims.{authorize-ok}
use codex_compatible_mcp.Access.Grants.{IsRecoverable, IsGranted, claim-authorize}
use codex_compatible_mcp.Access.Budget.{
  Call, issues, claims, step, given_out, issued, total, left, claims_bounded,
}

abbrev enrolment : Text
enrolment = text "r"

abbrev start : Access
unfolding create
start = create enrolment

abbrev issued_at : Access
issued_at = (issue 0 0 enrolment (text "id") 300 start).0

abbrev unlocked : Unlocked
unlocked = record { full_access_grant_id = text "id"; expires_at = 300000; duration_seconds = 300 }

abbrev claimed : Access
claimed = (claim 1 enrolment none issued_at).0

abbrev calls : List Call
calls =
    issues 0 0 enrolment (text "id") 300
    ∷ claims 1 enrolment (some (text "id"))
    ∷ claims 2 enrolment none
    ∷ claims 3 enrolment none
    ∷ []

authorize-ok_example :
    (id : Text) × (grant_id (text "id") ≡ grant_id id)
    × (enrolment ≡ claimed.last_revision)
    × (is_empty enrolment ≡ false)
    × (expires : ℕ) × (Dict.get id claimed.grants ≡ some expires)
    × (5 < expires)
unfolding is_allowed create follow_revision cleanup describe status issue recover take_pending
    claim_pending claim check_grant authorize_clean authorize IsRecoverable IsGranted step given_out
    issued total left start Dict.get Dict.set Dict.values Dict.retain Dict.delete
    codex_compatible_mcp.Base.Text.text_beq
authorize-ok_example = authorize-ok 4 5 enrolment (grant_id (text "id")) claimed (refl, tt) refl

claim-authorize_example :
    (authorize 4 5 enrolment (grant_id (text "id")) (claim 1 enrolment none issued_at).0).1
    ≡ ok true
unfolding is_allowed create follow_revision cleanup describe status issue recover take_pending
    claim_pending claim check_grant authorize_clean authorize IsRecoverable IsGranted step given_out
    issued total left Dict.get Dict.set Dict.values Dict.retain Dict.delete
    codex_compatible_mcp.Base.Text.text_beq
claim-authorize_example =
    claim-authorize 1 enrolment none issued_at unlocked (record { distinct = tt; recoverable = tt })
      refl 4 5 (omega arith) (omega arith)

claims_bounded_example : total given_out calls start ≤ left start + 2 * total issued calls start
claims_bounded_example = claims_bounded calls start

-- A claim by id leaves one recovery, and no more.
given_out_test : total given_out calls start ≡ 2
unfolding is_allowed create follow_revision cleanup describe status issue recover take_pending
    claim_pending claim check_grant authorize_clean authorize IsRecoverable IsGranted step given_out
    issued total left Dict.get Dict.set Dict.values Dict.retain Dict.delete
    codex_compatible_mcp.Base.Text.text_beq
given_out_test = refl
