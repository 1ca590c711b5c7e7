-- ===== src/Access/Unlock.antt =====
-- src/controller/web-full-access.mjs: the class WebFullAccess. Each reading of the clock, of the
-- enrolment's revision and each random identifier is an argument; audit calls are left out.
use codex_compatible_mcp.Base.{
  ℕ, ◌+◌, ◌*◌, min, Bool, true, false, not, ◌||◌, Option, none, some, List, [], ◌∷◌, leb, nat_beq,
  any, is_empty, if◌then◌else◌, ◌==◌, Outcome, ok, err,
}
use codex_compatible_mcp.Base.Text.{Text, text_eq}
use codex_compatible_mcp.Base.Dict
use codex_compatible_mcp.Base.Dict.{Dict}

pub record Pending : Type 0 where
  pub id : Text
  pub duration_seconds : ℕ
  pub expires : ℕ
  pub claim_expires : ℕ

pub record Recovery : Type 0 where
  pub id : Text
  pub expires : ℕ
  pub duration_seconds : ℕ
  pub recover_expires : ℕ

-- `grants` holds when each grant expires.
pub record Access : Type 0 where
  pub last_revision : Text
  pub pending : Option Pending
  pub recovery : Option Recovery
  pub grants : Dict Text ℕ

pub data AccessError : Type 0 where
  not_confirmed invalid_duration unknown_grant : AccessError

abbrev pub claim_window_ms : ℕ
claim_window_ms = 300000

abbrev allowed_seconds : List ℕ
allowed_seconds = 60 ∷ 300 ∷ 1800 ∷ 3600 ∷ 21600 ∷ 86400 ∷ 604800 ∷ []

unfoldable pub is_allowed : ℕ → Bool
is_allowed seconds = any (nat_beq seconds) allowed_seconds

unfoldable pub create : Text → Access
create revision = record { last_revision = revision; pending = none; recovery = none; grants = [] }

unfoldable pub follow_revision : Text → Access → Access
follow_revision revision a =
    if revision == a.last_revision
    then a
    else record { last_revision = revision; pending = none; recovery = none; grants = [] }

abbrev pub live_pending : ℕ → Option Pending → Option Pending
live_pending now none = none
live_pending now (some p) = if leb p.claim_expires now then none else some p

abbrev pub live_recovery : ℕ → Dict Text ℕ → Option Recovery → Option Recovery
live_recovery now grants none = none
live_recovery now grants (some r) =
    if leb r.recover_expires now || not (Dict.has r.id grants) then none else some r

abbrev pub live_grants : ℕ → Dict Text ℕ → Dict Text ℕ
live_grants now grants = Dict.retain (λ id expires. not (leb expires now)) grants

unfoldable pub cleanup : ℕ → Text → Access → Access
unfolding follow_revision
cleanup now revision a0 =
    let a = follow_revision revision a0 in
    let grants = live_grants now a.grants in
    record a {
      pending = live_pending now a.pending;
      grants = grants;
      recovery = live_recovery now grants a.recovery;
    }

pub record Unlocked : Type 0 where
  pub full_access_grant_id : Text
  pub expires_at : ℕ
  pub duration_seconds : ℕ

-- What `describe` shows: the pending grant, or that there is none.
unfoldable pub describe : Access → Option Pending
describe a = a.pending

unfoldable pub status : ℕ → Text → Access → Access × Option Pending
status now revision a0 = let a = cleanup now revision a0 in (a, describe a)

-- `cleaned_at` and `now` are the two readings of the clock; the result says whether a grant was issued.
unfoldable pub issue :
    (cleaned_at now : ℕ)
    → Text
    → Text
    → ℕ
    → Access
    → Access × Outcome AccessError (Bool × Option Pending)
issue cleaned_at now revision id seconds a0 =
    let a = cleanup cleaned_at revision a0 in
    let new : Pending = record {
      id = id;
      duration_seconds = seconds;
      expires = now + seconds * 1000;
      claim_expires = min (now + claim_window_ms) (now + seconds * 1000);
    } in
    if is_empty a.last_revision
    then (a, err not_confirmed)
    else (if not (is_allowed seconds) then (a, err invalid_duration) else elim a.pending [
      | some p ↦ (a, ok (false, some p))
      | none ↦ (record a { recovery = none; pending = some new }, ok (true, some new))
    ])

unfoldable pub recover : Option Recovery → Access → Access × Option Unlocked
recover none a = (a, none)
recover (some r) a = (
  record a { recovery = none },
  some (record {
    full_access_grant_id = r.id;
    expires_at = r.expires;
    duration_seconds = r.duration_seconds;
  }),
)

-- Moves the pending grant to the grants; a claim that names it leaves a recovery.
unfoldable pub take_pending : Bool → Pending → Access → Access × Option Unlocked
take_pending named p a = (
  record a {
    pending = none;
    grants = Dict.set p.id p.expires a.grants;
    recovery =
        if named
        then some (record {
          id = p.id;
          expires = p.expires;
          duration_seconds = p.duration_seconds;
          recover_expires = p.claim_expires;
        })
        else none;
  },
  some (record {
    full_access_grant_id = p.id;
    expires_at = p.expires;
    duration_seconds = p.duration_seconds;
  }),
)

unfoldable pub claim_pending : Option Text → Option Pending → Access → Access × Option Unlocked
unfolding recover take_pending
claim_pending none none a = recover a.recovery a
claim_pending (some expected) none a = (a, none)
claim_pending none (some p) a = take_pending false p a
claim_pending (some expected) (some p) a =
    if expected == p.id then take_pending true p a else (a, none)

unfoldable pub claim : ℕ → Text → Option Text → Access → Access × Option Unlocked
unfolding claim_pending
claim now revision expected a0 =
    let a = cleanup now revision a0 in
    if is_empty a.last_revision then (a, none) else claim_pending expected a.pending a

-- `undefined`, `null`, a text, or a value of another type.
pub data GrantId : Type 0 where
  no_grant other_value : GrantId
  grant_id : Text → GrantId

unfoldable pub check_grant : ℕ → Option ℕ → Outcome AccessError Bool
check_grant now none = err unknown_grant
check_grant now (some expires) = if leb expires now then err unknown_grant else ok true

unfoldable pub authorize_clean : ℕ → GrantId → Access → Outcome AccessError Bool
unfolding check_grant
authorize_clean now no_grant a = ok false
authorize_clean now other_value a =
    if is_empty a.last_revision then err not_confirmed else check_grant now none
authorize_clean now (grant_id id) a =
    if is_empty a.last_revision then err not_confirmed else check_grant now (Dict.get id a.grants)

abbrev pub is_given : GrantId → Bool
is_given no_grant = false
is_given other_value = true
is_given (grant_id id) = true

unfoldable pub authorize :
    (cleaned_at now : ℕ) → Text → GrantId → Access → Access × Outcome AccessError Bool
unfolding authorize_clean
authorize cleaned_at now revision grant a0 =
    if not (is_given grant)
    then (a0, ok false)
    else (let a = cleanup cleaned_at revision a0 in (a, authorize_clean now grant a))
