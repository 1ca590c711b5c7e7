-- ===== src/Inputs/Manager.antt =====
-- src/controller/verification-input-manager.mjs: the class VerificationInputManager. `submit` awaits
-- the process manager, so it is cut in two there; what the process manager answers is an argument. A
-- snapshot, which leaves out some fields of a request, is the request itself.
use codex_compatible_mcp.Base.{
  ℕ, ◌+◌, Bool, true, false, not, ◌&&◌, ◌||◌, Option, none, some, List, [], ◌∷◌, is_empty, ltb,
  take, if◌then◌else◌, ◌==◌, Outcome, ok, err,
}
use codex_compatible_mcp.Base.Text.{Text, text_eq}
use codex_compatible_mcp.Base.Dict
use codex_compatible_mcp.Base.Dict.{Dict}

pub data State : Type 0 where
  pending unavailable sending delivered unknown : State

pub record Request : Type 0 where
  pub id : Text
  pub session_id : ℕ
  pub workspace_handle : Text
  pub environment_id : Text
  pub workspace_id : Text
  pub label : Text
  pub host_session : Option Text
  pub state : State
  pub session_running : Option Bool
  pub exit_code : Option ℕ
  pub created_at : ℕ

-- `sent` holds the values that were handed to the process manager, the latest first, each with the
-- request that it was for.
pub record Manager : Type 0 where
  pub requests : Dict Text Request
  pub sent : List (Text × Text)

pub data InputError : Type 0 where
  no_card other_host_session no_live_session : InputError

-- Four hours.
abbrev pub card_ms : ℕ
card_ms = 14400000

abbrev pub is_young : ℕ → Text → Request → Bool
is_young now id r = not (ltb (r.created_at + card_ms) now)

unfoldable pub prune : ℕ → Manager → Manager
prune now m = record m { requests = Dict.retain (is_young now) m.requests }

abbrev pub is_foreign : Option Text → Option Text → Bool
is_foreign none host = false
is_foreign (some own) none = false
is_foreign (some own) (some host) = not (is_empty own) && not (is_empty host) && not (own == host)

-- `#get`, on a table that is pruned.
unfoldable pub get : Text → Option Text → Manager → Outcome InputError Request
get id host_session m = elim (Dict.get id m.requests) [
  | none ↦ err no_card
  | some r ↦ if is_foreign r.host_session host_session then err other_host_session else ok r
]

pub record Session : Type 0 where
  pub workspace_handle : Text
  pub environment_id : Text
  pub workspace_id : Text

abbrev pub new_request : Text → ℕ → Text → Session → Text → Option Text → ℕ → Request
new_request id session_id workspace_handle session label host_session now = record {
  id = id;
  session_id = session_id;
  workspace_handle = workspace_handle;
  environment_id = session.environment_id;
  workspace_id = session.workspace_id;
  label = take 100 label;
  host_session = host_session;
  state = pending;
  session_running = none;
  exit_code = none;
  created_at = now;
}

unfoldable pub put : Request → Manager → Manager
put r m = record m { requests = Dict.set r.id r m.requests }

-- The session's metadata, and whether it is live in this workspace.
unfoldable pub create :
    (pruned_at now : ℕ)
    → Text
    → Option Session
    → Bool
    → Text
    → ℕ
    → Text
    → Option Text
    → Manager
    → Manager × Outcome InputError Request
unfolding prune put
create pruned_at now id none is_session_live workspace_handle session_id label host_session m =
    (prune pruned_at m, err no_live_session)
create pruned_at now id (some session) is_session_live workspace_handle session_id label
      host_session m =
    if not (session.workspace_handle == workspace_handle) || not is_session_live
    then (prune pruned_at m, err no_live_session)
    else (
      put (new_request id session_id workspace_handle session label host_session now)
          (prune pruned_at m),
      ok (new_request id session_id workspace_handle session label host_session now),
    )

abbrev pub is_pending : State → Bool
is_pending pending = true
is_pending _ = false

abbrev pub with_state : State → Request → Request
with_state s r = record r { state = s }

abbrev pub checked : Bool → Request → Request
checked is_session_live r =
    if is_pending r.state && not is_session_live then with_state unavailable r else r

-- A request that changes in its place in the table.
unfoldable pub overwrite : Text → Request → Manager → Manager
overwrite id r m = record m { requests = Dict.set id r m.requests }

unfoldable pub status :
    ℕ → Text → Option Text → Bool → Manager → Manager × Outcome InputError Request
unfolding prune get overwrite
status now id host_session is_session_live m0 =
    let m = prune now m0 in
    elim (get id host_session m) [
      | err e ↦ (m, err e)
      | ok r ↦ (overwrite id (checked is_session_live r) m, ok (checked is_session_live r))
    ]

-- What `submit` does with the request before it awaits the process manager, if it gets that far.
unfoldable pub send : Text → Text → Bool → Request → Manager → Manager × Outcome InputError Request
unfolding overwrite
send id value is_session_live r m =
    if not (is_pending r.state)
    then (m, ok r)
    else (if not is_session_live
        then (overwrite id (with_state unavailable r) m, ok (with_state unavailable r))
        else (
          record (overwrite id (with_state sending r) m) { sent = (id, value) ∷ m.sent },
          ok (with_state sending r),
        ))

unfoldable pub submit :
    ℕ → Text → Text → Option Text → Bool → Manager → Manager × Outcome InputError Request
unfolding prune get send
submit now id value host_session is_session_live m0 =
    let m = prune now m0 in
    elim (get id host_session m) [ err e ↦ (m, err e) | ok r ↦ send id value is_session_live r m ]

-- The answer of the process manager: whether the session still runs and its exit code, or a failure.
pub data Reply : Type 0 where
  failed : Reply
  written : Bool → Option ℕ → Reply

abbrev pub or_kept : Option ℕ → Option ℕ → Option ℕ
or_kept none old = old
or_kept (some n) old = some n

unfoldable pub settled : Reply → Request → Request
settled failed r = with_state unknown r
settled (written running code) r = record r {
  state = delivered;
  session_running = some running;
  exit_code = or_kept code r.exit_code;
}

-- The end of `submit`, on the request if the table still has it.
unfoldable pub settle : Text → Reply → Manager → Manager
unfolding settled overwrite
settle id reply m = elim (Dict.get id m.requests) [
  | none ↦ m
  | some r ↦ overwrite id (settled reply r) m
]

unfoldable pub close : Manager → Manager
close m = record m { requests = [] }
