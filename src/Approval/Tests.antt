-- ===== src/Approval/Tests.antt =====
-- src/controller/approval-manager.mjs: runs on concrete requests, and the theorems at such runs.
mod Claims
mod Runs
use codex_compatible_mcp.Base.{
  ℕ, ◌+◌, ◌≡◌, ◌≢◌, refl, ◌⊎◌, inl, inr, Bool, true, false, Option, none, some, List, [], ◌∷◌,
  Outcome, ok, err,
}
use codex_compatible_mcp.Base.Text.{Text, text, text_eq}
use codex_compatible_mcp.Base.Dict
use codex_compatible_mcp.Approval.Types.{
  dispatching, execution, Action, Request, Digests, ApprovalError, unknown_approval,
  cannot_dispatch, nonce_invalid,
}
use codex_compatible_mcp.Approval.Intents.{
  ExecutionArgs, WorkspaceArgs, WorkspaceRef, intent_for, workspace_intent_for,
  frozen_execution_action, PublicRequest, public_request,
}
use codex_compatible_mcp.Approval.Receipts.{is_execution, is_workspace}
use codex_compatible_mcp.Approval.Manager.{
  Manager, default_approval_ttl_ms, default_terminal_retention_ms, normalize_positive_duration,
  create, audit_entry, emit, expires_unused, is_dispatching, terminal_at, is_expired, new_request,
  put_new, Draws, request_execution, request_workspace_action, find, change, get_request,
}
use codex_compatible_mcp.Approval.Cards.{
  is_pending, secret_matches, check_card, start_dispatch, prepare_app_approval, claim_app_execution,
  deny_app_execution, claim_app_workspace, check_dispatched,
}
use codex_compatible_mcp.Approval.Calls.{
  Call, requests_execution, requests_workspace, prepares, claims_execution, denies_execution,
  claims_workspace, step,
}
use codex_compatible_mcp.Approval.Changes.{Change}
use codex_compatible_mcp.Approval.Advances.{Advance}
use codex_compatible_mcp.Approval.Fates.{Fate}
use codex_compatible_mcp.Approval.Steps.{step-Fate, step_advances}
use codex_compatible_mcp.Approval.Origins.{Origin, step-Origin}
use codex_compatible_mcp.Approval.Histories.{History, begin, next, Had}
use codex_compatible_mcp.Approval.Authority.{
  IsClaim, IsDenial, IsBinding, dispatched_was_claimed, denied_was_refused, card_was_prepared,
}
use codex_compatible_mcp.Approval.Answers.{
  Claimed, claim_app_execution-Claimed, claim_app_workspace-Claimed,
}
use codex_compatible_mcp.Approval.Exclusion.{claimed_once}

-- Digests that leave a secret as it is.
abbrev plain : Digests
plain = record { of_intent = λ i. []; of_secret = λ s. s }

abbrev draws : ℕ → Draws
draws now = record {
  approval_id = text "a";
  operation_id = text "o";
  approval_nonce = text "secret";
  pruned_at = now;
  first_at = now;
  second_at = now;
}

abbrev args : ExecutionArgs
args = record {
  cmd = text "ls";
  workdir = none;
  tty = false;
  shell = none;
  prefix_rule = none;
  policy_kind = none;
  policy_persistable = false;
  workspace_handle = none;
  yield_time_ms = none;
  max_output_tokens = none;
  justification = none;
}

abbrev nowhere : WorkspaceRef
nowhere = record { workspace_id = none; workspace_kind = none; workspace_root = none }

abbrev workspace_args : WorkspaceArgs
workspace_args = record {
  environment_id = text "e";
  workspace_id = none;
  workspace_root = none;
  workspace_created_at = none;
  create_if_missing = false;
}

abbrev start : Manager
unfolding create
start = create none none false none

abbrev requesting : Call
requesting = requests_execution args (text "e") nowhere

abbrev requesting_workspace : Call
requesting_workspace = requests_workspace (text "open") workspace_args none

abbrev preparing : Call
preparing = prepares (text "a") (some (text "host"))

abbrev claiming : Call
claiming = claims_execution (text "a") (text "secret") (some (text "host"))

abbrev claiming_workspace : Call
claiming_workspace = claims_workspace (text "a") (text "secret") (some (text "host"))

abbrev denying : Call
denying = denies_execution (text "a") (text "secret") (some (text "host"))

abbrev requested : Manager
requested = step plain (draws 1) requesting start

abbrev prepared : Manager
prepared = step plain (draws 2) preparing requested

abbrev claimed : Manager
claimed = step plain (draws 3) claiming prepared

abbrev denied_at : Manager
denied_at = step plain (draws 3) denying prepared

abbrev workspace_prepared : Manager
workspace_prepared =
    step plain (draws 2) preparing (step plain (draws 1) requesting_workspace start)

abbrev workspace_claimed : Manager
workspace_claimed = step plain (draws 3) claiming_workspace workspace_prepared

abbrev the_request : Manager → Request → Request
the_request m d = elim (Dict.get (text "a") m.requests) [ none ↦ d | some r ↦ r ]

abbrev dummy : Request
unfolding create
dummy =
    new_request plain (text "a") (text "o") execution (intent_for args (text "e"))
      (frozen_execution_action args (text "e") nowhere) (text "why") 0 0

abbrev was_prepared : Request
was_prepared = the_request prepared dummy

abbrev was_claimed : Request
was_claimed = the_request claimed dummy

abbrev was_denied : Request
was_denied = the_request denied_at dummy

abbrev workspace_was_prepared : Request
workspace_was_prepared = the_request workspace_prepared dummy

abbrev answer_of : Manager × Outcome ApprovalError (PublicRequest × Action) → PublicRequest × Action
answer_of (m, ok a) = a
answer_of (m, err e) = (public_request dummy, dummy.action)

abbrev answer : PublicRequest × Action
answer =
    answer_of
      (claim_app_execution plain (draws 3) (text "a") (text "secret") (some (text "host")) prepared)

abbrev workspace_answer : PublicRequest × Action
workspace_answer = answer_of (
    claim_app_workspace plain (draws 3) (text "a") (text "secret") (some (text "host"))
      workspace_prepared)

abbrev prepared_history :
    History plain start ((draws 2, preparing) ∷ (draws 1, requesting) ∷ []) prepared
prepared_history = next (next begin (draws 1) requesting) (draws 2) preparing

abbrev claimed_history :
    History plain start
      ((draws 3, claiming) ∷ (draws 2, preparing) ∷ (draws 1, requesting) ∷ [])
      claimed
claimed_history = next prepared_history (draws 3) claiming

abbrev denied_history :
    History plain start
      ((draws 3, denying) ∷ (draws 2, preparing) ∷ (draws 1, requesting) ∷ [])
      denied_at
denied_history = next prepared_history (draws 3) denying
