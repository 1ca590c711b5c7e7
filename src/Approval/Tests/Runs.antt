-- ===== src/Approval/Tests/Runs.antt =====
-- src/controller/approval-manager.mjs: the theorems on runs of calls, at a card that is claimed or denied.
use codex_compatible_mcp.Base.{
  ℕ, ◌+◌, ◌≡◌, ◌≢◌, refl, ◌⊎◌, inl, inr, Bool, true, false, Option, none, some, List, [], ◌∷◌,
  Outcome, ok, err,
}
use codex_compatible_mcp.Base.Text.{Text, text, text_eq}
use codex_compatible_mcp.Base.Dict
use codex_compatible_mcp.Approval.Manager.{
  Manager, default_approval_ttl_ms, default_terminal_retention_ms, normalize_positive_duration,
  create, audit_entry, emit, expires_unused, is_dispatching, terminal_at, is_expired, new_request,
  put_new, Draws, request_execution, request_workspace_action, find, change, get_request,
}
use codex_compatible_mcp.Approval.Cards.{
  secret_matches, check_card, start_dispatch, prepare_app_approval, claim_app_execution,
  deny_app_execution,
}
use codex_compatible_mcp.Approval.Calls.{step}
use codex_compatible_mcp.Approval.Advances.{Advance}
use codex_compatible_mcp.Approval.Steps.{step_advances}
use codex_compatible_mcp.Approval.Histories.{Had}
use codex_compatible_mcp.Approval.Authority.{
  IsClaim, IsDenial, dispatched_was_claimed, denied_was_refused,
}
use codex_compatible_mcp.Approval.Tests.{
  plain, draws, start, requesting, preparing, claiming, denying, prepared, was_prepared,
  was_claimed, was_denied, claimed_history, denied_history,
}

dispatched_was_claimed_example :
    Had
      (IsClaim plain (text "a") was_claimed)
      ((draws 3, claiming) ∷ (draws 2, preparing) ∷ (draws 1, requesting) ∷ [])
unfolding Dict.get step claim_app_execution change find codex_compatible_mcp.Approval.Manager.prune
    Dict.retain prepare_app_approval request_execution put_new emit Dict.values start Dict.set
    is_expired new_request normalize_positive_duration check_card secret_matches start_dispatch
    codex_compatible_mcp.Base.Text.text_beq
dispatched_was_claimed_example =
    dispatched_was_claimed refl claimed_history (text "a") was_claimed refl refl

denied_was_refused_example :
    Had
      (IsDenial plain (text "a") was_denied)
      ((draws 3, denying) ∷ (draws 2, preparing) ∷ (draws 1, requesting) ∷ [])
unfolding Dict.get step change find codex_compatible_mcp.Approval.Manager.prune Dict.retain
    prepare_app_approval request_execution put_new emit Dict.values start Dict.set is_expired
    new_request normalize_positive_duration check_card deny_app_execution secret_matches
    codex_compatible_mcp.Base.Text.text_beq
denied_was_refused_example = denied_was_refused refl denied_history (text "a") was_denied refl refl

step_advances_example : (was_claimed ≡ was_prepared) ⊎ Advance was_prepared was_claimed
unfolding Dict.get step claim_app_execution change find codex_compatible_mcp.Approval.Manager.prune
    Dict.retain prepare_app_approval request_execution put_new emit Dict.values start Dict.set
    is_expired new_request normalize_positive_duration check_card secret_matches
    codex_compatible_mcp.Base.Text.text_beq
step_advances_example =
    step_advances plain (draws 3) prepared (text "a") was_prepared was_claimed claiming (refl, tt)
      (λ x. x) refl refl
