-- ===== src/Approval/Tests/Claims.antt =====
-- src/controller/approval-manager.mjs: claims of a card, and the theorems on claims at them.
use codex_compatible_mcp.Base.{
  ℕ, ◌+◌, ◌≡◌, ◌≢◌, refl, ◌⊎◌, inl, inr, Bool, true, false, Option, none, some, List, [], ◌∷◌,
  Outcome, ok, err,
}
use codex_compatible_mcp.Base.Text.{Text, text, text_eq}
use codex_compatible_mcp.Base.Dict
use codex_compatible_mcp.Approval.Types.{
  dispatching, unknown_approval, cannot_dispatch, nonce_invalid,
}
use codex_compatible_mcp.Approval.Receipts.{is_execution}
use codex_compatible_mcp.Approval.Manager.{
  Manager, default_approval_ttl_ms, default_terminal_retention_ms, normalize_positive_duration,
  create, audit_entry, emit, expires_unused, is_dispatching, terminal_at, is_expired, new_request,
  put_new, Draws, request_execution, request_workspace_action, find, change, get_request,
}
use codex_compatible_mcp.Approval.Cards.{
  secret_matches, check_card, start_dispatch, prepare_app_approval, claim_app_execution,
  claim_app_workspace,
}
use codex_compatible_mcp.Approval.Calls.{step}
use codex_compatible_mcp.Approval.Histories.{begin, next, Had}
use codex_compatible_mcp.Approval.Answers.{Claimed, claim_app_execution-Claimed}
use codex_compatible_mcp.Approval.Frozen.{Asked, claimed_action_was_requested}
use codex_compatible_mcp.Approval.Exclusion.{claimed_once}
use codex_compatible_mcp.Approval.Tests.{
  plain, draws, start, requesting, preparing, prepared, claimed, was_claimed, answer,
  prepared_history,
}

claimed_state : was_claimed.state ≡ dispatching
unfolding Dict.get step claim_app_execution change find codex_compatible_mcp.Approval.Manager.prune
    Dict.retain prepare_app_approval request_execution put_new emit Dict.values start Dict.set
    is_expired new_request normalize_positive_duration check_card secret_matches start_dispatch
    codex_compatible_mcp.Base.Text.text_beq
claimed_state = refl

-- A wrong secret, or a second claim, is refused.
wrong_secret :
    (claim_app_execution plain (draws 3) (text "a") (text "guess") none prepared).1
    ≡ err nonce_invalid
unfolding Dict.get step claim_app_execution change find codex_compatible_mcp.Approval.Manager.prune
    Dict.retain prepare_app_approval request_execution put_new emit Dict.values start Dict.set
    is_expired new_request normalize_positive_duration check_card secret_matches
    codex_compatible_mcp.Base.Text.text_beq
wrong_secret = refl

second_claim :
    (claim_app_execution plain (draws 4) (text "a") (text "secret") none claimed).1
    ≡ err (cannot_dispatch dispatching)
unfolding Dict.get step claim_app_execution change find codex_compatible_mcp.Approval.Manager.prune
    Dict.retain prepare_app_approval request_execution put_new emit Dict.values start Dict.set
    is_expired new_request normalize_positive_duration check_card secret_matches start_dispatch
    codex_compatible_mcp.Base.Text.text_beq
second_claim = refl

expired_claim :
    (claim_app_execution plain (draws 259200001) (text "a") (text "secret") none prepared).1
    ≡ err unknown_approval
unfolding Dict.get step claim_app_execution change find codex_compatible_mcp.Approval.Manager.prune
    Dict.retain prepare_app_approval request_execution put_new emit Dict.values start Dict.set
    is_expired new_request normalize_positive_duration codex_compatible_mcp.Base.Text.text_beq
expired_claim = refl

claimed_once_example :
    ((claim_app_execution plain
        (draws 5)
        (text "a")
        (text "secret")
        none
        (step plain (draws 4) preparing claimed)).1
      ≢ ok answer)
    × ((claim_app_workspace plain
          (draws 5)
          (text "a")
          (text "secret")
          none
          (step plain (draws 4) preparing claimed)).1
        ≢ ok answer)
unfolding Dict.get step claim_app_execution change find codex_compatible_mcp.Approval.Manager.prune
    Dict.retain prepare_app_approval request_execution put_new emit Dict.values start Dict.set
    is_expired new_request normalize_positive_duration check_card secret_matches
    codex_compatible_mcp.Base.Text.text_beq
claimed_once_example =
    claimed_once plain (draws 3) (text "a") (text "secret") (some (text "host")) prepared answer
      (refl, tt) refl (next begin (draws 4) preparing) ((λ x. x), tt) (draws 5) (text "secret") none
      answer

claim_app_execution-Claimed_example :
    Claimed plain
      (draws 3)
      (text "a")
      (text "secret")
      (some (text "host"))
      is_execution
      expires_unused
      prepared
      claimed
      answer
unfolding Dict.get step claim_app_execution change find codex_compatible_mcp.Approval.Manager.prune
    Dict.retain prepare_app_approval request_execution put_new emit Dict.values start Dict.set
    is_expired new_request normalize_positive_duration check_card secret_matches
    codex_compatible_mcp.Base.Text.text_beq
claim_app_execution-Claimed_example =
    claim_app_execution-Claimed plain (draws 3) (text "a") (text "secret") (some (text "host"))
      prepared answer refl

claimed_action_was_requested_example :
    Had (Asked (text "a") answer.1) ((draws 2, preparing) ∷ (draws 1, requesting) ∷ [])
unfolding Dict.get step claim_app_execution change find codex_compatible_mcp.Approval.Manager.prune
    Dict.retain prepare_app_approval request_execution put_new emit Dict.values start Dict.set
    is_expired new_request normalize_positive_duration check_card secret_matches
    codex_compatible_mcp.Base.Text.text_beq
claimed_action_was_requested_example =
    claimed_action_was_requested refl prepared_history (draws 3) (text "a") (text "secret")
      (some (text "host")) answer refl
