-- ===== src/Approval/Calls.antt =====
-- src/controller/approval-manager.mjs: a call of one of the manager's methods.
use codex_compatible_mcp.Base.{Option}
use codex_compatible_mcp.Base.Text.{Text}
use codex_compatible_mcp.Approval.Types.{Digests}
use codex_compatible_mcp.Approval.Intents.{ExecutionArgs, WorkspaceArgs, WorkspaceRef}
use codex_compatible_mcp.Approval.Receipts.{ActionResult}
use codex_compatible_mcp.Approval.Manager.{
  Manager, Draws, request_execution, request_workspace_action, get_request,
}
use codex_compatible_mcp.Approval.Cards.{
  prepare_app_approval, claim_app_execution, deny_app_execution, claim_app_workspace,
  deny_app_workspace, mark_app_workspace_consumed, mark_app_execution_consumed,
  mark_app_execution_retryable, mark_app_execution_unknown,
}
use codex_compatible_mcp.Approval.Status.{read_app_status, record_app_outcome}

pub data Call : Type 0 where
  requests_execution : ExecutionArgs → Text → WorkspaceRef → Call
  requests_workspace : Text → WorkspaceArgs → Option Text → Call
  gets : Text → Call
  reads : (id nonce : Text) → Option Text → Call
  records : Text → ActionResult → Call
  prepares : Text → Option Text → Call
  claims_execution denies_execution claims_workspace denies_workspace :
      (id nonce : Text) → Option Text → Call
  marks_workspace_consumed marks_consumed marks_retryable marks_unknown : Text → Call

unfoldable pub step : Digests → Draws → Call → Manager → Manager
step digests d (requests_execution args env ws) m = (request_execution digests d args env ws m).0
step digests d (requests_workspace op args why) m =
    (request_workspace_action digests d op args why m).0
step digests d (gets id) m = (get_request d.pruned_at id m).0
step digests d (reads id nonce host) m = (read_app_status digests d id nonce host m).0
step digests d (records id result) m = record_app_outcome d id result m
step digests d (prepares id host) m = (prepare_app_approval digests d id host m).0
step digests d (claims_execution id nonce host) m =
    (claim_app_execution digests d id nonce host m).0
step digests d (denies_execution id nonce host) m = (deny_app_execution digests d id nonce host m).0
step digests d (claims_workspace id nonce host) m =
    (claim_app_workspace digests d id nonce host m).0
step digests d (denies_workspace id nonce host) m = (deny_app_workspace digests d id nonce host m).0
step digests d (marks_workspace_consumed id) m = (mark_app_workspace_consumed d id m).0
step digests d (marks_consumed id) m = (mark_app_execution_consumed d id m).0
step digests d (marks_retryable id) m = (mark_app_execution_retryable d id m).0
step digests d (marks_unknown id) m = (mark_app_execution_unknown d id m).0
