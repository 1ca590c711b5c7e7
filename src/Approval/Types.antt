-- ===== src/Approval/Types.antt =====
-- src/controller/approval-manager.mjs: the objects that the manager keeps. `null` and `undefined`
-- are `none`; a time is a number of milliseconds.
use codex_compatible_mcp.Base.{ℕ, Bool, Option, List}
use codex_compatible_mcp.Base.Text.{Text}

pub data State : Type 0 where
  pending approved_retryable dispatching consumed denied execution_unknown : State

pub data Kind : Type 0 where
  execution workspace : Kind

-- What `intentFor` returns.
pub record ExecutionIntent : Type 0 where
  pub environment_id : Text
  pub cmd : Text
  pub workdir : Option Text
  pub tty : Bool
  pub shell : Option Text
  pub prefix_rule : Option (List Text)
  pub policy_kind : Option Text
  pub policy_persistable : Bool
  pub workspace_handle : Option Text
  pub yield_time_ms : Option ℕ
  pub max_output_tokens : Option ℕ

-- What `workspaceIntentFor` returns.
pub record WorkspaceIntent : Type 0 where
  pub operation : Text
  pub environment_id : Text
  pub workspace_id : Option Text
  pub workspace_root : Option Text
  pub workspace_created_at : Option Text
  pub create_if_missing : Bool

pub data Intent : Type 0 where
  to_execute : ExecutionIntent → Intent
  to_access : WorkspaceIntent → Intent

-- What `frozenExecutionAction` returns.
pub record ExecutionAction : Type 0 where
  pub workspace_handle : Text
  pub environment_id : Text
  pub workspace_id : Option Text
  pub workspace_kind : Option Text
  pub workspace_root : Option Text
  pub cmd : Text
  pub workdir : Option Text
  pub tty : Bool
  pub shell : Option Text
  pub prefix_rule : Option (List Text)
  pub policy_kind : Option Text
  pub policy_persistable : Bool
  pub yield_time_ms : Option ℕ
  pub max_output_tokens : Option ℕ

pub data Action : Type 0 where
  execute : ExecutionAction → Action
  access : WorkspaceIntent → Action

pub record Request : Type 0 where
  pub approval_id : Text
  pub operation_id : Text
  pub state : State
  pub kind : Kind
  pub intent : Intent
  pub intent_hash : Text
  pub action : Action
  pub justification : Text
  pub created_at : ℕ
  pub expires_at : ℕ
  pub approval_nonce_hash : Option Text
  pub host_session : Option Text
  pub app_bound_at : Option ℕ
  pub approved_at : Option ℕ
  pub dispatch_started_at : Option ℕ
  pub responded_at : Option ℕ
  pub consumed_at : Option ℕ
  pub retryable_at : Option ℕ
  pub unknown_at : Option ℕ

-- SHA-256 is not part of the program: the digest of an intent's JSON text, and that of a secret in
-- hexadecimal digits.
pub record Digests : Type 0 where
  pub of_intent : Intent → Text
  pub of_secret : Text → Text

pub data Event : Type 0 where
  on_expired on_requested on_app_bound on_dispatching on_responded on_consumed : Event
  on_retryable on_unknown : Event

-- What `#emit` hands to the audit callback.
pub record AuditEntry : Type 0 where
  pub event : Event
  pub approval_id : Text
  pub operation_id : Text
  pub kind : Kind
  pub state : State
  pub environment_id : Text
  pub workspace_handle : Option Text
  pub workspace_id : Option Text
  pub intent_sha256 : Text
  pub decision_deny : Bool

pub data ApprovalError : Type 0 where
  unknown_approval not_app_execution not_app_workspace : ApprovalError
  cannot_present cannot_dispatch cannot_deny not_dispatching : State → ApprovalError
  already_bound nonce_invalid other_host_session capability_invalid : ApprovalError
