-- ===== src/Approval/Intents.antt =====
-- src/controller/approval-manager.mjs: what is frozen when a request is made, how a field is read
-- from an intent or an action of either kind, and what a client is shown of a request.
use codex_compatible_mcp.Base.{ℕ, Bool, Option, none, some, List, is_empty, if◌then◌else◌}
use codex_compatible_mcp.Base.Text.{Text, text}
use codex_compatible_mcp.Approval.Types.{
  State, Kind, execution, workspace, WorkspaceIntent, Intent, to_execute, to_access, Action,
  execute, access, Request,
}

-- The arguments of `exec_command` that an approval keeps.
pub record ExecutionArgs : Type 0 where
  pub cmd : Text
  pub workdir : Option Text
  pub tty : Bool
  pub shell : Option Text
  pub prefix_rule : Option (List Text)
  pub policy_kind : Option Text
  pub policy_persistable : Bool
  pub workspace_handle : Option Text
  pub yield_time_ms : Option ℕ
  pub max_output_tokens : Option ℕ
  pub justification : Option Text

pub record WorkspaceArgs : Type 0 where
  pub environment_id : Text
  pub workspace_id : Option Text
  pub workspace_root : Option Text
  pub workspace_created_at : Option Text
  pub create_if_missing : Bool

-- The workspace that a handle names, as far as it is known.
pub record WorkspaceRef : Type 0 where
  pub workspace_id : Option Text
  pub workspace_kind : Option Text
  pub workspace_root : Option Text

-- `value || fallback` on a text: the empty text is false.
abbrev pub or_text : Option Text → Text → Text
or_text none d = d
or_text (some s) d = if is_empty s then d else s

-- `value || null`.
abbrev pub truthy : Option Text → Option Text
truthy none = none
truthy (some s) = if is_empty s then none else some s

-- `String(value)` where the value may be missing.
abbrev string_of : Option Text → Text
string_of none = text "undefined"
string_of (some s) = s

unfoldable pub intent_for : ExecutionArgs → Text → Intent
intent_for args environment_id = to_execute (record {
  environment_id = environment_id;
  cmd = args.cmd;
  workdir = args.workdir;
  tty = args.tty;
  shell = args.shell;
  prefix_rule = args.prefix_rule;
  policy_kind = args.policy_kind;
  policy_persistable = args.policy_persistable;
  workspace_handle = args.workspace_handle;
  yield_time_ms = args.yield_time_ms;
  max_output_tokens = args.max_output_tokens;
})

unfoldable pub workspace_intent_for : Text → WorkspaceArgs → WorkspaceIntent
workspace_intent_for operation args = record {
  operation = operation;
  environment_id = args.environment_id;
  workspace_id = args.workspace_id;
  workspace_root = args.workspace_root;
  workspace_created_at = args.workspace_created_at;
  create_if_missing = args.create_if_missing;
}

unfoldable pub frozen_execution_action : ExecutionArgs → Text → WorkspaceRef → Action
frozen_execution_action args environment_id ws = execute (record {
  workspace_handle = string_of args.workspace_handle;
  environment_id = environment_id;
  workspace_id = ws.workspace_id;
  workspace_kind = ws.workspace_kind;
  workspace_root = ws.workspace_root;
  cmd = args.cmd;
  workdir = args.workdir;
  tty = args.tty;
  shell = args.shell;
  prefix_rule = args.prefix_rule;
  policy_kind = args.policy_kind;
  policy_persistable = args.policy_persistable;
  yield_time_ms = args.yield_time_ms;
  max_output_tokens = args.max_output_tokens;
})

abbrev pub intent_environment_id : Intent → Text
intent_environment_id (to_execute i) = i.environment_id
intent_environment_id (to_access i) = i.environment_id

abbrev pub intent_operation : Intent → Option Text
intent_operation (to_execute i) = none
intent_operation (to_access i) = some i.operation

abbrev pub intent_workspace_handle : Intent → Option Text
intent_workspace_handle (to_execute i) = i.workspace_handle
intent_workspace_handle (to_access i) = none

abbrev pub intent_workspace_id : Intent → Option Text
intent_workspace_id (to_execute i) = none
intent_workspace_id (to_access i) = i.workspace_id

abbrev pub action_workspace_id : Action → Option Text
action_workspace_id (execute a) = a.workspace_id
action_workspace_id (access a) = a.workspace_id

-- `action.workspace_id || intent.workspace_id || undefined`.
abbrev pub audited_workspace_id : Option Text → Option Text → Option Text
audited_workspace_id a b = elim (truthy a) [ some s ↦ some s | none ↦ truthy b ]

pub record PublicExecution : Type 0 where
  pub command : Text
  pub workdir : Option Text
  pub tty : Bool
  pub shell : Option Text
  pub prefix_rule : Option (List Text)
  pub policy_kind : Option Text
  pub policy_persistable : Bool
  pub workspace_handle : Option Text
  pub workspace_id : Option Text
  pub workspace_kind : Option Text
  pub workspace_root : Option Text

pub record PublicWorkspace : Type 0 where
  pub operation : Text
  pub workspace_id : Option Text
  pub workspace_root : Option Text
  pub workspace_created_at : Option Text
  pub create_if_missing : Bool

pub data PublicDetails : Type 0 where
  of_execution : PublicExecution → PublicDetails
  of_workspace : PublicWorkspace → PublicDetails
  -- The intent is not of the request's kind, which no request of the manager is.
  of_neither : PublicDetails

pub record PublicRequest : Type 0 where
  pub approval_id : Text
  pub operation_id : Text
  pub state : State
  pub kind : Kind
  pub environment_id : Text
  pub justification : Text
  pub expires_at : ℕ
  pub intent_sha256 : Text
  pub details : PublicDetails

abbrev action_workspace : Action → WorkspaceRef
action_workspace (execute a) = record {
  workspace_id = truthy a.workspace_id;
  workspace_kind = truthy a.workspace_kind;
  workspace_root = truthy a.workspace_root;
}
action_workspace (access a) = record {
  workspace_id = truthy a.workspace_id;
  workspace_kind = none;
  workspace_root = truthy a.workspace_root;
}

public_details : Kind → Intent → WorkspaceRef → PublicDetails
public_details workspace (to_access i) ws = of_workspace (record {
  operation = i.operation;
  workspace_id = i.workspace_id;
  workspace_root = i.workspace_root;
  workspace_created_at = truthy i.workspace_created_at;
  create_if_missing = i.create_if_missing;
})
public_details execution (to_execute i) ws = of_execution (record {
  command = i.cmd;
  workdir = i.workdir;
  tty = i.tty;
  shell = i.shell;
  prefix_rule = i.prefix_rule;
  policy_kind = i.policy_kind;
  policy_persistable = i.policy_persistable;
  workspace_handle = i.workspace_handle;
  workspace_id = ws.workspace_id;
  workspace_kind = ws.workspace_kind;
  workspace_root = ws.workspace_root;
})
public_details workspace (to_execute i) ws = of_neither
public_details execution (to_access i) ws = of_neither

unfoldable pub public_request : Request → PublicRequest
unfolding public_details
public_request r = record {
  approval_id = r.approval_id;
  operation_id = r.operation_id;
  state = r.state;
  kind = r.kind;
  environment_id = intent_environment_id r.intent;
  justification = r.justification;
  expires_at = r.expires_at;
  intent_sha256 = r.intent_hash;
  details = public_details r.kind r.intent (action_workspace r.action);
}
