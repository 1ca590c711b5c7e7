-- ===== src/Approval/Manager.antt =====
-- src/controller/approval-manager.mjs: the class ApprovalManager. A method returns the new manager
-- with its result or the error that it throws: what it did before it throws stays done. Each reading
-- of the clock and each random identifier is an argument.
use codex_compatible_mcp.Base.{
  ℕ, ◌+◌, Bool, true, false, not, ◌&&◌, ◌||◌, Option, none, some, List, [], ◌∷◌, ◌++◌, ltb, leb,
  if◌then◌else◌, Outcome, ok, err, ◌>>=◌,
}
use codex_compatible_mcp.Base.Text.{Text, text, text_eq}
use codex_compatible_mcp.Base.Dict
use codex_compatible_mcp.Base.Dict.{Dict}
use codex_compatible_mcp.Approval.Types.{
  State, pending, approved_retryable, dispatching, Kind, execution, workspace, Intent, to_access,
  Action, access, Request, Digests, Event, on_expired, on_requested, AuditEntry, ApprovalError,
  unknown_approval,
}
use codex_compatible_mcp.Approval.Intents.{
  ExecutionArgs, WorkspaceArgs, WorkspaceRef, or_text, truthy, intent_for, workspace_intent_for,
  frozen_execution_action, intent_environment_id, intent_workspace_handle, intent_workspace_id,
  action_workspace_id, audited_workspace_id, PublicRequest, public_request,
}
use codex_compatible_mcp.Approval.Receipts.{Store}

pub record Manager : Type 0 where
  pub ttl_ms : ℕ
  pub terminal_retention_ms : ℕ
  pub requests : Dict Text Request
  pub receipt_store : Option Store
  -- Whether there is an audit callback, and what it was called with.
  pub audited : Bool
  pub log : List AuditEntry

abbrev pub default_approval_ttl_ms : ℕ
default_approval_ttl_ms = 259200000

abbrev pub default_terminal_retention_ms : ℕ
default_terminal_retention_ms = 300000

-- A value that is no number is `none`.
unfoldable pub normalize_positive_duration : Option ℕ → ℕ → ℕ
normalize_positive_duration none fallback = fallback
normalize_positive_duration (some v) fallback = if ltb 0 v then v else fallback

unfoldable pub create : Option ℕ → Option ℕ → Bool → Option Store → Manager
create ttl_ms terminal_retention_ms audited store = record {
  ttl_ms = normalize_positive_duration ttl_ms default_approval_ttl_ms;
  terminal_retention_ms =
      normalize_positive_duration terminal_retention_ms default_terminal_retention_ms;
  requests = [];
  receipt_store = store;
  audited = audited;
  log = [];
}

unfoldable pub audit_entry : Event → Bool → Request → AuditEntry
audit_entry event decision_deny r = record {
  event = event;
  approval_id = r.approval_id;
  operation_id = r.operation_id;
  kind = r.kind;
  state = r.state;
  environment_id = intent_environment_id r.intent;
  workspace_handle = truthy (intent_workspace_handle r.intent);
  workspace_id = audited_workspace_id (action_workspace_id r.action) (intent_workspace_id r.intent);
  intent_sha256 = r.intent_hash;
  decision_deny = decision_deny;
}

unfoldable pub emit : Event → Bool → Request → Manager → Manager
emit event deny r m =
    if m.audited then record m { log = m.log ++ audit_entry event deny r ∷ [] } else m

-- Expiry.
abbrev pub expires_unused : State → Bool
expires_unused pending = true
expires_unused approved_retryable = true
expires_unused _ = false

abbrev pub is_dispatching : State → Bool
is_dispatching dispatching = true
is_dispatching _ = false

-- `value ?? fallback`.
abbrev or_time : Option ℕ → ℕ → ℕ
or_time none d = d
or_time (some t) d = t

abbrev pub terminal_at : Request → ℕ
terminal_at r = or_time r.consumed_at (or_time r.unknown_at (or_time r.responded_at r.expires_at))

unfoldable pub is_expired : ℕ → ℕ → Request → Bool
is_expired retention now r =
    (expires_unused r.state && leb r.expires_at now)
    || (not (expires_unused r.state)
        && not (is_dispatching r.state)
        && leb (terminal_at r + retention) now)

emit_expired : ℕ → ℕ → List Request → Manager → Manager
emit_expired retention now [] m = m
emit_expired retention now (r ∷ rs) m =
    emit_expired retention now rs
      (if is_expired retention now r then emit on_expired false r m else m)

unfoldable pub prune : ℕ → Manager → Manager
unfolding emit_expired
prune now m = record (emit_expired m.terminal_retention_ms now (Dict.values m.requests) m) {
  requests = Dict.retain (λ id r. not (is_expired m.terminal_retention_ms now r)) m.requests;
}

-- Requests.
abbrev default_execution_justification : Text
default_execution_justification =
    text "Allow this command to run once with full-access outside the CCM sandbox?"

abbrev default_workspace_justification : Text
default_workspace_justification = text "Allow CCM to access this registered workspace?"

unfoldable pub new_request : Digests → Text → Text → Kind → Intent → Action → Text → ℕ → ℕ → Request
new_request digests approval_id operation_id kind intent action justification created_at ttl =
    record {
      approval_id = approval_id;
      operation_id = operation_id;
      state = pending;
      kind = kind;
      intent = intent;
      intent_hash = digests.of_intent intent;
      action = action;
      justification = justification;
      created_at = created_at;
      expires_at = created_at + ttl;
      approval_nonce_hash = none;
      host_session = none;
      app_bound_at = none;
      approved_at = none;
      dispatch_started_at = none;
      responded_at = none;
      consumed_at = none;
      retryable_at = none;
      unknown_at = none;
    }

-- `this.requests.set(approvalId, request)`, `#emit` and `#publicRequest`.
unfoldable pub put_new : Request → Manager → Manager × PublicRequest
put_new r m = (
  emit on_requested false r (record m { requests = Dict.set r.approval_id r m.requests }),
  public_request r,
)

-- Random identifiers and readings of the clock, in the order in which a method takes them.
pub record Draws : Type 0 where
  pub approval_id : Text
  pub operation_id : Text
  pub approval_nonce : Text
  pub pruned_at : ℕ
  pub first_at : ℕ
  pub second_at : ℕ

unfoldable pub request_execution :
    Digests → Draws → ExecutionArgs → Text → WorkspaceRef → Manager → Manager × PublicRequest
request_execution digests d args environment_id ws m =
    put_new
      (new_request digests d.approval_id d.operation_id execution (intent_for args environment_id)
        (frozen_execution_action args environment_id ws)
        (or_text args.justification default_execution_justification) d.first_at m.ttl_ms)
      (prune d.pruned_at m)

unfoldable pub request_workspace_action :
    Digests → Draws → Text → WorkspaceArgs → Option Text → Manager → Manager × PublicRequest
request_workspace_action digests d operation args justification m =
    let intent = workspace_intent_for operation args in
    put_new
      (new_request digests d.approval_id d.operation_id workspace (to_access intent) (access intent)
        (or_text justification default_workspace_justification) d.first_at m.ttl_ms)
      (prune d.pruned_at m)

-- `this.requests.get(id)`, or the error where there is none.
unfoldable pub find : Text → Manager → Outcome ApprovalError Request
find id m = elim (Dict.get id m.requests) [ none ↦ err unknown_approval | some r ↦ ok r ]

-- A method that prunes, finds its request, checks it and changes it, which `#emit` reports.
unfoldable pub change :
    ℕ
    → Text
    → Event
    → Bool
    → (Request → Outcome ApprovalError Request)
    → Manager
    → Manager × Outcome ApprovalError Request
change pruned_at id event deny f m0 =
    let m = prune pruned_at m0 in
    elim (find id m >>= f) [
      | err e ↦ (m, err e)
      | ok r ↦ (emit event deny r (record m { requests = Dict.set id r m.requests }), ok r)
    ]

unfoldable pub get_request : ℕ → Text → Manager → Manager × Outcome ApprovalError PublicRequest
get_request pruned_at id m0 =
    let m = prune pruned_at m0 in (m, find id m >>= λ r. ok (public_request r))
