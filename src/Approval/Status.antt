-- ===== src/Approval/Status.antt =====
-- src/controller/approval-manager.mjs: what a card reads back, and the archiving of an outcome.
use codex_compatible_mcp.Base.{
  ℕ, Bool, true, false, not, ◌||◌, ◌&&◌, Option, none, some, if◌then◌else◌, Outcome, ok, err,
}
use codex_compatible_mcp.Base.Text.{Text, text_eq}
use codex_compatible_mcp.Base.Dict
use codex_compatible_mcp.Approval.Types.{
  State, pending, approved_retryable, dispatching, consumed, denied, execution_unknown, Kind,
  Request, Digests, ApprovalError, unknown_approval, capability_invalid,
}
use codex_compatible_mcp.Approval.Intents.{intent_operation}
use codex_compatible_mcp.Approval.Receipts.{
  Receipt, ActionResult, Store, is_outcome, is_workspace, foreign_session,
}
use codex_compatible_mcp.Approval.Receipts
use codex_compatible_mcp.Approval.Manager.{Manager, Draws, prune, expires_unused}
use codex_compatible_mcp.Approval.Cards.{secret_matches}

pub record Status : Type 0 where
  pub approval_id : Text
  pub operation_id : Text
  pub state : State
  pub kind : Kind
  pub operation : Option Text
  pub approval_required : Bool
  pub result_unavailable : Bool

pub data Reading : Type 0 where
  archived : Receipt → Reading
  live : Status → Reading

unfoldable pub live_status : Request → Status
live_status r = record {
  approval_id = r.approval_id;
  operation_id = r.operation_id;
  state = r.state;
  kind = r.kind;
  operation = if is_workspace r.kind then intent_operation r.intent else none;
  approval_required = if is_outcome r.state then false else expires_unused r.state;
  result_unavailable = is_outcome r.state;
}

-- `this.receiptStore?.read(…)`: without a store there is no receipt.
unfoldable pub read_receipt :
    Digests
    → ℕ
    → Text
    → Text
    → Option Text
    → Manager
    → Manager × Outcome ApprovalError (Option Receipt)
read_receipt digests now id nonce host_session m = elim m.receipt_store [
  | none ↦ (m, ok none)
  | some s ↦
      let (s', r) = Receipts.read digests now id nonce host_session s in
      (record m { receipt_store = some s' }, r)
]

abbrev or_unknown : Outcome ApprovalError (Option Receipt) → Outcome ApprovalError Reading
or_unknown (err e) = err e
or_unknown (ok none) = err unknown_approval
or_unknown (ok (some r)) = ok (archived r)

abbrev or_live : Request → Outcome ApprovalError (Option Receipt) → Outcome ApprovalError Reading
or_live q (err e) = err e
or_live q (ok none) = ok (live (live_status q))
or_live q (ok (some r)) = ok (archived r)

-- The receipt store's clock is read at `d.first_at`.
unfoldable pub read_app_status :
    Digests → Draws → Text → Text → Option Text → Manager → Manager × Outcome ApprovalError Reading
read_app_status digests d id nonce host_session m0 =
    let m = prune d.pruned_at m0 in
    elim (Dict.get id m.requests) [
      | none ↦
          let (m', r) = read_receipt digests d.first_at id nonce host_session m in
          (m', or_unknown r)
      | some q ↦
          if not (secret_matches digests nonce q.approval_nonce_hash)
            || foreign_session q.host_session host_session
          then (m, err capability_invalid)
          else (let (m', r) = read_receipt digests d.first_at id nonce host_session m in
              (m', or_live q r))
    ]

abbrev pub same_state : State → State → Bool
same_state pending pending = true
same_state approved_retryable approved_retryable = true
same_state dispatching dispatching = true
same_state consumed consumed = true
same_state denied denied = true
same_state execution_unknown execution_unknown = true
same_state _ _ = false

unfoldable pub save_receipt : ℕ → ℕ → Request → ActionResult → Manager → Manager
save_receipt saved_at pruned_at q result m = elim m.receipt_store [
  | none ↦ m
  | some s ↦ record m { receipt_store = some (Receipts.save saved_at pruned_at q result s) }
]

unfoldable pub record_app_outcome : Draws → Text → ActionResult → Manager → Manager
record_app_outcome d id result m0 =
    let m = prune d.pruned_at m0 in
    elim (Dict.get id m.requests) [
      | none ↦ m
      | some q ↦
          if same_state q.state result.state && is_outcome q.state
          then save_receipt d.first_at d.second_at q result m
          else m
    ]
