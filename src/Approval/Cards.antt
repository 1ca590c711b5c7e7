-- ===== src/Approval/Cards.antt =====
-- src/controller/approval-manager.mjs: the methods that a card of the user calls, and those that
-- report how an approved action went.
use codex_compatible_mcp.Base.{
  ℕ, Bool, true, false, not, ◌||◌, Option, none, some, ◌==◌, Outcome, ok, err, ◌>>◌, throw_if,
}
use codex_compatible_mcp.Base.Text.{Text, text_eq}
use codex_compatible_mcp.Base.Dict
use codex_compatible_mcp.Approval.Types.{
  State, pending, approved_retryable, dispatching, consumed, denied, execution_unknown, Kind,
  Action, Request, Digests, Event, on_app_bound, on_dispatching, on_responded, on_consumed,
  on_retryable, on_unknown, ApprovalError, not_app_execution, not_app_workspace, cannot_present,
  cannot_dispatch, cannot_deny, not_dispatching, already_bound, nonce_invalid, other_host_session,
}
use codex_compatible_mcp.Approval.Intents.{truthy, PublicRequest, public_request}
use codex_compatible_mcp.Approval.Receipts.{is_execution, is_workspace, foreign_session}
use codex_compatible_mcp.Approval.Manager.{Manager, Draws, change, is_dispatching, expires_unused}

abbrev pub is_pending : State → Bool
is_pending pending = true
is_pending _ = false

abbrev pub is_bound : Request → Bool
is_bound r = Dict.is_some r.approval_nonce_hash

-- `secretMatches`.
unfoldable pub secret_matches : Digests → Text → Option Text → Bool
secret_matches digests nonce none = false
secret_matches digests nonce (some expected) = digests.of_secret nonce == expected

-- The guards of the four methods that decide a card, in their order.
unfoldable pub check_card :
    Digests
    → (Kind → Bool)
    → ApprovalError
    → (State → Bool)
    → (State → ApprovalError)
    → Text
    → Option Text
    → Request
    → Outcome ApprovalError (Unit {0})
check_card digests of_kind wrong_kind allowed wrong_state nonce host_session r = do
  throw_if (not (of_kind r.kind) || not (is_bound r)) wrong_kind
  throw_if (not (allowed r.state)) (wrong_state r.state)
  throw_if (not (secret_matches digests nonce r.approval_nonce_hash)) nonce_invalid
  throw_if (foreign_session r.host_session host_session) other_host_session

-- `value ??= reading`.
abbrev pub keep_time : Option ℕ → ℕ → Option ℕ
keep_time none t = some t
keep_time (some u) t = some u

unfoldable pub start_dispatch : ℕ → ℕ → Request → Request
start_dispatch first_at second_at r = record r {
  state = dispatching;
  approved_at = keep_time r.approved_at first_at;
  dispatch_started_at = some second_at;
}

abbrev pub give_action :
    Manager × Outcome ApprovalError Request
    → Manager × Outcome ApprovalError (PublicRequest × Action)
give_action (m, ok r) = (m, ok (public_request r, r.action))
give_action (m, err e) = (m, err e)

abbrev pub give_public :
    Manager × Outcome ApprovalError Request → Manager × Outcome ApprovalError PublicRequest
give_public (m, ok r) = (m, ok (public_request r))
give_public (m, err e) = (m, err e)

abbrev pub refused : ℕ → Request → Request
refused now r = record r { state = denied; responded_at = some now }

abbrev pub bound : Digests → Draws → Option Text → Request → Request
bound digests d host_session r = record r {
  approval_nonce_hash = some (digests.of_secret d.approval_nonce);
  host_session = truthy host_session;
  app_bound_at = some d.first_at;
}

abbrev pub bind_card : Digests → Draws → Option Text → Request → Outcome ApprovalError Request
bind_card digests d host_session r = do
  throw_if (not (is_pending r.state)) (cannot_present r.state)
  throw_if (is_bound r) already_bound
  ok (bound digests d host_session r)

-- The nonce that is handed out is `d.approval_nonce`.
unfoldable pub prepare_app_approval :
    Digests → Draws → Text → Option Text → Manager → Manager × Outcome ApprovalError PublicRequest
prepare_app_approval digests d id host_session m =
    give_public (change d.pruned_at id on_app_bound false (bind_card digests d host_session) m)

module _ (digests : Digests) (d : Draws) (nonce : Text) (host_session : Option Text) where
  abbrev pub claim_card :
      (Kind → Bool) → ApprovalError → (State → Bool) → Request → Outcome ApprovalError Request
  claim_card of_kind wrong_kind allowed r =
      check_card digests of_kind wrong_kind allowed cannot_dispatch nonce host_session r
      >> ok (start_dispatch d.first_at d.second_at r)

  abbrev pub deny_card :
      (Kind → Bool) → ApprovalError → (State → Bool) → Request → Outcome ApprovalError Request
  deny_card of_kind wrong_kind allowed r =
      check_card digests of_kind wrong_kind allowed cannot_deny nonce host_session r
      >> ok (refused d.first_at r)

module _ (digests : Digests) (d : Draws) (id nonce : Text) (host_session : Option Text) where
  unfoldable pub claim_app_execution :
      Manager → Manager × Outcome ApprovalError (PublicRequest × Action)
  claim_app_execution m = give_action (
      change d.pruned_at id on_dispatching false
        (claim_card digests d nonce host_session is_execution not_app_execution expires_unused) m)

  unfoldable pub deny_app_execution : Manager → Manager × Outcome ApprovalError PublicRequest
  deny_app_execution m = give_public (
      change d.pruned_at id on_responded true
        (deny_card digests d nonce host_session is_execution not_app_execution expires_unused) m)

  unfoldable pub claim_app_workspace :
      Manager → Manager × Outcome ApprovalError (PublicRequest × Action)
  claim_app_workspace m = give_action (
      change d.pruned_at id on_dispatching false
        (claim_card digests d nonce host_session is_workspace not_app_workspace is_pending) m)

  unfoldable pub deny_app_workspace : Manager → Manager × Outcome ApprovalError PublicRequest
  deny_app_workspace m = give_public (
      change d.pruned_at id on_responded true
        (deny_card digests d nonce host_session is_workspace not_app_workspace is_pending) m)

-- The guards of the methods that report on a dispatched action.
unfoldable pub check_dispatched :
    (Kind → Bool) → ApprovalError → Request → Outcome ApprovalError (Unit {0})
check_dispatched of_kind wrong_kind r = do
  throw_if (not (of_kind r.kind) || not (is_bound r)) wrong_kind
  throw_if (not (is_dispatching r.state)) (not_dispatching r.state)

abbrev pub consume : ℕ → Request → Request
consume now r = record r { state = consumed; consumed_at = some now }

abbrev pub retry : ℕ → Request → Request
retry now r = record r { state = approved_retryable; retryable_at = some now }

abbrev pub lose : ℕ → Request → Request
lose now r = record r { state = execution_unknown; unknown_at = some now }

unfoldable pub mark_app_workspace_consumed :
    Draws → Text → Manager → Manager × Outcome ApprovalError PublicRequest
mark_app_workspace_consumed d id m = give_public (
    change d.pruned_at id on_consumed false
      (λ r. check_dispatched is_workspace not_app_workspace r >> ok (consume d.first_at r)) m)

-- `#transitionDispatchState`, with what it does for the next state as an argument.
unfoldable pub transition_dispatch_state :
    Draws
    → Text
    → Event
    → (Request → Request)
    → Manager
    → Manager × Outcome ApprovalError PublicRequest
transition_dispatch_state d id event f m = give_public (
    change d.pruned_at id event false
      (λ r. check_dispatched is_execution not_app_execution r >> ok (f r)) m)

module _ (d : Draws) (id : Text) (m : Manager) where
  unfoldable pub mark_app_execution_consumed : Manager × Outcome ApprovalError PublicRequest
  unfolding transition_dispatch_state
  mark_app_execution_consumed = transition_dispatch_state d id on_consumed (consume d.first_at) m

  unfoldable pub mark_app_execution_retryable : Manager × Outcome ApprovalError PublicRequest
  unfolding transition_dispatch_state
  mark_app_execution_retryable = transition_dispatch_state d id on_retryable (retry d.first_at) m

  unfoldable pub mark_app_execution_unknown : Manager × Outcome ApprovalError PublicRequest
  unfolding transition_dispatch_state
  mark_app_execution_unknown = transition_dispatch_state d id on_unknown (lose d.first_at) m
