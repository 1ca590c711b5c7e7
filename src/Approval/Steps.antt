-- ===== src/Approval/Steps.antt =====
-- What each call of ApprovalManager does to a request that is there: each method follows the
-- abstract state machine.
use codex_compatible_mcp.Base.{
  ℕ, ◌≡◌, refl, sym, ◌∙◌, ap, subst, ◌⊎◌, inl, inr, ◌≢◌, Bool, Option, some, arith, Outcome, ok,
  err,
}
use codex_compatible_mcp.Base.Text.{Text, text_eq, text_beq_iff}
use codex_compatible_mcp.Base.Dict
use codex_compatible_mcp.Approval.Types.{Request, Digests, Event, ApprovalError}
use codex_compatible_mcp.Approval.Manager.{
  Manager, Draws, prune, change, put_new, request_execution, new_request, request_workspace_action,
  get_request,
}
use codex_compatible_mcp.Approval.Receipts.{ActionResult}
use codex_compatible_mcp.Approval.Cards.{
  consume, retry, lose, prepare_app_approval, claim_app_execution, deny_app_execution,
  claim_app_workspace, deny_app_workspace, mark_app_workspace_consumed, mark_app_execution_consumed,
  mark_app_execution_retryable, mark_app_execution_unknown, give_public, give_action,
}
use codex_compatible_mcp.Approval.Status.{
  read_app_status, read_receipt, record_app_outcome, save_receipt,
}
use codex_compatible_mcp.Approval.Calls.{
  Call, requests_execution, requests_workspace, gets, reads, records, prepares, claims_execution,
  denies_execution, claims_workspace, denies_workspace, marks_workspace_consumed, marks_consumed,
  marks_retryable, marks_unknown, step,
}
use codex_compatible_mcp.Approval.Lookup.{emit-requests}
use codex_compatible_mcp.Approval.Changes.{
  Change, claim_card-ok, deny_card-ok, bind_card-ok, check_dispatched-ok,
}
use codex_compatible_mcp.Approval.Advances.{Advance, Change-Advance}
use codex_compatible_mcp.Approval.Fates.{Fate, gone, kept, changed, prune-Fate, change-Fate}
use mathlib.Core.Option.{some-injective}

-- The call makes a request under the id.
abbrev pub Creates : Draws → Call → Text → Type 0
Creates d (requests_execution args env ws) j = d.approval_id ≡ j
Creates d (requests_workspace op args why) j = d.approval_id ≡ j
Creates d _ j = ⊥

pub put_new-other :
    (q : Request) (m : Manager) (j : Text)
    → q.approval_id ≢ j
    → Dict.get j (put_new q m).0.requests ≡ Dict.get j m.requests
unfolding put_new
put_new-other q m j h =
    ap (Dict.get j) (emit-requests _ _ q _)
    ∙ ground (arith, Dict.get-set q.approval_id j q m.requests, text_beq_iff q.approval_id j)

read_receipt-requests :
    (digests : Digests) (t : ℕ) (id nonce : Text) (host : Option Text) (m : Manager)
    → (read_receipt digests t id nonce host m).0.requests ≡ m.requests
unfolding read_receipt
read_receipt-requests digests t id nonce host m = ground arith

pub read_app_status-requests :
    (digests : Digests) (d : Draws) (id nonce : Text) (host : Option Text) (m : Manager)
    → (read_app_status digests d id nonce host m).0.requests ≡ (prune d.pruned_at m).requests
unfolding read_app_status
read_app_status-requests digests d id nonce host m =
    ground (arith, read_receipt-requests digests d.first_at id nonce host (prune d.pruned_at m))

pub record_app_outcome-requests :
    (d : Draws) (id : Text) (result : ActionResult) (m : Manager)
    → (record_app_outcome d id result m).requests ≡ (prune d.pruned_at m).requests
unfolding record_app_outcome save_receipt
record_app_outcome-requests d id result m = ground arith

pub get_request-requests :
    (now : ℕ) (id : Text) (m : Manager) → (get_request now id m).0.requests ≡ (prune now m).requests
unfolding get_request
get_request-requests now id m = refl

pub give_public-manager : (x : Manager × Outcome ApprovalError Request) → (give_public x).0 ≡ x.0
give_public-manager (m, ok r) = refl
give_public-manager (m, err e) = refl

pub give_action-manager : (x : Manager × Outcome ApprovalError Request) → (give_action x).0 ≡ x.0
give_action-manager (m, ok r) = refl
give_action-manager (m, err e) = refl

module _ (digests : Digests) (d : Draws) (m : Manager) (j : Text) (r : Request)
    (distinct : Dict.IsDistinct m.requests) (there : Dict.get j m.requests ≡ some r) where
  abbrev Meets : Call → Option Request → Type 0
  Meets c = Fate (Change digests d c j) m.terminal_retention_ms d.pruned_at r

  pruned : (c : Call) → Meets c (Dict.get j (prune d.pruned_at m).requests)
  pruned c = prune-Fate d.pruned_at j m r distinct there (Change digests d c j)

  created :
      (c : Call) (q : Request)
      → q.approval_id ≢ j
      → Meets c (Dict.get j (put_new q (prune d.pruned_at m)).0.requests)
  created c q h = rw (put_new-other q (prune d.pruned_at m) j h) (pruned c)

  changes :
      (c : Call) (id : Text) (e : Event) (b : Bool) (f : Request → Outcome ApprovalError Request)
      → (id ≡ j → (q q' : Request) → f q ≡ ok q' → Change digests d c j q q')
      → Meets c (Dict.get j (change d.pruned_at id e b f m).0.requests)
  changes c = change-Fate d.pruned_at j m r distinct there (Change digests d c j)

  pub step-Fate :
      (c : Call)
      → ¬ Creates d c j
      → Fate
          (Change digests d c j)
          m.terminal_retention_ms
          d.pruned_at
          r
          (Dict.get j (step digests d c m).requests)
  unfolding step request_execution request_workspace_action new_request prepare_app_approval
      claim_app_execution deny_app_execution claim_app_workspace deny_app_workspace
      mark_app_workspace_consumed mark_app_execution_consumed mark_app_execution_retryable
      mark_app_execution_unknown
  step-Fate (requests_execution args env ws) h = created (requests_execution args env ws) _ h
  step-Fate (requests_workspace op args why) h = created (requests_workspace op args why) _ h
  step-Fate (gets id) h = rw (get_request-requests d.pruned_at id m) (pruned (gets id))
  step-Fate (reads id nonce host) h =
      rw (read_app_status-requests digests d id nonce host m) (pruned (reads id nonce host))
  step-Fate (records id result) h =
      rw (record_app_outcome-requests d id result m) (pruned (records id result))
  step-Fate (prepares id host) h = rw give_public-manager (
      changes (prepares id host) id _ _ _
        λ same q q' e. let (s, b, eq) = bind_card-ok digests d host q q' e in (same, s, b, eq))
  step-Fate (claims_execution id nonce host) h = rw give_action-manager (
      changes (claims_execution id nonce host) id _ _ _
        λ same q q' e. let (p, s) = claim_card-ok digests d nonce host _ _ _ q q' e in (same, p, s))
  step-Fate (denies_execution id nonce host) h = rw give_public-manager (
      changes (denies_execution id nonce host) id _ _ _
        λ same q q' e. let (p, s) = deny_card-ok digests d nonce host _ _ _ q q' e in (same, p, s))
  step-Fate (claims_workspace id nonce host) h = rw give_action-manager (
      changes (claims_workspace id nonce host) id _ _ _
        λ same q q' e. let (p, s) = claim_card-ok digests d nonce host _ _ _ q q' e in (same, p, s))
  step-Fate (denies_workspace id nonce host) h = rw give_public-manager (
      changes (denies_workspace id nonce host) id _ _ _
        λ same q q' e. let (p, s) = deny_card-ok digests d nonce host _ _ _ q q' e in (same, p, s))
  step-Fate (marks_workspace_consumed id) h = rw give_public-manager (
      changes (marks_workspace_consumed id) id _ _ _ λ same q q' e.
        let (k, s, eq) = check_dispatched-ok _ _ q q' (consume d.first_at) e in (same, k, s, eq))
  step-Fate (marks_consumed id) h = rw give_public-manager (
      changes (marks_consumed id) id _ _ _ λ same q q' e.
        let (k, s, eq) = check_dispatched-ok _ _ q q' (consume d.first_at) e in (same, k, s, eq))
  step-Fate (marks_retryable id) h = rw give_public-manager (
      changes (marks_retryable id) id _ _ _ λ same q q' e.
        let (k, s, eq) = check_dispatched-ok _ _ q q' (retry d.first_at) e in (same, k, s, eq))
  step-Fate (marks_unknown id) h = rw give_public-manager (
      changes (marks_unknown id) id _ _ _ λ same q q' e.
        let (k, s, eq) = check_dispatched-ok _ _ q q' (lose d.first_at) e in (same, k, s, eq))

-- With each id held once, a request that is there before and after a call which makes no new request under its id is
-- unchanged, or has moved along an edge of the state machine with all that was asked for, and the
-- card once it is bound, as before.
pub step_advances :
    (digests : Digests) (d : Draws) (m : Manager) (j : Text) (r r' : Request) (c : Call)
    → Dict.IsDistinct m.requests
    → ¬ Creates d c j
    → Dict.get j m.requests ≡ some r
    → Dict.get j (step digests d c m).requests ≡ some r'
    → (r' ≡ r) ⊎ Advance r r'
step_advances digests d m j r r' c distinct makes_none before after =
    elim (step-Fate digests d m j r distinct before c makes_none) [
      | gone old e ↦ absurd (cc)
      | kept live e ↦ inl (some-injective r' r (sym after ∙ e))
      | changed q live e p ↦ inr (
          subst (Advance r) (some-injective q r' (sym e ∙ after))
            (Change-Advance digests d c j r q p))
    ]
