-- ===== src/Approval/Advances.antt =====
-- The life of an approval request as an abstract state machine, and the changes of a request that
-- the methods of ApprovalManager make.
use codex_compatible_mcp.Base.{ℕ, ◌≡◌, refl, ◌⊎◌, inl, inr, true, false, Option, some, arith}
use codex_compatible_mcp.Base.Text.{Text}
use codex_compatible_mcp.Approval.Types.{
  State, pending, approved_retryable, dispatching, consumed, denied, execution_unknown, Request,
  Digests,
}
use codex_compatible_mcp.Approval.Manager.{Draws, expires_unused}
use codex_compatible_mcp.Approval.Cards.{
  consume, retry, lose, start_dispatch, is_pending, is_bound, bound,
}
use codex_compatible_mcp.Approval.Calls.{
  Call, requests_execution, requests_workspace, gets, reads, records, prepares, claims_execution,
  denies_execution, claims_workspace, denies_workspace, marks_workspace_consumed, marks_consumed,
  marks_retryable, marks_unknown,
}
use codex_compatible_mcp.Approval.Changes.{Change}

infix 40 ◌⟶◌
pub data ◌⟶◌ : State → State → Type 0 where
  present : pending ⟶ pending
  dispatch : pending ⟶ dispatching
  dispatch_again : approved_retryable ⟶ dispatching
  refuse : pending ⟶ denied
  refuse_retry : approved_retryable ⟶ denied
  finish : dispatching ⟶ consumed
  release : dispatching ⟶ approved_retryable
  give_up : dispatching ⟶ execution_unknown

pub ruleset edges =
    (present, dispatch, dispatch_again, refuse, refuse_retry, finish, release, give_up)

-- What was asked for never changes, and a card once bound stays bound to its nonce and session.
pub record Advance (r r' : Request) : Type 0 where
  pub moves : r.state ⟶ r'.state
  pub same_id : r'.approval_id ≡ r.approval_id
  pub same_operation_id : r'.operation_id ≡ r.operation_id
  pub same_kind : r'.kind ≡ r.kind
  pub same_intent : r'.intent ≡ r.intent
  pub same_hash : r'.intent_hash ≡ r.intent_hash
  pub same_action : r'.action ≡ r.action
  pub same_justification : r'.justification ≡ r.justification
  pub same_expiry : r'.expires_at ≡ r.expires_at
  pub keeps_card :
      (is_bound r ≡ false)
      ⊎ ((r'.approval_nonce_hash ≡ r.approval_nonce_hash) × (r'.host_session ≡ r.host_session))

dispatch_from : (s : State) → expires_unused s ≡ true → s ⟶ dispatching
dispatch_from pending h = dispatch
dispatch_from approved_retryable h = dispatch_again
dispatch_from dispatching h = absurd (cc)
dispatch_from consumed h = absurd (cc)
dispatch_from denied h = absurd (cc)
dispatch_from execution_unknown h = absurd (cc)

refuse_from : (s : State) → expires_unused s ≡ true → s ⟶ denied
refuse_from pending h = refuse
refuse_from approved_retryable h = refuse_retry
refuse_from dispatching h = absurd (cc)
refuse_from consumed h = absurd (cc)
refuse_from denied h = absurd (cc)
refuse_from execution_unknown h = absurd (cc)

pub pending-expires : (s : State) → is_pending s ≡ true → expires_unused s ≡ true
pending-expires s h = ground arith

start_dispatch-Advance :
    (t u : ℕ) (r : Request) → expires_unused r.state ≡ true → Advance r (start_dispatch t u r)
unfolding start_dispatch
start_dispatch-Advance t u r h = record {
  moves = dispatch_from r.state h;
  same_id = refl;
  same_operation_id = refl;
  same_kind = refl;
  same_intent = refl;
  same_hash = refl;
  same_action = refl;
  same_justification = refl;
  same_expiry = refl;
  keeps_card = inr (refl, refl);
}

deny-Advance :
    (t : ℕ) (r : Request)
    → expires_unused r.state ≡ true
    → Advance r (record r { state = denied; responded_at = some t })
deny-Advance t r h = record {
  moves = refuse_from r.state h;
  same_id = refl;
  same_operation_id = refl;
  same_kind = refl;
  same_intent = refl;
  same_hash = refl;
  same_action = refl;
  same_justification = refl;
  same_expiry = refl;
  keeps_card = inr (refl, refl);
}

consume-Advance : (t : ℕ) (r : Request) → r.state ≡ dispatching → Advance r (consume t r)
consume-Advance t r h = record {
  moves = rw h finish;
  same_id = refl;
  same_operation_id = refl;
  same_kind = refl;
  same_intent = refl;
  same_hash = refl;
  same_action = refl;
  same_justification = refl;
  same_expiry = refl;
  keeps_card = inr (refl, refl);
}

retry-Advance : (t : ℕ) (r : Request) → r.state ≡ dispatching → Advance r (retry t r)
retry-Advance t r h = record {
  moves = rw h release;
  same_id = refl;
  same_operation_id = refl;
  same_kind = refl;
  same_intent = refl;
  same_hash = refl;
  same_action = refl;
  same_justification = refl;
  same_expiry = refl;
  keeps_card = inr (refl, refl);
}

lose-Advance : (t : ℕ) (r : Request) → r.state ≡ dispatching → Advance r (lose t r)
lose-Advance t r h = record {
  moves = rw h give_up;
  same_id = refl;
  same_operation_id = refl;
  same_kind = refl;
  same_intent = refl;
  same_hash = refl;
  same_action = refl;
  same_justification = refl;
  same_expiry = refl;
  keeps_card = inr (refl, refl);
}

bound-Advance :
    (digests : Digests) (d : Draws) (host : Option Text) (r : Request)
    → r.state ≡ pending
    → is_bound r ≡ false
    → Advance r (bound digests d host r)
bound-Advance digests d host r h b = record {
  moves = rw h present;
  same_id = refl;
  same_operation_id = refl;
  same_kind = refl;
  same_intent = refl;
  same_hash = refl;
  same_action = refl;
  same_justification = refl;
  same_expiry = refl;
  keeps_card = inl b;
}

-- Every change that a call may make follows the state machine and keeps what was asked for.
pub Change-Advance :
    (digests : Digests) (d : Draws) (c : Call) (j : Text) (q q' : Request)
    → Change digests d c j q q'
    → Advance q q'
Change-Advance digests d (requests_execution args env ws) j q q' h = absurd h
Change-Advance digests d (requests_workspace op args why) j q q' h = absurd h
Change-Advance digests d (gets id) j q q' h = absurd h
Change-Advance digests d (reads id nonce host) j q q' h = absurd h
Change-Advance digests d (records id result) j q q' h = absurd h
Change-Advance digests d (prepares id host) j q q' (_, h, b, e) =
    rw e (bound-Advance digests d host q h b)
Change-Advance digests d (claims_execution id nonce host) j q q' (_, p, e) =
    rw e (start_dispatch-Advance _ _ q p.right_state)
Change-Advance digests d (denies_execution id nonce host) j q q' (_, p, e) =
    rw e (deny-Advance _ q p.right_state)
Change-Advance digests d (claims_workspace id nonce host) j q q' (_, p, e) =
    rw e (start_dispatch-Advance _ _ q (pending-expires q.state p.right_state))
Change-Advance digests d (denies_workspace id nonce host) j q q' (_, p, e) =
    rw e (deny-Advance _ q (pending-expires q.state p.right_state))
Change-Advance digests d (marks_workspace_consumed id) j q q' (_, _, h, e) =
    rw e (consume-Advance d.first_at q h)
Change-Advance digests d (marks_consumed id) j q q' (_, _, h, e) =
    rw e (consume-Advance d.first_at q h)
Change-Advance digests d (marks_retryable id) j q q' (_, _, h, e) =
    rw e (retry-Advance d.first_at q h)
Change-Advance digests d (marks_unknown id) j q q' (_, _, h, e) = rw e (lose-Advance d.first_at q h)
