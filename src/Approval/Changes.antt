-- ===== src/Approval/Changes.antt =====
-- What each call of ApprovalManager may do to the request that it names: the specification of the
-- methods, request by request.
use codex_compatible_mcp.Base.{◌≡◌, Bool, true, false, Option, arith, ok, ◌>>◌, >>=-eq-ok}
use codex_compatible_mcp.Base.Text.{Text}
use codex_compatible_mcp.Approval.Types.{
  State, pending, dispatching, Kind, Request, Digests, ApprovalError, cannot_dispatch, cannot_deny,
}
use codex_compatible_mcp.Approval.Manager.{Draws, expires_unused}
use codex_compatible_mcp.Approval.Receipts.{is_execution, is_workspace, foreign_session}
use codex_compatible_mcp.Approval.Cards.{
  bind_card, claim_card, deny_card, consume, retry, lose, check_card, check_dispatched,
  start_dispatch, secret_matches, is_pending, is_bound, bound, refused,
}
use codex_compatible_mcp.Approval.Calls.{
  Call, requests_execution, requests_workspace, gets, reads, records, prepares, claims_execution,
  denies_execution, claims_workspace, denies_workspace, marks_workspace_consumed, marks_consumed,
  marks_retryable, marks_unknown,
}

-- What the guards of a card decision have found out.
pub record Passed (digests : Digests) (of_kind : Kind → Bool) (allowed : State → Bool)
    (nonce : Text) (host : Option Text) (r : Request) : Type 0 where
  pub right_kind : of_kind r.kind ≡ true
  pub bound : is_bound r ≡ true
  pub right_state : allowed r.state ≡ true
  pub right_nonce : secret_matches digests nonce r.approval_nonce_hash ≡ true
  pub right_session : foreign_session r.host_session host ≡ false

module _ (digests : Digests) (of_kind : Kind → Bool) (wrong : ApprovalError)
    (allowed : State → Bool) (wrong_state : State → ApprovalError) (nonce : Text)
    (host : Option Text) (r : Request) where
  pub check_card-Passed :
      {u : Unit {0}}
      → check_card digests of_kind wrong allowed wrong_state nonce host r ≡ ok u
      → Passed digests of_kind allowed nonce host r
  unfolding check_card
  check_card-Passed h = ground arith

  pub Passed-check_card :
      Passed digests of_kind allowed nonce host r
      → check_card digests of_kind wrong allowed wrong_state nonce host r ≡ ok tt
  unfolding check_card
  Passed-check_card p = rw (p.right_kind, p.bound, p.right_state, p.right_nonce, p.right_session)

module _ (digests : Digests) (d : Draws) (nonce : Text) (host : Option Text) (of_kind : Kind → Bool)
    (wrong : ApprovalError) (allowed : State → Bool) (r r' : Request) where
  pub claim_card-ok :
      claim_card digests d nonce host of_kind wrong allowed r ≡ ok r'
      → Passed digests of_kind allowed nonce host r × (r' ≡ start_dispatch d.first_at d.second_at r)
  claim_card-ok h =
      let (u, passed, same) =
        >>=-eq-ok (check_card digests of_kind wrong allowed cannot_dispatch nonce host r) _ h in
      (check_card-Passed digests of_kind wrong allowed cannot_dispatch nonce host r passed, cc)

  pub deny_card-ok :
      deny_card digests d nonce host of_kind wrong allowed r ≡ ok r'
      → Passed digests of_kind allowed nonce host r × (r' ≡ refused d.first_at r)
  deny_card-ok h =
      let (u, passed, same) =
        >>=-eq-ok (check_card digests of_kind wrong allowed cannot_deny nonce host r) _ h in
      (check_card-Passed digests of_kind wrong allowed cannot_deny nonce host r passed, cc)

pub bind_card-ok :
    (digests : Digests) (d : Draws) (host : Option Text) (r r' : Request)
    → bind_card digests d host r ≡ ok r'
    → (r.state ≡ pending) × (is_bound r ≡ false) × (r' ≡ bound digests d host r)
bind_card-ok digests d host r r' h = ground arith

module _ (of_kind : Kind → Bool) (wrong : ApprovalError) (r r' : Request) where
  pub check_dispatched-ok :
      (f : Request → Request)
      → (check_dispatched of_kind wrong r >> ok (f r)) ≡ ok r'
      → (of_kind r.kind ≡ true) × (r.state ≡ dispatching) × (r' ≡ f r)
  unfolding check_dispatched
  check_dispatched-ok f h = ground arith

-- What a call may change about the request under an id.
abbrev pub Change : Digests → Draws → Call → Text → Request → Request → Type 0
Change digests d (requests_execution args env ws) j q q' = ⊥
Change digests d (requests_workspace op args why) j q q' = ⊥
Change digests d (gets id) j q q' = ⊥
Change digests d (reads id nonce host) j q q' = ⊥
Change digests d (records id result) j q q' = ⊥
Change digests d (prepares id host) j q q' =
    (id ≡ j) × (q.state ≡ pending) × (is_bound q ≡ false) × (q' ≡ bound digests d host q)
Change digests d (claims_execution id nonce host) j q q' =
    (id ≡ j)
    × Passed digests is_execution expires_unused nonce host q
    × (q' ≡ start_dispatch d.first_at d.second_at q)
Change digests d (denies_execution id nonce host) j q q' =
    (id ≡ j) × Passed digests is_execution expires_unused nonce host q × (q' ≡ refused d.first_at q)
Change digests d (claims_workspace id nonce host) j q q' =
    (id ≡ j)
    × Passed digests is_workspace is_pending nonce host q
    × (q' ≡ start_dispatch d.first_at d.second_at q)
Change digests d (denies_workspace id nonce host) j q q' =
    (id ≡ j) × Passed digests is_workspace is_pending nonce host q × (q' ≡ refused d.first_at q)
Change digests d (marks_workspace_consumed id) j q q' =
    (id ≡ j) × (is_workspace q.kind ≡ true) × (q.state ≡ dispatching) × (q' ≡ consume d.first_at q)
Change digests d (marks_consumed id) j q q' =
    (id ≡ j) × (is_execution q.kind ≡ true) × (q.state ≡ dispatching) × (q' ≡ consume d.first_at q)
Change digests d (marks_retryable id) j q q' =
    (id ≡ j) × (is_execution q.kind ≡ true) × (q.state ≡ dispatching) × (q' ≡ retry d.first_at q)
Change digests d (marks_unknown id) j q q' =
    (id ≡ j) × (is_execution q.kind ≡ true) × (q.state ≡ dispatching) × (q' ≡ lose d.first_at q)
