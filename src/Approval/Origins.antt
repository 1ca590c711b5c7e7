-- ===== src/Approval/Origins.antt =====
-- Where a request of ApprovalManager comes from: made by the call, or there before it.
use codex_compatible_mcp.Base.{
  ℕ, ◌≡◌, refl, sym, ◌∙◌, ap, inl, inr, Bool, none, some, arith, subst, ◌==◌, Bool-cases,
  Option-cases, Outcome, err, ◌>>=◌, Outcome-cases,
}
use mathlib.Core.Option.{some-injective}
use codex_compatible_mcp.Base.Text.{Text, text_eq, text_beq_iff}
use codex_compatible_mcp.Base.Dict
use codex_compatible_mcp.Approval.Types.{
  pending, Request, execution, workspace, access, Digests, Event, ApprovalError, unknown_approval,
}
use codex_compatible_mcp.Approval.Intents.{frozen_execution_action, workspace_intent_for}
use codex_compatible_mcp.Approval.Manager.{
  Manager, Draws, prune, find, change, put_new, new_request, request_execution,
  request_workspace_action,
}
use codex_compatible_mcp.Approval.Cards.{
  prepare_app_approval, claim_app_execution, deny_app_execution, claim_app_workspace,
  deny_app_workspace, mark_app_workspace_consumed, mark_app_execution_consumed,
  mark_app_execution_retryable, mark_app_execution_unknown,
}
use codex_compatible_mcp.Approval.Calls.{
  Call, requests_execution, requests_workspace, gets, reads, records, prepares, claims_execution,
  denies_execution, claims_workspace, denies_workspace, marks_workspace_consumed, marks_consumed,
  marks_retryable, marks_unknown, step,
}
use codex_compatible_mcp.Approval.Lookup.{emit-requests, get-prune, get-change, prune-IsDistinct}
use codex_compatible_mcp.Approval.Changes.{Change}
use codex_compatible_mcp.Approval.Fates.{gone, kept, changed}
use codex_compatible_mcp.Approval.Steps.{
  Creates, step-Fate, give_public-manager, give_action-manager, put_new-other,
  read_app_status-requests, record_app_outcome-requests, get_request-requests,
}

-- `requests` stays a Map with each id once.
abbrev pub IsDistinct : Manager → Type 0
IsDistinct m = Dict.IsDistinct m.requests

module _ (now : ℕ) (id : Text) (e : Event) (b : Bool) (f : Request → Outcome ApprovalError Request)
    (m : Manager) (distinct : IsDistinct m) where
  change-IsDistinct : IsDistinct (change now id e b f m).0
  unfolding change
  change-IsDistinct = elim (Outcome-cases (find id (prune now m) >>= f)) [
    | inl (r, p) ↦
        rw (p, change)
          (subst Dict.IsDistinct (sym (emit-requests e b r _))
            (Dict.set-IsDistinct id r (prune now m).requests (prune-IsDistinct now m distinct)))
    | inr (x, p) ↦ rw (p, change) (prune-IsDistinct now m distinct)
  ]

  -- A method that changes a request makes none.
  change-absent :
      (j : Text)
      → Dict.get j m.requests ≡ none
      → Dict.get j (change now id e b f m).0.requests ≡ none
  change-absent j absent = elim (Bool-cases (id == j)) [
    | inl same ↦
        ground (arith, get-change now id e b f m j, not_found ((text_beq_iff id j).0 same), pruned)
    | inr differs ↦ elim (Outcome-cases (find id (prune now m) >>= f)) [
      | inl (q, p) ↦ get-change now id e b f m j ∙ rw (p, differs) pruned
      | inr (x, p) ↦ get-change now id e b f m j ∙ rw p pruned
    ]
  ]
    where
      pruned : Dict.get j (prune now m).requests ≡ none
      pruned = ground (arith, get-prune now j m distinct)

      not_found : id ≡ j → find id (prune now m) ≡ err unknown_approval
      not_found same = rw same (unfold find in ground (arith, pruned))

put_new-IsDistinct : (q : Request) (m : Manager) → IsDistinct m → IsDistinct (put_new q m).0
unfolding put_new
put_new-IsDistinct q m h =
    subst Dict.IsDistinct (sym (emit-requests _ _ q _))
      (Dict.set-IsDistinct q.approval_id q m.requests h)

module _ (digests : Digests) (d : Draws) (m : Manager) (distinct : IsDistinct m) where
  pruned-IsDistinct : IsDistinct (prune d.pruned_at m)
  pruned-IsDistinct = prune-IsDistinct d.pruned_at m distinct

  pub step-IsDistinct : (c : Call) → IsDistinct (step digests d c m)
  unfolding step request_execution request_workspace_action prepare_app_approval claim_app_execution
      deny_app_execution claim_app_workspace deny_app_workspace mark_app_workspace_consumed
      mark_app_execution_consumed mark_app_execution_retryable mark_app_execution_unknown
  step-IsDistinct (requests_execution args env ws) = put_new-IsDistinct _ _ pruned-IsDistinct
  step-IsDistinct (requests_workspace op args why) = put_new-IsDistinct _ _ pruned-IsDistinct
  step-IsDistinct (gets id) = rw (get_request-requests d.pruned_at id m) pruned-IsDistinct
  step-IsDistinct (reads id nonce host) =
      rw (read_app_status-requests digests d id nonce host m) pruned-IsDistinct
  step-IsDistinct (records id result) =
      rw (record_app_outcome-requests d id result m) pruned-IsDistinct
  step-IsDistinct (prepares id host) =
      rw give_public-manager (change-IsDistinct _ _ _ _ _ m distinct)
  step-IsDistinct (claims_execution id nonce host) =
      rw give_action-manager (change-IsDistinct _ _ _ _ _ m distinct)
  step-IsDistinct (denies_execution id nonce host) =
      rw give_public-manager (change-IsDistinct _ _ _ _ _ m distinct)
  step-IsDistinct (claims_workspace id nonce host) =
      rw give_action-manager (change-IsDistinct _ _ _ _ _ m distinct)
  step-IsDistinct (denies_workspace id nonce host) =
      rw give_public-manager (change-IsDistinct _ _ _ _ _ m distinct)
  step-IsDistinct (marks_workspace_consumed id) =
      rw give_public-manager (change-IsDistinct _ _ _ _ _ m distinct)
  step-IsDistinct (marks_consumed id) =
      rw give_public-manager (change-IsDistinct _ _ _ _ _ m distinct)
  step-IsDistinct (marks_retryable id) =
      rw give_public-manager (change-IsDistinct _ _ _ _ _ m distinct)
  step-IsDistinct (marks_unknown id) =
      rw give_public-manager (change-IsDistinct _ _ _ _ _ m distinct)

  module _ (j : Text) (absent : Dict.get j m.requests ≡ none) where
    pruned_absent : Dict.get j (prune d.pruned_at m).requests ≡ none
    pruned_absent = ground (arith, get-prune d.pruned_at j m distinct)

    -- Only the two request methods put a request under an id that has none.
    pub step-absent : (c : Call) → ¬ Creates d c j → Dict.get j (step digests d c m).requests ≡ none
    unfolding step request_execution request_workspace_action new_request prepare_app_approval
        claim_app_execution deny_app_execution claim_app_workspace deny_app_workspace
        mark_app_workspace_consumed mark_app_execution_consumed mark_app_execution_retryable
        mark_app_execution_unknown
    step-absent (requests_execution args env ws) h = put_new-other _ _ j h ∙ pruned_absent
    step-absent (requests_workspace op args why) h = put_new-other _ _ j h ∙ pruned_absent
    step-absent (gets id) h = rw (get_request-requests d.pruned_at id m) pruned_absent
    step-absent (reads id nonce host) h =
        rw (read_app_status-requests digests d id nonce host m) pruned_absent
    step-absent (records id result) h = rw (record_app_outcome-requests d id result m) pruned_absent
    step-absent (prepares id host) h =
        rw give_public-manager (change-absent _ _ _ _ _ m distinct j absent)
    step-absent (claims_execution id nonce host) h =
        rw give_action-manager (change-absent _ _ _ _ _ m distinct j absent)
    step-absent (denies_execution id nonce host) h =
        rw give_public-manager (change-absent _ _ _ _ _ m distinct j absent)
    step-absent (claims_workspace id nonce host) h =
        rw give_action-manager (change-absent _ _ _ _ _ m distinct j absent)
    step-absent (denies_workspace id nonce host) h =
        rw give_public-manager (change-absent _ _ _ _ _ m distinct j absent)
    step-absent (marks_workspace_consumed id) h =
        rw give_public-manager (change-absent _ _ _ _ _ m distinct j absent)
    step-absent (marks_consumed id) h =
        rw give_public-manager (change-absent _ _ _ _ _ m distinct j absent)
    step-absent (marks_retryable id) h =
        rw give_public-manager (change-absent _ _ _ _ _ m distinct j absent)
    step-absent (marks_unknown id) h =
        rw give_public-manager (change-absent _ _ _ _ _ m distinct j absent)

-- A new request waits for a decision, and has no card yet.
abbrev pub IsNew : Request → Type 0
IsNew r = (r.state ≡ pending) × (r.approval_nonce_hash ≡ none)

-- A call that asks for what a request holds: for an execution with its action, or for a workspace
-- action.
abbrev pub IsRequest : Text → Request → Draws → Call → Type 0
IsRequest j r d (requests_execution args env ws) =
    (d.approval_id ≡ j) × (r.kind ≡ execution) × (r.action ≡ frozen_execution_action args env ws)
IsRequest j r d (requests_workspace op args why) =
    (d.approval_id ≡ j) × (r.kind ≡ workspace) × (r.action ≡ access (workspace_intent_for op args))
IsRequest j r d _ = ⊥

put_new_self :
    (q : Request) (m : Manager) → Dict.get q.approval_id (put_new q m).0.requests ≡ some q
unfolding put_new
put_new_self q m =
    ap (Dict.get q.approval_id) (emit-requests _ _ q _)
    ∙ Dict.get-set_self q.approval_id q m.requests

pub data Origin (digests : Digests) (d : Draws) (c : Call) (m : Manager) (j : Text) (r' : Request)
    : Type 0 where
  made : IsNew r' → IsRequest j r' d c → Origin digests d c m j r'
  stayed : Dict.get j m.requests ≡ some r' → Origin digests d c m j r'
  moved :
      (r : Request)
      → Dict.get j m.requests ≡ some r
      → Change digests d c j r r'
      → Origin digests d c m j r'

module _ (digests : Digests) (d : Draws) (m : Manager) (distinct : IsDistinct m) (j : Text)
    (r' : Request) where
  new-Origin :
      (c : Call) (q : Request)
      → q.approval_id ≡ j
      → IsNew q
      → IsRequest j q d c
      → Dict.get j (put_new q (prune d.pruned_at m)).0.requests ≡ some r'
      → Origin digests d c m j r'
  new-Origin c q same new asked there =
      let e : some q ≡ some r' = cc (put_new_self q (prune d.pruned_at m)) in
      made (subst IsNew (some-injective q r' e) new)
        (subst (λ r. IsRequest j r d c) (some-injective q r' e) asked)

  old-Origin :
      (c : Call)
      → ¬ Creates d c j
      → Dict.get j (step digests d c m).requests ≡ some r'
      → Origin digests d c m j r'
  old-Origin c h there = elim (Option-cases (Dict.get j m.requests)) [
    | inl absent ↦ absurd (cc (step-absent digests d m distinct j absent c h))
    | inr (r, before) ↦ elim (step-Fate digests d m j r distinct before c h) [
      | gone old e ↦ absurd (cc)
      | kept live e ↦ stayed (before ∙ sym e ∙ there)
      | changed q live e p ↦
          moved r before (subst (Change digests d c j r) (some-injective _ _ (sym e ∙ there)) p)
    ]
  ]

  made-Origin :
      (c : Call) (q : Request)
      → (step digests d c m).requests ≡ (put_new q (prune d.pruned_at m)).0.requests
      → q.approval_id ≡ d.approval_id
      → IsNew q
      → (d.approval_id ≡ j → IsRequest j q d c)
      → (Creates d c j ≡ (d.approval_id ≡ j))
      → Dict.get j (step digests d c m).requests ≡ some r'
      → Origin digests d c m j r'
  made-Origin c q e own new asked creates there = elim (Bool-cases (d.approval_id == j)) [
    | inl same ↦
        let at_j : d.approval_id ≡ j = (text_beq_iff d.approval_id j).0 same in
        new-Origin c q (own ∙ at_j) new (asked at_j) (rw e at there)
    | inr differs ↦
        old-Origin c
          (λ h.
            let k : d.approval_id ≡ j = rw creates at h in
            ground (arith, text_beq_iff d.approval_id j))
          there
  ]

  -- With each id held once, a request that is there after a call was made by that call, or was there before it and was left as
  -- it was, or was changed as the call may change it.
  pub step-Origin :
      (c : Call) → Dict.get j (step digests d c m).requests ≡ some r' → Origin digests d c m j r'
  unfolding step request_execution request_workspace_action new_request
  step-Origin (requests_execution args env ws) there =
      made-Origin (requests_execution args env ws) _ refl refl (refl, refl)
        (λ same. (same, refl, refl)) refl there
  step-Origin (requests_workspace op args why) there =
      made-Origin (requests_workspace op args why) _ refl refl (refl, refl)
        (λ same. (same, refl, refl)) refl there
  step-Origin (gets id) there = old-Origin (gets id) (λ h. h) there
  step-Origin (reads id nonce host) there = old-Origin (reads id nonce host) (λ h. h) there
  step-Origin (records id result) there = old-Origin (records id result) (λ h. h) there
  step-Origin (prepares id host) there = old-Origin (prepares id host) (λ h. h) there
  step-Origin (claims_execution id nonce host) there =
      old-Origin (claims_execution id nonce host) (λ h. h) there
  step-Origin (denies_execution id nonce host) there =
      old-Origin (denies_execution id nonce host) (λ h. h) there
  step-Origin (claims_workspace id nonce host) there =
      old-Origin (claims_workspace id nonce host) (λ h. h) there
  step-Origin (denies_workspace id nonce host) there =
      old-Origin (denies_workspace id nonce host) (λ h. h) there
  step-Origin (marks_workspace_consumed id) there =
      old-Origin (marks_workspace_consumed id) (λ h. h) there
  step-Origin (marks_consumed id) there = old-Origin (marks_consumed id) (λ h. h) there
  step-Origin (marks_retryable id) there = old-Origin (marks_retryable id) (λ h. h) there
  step-Origin (marks_unknown id) there = old-Origin (marks_unknown id) (λ h. h) there
