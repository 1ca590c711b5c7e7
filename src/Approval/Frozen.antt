-- ===== src/Approval/Frozen.antt =====
-- What a claim of ApprovalManager hands out, in a history of calls.
use codex_compatible_mcp.Base.{
  ◌≡◌, sym, ap, ◌∙◌, inl, inr, true, Option, none, some, List, [], ◌∷◌, arith, ok,
}
use codex_compatible_mcp.Base.Text.{Text, text_eq}
use codex_compatible_mcp.Base.Dict
use codex_compatible_mcp.Approval.Types.{Action, Request, Digests}
use codex_compatible_mcp.Approval.Intents.{PublicRequest, frozen_execution_action}
use codex_compatible_mcp.Approval.Receipts.{is_execution}
use codex_compatible_mcp.Approval.Manager.{Manager, Draws}
use codex_compatible_mcp.Approval.Cards.{claim_app_execution}
use codex_compatible_mcp.Approval.Calls.{
  Call, requests_execution, requests_workspace, gets, reads, records, prepares, claims_execution,
  denies_execution, claims_workspace, denies_workspace, marks_workspace_consumed, marks_consumed,
  marks_retryable, marks_unknown,
}
use codex_compatible_mcp.Approval.Lookup.{get-prune}
use codex_compatible_mcp.Approval.Advances.{Advance, Change-Advance}
use codex_compatible_mcp.Approval.Origins.{made, stayed, moved, IsRequest, step-Origin}
use codex_compatible_mcp.Approval.Histories.{History, begin, next, Had, History-IsDistinct}
use codex_compatible_mcp.Approval.Answers.{claim_app_execution-Claimed}

Had-map :
    (P Q : Draws → Call → Type 0)
    → ((d : Draws) (c : Call) → P d c → Q d c)
    → (h : List (Draws × Call)) → Had P h
    → Had Q h
Had-map P Q f [] had = had
Had-map P Q f ((d, c) ∷ h) (inl now) = inl (f d c now)
Had-map P Q f ((d, c) ∷ h) (inr past) = inr (Had-map P Q f h past)

-- A request that moved on was asked for by the same calls.
Advance-IsRequest :
    (j : Text) (r r' : Request)
    → Advance r r'
    → (d : Draws) (c : Call) → IsRequest j r d c
    → IsRequest j r' d c
Advance-IsRequest j r r' a d (requests_execution args env ws) (id, kind, action) =
    (id, a.same_kind ∙ kind, a.same_action ∙ action)
Advance-IsRequest j r r' a d (requests_workspace op args why) (id, kind, action) =
    (id, a.same_kind ∙ kind, a.same_action ∙ action)
Advance-IsRequest j r r' a d (gets id) h = absurd h
Advance-IsRequest j r r' a d (reads id nonce host) h = absurd h
Advance-IsRequest j r r' a d (records id result) h = absurd h
Advance-IsRequest j r r' a d (prepares id host) h = absurd h
Advance-IsRequest j r r' a d (claims_execution id nonce host) h = absurd h
Advance-IsRequest j r r' a d (denies_execution id nonce host) h = absurd h
Advance-IsRequest j r r' a d (claims_workspace id nonce host) h = absurd h
Advance-IsRequest j r r' a d (denies_workspace id nonce host) h = absurd h
Advance-IsRequest j r r' a d (marks_workspace_consumed id) h = absurd h
Advance-IsRequest j r r' a d (marks_consumed id) h = absurd h
Advance-IsRequest j r r' a d (marks_retryable id) h = absurd h
Advance-IsRequest j r r' a d (marks_unknown id) h = absurd h

-- By induction on the history.
History-IsRequest :
    {digests : Digests} {start m : Manager} {h : List (Draws × Call)}
    → start.requests ≡ []
    → History digests start h m
    → (j : Text) (r : Request) → Dict.get j m.requests ≡ some r
    → Had (IsRequest j r) h
unfolding Dict.get
History-IsRequest {digests} {start} empty begin j r there =
    let e : none ≡ some r = rw empty at there in absurd (cc)
History-IsRequest {digests} {start} empty (next {h} {m} past d c) j r there =
    elim (step-Origin digests d m (History-IsDistinct (rw empty tt) past) j r c there) [
      | made new asked ↦ inl asked
      | stayed before ↦ inr (History-IsRequest empty past j r before)
      | moved q before p ↦ inr (
          Had-map (IsRequest j q) (IsRequest j r)
            (Advance-IsRequest j q r (Change-Advance digests d c j q r p)) h
            (History-IsRequest empty past j q before))
    ]

-- A call that asks for the execution of an action under an id.
abbrev pub Asked : Text → Action → Draws → Call → Type 0
Asked j action d (requests_execution args env ws) =
    (d.approval_id ≡ j) × (action ≡ frozen_execution_action args env ws)
Asked j action d _ = ⊥

IsRequest-Asked :
    (j : Text) (r : Request)
    → is_execution r.kind ≡ true
    → (d : Draws) (c : Call) → IsRequest j r d c
    → Asked j r.action d c
IsRequest-Asked j r k d (requests_execution args env ws) (id, kind, action) = (id, action)
IsRequest-Asked j r k d (requests_workspace op args why) (id, kind, action) =
    absurd (cc (sym (ap is_execution kind) ∙ k))
IsRequest-Asked j r k d (gets id) h = absurd h
IsRequest-Asked j r k d (reads id nonce host) h = absurd h
IsRequest-Asked j r k d (records id result) h = absurd h
IsRequest-Asked j r k d (prepares id host) h = absurd h
IsRequest-Asked j r k d (claims_execution id nonce host) h = absurd h
IsRequest-Asked j r k d (denies_execution id nonce host) h = absurd h
IsRequest-Asked j r k d (claims_workspace id nonce host) h = absurd h
IsRequest-Asked j r k d (denies_workspace id nonce host) h = absurd h
IsRequest-Asked j r k d (marks_workspace_consumed id) h = absurd h
IsRequest-Asked j r k d (marks_consumed id) h = absurd h
IsRequest-Asked j r k d (marks_retryable id) h = absurd h
IsRequest-Asked j r k d (marks_unknown id) h = absurd h

-- In every history of a manager that starts with no requests: if a claim of an execution then succeeds,
-- the action that it hands out was asked for, by a call of the history that drew its id and froze the
-- action from that call's own arguments, environment and workspace.
pub claimed_action_was_requested :
    {digests : Digests} {start m : Manager} {h : List (Draws × Call)}
    → start.requests ≡ []
    → History digests start h m
    → (d : Draws) (id nonce : Text) (host : Option Text) (answer : PublicRequest × Action)
    → (claim_app_execution digests d id nonce host m).1 ≡ ok answer
    → Had (Asked id answer.1) h
claimed_action_was_requested {digests} {start} {m} {h} empty past d id nonce host answer e =
    let c = claim_app_execution-Claimed digests d id nonce host m answer e in
    let distinct = History-IsDistinct (rw empty tt) past in
    let there : Dict.get id m.requests ≡ some c.request =
      ground (arith, c.live, get-prune d.pruned_at id m distinct) in
    let asked = History-IsRequest empty past id c.request there in
    rw c.given_action (
      Had-map (IsRequest id c.request) (Asked id c.request.action)
        (IsRequest-Asked id c.request c.passed.right_kind) h asked)
