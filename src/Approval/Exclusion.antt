-- ===== src/Approval/Exclusion.antt =====
-- A request of ApprovalManager is dispatched once, until its action is reported to be retryable.
use codex_compatible_mcp.Base.{ℕ, ◌≡◌, ◌≢◌, refl, false, Option, none, some, List, arith, ok}
use codex_compatible_mcp.Base.Text.{Text, text_eq}
use codex_compatible_mcp.Base.Dict
use codex_compatible_mcp.Approval.Types.{Action, Request, Digests}
use codex_compatible_mcp.Approval.Intents.{PublicRequest}
use codex_compatible_mcp.Approval.Receipts.{is_execution}
use codex_compatible_mcp.Approval.Manager.{Manager, Draws, prune, expires_unused}
use codex_compatible_mcp.Approval.Cards.{claim_app_execution, claim_app_workspace, start_dispatch}
use codex_compatible_mcp.Approval.Calls.{
  Call, requests_execution, requests_workspace, gets, prepares, claims_execution, denies_execution,
  claims_workspace, denies_workspace, marks_workspace_consumed, marks_consumed, marks_retryable,
  marks_unknown, step,
}
use codex_compatible_mcp.Approval.Lookup.{get-prune}
use codex_compatible_mcp.Approval.Changes.{Change}
use codex_compatible_mcp.Approval.Advances.{pending-expires}
use codex_compatible_mcp.Approval.Fates.{gone, kept, changed}
use codex_compatible_mcp.Approval.Steps.{Creates, step-Fate}
use codex_compatible_mcp.Approval.Origins.{IsDistinct, step-absent, step-IsDistinct}
use codex_compatible_mcp.Approval.Histories.{History, begin, next, HadNo, History-IsDistinct}
use codex_compatible_mcp.Approval.Answers.{
  Claimed, claim_app_execution-Claimed, claim_app_workspace-Claimed,
}

-- A new request under the id, or the report that its action did not run.
abbrev pub Reopens : Text → Draws → Call → Type 0
Reopens j d (requests_execution args env ws) = d.approval_id ≡ j
Reopens j d (requests_workspace op args why) = d.approval_id ≡ j
Reopens j d (marks_retryable id) = id ≡ j
Reopens j d _ = ⊥

-- Nothing is left to claim under the id.
pub data IsClosed (j : Text) (m : Manager) : Type 0 where
  absent : Dict.get j m.requests ≡ none → IsClosed j m
  decided :
      (r : Request) → Dict.get j m.requests ≡ some r → expires_unused r.state ≡ false → IsClosed j m

Creates-Reopens : (j : Text) (d : Draws) (c : Call) → Creates d c j → Reopens j d c
Creates-Reopens j d (requests_execution args env ws) h = h
Creates-Reopens j d (requests_workspace op args why) h = h
Creates-Reopens j d (gets id) h = absurd h
Creates-Reopens j d _ h = absurd h

-- A change that reopens nothing keeps a request decided.
Change-decided :
    (digests : Digests) (d : Draws) (c : Call) (j : Text) (q q' : Request)
    → ¬ Reopens j d c
    → Change digests d c j q q'
    → expires_unused q.state ≡ false
    → expires_unused q'.state ≡ false
unfolding start_dispatch
Change-decided digests d (prepares id host) j q q' h (same, s, b, e) k = absurd (ground arith)
Change-decided digests d (claims_execution id nonce host) j q q' h (same, p, e) k = rw e
Change-decided digests d (denies_execution id nonce host) j q q' h (same, p, e) k = rw e
Change-decided digests d (claims_workspace id nonce host) j q q' h (same, p, e) k = rw e
Change-decided digests d (denies_workspace id nonce host) j q q' h (same, p, e) k = rw e
Change-decided digests d (marks_workspace_consumed id) j q q' h (same, _, s, e) k = rw e
Change-decided digests d (marks_consumed id) j q q' h (same, _, s, e) k = rw e
Change-decided digests d (marks_retryable id) j q q' h (same, _, s, e) k = absurd (h same)
Change-decided digests d (marks_unknown id) j q q' h (same, _, s, e) k = rw e
Change-decided digests d _ j q q' h p k = absurd p

module _ (digests : Digests) (j : Text) where
  step-IsClosed :
      (d : Draws) (c : Call) (m : Manager)
      → IsDistinct m
      → ¬ Reopens j d c
      → IsClosed j m
      → IsClosed j (step digests d c m)
  step-IsClosed d c m distinct h (absent e) =
      absent (step-absent digests d m distinct j e c (λ k. h (Creates-Reopens j d c k)))
  step-IsClosed d c m distinct h (decided r e s) =
      elim (step-Fate digests d m j r distinct e c (λ k. h (Creates-Reopens j d c k))) [
        | gone old e' ↦ absent e'
        | kept live e' ↦ decided r e' s
        | changed r' live e' p ↦ decided r' e' (Change-decided digests d c j r r' h p s)
      ]

  pub History-IsClosed :
      {start m : Manager} {h : List (Draws × Call)}
      → IsDistinct start
      → IsClosed j start
      → History digests start h m
      → HadNo (Reopens j) h
      → IsClosed j m
  History-IsClosed distinct shut begin _ = shut
  History-IsClosed distinct shut (next {m = m} past d c) (keeps, none_before) =
      step-IsClosed d c m (History-IsDistinct distinct past) keeps
        (History-IsClosed distinct shut past none_before)

  -- Pruning brings nothing back.
  pruned-decided :
      (now : ℕ) (m : Manager) (r : Request)
      → IsDistinct m
      → IsClosed j m
      → Dict.get j (prune now m).requests ≡ some r
      → expires_unused r.state ≡ false
  pruned-decided now m r distinct (absent e) there =
      absurd (ground (arith, get-prune now j m distinct))
  pruned-decided now m r distinct (decided q e s) there = ground (arith, get-prune now j m distinct)

  module _ (d : Draws) (nonce : Text) (host : Option Text) (m : Manager) (distinct : IsDistinct m)
      (shut : IsClosed j m) (answer : PublicRequest × Action) where
    pub closed_execution : (claim_app_execution digests d j nonce host m).1 ≢ ok answer
    closed_execution h =
        let c = claim_app_execution-Claimed digests d j nonce host m answer h in
        absurd (
          ground (
            arith,
            pruned-decided d.pruned_at m c.request distinct shut c.live,
            c.passed.right_state,
          ))

    pub closed_workspace : (claim_app_workspace digests d j nonce host m).1 ≢ ok answer
    closed_workspace h =
        let c = claim_app_workspace-Claimed digests d j nonce host m answer h in
        absurd (
          ground (
            arith,
            pruned-decided d.pruned_at m c.request distinct shut c.live,
            pending-expires c.request.state c.passed.right_state,
          ))

-- With each id held once: after a successful claim of an execution, no further claim under its id
-- succeeds, whatever other calls are made in between and whatever secret is shown, unless the action
-- was reported to be retryable or a new request was made under the id.
pub claimed_once :
    (digests : Digests) (d : Draws) (j nonce : Text) (host : Option Text) (m : Manager)
    (answer : PublicRequest × Action)
    → IsDistinct m
    → (claim_app_execution digests d j nonce host m).1 ≡ ok answer
    → {h : List (Draws × Call)} {m' : Manager}
    → History digests (claim_app_execution digests d j nonce host m).0 h m'
    → HadNo (Reopens j) h
    → (d' : Draws) (nonce' : Text) (host' : Option Text) (answer' : PublicRequest × Action)
    → ((claim_app_execution digests d' j nonce' host' m').1 ≢ ok answer')
      × ((claim_app_workspace digests d' j nonce' host' m').1 ≢ ok answer')
unfolding step start_dispatch
claimed_once digests d j nonce host m answer distinct done {h} {m'} past none_between d' nonce'
      host' answer' =
    (
      closed_execution digests j d' nonce' host' m' distinct' shut answer',
      closed_workspace digests j d' nonce' host' m' distinct' shut answer',
    )
  where
    after : IsDistinct (claim_app_execution digests d j nonce host m).0
    after = step-IsDistinct digests d m distinct (claims_execution j nonce host)

    claimed :
        Claimed digests d j nonce host is_execution expires_unused m
          (claim_app_execution digests d j nonce host m).0
          answer
    claimed = claim_app_execution-Claimed digests d j nonce host m answer done

    distinct' : IsDistinct m'
    distinct' = History-IsDistinct after past

    shut : IsClosed j m'
    shut = History-IsClosed digests j after (decided _ claimed.stored refl) past none_between
