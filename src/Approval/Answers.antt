-- ===== src/Approval/Answers.antt =====
-- What the claiming and denying methods of ApprovalManager answer, and when.
use codex_compatible_mcp.Base.{
  ◌≡◌, refl, sym, ◌∙◌, Bool, false, Option, some, arith, Outcome, ok, err, ◌>>=◌, >>=-eq-ok,
  ok-injective,
}
use codex_compatible_mcp.Base.Text.{Text, text_eq}
use codex_compatible_mcp.Base.Dict
use codex_compatible_mcp.Approval.Types.{
  State, Kind, Action, Request, Digests, Event, ApprovalError,
}
use codex_compatible_mcp.Approval.Intents.{PublicRequest, public_request}
use codex_compatible_mcp.Approval.Receipts.{is_execution, is_workspace}
use codex_compatible_mcp.Approval.Manager.{Manager, Draws, prune, find, change, expires_unused}
use codex_compatible_mcp.Approval.Cards.{
  give_action, claim_card, claim_app_execution, claim_app_workspace, start_dispatch, is_pending,
}
use codex_compatible_mcp.Approval.Lookup.{change-result, get-change}
use codex_compatible_mcp.Approval.Changes.{Passed, claim_card-ok}
use codex_compatible_mcp.Approval.Steps.{give_action-manager}

give_action-result :
    (x : Manager × Outcome ApprovalError Request)
    → (give_action x).1 ≡ (x.1 >>= λ r. ok (public_request r, r.action))
give_action-result (m, ok r) = refl
give_action-result (m, err e) = refl

pub find-eq-ok :
    (id : Text) (m : Manager) (r : Request) → find id m ≡ ok r → Dict.get id m.requests ≡ some r
unfolding find
find-eq-ok id m r h = ground arith

pub find-of-some :
    (id : Text) (m : Manager) (r : Request) → Dict.get id m.requests ≡ some r → find id m ≡ ok r
unfolding find
find-of-some id m r h = ground arith

-- The request that a claim was for, and what the claim did to it.
pub record Claimed (digests : Digests) (d : Draws) (id nonce : Text) (host : Option Text)
    (of_kind : Kind → Bool) (allowed : State → Bool) (m : Manager) (after : Manager)
    (answer : PublicRequest × Action) : Type 0 where
  pub request : Request
  pub live : Dict.get id (prune d.pruned_at m).requests ≡ some request
  pub passed : Passed digests of_kind allowed nonce host request
  pub given_action : answer.1 ≡ request.action
  pub shown : answer.0 ≡ public_request (start_dispatch d.first_at d.second_at request)
  pub stored : Dict.get id after.requests ≡ some (start_dispatch d.first_at d.second_at request)

module _ (digests : Digests) (d : Draws) (id nonce : Text) (host : Option Text) (m : Manager)
    (of_kind : Kind → Bool) (wrong : ApprovalError) (allowed : State → Bool) (e : Event) where
  abbrev pub claim : Request → Outcome ApprovalError Request
  claim = claim_card digests d nonce host of_kind wrong allowed

  found-Claimed :
      (answer : PublicRequest × Action) (r r' : Request)
      → find id (prune d.pruned_at m) ≡ ok r
      → claim r ≡ ok r'
      → (public_request r', r'.action) ≡ answer
      → Claimed digests d id nonce host of_kind allowed m
          (give_action (change d.pruned_at id e false claim m)).0
          answer
  unfolding start_dispatch
  found-Claimed answer r r' found done same =
      let (p, eq) = claim_card-ok digests d nonce host of_kind wrong allowed r r' done in
      record {
        request = r;
        live = find-eq-ok id (prune d.pruned_at m) r found;
        passed = p;
        given_action = ground arith;
        shown = ground arith;
        stored =
            rw give_action-manager
              (ground (arith, get-change d.pruned_at id e false claim m id, Dict.beq_self id));
      }

  pub changed-Claimed :
      (answer : PublicRequest × Action)
      → (give_action (change d.pruned_at id e false claim m)).1 ≡ ok answer
      → Claimed digests d id nonce host of_kind allowed m
          (give_action (change d.pruned_at id e false claim m)).0
          answer
  changed-Claimed answer h =
      let (r', done, same) =
        >>=-eq-ok (change d.pruned_at id e false claim m).1 (λ r. ok (public_request r, r.action))
          (sym (give_action-result (change d.pruned_at id e false claim m)) ∙ h) in
      let (r, found, claimed) =
        >>=-eq-ok (find id (prune d.pruned_at m)) claim
          (sym (change-result d.pruned_at id e false claim m) ∙ done) in
      found-Claimed answer r r' found claimed (ok-injective ApprovalError same)

module _ (digests : Digests) (d : Draws) (id nonce : Text) (host : Option Text) (m : Manager)
    (answer : PublicRequest × Action) where
  -- A claim of an execution that succeeds was for a live request of that kind, which waits for a
  -- decision or a retry; it showed the secret of the request's card and, where the card is of a
  -- session, that session. The action that it hands out is the one that the live request holds, and
  -- the request is stored again, now dispatching.
  pub claim_app_execution-Claimed :
      (claim_app_execution digests d id nonce host m).1 ≡ ok answer
      → Claimed digests d id nonce host is_execution expires_unused m
          (claim_app_execution digests d id nonce host m).0
          answer
  unfolding claim_app_execution
  claim_app_execution-Claimed h = changed-Claimed digests d id nonce host m _ _ _ _ answer h

  -- A claim of a workspace action that succeeds was for a live request of that kind which was still
  -- pending; it showed the secret of the request's card and, where the card is of a session, that
  -- session. The action that it hands out is the one that the live request holds, and the request is
  -- stored again, now dispatching.
  pub claim_app_workspace-Claimed :
      (claim_app_workspace digests d id nonce host m).1 ≡ ok answer
      → Claimed digests d id nonce host is_workspace is_pending m
          (claim_app_workspace digests d id nonce host m).0
          answer
  unfolding claim_app_workspace
  claim_app_workspace-Claimed h = changed-Claimed digests d id nonce host m _ _ _ _ answer h
