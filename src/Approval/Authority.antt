-- ===== src/Approval/Authority.antt =====
-- Nothing of ApprovalManager is dispatched, or denied, without the secret of a card that was handed
-- out for it.
use codex_compatible_mcp.Base.{
  ℕ, ◌≡◌, refl, ◌≢◌, inl, inr, Bool, true, false, Option, none, some, List, [], ◌∷◌, arith,
}
use codex_compatible_mcp.Base.Text.{Text, text_eq}
use codex_compatible_mcp.Base.Dict
use codex_compatible_mcp.Approval.Types.{State, pending, dispatching, denied, Request, Digests}
use codex_compatible_mcp.Approval.Intents.{truthy}
use codex_compatible_mcp.Approval.Receipts.{is_execution, is_workspace, foreign_session}
use codex_compatible_mcp.Approval.Manager.{Manager, Draws}
use codex_compatible_mcp.Approval.Cards.{secret_matches, is_bound, start_dispatch}
use codex_compatible_mcp.Approval.Calls.{
  Call, requests_execution, requests_workspace, gets, reads, records, prepares, claims_execution,
  denies_execution, claims_workspace, denies_workspace, marks_workspace_consumed, marks_consumed,
  marks_retryable, marks_unknown,
}
use codex_compatible_mcp.Approval.Changes.{Change}
use codex_compatible_mcp.Approval.Origins.{made, stayed, moved, step-Origin}
use codex_compatible_mcp.Approval.Histories.{History, begin, next, Had, History-IsDistinct}

-- The card's secret, and its session where it has one.
abbrev pub Shows : Digests → Text → Option Text → Request → Type 0
Shows digests nonce host r =
    (secret_matches digests nonce r.approval_nonce_hash ≡ true)
    × (foreign_session r.host_session host ≡ false)

abbrev pub IsClaim : Digests → Text → Request → Draws → Call → Type 0
IsClaim digests j r d (claims_execution id nonce host) =
    (id ≡ j) × (is_execution r.kind ≡ true) × Shows digests nonce host r
IsClaim digests j r d (claims_workspace id nonce host) =
    (id ≡ j) × (is_workspace r.kind ≡ true) × Shows digests nonce host r
IsClaim digests j r d _ = ⊥

abbrev pub IsDenial : Digests → Text → Request → Draws → Call → Type 0
IsDenial digests j r d (denies_execution id nonce host) =
    (id ≡ j) × (is_execution r.kind ≡ true) × Shows digests nonce host r
IsDenial digests j r d (denies_workspace id nonce host) =
    (id ≡ j) × (is_workspace r.kind ≡ true) × Shows digests nonce host r
IsDenial digests j r d _ = ⊥

abbrev pub IsBinding : Digests → Text → Request → Draws → Call → Type 0
IsBinding digests j r d (prepares id host) =
    (id ≡ j)
    × (r.approval_nonce_hash ≡ some (digests.of_secret d.approval_nonce))
    × (r.host_session ≡ truthy host)
IsBinding digests j r d _ = ⊥

abbrev pub was_dispatched : State → Bool
was_dispatched pending = false
was_dispatched denied = false
was_dispatched _ = true

pub record Authorised (digests : Digests) (j : Text) (h : List (Draws × Call)) (r : Request)
    : Type 0 where
  pub claimed : was_dispatched r.state ≡ true → Had (IsClaim digests j r) h
  pub refused : r.state ≡ denied → Had (IsDenial digests j r) h
  pub carded : is_bound r ≡ true → Had (IsBinding digests j r) h

module _ (digests : Digests) (d : Draws) (j : Text) (h : List (Draws × Call)) where
  later : (c : Call) (r : Request) → Authorised digests j h r → Authorised digests j ((d, c) ∷ h) r
  later c r a = record {
    claimed = λ s. inr (a.claimed s);
    refused = λ s. inr (a.refused s);
    carded = λ s. inr (a.carded s);
  }

  -- A report moves a dispatched request on, and leaves its card.
  still :
      (c : Call) (q : Request)
      → q.state ≡ dispatching
      → Authorised digests j h q
      → (state : State) → state ≢ denied
      → {t u v : Option ℕ}
      → Authorised digests j
          ((d, c) ∷ h)
          (record q { state = state; consumed_at = t; retryable_at = u; unknown_at = v })
  still c q s a state other = record {
    claimed = λ _. inr (a.claimed (rw s));
    refused = λ b. absurd (other b);
    carded = λ b. inr (a.carded b);
  }

  Change-Authorised :
      (c : Call) (q q' : Request)
      → Change digests d c j q q'
      → Authorised digests j h q
      → Authorised digests j ((d, c) ∷ h) q'
  unfolding start_dispatch
  Change-Authorised (prepares id host) q q' (same, s, free, e) a = rw e (record {
    claimed = λ k. absurd (ground arith);
    refused = λ k. absurd (ground arith);
    carded = λ k. inl (same, refl, refl);
  })
  Change-Authorised (claims_execution id nonce host) q q' (same, p, e) a = rw e (record {
    claimed = λ k. inl (same, p.right_kind, (p.right_nonce, p.right_session));
    refused = λ k. absurd (cc);
    carded = λ k. inr (a.carded k);
  })
  Change-Authorised (denies_execution id nonce host) q q' (same, p, e) a = rw e (record {
    claimed = λ k. absurd (cc);
    refused = λ k. inl (same, p.right_kind, (p.right_nonce, p.right_session));
    carded = λ k. inr (a.carded k);
  })
  Change-Authorised (claims_workspace id nonce host) q q' (same, p, e) a = rw e (record {
    claimed = λ k. inl (same, p.right_kind, (p.right_nonce, p.right_session));
    refused = λ k. absurd (cc);
    carded = λ k. inr (a.carded k);
  })
  Change-Authorised (denies_workspace id nonce host) q q' (same, p, e) a = rw e (record {
    claimed = λ k. absurd (cc);
    refused = λ k. inl (same, p.right_kind, (p.right_nonce, p.right_session));
    carded = λ k. inr (a.carded k);
  })
  Change-Authorised (marks_workspace_consumed id) q q' (same, k, s, e) a =
      rw e (still (marks_workspace_consumed id) q s a _ (λ b. absurd (cc)))
  Change-Authorised (marks_consumed id) q q' (same, k, s, e) a =
      rw e (still (marks_consumed id) q s a _ (λ b. absurd (cc)))
  Change-Authorised (marks_retryable id) q q' (same, k, s, e) a =
      rw e (still (marks_retryable id) q s a _ (λ b. absurd (cc)))
  Change-Authorised (marks_unknown id) q q' (same, k, s, e) a =
      rw e (still (marks_unknown id) q s a _ (λ b. absurd (cc)))
  Change-Authorised (requests_execution args env ws) q q' h a = absurd h
  Change-Authorised (requests_workspace op args why) q q' h a = absurd h
  Change-Authorised (gets id) q q' h a = absurd h
  Change-Authorised (reads id nonce host) q q' h a = absurd h
  Change-Authorised (records id result) q q' h a = absurd h

-- By induction on the history.
pub History-Authorised :
    {digests : Digests} {start m : Manager} {h : List (Draws × Call)}
    → start.requests ≡ []
    → History digests start h m
    → (j : Text) (r : Request) → Dict.get j m.requests ≡ some r
    → Authorised digests j h r
unfolding Dict.get
History-Authorised {digests} {start} empty begin j r there =
    let e : none ≡ some r = rw empty at there in absurd (cc)
History-Authorised {digests} {start} empty (next {h} {m} past d c) j r there =
    elim (step-Origin digests d m (History-IsDistinct (rw empty tt) past) j r c there) [
      | made (p, b) asked ↦ record {
        claimed = λ k. absurd (ground arith);
        refused = λ k. absurd (ground arith);
        carded = λ k. absurd (ground arith);
      }
      | stayed before ↦ later digests d j h c r (History-Authorised empty past j r before)
      | moved q before p ↦
          Change-Authorised digests d j h c q r p (History-Authorised empty past j q before)
    ]

module _ {digests : Digests} {start m : Manager} {h : List (Draws × Call)}
    (empty : start.requests ≡ []) (past : History digests start h m) (j : Text) (r : Request)
    (there : Dict.get j m.requests ≡ some r) where
  -- In every history of a manager that starts with no requests, a request that is dispatching, or was
  -- dispatched before, was claimed by a call for its id with the method of its kind, the secret of
  -- its card and, where the card is of a session, that session.
  pub dispatched_was_claimed : was_dispatched r.state ≡ true → Had (IsClaim digests j r) h
  dispatched_was_claimed s = (History-Authorised empty past j r there).claimed s

  -- In every history of a manager that starts with no requests, a denied request was denied by a call
  -- for its id with the method of its kind, the secret of its card and, where the card is of a
  -- session, that session.
  pub denied_was_refused : r.state ≡ denied → Had (IsDenial digests j r) h
  denied_was_refused s = (History-Authorised empty past j r there).refused s

  -- In every history of a manager that starts with no requests, a request that is bound to a card was
  -- prepared by a call for its id, which drew the card's secret and named its session.
  pub card_was_prepared : is_bound r ≡ true → Had (IsBinding digests j r) h
  card_was_prepared s = (History-Authorised empty past j r there).carded s
