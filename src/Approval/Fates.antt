-- ===== src/Approval/Fates.antt =====
-- What one call of a method of ApprovalManager does to a request that is there.
use codex_compatible_mcp.Base.{
  ℕ, ◌≡◌, ◌∙◌, inl, inr, Bool, true, false, Option, none, some, arith, ◌==◌, Bool-cases, Outcome,
  ok, err, ◌>>=◌, Outcome-cases,
}
use codex_compatible_mcp.Base.Text.{Text, text_eq, text_beq_iff}
use codex_compatible_mcp.Base.Dict
use codex_compatible_mcp.Approval.Types.{Request, Event, ApprovalError, unknown_approval}
use codex_compatible_mcp.Approval.Manager.{Manager, prune, find, change, is_expired}
use codex_compatible_mcp.Approval.Lookup.{get-prune, get-change}

-- A request that has expired when the call prunes is gone; any other stays as it is or is changed
-- as the relation says.
pub data Fate (R : Request → Request → Type 0) (retention now : ℕ) (r : Request)
    (after : Option Request) : Type 0 where
  gone : is_expired retention now r ≡ true → after ≡ none → Fate R retention now r after
  kept : is_expired retention now r ≡ false → after ≡ some r → Fate R retention now r after
  changed :
      (r' : Request)
      → is_expired retention now r ≡ false
      → after ≡ some r'
      → R r r'
      → Fate R retention now r after

module _ (now : ℕ) (j : Text) (m : Manager) (r : Request) (distinct : Dict.IsDistinct m.requests)
    (there : Dict.get j m.requests ≡ some r) (R : Request → Request → Type 0) where
  pub prune-Fate : Fate R m.terminal_retention_ms now r (Dict.get j (prune now m).requests)
  prune-Fate = elim (Bool-cases (is_expired m.terminal_retention_ms now r)) [
    | inl old ↦ gone old (ground (arith, get-prune now j m distinct))
    | inr live ↦ kept live (ground (arith, get-prune now j m distinct))
  ]

  module _ (id : Text) (e : Event) (b : Bool) (f : Request → Outcome ApprovalError Request)
      (changes : id ≡ j → (q q' : Request) → f q ≡ ok q' → R q q') where
    found-Fate :
        id ≡ j
        → is_expired m.terminal_retention_ms now r ≡ false
        → Fate R m.terminal_retention_ms now r (Dict.get j (change now id e b f m).0.requests)
    found-Fate same live = elim (Outcome-cases (f r)) [
      | inl (r', p) ↦
          changed r' live (ground (arith, get-change now id e b f m j, found, text_beq_iff id j))
            (changes same r r' p)
      | inr (x, p) ↦ kept live (ground (arith, get-change now id e b f m j, found, there_still))
    ]
      where
        there_still : Dict.get j (prune now m).requests ≡ some r
        there_still = ground (arith, get-prune now j m distinct)

        found : find id (prune now m) ≡ ok r
        found = rw same (unfold find in ground (arith, there_still))

    other_lem :
        (id == j) ≡ false
        → Dict.get j (change now id e b f m).0.requests ≡ Dict.get j (prune now m).requests
    other_lem differs = elim (Outcome-cases (find id (prune now m) >>= f)) [
      | inl (q, p) ↦ get-change now id e b f m j ∙ rw (p, differs)
      | inr (x, p) ↦ get-change now id e b f m j ∙ rw p
    ]

    missing_lem :
        id ≡ j
        → is_expired m.terminal_retention_ms now r ≡ true
        → Dict.get j (change now id e b f m).0.requests ≡ none
    missing_lem same old = ground (arith, get-change now id e b f m j, not_found, absent)
      where
        absent : Dict.get j (prune now m).requests ≡ none
        absent = ground (arith, get-prune now j m distinct)

        not_found : find id (prune now m) ≡ err unknown_approval
        not_found = rw same (unfold find in ground (arith, absent))

    same_Fate :
        id ≡ j
        → Fate R m.terminal_retention_ms now r (Dict.get j (change now id e b f m).0.requests)
    same_Fate same = elim (Bool-cases (is_expired m.terminal_retention_ms now r)) [
      | inl old ↦ gone old (missing_lem same old)
      | inr live ↦ found-Fate same live
    ]

    pub change-Fate :
        Fate R m.terminal_retention_ms now r (Dict.get j (change now id e b f m).0.requests)
    change-Fate = elim (Bool-cases (id == j)) [
      | inl same ↦ same_Fate ((text_beq_iff id j).0 same)
      | inr differs ↦ rw (other_lem differs) prune-Fate
    ]
